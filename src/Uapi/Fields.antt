-- ===== src/Uapi/Fields.antt =====
-- The fields of a line of the configuration: strconv.ParseUint and strings.Split.
use wireguard_go.Base.{
  ℕ, ◌+◌, ◌-◌, ◌*◌, ◌^◌, Bool, false, ◌&&◌, ◌||◌, Option, none, some, List, [], ◌∷◌, ltb, leb, ◌==◌,
  if◌then◌else◌,
}
use wireguard_go.Base.Do.{◌>>=◌}

-- strconv.ParseUint in base 10: digits, and at most `bits` bits.
unfoldable pub parse_digits : ℕ → List ℕ → Option ℕ
parse_digits n [] = some n
parse_digits n (d ∷ ds) =
    let rest = parse_digits (n * 10 + (d - 48)) ds in if leb 48 d && leb d 57 then rest else none

unfoldable pub in_range : ℕ → Option ℕ → Option ℕ
in_range bits none = none
in_range bits (some n) = if ltb n (2 ^ bits) then some n else none

unfoldable pub parse_uint : ℕ → List ℕ → Option ℕ
unfolding parse_digits in_range
parse_uint bits [] = none
parse_uint bits (d ∷ ds) = in_range bits (parse_digits 0 (d ∷ ds))

-- strings.Split(line, "="), for a line with two parts.
unfoldable pub before : List ℕ → Option (List ℕ × List ℕ)
before [] = none
before (x ∷ xs) =
    let rest = before xs >>= (λ p. some ((x ∷ p.0), p.1)) in if x == 61 then some ([], xs) else rest

unfoldable pub has_equals : List ℕ → Bool
has_equals [] = false
has_equals (x ∷ xs) = x == 61 || has_equals xs

unfoldable pub two_parts : Option (List ℕ × List ℕ) → Option (List ℕ × List ℕ)
unfolding has_equals
two_parts none = none
two_parts (some (key, value)) = if has_equals value then none else some (key, value)

unfoldable pub split : List ℕ → Option (List ℕ × List ℕ)
unfolding before two_parts
split line = two_parts (before line)
