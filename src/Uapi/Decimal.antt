-- ===== src/Uapi/Decimal.antt =====
-- The numbers that the get operation writes are read by the set operation.
use wireguard_go.Base.{
  ℕ, zero, suc, ◌+◌, ◌-◌, ◌*◌, ◌/◌, ◌%◌, ◌^◌, ◌<◌, ◌≤◌, ◌≡◌, refl, ap, ◌∙◌, inl, inr, Option, Bool,
  true, false, none, some, List, [], ◌∷◌, ◌++◌, ltb, leb, ◌&&◌, if◌then◌else◌, Bool-cases, arith,
  lt→ltb, ltb→lt, length, length-append,
}
use native.Mathlib.Nat.{pow-suc, pow-le-pow_right}
use wireguard_go.Uapi.Fields.{parse_digits, in_range, parse_uint}
use wireguard_go.Uapi.Get.{digits, decimal}

is_digit : (d : ℕ) → d < 10 → (leb 48 (48 + d) && leb (48 + d) 57) ≡ true
is_digit d lt = ground arith

if_some :
    (b : Bool) (o : Option ℕ) (m : ℕ) → (if b then o else none) ≡ some m → (b ≡ true) × (o ≡ some m)
if_some true o m h = (refl, h)
if_some false o m h = absurd cc

parse_digits-snoc :
    (n m : ℕ) (xs : List ℕ) (d : ℕ)
    → d < 10
    → parse_digits n xs ≡ some m
    → parse_digits n (xs ++ (48 + d) ∷ []) ≡ some (m * 10 + d)
unfolding parse_digits
parse_digits-snoc n m [] d lt h =
    let same : n ≡ m = cc in
    let value : n * 10 + (48 + d - 48) ≡ m * 10 + d = omega (arith, same) in
    simp (is_digit d lt, value) refl
parse_digits-snoc n m (x ∷ xs) d lt h =
    let (digit, h') = if_some (leb 48 x && leb x 57) (parse_digits (n * 10 + (x - 48)) xs) m h in
    simp digit (parse_digits-snoc (n * 10 + (x - 48)) m xs d lt h')

one_digit : (x : ℕ) → x < 10 → parse_digits 0 ((48 + x) ∷ []) ≡ some x
unfolding parse_digits
one_digit x lt =
    let value : 0 * 10 + (48 + x - 48) ≡ x = omega arith in simp (is_digit x lt) (ap some value)

parse_digits-digits : (k x : ℕ) → x < 10 ^ suc k → parse_digits 0 (digits (suc k) x) ≡ some x
unfolding digits
parse_digits-digits zero x lt =
    let small : x < 10 = omega arith in simp (lt→ltb x 10 small) (one_digit x small)
parse_digits-digits (suc k) x lt = elim (Bool-cases (ltb x 10)) [
  | inl one ↦ simp one (one_digit x (ltb→lt x 10 one))
  | inr more ↦
      let fewer = parse_digits-digits k (x / 10) (omega (arith, pow-suc 10 (suc k))) in
      simp more (
        parse_digits-snoc 0 (x / 10) (digits (suc k) (x / 10)) (x % 10) (omega arith) fewer
        ∙ ap some (omega arith))
]

-- ParseUint looks at the range alone, once there is a digit.
parse_uint-some :
    (bits n : ℕ) (xs : List ℕ)
    → 0 < length xs
    → parse_digits 0 xs ≡ some n
    → n < 2 ^ bits
    → parse_uint bits xs ≡ some n
unfolding parse_uint in_range
parse_uint-some bits n [] h e lt = absurd (omega arith)
parse_uint-some bits n (x ∷ xs) h e lt = ap (in_range bits) e ∙ simp (lt→ltb n (2 ^ bits) lt) refl

digits_nonempty : (k x : ℕ) → 0 < length (digits (suc k) x)
unfolding digits
digits_nonempty k x = elim (Bool-cases (ltb x 10)) [
  | inl one ↦ simp one (omega arith)
  | inr more ↦ simp more (omega (arith, length-append (digits k (x / 10)) ((48 + x % 10) ∷ [])))
]

-- A number that fits into its bits, at most 64, is read back from its decimal digits: what the get
-- operation writes of a port, a mark or an interval is what the set operation reads.
pub parse_uint-decimal :
    (bits n : ℕ) → bits ≤ 64 → n < 2 ^ bits → parse_uint bits (decimal n) ≡ some n
unfolding decimal
parse_uint-decimal bits n le lt =
    let two : 0 < 2 = omega arith in
    parse_uint-some bits n (digits 20 n) (digits_nonempty 19 n)
      (parse_digits-digits 19 n (omega (arith, pow-le-pow_right two le))) lt
