-- ===== src/Trie/Common.antt =====
-- commonBits of trie.go counts the leading bits that agree.
use wireguard_go.Base.{
  ℕ, zero, suc, ◌+◌, ◌-◌, ◌*◌, ◌/◌, ◌%◌, ◌≤◌, ◌<◌, ◌≡◌, refl, sym, subst, ◌∙◌, ◌≢◌, ◌⊎◌, inl, inr,
  false, List, [], ◌∷◌, arith, ltb, leb, ◌==◌, Bool-cases, ==→eq, bit_xor, leb→le, le→leb,
  ==-false→ne,
}
use wireguard_go.Base.Bits.{
  bit, shifted, bit_eq_of_shifted_xor, bit_ne_of_shifted_xor, bit_xor-lt, eq_of_bit_xor,
}
use wireguard_go.Trie.{leading, common_bits_from, common_bits}
use wireguard_go.Trie.Address.{ip_bit, IsAddress, Agree, agrees, agrees→Agree, Agree→agrees}

-- The ladder of shifts finds the highest bit of a byte.
leading_lem :
    (v : ℕ)
    → v < 256
    → v ≢ 0
    → (leading v < 8) × (shifted v (8 - leading v) ≡ 0) × (shifted v (7 - leading v) ≡ 1)
unfolding leading shifted
leading_lem v h ne = ground arith

ip_bit-head : (x : ℕ) (xs : List ℕ) (j : ℕ) → j < 8 → ip_bit (x ∷ xs) j ≡ bit x (7 - j)
unfolding ip_bit
ip_bit-head x xs j h =
    let first : j / 8 ≡ 0 = omega arith in
    let place : 7 - j % 8 ≡ 7 - j = omega arith in rw (first, place)

ip_bit-tail : (x : ℕ) (xs : List ℕ) (j : ℕ) → ip_bit (x ∷ xs) (8 + j) ≡ ip_bit xs j
unfolding ip_bit
ip_bit-tail x xs j =
    let next : (8 + j) / 8 ≡ suc (j / 8) = omega arith in
    let place : (8 + j) % 8 ≡ j % 8 = omega arith in rw (next, place)

common_bits_from-offset :
    (i : ℕ) (a b : List ℕ) → common_bits_from i a b ≡ i * 8 + common_bits_from 0 a b
unfolding common_bits_from
common_bits_from-offset i [] b = omega arith
common_bits_from-offset i (x ∷ a) [] = omega arith
common_bits_from-offset i (x ∷ a) (y ∷ b) =
    ground (arith, common_bits_from-offset (i + 1) a b, common_bits_from-offset 1 a b)

-- The first n bits agree, and either that is all of them or the next bit differs.
abbrev pub IsCommon : ℕ → List ℕ → List ℕ → ℕ → Type 0
IsCommon size a b n = Agree n a b × ((n ≡ size * 8) ⊎ ((n < size * 8) × (ip_bit a n ≢ ip_bit b n)))

Agree-cons : (x : ℕ) (a b : List ℕ) (n : ℕ) → Agree n a b → Agree (8 + n) (x ∷ a) (x ∷ b)
Agree-cons x a b n h j p = elim (Bool-cases (ltb j 8)) [
  | inl first ↦ ip_bit-head x a j (ground arith) ∙ sym (ip_bit-head x b j (ground arith))
  | inr later ↦ subst (λ i. ip_bit (x ∷ a) i ≡ ip_bit (x ∷ b) i) (place later) (tails later)
]
  where
    place : ltb j 8 ≡ false → 8 + (j - 8) ≡ j
    place later = ground arith

    tails : ltb j 8 ≡ false → ip_bit (x ∷ a) (8 + (j - 8)) ≡ ip_bit (x ∷ b) (8 + (j - 8))
    tails later = ip_bit-tail x a (j - 8) ∙ h (j - 8) (ground arith) ∙ sym (ip_bit-tail x b (j - 8))

IsCommon-cons :
    (size x : ℕ) (a b : List ℕ) (n : ℕ)
    → IsCommon size a b n
    → IsCommon (suc size) (x ∷ a) (x ∷ b) (8 + n)
IsCommon-cons size x a b n (h, inl full) = (Agree-cons x a b n h, inl (omega arith))
IsCommon-cons size x a b n (h, inr (lt, ne)) = (
  Agree-cons x a b n h,
  inr (omega arith, λ e. ne (sym (ip_bit-tail x a n) ∙ e ∙ ip_bit-tail x b n)),
)

-- The first byte differs.
IsCommon-leading :
    (size x y : ℕ) (a b : List ℕ)
    → x < 256
    → y < 256
    → bit_xor x y ≢ 0
    → IsCommon (suc size) (x ∷ a) (y ∷ b) (leading (bit_xor x y))
IsCommon-leading size x y a b hx hy ne =
    let (small, high, top) = leading_lem (bit_xor x y) (bit_xor-lt 8 x y hx hy) ne in
    (
      λ j p.
          ip_bit-head x a j (omega arith)
          ∙ bit_eq_of_shifted_xor (8 - leading (bit_xor x y)) (7 - j) x y (omega arith) high
          ∙ sym (ip_bit-head y b j (omega arith)),
      inr (
        omega arith,
        λ e.
            bit_ne_of_shifted_xor (7 - leading (bit_xor x y)) x y top
              (sym (ip_bit-head x a _ small) ∙ e ∙ ip_bit-head y b _ small),
      ),
    )

common_bits_from-IsCommon :
    (size : ℕ) (a b : List ℕ)
    → IsAddress size a
    → IsAddress size b
    → IsCommon size a b (common_bits_from 0 a b)
unfolding common_bits_from
common_bits_from-IsCommon zero [] [] p q = (λ j h. elim h [ ], inl refl)
common_bits_from-IsCommon zero [] (y ∷ b) p q = absurd q
common_bits_from-IsCommon zero (x ∷ a) b p q = absurd p
common_bits_from-IsCommon (suc size) [] b p q = absurd p
common_bits_from-IsCommon (suc size) (x ∷ a) [] p q = absurd q
common_bits_from-IsCommon (suc size) (x ∷ a) (y ∷ b) p q = elim (Bool-cases (bit_xor x y == 0)) [
  | inl same ↦
      rw (same, eq_of_bit_xor x y (==→eq _ _ same), common_bits_from-offset 1 a b)
        (IsCommon-cons size y a b _ (common_bits_from-IsCommon size a b p.1 q.1))
  | inr differ ↦
      subst (IsCommon (suc size) (x ∷ a) (y ∷ b)) (ground arith)
        (IsCommon-leading size x y a b p.0 q.0 (==-false→ne _ _ differ))
]

-- commonBits of two addresses of the same size: the bits before its result agree, and the bit at it
-- differs unless the result is the whole length.
pub common_bits-IsCommon :
    (size : ℕ) (a b : List ℕ)
    → IsAddress size a
    → IsAddress size b
    → IsCommon size a b (common_bits a b)
unfolding common_bits
common_bits-IsCommon size a b p q = common_bits_from-IsCommon size a b p q

pub le_of_Agree :
    (size : ℕ) (a b : List ℕ) (c n : ℕ) → IsCommon size a b n → c ≤ size * 8 → Agree c a b → c ≤ n
le_of_Agree size a b c n (h, inl full) le g = omega arith
le_of_Agree size a b c n (h, inr (lt, ne)) le g = elim (Bool-cases (leb c n)) [
  | inl fits ↦ leb→le _ _ fits
  | inr over ↦ absurd (ne (g n (ground arith)))
]

-- So "at least c common bits" tests that the first c bits agree.
pub leb-common_bits :
    (size : ℕ) (a b : List ℕ) (c : ℕ)
    → IsAddress size a
    → IsAddress size b
    → c ≤ size * 8
    → leb c (common_bits a b) ≡ agrees c a b
leb-common_bits size a b c p q h = elim (Bool-cases (agrees c a b)) [
  | inl same ↦ le→leb _ _ (le_of_Agree size a b c _ common h (agrees→Agree c a b same)) ∙ sym same
  | inr differ ↦ elim (Bool-cases (leb c (common_bits a b))) [
    | inl fits ↦ cc (Agree→agrees c a b (λ j lt. common.0 j (omega (arith, leb→le _ _ fits))))
    | inr over ↦ over ∙ sym differ
  ]
]
  where
    common : IsCommon size a b (common_bits a b)
    common = common_bits-IsCommon size a b p q
