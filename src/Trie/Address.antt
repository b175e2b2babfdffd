-- ===== src/Trie/Address.antt =====
-- Addresses bit by bit, from the most significant: what "the first k bits agree" means for trie.go.
use wireguard_go.Base.{
  ℕ, zero, suc, ◌-◌, ◌/◌, ◌%◌, ◌<◌, ◌≡◌, refl, Bool, true, false, List, [], ◌∷◌, inl, inr, arith,
  ◌==◌, if◌then◌else◌, get_or, Bool-cases, ==→eq,
}
use wireguard_go.Base.Bits.{bit}

-- The bit j of an address.
unfoldable pub ip_bit : List ℕ → ℕ → ℕ
ip_bit ip j = bit (get_or ip (j / 8) 0) (7 - j % 8)

-- `size` bytes, each below 256.
abbrev pub IsAddress : ℕ → List ℕ → Type 0
IsAddress zero [] = Unit {0}
IsAddress zero (x ∷ xs) = ⊥
IsAddress (suc n) [] = ⊥
IsAddress (suc n) (x ∷ xs) = (x < 256) × IsAddress n xs

-- The first k bits are the same.
abbrev pub Agree : ℕ → List ℕ → List ℕ → Type 0
Agree k a b = (j : ℕ) → j < k → ip_bit a j ≡ ip_bit b j

unfoldable pub agrees : ℕ → List ℕ → List ℕ → Bool
agrees zero a b = true
agrees (suc k) a b = if ip_bit a k == ip_bit b k then agrees k a b else false

pub agrees→Agree : (k : ℕ) (a b : List ℕ) → agrees k a b ≡ true → Agree k a b
unfolding agrees
agrees→Agree zero a b h j p = elim p [ ]
agrees→Agree (suc k) a b h j p = elim (Bool-cases (j == k)) [
  | inl e ↦ rw (==→eq j k e) (ground arith)
  | inr n ↦ agrees→Agree k a b (ground arith) j (ground arith)
]

pub Agree→agrees : (k : ℕ) (a b : List ℕ) → Agree k a b → agrees k a b ≡ true
unfolding agrees
Agree→agrees zero a b h = refl
Agree→agrees (suc k) a b h =
    ground (arith, h k (omega arith), Agree→agrees k a b (λ j p. h j (omega arith)))
