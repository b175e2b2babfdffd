-- ===== src/Base/Bits/Step.antt =====
-- The native bit operations are a recursion on binary digits with fuel. Here the fuel is dropped.
use Prim.Native.Nat.{
  ℕ, zero, suc, ◌+◌, ◌-◌, ◌*◌, ◌/◌, ◌%◌, ◌≤◌, ◌<◌, max, min, digits, bitwise, bit_and, bit_or,
  bit_xor, bit_and-bitwise, bit_or-bitwise, bit_xor-bitwise, differ,
}
use mathlib.Core.Path.{◌≡◌, refl, ap, ◌∙◌}
use native.Mathlib.Omega.{arith}

-- One unit of fuel above the number changes nothing, and so no amount does.
spare_unit :
    (z : ℕ → ℕ) (f : ℕ → ℕ → ℕ) (fuel x y : ℕ)
    → x ≤ fuel
    → digits z f (suc fuel) x y ≡ digits z f fuel x y
spare_unit z f zero zero y fits = refl
spare_unit z f zero (suc x) y fits = absurd (omega arith)
spare_unit z f (suc fuel) zero y fits = refl
spare_unit z f (suc fuel) (suc x) y fits =
    ap (λ r. r * 2 + f (suc x % 2) (y % 2)) (spare_unit z f fuel (suc x / 2) (y / 2) (omega arith))

spare : (z : ℕ → ℕ) (f : ℕ → ℕ → ℕ) (more x y : ℕ) → digits z f (more + x) x y ≡ digits z f x x y
spare z f zero x y = ap (λ n. digits z f n x y) (omega arith)
spare z f (suc more) x y =
    let next : suc more + x ≡ suc (more + x) = omega arith in
    ap (λ n. digits z f n x y) next
    ∙ spare_unit z f (more + x) x y (omega arith)
    ∙ spare z f more x y

lowest_digit :
    (z : ℕ → ℕ) (f : ℕ → ℕ → ℕ) (x y : ℕ)
    → bitwise z f (suc x) y ≡ bitwise z f (suc x / 2) (y / 2) * 2 + f (suc x % 2) (y % 2)
lowest_digit z f x y =
    let half = suc x / 2 in
    let fuel : x ≡ x - half + half = omega arith in
    ap (λ r. r * 2 + f (suc x % 2) (y % 2))
      (ap (λ n. digits z f n half (y / 2)) fuel ∙ spare z f (x - half) half (y / 2))

pub bit_or_step : (x y : ℕ) → bit_or x y ≡ bit_or (x / 2) (y / 2) * 2 + max (x % 2) (y % 2)
bit_or_step (suc x) y = simp bit_or-bitwise (lowest_digit (λ w. w) max x y)
bit_or_step zero y = simp bit_or-bitwise (omega arith)

pub bit_and_step : (x y : ℕ) → bit_and x y ≡ bit_and (x / 2) (y / 2) * 2 + min (x % 2) (y % 2)
bit_and_step (suc x) y = simp bit_and-bitwise (lowest_digit (λ w. 0) min x y)
bit_and_step zero y = simp bit_and-bitwise (omega arith)

differ_digits : (x y : ℕ) → x < 2 → y < 2 → differ x y ≡ (x + y) % 2
differ_digits zero y p q = omega arith
differ_digits (suc zero) zero p q = refl
differ_digits (suc zero) (suc zero) p q = refl
differ_digits (suc zero) (suc (suc y)) p q = absurd (omega arith)
differ_digits (suc (suc x)) y p q = absurd (omega arith)

pub bit_xor_step : (a b : ℕ) → bit_xor a b ≡ bit_xor (a / 2) (b / 2) * 2 + (a + b) % 2
bit_xor_step zero b = simp bit_xor-bitwise (omega arith)
bit_xor_step (suc a) b = simp bit_xor-bitwise (
    omega (
      arith,
      lowest_digit (λ y. y) differ a b,
      differ_digits (suc a % 2) (b % 2) (omega arith) (omega arith),
    ))
