-- ===== src/Base/Bits.antt =====
-- Bit operations at variables: the digit recursion, single bits of `|` and `^`, equality by `^`.
mod Step
pub mod Mask
use Step.{bit_or_step, bit_xor_step}
pub use Step.{bit_and_step, bit_or_step, bit_xor_step}
use mathlib.Core.WellFounded.{Acc, WellFounded, induction}
use native.Mathlib.Nat.{pow-suc, div-div-eq-div-mul}
use wireguard_go.Base.Tests.{◌==◌, if◌then◌else◌}
use Prim.Native.Nat.{ℕ, zero, suc, ◌+◌, ◌*◌, ◌/◌, ◌%◌, ◌^◌, ◌<◌, ◌≤◌, bit_or, bit_xor}
use mathlib.Core.Path.{◌≡◌, refl, sym, ap, ◌∙◌}
use mathlib.Core.Logic.{◌≢◌}
use native.Mathlib.Omega.{arith}

-- The bit of weight 2 ^ k.
unfoldable pub bit : ℕ → ℕ → ℕ
bit x zero = x % 2
bit x (suc k) = bit (x / 2) k

pub bit-lt-two : (x k : ℕ) → bit x k < 2
unfolding bit
bit-lt-two x zero = omega arith
bit-lt-two x (suc k) = bit-lt-two (x / 2) k

pub bit-zero_word : (k : ℕ) → bit 0 k ≡ 0
unfolding bit
bit-zero_word zero = refl
bit-zero_word (suc k) = bit-zero_word k

or_nothing : (bound x : ℕ) → x ≤ bound → bit_or x 0 ≡ x
or_nothing bound zero fits = refl
or_nothing zero (suc x) fits = absurd (omega arith)
or_nothing (suc bound) (suc x) fits =
    omega (arith, or_nothing bound (suc x / 2) (omega arith), bit_or_step (suc x) 0)

bit_or-zero : (x : ℕ) → bit_or x 0 ≡ x
bit_or-zero x = or_nothing x x (omega arith)

halve_power : (x k : ℕ) → bit_or x (2 ^ suc k) / 2 ≡ bit_or (x / 2) (2 ^ k)
halve_power x k = rw (power_half k) at (halve (2 ^ suc k))
  where
    power_half : (k : ℕ) → 2 ^ suc k / 2 ≡ 2 ^ k
    power_half k = omega (arith, pow-suc 2 k)

    halve : (b : ℕ) → bit_or x b / 2 ≡ bit_or (x / 2) (b / 2)
    halve b = omega (arith, bit_or_step x b)

-- `x | (1 << k)` sets the bit k and keeps the others.
pub bit-bit_or_power : (x k j : ℕ) → bit (bit_or x (2 ^ k)) j ≡ (if j == k then 1 else bit x j)
unfolding bit
bit-bit_or_power x zero zero = ground (arith, bit_or_step x 1, bit_or-zero (x / 2))
bit-bit_or_power x zero (suc j) = rw (halve x) (ground arith)
  where
    halve : (x : ℕ) → bit_or x (2 ^ 0) / 2 ≡ x / 2
    halve x = omega (arith, bit_or_step x 1, bit_or-zero (x / 2))
bit-bit_or_power x (suc k) zero = ground (arith, bit_or_step x (2 ^ suc k), pow-suc 2 k)
bit-bit_or_power x (suc k) (suc j) =
    rw (halve_power x k) (bit-bit_or_power (x / 2) k j ∙ ground arith)

-- Setting a bit changes nothing exactly when it was set.
pub bit_or_power_self : (x k : ℕ) → bit x k ≡ 1 → bit_or x (2 ^ k) ≡ x
unfolding bit
bit_or_power_self x zero h = omega (arith, bit_or_step x 1, bit_or-zero (x / 2))
bit_or_power_self x (suc k) h =
    omega (
      arith,
      bit_or_power_self (x / 2) k h,
      halve_power x k,
      bit_or_step x (2 ^ suc k),
      pow-suc 2 k,
    )

pub bit_of_bit_or_power_self : (x k : ℕ) → bit_or x (2 ^ k) ≡ x → bit x k ≡ 1
bit_of_bit_or_power_self x k e = ap (λ y. bit y k) (sym e) ∙ bit-bit_or_power x k k ∙ ground arith

pub bit_xor-half : (a b : ℕ) → bit_xor a b / 2 ≡ bit_xor (a / 2) (b / 2)
bit_xor-half a b = omega (arith, bit_xor_step a b)

-- `a ^ b` is 0 exactly at equal words.
xor_same : (bound x : ℕ) → x ≤ bound → bit_xor x x ≡ 0
xor_same bound zero fits = refl
xor_same zero (suc x) fits = absurd (omega arith)
xor_same (suc bound) (suc x) fits =
    omega (arith, xor_same bound (suc x / 2) (omega arith), bit_xor_step (suc x) (suc x))

pub bit_xor_self : (x : ℕ) → bit_xor x x ≡ 0
bit_xor_self x = xor_same x x (omega arith)

eq_of_bit_xor_bounded : (n a b : ℕ) → a ≤ n → b ≤ n → bit_xor a b ≡ 0 → a ≡ b
eq_of_bit_xor_bounded zero a b p q e = omega arith
eq_of_bit_xor_bounded (suc n) a b p q e =
    let halves : a / 2 ≡ b / 2 =
      eq_of_bit_xor_bounded n (a / 2) (b / 2) (omega arith) (omega arith)
        (omega (arith, bit_xor_step a b)) in
    omega (arith, bit_xor_step a b)

pub eq_of_bit_xor : (a b : ℕ) → bit_xor a b ≡ 0 → a ≡ b
eq_of_bit_xor a b e = eq_of_bit_xor_bounded (a + b) a b (omega arith) (omega arith) e

-- The bit as Go reads it, `x >> k & 1`.
pub bit-eq-shift : (x k : ℕ) → bit x k ≡ x / 2 ^ k % 2
unfolding bit
bit-eq-shift x zero = omega arith
bit-eq-shift x (suc k) =
    bit-eq-shift (x / 2) k
    ∙ ap (λ y. y % 2)
        (div-div-eq-div-mul x 2 (2 ^ k) ∙ ap (λ y. x / y) (omega (arith, pow-suc 2 k)))

-- A word after k shifts to the right.
unfoldable pub shifted : ℕ → ℕ → ℕ
shifted x zero = x
shifted x (suc k) = shifted (x / 2) k

-- Words that differ in no bit from m on, by their `^` after m shifts.
pub bit_eq_of_shifted_xor : (m k a b : ℕ) → m ≤ k → shifted (bit_xor a b) m ≡ 0 → bit a k ≡ bit b k
unfolding shifted bit
bit_eq_of_shifted_xor zero k a b p e = ap (λ x. bit x k) (eq_of_bit_xor a b e)
bit_eq_of_shifted_xor (suc m) zero a b p e = absurd (omega arith)
bit_eq_of_shifted_xor (suc m) (suc k) a b p e =
    bit_eq_of_shifted_xor m k (a / 2) (b / 2) (omega arith)
      (ap (λ x. shifted x m) (sym (bit_xor-half a b)) ∙ e)

pub bit_ne_of_shifted_xor : (m a b : ℕ) → shifted (bit_xor a b) m ≡ 1 → bit a m ≢ bit b m
unfolding shifted bit
bit_ne_of_shifted_xor zero a b e = λ h. omega (arith, bit_xor_step a b)
bit_ne_of_shifted_xor (suc m) a b e =
    bit_ne_of_shifted_xor m (a / 2) (b / 2) (ap (λ x. shifted x m) (sym (bit_xor-half a b)) ∙ e)

-- The `^` of two k-bit words is a k-bit word.
pub bit_xor-lt : (k a b : ℕ) → a < 2 ^ k → b < 2 ^ k → bit_xor a b < 2 ^ k
bit_xor-lt zero a b p q = let same : a ≡ b = omega arith in rw (same, bit_xor_self b) (omega arith)
bit_xor-lt (suc k) a b p q = omega (
  arith,
  bit_xor_step a b,
  pow-suc 2 k,
  bit_xor-lt k (a / 2) (b / 2) (omega (arith, pow-suc 2 k)) (omega (arith, pow-suc 2 k)),
)
