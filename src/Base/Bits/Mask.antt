-- ===== src/Base/Bits/Mask.antt =====
-- `&` with a bit, and with the bits below one.
use Prim.Native.Nat.{ℕ, zero, suc, ◌+◌, ◌-◌, ◌*◌, ◌/◌, ◌%◌, ◌^◌, ◌≤◌, ◌<◌, min, bit_and}
use mathlib.Core.Path.{◌≡◌, refl, sym, ap, ap₂, ◌∙◌}
use native.Mathlib.Nat.{pow-suc, div-add-mod', mod-lt, mod-eq_of_lt, mul-add-mod_self_right}
use native.Mathlib.Omega.{arith}
use wireguard_go.Base.Bits.{bit, bit_and_step}

bit_and_nothing : (bound x : ℕ) → x ≤ bound → bit_and x 0 ≡ 0
bit_and_nothing bound zero fits = refl
bit_and_nothing zero (suc x) fits = absurd (omega arith)
bit_and_nothing (suc bound) (suc x) fits =
    omega (arith, bit_and_step (suc x) 0, bit_and_nothing bound (suc x / 2) (omega arith))

bit_and-zero : (x : ℕ) → bit_and x 0 ≡ 0
bit_and-zero x = bit_and_nothing x x (omega arith)

-- A power of two and its half, as what `&` reads of them.
double : (b p q : ℕ) → q ≡ p * 2 → b * p * 2 ≡ b * q
double b p q h = omega (arith, ap (λ n. b * n) h)

pub bit_and-power : (x k : ℕ) → bit_and x (2 ^ k) ≡ bit x k * 2 ^ k
unfolding bit
bit_and-power x zero = omega (arith, bit_and_step x 1, bit_and-zero (x / 2))
bit_and-power x (suc k) =
    let half : 2 ^ suc k / 2 ≡ 2 ^ k = omega (arith, pow-suc 2 k) in
    let rest : bit_and (x / 2) (2 ^ suc k / 2) ≡ bit (x / 2) k * 2 ^ k =
      ap (bit_and (x / 2)) half ∙ bit_and-power (x / 2) k in
    let even : min (x % 2) (2 ^ suc k % 2) ≡ 0 = omega (arith, pow-suc 2 k) in
    bit_and_step x (2 ^ suc k)
    ∙ ap₂ (λ a b. a * 2 + b) rest even
    ∙ omega (arith, double (bit (x / 2) k) (2 ^ k) (2 ^ suc k) (omega (arith, pow-suc 2 k)))

-- The remainder by an even number, from that of the half.
halved_mod : (x p : ℕ) → 0 < p → x / 2 % p * 2 + x % 2 ≡ x % (2 * p)
halved_mod x p pos =
    let q = x / 2 / p in
    let r = x / 2 % p * 2 + x % 2 in
    let whole : q * (2 * p) + r ≡ x = omega (arith, div-add-mod' (x / 2) p) in
    let small : r < 2 * p = omega (arith, mod-lt (x / 2) pos) in
    sym (mod-eq_of_lt small)
    ∙ sym (mul-add-mod_self_right q (2 * p) r)
    ∙ ap (λ n. n % (2 * p)) whole

pub power_pos : (k : ℕ) → 0 < 2 ^ k
power_pos zero = omega arith
power_pos (suc k) = omega (arith, pow-suc 2 k, power_pos k)

pub bit_and-below : (x k : ℕ) → bit_and x (2 ^ k - 1) ≡ x % 2 ^ k
bit_and-below x zero = bit_and-zero x ∙ omega arith
bit_and-below x (suc k) =
    let pos = power_pos k in
    let half : (2 ^ suc k - 1) / 2 ≡ 2 ^ k - 1 = omega (arith, pow-suc 2 k) in
    let rest : bit_and (x / 2) ((2 ^ suc k - 1) / 2) ≡ x / 2 % 2 ^ k =
      ap (bit_and (x / 2)) half ∙ bit_and-below (x / 2) k in
    let odd : min (x % 2) ((2 ^ suc k - 1) % 2) ≡ x % 2 = omega (arith, pow-suc 2 k) in
    bit_and_step x (2 ^ suc k - 1)
    ∙ ap₂ (λ a b. a * 2 + b) rest odd
    ∙ halved_mod x (2 ^ k) pos
    ∙ ap (λ n. x % n) (omega (arith, pow-suc 2 k))
