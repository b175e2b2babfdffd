-- ===== src/Misc.antt =====
-- misc.go: atomic Booleans, reinterpreting integers and the two minima. The states of the other files
-- have plain `Bool` fields for the atomic Booleans.
use wireguard_go.Base.{
  ℕ, ◌+◌, ◌-◌, ◌*◌, ◌%◌, ◌^◌, ◌<◌, ◌≡◌, refl, ap, ap₂, ◌∙◌, Bool, true, false, ltb, ◌==◌,
  if◌then◌else◌, arith, min, bit_and,
}
use wireguard_go.Base.Bits.{bit-eq-shift}
use wireguard_go.Base.Bits.Mask.{bit_and-power, bit_and-below}

abbrev pub atomic_false : ℕ
atomic_false = 0

abbrev pub atomic_true : ℕ
atomic_true = 1

pub record AtomicBool : Type 0 where
  pub flag : ℕ  -- int32

abbrev flag_of : Bool → ℕ
flag_of val = if val then atomic_true else atomic_false

unfoldable pub get : AtomicBool → Bool
get a = a.flag == atomic_true

-- What is stored, and the value before.
unfoldable pub swap : Bool → AtomicBool → AtomicBool × Bool
swap val a = (record { flag = flag_of val }, a.flag == atomic_true)

unfoldable pub set : Bool → AtomicBool → AtomicBool
set val a = record { flag = flag_of val }

-- Reading what was stored gives it, and a swap gives what was stored before it.
pub swap-set : (a : AtomicBool) (old new : Bool) → swap new (set old a) ≡ (set new a, old)
unfolding swap set
swap-set a false new = refl
swap-set a true new = refl

pub get-set : (a : AtomicBool) (val : Bool) → get (set val a) ≡ val
unfolding get set
get-set a false = refl
get-set a true = refl

-- toInt32: `-(n & mask) + (n & ^mask)` of a uint32, and the int32 by its bit pattern.
unfoldable pub to_int32 : ℕ → ℕ
to_int32 n = ((2 ^ 32 - bit_and n (2 ^ 31)) % 2 ^ 32 + bit_and n (2 ^ 31 - 1)) % 2 ^ 32

-- It keeps the bit pattern.
pub to_int32_same : (n : ℕ) → n < 2 ^ 32 → to_int32 n ≡ n
unfolding to_int32
to_int32_same n fits =
    ap₂ (λ a b. ((2 ^ 32 - a) % 2 ^ 32 + b) % 2 ^ 32)
      (bit_and-power n 31 ∙ ap (λ b. b * 2 ^ 31) (bit-eq-shift n 31)) (bit_and-below n 31)
    ∙ omega arith

-- uint: `if a > b { return b }; return a`, also of uint64.
unfoldable pub min_uint : ℕ → ℕ → ℕ
min_uint a b = if ltb b a then b else a

pub min_uint-eq-min : (a b : ℕ) → min_uint a b ≡ min a b
unfolding min_uint
min_uint-eq-min a b = ground arith
