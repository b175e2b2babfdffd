-- ===== src/Tai64n/Order.antt =====
-- How After of tai64n.go orders the timestamps of Now.
use wireguard_go.Base.{
  ℕ, zero, suc, ◌+◌, ◌*◌, ◌/◌, ◌%◌, ◌^◌, ◌≤◌, ◌<◌, ◌≡◌, sym, ap, ap₂, ◌∙◌, true, false, List, [],
  ◌++◌, ltb, ◌==◌, if◌then◌else◌, arith,
}
use native.Mathlib.Nat.{
  pow-suc, div-add-mod, mod-lt, one-le-pow, mod-eq_of_lt, add-mul-mod_self_left,
}
use mathlib.Core.List.{append-nil}
use wireguard_go.Tai64n.{put_big_endian, now, is_greater, after, base}

-- The last suc n bytes: the next byte and the last n.
mod_split : (p x : ℕ) → 0 < p → x % (p * 256) ≡ x / p % 256 * p + x % p
mod_split p x h =
    ap (λ t. t % (p * 256)) whole
    ∙ add-mul-mod_self_left (x / p % 256 * p + x % p) (p * 256) (x / p / 256)
    ∙ mod-eq_of_lt (below (x / p % 256) (x % p) (omega arith) (mod-lt x h))
  where
    below : (d m : ℕ) → d < 256 → m < p → d * p + m < p * 256
    below d m hd hm = grind arith

    digits : x / p ≡ x / p / 256 * 256 + x / p % 256
    digits = omega arith

    whole : x ≡ x / p % 256 * p + x % p + p * 256 * (x / p / 256)
    whole = omega (arith, div-add-mod x p, ap (λ (t : ℕ). t * p) digits)

lex_lt : (p d e m n : ℕ) → m < p → n < p → d < e → d * p + m < e * p + n
lex_lt p d e m n hm hn h = grind arith

-- Comparing the bytes is comparing the numbers that they stand for.
is_greater-append :
    (n x y : ℕ) (as' bs : List ℕ)
    → is_greater (put_big_endian n x ++ as') (put_big_endian n y ++ bs)
      ≡ (if x % 256 ^ n == y % 256 ^ n then is_greater as' bs else ltb (y % 256 ^ n) (x % 256 ^ n))
unfolding is_greater put_big_endian
is_greater-append zero x y as' bs = ground arith
is_greater-append (suc n) x y as' bs =
    rw (split x, split y, is_greater-append n x y as' bs)
      (lexicographic (256 ^ n) (x / 256 ^ n % 256) (y / 256 ^ n % 256) (x % 256 ^ n) (y % 256 ^ n)
        (mod-lt x positive) (mod-lt y positive))
  where
    positive : 0 < 256 ^ n
    positive = one-le-pow n 256 (omega arith)

    split : (z : ℕ) → z % 256 ^ suc n ≡ z / 256 ^ n % 256 * 256 ^ n + z % 256 ^ n
    split z = rw (pow-suc 256 n) (mod_split (256 ^ n) z positive)

    lexicographic :
        (p d e m k : ℕ)
        → m < p
        → k < p
        → (if d == e then (if m == k then is_greater as' bs else ltb k m) else ltb e d)
          ≡ (if d * p + m == e * p + k then is_greater as' bs else ltb (e * p + k) (d * p + m))
    lexicographic p d e m k hm hk = ground (arith, lex_lt p d e m k, lex_lt p e d k m)

is_greater_bytes :
    (n x y : ℕ)
    → is_greater (put_big_endian n x) (put_big_endian n y) ≡ ltb (y % 256 ^ n) (x % 256 ^ n)
is_greater_bytes n x y =
    ap₂ is_greater (sym (append-nil (put_big_endian n x))) (sym (append-nil (put_big_endian n y)))
    ∙ is_greater-append n x y [] []
    ∙ unfold is_greater in ground arith

-- After compares the seconds of two clocks, and within a second the last 32 bits of their
-- nanoseconds, for clocks below 2 ^ 63 nanoseconds.
pub after-now :
    (a b : ℕ)
    → a < 2 ^ 63
    → b < 2 ^ 63
    → after (now a) (now b) ≡ (
        if a / 1_000_000_000 == b / 1_000_000_000
        then ltb (b % 2 ^ 32) (a % 2 ^ 32)
        else ltb (b / 1_000_000_000) (a / 1_000_000_000))
unfolding after now
after-now a b ha hb =
    is_greater-append 8 ((base + a / 1_000_000_000) % 2 ^ 64) ((base + b / 1_000_000_000) % 2 ^ 64)
      (put_big_endian 4 (a % 2 ^ 32)) (put_big_endian 4 (b % 2 ^ 32))
    ∙ rw (is_greater_bytes 4 (a % 2 ^ 32) (b % 2 ^ 32)) (ground arith)

-- A clock that is at least a second further, and below 2 ^ 63 nanoseconds, gives a later timestamp.
pub after-second_later :
    (a b : ℕ) → a + 1_000_000_000 ≤ b → b < 2 ^ 63 → after (now b) (now a) ≡ true
after-second_later a b h hb = after-now b a hb (omega arith) ∙ ground arith

-- Where the last 32 bits of the clock's nanoseconds wrap within a second, the later timestamp is
-- not after the earlier one, and the earlier one is after the later; the clock is below 2 ^ 63
-- nanoseconds.
pub after_wrapped :
    (a b : ℕ)
    → a < b
    → b < 2 ^ 63
    → a / 1_000_000_000 ≡ b / 1_000_000_000
    → b % 2 ^ 32 < a % 2 ^ 32
    → (after (now b) (now a) ≡ false) × (after (now a) (now b) ≡ true)
after_wrapped a b lt hb same wrapped =
    (after-now b a hb (omega arith) ∙ ground arith, after-now a b (omega arith) hb ∙ ground arith)
