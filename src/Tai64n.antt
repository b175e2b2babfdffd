-- ===== src/Tai64n.antt =====
-- tai64n/tai64n.go: the timestamps of handshake initiations. The clock is the argument: nanoseconds
-- since 1970.
pub mod Order
use wireguard_go.Base.{
  ℕ, zero, suc, ◌+◌, ◌*◌, ◌/◌, ◌%◌, ◌^◌, Bool, true, false, List, [], ◌∷◌, ◌++◌, ltb, ◌==◌,
  if◌then◌else◌,
}

abbrev pub base : ℕ
base = 4611686018427387914

-- binary.BigEndian.PutUint64 and PutUint32: the last `n` bytes of x, from the most significant.
unfoldable pub put_big_endian : ℕ → ℕ → List ℕ
put_big_endian zero x = []
put_big_endian (suc n) x = (x / 256 ^ n % 256) ∷ put_big_endian n x

-- Now, of the clock's UnixNano; Unix is that in seconds.
unfoldable pub now : ℕ → List ℕ
now unix_nano =
    let secs = (base + unix_nano / 1_000_000_000) % 2 ^ 64 in
    let nano = unix_nano % 2 ^ 32 in put_big_endian 8 secs ++ put_big_endian 4 nano

-- bytes.Compare(a, b) > 0.
unfoldable pub is_greater : List ℕ → List ℕ → Bool
is_greater [] bs = false
is_greater (a ∷ as') [] = true
is_greater (a ∷ as') (b ∷ bs) = if a == b then is_greater as' bs else ltb b a

unfoldable pub after : List ℕ → List ℕ → Bool
after t1 t2 = is_greater t1 t2
