-- ===== src/Base/Endian.antt =====
-- encoding/binary: numbers of a fixed number of bytes.
use Prim.Native.Nat.{ℕ, zero, suc, ◌+◌, ◌*◌, ◌/◌, ◌%◌, ◌^◌, ◌<◌}
use mathlib.Core.Path.{◌≡◌, refl}
use mathlib.Core.List.{List, [], ◌∷◌}
use native.Mathlib.Nat.{pow-suc}
use native.Mathlib.Omega.{arith}
use wireguard_go.Base.Lists.{length, get_or}

-- LittleEndian.PutUint32 and PutUint64, for 4 and 8 bytes.
unfoldable pub put_little_endian : ℕ → ℕ → List ℕ
put_little_endian zero x = []
put_little_endian (suc n) x = (x % 256) ∷ put_little_endian n (x / 256)

-- LittleEndian.Uint32 and Uint64 of all the bytes given.
unfoldable pub little_endian : List ℕ → ℕ
little_endian [] = 0
little_endian (b ∷ bs) = b + 256 * little_endian bs

-- BigEndian.Uint16 of the two bytes from `at` on.
unfoldable pub big_endian_uint16 : List ℕ → ℕ → ℕ
big_endian_uint16 bs at = get_or bs at 0 * 256 + get_or bs (at + 1) 0

pub length-put_little_endian : (n x : ℕ) → length (put_little_endian n x) ≡ n
unfolding put_little_endian
length-put_little_endian zero x = refl
length-put_little_endian (suc n) x = omega (arith, length-put_little_endian n (x / 256))

pub little_endian-put_little_endian :
    (n x : ℕ) → x < 256 ^ n → little_endian (put_little_endian n x) ≡ x
unfolding put_little_endian little_endian
little_endian-put_little_endian zero x h = omega arith
little_endian-put_little_endian (suc n) x h =
    omega (arith, little_endian-put_little_endian n (x / 256) (omega (arith, pow-suc 256 n)))
