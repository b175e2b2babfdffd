-- ===== src/Keys.antt =====
-- noise-types.go: keys as hexadecimal text, and their comparison. `encode_to_string` and
-- `decode_string` are encoding/hex as documented: two digits a byte, capital letters are read too.
pub mod Hex
use wireguard_go.Base.{
  ℕ, ◌+◌, ◌-◌, ◌*◌, ◌/◌, ◌%◌, Bool, ◌&&◌, Option, none, some, List, [], ◌∷◌, length, ltb, leb, ◌==◌,
  if◌then◌else◌, bytes_eq, replicate,
}
use wireguard_go.Base.Do.{◌>>=◌}

-- The digit of a number below 16.
unfoldable pub hex_digit : ℕ → ℕ
hex_digit n = if ltb n 10 then b'0' + n else b'a' + (n - 10)

unfoldable pub from_hex_char : ℕ → Option ℕ
from_hex_char c =
    if leb b'0' c && leb c b'9'
    then some (c - b'0')
    else if leb b'a' c && leb c b'f'
    then some (c - b'a' + 10)
    else if leb b'A' c && leb c b'F'
    then some (c - b'A' + 10)
    else none

unfoldable pub encode_to_string : List ℕ → List ℕ
unfolding hex_digit
encode_to_string [] = []
encode_to_string (b ∷ bs) = hex_digit (b / 16) ∷ hex_digit (b % 16) ∷ encode_to_string bs

unfoldable pub decode_string : List ℕ → Option (List ℕ)
unfolding from_hex_char
decode_string [] = some []
decode_string (a ∷ []) = none
decode_string (a ∷ b ∷ rest) = do
  high ← from_hex_char a
  low ← from_hex_char b
  bytes ← decode_string rest
  some ((high * 16 + low) ∷ bytes)

-- What is copied into a destination of the given size; `none` is an error.
unfoldable pub load_exact_hex : ℕ → List ℕ → Option (List ℕ)
unfolding decode_string
load_exact_hex size src = do
  slice ← decode_string src
  if length slice == size then some slice else none

-- NoisePublicKeySize, NoisePrivateKeySize and chacha20poly1305.KeySize.
abbrev pub key_size : ℕ
key_size = 32

unfoldable pub from_hex : List ℕ → Option (List ℕ)
unfolding load_exact_hex
from_hex src = load_exact_hex key_size src

unfoldable pub to_hex : List ℕ → List ℕ
unfolding encode_to_string
to_hex key = encode_to_string key

-- subtle.ConstantTimeCompare of two keys.
unfoldable pub equals : List ℕ → List ℕ → Bool
equals key tar = bytes_eq key tar

unfoldable pub is_zero_key : List ℕ → Bool
unfolding equals
is_zero_key key = equals key (replicate key_size 0)
