-- ===== src/Keys/Hex.antt =====
-- Keys survive being printed and read.
use wireguard_go.Base.{ℕ, ◌+◌, ◌*◌, ◌/◌, ◌%◌, ◌<◌, ◌≡◌, refl, some, List, [], ◌∷◌, length, arith}
use wireguard_go.Keys.{
  hex_digit, from_hex_char, encode_to_string, decode_string, load_exact_hex, key_size, from_hex,
  to_hex,
}

-- Every entry is a byte.
abbrev pub AreBytes : List ℕ → Type 0
AreBytes [] = Unit {0}
AreBytes (b ∷ bs) = (b < 256) × AreBytes bs

from_hex_char-hex_digit : (n : ℕ) → n < 16 → from_hex_char (hex_digit n) ≡ some n
unfolding from_hex_char hex_digit
from_hex_char-hex_digit n h = ground arith

decode_string-encode_to_string :
    (bs : List ℕ) → AreBytes bs → decode_string (encode_to_string bs) ≡ some bs
unfolding decode_string encode_to_string
decode_string-encode_to_string [] h = refl
decode_string-encode_to_string (b ∷ bs) (lt, h) =
    let whole : b / 16 * 16 + b % 16 ≡ b = omega arith in
    simp
      (
        from_hex_char-hex_digit (b / 16) (omega arith),
        from_hex_char-hex_digit (b % 16) (omega arith),
        decode_string-encode_to_string bs h,
        whole,
      )
      refl

-- A key of 32 bytes that is printed in hexadecimal and read again is the same key.
pub from_hex-to_hex :
    (key : List ℕ) → AreBytes key → length key ≡ key_size → from_hex (to_hex key) ≡ some key
unfolding from_hex load_exact_hex to_hex
from_hex-to_hex key h size = simp (decode_string-encode_to_string key h, size) refl
