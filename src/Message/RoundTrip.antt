-- ===== src/Message/RoundTrip.antt =====
-- What is marshalled is unmarshalled.
use wireguard_go.Base.{
  ℕ, ◌+◌, ◌<◌, ◌^◌, ◌≡◌, refl, sym, ap, ◌∙◌, some, List, [], ◌∷◌, ◌++◌, length, take, drop, zero,
  suc, take_append, length-append, arith, replicate,
}
use wireguard_go.Base.Endian.{put_little_endian, little_endian, little_endian-put_little_endian}
use wireguard_go.Noise.{MessageInitiation, MessageResponse}
use wireguard_go.Cookie.{MessageCookieReply}
use wireguard_go.Message.{
  field, encode_initiation, decode_initiation, encode_response, decode_response,
  encode_cookie_reply, decode_cookie_reply,
}

-- The numbers fit into their fields and the arrays have their lengths.
pub record IsInitiation (m : MessageInitiation) : Type 0 where
  pub type_fits : m.type < 2 ^ 32
  pub sender_fits : m.sender < 2 ^ 32
  pub ephemeral : length m.ephemeral ≡ 32
  pub static : length m.static ≡ 48
  pub timestamp : length m.timestamp ≡ 28

pub record IsResponse (m : MessageResponse) : Type 0 where
  pub type_fits : m.type < 2 ^ 32
  pub sender_fits : m.sender < 2 ^ 32
  pub receiver_fits : m.receiver < 2 ^ 32
  pub ephemeral : length m.ephemeral ≡ 32
  pub empty : length m.empty ≡ 16

pub record IsCookieReply (m : MessageCookieReply) : Type 0 where
  pub type_fits : m.type < 2 ^ 32
  pub receiver_fits : m.receiver < 2 ^ 32
  pub nonce : length m.nonce ≡ 24
  pub cookie : length m.cookie ≡ 32

-- What is in front, and what is behind it.
take_here : (n : ℕ) (xs ys : List ℕ) → length xs ≡ n → take n (xs ++ ys) ≡ xs
take_here n xs ys h = ap (λ k. take k (xs ++ ys)) (sym h) ∙ take_append xs ys

drop_here : (n k : ℕ) (xs ys : List ℕ) → n ≡ length xs + k → drop n (xs ++ ys) ≡ drop k ys
drop_here n k [] ys h = ap (λ j. drop j ys) (omega (arith, h))
drop_here zero k (x ∷ xs) ys h = absurd (omega (arith, h))
drop_here (suc n) k (x ∷ xs) ys h = drop_here n k xs ys (omega (arith, h))

uint32 : (x : ℕ) → x < 2 ^ 32 → little_endian (put_little_endian 4 x) ≡ x
uint32 x h = little_endian-put_little_endian 4 x h

decode_initiation-sized :
    (p : List ℕ) (m : MessageInitiation)
    → length p ≡ 148
    → little_endian (field 0 4 p) ≡ m.type
    → little_endian (field 4 4 p) ≡ m.sender
    → field 8 32 p ≡ m.ephemeral
    → field 40 48 p ≡ m.static
    → field 88 28 p ≡ m.timestamp
    → decode_initiation p ≡ some m
unfolding decode_initiation
decode_initiation-sized p m size ty se e s t = rw (size, ty, se, e, s, t) refl

-- An initiation message whose fields have their sizes is read back from its bytes.
pub decode-encode_initiation :
    (m : MessageInitiation) → IsInitiation m → decode_initiation (encode_initiation m) ≡ some m
unfolding decode_initiation encode_initiation put_little_endian
decode-encode_initiation m ok =
    let tail = m.timestamp ++ replicate 32 0 in
    decode_initiation-sized (encode_initiation m) m
      (omega (
        arith,
        ok.ephemeral,
        ok.static,
        ok.timestamp,
        length-append m.ephemeral (m.static ++ tail),
        length-append m.static tail,
        length-append m.timestamp (replicate 32 0),
      ))
      (uint32 m.type ok.type_fits) (uint32 m.sender ok.sender_fits)
      (take_here 32 m.ephemeral (m.static ++ tail) ok.ephemeral)
      (ap (take 48) (drop_here 32 0 m.ephemeral (m.static ++ tail) (omega (arith, ok.ephemeral)))
        ∙ take_here 48 m.static tail ok.static)
      (ap (take 28) (
          drop_here 80 48 m.ephemeral (m.static ++ tail) (omega (arith, ok.ephemeral))
          ∙ drop_here 48 0 m.static tail (omega (arith, ok.static)))
        ∙ take_here 28 m.timestamp (replicate 32 0) ok.timestamp)

decode_response-sized :
    (p : List ℕ) (m : MessageResponse)
    → length p ≡ 92
    → little_endian (field 0 4 p) ≡ m.type
    → little_endian (field 4 4 p) ≡ m.sender
    → little_endian (field 8 4 p) ≡ m.receiver
    → field 12 32 p ≡ m.ephemeral
    → field 44 16 p ≡ m.empty
    → decode_response p ≡ some m
unfolding decode_response
decode_response-sized p m size ty se re e em = rw (size, ty, se, re, e, em) refl

-- A response message whose fields have their sizes is read back from its bytes.
pub decode-encode_response :
    (m : MessageResponse) → IsResponse m → decode_response (encode_response m) ≡ some m
unfolding encode_response put_little_endian
decode-encode_response m ok =
    let tail = m.empty ++ replicate 32 0 in
    decode_response-sized (encode_response m) m
      (omega (
        arith,
        ok.ephemeral,
        ok.empty,
        length-append m.ephemeral tail,
        length-append m.empty (replicate 32 0),
      ))
      (uint32 m.type ok.type_fits) (uint32 m.sender ok.sender_fits)
      (uint32 m.receiver ok.receiver_fits) (take_here 32 m.ephemeral tail ok.ephemeral)
      (ap (take 16) (drop_here 32 0 m.ephemeral tail (omega (arith, ok.ephemeral)))
        ∙ take_here 16 m.empty (replicate 32 0) ok.empty)

decode_cookie_reply-sized :
    (p : List ℕ) (m : MessageCookieReply)
    → length p ≡ 64
    → little_endian (field 0 4 p) ≡ m.type
    → little_endian (field 4 4 p) ≡ m.receiver
    → field 8 24 p ≡ m.nonce
    → field 32 32 p ≡ m.cookie
    → decode_cookie_reply p ≡ some m
unfolding decode_cookie_reply
decode_cookie_reply-sized p m size ty re n c = rw (size, ty, re, n, c) refl

take_all : (n : ℕ) (xs : List ℕ) → length xs ≡ n → take n xs ≡ xs
take_all zero [] h = refl
take_all zero (x ∷ xs) h = absurd (omega (arith, h))
take_all (suc n) [] h = refl
take_all (suc n) (x ∷ xs) h = ap (λ t. x ∷ t) (take_all n xs (omega (arith, h)))

-- A cookie reply whose fields have their sizes is read back from its bytes.
pub decode-encode_cookie_reply :
    (m : MessageCookieReply)
    → IsCookieReply m
    → decode_cookie_reply (encode_cookie_reply m) ≡ some m
unfolding encode_cookie_reply put_little_endian
decode-encode_cookie_reply m ok =
    decode_cookie_reply-sized (encode_cookie_reply m) m
      (omega (arith, ok.nonce, ok.cookie, length-append m.nonce m.cookie))
      (uint32 m.type ok.type_fits) (uint32 m.receiver ok.receiver_fits)
      (take_here 24 m.nonce m.cookie ok.nonce)
      (ap (take 32) (drop_here 24 0 m.nonce m.cookie (omega (arith, ok.nonce)))
        ∙ take_all 32 m.cookie ok.cookie)
