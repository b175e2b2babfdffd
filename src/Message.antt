-- ===== src/Message.antt =====
-- The wire format of the handshake messages: what binary.Write and binary.Read make of the message
-- structs of noise-protocol.go. The MAC fields are zero until AddMacs.
pub mod RoundTrip
use wireguard_go.Base.{
  ℕ, ◌+◌, Option, none, some, List, [], ◌++◌, length, drop, slice, replicate, ltb, if◌then◌else◌,
}
use wireguard_go.Base.Endian.{put_little_endian, little_endian}
use wireguard_go.Noise.{MessageInitiation, MessageResponse}
use wireguard_go.Cookie.{MessageCookieReply}

abbrev pub message_initiation_size : ℕ
message_initiation_size = 148

abbrev pub message_response_size : ℕ
message_response_size = 92

abbrev pub message_cookie_reply_size : ℕ
message_cookie_reply_size = 64

-- The field of `len` bytes from `offset` on.
abbrev pub field : ℕ → ℕ → List ℕ → List ℕ
field offset len packet = slice offset (offset + len) packet

unfoldable pub encode_initiation : MessageInitiation → List ℕ
encode_initiation m =
    put_little_endian 4 m.type
    ++ put_little_endian 4 m.sender
    ++ (m.ephemeral ++ (m.static ++ (m.timestamp ++ replicate 32 0)))

unfoldable pub decode_initiation : List ℕ → Option MessageInitiation
decode_initiation packet =
    if ltb (length packet) message_initiation_size
    then none
    else some (record {
      type = little_endian (field 0 4 packet);
      sender = little_endian (field 4 4 packet);
      ephemeral = field 8 32 packet;
      static = field 40 48 packet;
      timestamp = field 88 28 packet;
    })

unfoldable pub encode_response : MessageResponse → List ℕ
encode_response m =
    put_little_endian 4 m.type
    ++ put_little_endian 4 m.sender
    ++ put_little_endian 4 m.receiver
    ++ (m.ephemeral ++ (m.empty ++ replicate 32 0))

unfoldable pub decode_response : List ℕ → Option MessageResponse
decode_response packet =
    if ltb (length packet) message_response_size
    then none
    else some (record {
      type = little_endian (field 0 4 packet);
      sender = little_endian (field 4 4 packet);
      receiver = little_endian (field 8 4 packet);
      ephemeral = field 12 32 packet;
      empty = field 44 16 packet;
    })

unfoldable pub encode_cookie_reply : MessageCookieReply → List ℕ
encode_cookie_reply m =
    put_little_endian 4 m.type ++ put_little_endian 4 m.receiver ++ (m.nonce ++ m.cookie)

unfoldable pub decode_cookie_reply : List ℕ → Option MessageCookieReply
decode_cookie_reply packet =
    if ltb (length packet) message_cookie_reply_size
    then none
    else some (record {
      type = little_endian (field 0 4 packet);
      receiver = little_endian (field 4 4 packet);
      nonce = field 8 24 packet;
      cookie = field 32 32 packet;
    })
