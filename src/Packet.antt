-- ===== src/Packet.antt =====
-- The format of data packets: the workers of send.go and receive.go that encrypt and decrypt, and
-- what the sequential receiver makes of a decrypted packet. ip.go has the offsets.
pub mod Padding
pub mod Source
pub mod RoundTrip
use wireguard_go.Base.{
  ℕ, zero, suc, ◌+◌, ◌-◌, ◌/◌, ◌%◌, ◌^◌, Bool, ◌||◌, Option, none, some, List, [], ◌∷◌, ◌++◌,
  length, get_or, take, drop, slice, replicate, ltb, ◌==◌, if◌then◌else◌, points_to,
}
use wireguard_go.Base.Endian.{put_little_endian, little_endian, big_endian_uint16}
use wireguard_go.Constants.{padding_multiple}
use wireguard_go.Crypto.{Crypto}
use wireguard_go.Routing.{RoutingTable, lookup_ipv4, lookup_ipv6}

abbrev pub message_transport_type : ℕ
message_transport_type = 4

abbrev pub ipv4_header_len : ℕ
ipv4_header_len = 20

abbrev pub ipv6_header_len : ℕ
ipv6_header_len = 40

abbrev pub ipv4_offset_total_length : ℕ
ipv4_offset_total_length = 2

abbrev pub ipv4_offset_src : ℕ
ipv4_offset_src = 12

abbrev pub ipv4_offset_dst : ℕ
ipv4_offset_dst = 16

abbrev pub ipv6_offset_payload_length : ℕ
ipv6_offset_payload_length = 4

abbrev pub ipv6_offset_src : ℕ
ipv6_offset_src = 8

abbrev pub ipv6_offset_dst : ℕ
ipv6_offset_dst = 24

-- `packet[0] >> 4`
unfoldable pub ip_version : List ℕ → ℕ
ip_version packet = get_or packet 0 0 / 16

-- The loop of the padding, by the rounds left: it stops at the MTU.
unfoldable pub pad_rounds : ℕ → ℕ → List ℕ → List ℕ
pad_rounds zero mtu packet = packet
pad_rounds (suc n) mtu packet =
    let more = pad_rounds n mtu (packet ++ 0 ∷ []) in
    if ltb (length packet) mtu then more else packet

-- "pad content to multiple of 16"
unfoldable pub pad : ℕ → List ℕ → List ℕ
unfolding pad_rounds
pad mtu packet =
    let rem = length packet % padding_multiple in
    if ltb 0 rem then pad_rounds (padding_multiple - rem) mtu packet else packet

-- The header of a transport message.
unfoldable pub header : ℕ → ℕ → List ℕ
header receiver nonce =
    put_little_endian 4 message_transport_type
    ++ put_little_endian 4 receiver
    ++ put_little_endian 8 nonce

-- The counter as the AEAD's nonce, by its bytes.
abbrev pub aead_nonce : List ℕ → List ℕ
aead_nonce counter = replicate 4 0 ++ counter

module _ (c : Crypto) where
  -- RoutineEncryption's work on a packet, with the sender's key and the peer's index.
  unfoldable pub encrypt : List ℕ → ℕ → ℕ → ℕ → List ℕ → List ℕ
  unfolding pad header
  encrypt send remote_index mtu nonce packet =
      header remote_index nonce
      ++ c.aead_seal send (aead_nonce (put_little_endian 8 nonce)) (pad mtu packet) []

  -- RoutineDecryption's work on a packet of at least 16 bytes: the counter, and the content if the
  -- packet is authentic.
  unfoldable pub decrypt : List ℕ → List ℕ → ℕ × Option (List ℕ)
  decrypt receive packet =
      let counter = slice 8 16 packet in
      (little_endian counter, c.aead_open receive (aead_nonce counter) (drop 16 packet) [])

-- "verify source and strip padding" of RoutineSequentialReceiver, for a packet that is not empty.
-- In the case of IPv6 the length is a uint16, and a source beyond it is read from the buffer behind.
unfoldable pub strip_ipv4 : RoutingTable → ℕ → List ℕ → Option (List ℕ)
strip_ipv4 table peer packet =
    let len = big_endian_uint16 packet ipv4_offset_total_length in
    let stripped = take len packet in
    let src = slice ipv4_offset_src (ipv4_offset_src + 4) stripped in
    if ltb (length packet) ipv4_header_len
    then none
    else if ltb (length packet) len || ltb len ipv4_header_len
    then none
    else if points_to (lookup_ipv4 table src) peer
    then some stripped
    else none

unfoldable pub strip_ipv6 : RoutingTable → ℕ → List ℕ → Option (List ℕ)
strip_ipv6 table peer packet =
    let len = (big_endian_uint16 packet ipv6_offset_payload_length + ipv6_header_len) % 2 ^ 16 in
    let src = slice ipv6_offset_src (ipv6_offset_src + 16) packet in
    if ltb (length packet) ipv6_header_len
    then none
    else if ltb (length packet) len
    then none
    else if points_to (lookup_ipv6 table src) peer
    then some (take len packet)
    else none

unfoldable pub strip : RoutingTable → ℕ → List ℕ → Option (List ℕ)
unfolding strip_ipv4 strip_ipv6 ip_version
strip table peer packet =
    if ip_version packet == 4
    then strip_ipv4 table peer packet
    else if ip_version packet == 6
    then strip_ipv6 table peer packet
    else none

-- RoutineReadFromTUN: the peer that a packet of the network interface is routed to.
unfoldable pub destination : RoutingTable → List ℕ → Option ℕ
unfolding ip_version
destination table packet =
    if ip_version packet == 4
    then (if ltb (length packet) ipv4_header_len
        then none
        else lookup_ipv4 table (slice ipv4_offset_dst (ipv4_offset_dst + 4) packet))
    else if ip_version packet == 6
    then (if ltb (length packet) ipv6_header_len
        then none
        else lookup_ipv6 table (slice ipv6_offset_dst (ipv6_offset_dst + 16) packet))
    else none
