-- ===== src/Packet/RoundTrip.antt =====
-- A packet that one peer encrypts is what the other one decrypts and passes on.
use wireguard_go.Base.{
  ℕ, ◌+◌, ◌*◌, ◌%◌, ◌^◌, ◌≤◌, ◌<◌, ◌≡◌, refl, sym, ap, ap₂, ◌∙◌, ◌⊎◌, inl, inr, some, List, ◌++◌,
  length, drop, slice, replicate, get_or-append, slice-append, take_append, drop_append,
  length-append, le→ltb-false, ==_refl, arith,
}
use wireguard_go.Base.Endian.{
  put_little_endian, big_endian_uint16, length-put_little_endian, little_endian-put_little_endian,
}
use wireguard_go.Crypto.{Crypto, IsSound}
use wireguard_go.Routing.{RoutingTable, lookup_ipv4, lookup_ipv6}
use wireguard_go.Packet.{
  message_transport_type, header, pad, encrypt, decrypt, ip_version, strip_ipv4, strip_ipv6, strip,
}
use wireguard_go.Packet.Padding.{pad-append}

-- The header has 16 bytes, and the last 8 are the counter.
length-header : (receiver nonce : ℕ) → length (header receiver nonce) ≡ 16
unfolding header
length-header receiver nonce = omega (
  arith,
  length-append (put_little_endian 4 message_transport_type ++ put_little_endian 4 receiver)
      (put_little_endian 8 nonce),
  length-append (put_little_endian 4 message_transport_type) (put_little_endian 4 receiver),
  length-put_little_endian 4 message_transport_type,
  length-put_little_endian 4 receiver,
  length-put_little_endian 8 nonce,
)

drop-header : (receiver nonce : ℕ) (rest : List ℕ) → drop 16 (header receiver nonce ++ rest) ≡ rest
drop-header receiver nonce rest =
    ap (λ n. drop n (header receiver nonce ++ rest)) (sym (length-header receiver nonce))
    ∙ drop_append (header receiver nonce) rest

slice-header :
    (receiver nonce : ℕ) (rest : List ℕ)
    → slice 8 16 (header receiver nonce ++ rest) ≡ put_little_endian 8 nonce
unfolding header put_little_endian
slice-header receiver nonce rest = refl

-- What RoutineEncryption makes of a packet is decrypted with the same key to the padded packet and
-- the nonce, which is a uint64. The AEAD opens what it sealed.
pub decrypt-encrypt :
    (c : Crypto) (key : List ℕ) (remote_index mtu nonce : ℕ) (packet : List ℕ)
    → IsSound c
    → nonce < 2 ^ 64
    → decrypt c key (encrypt c key remote_index mtu nonce packet) ≡ (nonce, some (pad mtu packet))
unfolding decrypt encrypt
decrypt-encrypt c key remote_index mtu nonce packet sound small =
    simp
      (
        slice-header,
        drop-header,
        sound.opens,
        little_endian-put_little_endian 8 nonce (omega arith),
      )
      refl

-- An IP packet whose length field is its length, and which comes from an address that is routed to
-- the peer.
abbrev pub IsDeliverable : RoutingTable → ℕ → List ℕ → Type 0
IsDeliverable table peer packet =
    ((ip_version packet ≡ 4)
      × (20 ≤ length packet)
      × (big_endian_uint16 packet 2 ≡ length packet)
      × (lookup_ipv4 table (slice 12 16 packet) ≡ some peer))
    ⊎ ((ip_version packet ≡ 6)
        × (40 ≤ length packet)
        × (length packet < 65536)
        × (big_endian_uint16 packet 4 + 40 ≡ length packet)
        × (lookup_ipv6 table (slice 8 24 packet) ≡ some peer))

ip_version-append :
    (packet zeros : List ℕ) → 0 < length packet → ip_version (packet ++ zeros) ≡ ip_version packet
unfolding ip_version
ip_version-append packet zeros h = rw (get_or-append packet zeros 0 0 h)

big_endian_uint16-append :
    (packet zeros : List ℕ) (at : ℕ)
    → at + 1 < length packet
    → big_endian_uint16 (packet ++ zeros) at ≡ big_endian_uint16 packet at
unfolding big_endian_uint16
big_endian_uint16-append packet zeros at h =
    ap₂ (λ a b. a * 256 + b) (get_or-append packet zeros at 0 (omega arith))
      (get_or-append packet zeros (at + 1) 0 h)

strip-append :
    (table : RoutingTable) (peer : ℕ) (packet zeros : List ℕ)
    → IsDeliverable table peer packet
    → strip table peer (packet ++ zeros) ≡ some packet
unfolding strip strip_ipv4 strip_ipv6
strip-append table peer packet zeros (inl (four, whole, len, routed)) =
    simp
      (
        ip_version-append packet zeros (omega arith),
        four,
        big_endian_uint16-append packet zeros 2 (omega arith),
        len,
        take_append,
        le→ltb-false (length (packet ++ zeros)) 20 (omega (arith, length-append packet zeros)),
        le→ltb-false (length (packet ++ zeros)) (length packet)
            (omega (arith, length-append packet zeros)),
        le→ltb-false (length packet) 20 whole,
        routed,
        ==_refl peer,
      )
      refl
strip-append table peer packet zeros (inr (six, whole, fits, len, routed)) =
    let whole_len : (big_endian_uint16 packet 4 + 40) % 2 ^ 16 ≡ length packet = omega arith in
    simp
      (
        ip_version-append packet zeros (omega arith),
        six,
        big_endian_uint16-append packet zeros 4 (omega arith),
        whole_len,
        take_append,
        le→ltb-false (length (packet ++ zeros)) 40 (omega (arith, length-append packet zeros)),
        le→ltb-false (length (packet ++ zeros)) (length packet)
            (omega (arith, length-append packet zeros)),
        slice-append 8 24 packet zeros (omega arith) (omega arith),
        routed,
        ==_refl peer,
      )
      refl

-- An IP packet whose length field is its length, from an address that is routed to the peer, is
-- padded and encrypted by the sender; the receiver, with the same key, decrypts it with the sender's
-- nonce, a uint64, and passes on the packet that was sent. The AEAD opens what it sealed.
pub strip-decrypt-encrypt :
    (c : Crypto) (key : List ℕ) (remote_index mtu nonce : ℕ) (packet : List ℕ)
    (table : RoutingTable) (peer : ℕ)
    → IsSound c
    → nonce < 2 ^ 64
    → IsDeliverable table peer packet
    → (content : List ℕ) × (decrypt c key (encrypt c key remote_index mtu nonce packet)
        ≡ (nonce, some content))
      × (strip table peer content ≡ some packet)
strip-decrypt-encrypt c key remote_index mtu nonce packet table peer sound small good =
    let (k, padded) = pad-append mtu packet in
    (
      pad mtu packet,
      decrypt-encrypt c key remote_index mtu nonce packet sound small,
      ap (strip table peer) padded ∙ strip-append table peer packet (replicate k 0) good,
    )
