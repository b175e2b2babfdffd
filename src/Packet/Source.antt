-- ===== src/Packet/Source.antt =====
-- Cryptokey routing: the sequential receiver passes on only packets from addresses that are routed
-- to the peer.
use wireguard_go.Base.{
  ℕ, ◌+◌, ◌%◌, ◌^◌, ◌≤◌, ◌<◌, ◌≡◌, refl, sym, ap, ◌∙◌, ◌⊎◌, inl, inr, Bool, true, false, Option,
  some, none, List, take, slice, length, ltb, ◌||◌, ◌==◌, points_to, Bool-cases, ==→eq,
  ltb-false→le, arith, length-take, le→ltb-false, ==_refl,
}
use wireguard_go.Base.Endian.{big_endian_uint16}
use wireguard_go.Routing.{RoutingTable, lookup_ipv4, lookup_ipv6}
use wireguard_go.Packet.{ip_version, strip_ipv4, strip_ipv6, strip, ipv4_offset_total_length}

points_to→eq : (o : Option ℕ) (p : ℕ) → points_to o p ≡ true → o ≡ some p
points_to→eq none p h = absurd cc
points_to→eq (some q) p h = cc (==→eq q p h)

or_false : (a b : Bool) → (a || b) ≡ false → (a ≡ false) × (b ≡ false)
or_false true b h = absurd cc
or_false false b h = (refl, h)

-- What an accepted packet of each version is.
strip_ipv4-some :
    (table : RoutingTable) (peer : ℕ) (packet out : List ℕ)
    → strip_ipv4 table peer packet ≡ some out
    → (out ≡ take (big_endian_uint16 packet 2) packet)
      × (20 ≤ length out)
      × (lookup_ipv4 table (slice 12 16 out) ≡ some peer)
unfolding strip_ipv4
strip_ipv4-some table peer packet out e =
    let len = big_endian_uint16 packet ipv4_offset_total_length in
    elim (Bool-cases (ltb (length packet) 20)) [
      | inl short ↦ absurd (ground arith)
      | inr long ↦ elim (Bool-cases (ltb (length packet) len || ltb len 20)) [
        | inl bad ↦ absurd (ground arith)
        | inr good ↦
            elim (Bool-cases (points_to (lookup_ipv4 table (slice 12 16 (take len packet))) peer)) [
              | inr foreign ↦ absurd (ground arith)
              | inl routed ↦
                  let is_out : take len packet ≡ out = ground arith in
                  let its =
                    points_to→eq (lookup_ipv4 table (slice 12 16 (take len packet))) peer routed in
                  (
                    sym is_out,
                    omega (
                      arith,
                      ap length is_out,
                      length-take len packet,
                      ltb-false→le (length packet) len
                          (or_false (ltb (length packet) len) (ltb len 20) good).0,
                      ltb-false→le len 20 (or_false (ltb (length packet) len) (ltb len 20) good).1,
                    ),
                    ap (λ t. lookup_ipv4 table (slice 12 16 t)) (sym is_out) ∙ its,
                  )
            ]
      ]
    ]

strip_ipv6-some :
    (table : RoutingTable) (peer : ℕ) (packet out : List ℕ)
    → strip_ipv6 table peer packet ≡ some out
    → (out ≡ take ((big_endian_uint16 packet 4 + 40) % 2 ^ 16) packet)
      × (lookup_ipv6 table (slice 8 24 packet) ≡ some peer)
unfolding strip_ipv6
strip_ipv6-some table peer packet out e =
    let len = (big_endian_uint16 packet 4 + 40) % 2 ^ 16 in
    elim (Bool-cases (ltb (length packet) 40)) [
      | inl short ↦ absurd (ground arith)
      | inr long ↦ elim (Bool-cases (ltb (length packet) len)) [
        | inl bad ↦ absurd (ground arith)
        | inr good ↦ elim (Bool-cases (points_to (lookup_ipv6 table (slice 8 24 packet)) peer)) [
          | inr foreign ↦ absurd (ground arith)
          | inl routed ↦
              (ground arith, points_to→eq (lookup_ipv6 table (slice 8 24 packet)) peer routed)
        ]
      ]
    ]

-- `out` is the packet up to the length in its header, and its source address is routed to the peer.
abbrev pub IsFrom : RoutingTable → ℕ → List ℕ → List ℕ → Type 0
IsFrom table peer packet out =
    ((ip_version packet ≡ 4)
      × (out ≡ take (big_endian_uint16 packet 2) packet)
      × (20 ≤ length out)
      × (lookup_ipv4 table (slice 12 16 out) ≡ some peer))
    ⊎ ((ip_version packet ≡ 6)
        × (out ≡ take ((big_endian_uint16 packet 4 + 40) % 2 ^ 16) packet)
        × (lookup_ipv6 table (slice 8 24 packet) ≡ some peer))

-- A packet that the sequential receiver passes on to the network interface is the decrypted one up
-- to the length in its header, and comes from an address that is routed to the peer: with IPv4 its
-- header is whole and the source stands in the packet passed on, and with IPv6 in the decrypted one.
pub strip-some :
    (table : RoutingTable) (peer : ℕ) (packet out : List ℕ)
    → strip table peer packet ≡ some out
    → IsFrom table peer packet out
unfolding strip
strip-some table peer packet out e = elim (Bool-cases (ip_version packet == 4)) [
  | inl four ↦
      let (is_out, whole, routed) = strip_ipv4-some table peer packet out (ground arith) in
      inl (==→eq (ip_version packet) 4 four, is_out, whole, routed)
  | inr not_four ↦ elim (Bool-cases (ip_version packet == 6)) [
    | inl six ↦
        let (is_out, routed) = strip_ipv6-some table peer packet out (ground arith) in
        inr (==→eq (ip_version packet) 6 six, is_out, routed)
    | inr other ↦ absurd (ground arith)
  ]
]

-- An IPv6 packet of at least 40 bytes, from an address that is routed to the peer, whose payload
-- length plus 40 does not fit 16 bits, is passed on cut to what is left of that sum: fewer bytes
-- than its header has.
pub strip_wraps :
    (table : RoutingTable) (peer : ℕ) (packet : List ℕ)
    → ip_version packet ≡ 6
    → 40 ≤ length packet
    → 65496 ≤ big_endian_uint16 packet 4
    → big_endian_uint16 packet 4 < 65536
    → lookup_ipv6 table (slice 8 24 packet) ≡ some peer
    → (out : List ℕ) × (strip table peer packet ≡ some out)
      × (length out < 40)
      × (length out + 65536 ≡ big_endian_uint16 packet 4 + 40)
unfolding strip strip_ipv6
strip_wraps table peer packet six long over fits routed =
    let len = (big_endian_uint16 packet 4 + 40) % 2 ^ 16 in
    let is_len : len + 65536 ≡ big_endian_uint16 packet 4 + 40 = omega arith in
    let short = le→ltb-false (length packet) len (omega arith) in
    let whole = le→ltb-false (length packet) 40 long in
    (
      take len packet,
      simp (six, whole, short, routed, ==_refl peer) refl,
      omega (arith, length-take len packet),
      omega (arith, length-take len packet),
    )
