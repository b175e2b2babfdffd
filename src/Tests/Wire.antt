-- ===== src/Tests/Wire.antt =====
-- Keys, messages, packets and queues.
use wireguard_go.Base.{
  ℕ, ◌≡◌, ◌≤◌, ◌<◌, ◌+◌, ◌%◌, ◌^◌, ◌⊎◌, ◌++◌, refl, inl, false, some, List, [], ◌∷◌, replicate,
  length, take, slice, arith, zero, suc,
}
use wireguard_go.Base.Endian.{big_endian_uint16}
use wireguard_go.Keys.Hex.{AreBytes}
use wireguard_go.Routing.{RoutingTable, lookup_ipv4, lookup_ipv6}
use wireguard_go.Trie.{nil, node}
use wireguard_go.Misc.{min_uint}
use wireguard_go.Packet.{encrypt, decrypt, strip, strip_ipv4, ip_version}
use wireguard_go.Packet.Source.{strip-some, strip_wraps}
use wireguard_go.Packet.RoundTrip.{strip-decrypt-encrypt}
use wireguard_go.Queue.{Elements}
use wireguard_go.Tests.Handshakes.{toy, toy-IsSound}
use wireguard_go.Trie
use wireguard_go.Tests.Routes.{table4}

abbrev key : List ℕ
key = replicate 32 171

all-AreBytes : (n : ℕ) → AreBytes (replicate n 171)
all-AreBytes zero = tt
all-AreBytes (suc n) = (omega arith, all-AreBytes n)

-- An IPv4 header of 20 bytes from 10.1.2.3 to 10.1.0.1.
abbrev pub packet4 : List ℕ
packet4 = 69 ∷ 0 ∷ 0 ∷ 20 ∷ 0 ∷ 0 ∷ 0 ∷ 0 ∷ 64 ∷ 17 ∷ 0 ∷ 0 ∷ 10 ∷ 1 ∷ 2 ∷ 3 ∷ 10 ∷ 1 ∷ 0 ∷ 1 ∷ []

-- An IPv6 header whose payload length is 65500.
abbrev packet6 : List ℕ
packet6 = 96 ∷ 0 ∷ 0 ∷ 0 ∷ 255 ∷ 220 ∷ 17 ∷ 64 ∷ replicate 32 0

-- Every IPv6 address belongs to the peer 2.
abbrev all6 : RoutingTable
all6 = record table4 { ipv6 = Trie.insert nil (replicate 16 0) 0 2 }

strip_run : strip table4 2 (packet4 ++ 0 ∷ 0 ∷ []) ≡ some packet4
unfolding strip ip_version strip_ipv4 big_endian_uint16 lookup_ipv4 Trie.lookup Trie.lookup_from
    Trie.insert Trie.common_bits Trie.common_bits_from Trie.leading Trie.choose Trie.split_node
    min_uint
strip_run = refl

strip-some_example :
    ((ip_version (packet4 ++ 0 ∷ 0 ∷ []) ≡ 4)
      × (packet4 ≡ take (big_endian_uint16 (packet4 ++ 0 ∷ 0 ∷ []) 2) (packet4 ++ 0 ∷ 0 ∷ []))
      × (20 ≤ length packet4)
      × (lookup_ipv4 table4 (slice 12 16 packet4) ≡ some 2))
    ⊎ ((ip_version (packet4 ++ 0 ∷ 0 ∷ []) ≡ 6)
        × (packet4
            ≡ take
                ((big_endian_uint16 (packet4 ++ 0 ∷ 0 ∷ []) 4 + 40) % 2 ^ 16)
                (packet4 ++ 0 ∷ 0 ∷ []))
        × (lookup_ipv6 table4 (slice 8 24 (packet4 ++ 0 ∷ 0 ∷ [])) ≡ some 2))
strip-some_example = strip-some table4 2 (packet4 ++ 0 ∷ 0 ∷ []) packet4 strip_run

strip_wraps_example :
    (out : List ℕ) × (strip all6 2 packet6 ≡ some out)
    × (length out < 40)
    × (length out + 65536 ≡ big_endian_uint16 packet6 4 + 40)
unfolding ip_version big_endian_uint16 lookup_ipv6 Trie.lookup Trie.lookup_from Trie.insert
    Trie.common_bits Trie.common_bits_from Trie.leading Trie.choose Trie.split_node min_uint
strip_wraps_example = strip_wraps all6 2 packet6 refl (omega arith) (omega arith) (omega arith) refl

strip-decrypt-encrypt_example :
    (content : List ℕ) × (decrypt toy (7 ∷ []) (encrypt toy (7 ∷ []) 9 1420 5 packet4)
      ≡ (5, some content))
    × (strip table4 2 content ≡ some packet4)
unfolding ip_version big_endian_uint16 lookup_ipv4 Trie.lookup Trie.lookup_from Trie.insert
    Trie.common_bits Trie.common_bits_from Trie.leading Trie.choose Trie.split_node min_uint
strip-decrypt-encrypt_example =
    strip-decrypt-encrypt toy (7 ∷ []) 9 1420 5 packet4 table4 2 toy-IsSound (omega arith)
      (inl (refl, omega arith, refl, refl))

abbrev quiet : Elements
quiet n = record { dropped = false; locked = false }

abbrev queue : List ℕ
queue = 1 ∷ 2 ∷ []
