-- ===== src/Tests/Routes.antt =====
-- The trie and the routing table on a few IPv4 networks.
use wireguard_go.Base.{
  ℕ, ◌≡◌, ◌≢◌, ◌≤◌, ◌*◌, refl, ◌&&◌, none, some, List, [], ◌∷◌, arith, ◌==◌, if◌then◌else◌,
  points_to, replicate, zero, suc,
}
use wireguard_go.Trie.{
  Trie, nil, node, insert, lookup, lookup_from, remove_peer, allowed_ips, choose, common_bits,
  common_bits_from, leading, split_node,
}
use wireguard_go.Base.Bits.{bit}
use wireguard_go.Misc.{min_uint}
use wireguard_go.Trie.Address.{IsAddress, agrees, ip_bit}
use wireguard_go.Trie.Shape.{IsShaped}
use wireguard_go.Trie.Owner.{owner}
use wireguard_go.Trie.Lookup.{longest, lookup-longest}
use wireguard_go.Trie.Insert.{insert-IsShaped, owner-insert}
use wireguard_go.Trie.Remove.{owner-remove_peer, remove_peer_loses}
use wireguard_go.Trie.Networks.{lists, lists-allowed_ips}
use wireguard_go.Routing.{RoutingTable}

-- 10.0.0.0, 10.1.0.0, 10.128.0.0 and 10.1.2.3.
abbrev ten : List ℕ
ten = 10 ∷ 0 ∷ 0 ∷ 0 ∷ []

abbrev ten_one : List ℕ
ten_one = 10 ∷ 1 ∷ 0 ∷ 0 ∷ []

abbrev ten_high : List ℕ
ten_high = 10 ∷ 128 ∷ 0 ∷ 0 ∷ []

abbrev pub host : List ℕ
host = 10 ∷ 1 ∷ 2 ∷ 3 ∷ []

four-IsAddress :
    (a b c d : ℕ) → a ≤ 255 → b ≤ 255 → c ≤ 255 → d ≤ 255 → IsAddress 4 (a ∷ b ∷ c ∷ d ∷ [])
four-IsAddress a b c d ha hb hc hd = (omega arith, (omega arith, (omega arith, (omega arith, tt))))

ten-IsAddress : IsAddress 4 ten
ten-IsAddress = four-IsAddress 10 0 0 0 (omega arith) (omega arith) (omega arith) (omega arith)

ten_one-IsAddress : IsAddress 4 ten_one
ten_one-IsAddress = four-IsAddress 10 1 0 0 (omega arith) (omega arith) (omega arith) (omega arith)

ten_high-IsAddress : IsAddress 4 ten_high
ten_high-IsAddress =
    four-IsAddress 10 128 0 0 (omega arith) (omega arith) (omega arith) (omega arith)

pub host-IsAddress : IsAddress 4 host
host-IsAddress = four-IsAddress 10 1 2 3 (omega arith) (omega arith) (omega arith) (omega arith)

-- 10.0.0.0/8 of the peer 1, 10.1.0.0/16 of the peer 2, 10.128.0.0/9 of the peer 3.
abbrev one_network : Trie
one_network = insert nil ten 8 1

abbrev two_networks : Trie
two_networks = insert one_network ten_one 16 2

abbrev three_networks : Trie
three_networks = insert two_networks ten_high 9 3

one-IsShaped : IsShaped 4 one_network
one-IsShaped = insert-IsShaped 4 nil ten 8 1 tt ten-IsAddress (omega arith)

two-IsShaped : IsShaped 4 two_networks
two-IsShaped =
    insert-IsShaped 4 one_network ten_one 16 2 one-IsShaped ten_one-IsAddress (omega arith)

pub three-IsShaped : IsShaped 4 three_networks
three-IsShaped =
    insert-IsShaped 4 two_networks ten_high 9 3 two-IsShaped ten_high-IsAddress (omega arith)

lookup_run : lookup three_networks host ≡ some 2
unfolding lookup lookup_from insert common_bits common_bits_from leading choose split_node min_uint
lookup_run = refl

lookup-longest_example : lookup three_networks host ≡ longest (owner three_networks host) (4 * 8)
lookup-longest_example = lookup-longest 4 three_networks host three-IsShaped host-IsAddress

owner-insert_example :
    owner (insert two_networks ten_high 9 3) host 16
    ≡ (if 9 == 16 && agrees 9 ten_high host then some 3 else owner two_networks host 16)
owner-insert_example =
    owner-insert 4 two_networks ten_high 9 3 host 16 two-IsShaped ten_high-IsAddress (omega arith)

lists-allowed_ips_example :
    lists (allowed_ips three_networks 2 []) host 16 ≡ points_to (owner three_networks host 16) 2
lists-allowed_ips_example = lists-allowed_ips 4 three_networks 2 host 16 three-IsShaped

abbrev second_peer : ℕ
second_peer = 2

owner-remove_peer_example : (owner three_networks host 16 ≡ some second_peer) × (second_peer ≢ 3)
unfolding owner remove_peer insert common_bits common_bits_from leading choose split_node min_uint
    agrees ip_bit bit
owner-remove_peer_example = owner-remove_peer 4 three_networks 3 host 16 2 three-IsShaped refl

remove_peer_loses_example :
    owner
      (remove_peer (node 8 ten (some 1) 1 7 (insert nil ten_one 16 2) (insert nil ten_high 9 3)) 1)
      ten_high
      9
    ≡ none
unfolding owner remove_peer insert agrees ip_bit bit common_bits choose split_node min_uint
remove_peer_loses_example =
    remove_peer_loses 4 8 ten 1 7 (insert nil ten_one 16 2) (insert nil ten_high 9 3) 1 ten_high 9 3
      three-IsShaped (λ e. cc) refl

-- The address ::.
abbrev pub any6 : List ℕ
any6 = replicate 16 0

zeros-IsAddress : (n : ℕ) → IsAddress n (replicate n 0)
zeros-IsAddress zero = tt
zeros-IsAddress (suc n) = (omega arith, zeros-IsAddress n)

pub any6-IsAddress : IsAddress 16 any6
any6-IsAddress = zeros-IsAddress 16

-- The table of `three_networks`.
abbrev pub table4 : RoutingTable
table4 = record { ipv4 = three_networks; ipv6 = nil }
