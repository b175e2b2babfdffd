-- ===== src/Routing.antt =====
-- routing.go: the table of the two tries. Each method holds the table's lock throughout.
pub mod Laws
use wireguard_go.Base.{ℕ, Option, none, some, List, [], ◌==◌, if◌then◌else◌, length}
use wireguard_go.Trie
use wireguard_go.Trie.{Trie, nil}

abbrev pub ipv4_len : ℕ
ipv4_len = 4

abbrev pub ipv6_len : ℕ
ipv6_len = 16

pub record RoutingTable : Type 0 where
  pub ipv4 : Trie
  pub ipv6 : Trie

abbrev pub reset : RoutingTable
reset = record { ipv4 = nil; ipv6 = nil }

unfoldable pub allowed_ips : RoutingTable → ℕ → List (List ℕ × ℕ)
allowed_ips table peer = Trie.allowed_ips table.ipv6 peer (Trie.allowed_ips table.ipv4 peer [])

unfoldable pub remove_peer : RoutingTable → ℕ → RoutingTable
remove_peer table peer = record {
  ipv4 = Trie.remove_peer table.ipv4 peer;
  ipv6 = Trie.remove_peer table.ipv6 peer;
}

-- `none` is the panic on an address of another length.
unfoldable pub insert : RoutingTable → List ℕ → ℕ → ℕ → Option RoutingTable
insert table ip cidr peer =
    if length ip == ipv6_len
    then some (record table { ipv6 = Trie.insert table.ipv6 ip cidr peer })
    else if length ip == ipv4_len
    then some (record table { ipv4 = Trie.insert table.ipv4 ip cidr peer })
    else none

unfoldable pub lookup_ipv4 : RoutingTable → List ℕ → Option ℕ
lookup_ipv4 table address = Trie.lookup table.ipv4 address

unfoldable pub lookup_ipv6 : RoutingTable → List ℕ → Option ℕ
lookup_ipv6 table address = Trie.lookup table.ipv6 address
