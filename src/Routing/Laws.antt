-- ===== src/Routing/Laws.antt =====
-- The routing table as a partial function from networks to peers, for both address lengths.
use wireguard_go.Base.{
  ℕ, ◌*◌, ◌≤◌, ◌≡◌, refl, sym, ap, ◌∙◌, ◌≢◌, ◌&&◌, ◌||◌, some, List, [], ◌==◌, if◌then◌else◌,
  points_to,
}
use wireguard_go.Trie
use wireguard_go.Trie.Address.{IsAddress, agrees}
use wireguard_go.Trie.Shape.{IsShaped}
use wireguard_go.Trie.Owner.{owner}
use wireguard_go.Trie.Lookup.{longest-some, lookup-longest, length-IsAddress}
use wireguard_go.Trie.Insert.{insert-IsShaped, owner-insert}
use wireguard_go.Trie.Remove.{remove_peer-IsShaped, owner-remove_peer}
use wireguard_go.Trie.Networks.{lists, lists-allowed_ips_from}
use wireguard_go.Routing.{
  RoutingTable, reset, allowed_ips, remove_peer, insert, lookup_ipv4, lookup_ipv6, ipv4_len,
  ipv6_len,
}

-- Both tries are well-formed, for their address lengths.
pub record IsValid (table : RoutingTable) : Type 0 where
  pub shaped4 : IsShaped ipv4_len table.ipv4
  pub shaped6 : IsShaped ipv6_len table.ipv6

pub reset-IsValid : IsValid reset
reset-IsValid = record { shaped4 = tt; shaped6 = tt }

pub remove_peer-IsValid :
    (table : RoutingTable) (p : ℕ) → IsValid table → IsValid (remove_peer table p)
unfolding remove_peer
remove_peer-IsValid table p v = record {
  shaped4 = remove_peer-IsShaped ipv4_len table.ipv4 p v.shaped4;
  shaped6 = remove_peer-IsShaped ipv6_len table.ipv6 p v.shaped6;
}

-- Insert of an IPv4 address with a mask of at most 32 bits into a valid table does not panic and
-- keeps the table valid: the peer owns the network in the IPv4 trie, every other network has the
-- owner it had, and the IPv6 trie is the same.
pub insert_ipv4 :
    (table : RoutingTable) (ip : List ℕ) (cidr p : ℕ)
    → IsValid table
    → IsAddress ipv4_len ip
    → cidr ≤ 32
    → (t : RoutingTable) × (insert table ip cidr p ≡ some t)
      × IsValid t
      × (t.ipv6 ≡ table.ipv6)
      × ((x : List ℕ) (k : ℕ)
          → owner t.ipv4 x k
            ≡ (if cidr == k && agrees cidr ip x then some p else owner table.ipv4 x k))
unfolding insert
insert_ipv4 table ip cidr p v a h = (
  record table { ipv4 = Trie.insert table.ipv4 ip cidr p },
  rw (length-IsAddress ipv4_len ip a),
  record {
    shaped4 = insert-IsShaped ipv4_len table.ipv4 ip cidr p v.shaped4 a h;
    shaped6 = v.shaped6;
  },
  refl,
  λ x k. owner-insert ipv4_len table.ipv4 ip cidr p x k v.shaped4 a h,
)

-- Insert of an IPv6 address with a mask of at most 128 bits into a valid table does not panic and
-- keeps the table valid: the peer owns the network in the IPv6 trie, every other network has the
-- owner it had, and the IPv4 trie is the same.
pub insert_ipv6 :
    (table : RoutingTable) (ip : List ℕ) (cidr p : ℕ)
    → IsValid table
    → IsAddress ipv6_len ip
    → cidr ≤ 128
    → (t : RoutingTable) × (insert table ip cidr p ≡ some t)
      × IsValid t
      × (t.ipv4 ≡ table.ipv4)
      × ((x : List ℕ) (k : ℕ)
          → owner t.ipv6 x k
            ≡ (if cidr == k && agrees cidr ip x then some p else owner table.ipv6 x k))
unfolding insert
insert_ipv6 table ip cidr p v a h = (
  record table { ipv6 = Trie.insert table.ipv6 ip cidr p },
  rw (length-IsAddress ipv6_len ip a),
  record {
    shaped4 = v.shaped4;
    shaped6 = insert-IsShaped ipv6_len table.ipv6 ip cidr p v.shaped6 a h;
  },
  refl,
  λ x k. owner-insert ipv6_len table.ipv6 ip cidr p x k v.shaped6 a h,
)

-- AllowedIPs of the table lists the networks that the peer owns in either trie.
pub lists-table_ips :
    (table : RoutingTable) (p : ℕ) (x : List ℕ) (k : ℕ)
    → IsValid table
    → lists (allowed_ips table p) x k
      ≡ (points_to (owner table.ipv4 x k) p || points_to (owner table.ipv6 x k) p)
unfolding allowed_ips
lists-table_ips table p x k v =
    lists-allowed_ips_from ipv6_len table.ipv6 p _ x k v.shaped6
    ∙ ap (λ b. b || points_to (owner table.ipv6 x k) p)
        (lists-allowed_ips_from ipv4_len table.ipv4 p [] x k v.shaped4)

-- Once a peer is removed from a valid table, no IPv4 and no IPv6 address is routed to it.
pub removed_unrouted :
    (table : RoutingTable) (p : ℕ) (ip4 ip6 : List ℕ)
    → IsValid table
    → IsAddress ipv4_len ip4
    → IsAddress ipv6_len ip6
    → (lookup_ipv4 (remove_peer table p) ip4 ≢ some p)
      × (lookup_ipv6 (remove_peer table p) ip6 ≢ some p)
unfolding remove_peer lookup_ipv4 lookup_ipv6
removed_unrouted table p ip4 ip6 v a4 a6 = (
  unrouted ipv4_len table.ipv4 p ip4 v.shaped4 a4,
  unrouted ipv6_len table.ipv6 p ip6 v.shaped6 a6,
)
  where
    unrouted :
        (size : ℕ) (t : Trie.Trie) (p : ℕ) (x : List ℕ)
        → IsShaped size t
        → IsAddress size x
        → Trie.lookup (Trie.remove_peer t p) x ≢ some p
    unrouted size t p x s a e =
        let (k, own) = longest-some (owner (Trie.remove_peer t p) x) (size * 8) (
          sym (lookup-longest size (Trie.remove_peer t p) x (remove_peer-IsShaped size t p s) a)
          ∙ e) in
        (owner-remove_peer size t p x k p s own).1 refl
