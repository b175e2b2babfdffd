-- ===== src/Device/Removal.antt =====
-- What RemovePeer of device.go leaves of a peer.
use wireguard_go.Base.{
  ℕ, ◌≡◌, ◌≢◌, ◌⊎◌, refl, sym, subst, ap, ap₂, ◌∙◌, inl, inr, true, false, none, some, List, [],
  ◌∷◌, bytes_eq, Bool-cases, ◌==◌, ==→eq, ==_refl, arith,
}
use wireguard_go.Routing.{lookup_ipv4, lookup_ipv6}
use wireguard_go.Routing
use wireguard_go.Routing.{ipv4_len, ipv6_len}
use wireguard_go.Routing.Laws.{IsValid, removed_unrouted}
use wireguard_go.Trie.Address.{IsAddress}
use wireguard_go.Timers.{expired_zero_key_material}
use wireguard_go.Timers.Keys.{AreUnmapped, expired_zero_key_material-AreUnmapped}
use wireguard_go.Device.{Device, key_map_lookup, key_map_delete, lookup_peer, session_of}
use wireguard_go.Device.Peers.{stop, unsafe_remove_peer, remove_found, remove_peer}
use wireguard_go.Device.Running.{stop_keeps, stop_rests}

key_map_lookup-key_map_delete :
    (entries : List (List ℕ × ℕ)) (key : List ℕ)
    → key_map_lookup (key_map_delete entries key) key ≡ none
unfolding key_map_lookup key_map_delete
key_map_lookup-key_map_delete [] key = refl
key_map_lookup-key_map_delete ((k, number) ∷ entries) key = elim (Bool-cases (bytes_eq k key)) [
  | inl same ↦ simp same (key_map_lookup-key_map_delete entries key)
  | inr other ↦ simp other (key_map_lookup-key_map_delete entries key)
]

bytes_eq→eq : (bs cs : List ℕ) → bytes_eq bs cs ≡ true → bs ≡ cs
bytes_eq→eq [] [] h = refl
bytes_eq→eq [] (c ∷ cs) h = absurd cc
bytes_eq→eq (b ∷ bs) [] h = absurd cc
bytes_eq→eq (b ∷ bs) (c ∷ cs) h = elim (Bool-cases (b == c)) [
  | inl same ↦ ap₂ (λ x xs. x ∷ xs) (==→eq b c same) (bytes_eq→eq bs cs (ground arith))
  | inr other ↦ absurd (ground arith)
]

-- Another key is found as before.
key_map_lookup-key_map_delete_other :
    (entries : List (List ℕ × ℕ)) (key key' : List ℕ)
    → bytes_eq key key' ≡ false
    → key_map_lookup (key_map_delete entries key) key' ≡ key_map_lookup entries key'
unfolding key_map_lookup key_map_delete
key_map_lookup-key_map_delete_other [] key key' differ = refl
key_map_lookup-key_map_delete_other ((k, number) ∷ entries) key key' differ =
    let rest = key_map_lookup-key_map_delete_other entries key key' differ in
    elim (Bool-cases (bytes_eq k key)) [
      | inl same ↦
          let other : bytes_eq k key' ≡ false =
            ap (λ l. bytes_eq l key') (bytes_eq→eq k key same) ∙ differ in
          simp (same, other) rest
      | inr kept ↦ elim (Bool-cases (bytes_eq k key')) [
        | inl found ↦ simp (kept, found) refl
        | inr other ↦ simp (kept, other) rest
      ]
    ]

-- What Stop leaves alone, and what it takes away.
stop-routing : (number : ℕ) (d : Device) → (stop number d).routing ≡ d.routing
unfolding stop
stop-routing number d = elim (Bool-cases (d.peers number).is_running) [
  | inl runs ↦ simp runs refl
  | inr rests ↦ simp rests refl
]

-- What Stop has done to the peer `number`, which holds whether it was running or not: a peer at rest
-- leaves the peers and the indices as they were; a running one has no key pairs any more, and no
-- index leads to those that it had or to its handshake.
abbrev pub IsCleared : ℕ → Device → Device → Type 0
IsCleared number d d' =
    (((d.peers number).is_running ≡ false) × (d'.peers ≡ d.peers) × (d'.indices ≡ d.indices))
    ⊎ (((d.peers number).is_running ≡ true)
        × ((d'.peers number).keypairs ≡ record { current = none; previous = none; next = none })
        × AreUnmapped (session_of d number) d'.indices)

stop-IsCleared : (number : ℕ) (d : Device) → IsCleared number d (stop number d)
unfolding stop expired_zero_key_material
stop-IsCleared number d = elim (Bool-cases (d.peers number).is_running) [
  | inr rests ↦ inl (rests, simp rests refl, simp rests refl)
  | inl runs ↦ inr (
    runs,
    simp (runs, ==_refl number) refl,
    simp runs (expired_zero_key_material-AreUnmapped (session_of d number)),
  )
]

-- The device no longer knows the key, knows any other key as before, routes no address to the
-- peer, and the peer is at rest and cleared.
abbrev pub IsRemoved : List ℕ → List ℕ → ℕ → List ℕ → List ℕ → Device → Device → Type 0
IsRemoved key key' number ip4 ip6 d d' =
    (lookup_peer d' key ≡ none)
    × ((bytes_eq key key' ≡ true) ⊎ (lookup_peer d' key' ≡ lookup_peer d key'))
    × (lookup_ipv4 d'.routing ip4 ≢ some number)
    × (lookup_ipv6 d'.routing ip6 ≢ some number)
    × ((d'.peers number).is_running ≡ false)
    × IsCleared number d d'

unsafe_remove_peer-IsRemoved :
    (key key' : List ℕ) (number : ℕ) (ip4 ip6 : List ℕ) (d : Device)
    → IsValid d.routing
    → IsAddress ipv4_len ip4
    → IsAddress ipv6_len ip6
    → IsRemoved key key' number ip4 ip6 d (unsafe_remove_peer number key d)
unfolding unsafe_remove_peer lookup_peer
unsafe_remove_peer-IsRemoved key key' number ip4 ip6 d valid a4 a6 =
    let d' : Device = record d { routing = Routing.remove_peer d.routing number } in
    let (none4, none6) = removed_unrouted d.routing number ip4 ip6 valid a4 a6 in
    let same = sym (stop-routing number d') in
    (
      key_map_lookup-key_map_delete (stop number d').key_map key,
      elim (Bool-cases (bytes_eq key key')) [
        | inl same ↦ inl same
        | inr differ ↦ inr (
            key_map_lookup-key_map_delete_other (stop number d').key_map key key' differ
            ∙ ap (λ m. key_map_lookup m key') (stop_keeps number d').2)
      ],
      subst (λ t. lookup_ipv4 t ip4 ≢ some number) same none4,
      subst (λ t. lookup_ipv6 t ip6 ≢ some number) same none6,
      stop_rests number d',
      stop-IsCleared number d',
    )

-- After RemovePeer of a key that is in the map, with a valid routing table, the key is not in the
-- map, every other key leads to the peer it led to, no address is routed to the peer, and the peer
-- is not running. If it was running, its slots are empty, and neither the index of its handshake
-- nor that of a key pair that was in a slot leads anywhere; the index 0 stands for none. If it was
-- not, the peers and the index table are as they were.
pub remove_peer-IsRemoved :
    (key key' : List ℕ) (number : ℕ) (ip4 ip6 : List ℕ) (d : Device)
    → lookup_peer d key ≡ some number
    → IsValid d.routing
    → IsAddress ipv4_len ip4
    → IsAddress ipv6_len ip6
    → IsRemoved key key' number ip4 ip6 d (remove_peer key d)
unfolding remove_peer
remove_peer-IsRemoved key key' number ip4 ip6 d found valid a4 a6 =
    subst (IsRemoved key key' number ip4 ip6 d) (ap (λ o. remove_found o key d) (sym found))
      (unsafe_remove_peer-IsRemoved key key' number ip4 ip6 d valid a4 a6)
