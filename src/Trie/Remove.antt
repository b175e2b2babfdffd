-- ===== src/Trie/Remove.antt =====
-- RemovePeer of trie.go: what it keeps, what it removes, and the networks that it loses.
use wireguard_go.Base.{
  ℕ, ◌≡◌, refl, ap, ◌∙◌, ◌≢◌, ◌⊎◌, inl, inr, true, false, ◌&&◌, Option, none, some, List, arith,
  ◌==◌, if◌then◌else◌, Bool-cases, ==→eq, ==-false→ne, points_to, Option-cases, ==_refl,
}
use wireguard_go.Trie.{Trie, nil, node, merge, remove_peer}
use wireguard_go.Trie.Address.{ip_bit, agrees}
use wireguard_go.Trie.Shape.{IsBelow, IsShaped, IsBelow-trans}
use wireguard_go.Trie.Owner.{owner, owner-none}

-- Two children side by side: a network of the right one is not in the left one.
pub owner_left_none :
    (size c : ℕ) (bits : List ℕ) (q : Option ℕ) (byte shift : ℕ) (l r : Trie) (x : List ℕ) (k : ℕ)
    {o : ℕ}
    → IsShaped size (node c bits q byte shift l r)
    → owner r x k ≡ some o
    → owner l x k ≡ none
owner_left_none size c bits q byte shift l r x k s e = elim (Bool-cases (ip_bit x c == 0)) [
  | inl z ↦
      cc (e, owner-none size c 1 bits r x k s.7 s.5 (inr (λ m. omega (arith, m.1, ==→eq _ _ z))))
  | inr o ↦ owner-none size c 0 bits l x k s.6 s.4 (inr (λ m. ==-false→ne _ _ o m.1))
]

record Removed (size : ℕ) (t u : Trie) (p : ℕ) : Type 0 where
  shaped : IsShaped size u
  placed : (c0 i : ℕ) (bits0 : List ℕ) → IsBelow c0 bits0 i t → IsBelow c0 bits0 i u
  sound : (x : List ℕ) (k o : ℕ) → owner u x k ≡ some o → (owner t x k ≡ some o) × (o ≢ p)

module _ (size c : ℕ) (bits : List ℕ) (q : Option ℕ) (byte shift : ℕ) (l r l' r' : Trie) (p : ℕ)
    (s : IsShaped size (node c bits q byte shift l r)) (sl : Removed size l l' p)
    (sr : Removed size r r' p) where
  abbrev top : Trie
  top = node c bits q byte shift l r

  found_left : (x : List ℕ) (k o : ℕ) → owner l x k ≡ some o → owner top x k ≡ some o
  unfolding owner
  found_left x k o e = elim (Bool-cases (c == k)) [
    | inl here ↦
        cc (e, owner-none size c 0 bits l x k s.6 s.4 (inl (omega (arith, ==→eq _ _ here))))
    | inr away ↦ ground arith
  ]

  found_right : (x : List ℕ) (k o : ℕ) → owner r x k ≡ some o → owner top x k ≡ some o
  unfolding owner
  found_right x k o e = elim (Bool-cases (c == k)) [
    | inl here ↦
        cc (e, owner-none size c 1 bits r x k s.7 s.5 (inl (omega (arith, ==→eq _ _ here))))
    | inr away ↦ ground (arith, owner_left_none size c bits q byte shift l r x k s e)
  ]

  kept_sound :
      points_to q p ≡ false
      → (x : List ℕ) (k o : ℕ) → owner (node c bits q byte shift l' r') x k ≡ some o
      → (owner top x k ≡ some o) × (o ≢ p)
  kept_sound other x k o e = elim (Option-cases (if c == k && agrees c bits x then q else none)) [
    | inr here ↦ (unfold owner in ground arith, unfold owner in ground arith)
    | inl away ↦ elim (Option-cases (owner l' x k)) [
      | inr (z, at_left) ↦
          let same : z ≡ o = unfold owner in ground arith in
          let (old, ne) = sl.sound x k o (at_left ∙ ap some same) in (found_left x k o old, ne)
      | inl no_left ↦
          let at_right : owner r' x k ≡ some o = unfold owner in ground arith in
          let (old, ne) = sr.sound x k o at_right in (found_right x k o old, ne)
    ]
  ]

  -- The node of another peer, or of none, stays.
  kept : points_to q p ≡ false → Removed size top (node c bits q byte shift l' r') p
  kept other = record {
    shaped =
        (s.0, s.1, s.2, s.3, sl.placed c 0 bits s.4, sr.placed c 1 bits s.5, sl.shaped, sr.shaped);
    placed = λ c0 i bits0 b. b;
    sound = λ x k o e. kept_sound other x k o e;
  }

  -- Where only one child is left it takes the node's place.
  lifted_right : Removed size top r' p
  lifted_right = record {
    shaped = sr.shaped;
    placed =
        λ c0 i bits0 b. sr.placed c0 i bits0 (IsBelow-trans c0 c i 1 bits0 bits r b.0 b.1 b.2 s.5);
    sound = λ x k o e. (found_right x k o (sr.sound x k o e).0, (sr.sound x k o e).1);
  }

  lifted_left : Removed size top l' p
  lifted_left = record {
    shaped = sl.shaped;
    placed =
        λ c0 i bits0 b. sl.placed c0 i bits0 (IsBelow-trans c0 c i 0 bits0 bits l b.0 b.1 b.2 s.4);
    sound = λ x k o e. (found_left x k o (sl.sound x k o e).0, (sl.sound x k o e).1);
  }

  Removed-node :
      Removed size top (if points_to q p then merge l' r' else node c bits q byte shift l' r') p
  Removed-node = elim (Bool-cases (points_to q p)) [
    | inr other ↦ rw other (kept other)
    | inl own ↦ rw own (merged l' lifted_left lifted_right)
  ]
    where
      merged :
          (u : Trie)
          → Removed size top u p
          → Removed size top r' p
          → Removed size top (merge u r') p
      merged nil a b = b
      merged (node c' bits' q' byte' shift' l'' r'') a b = a

remove_peer-Removed :
    (size : ℕ) (t : Trie) (p : ℕ) → IsShaped size t → Removed size t (remove_peer t p) p
unfolding remove_peer
remove_peer-Removed size nil p s = record {
  shaped = tt;
  placed = λ c0 i bits0 b. tt;
  sound = λ x k o e. unfold owner in cc;
}
remove_peer-Removed size (node c bits q byte shift l r) p s =
    Removed-node size c bits q byte shift l r (remove_peer l p) (remove_peer r p) p s
      (remove_peer-Removed size l p s.6) (remove_peer-Removed size r p s.7)

-- After RemovePeer a well-formed trie is still well-formed.
pub remove_peer-IsShaped :
    (size : ℕ) (t : Trie) (p : ℕ) → IsShaped size t → IsShaped size (remove_peer t p)
remove_peer-IsShaped size t p s = (remove_peer-Removed size t p s).shaped

-- After RemovePeer on a well-formed trie the removed peer owns nothing, and whatever is owned was
-- owned by the same peer before.
pub owner-remove_peer :
    (size : ℕ) (t : Trie) (p : ℕ) (x : List ℕ) (k o : ℕ)
    → IsShaped size t
    → owner (remove_peer t p) x k ≡ some o
    → (owner t x k ≡ some o) × (o ≢ p)
owner-remove_peer size t p x k o s e = (remove_peer-Removed size t p s).sound x k o e

-- No node of the peer p keeps two children when p is removed.
abbrev pub IsUnforked : Trie → ℕ → Type 0
IsUnforked nil p = Unit {0}
IsUnforked (node c bits q byte shift l r) p =
    (points_to q p ≡ true → (remove_peer l p ≡ nil) ⊎ (remove_peer r p ≡ nil))
    × IsUnforked l p
    × IsUnforked r p

merge_left : (l r : Trie) → l ≢ nil → merge l r ≡ l
merge_left nil r h = absurd (h refl)
merge_left (node c bits q byte shift l' r') r h = refl

owner_not_nil : (t : Trie) (x : List ℕ) (k o : ℕ) → owner t x k ≡ some o → t ≢ nil
unfolding owner
owner_not_nil nil x k o e = cc
owner_not_nil (node c bits q byte shift l r) x k o e = λ h. cc

-- One node of `unforked_kept`: where the network is owned decides where it is found afterwards.
module _ (size c : ℕ) (bits : List ℕ) (q : Option ℕ) (byte shift : ℕ) (l r : Trie) (p : ℕ)
    (x : List ℕ) (k o : ℕ) (s : IsShaped size (node c bits q byte shift l r)) (ne : o ≢ p) where
  abbrev after : Trie
  after =
      if points_to q p
      then merge (remove_peer l p) (remove_peer r p)
      else node c bits q byte shift (remove_peer l p) (remove_peer r p)

  kept_own : (if c == k && agrees c bits x then q else none) ≡ some o → owner after x k ≡ some o
  kept_own e = let other : points_to q p ≡ false = ground arith in rw other (unfold owner in rw e)

  kept_left :
      (if c == k && agrees c bits x then q else none) ≡ none
      → owner (remove_peer l p) x k ≡ some o
      → owner after x k ≡ some o
  kept_left own e = elim (Bool-cases (points_to q p)) [
    | inl its ↦ rw its (
        rw
          (merge_left (remove_peer l p) (remove_peer r p) (owner_not_nil (remove_peer l p) x k o e))
          e)
    | inr other ↦ rw other (unfold owner in rw (own, e))
  ]

  kept_right :
      (points_to q p ≡ true → (remove_peer l p ≡ nil) ⊎ (remove_peer r p ≡ nil))
      → (if c == k && agrees c bits x then q else none) ≡ none
      → owner r x k ≡ some o
      → owner (remove_peer r p) x k ≡ some o
      → owner after x k ≡ some o
  kept_right u own old e = elim (Bool-cases (points_to q p)) [
    | inl its ↦ rw its (elim (u its) [
      | inl no_left ↦ rw no_left e
      | inr no_right ↦ absurd (owner_not_nil (remove_peer r p) x k o e no_right)
    ])
    | inr other ↦ rw other (unfold owner in rw (own, left_none, e))
  ]
    where
      left_none : owner (remove_peer l p) x k ≡ none
      left_none = elim (Option-cases (owner (remove_peer l p) x k)) [
        | inl fine ↦ fine
        | inr (z, found) ↦ cc (
          owner_left_none size c bits q byte shift l r x k s old,
          (owner-remove_peer size l p x k z s.6 found).0,
        )
      ]

unforked_kept :
    (size : ℕ) (t : Trie) (p : ℕ) (x : List ℕ) (k o : ℕ)
    → IsShaped size t
    → IsUnforked t p
    → owner t x k ≡ some o
    → o ≢ p
    → owner (remove_peer t p) x k ≡ some o
unfolding remove_peer
unforked_kept size nil p x k o s u e ne = unfold owner in cc
unforked_kept size (node c bits q byte shift l r) p x k o s u e ne =
    elim (Option-cases (if c == k && agrees c bits x then q else none)) [
      | inr (z, own) ↦
          kept_own size c bits q byte shift l r p x k o s ne (own ∙ unfold owner in ground arith)
      | inl own ↦ elim (Option-cases (owner l x k)) [
        | inr (z, at_left) ↦
            let same : z ≡ o = unfold owner in ground arith in
            kept_left size c bits q byte shift l r p x k o s ne own
              (unforked_kept size l p x k o s.6 u.1 (at_left ∙ ap some same) ne)
        | inl no_left ↦
            let at_right : owner r x k ≡ some o = unfold owner in ground arith in
            kept_right size c bits q byte shift l r p x k o s ne u.0 own at_right
              (unforked_kept size r p x k o s.7 u.2 at_right ne)
      ]
    ]

-- Where no node of p keeps two children in a well-formed trie, RemovePeer removes the networks of p
-- and no other.
pub owner-remove_peer_unforked :
    (size : ℕ) (t : Trie) (p : ℕ) (x : List ℕ) (k : ℕ)
    → IsShaped size t
    → IsUnforked t p
    → owner (remove_peer t p) x k ≡ (if points_to (owner t x k) p then none else owner t x k)
owner-remove_peer_unforked size t p x k s u = elim (Option-cases (owner (remove_peer t p) x k)) [
  | inr (o, e) ↦ ground (arith, owner-remove_peer size t p x k o s e)
  | inl e ↦ elim (Option-cases (owner t x k)) [
    | inl unowned ↦ rw (e, unowned)
    | inr (o, owned) ↦ elim (Bool-cases (o == p)) [
      | inl its ↦ ground arith
      | inr other ↦ cc (e, unforked_kept size t p x k o s u owned (==-false→ne _ _ other))
    ]
  ]
]

-- Where the root of a well-formed trie belongs to p and keeps its first child, RemovePeer of p
-- loses the second: no network that had an owner in `child[1]` has one afterwards, whoever owned
-- it.
pub remove_peer_loses :
    (size c : ℕ) (bits : List ℕ) (byte shift : ℕ) (l r : Trie) (p : ℕ) (x : List ℕ) (k o : ℕ)
    → IsShaped size (node c bits (some p) byte shift l r)
    → remove_peer l p ≢ nil
    → owner r x k ≡ some o
    → owner (remove_peer (node c bits (some p) byte shift l r) p) x k ≡ none
remove_peer_loses size c bits byte shift l r p x k o s two e =
    rw gone (elim (Option-cases (owner (remove_peer l p) x k)) [
      | inl none_left ↦ none_left
      | inr (z, found) ↦ cc (
        owner_left_none size c bits (some p) byte shift l r x k s e,
        (owner-remove_peer size l p x k z s.6 found).0,
      )
    ])
  where
    gone : remove_peer (node c bits (some p) byte shift l r) p ≡ remove_peer l p
    gone =
        unfold remove_peer in (rw (==_refl p) (merge_left (remove_peer l p) (remove_peer r p) two))
