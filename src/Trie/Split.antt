-- ===== src/Trie/Split.antt =====
-- The split of trie.go's Insert: a node that does not contain the new network, and the new network.
use wireguard_go.Base.{
  ℕ, suc, ◌*◌, ◌≤◌, ◌<◌, ◌≡◌, refl, sym, subst, ◌∙◌, ◌≢◌, inl, inr, Bool, true, false, ◌&&◌, Option,
  none, some, List, arith, leb, ◌==◌, if◌then◌else◌, Bool-cases, ==→eq, leb→le, ==_refl,
  ne→==-false,
}
use wireguard_go.Misc.{min_uint, min_uint-eq-min}
use wireguard_go.Trie.{Trie, nil, node, new_node, or_else, split_node, common_bits}
use wireguard_go.Trie.Address.{ip_bit, IsAddress, Agree, agrees, agrees→Agree, Agree→agrees}
use wireguard_go.Trie.Common.{IsCommon, common_bits-IsCommon, le_of_Agree}
use wireguard_go.Trie.Shape.{IsBelow, IsShaped, ip_bit-lt-two, choose-eq-ip_bit}
use wireguard_go.Trie.Owner.{owner, owner-none}

pub agrees_congr : (c : ℕ) (a b x : List ℕ) → Agree c a b → agrees c a x ≡ agrees c b x
agrees_congr c a b x h = elim (Bool-cases (agrees c a x)) [
  | inl yes_a ↦ yes_a ∙ sym (Agree→agrees c b x (λ j p. sym (h j p) ∙ agrees→Agree c a x yes_a j p))
  | inr no_a ↦ elim (Bool-cases (agrees c b x)) [
    | inl yes_b ↦ cc (Agree→agrees c a x (λ j p. h j p ∙ agrees→Agree c b x yes_b j p))
    | inr no_b ↦ no_a ∙ sym no_b
  ]
]

module _ (p : ℕ) where
  abbrev new_owner : Bool → Option ℕ
  new_owner b = if b then some p else none

  put_above :
      (b : Bool) (o : Option ℕ) → or_else (new_owner b) (or_else o none) ≡ (if b then some p else o)
  put_above true o = refl
  put_above false none = refl
  put_above false (some x) = refl

  put_above' :
      (b : Bool) (o : Option ℕ) → or_else (new_owner b) (or_else none o) ≡ (if b then some p else o)
  put_above' true o = refl
  put_above' false o = refl

  put_left :
      (a b : Bool) (o : Option ℕ)
      → or_else (if a then none else none) (or_else (or_else (new_owner b) none) o)
        ≡ (if b then some p else o)
  put_left true true o = refl
  put_left true false o = refl
  put_left false true o = refl
  put_left false false o = refl

  put_right :
      (a b : Bool) (o : Option ℕ)
      → (b ≡ true → o ≡ none)
      → or_else (if a then none else none) (or_else o (or_else (new_owner b) none))
        ≡ (if b then some p else o)
  put_right a b o h = ground (arith, h)

module _ (size cN : ℕ) (bits : List ℕ) (q : Option ℕ) (byte shift : ℕ) (l r : Trie) (ip : List ℕ)
    (c p : ℕ) (s : IsShaped size (node cN bits q byte shift l r)) (a : IsAddress size ip)
    (hc : c ≤ size * 8) (out : (leb cN c && leb cN (common_bits bits ip)) ≡ false) where
  abbrev pub old : Trie
  old = node cN bits q byte shift l r

  abbrev pub common : ℕ
  common = common_bits bits ip

  common_lem : IsCommon size bits ip common
  common_lem = common_bits-IsCommon size bits ip s.3 a

  -- The new network contains the node.
  old_inside : c ≤ common → c < cN
  old_inside h = ground arith

  -- Neither contains the other: the next bit differs.
  apart : common < c → (common < cN) × (ip_bit bits common ≢ ip_bit ip common)
  apart h = elim common_lem.1 [
    | inl full ↦ absurd (omega arith)
    | inr (lt, ne) ↦ (ground arith, ne)
  ]

  -- The node below the new parent's other side, whichever it is.
  old-IsBelow : (n : ℕ) → n ≤ common → n < cN → IsBelow n ip (ip_bit bits n) old
  old-IsBelow n le lt = (lt, λ j h. sym (common_lem.0 j (omega arith)), refl)

  abbrev pub leaf : Trie
  leaf = new_node ip c (some p) nil nil

  -- What the split makes: the node under the new network, or both under a new parent.
  pub data Outcome (t : Trie) : Type 0 where
    under_left : c ≤ common → ip_bit bits c ≡ 0 → t ≡ new_node ip c (some p) old nil → Outcome t
    under_right : c ≤ common → ip_bit bits c ≡ 1 → t ≡ new_node ip c (some p) nil old → Outcome t
    parent_left :
        common < c
        → ip_bit ip common ≡ 0
        → ip_bit bits common ≡ 1
        → t ≡ new_node ip common none leaf old
        → Outcome t
    parent_right :
        common < c
        → ip_bit ip common ≡ 1
        → ip_bit bits common ≡ 0
        → t ≡ new_node ip common none old leaf
        → Outcome t

  Outcome-within : c ≤ common → Outcome (split_node old bits common ip c p)
  Outcome-within le = elim (Bool-cases (ip_bit bits c == 0)) [
    | inl z ↦ under_left le (ground arith) (shape ∙ rw z)
    | inr o ↦ under_right le (ground (arith, ip_bit-lt-two bits c)) (shape ∙ rw o)
  ]
    where
      least : min_uint c common ≡ c
      least = min_uint-eq-min c common ∙ omega arith

      shape : split_node old bits common ip c p ≡ (
          if ip_bit bits c == 0
          then new_node ip c (some p) old nil
          else new_node ip c (some p) nil old)
      shape = unfold split_node in rw (least, ==_refl c, choose-eq-ip_bit c bits)

  Outcome-beyond : common < c → Outcome (split_node old bits common ip c p)
  Outcome-beyond lt = elim (Bool-cases (ip_bit ip common == 0)) [
    | inl z ↦
        parent_left lt (ground arith) (ground (arith, ip_bit-lt-two bits common, differ))
          (shape ∙ rw z)
    | inr o ↦
        parent_right lt (ground (arith, ip_bit-lt-two ip common))
          (ground (arith, ip_bit-lt-two ip common, ip_bit-lt-two bits common, differ))
          (shape ∙ rw o)
  ]
    where
      differ : ip_bit bits common ≢ ip_bit ip common
      differ = (apart lt).1

      least : min_uint c common ≡ common
      least = min_uint-eq-min c common ∙ omega arith

      shape : split_node old bits common ip c p ≡ (
          if ip_bit ip common == 0
          then new_node ip common none leaf old
          else new_node ip common none old leaf)
      shape =
          unfold split_node in
          rw (least, ne→==-false c common (λ e. omega arith), choose-eq-ip_bit common ip)

  pub outcome : Outcome (split_node old bits common ip c p)
  outcome = elim (Bool-cases (leb c common)) [
    | inl within ↦ Outcome-within (leb→le _ _ within)
    | inr beyond ↦ Outcome-beyond (ground arith)
  ]

  leaf-IsShaped : IsShaped size leaf
  leaf-IsShaped = (refl, refl, hc, a, tt, tt, tt, tt)

  leaf-IsBelow : (n : ℕ) → n < c → IsBelow n ip (ip_bit ip n) leaf
  leaf-IsBelow n lt = (lt, λ j h. refl, refl)

  pub split-IsShaped : (t : Trie) → Outcome t → IsShaped size t
  split-IsShaped t (under_left le z e) = rw e (
    refl,
    refl,
    hc,
    a,
    subst (λ i. IsBelow c ip i old) z (old-IsBelow c le (old_inside le)),
    tt,
    s,
    tt,
  )
  split-IsShaped t (under_right le z e) = rw e (
    refl,
    refl,
    hc,
    a,
    tt,
    subst (λ i. IsBelow c ip i old) z (old-IsBelow c le (old_inside le)),
    tt,
    s,
  )
  split-IsShaped t (parent_left lt z o e) = rw e (
    refl,
    refl,
    omega arith,
    a,
    subst (λ i. IsBelow common ip i leaf) z (leaf-IsBelow common lt),
    subst (λ i. IsBelow common ip i old) o (old-IsBelow common (omega arith) (apart lt).0),
    leaf-IsShaped,
    s,
  )
  split-IsShaped t (parent_right lt z o e) = rw e (
    refl,
    refl,
    omega arith,
    a,
    subst (λ i. IsBelow common ip i old) o (old-IsBelow common (omega arith) (apart lt).0),
    subst (λ i. IsBelow common ip i leaf) z (leaf-IsBelow common lt),
    s,
    leaf-IsShaped,
  )

  -- The new network is not on the node's side of the new parent.
  other_side :
      (x : List ℕ) (k : ℕ)
      → common < c
      → ip_bit ip common ≡ 1
      → ip_bit bits common ≡ 0
      → (c == k && agrees c ip x) ≡ true
      → owner old x k ≡ none
  other_side x k lt z o h =
      owner-none size common 0 ip old x k s
        (subst (λ i. IsBelow common ip i old) o (old-IsBelow common (omega arith) (apart lt).0))
        (inr (λ m. omega (arith, m.1, z, agrees→Agree c ip x (ground arith) common lt)))

  -- The new network gets its owner, and every other keeps its own.
  pub split-owner :
      (t : Trie) (x : List ℕ) (k : ℕ)
      → Outcome t
      → owner t x k ≡ (if c == k && agrees c ip x then some p else owner old x k)
  split-owner t x k (under_left le z e) =
      rw e (unfold owner in put_above p (c == k && agrees c ip x) (owner old x k))
  split-owner t x k (under_right le z e) =
      rw e (unfold owner in put_above' p (c == k && agrees c ip x) (owner old x k))
  split-owner t x k (parent_left lt z o e) = rw e (
      unfold owner in
      put_left p (common == k && agrees common ip x) (c == k && agrees c ip x) (owner old x k))
  split-owner t x k (parent_right lt z o e) = rw e (
      unfold owner in
      put_right p (common == k && agrees common ip x) (c == k && agrees c ip x) (owner old x k)
        (other_side x k lt z o))

  beyond_prefix :
      (c0 i : ℕ) (bits0 : List ℕ)
      → IsBelow c0 bits0 i old
      → c0 < size * 8
      → Agree c0 bits0 ip
      → ip_bit ip c0 ≡ i
      → c0 < common
  beyond_prefix c0 i bits0 b lt ag h = le_of_Agree size bits ip (suc c0) common common_lem lt λ j p.
      elim (Bool-cases (j == c0)) [
        | inl e ↦ rw (==→eq j c0 e) (b.2 ∙ sym h)
        | inr n ↦ sym (b.1 j (ground arith)) ∙ ag j (ground arith)
      ]

  -- What is below some shorter prefix stays below it.
  pub split-IsBelow :
      (t : Trie) (c0 i : ℕ) (bits0 : List ℕ)
      → Outcome t
      → IsBelow c0 bits0 i old
      → c0 < c
      → Agree c0 bits0 ip
      → ip_bit ip c0 ≡ i
      → IsBelow c0 bits0 i t
  split-IsBelow t c0 i bits0 (under_left le z e) b lt ag h = rw e (lt, ag, h)
  split-IsBelow t c0 i bits0 (under_right le z e) b lt ag h = rw e (lt, ag, h)
  split-IsBelow t c0 i bits0 (parent_left lt' z o e) b lt ag h =
      rw e (beyond_prefix c0 i bits0 b (omega arith) ag h, ag, h)
  split-IsBelow t c0 i bits0 (parent_right lt' z o e) b lt ag h =
      rw e (beyond_prefix c0 i bits0 b (omega arith) ag h, ag, h)
