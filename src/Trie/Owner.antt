-- ===== src/Trie/Owner.antt =====
-- What a trie of trie.go stores: the owner of each network, by a search through all nodes.
use wireguard_go.Base.{
  ℕ, ◌≤◌, ◌≡◌, refl, sym, ◌∙◌, ◌⊎◌, inl, inr, true, false, ◌&&◌, Option, none, List, arith, ◌==◌,
  if◌then◌else◌, Bool-cases, ==→eq, ==-false→ne,
}
use wireguard_go.Trie.{Trie, nil, node, or_else}
use wireguard_go.Trie.Address.{ip_bit, Agree, agrees, agrees→Agree, Agree→agrees}
use wireguard_go.Trie.Shape.{IsBelow, IsShaped, IsBelow-trans}

-- The peer that owns the network of the first k bits of `ip`.
unfoldable pub owner : Trie → List ℕ → ℕ → Option ℕ
owner nil ip k = none
owner (node c bits q byte shift l r) ip k =
    or_else (if c == k && agrees c bits ip then q else none) (or_else (owner l ip k) (owner r ip k))

-- Why no network below the prefix (c, bits) and the bit i is that of the first k bits of `ip`.
abbrev pub Misses : ℕ → List ℕ → ℕ → List ℕ → ℕ → Type 0
Misses c bits i ip k = (k ≤ c) ⊎ ¬ (Agree c bits ip × (ip_bit ip c ≡ i))

pub owner-none :
    (size c i : ℕ) (bits : List ℕ) (t : Trie) (ip : List ℕ) (k : ℕ)
    → IsShaped size t
    → IsBelow c bits i t
    → Misses c bits i ip k
    → owner t ip k ≡ none
unfolding owner
owner-none size c i bits nil ip k s b m = refl
owner-none size c i bits (node c' bits' q byte shift l r) ip k s b m = ground (
  arith,
  here,
  owner-none size c i bits l ip k s.6 (IsBelow-trans c c' i 0 bits bits' l b.0 b.1 b.2 s.4) m,
  owner-none size c i bits r ip k s.7 (IsBelow-trans c c' i 1 bits bits' r b.0 b.1 b.2 s.5) m,
)
  where
    not_here : c' ≡ k → agrees c' bits' ip ≡ true → ⊥
    not_here e a = elim m [
      | inl le ↦ omega arith
      | inr no_fit ↦
          let ag = agrees→Agree c' bits' ip a in
          no_fit (λ j p. b.1 j p ∙ ag j (omega arith), sym (ag c b.0) ∙ b.2)
    ]

    here : (if c' == k && agrees c' bits' ip then q else none) ≡ none
    here = elim (Bool-cases (agrees c' bits' ip)) [
      | inl a ↦ elim (Bool-cases (c' == k)) [
        | inl e ↦ absurd (not_here (==→eq _ _ e) a)
        | inr ne ↦ rw (ne, ◌&&◌)
      ]
      | inr na ↦ ground arith
    ]

-- In a well-formed trie the search goes down one path.
pub owner_directed :
    (size c : ℕ) (bits : List ℕ) (q : Option ℕ) (byte shift : ℕ) (l r : Trie) (ip : List ℕ) (k : ℕ)
    → IsShaped size (node c bits q byte shift l r)
    → owner (node c bits q byte shift l r) ip k ≡ (
        if agrees c bits ip
        then (if c == k then q else if ip_bit ip c == 0 then owner l ip k else owner r ip k)
        else none)
unfolding owner
owner_directed size c bits q byte shift l r ip k s = elim (Bool-cases (agrees c bits ip)) [
  | inr na ↦ ground (arith, left (inr (off na 0)), right (inr (off na 1)))
  | inl a ↦ elim (Bool-cases (c == k)) [
    | inl e ↦ ground (arith, left (inl (ground arith)), right (inl (ground arith)))
    | inr ne ↦ elim (Bool-cases (ip_bit ip c == 0)) [
      | inl zero_bit ↦ ground (arith, right (inr (λ m. omega (arith, m.1, ==→eq _ _ zero_bit))))
      | inr one_bit ↦ ground (arith, left (inr (λ m. ==-false→ne _ _ one_bit m.1)))
    ]
  ]
]
  where
    left : Misses c bits 0 ip k → owner l ip k ≡ none
    left = owner-none size c 0 bits l ip k s.6 s.4

    right : Misses c bits 1 ip k → owner r ip k ≡ none
    right = owner-none size c 1 bits r ip k s.7 s.5

    off : agrees c bits ip ≡ false → (i : ℕ) → ¬ (Agree c bits ip × (ip_bit ip c ≡ i))
    off na i m = cc (na, Agree→agrees c bits ip m.0)
