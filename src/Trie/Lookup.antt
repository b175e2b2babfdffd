-- ===== src/Trie/Lookup.antt =====
-- Lookup of trie.go finds the owner of the longest network that contains the address.
use wireguard_go.Base.{
  ℕ, zero, suc, ◌*◌, ◌≤◌, ◌≡◌, refl, ap, ◌∙◌, inl, inr, true, false, Option, none, some, List, [],
  ◌∷◌, arith, leb, ◌==◌, if◌then◌else◌, Bool-cases, Option-cases, ==→eq, length,
}
use wireguard_go.Trie.{Trie, nil, node, or_else, lookup_from, lookup, choose, common_bits}
use wireguard_go.Trie.Address.{ip_bit, IsAddress, agrees}
use wireguard_go.Trie.Common.{leb-common_bits}
use wireguard_go.Trie.Shape.{IsShaped, choose-eq-ip_bit}
use wireguard_go.Trie.Owner.{owner, owner-none, owner_directed}

-- The last of f 0, …, f n that is there.
unfoldable pub longest : (ℕ → Option ℕ) → ℕ → Option ℕ
longest f zero = f 0
longest f (suc n) = or_else (f (suc n)) (longest f n)

longest-none : (f : ℕ → Option ℕ) (n : ℕ) → ((k : ℕ) → k ≤ n → f k ≡ none) → longest f n ≡ none
unfolding longest
longest-none f zero h = h 0 (omega arith)
longest-none f (suc n) h = rw (h (suc n) (omega arith), longest-none f n (λ k p. h k (omega arith)))

pub longest-some :
    (f : ℕ → Option ℕ) (n : ℕ) {o : ℕ} → longest f n ≡ some o → (k : ℕ) × (f k ≡ some o)
unfolding longest
longest-some f zero e = (0, e)
longest-some f (suc n) e = elim (Option-cases (f (suc n))) [
  | inr (z, here) ↦ (suc n, ground arith)
  | inl absent ↦ longest-some f n (ground arith)
]

-- A node's own peer stands behind all that is longer.
longest_node :
    (f g : ℕ → Option ℕ) (q : Option ℕ) (c n : ℕ)
    → c ≤ n
    → ((k : ℕ) → f k ≡ (if c == k then q else g k))
    → ((k : ℕ) → k ≤ c → g k ≡ none)
    → longest f n ≡ or_else (longest g n) q
unfolding longest
longest_node f g q c zero le e h = ground (arith, e 0, h 0)
longest_node f g q c (suc n) le e h = elim (Bool-cases (c == suc n)) [
  | inl last ↦ ground (
    arith,
    e (suc n),
    h (suc n) (ground arith),
    longest-none f n (λ k p. ground (arith, e k, h k (ground arith))),
    longest-none g n (λ k p. h k (ground arith)),
  )
  | inr more ↦ ground (arith, e (suc n), longest_node f g q c n (ground arith) e h)
]

pub length-IsAddress : (size : ℕ) (ip : List ℕ) → IsAddress size ip → length ip ≡ size
length-IsAddress zero [] h = refl
length-IsAddress zero (x ∷ ip) h = absurd h
length-IsAddress (suc n) [] h = absurd h
length-IsAddress (suc n) (x ∷ ip) h = ap suc (length-IsAddress n ip h.1)

-- One node of the search, by what the search gives in its two children.
module _ (size c : ℕ) (bits : List ℕ) (q : Option ℕ) (byte shift : ℕ) (l r : Trie) (ip : List ℕ)
    (s : IsShaped size (node c bits q byte shift l r)) where
  abbrev here : ℕ → Option ℕ
  here = owner (node c bits q byte shift l r) ip

  longest_off : agrees c bits ip ≡ false → longest here (size * 8) ≡ none
  longest_off off =
      longest-none here (size * 8)
        (λ k p. owner_directed size c bits q byte shift l r ip k s ∙ ground arith)

  longest_left :
      agrees c bits ip ≡ true
      → (ip_bit ip c == 0) ≡ true
      → longest here (size * 8) ≡ or_else (longest (owner l ip) (size * 8)) q
  longest_left on zero_bit =
      longest_node here (owner l ip) q c (size * 8) s.2
        (λ k. owner_directed size c bits q byte shift l r ip k s ∙ ground arith)
        (λ k p. owner-none size c 0 bits l ip k s.6 s.4 (inl p))

  longest_right :
      agrees c bits ip ≡ true
      → (ip_bit ip c == 0) ≡ false
      → longest here (size * 8) ≡ or_else (longest (owner r ip) (size * 8)) q
  longest_right on one_bit =
      longest_node here (owner r ip) q c (size * 8) s.2
        (λ k. owner_directed size c bits q byte shift l r ip k s ∙ ground arith)
        (λ k p. owner-none size c 1 bits r ip k s.7 s.5 (inl p))

  -- A node of full length has nothing below.
  longest_full : agrees c bits ip ≡ true → c ≡ size * 8 → longest here (size * 8) ≡ q
  longest_full on full = elim (Bool-cases (ip_bit ip c == 0)) [
    | inl zero_bit ↦
        longest_left on zero_bit
        ∙ ground (
          arith,
          longest-none (owner l ip) (size * 8)
              (λ k p. owner-none size c 0 bits l ip k s.6 s.4 (inl (omega arith))),
        )
    | inr one_bit ↦
        longest_right on one_bit
        ∙ ground (
          arith,
          longest-none (owner r ip) (size * 8)
              (λ k p. owner-none size c 1 bits r ip k s.7 s.5 (inl (omega arith))),
        )
  ]

lookup_from-longest :
    (size : ℕ) (t : Trie) (found : Option ℕ) (ip : List ℕ)
    → IsShaped size t
    → IsAddress size ip
    → lookup_from t found ip ≡ or_else (longest (owner t ip) (size * 8)) found
unfolding lookup_from
lookup_from-longest size nil found ip s a =
    rw (longest-none (owner nil ip) (size * 8) (λ k p. unfold owner in refl))
lookup_from-longest size (node c bits q byte shift l r) found ip s a =
    elim (Bool-cases (agrees c bits ip)) [
      | inr off ↦ ground (arith, fits, longest_off size c bits q byte shift l r ip s off)
      | inl on ↦ elim (Bool-cases (byte == length ip)) [
        | inl full ↦ ground (
          arith,
          fits,
          longest_full size c bits q byte shift l r ip s on (whole (==→eq _ _ full)),
        )
        | inr part ↦ elim (Bool-cases (ip_bit ip c == 0)) [
          | inl zero_bit ↦ ground (
            arith,
            fits,
            chosen,
            longest_left size c bits q byte shift l r ip s on zero_bit,
            lookup_from-longest size l (or_else q found) ip s.6 a,
          )
          | inr one_bit ↦ ground (
            arith,
            fits,
            chosen,
            longest_right size c bits q byte shift l r ip s on one_bit,
            lookup_from-longest size r (or_else q found) ip s.7 a,
          )
        ]
      ]
    ]
  where
    fits : leb c (common_bits bits ip) ≡ agrees c bits ip
    fits = leb-common_bits size bits ip c s.3 a s.2

    chosen : choose byte shift ip ≡ ip_bit ip c
    chosen = rw (s.0, s.1) (choose-eq-ip_bit c ip)

    whole : byte ≡ length ip → c ≡ size * 8
    whole e = omega (arith, length-IsAddress size ip a, s.0, s.2)

-- On a well-formed trie Lookup of an address of its size gives the owner of the longest network
-- that contains the address, and nil where no network does.
pub lookup-longest :
    (size : ℕ) (t : Trie) (ip : List ℕ)
    → IsShaped size t
    → IsAddress size ip
    → lookup t ip ≡ longest (owner t ip) (size * 8)
unfolding lookup
lookup-longest size t ip s a = lookup_from-longest size t none ip s a ∙ ground arith
