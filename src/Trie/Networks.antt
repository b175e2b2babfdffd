-- ===== src/Trie/Networks.antt =====
-- AllowedIPs of trie.go lists the networks of a peer, and Count.
use wireguard_go.Base.{
  ℕ, ◌≡◌, refl, ap, ◌∙◌, ◌≢◌, inl, inr, Bool, true, false, ◌&&◌, ◌||◌, none, List, [], ◌∷◌, ◌++◌,
  arith, ◌==◌, if◌then◌else◌, Bool-cases, points_to,
}
use wireguard_go.Trie.{Trie, nil, node, allowed_ips, count}
use wireguard_go.Trie.Address.{ip_bit, agrees}
use wireguard_go.Trie.Shape.{IsShaped}
use wireguard_go.Trie.Owner.{owner, owner-none}

-- Whether the list has the network of the first k bits of x.
abbrev pub lists : List (List ℕ × ℕ) → List ℕ → ℕ → Bool
lists [] x k = false
lists ((bits, c) ∷ es) x k = (c == k && agrees c bits x) || lists es x k

lists-append :
    (es fs : List (List ℕ × ℕ)) (x : List ℕ) (k : ℕ)
    → lists (es ++ fs) x k ≡ (lists es x k || lists fs x k)
lists-append [] fs x k = refl
lists-append ((bits, c) ∷ es) fs x k = ground (arith, lists-append es fs x k)

pub lists-allowed_ips_from :
    (size : ℕ) (t : Trie) (p : ℕ) (es : List (List ℕ × ℕ)) (x : List ℕ) (k : ℕ)
    → IsShaped size t
    → lists (allowed_ips t p es) x k ≡ (lists es x k || points_to (owner t x k) p)
unfolding allowed_ips
lists-allowed_ips_from size nil p es x k s = unfold owner in ground arith
lists-allowed_ips_from size (node c bits q byte shift l r) p es x k s =
    lists-allowed_ips_from size r p _ x k s.7
    ∙ ap (λ b. b || points_to (owner r x k) p) (lists-allowed_ips_from size l p _ x k s.6)
    ∙ here
  where
    off_left : ip_bit x c ≢ 0 → owner l x k ≡ none
    off_left ne = owner-none size c 0 bits l x k s.6 s.4 (inr (λ m. ne m.1))

    off_right : ip_bit x c ≢ 1 → owner r x k ≡ none
    off_right ne = owner-none size c 1 bits r x k s.7 s.5 (inr (λ m. ne m.1))

    own : ((c == k) ≡ true) → (owner l x k ≡ none) × (owner r x k ≡ none)
    own e = (
      owner-none size c 0 bits l x k s.6 s.4 (inl (ground arith)),
      owner-none size c 1 bits r x k s.7 s.5 (inl (ground arith)),
    )

    here :
        (lists (if points_to q p then es ++ (bits, c) ∷ [] else es) x k
          || points_to (owner l x k) p
          || points_to (owner r x k) p)
        ≡ (lists es x k || points_to (owner (node c bits q byte shift l r) x k) p)
    here = elim (Bool-cases (c == k)) [
      | inl e ↦
          unfold owner in ground (arith, lists-append es ((bits, c) ∷ []) x k, (own e).0, (own e).1)
      | inr ne ↦ elim (Bool-cases (ip_bit x c == 0)) [
        | inl z ↦
            unfold owner in
            ground (arith, lists-append es ((bits, c) ∷ []) x k, off_right (ground arith))
        | inr o ↦
            unfold owner in
            ground (arith, lists-append es ((bits, c) ∷ []) x k, off_left (ground arith))
      ]
    ]

-- On a well-formed trie AllowedIPs lists a network exactly when the peer owns it.
pub lists-allowed_ips :
    (size : ℕ) (t : Trie) (p : ℕ) (x : List ℕ) (k : ℕ)
    → IsShaped size t
    → lists (allowed_ips t p []) x k ≡ points_to (owner t x k) p
lists-allowed_ips size t p x k s = lists-allowed_ips_from size t p [] x k s

-- Count gives 0 for every trie: no branch of it ever counts a node.
pub count_zero : (t : Trie) → count t ≡ 0
unfolding count
count_zero nil = refl
count_zero (node c bits q byte shift l r) = omega (arith, count_zero l, count_zero r)
