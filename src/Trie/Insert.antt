-- ===== src/Trie/Insert.antt =====
-- Insert of trie.go: the trie stays well-formed, and exactly the new network changes its owner.
use wireguard_go.Base.{
  ℕ, ◌*◌, ◌≤◌, ◌<◌, ◌≡◌, refl, sym, ap, ◌∙◌, inl, inr, Bool, true, false, ◌&&◌, Option, none, some,
  List, arith, leb, ◌==◌, if◌then◌else◌, Bool-cases, ==→eq,
}
use wireguard_go.Trie.{Trie, nil, node, or_else, insert, choose, common_bits}
use wireguard_go.Trie.Address.{ip_bit, IsAddress, Agree, agrees, agrees→Agree}
use wireguard_go.Trie.Common.{leb-common_bits}
use wireguard_go.Trie.Shape.{IsBelow, IsShaped, ip_bit-lt-two, choose-eq-ip_bit}
use wireguard_go.Trie.Owner.{owner, owner-none}
use wireguard_go.Trie.Split.{agrees_congr, outcome, split-IsShaped, split-owner, split-IsBelow}

-- What Insert must do at one trie: keep its shape and its place, and change one owner.
record Inserted (size : ℕ) (t u : Trie) (ip : List ℕ) (c p : ℕ) : Type 0 where
  shaped : IsShaped size u
  placed :
      (c0 i : ℕ) (bits0 : List ℕ)
      → IsBelow c0 bits0 i t
      → c0 < c
      → Agree c0 bits0 ip
      → ip_bit ip c0 ≡ i
      → IsBelow c0 bits0 i u
  owners :
      (x : List ℕ) (k : ℕ) → owner u x k ≡ (if c == k && agrees c ip x then some p else owner t x k)

-- The owner in a node whose left or right child has a new network.
graft_left :
    (p : ℕ) (b : Bool) (own left right : Option ℕ)
    → (b ≡ true → own ≡ none)
    → or_else own (or_else (if b then some p else left) right)
      ≡ (if b then some p else or_else own (or_else left right))
graft_left p true own left right h = rw (h refl)
graft_left p false own left right h = refl

graft_right :
    (p : ℕ) (b : Bool) (own left right : Option ℕ)
    → (b ≡ true → own ≡ none)
    → (b ≡ true → left ≡ none)
    → or_else own (or_else left (if b then some p else right))
      ≡ (if b then some p else or_else own (or_else left right))
graft_right p true own left right h h' = rw (h refl, h' refl)
graft_right p false own left right h h' = refl

module _ (size cN : ℕ) (bits : List ℕ) (q : Option ℕ) (byte shift : ℕ) (l r : Trie) (ip : List ℕ)
    (c p : ℕ) (s : IsShaped size (node cN bits q byte shift l r)) (a : IsAddress size ip)
    (hc : c ≤ size * 8) where
  replaced :
      cN ≡ c
      → Agree cN bits ip
      → Inserted size (node cN bits q byte shift l r) (node cN bits (some p) byte shift l r) ip c p
  replaced e ag = record {
    shaped = s;
    placed = λ c0 i bits0 b lt ag h. b;
    owners = λ x k.
        unfold owner in ground (arith, agrees_congr cN bits ip x ag, ap (λ n. agrees n ip x) e);
  }

  abbrev own : List ℕ → ℕ → Option ℕ
  own x k = if cN == k && agrees cN bits x then q else none

  not_own : (x : List ℕ) (k : ℕ) → cN < c → (c == k && agrees c ip x) ≡ true → own x k ≡ none
  not_own x k lt h = ground arith

  not_left :
      (x : List ℕ) (k : ℕ)
      → cN < c
      → Agree cN bits ip
      → ip_bit ip cN ≡ 1
      → (c == k && agrees c ip x) ≡ true
      → owner l x k ≡ none
  not_left x k lt ag z h =
      owner-none size cN 0 bits l x k s.6 s.4
        (inr (λ m. omega (arith, m.1, z, agrees→Agree c ip x (ground arith) cN lt)))

  in_left :
      (l' : Trie)
      → Inserted size l l' ip c p
      → cN < c
      → Agree cN bits ip
      → ip_bit ip cN ≡ 0
      → Inserted size (node cN bits q byte shift l r) (node cN bits q byte shift l' r) ip c p
  in_left l' step lt ag z = record {
    shaped = (s.0, s.1, s.2, s.3, step.placed cN 0 bits s.4 lt ag z, s.5, step.shaped, s.7);
    placed = λ c0 i bits0 b lt ag h. b;
    owners = λ x k.
        unfold owner in
        rw (step.owners x k) (
          graft_left p (c == k && agrees c ip x) (own x k) (owner l x k) (owner r x k)
            (not_own x k lt));
  }

  in_right :
      (r' : Trie)
      → Inserted size r r' ip c p
      → cN < c
      → Agree cN bits ip
      → ip_bit ip cN ≡ 1
      → Inserted size (node cN bits q byte shift l r) (node cN bits q byte shift l r') ip c p
  in_right r' step lt ag z = record {
    shaped = (s.0, s.1, s.2, s.3, s.4, step.placed cN 1 bits s.5 lt ag z, s.6, step.shaped);
    placed = λ c0 i bits0 b lt ag h. b;
    owners = λ x k.
        unfold owner in
        rw (step.owners x k) (
          graft_right p (c == k && agrees c ip x) (own x k) (owner l x k) (owner r x k)
            (not_own x k lt) (not_left x k lt ag z));
  }

insert-Inserted :
    (size : ℕ) (t : Trie) (ip : List ℕ) (c p : ℕ)
    → IsShaped size t
    → IsAddress size ip
    → c ≤ size * 8
    → Inserted size t (insert t ip c p) ip c p
unfolding insert
insert-Inserted size nil ip c p s a hc = record {
  shaped = (refl, refl, hc, a, tt, tt, tt, tt);
  placed = λ c0 i bits0 b lt ag h. (lt, ag, h);
  owners = λ x k. unfold owner in ground arith;
}
insert-Inserted size (node cN bits q byte shift l r) ip c p s a hc =
    elim (Bool-cases (leb cN c && leb cN (common_bits bits ip))) [
      | inr out ↦ rw out (
          let o = outcome size cN bits q byte shift l r ip c p s a hc out in
          record {
            shaped = split-IsShaped size cN bits q byte shift l r ip c p s a hc out _ o;
            placed = λ c0 i bits0.
                split-IsBelow size cN bits q byte shift l r ip c p s a hc out _ c0 i bits0 o;
            owners = λ x k. split-owner size cN bits q byte shift l r ip c p s a hc out _ x k o;
          })
      | inl fits ↦ rw fits (elim (Bool-cases (cN == c)) [
        | inl same ↦
            rw same
              (replaced size cN bits q byte shift l r ip c p s a hc (==→eq _ _ same) (ag fits))
        | inr ne ↦
            rw (ne, chosen)
              (elim (Bool-cases (ip_bit ip cN == 0)) [
                | inl z ↦ rw z (
                    in_left size cN bits q byte shift l r ip c p s a hc _
                      (insert-Inserted size l ip c p s.6 a hc) (ground arith) (ag fits)
                      (==→eq _ _ z))
                | inr o ↦ rw o (
                    in_right size cN bits q byte shift l r ip c p s a hc _
                      (insert-Inserted size r ip c p s.7 a hc) (ground arith) (ag fits)
                      (ground (arith, ip_bit-lt-two ip cN)))
              ])
      ])
    ]
  where
    chosen : choose byte shift ip ≡ ip_bit ip cN
    chosen = rw (s.0, s.1) (choose-eq-ip_bit cN ip)

    ag : (leb cN c && leb cN (common_bits bits ip)) ≡ true → Agree cN bits ip
    ag fits =
        agrees→Agree cN bits ip (sym (leb-common_bits size bits ip cN s.3 a s.2) ∙ ground arith)

-- After Insert of the network of the first `c` bits of an address with the peer p a well-formed
-- trie is still well-formed, where the address has the trie's size and c is at most its number of
-- bits.
pub insert-IsShaped :
    (size : ℕ) (t : Trie) (ip : List ℕ) (c p : ℕ)
    → IsShaped size t
    → IsAddress size ip
    → c ≤ size * 8
    → IsShaped size (insert t ip c p)
insert-IsShaped size t ip c p s a hc = (insert-Inserted size t ip c p s a hc).shaped

-- After Insert of the network of the first `c` bits of an address with the peer p into a well-
-- formed trie, p owns that network, and every other network has the owner it had. The address has
-- the trie's size, and c is at most its number of bits.
pub owner-insert :
    (size : ℕ) (t : Trie) (ip : List ℕ) (c p : ℕ) (x : List ℕ) (k : ℕ)
    → IsShaped size t
    → IsAddress size ip
    → c ≤ size * 8
    → owner (insert t ip c p) x k ≡ (if c == k && agrees c ip x then some p else owner t x k)
owner-insert size t ip c p x k s a hc = (insert-Inserted size t ip c p s a hc).owners x k
