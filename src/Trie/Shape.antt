-- ===== src/Trie/Shape.antt =====
-- Well-formed tries of trie.go: each node's fields fit its prefix, and the networks below a node
-- refine its own and lie on the side of their next bit.
use wireguard_go.Base.{ℕ, ◌-◌, ◌*◌, ◌/◌, ◌%◌, ◌≤◌, ◌<◌, ◌≡◌, sym, ◌∙◌, List, arith, get_or}
use wireguard_go.Base.Bits.{bit-eq-shift, bit-lt-two}
use wireguard_go.Trie.{Trie, nil, node, choose}
use wireguard_go.Trie.Address.{ip_bit, IsAddress, Agree}

-- Every network of the trie has more than c bits, the first c bits of `bits`, and the next bit i:
-- of the root, and so, in a well-formed trie, of all.
abbrev pub IsBelow : ℕ → List ℕ → ℕ → Trie → Type 0
IsBelow c bits i nil = Unit {0}
IsBelow c bits i (node c' bits' q byte shift l r) =
    (c < c') × Agree c bits bits' × (ip_bit bits' c ≡ i)

abbrev pub IsShaped : ℕ → Trie → Type 0
IsShaped size nil = Unit {0}
IsShaped size (node c bits q byte shift l r) =
    (byte ≡ c / 8)
    × (shift ≡ 7 - c % 8)
    × (c ≤ size * 8)
    × IsAddress size bits
    × IsBelow c bits 0 l
    × IsBelow c bits 1 r
    × IsShaped size l
    × IsShaped size r

-- `choose` reads the bit after the node's prefix.
pub choose-eq-ip_bit : (c : ℕ) (ip : List ℕ) → choose (c / 8) (7 - c % 8) ip ≡ ip_bit ip c
unfolding choose ip_bit
choose-eq-ip_bit c ip = sym (bit-eq-shift (get_or ip (c / 8) 0) (7 - c % 8))

pub ip_bit-lt-two : (ip : List ℕ) (c : ℕ) → ip_bit ip c < 2
unfolding ip_bit
ip_bit-lt-two ip c = bit-lt-two _ _

pub IsBelow-trans :
    (c c' i i' : ℕ) (bits bits' : List ℕ) (t : Trie)
    → c < c'
    → Agree c bits bits'
    → ip_bit bits' c ≡ i
    → IsBelow c' bits' i' t
    → IsBelow c bits i t
IsBelow-trans c c' i i' bits bits' nil lt ag e b = tt
IsBelow-trans c c' i i' bits bits' (node c'' bits'' q byte shift l r) lt ag e (lt', ag', e') =
    (omega arith, λ j p. ag j p ∙ ag' j (omega arith), sym (ag' c lt) ∙ e)
