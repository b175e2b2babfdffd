-- ===== src/Trie.antt =====
-- trie.go: the binary trie of allowed IPs. An address is the list of its bytes, a peer pointer the
-- number of the peer that it points to, and a nil child the trie `nil`. `nil` as an address's byte
-- out of range is 0; the well-formedness of Trie/Shape shows that no such byte is read.
pub mod Address
pub mod Common
pub mod Shape
pub mod Owner
pub mod Lookup
pub mod Split
pub mod Insert
pub mod Remove
pub mod Networks
use wireguard_go.Base.{
  ℕ, suc, ◌+◌, ◌-◌, ◌*◌, ◌/◌, ◌%◌, ◌^◌, bit_xor, Bool, ◌&&◌, Option, none, some, List, [], ◌∷◌,
  ◌++◌, leb, ◌==◌, if◌then◌else◌, get_or, length, points_to,
}
use wireguard_go.Misc.{min_uint}

pub data Trie : Type 0 where
  nil : Trie
  -- cidr, bits, peer, bit_at_byte, bit_at_shift, child[0], child[1]
  node : ℕ → List ℕ → Option ℕ → ℕ → ℕ → Trie → Trie → Trie

-- The ladder of `v >>= 1; if v == 0` on a byte that is not 0: how many leading bits are 0.
unfoldable pub leading : ℕ → ℕ
leading v =
    let v = v / 2 in
    if v == 0
    then 7
    else let v = v / 2 in
      if v == 0
      then 6
      else let v = v / 2 in
        if v == 0
        then 5
        else let v = v / 2 in
          if v == 0
          then 4
          else let v = v / 2 in
            if v == 0
            then 3
            else let v = v / 2 in if v == 0 then 2 else let v = v / 2 in if v == 0 then 1 else 0

-- The loop of `commonBits` from the byte `i` on. (Go panics where the second address is shorter:
-- the source assumes equal lengths.)
unfoldable pub common_bits_from : ℕ → List ℕ → List ℕ → ℕ
unfolding leading
common_bits_from i [] ip2 = i * 8
common_bits_from i (a ∷ ip1) [] = i * 8
common_bits_from i (a ∷ ip1) (b ∷ ip2) =
    let v = bit_xor a b in
    let rest = common_bits_from (i + 1) ip1 ip2 in if v == 0 then rest else i * 8 + leading v

unfoldable pub common_bits : List ℕ → List ℕ → ℕ
unfolding common_bits_from
common_bits ip1 ip2 = common_bits_from 0 ip1 ip2

unfoldable pub choose : ℕ → ℕ → List ℕ → ℕ
choose bit_at_byte bit_at_shift ip = get_or ip bit_at_byte 0 / 2 ^ bit_at_shift % 2

-- `&Trie{bits: ip, peer: peer, cidr: cidr, …}`, with its children.
abbrev pub new_node : List ℕ → ℕ → Option ℕ → Trie → Trie → Trie
new_node ip cidr peer left right = node cidr ip peer (cidr / 8) (7 - cidr % 8) left right

-- "split node": `old` does not contain the new network.
unfoldable pub split_node : Trie → List ℕ → ℕ → List ℕ → ℕ → ℕ → Trie
split_node old old_bits common ip cidr peer =
    let cidr' = min_uint cidr common in
    if cidr == cidr'
    then (if choose (cidr / 8) (7 - cidr % 8) old_bits == 0
        then new_node ip cidr (some peer) old nil
        else new_node ip cidr (some peer) nil old)
    else (if choose (cidr' / 8) (7 - cidr' % 8) ip == 0
        then new_node ip cidr' none (new_node ip cidr (some peer) nil nil) old
        else new_node ip cidr' none old (new_node ip cidr (some peer) nil nil))

unfoldable pub insert : Trie → List ℕ → ℕ → ℕ → Trie
insert nil ip cidr peer = new_node ip cidr (some peer) nil nil
insert (node c bits q byte shift left right) ip cidr peer =
    let left' = node c bits q byte shift (insert left ip cidr peer) right in
    let right' = node c bits q byte shift left (insert right ip cidr peer) in
    if leb c cidr && leb c (common_bits bits ip)
    then (if c == cidr
        then node c bits (some peer) byte shift left right
        else if choose byte shift ip == 0
        then left'
        else right')
    else split_node (node c bits q byte shift left right) bits (common_bits bits ip) ip cidr peer

-- "remove peer & merge": `child[1]` if `child[0]` is nil, and else `child[0]`.
abbrev pub merge : Trie → Trie → Trie
merge nil right = right
merge (node c bits q byte shift l r) right = node c bits q byte shift l r

unfoldable pub remove_peer : Trie → ℕ → Trie
remove_peer nil p = nil
remove_peer (node c bits q byte shift left right) p =
    let left' = remove_peer left p in
    let right' = remove_peer right p in
    if points_to q p then merge left' right' else node c bits q byte shift left' right'

abbrev pub or_else : Option ℕ → Option ℕ → Option ℕ
or_else none y = y
or_else (some p) y = some p

-- The loop of `Lookup`, with the peer found so far.
unfoldable pub lookup_from : Trie → Option ℕ → List ℕ → Option ℕ
lookup_from nil found ip = found
lookup_from (node c bits q byte shift left right) found ip =
    let found' = or_else q found in
    let in_left = lookup_from left found' ip in
    let in_right = lookup_from right found' ip in
    if leb c (common_bits bits ip)
    then (if byte == length ip
        then found'
        else if choose byte shift ip == 0
        then in_left
        else in_right)
    else found

unfoldable pub lookup : Trie → List ℕ → Option ℕ
unfolding lookup_from
lookup t ip = lookup_from t none ip

unfoldable pub count : Trie → ℕ
count nil = 0
count (node c bits q byte shift left right) = count left + count right

-- The networks of a peer, as the address and the length of its mask.
unfoldable pub allowed_ips : Trie → ℕ → List (List ℕ × ℕ) → List (List ℕ × ℕ)
allowed_ips nil p results = results
allowed_ips (node c bits q byte shift left right) p results =
    let results' = if points_to q p then results ++ (bits, c) ∷ [] else results in
    allowed_ips right p (allowed_ips left p results')
