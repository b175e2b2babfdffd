-- ===== src/Keypair/Indexed.antt =====
-- The slots of Keypairs and the index table: what is in a slot is found by its index, and a key pair
-- that leaves the slots leaves the table.
use wireguard_go.Base.{ℕ, ◌≡◌, ◌≢◌, sym, Option, none, some, arith}
use wireguard_go.Index.{IndexTableEntry, IndexTable, delete}
use wireguard_go.Keypair.{Keypairs, Heap, delete_keypair}

-- The key pair is found by its index.
pub record IsMapped (heap : Heap) (table : IndexTable) (n : ℕ) : Type 0 where
  pub entry : IndexTableEntry
  pub nonzero : (heap n).local_index ≢ 0
  pub found : table (heap n).local_index ≡ some entry
  pub own : entry.key_pair ≡ some n

abbrev pub Holds : Heap → IndexTable → Option ℕ → Type 0
Holds heap table none = Unit
Holds heap table (some n) = IsMapped heap table n

abbrev pub Apart : Option ℕ → Option ℕ → Type 0
Apart none b = Unit
Apart (some a) none = Unit
Apart (some a) (some b) = a ≢ b

-- The key pairs in the slots are different and are all found by their indices.
pub record IsIndexed (heap : Heap) (table : IndexTable) (kp : Keypairs) : Type 0 where
  pub current : Holds heap table kp.current
  pub previous : Holds heap table kp.previous
  pub next : Holds heap table kp.next
  pub current_previous : Apart kp.current kp.previous
  pub current_next : Apart kp.current kp.next
  pub previous_next : Apart kp.previous kp.next

-- No index leads to the key pair.
abbrev pub IsGone : Heap → IndexTable → ℕ → Type 0
IsGone heap table n = table (heap n).local_index ≡ none

pub Apart-sym : (a b : Option ℕ) → Apart a b → Apart b a
Apart-sym none none h = tt
Apart-sym none (some b) h = tt
Apart-sym (some a) none h = tt
Apart-sym (some a) (some b) h = λ e. h (sym e)

module _ (heap : Heap) (table : IndexTable) where
  pub indices_differ :
      (n m : ℕ)
      → IsMapped heap table n
      → IsMapped heap table m
      → n ≢ m
      → (heap n).local_index ≢ (heap m).local_index
  indices_differ n m a b ne e =
      let fa = a.found in
      let fb = b.found in
      let oa = a.own in
      let ob = b.own in
      let same : some a.entry ≡ some b.entry = cc in
      let same' : a.entry ≡ b.entry = cc in let ptr : some n ≡ some m = cc in ne cc

  delete_keypair_keeps_one :
      (n : ℕ) (k : Option ℕ)
      → IsMapped heap table n
      → Holds heap table k
      → Apart k (some n)
      → IsMapped heap (delete_keypair heap table k) n
  unfolding delete_keypair delete
  delete_keypair_keeps_one n none a b apart = a
  delete_keypair_keeps_one n (some m) a b apart =
      let other = indices_differ m n b a apart in
      let here = a.found in
      record { entry = a.entry; nonzero = a.nonzero; found = ground arith; own = a.own }

  pub delete_keypair_keeps :
      (slot k : Option ℕ)
      → Holds heap table slot
      → Holds heap table k
      → Apart k slot
      → Holds heap (delete_keypair heap table k) slot
  delete_keypair_keeps none k a b apart = tt
  delete_keypair_keeps (some n) k a b apart = delete_keypair_keeps_one n k a b apart

  pub delete_keypair-IsGone :
      (n : ℕ) → IsMapped heap table n → IsGone heap (delete_keypair heap table (some n)) n
  unfolding delete_keypair delete
  delete_keypair-IsGone n a = let nz = a.nonzero in ground arith

  pub delete_keypair_stays-IsGone :
      (n : ℕ) (k : Option ℕ) → IsGone heap table n → IsGone heap (delete_keypair heap table k) n
  unfolding delete_keypair delete
  delete_keypair_stays-IsGone n none a = a
  delete_keypair_stays-IsGone n (some m) a = ground arith
