-- ===== src/Keypair/Steps.antt =====
-- The invariant of Rotation for the whole of NewKeypair, and for the receiver's confirmation.
use wireguard_go.Base.{
  ℕ, ◌≡◌, ◌≢◌, ◌⊎◌, refl, ap, subst, inl, inr, Bool, true, false, Option, none, some, List, arith,
  Option-cases, if◌then◌else◌, points_to,
}
use wireguard_go.Index.{IndexTableEntry, IndexTable, insert}
use wireguard_go.Replay
use wireguard_go.Crypto.{Crypto}
use wireguard_go.Keypair.{
  Keypair, Keypairs, Heap, Session, store, delete_keypair, derive_keys, install, new_keypair,
  confirm,
}
use wireguard_go.Keypair.Indexed.{
  IsMapped, Holds, Apart, IsIndexed, IsGone, Apart-sym, delete_keypair_keeps,
}
use wireguard_go.Keypair.Rotation.{IsIn, rotate_slots-IsIndexed, delete_slot-IsGone}

-- A key pair of a slot is still mapped after the new one is stored and mapped.
store_keeps_one :
    (heap : Heap) (table : IndexTable) (n number : ℕ) (keypair : Keypair) (index : ℕ)
    (entry : IndexTableEntry)
    → IsMapped heap table n
    → n ≢ number
    → (entry : IndexTableEntry) × (table index ≡ some entry) × (entry.key_pair ≡ none)
    → IsMapped (store heap number keypair) (insert table index entry) n
unfolding store insert
store_keeps_one heap table n number keypair index entry a ne (old, at, unused) =
    let nz = a.nonzero in
    let found = a.found in
    let own = a.own in
    let apart : (heap n).local_index ≢ index = λ e.
      (let both : some a.entry ≡ some old = cc in
        let both' : a.entry ≡ old = cc in let clash : none ≡ some n = cc in cc) in
    let kept : store heap number keypair n ≡ heap n = ground arith in
    let idx : (store heap number keypair n).local_index ≡ (heap n).local_index =
      ap (λ k. k.local_index) kept in
    record { entry = a.entry; nonzero = ground arith; found = ground arith; own = own }

store_keeps :
    (heap : Heap) (table : IndexTable) (slot : Option ℕ) (number : ℕ) (keypair : Keypair)
    (index : ℕ) (entry : IndexTableEntry)
    → Holds heap table slot
    → Apart slot (some number)
    → (old : IndexTableEntry) × (table index ≡ some old) × (old.key_pair ≡ none)
    → Holds (store heap number keypair) (insert table index entry) slot
store_keeps heap table none number keypair index entry a ne old = tt
store_keeps heap table (some n) number keypair index entry a ne old =
    store_keeps_one heap table n number keypair index entry a ne old

-- The index of the handshake leads to the handshake.
abbrev pub IsPending : Session → Type 0
IsPending s =
    (s.handshake.local_index ≢ 0)
    × (old : IndexTableEntry) × (s.indices s.handshake.local_index ≡ some old)
    × (old.key_pair ≡ none)

-- No slot has the key pair.
abbrev pub IsUnused : ℕ → Keypairs → Type 0
IsUnused number kp =
    Apart kp.current (some number) × Apart kp.previous (some number) × Apart kp.next (some number)

stored :
    (heap : Heap) (table : IndexTable) (kp : Keypairs) (number : ℕ) (keypair : Keypair)
    (entry : IndexTableEntry)
    → IsIndexed heap table kp
    → IsUnused number kp
    → (old : IndexTableEntry) × (table keypair.local_index ≡ some old) × (old.key_pair ≡ none)
    → IsIndexed (store heap number keypair) (insert table keypair.local_index entry) kp
stored heap table kp number keypair entry ok (uc, up, un) old = record {
  current =
      store_keeps heap table kp.current number keypair keypair.local_index entry ok.current uc old;
  previous =
      store_keeps heap table kp.previous number keypair keypair.local_index entry ok.previous up
        old;
  next = store_keeps heap table kp.next number keypair keypair.local_index entry ok.next un old;
  current_previous = ok.current_previous;
  current_next = ok.current_next;
  previous_next = ok.previous_next;
}

new_one :
    (heap : Heap) (table : IndexTable) (number : ℕ) (keypair : Keypair) (entry : IndexTableEntry)
    → keypair.local_index ≢ 0
    → entry.key_pair ≡ some number
    → IsMapped (store heap number keypair) (insert table keypair.local_index entry) number
unfolding store insert
new_one heap table number keypair entry nz own =
    let is_stored : store heap number keypair number ≡ keypair = ground arith in
    let idx : (store heap number keypair number).local_index ≡ keypair.local_index =
      ap (λ k. k.local_index) is_stored in
    record { entry = entry; nonzero = ground arith; found = ground arith; own = own }

-- The key pair and the table entry that NewKeypair stores.
abbrev stored_keypair : ℕ → Session → List ℕ × List ℕ × Bool → Keypair
stored_keypair clock s (send, receive, is_initiator) = record {
  send_nonce = 0;
  send = send;
  receive = receive;
  replay_filter = Replay.init Replay.zero_filter;
  is_initiator = is_initiator;
  created = clock;
  local_index = s.handshake.local_index;
  remote_index = s.handshake.remote_index;
}

abbrev stored_entry : ℕ → ℕ → IndexTableEntry
stored_entry peer number = record { peer = some peer; handshake = none; key_pair = some number }

module _ (peer clock number : ℕ) (s : Session) (send receive : List ℕ) (initiator : Bool) where
  abbrev stored_heap : Heap
  stored_heap = store s.heap number (stored_keypair clock s (send, receive, initiator))

  abbrev stored_table : IndexTable
  stored_table = insert s.indices s.handshake.local_index (stored_entry peer number)

  stored_session :
      IsIndexed s.heap s.indices s.keypairs
      → IsPending s
      → IsUnused number s.keypairs
      → IsIndexed stored_heap stored_table s.keypairs
  stored_session ok (nz, old, at, none_yet) unused =
      stored s.heap s.indices s.keypairs number (stored_keypair clock s (send, receive, initiator))
        (stored_entry peer number) ok unused (old, at, none_yet)

  install-IsIndexed :
      IsIndexed s.heap s.indices s.keypairs
      → IsPending s
      → IsUnused number s.keypairs
      → IsIndexed
          (install peer clock number s (send, receive, initiator)).heap
          (install peer clock number s (send, receive, initiator)).indices
          (install peer clock number s (send, receive, initiator)).keypairs
  unfolding install
  install-IsIndexed ok (nz, old, at, none_yet) (uc, up, un) =
      rotate_slots-IsIndexed stored_heap stored_table s.keypairs.current s.keypairs.previous
        s.keypairs.next number initiator (stored_session ok (nz, old, at, none_yet) (uc, up, un))
        (new_one s.heap s.indices number (stored_keypair clock s (send, receive, initiator))
          (stored_entry peer number) nz refl)
        uc up un

-- How NewKeypair makes a key pair.
installed :
    (c : Crypto) (peer clock number : ℕ) (s s' : Session)
    → new_keypair c peer clock number s ≡ some s'
    → (keys : List ℕ × List ℕ × Bool) × (install peer clock number s keys ≡ s')
unfolding new_keypair
installed c peer clock number s s' e = elim (Option-cases (derive_keys c s.handshake)) [
  | inl no_keys ↦ absurd (ground arith)
  | inr (keys, derived) ↦ (keys, ground arith)
]

-- NewKeypair keeps the key pairs of a peer different and found by their indices, when the index of
-- the handshake leads to the handshake and the new key pair's address is in no slot.
pub new_keypair-IsIndexed :
    (c : Crypto) (peer clock number : ℕ) (s s' : Session)
    → IsIndexed s.heap s.indices s.keypairs
    → IsPending s
    → IsUnused number s.keypairs
    → new_keypair c peer clock number s ≡ some s'
    → IsIndexed s'.heap s'.indices s'.keypairs
new_keypair-IsIndexed c peer clock number s s' ok pending unused e =
    let (keys, is_installed) = installed c peer clock number s s' e in
    subst (λ t. IsIndexed t.heap t.indices t.keypairs) is_installed
      (install-IsIndexed peer clock number s keys.0 keys.1 keys.2 ok pending unused)

-- What a step owes: the slots in step with the table, and no index of what it dropped.
abbrev IsKept : Session → Session → Type 0
IsKept s s' =
    IsIndexed s'.heap s'.indices s'.keypairs
    × ((m : ℕ) → IsIn m s.keypairs → IsIn m s'.keypairs ⊎ IsGone s'.heap s'.indices m)

-- The next key pair becomes the current one.
abbrev promoted : Session → Session
promoted s = record s {
  keypairs = record { current = s.keypairs.next; previous = s.keypairs.current; next = none };
  indices = delete_keypair s.heap s.indices s.keypairs.previous;
}

promoted-IsKept : (s : Session) → IsIndexed s.heap s.indices s.keypairs → IsKept s (promoted s)
promoted-IsKept s ok = (
  record {
    current =
        delete_keypair_keeps s.heap s.indices s.keypairs.next s.keypairs.previous ok.next
          ok.previous ok.previous_next;
    previous =
        delete_keypair_keeps s.heap s.indices s.keypairs.current s.keypairs.previous ok.current
          ok.previous (Apart-sym _ _ ok.current_previous);
    next = tt;
    current_previous = Apart-sym _ _ ok.current_next;
    current_next = Apart-sym none s.keypairs.next tt;
    previous_next = Apart-sym none s.keypairs.current tt;
  },
  gone,
)
  where
    gone :
        (m : ℕ)
        → IsIn m s.keypairs
        → IsIn m (promoted s).keypairs ⊎ IsGone (promoted s).heap (promoted s).indices m
    gone m (inl e) = inl (inr (inl e))
    gone m (inr (inl e)) =
        inr (delete_slot-IsGone s.heap s.indices s.keypairs.previous m ok.previous e)
    gone m (inr (inr e)) = inl (inl e)

IsKept-either :
    (b : Bool) (s : Session)
    → IsIndexed s.heap s.indices s.keypairs
    → IsKept s (if b then promoted s else s)
IsKept-either true s ok = promoted-IsKept s ok
IsKept-either false s ok = (ok, λ m h. inl h)

-- If the key pairs of a peer are different and found by their indices, an authentic packet under
-- any key pair keeps them so.
pub confirm-IsIndexed :
    (number : ℕ) (s : Session)
    → IsIndexed s.heap s.indices s.keypairs
    → IsIndexed (confirm number s).heap (confirm number s).indices (confirm number s).keypairs
unfolding confirm
confirm-IsIndexed number s ok = (IsKept-either (points_to s.keypairs.next number) s ok).0

-- A key pair that a peer has before an authentic packet under any key pair is in a slot after it,
-- or no index leads to it any more, if the peer's key pairs are different and found by their
-- indices.
pub confirm_forgets :
    (number m : ℕ) (s : Session)
    → IsIndexed s.heap s.indices s.keypairs
    → IsIn m s.keypairs
    → IsIn m (confirm number s).keypairs
      ⊎ IsGone (confirm number s).heap (confirm number s).indices m
unfolding confirm
confirm_forgets number m s ok h = (IsKept-either (points_to s.keypairs.next number) s ok).1 m h
