-- ===== src/Timers/Keys.antt =====
-- Once the key material of a peer is cleared, as expiredZeroKeyMaterial of timers.go and Stop of
-- peer.go do it, the index table leads to none of its key pairs.
use wireguard_go.Base.{ℕ, ◌≡◌, ◌⊎◌, inl, inr, Option, none, some, arith, Bool-cases, ◌==◌, ==→eq}
use wireguard_go.Index.{IndexTable, delete}
use wireguard_go.Keypair.{Heap, Session, delete_keypair}
use wireguard_go.Timers.{expired_zero_key_material}

-- The index leads nowhere. NewIndex never gives out the index 0, which Delete ignores.
abbrev pub IsUnmapped : IndexTable → ℕ → Type 0
IsUnmapped table index = (index ≡ 0) ⊎ (table index ≡ none)

-- The index of the key pair that was in the slot leads nowhere.
abbrev pub SlotIsUnmapped : Heap → IndexTable → Option ℕ → Type 0
SlotIsUnmapped heap table none = Unit {0}
SlotIsUnmapped heap table (some key) = IsUnmapped table (heap key).local_index

delete-IsUnmapped : (table : IndexTable) (index : ℕ) → IsUnmapped (delete table index) index
unfolding delete
delete-IsUnmapped table index = elim (Bool-cases (index == 0)) [
  | inl zero_index ↦ inl (==→eq index 0 zero_index)
  | inr other ↦ inr (ground arith)
]

delete_keeps-IsUnmapped :
    (table : IndexTable) (index key : ℕ)
    → IsUnmapped table key
    → IsUnmapped (delete table index) key
unfolding delete
delete_keeps-IsUnmapped table index key (inl z) = inl z
delete_keeps-IsUnmapped table index key (inr h) = inr (ground arith)

module _ (heap : Heap) (table : IndexTable) where
  delete_keypair-SlotIsUnmapped :
      (k : Option ℕ) → SlotIsUnmapped heap (delete_keypair heap table k) k
  unfolding delete_keypair
  delete_keypair-SlotIsUnmapped none = tt
  delete_keypair-SlotIsUnmapped (some key) = delete-IsUnmapped table (heap key).local_index

  delete_keeps-SlotIsUnmapped :
      (index : ℕ) (k : Option ℕ)
      → SlotIsUnmapped heap table k
      → SlotIsUnmapped heap (delete table index) k
  delete_keeps-SlotIsUnmapped index none h = tt
  delete_keeps-SlotIsUnmapped index (some key) h =
      delete_keeps-IsUnmapped table index (heap key).local_index h

  delete_keypair_keeps-SlotIsUnmapped :
      (k' k : Option ℕ)
      → SlotIsUnmapped heap table k
      → SlotIsUnmapped heap (delete_keypair heap table k') k
  unfolding delete_keypair
  delete_keypair_keeps-SlotIsUnmapped none k h = h
  delete_keypair_keeps-SlotIsUnmapped (some key') k h =
      delete_keeps-SlotIsUnmapped (heap key').local_index k h

-- The index table after the key material is cleared, for the slots and the handshake before.
pub record AreUnmapped (s : Session) (table : IndexTable) : Type 0 where
  pub previous : SlotIsUnmapped s.heap table s.keypairs.previous
  pub current : SlotIsUnmapped s.heap table s.keypairs.current
  pub next : SlotIsUnmapped s.heap table s.keypairs.next
  pub handshake : IsUnmapped table s.handshake.local_index

-- Neither the indices of the key pairs nor that of the handshake lead anywhere afterwards.
pub expired_zero_key_material-AreUnmapped :
    (s : Session) → AreUnmapped s (expired_zero_key_material s).indices
unfolding expired_zero_key_material
expired_zero_key_material-AreUnmapped s =
    let kp = s.keypairs in
    let one = delete_keypair s.heap s.indices kp.previous in
    let two = delete_keypair s.heap one kp.current in
    let three = delete_keypair s.heap two kp.next in
    let last = delete_keeps-SlotIsUnmapped s.heap three s.handshake.local_index in
    let third = delete_keypair_keeps-SlotIsUnmapped s.heap two kp.next in
    record {
      previous = last kp.previous (
          third kp.previous (
            delete_keypair_keeps-SlotIsUnmapped s.heap one kp.current kp.previous
              (delete_keypair-SlotIsUnmapped s.heap s.indices kp.previous)));
      current =
          last kp.current (third kp.current (delete_keypair-SlotIsUnmapped s.heap one kp.current));
      next = last kp.next (delete_keypair-SlotIsUnmapped s.heap two kp.next);
      handshake = delete-IsUnmapped three s.handshake.local_index;
    }
