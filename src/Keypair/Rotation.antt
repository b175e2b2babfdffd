-- ===== src/Keypair/Rotation.antt =====
-- NewKeypair and the confirmation of the next key pair keep the slots and the index table in step.
use wireguard_go.Base.{ℕ, ◌≡◌, ◌⊎◌, subst, inl, inr, Bool, true, false, Option, none, some}
use wireguard_go.Index.{IndexTable}
use wireguard_go.Keypair.{
  Keypairs, Heap, delete_keypair, rotate_initiator, rotate_responder, rotate,
}
use wireguard_go.Keypair.Indexed.{
  IsMapped, Holds, Apart, IsIndexed, IsGone, Apart-sym, delete_keypair_keeps, delete_keypair-IsGone,
  delete_keypair_stays-IsGone,
}

-- The key pair is in a slot.
abbrev pub IsIn : ℕ → Keypairs → Type 0
IsIn n kp = (kp.current ≡ some n) ⊎ ((kp.previous ≡ some n) ⊎ (kp.next ≡ some n))

module _ (heap : Heap) where
  -- Two deletions, one after the other.
  delete_two_keeps :
      (table : IndexTable) (slot k k' : Option ℕ)
      → Holds heap table slot
      → Holds heap table k
      → Holds heap table k'
      → Apart k slot
      → Apart k' slot
      → Apart k k'
      → Holds heap (delete_keypair heap (delete_keypair heap table k) k') slot
  delete_two_keeps table slot k k' hs hk hk' a a' b =
      delete_keypair_keeps heap (delete_keypair heap table k) slot k'
        (delete_keypair_keeps heap table slot k hs hk a)
        (delete_keypair_keeps heap table k' k hk' hk b) a'

  pub rotate_slots-IsIndexed :
      (table : IndexTable) (c p n : Option ℕ) (number : ℕ) (initiator : Bool)
      → IsIndexed heap table (record { current = c; previous = p; next = n })
      → IsMapped heap table number
      → Apart c (some number)
      → Apart p (some number)
      → Apart n (some number)
      → IsIndexed heap
          (rotate initiator heap (record { current = c; previous = p; next = n }) table number).1
          (rotate initiator heap (record { current = c; previous = p; next = n }) table number).0
  unfolding rotate rotate_initiator rotate_responder
  rotate_slots-IsIndexed table c p none number true ok new ac ap' an = record {
    current = delete_keypair_keeps heap table (some number) p new ok.previous ap';
    previous =
        delete_keypair_keeps heap table c p ok.current ok.previous
          (Apart-sym _ _ ok.current_previous);
    next = tt;
    current_previous = Apart-sym _ _ ac;
    current_next = tt;
    previous_next = Apart-sym none c tt;
  }
  rotate_slots-IsIndexed table c p (some n) number true ok new ac ap' an = record {
    current =
        delete_two_keeps table (some number) c p new ok.current ok.previous ac ap'
          ok.current_previous;
    previous =
        delete_two_keeps table (some n) c p ok.next ok.current ok.previous ok.current_next
          ok.previous_next ok.current_previous;
    next = tt;
    current_previous = Apart-sym (some n) (some number) an;
    current_next = tt;
    previous_next = tt;
  }
  rotate_slots-IsIndexed table c p n number false ok new ac ap' an = record {
    current =
        delete_two_keeps table c n p ok.current ok.next ok.previous (Apart-sym _ _ ok.current_next)
          (Apart-sym _ _ ok.current_previous) (Apart-sym _ _ ok.previous_next);
    previous = tt;
    next =
        delete_two_keeps table (some number) n p new ok.next ok.previous an ap'
          (Apart-sym _ _ ok.previous_next);
    current_previous = Apart-sym none c tt;
    current_next = ac;
    previous_next = tt;
  }

  pub delete_slot-IsGone :
      (table : IndexTable) (k : Option ℕ) (m : ℕ)
      → Holds heap table k
      → k ≡ some m
      → IsGone heap (delete_keypair heap table k) m
  delete_slot-IsGone table none m h e = absurd cc
  delete_slot-IsGone table (some x) m h e =
      let x_is : x ≡ m = cc in
      subst (λ y. IsGone heap (delete_keypair heap table (some x)) y) x_is
        (delete_keypair-IsGone heap table x h)

  delete_second-IsGone :
      (table : IndexTable) (k k' : Option ℕ) (m : ℕ)
      → Holds heap table k
      → Holds heap table k'
      → Apart k k'
      → k' ≡ some m
      → IsGone heap (delete_keypair heap (delete_keypair heap table k) k') m
  delete_second-IsGone table k k' m h h' a e =
      delete_slot-IsGone (delete_keypair heap table k) k' m
        (delete_keypair_keeps heap table k' k h' h a) e

  -- A key pair of a slot stays in a slot or leaves the table.
  pub rotate-IsGone :
      (table : IndexTable) (c p n : Option ℕ) (number m : ℕ) (initiator : Bool)
      → IsIndexed heap table (record { current = c; previous = p; next = n })
      → IsIn m (record { current = c; previous = p; next = n })
      → IsIn m
          (rotate initiator heap (record { current = c; previous = p; next = n }) table number).0
        ⊎ IsGone heap
            (rotate initiator heap (record { current = c; previous = p; next = n }) table number).1
            m
  unfolding rotate rotate_initiator rotate_responder
  rotate-IsGone table c p none number m true ok (inl e) = inl (inr (inl e))
  rotate-IsGone table c p none number m true ok (inr (inl e)) =
      inr (delete_slot-IsGone table p m ok.previous e)
  rotate-IsGone table c p none number m true ok (inr (inr e)) = absurd cc
  rotate-IsGone table c p (some n) number m true ok (inl e) = inr (
      delete_keypair_stays-IsGone heap (delete_keypair heap table c) m p
        (delete_slot-IsGone table c m ok.current e))
  rotate-IsGone table c p (some n) number m true ok (inr (inl e)) =
      inr (delete_second-IsGone table c p m ok.current ok.previous ok.current_previous e)
  rotate-IsGone table c p (some n) number m true ok (inr (inr e)) = inl (inr (inl e))
  rotate-IsGone table c p n number m false ok (inl e) = inl (inl e)
  rotate-IsGone table c p n number m false ok (inr (inl e)) =
      inr (delete_second-IsGone table n p m ok.next ok.previous (Apart-sym p n ok.previous_next) e)
  rotate-IsGone table c p n number m false ok (inr (inr e)) = inr (
      delete_keypair_stays-IsGone heap (delete_keypair heap table n) m p
        (delete_slot-IsGone table n m ok.next e))
