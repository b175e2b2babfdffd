-- ===== src/Queue/Oldest.antt =====
-- A queue takes every new element, and gives up its oldest one for it when it is full.
use wireguard_go.Base.{
  ℕ, ◌≤◌, ◌<◌, ◌≡◌, refl, inl, inr, some, List, [], ◌∷◌, ◌++◌, length, ltb, lt→ltb, ltb→lt,
  ltb-false→le, Bool-cases, arith, ◌⊎◌,
}
use wireguard_go.Constants.{queue_outbound_size}
use wireguard_go.Queue.{Elements, add_to_queue, release, add_to_encryption_queue}

module _ {ℓ} {S : Type ℓ} (size : ℕ) (discard : ℕ → S → S) where
  add_to_queue-room :
      (queue : List ℕ) (element : ℕ) (s : S)
      → length queue < size
      → add_to_queue size discard queue element s ≡ some (queue ++ element ∷ [], s)
  unfolding add_to_queue
  add_to_queue-room [] element s h = simp (lt→ltb 0 size h) refl
  add_to_queue-room (old ∷ queue) element s h = simp (lt→ltb (length (old ∷ queue)) size h) refl

  -- What any of the queues does: room for the element, or the oldest one is discarded.
  pub add_to_queue_cases :
      (queue : List ℕ) (element : ℕ) (s : S)
      → 0 < size
      → length queue ≤ size
      → ((length queue < size)
          × (add_to_queue size discard queue element s ≡ some (queue ++ element ∷ [], s)))
        ⊎ ((old : ℕ) × (rest : List ℕ) × (queue ≡ old ∷ rest)
            × (length queue ≡ size)
            × (add_to_queue size discard queue element s
                ≡ some (rest ++ element ∷ [], discard old s)))
  unfolding add_to_queue
  add_to_queue_cases [] element s pos h = inl (pos, add_to_queue-room [] element s pos)
  add_to_queue_cases (old ∷ queue) element s pos h =
      elim (Bool-cases (ltb (length (old ∷ queue)) size)) [
        | inl room ↦
            inl (ltb→lt _ _ room, add_to_queue-room (old ∷ queue) element s (ltb→lt _ _ room))
        | inr full ↦ inr (
          old,
          queue,
          refl,
          omega (arith, ltb-false→le _ _ full),
          simp full (
              add_to_queue-room queue element (discard old s)
                (omega (arith, ltb-false→le _ _ full))),
        )
      ]

-- addToEncryptionQueue on a queue within its size: a queue with room gets the element and nothing
-- is dropped; a full one loses its oldest element, which is marked as dropped and unlocked, and no
-- other element changes.
pub add_to_encryption_queue_cases :
    (queue : List ℕ) (element : ℕ) (elements : Elements)
    → length queue ≤ queue_outbound_size
    → ((length queue < queue_outbound_size)
        × (add_to_encryption_queue queue element elements ≡ some (queue ++ element ∷ [], elements)))
      ⊎ ((old : ℕ) × (rest : List ℕ) × (queue ≡ old ∷ rest)
          × (length queue ≡ queue_outbound_size)
          × (add_to_encryption_queue queue element elements
              ≡ some (rest ++ element ∷ [], release old elements)))
unfolding add_to_encryption_queue
add_to_encryption_queue_cases queue element elements h =
    add_to_queue_cases queue_outbound_size release queue element elements (omega arith) h
