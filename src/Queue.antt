-- ===== src/Queue.antt =====
-- The queues of send.go and receive.go: channels of a fixed size, as the list of what they hold.
-- An element is the number of its record; a queue that is full drops its oldest element. No other
-- goroutine uses the queue during a call.
pub mod Oldest
use wireguard_go.Base.{
  ℕ, Bool, true, false, Option, none, some, List, [], ◌∷◌, ◌++◌, length, ltb, ◌==◌, if◌then◌else◌,
}
use wireguard_go.Constants.{queue_outbound_size, queue_inbound_size, queue_handshake_size}

-- The flag and the mutex of an element.
pub record Flags : Type 0 where
  pub dropped : Bool
  pub locked : Bool

abbrev pub Elements : Type 0
Elements = ℕ → Flags

-- Drop.
unfoldable pub drop_element : ℕ → Elements → Elements
drop_element number elements n =
    if n == number then (record (elements n) { dropped = true }) else elements n

unfoldable pub unlock : ℕ → Elements → Elements
unlock number elements n =
    if n == number then (record (elements n) { locked = false }) else elements n

unfoldable pub is_dropped : Elements → ℕ → Bool
is_dropped elements number = (elements number).dropped

-- The loop of the five functions: `discard` is what each does to the oldest element. `none`: the
-- loop does not end, for a channel without a buffer that nobody reads.
unfoldable pub add_to_queue {ℓ} :
    {S : Type ℓ} → ℕ → (ℕ → S → S) → List ℕ → ℕ → S → Option (List ℕ × S)
add_to_queue size discard [] element s = if ltb 0 size then some (element ∷ [], s) else none
add_to_queue size discard (old ∷ queue) element s =
    let rest = add_to_queue size discard queue element (discard old s) in
    if ltb (length (old ∷ queue)) size then some ((old ∷ queue) ++ element ∷ [], s) else rest

unfoldable pub add_to_outbound_queue : List ℕ → ℕ → Elements → Option (List ℕ × Elements)
unfolding add_to_queue drop_element
add_to_outbound_queue = add_to_queue queue_outbound_size drop_element

-- "drop & release to potential consumer"
unfoldable pub release : ℕ → Elements → Elements
unfolding drop_element unlock
release number elements = unlock number (drop_element number elements)

unfoldable pub add_to_encryption_queue : List ℕ → ℕ → Elements → Option (List ℕ × Elements)
unfolding add_to_queue release
add_to_encryption_queue = add_to_queue queue_outbound_size release

unfoldable pub add_to_inbound_queue : List ℕ → ℕ → Elements → Option (List ℕ × Elements)
unfolding add_to_queue drop_element
add_to_inbound_queue = add_to_queue queue_inbound_size drop_element

unfoldable pub add_to_decryption_queue : List ℕ → ℕ → Elements → Option (List ℕ × Elements)
unfolding add_to_queue release
add_to_decryption_queue = add_to_queue queue_inbound_size release

-- PutMessageBuffer of the oldest element's buffer, by the pool of the free ones.
unfoldable pub put_message_buffer : (ℕ → ℕ) → ℕ → List ℕ → List ℕ
put_message_buffer buffer element pool = buffer element ∷ pool

unfoldable pub add_to_handshake_queue : (ℕ → ℕ) → List ℕ → ℕ → List ℕ → Option (List ℕ × List ℕ)
unfolding add_to_queue put_message_buffer
add_to_handshake_queue buffer = add_to_queue queue_handshake_size (put_message_buffer buffer)
