-- ===== src/Keypair.antt =====
-- keypair.go, NewKeypair of noise-protocol.go, and the confirmation of the next key pair in
-- RoutineSequentialReceiver of receive.go. Key pairs are in a heap, by number; an AEAD is its key.
pub mod Indexed
pub mod Rotation
pub mod Steps
use wireguard_go.Base.{
  ℕ, Bool, true, false, Option, none, some, List, [], ◌==◌, points_to, if◌then◌else◌,
}
use wireguard_go.Replay.{ReplayFilter}
use wireguard_go.Replay
use wireguard_go.Index.{IndexTable, delete, insert}
use wireguard_go.Crypto.{Crypto, kdf2}
use wireguard_go.Noise.{
  HandshakeState, zeroed, initiation_created, initiation_consumed, response_created,
  response_consumed, Handshake, zero_key,
}

pub record Keypair : Type 0 where
  pub send_nonce : ℕ
  pub send : List ℕ
  pub receive : List ℕ
  pub replay_filter : ReplayFilter
  pub is_initiator : Bool
  pub created : ℕ
  pub local_index : ℕ
  pub remote_index : ℕ

pub record Keypairs : Type 0 where
  pub current : Option ℕ
  pub previous : Option ℕ
  pub next : Option ℕ

abbrev pub Heap : Type 0
Heap = ℕ → Keypair

-- Writes a key pair to an address.
unfoldable pub store : Heap → ℕ → Keypair → Heap
store heap number k n = if n == number then k else heap n

unfoldable pub delete_keypair : Heap → IndexTable → Option ℕ → IndexTable
delete_keypair heap table none = table
delete_keypair heap table (some key) = delete table (heap key).local_index

-- The send key, the receive key and whether the peer initiated, by the state of the handshake.
unfoldable pub derive_keys : Crypto → Handshake → Option (List ℕ × List ℕ × Bool)
derive_keys c hs =
    let keys = kdf2 c hs.chain_key [] in
    elim hs.state [
      | zeroed ↦ none
      | initiation_created ↦ none
      | initiation_consumed ↦ none
      | response_created ↦ some (keys.1, keys.0, false)
      | response_consumed ↦ some (keys.0, keys.1, true)
    ]

-- What a peer and the device keep that NewKeypair works on.
pub record Session : Type 0 where
  pub handshake : Handshake
  pub indices : IndexTable
  pub heap : Heap
  pub keypairs : Keypairs

-- "rotate key pairs", for the side that initiated: the slots, and the index table.
unfoldable pub rotate_initiator : Heap → Keypairs → IndexTable → ℕ → Keypairs × IndexTable
rotate_initiator heap kp table number = elim kp.next [
  | some next ↦ (
    record { current = some number; previous = some next; next = none },
    delete_keypair heap (delete_keypair heap table kp.current) kp.previous,
  )
  | none ↦ (
    record { current = some number; previous = kp.current; next = none },
    delete_keypair heap table kp.previous,
  )
]

-- The same for the side that responded.
unfoldable pub rotate_responder : Heap → Keypairs → IndexTable → ℕ → Keypairs × IndexTable
rotate_responder heap kp table number = (
  record { current = kp.current; previous = none; next = some number },
  delete_keypair heap (delete_keypair heap table kp.next) kp.previous,
)

unfoldable pub rotate : Bool → Heap → Keypairs → IndexTable → ℕ → Keypairs × IndexTable
rotate true = rotate_initiator
rotate false = rotate_responder

-- NewKeypair from "zero handshake" on, with the derived keys.
unfoldable pub install : ℕ → ℕ → ℕ → Session → List ℕ × List ℕ × Bool → Session
unfolding rotate store
install peer clock number s (send, receive, is_initiator) =
    let hs = s.handshake in
    let keypair : Keypair = record {
      send_nonce = 0;
      send = send;
      receive = receive;
      replay_filter = Replay.init Replay.zero_filter;
      is_initiator = is_initiator;
      created = clock;
      local_index = hs.local_index;
      remote_index = hs.remote_index;
    } in
    let heap = store s.heap number keypair in
    let table =
      insert s.indices hs.local_index
        (record { peer = some peer; handshake = none; key_pair = some number }) in
    let (keypairs, table') = rotate is_initiator heap s.keypairs table number in
    record {
      handshake = record hs {
        chain_key = zero_key;
        local_ephemeral = zero_key;
        state = zeroed;
        local_index = 0;
      };
      indices = table';
      heap = heap;
      keypairs = keypairs;
    }

-- NewKeypair of the peer with number `peer`, with the clock and the address that `new` allocates.
-- The timers that it starts are not part of the model.
unfoldable pub new_keypair : Crypto → ℕ → ℕ → ℕ → Session → Option Session
unfolding derive_keys install
new_keypair c peer clock number s = elim (derive_keys c s.handshake) [
  | none ↦ none
  | some keys ↦ some (install peer clock number s keys)
]

-- "check if using new key-pair": an authentic packet under the key pair `number`.
unfoldable pub confirm : ℕ → Session → Session
confirm number s =
    let kp = s.keypairs in
    if points_to kp.next number
    then (record s {
      keypairs = record { current = kp.next; previous = kp.current; next = none };
      indices = delete_keypair s.heap s.indices kp.previous;
    })
    else s
