-- ===== src/Noise/Initiation.antt =====
-- CreateMessageInitiation and ConsumeMessageInitiation of noise-protocol.go. The mutexes make each
-- run on its own; the two halves of ConsumeMessageInitiation, under two locks, are two functions.
use wireguard_go.Base.{ℕ, Bool, not, Option, some, List, ◌==◌, if◌then◌else◌}
use wireguard_go.Base.Clock.{exceeds, sub_time}
use wireguard_go.Base.Do.{◌>>=◌, ◌>>◌, guard}
use wireguard_go.Constants.{handshake_initation_rate}
use wireguard_go.Index.{
  IndexTable, Round, NewIndexResult, mapped, rand_error, looping, delete, new_index,
}
use wireguard_go.Tai64n.{after}
use wireguard_go.Crypto.{Crypto, is_zero, kdf2, new_private_key, public_key, shared_secret}
use wireguard_go.Noise.{
  Handshake, NoiseKeys, MessageInitiation, message_initiation_type, Created, created, refused,
  waiting, zero_shared_secret, no_randomness, initiation_created, initiation_consumed, zero_nonce,
  mix_key, mix_hash, initial_chain_key, initial_hash,
}

module _ (c : Crypto) where
  -- The message and the handshake from the point where the ephemeral key and the index are set.
  unfoldable pub initiation_message : NoiseKeys → Handshake → List ℕ → MessageInitiation × Handshake
  initiation_message noise hs timestamp =
      let hash = mix_hash c hs.hash hs.remote_static in
      let ephemeral = public_key c hs.local_ephemeral in
      let chain_key = mix_key c hs.chain_key ephemeral in
      let hash = mix_hash c hash ephemeral in
      let ss = shared_secret c hs.local_ephemeral hs.remote_static in
      let (chain_key, key) = kdf2 c chain_key ss in
      let static = c.aead_seal key zero_nonce noise.public_key hash in
      let hash = mix_hash c hash static in
      let (chain_key, key) = kdf2 c chain_key hs.precomputed_static_static in
      let sealed = c.aead_seal key zero_nonce timestamp hash in
      let hash = mix_hash c hash sealed in
      (
        record {
          type = message_initiation_type;
          sender = hs.local_index;
          ephemeral = ephemeral;
          static = static;
          timestamp = sealed;
        },
        record hs { hash = hash; chain_key = chain_key; state = initiation_created },
      )

  -- What follows the assignment of the index, by NewIndex's result.
  unfoldable pub with_index :
      NoiseKeys → Handshake → List ℕ → NewIndexResult → Created MessageInitiation
  unfolding initiation_message
  with_index noise hs timestamp (mapped index table) =
      let (msg, hs') = initiation_message noise (record hs { local_index = index }) timestamp in
      created msg hs' table
  with_index noise hs timestamp (rand_error index table) =
      refused no_randomness (record hs { local_index = index }) table
  with_index noise hs timestamp (looping table) = waiting hs table

  unfoldable pub create_message_initiation :
      NoiseKeys
      → ℕ
      → Handshake
      → IndexTable
      → List ℕ × Bool
      → List Round
      → List ℕ
      → Created MessageInitiation
  unfolding with_index
  create_message_initiation noise peer hs table rand rounds timestamp =
      let (key, failed) = new_private_key c rand in
      let hs' = record hs {
        hash = initial_hash c;
        chain_key = initial_chain_key c;
        local_ephemeral = key;
      } in
      if is_zero hs.precomputed_static_static
      then refused zero_shared_secret hs table
      else if failed
      then refused no_randomness hs' table
      else with_index noise hs' timestamp (new_index (delete table hs'.local_index) peer rounds)

  -- What ConsumeMessageInitiation finds out under the read locks.
  pub record Verified : Type 0 where
    pub peer : ℕ
    pub hash : List ℕ
    pub chain_key : List ℕ
    pub timestamp : List ℕ

  unfoldable pub verify_initiation :
      NoiseKeys → (List ℕ → Option ℕ) → (ℕ → Handshake) → ℕ → MessageInitiation → Option Verified
  verify_initiation noise lookup_peer handshakes now msg = do
    guard (msg.type == message_initiation_type)
    let hash = mix_hash c (initial_hash c) noise.public_key
    let hash = mix_hash c hash msg.ephemeral
    let chain_key = mix_key c (initial_chain_key c) msg.ephemeral
    let ss = shared_secret c noise.private_key msg.ephemeral
    let keys = kdf2 c chain_key ss
    peer_pk ← c.aead_open keys.1 zero_nonce msg.static hash
    let hash = mix_hash c hash msg.static
    peer ← lookup_peer peer_pk
    let hs = handshakes peer
    guard (not (is_zero hs.precomputed_static_static))
    let keys' = kdf2 c keys.0 hs.precomputed_static_static
    timestamp ← c.aead_open keys'.1 zero_nonce msg.timestamp hash
    let hash = mix_hash c hash msg.timestamp
    guard (after timestamp hs.last_timestamp)
    guard (exceeds (sub_time now hs.last_initiation_consumption) handshake_initation_rate)
    some (record { peer = peer; hash = hash; chain_key = keys'.0; timestamp = timestamp })

  -- "update handshake state", under the write lock.
  unfoldable pub accept_initiation : Handshake → Verified → ℕ → MessageInitiation → Handshake
  accept_initiation hs v now msg = record hs {
    hash = v.hash;
    chain_key = v.chain_key;
    remote_index = msg.sender;
    remote_ephemeral = msg.ephemeral;
    last_timestamp = v.timestamp;
    last_initiation_consumption = now;
    state = initiation_consumed;
  }

  -- The whole, with no other goroutine between the two halves: the peer and its handshake.
  unfoldable pub consume_message_initiation :
      NoiseKeys
      → (List ℕ → Option ℕ)
      → (ℕ → Handshake)
      → ℕ
      → ℕ
      → MessageInitiation
      → Option (ℕ × Handshake)
  unfolding verify_initiation accept_initiation
  consume_message_initiation noise lookup_peer handshakes now later msg = do
    v ← verify_initiation noise lookup_peer handshakes now msg
    some (v.peer, accept_initiation (handshakes v.peer) v later msg)
