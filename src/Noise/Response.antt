-- ===== src/Noise/Response.antt =====
-- CreateMessageResponse and ConsumeMessageResponse of noise-protocol.go. Each runs on its own.
use wireguard_go.Base.{ℕ, Bool, true, false, not, Option, some, List, [], ◌==◌, if◌then◌else◌}
use wireguard_go.Base.Do.{◌>>=◌, ◌>>◌, guard}
use wireguard_go.Index.{
  IndexTable, Round, NewIndexResult, mapped, rand_error, looping, delete, lookup, new_index,
}
use wireguard_go.Crypto.{Crypto, kdf3, new_private_key, public_key, shared_secret}
use wireguard_go.Noise.{
  HandshakeState, zeroed, initiation_created, initiation_consumed, response_created,
  response_consumed, Handshake, NoiseKeys, MessageResponse, message_response_type, Created, created,
  refused, waiting, no_randomness, initiation_not_consumed, zero_nonce, mix_key, mix_hash,
}

unfoldable pub is_initiation_consumed : HandshakeState → Bool
is_initiation_consumed zeroed = false
is_initiation_consumed initiation_created = false
is_initiation_consumed initiation_consumed = true
is_initiation_consumed response_created = false
is_initiation_consumed response_consumed = false

unfoldable pub is_initiation_created : HandshakeState → Bool
is_initiation_created zeroed = false
is_initiation_created initiation_created = true
is_initiation_created initiation_consumed = false
is_initiation_created response_created = false
is_initiation_created response_consumed = false

module _ (c : Crypto) where
  -- The message and the handshake from the point where the index and the ephemeral key are set.
  unfoldable pub response_message : Handshake → MessageResponse × Handshake
  response_message hs =
      let ephemeral = public_key c hs.local_ephemeral in
      let hash = mix_hash c hs.hash ephemeral in
      let chain_key = mix_key c hs.chain_key ephemeral in
      let ss = shared_secret c hs.local_ephemeral hs.remote_ephemeral in
      let chain_key = mix_key c chain_key ss in
      let ss = shared_secret c hs.local_ephemeral hs.remote_static in
      let chain_key = mix_key c chain_key ss in
      let (chain_key, tau, key) = kdf3 c chain_key hs.preshared_key in
      let hash = mix_hash c hash tau in
      let empty = c.aead_seal key zero_nonce [] hash in
      let hash = mix_hash c hash empty in
      (
        record {
          type = message_response_type;
          sender = hs.local_index;
          receiver = hs.remote_index;
          ephemeral = ephemeral;
          empty = empty;
        },
        record hs { hash = hash; chain_key = chain_key; state = response_created },
      )

  -- What follows NewIndex, by its result.
  unfoldable pub respond_with_index :
      Handshake → List ℕ × Bool → NewIndexResult → Created MessageResponse
  unfolding response_message
  respond_with_index hs rand (mapped index table) =
      let (key, failed) = new_private_key c rand in
      let hs' = record hs { local_index = index; local_ephemeral = key } in
      let (msg, hs'') = response_message hs' in
      if failed then refused no_randomness hs' table else created msg hs'' table
  respond_with_index hs rand (rand_error index table) =
      refused no_randomness (record hs { local_index = index }) table
  respond_with_index hs rand (looping table) = waiting hs table

  unfoldable pub create_message_response :
      ℕ → Handshake → IndexTable → List Round → List ℕ × Bool → Created MessageResponse
  unfolding respond_with_index is_initiation_consumed
  create_message_response peer hs table rounds rand =
      if not (is_initiation_consumed hs.state)
      then refused initiation_not_consumed hs table
      else respond_with_index hs rand (new_index (delete table hs.local_index) peer rounds)

  -- The closure of ConsumeMessageResponse: the new hash and chain key if the message is authentic.
  unfoldable pub verify_response :
      NoiseKeys → Handshake → MessageResponse → Option (List ℕ × List ℕ)
  unfolding is_initiation_created
  verify_response noise hs msg = do
    guard (is_initiation_created hs.state)
    let hash = mix_hash c hs.hash msg.ephemeral
    let chain_key = mix_key c hs.chain_key msg.ephemeral
    let ss = shared_secret c hs.local_ephemeral msg.ephemeral
    let chain_key = mix_key c chain_key ss
    let ss' = shared_secret c noise.private_key msg.ephemeral
    let chain_key = mix_key c chain_key ss'
    let keys = kdf3 c chain_key hs.preshared_key
    let hash = mix_hash c hash keys.1
    text ← c.aead_open keys.2 zero_nonce msg.empty hash
    let hash = mix_hash c hash msg.empty
    some (hash, keys.0)

  -- The peer, the number of the handshake, and the handshake. The peer is the table entry's.
  unfoldable pub consume_message_response :
      NoiseKeys → IndexTable → (ℕ → Handshake) → MessageResponse → Option (Option ℕ × ℕ × Handshake)
  unfolding verify_response
  consume_message_response noise table handshakes msg = do
    guard (msg.type == message_response_type)
    let entry = lookup table msg.receiver
    number ← entry.handshake
    let hs = handshakes number
    (hash, chain_key) ← verify_response noise hs msg
    some (
      entry.peer,
      number,
      record hs {
        hash = hash;
        chain_key = chain_key;
        remote_index = msg.sender;
        state = response_consumed;
      },
    )
