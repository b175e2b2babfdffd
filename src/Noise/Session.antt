-- ===== src/Noise/Session.antt =====
-- The second message of a handshake, and the keys that both devices derive at its end.
use wireguard_go.Base.{
  ℕ, ◌≡◌, refl, sym, ◌∙◌, ap, subst, inl, inr, Bool, true, false, Option, some, List, arith,
  Bool-cases,
}
use wireguard_go.Base.Clock.{exceeds, sub_time}
use wireguard_go.Constants.{handshake_initation_rate}
use wireguard_go.Index.{
  IndexTable, Round, NewIndexResult, mapped, rand_error, looping, delete, lookup, new_index,
}
use wireguard_go.Tai64n.{after}
use wireguard_go.Crypto.{Crypto, IsSound, new_private_key, public_key, shared_secret}
use wireguard_go.Noise.{
  Handshake, NoiseKeys, MessageInitiation, MessageResponse, created, initiation_created,
  initiation_consumed, response_created, response_consumed,
}
use wireguard_go.Noise.Initiation.{
  initiation_message, create_message_initiation, consume_message_initiation,
}
use wireguard_go.Noise.Response.{
  response_message, respond_with_index, create_message_response, verify_response,
  consume_message_response, is_initiation_consumed, is_initiation_created,
}
use wireguard_go.Noise.Agreement.{IsPaired, created_initiation, initiation_accepted}
use wireguard_go.Keypair.{derive_keys}

created-respond_with_index :
    (c : Crypto) (hs : Handshake) (rand : List ℕ × Bool) (r : NewIndexResult)
    (msg : MessageResponse) (hs' : Handshake) (table' : IndexTable)
    → respond_with_index c hs rand r ≡ created msg hs' table'
    → (index : ℕ) × (key : List ℕ) × (response_message c
          (record hs { local_index = index; local_ephemeral = key })
        ≡ (msg, hs'))
unfolding respond_with_index
created-respond_with_index c hs rand (mapped index table) msg hs' table' e =
    elim (Bool-cases (new_private_key c rand).1) [
      | inl failed ↦ absurd (ground arith)
      | inr fine ↦ (index, (new_private_key c rand).0, ground arith)
    ]
created-respond_with_index c hs rand (rand_error index table) msg hs' table' e = absurd cc
created-respond_with_index c hs rand (looping table) msg hs' table' e = absurd cc

-- How a created response comes about.
created_response :
    (c : Crypto) (peer : ℕ) (hs : Handshake) (table : IndexTable) (rounds : List Round)
    (rand : List ℕ × Bool) (msg : MessageResponse) (hs' : Handshake) (table' : IndexTable)
    → create_message_response c peer hs table rounds rand ≡ created msg hs' table'
    → (index : ℕ) × (key : List ℕ) × (response_message c
          (record hs { local_index = index; local_ephemeral = key })
        ≡ (msg, hs'))
unfolding create_message_response
created_response c peer hs table rounds rand msg hs' table' e =
    elim (Bool-cases (is_initiation_consumed hs.state)) [
      | inr other ↦ absurd (ground arith)
      | inl consumed ↦
          created-respond_with_index c hs rand (new_index (delete table hs.local_index) peer rounds)
            msg hs' table' (ground arith)
    ]

-- The initiator `i` verifies the response of `r`, which has consumed its initiation.
verify-response_message :
    (c : Crypto) (ni nr : NoiseKeys) (i r : Handshake)
    → IsSound c
    → IsPaired c ni i nr r
    → i.state ≡ initiation_created
    → r.hash ≡ i.hash
    → r.chain_key ≡ i.chain_key
    → r.remote_ephemeral ≡ public_key c i.local_ephemeral
    → verify_response c ni i (response_message c r).0
      ≡ some ((response_message c r).1.hash, (response_message c r).1.chain_key)
unfolding verify_response response_message shared_secret public_key is_initiation_created
verify-response_message c ni nr i r sound paired st h k eph =
    let ee : c.scalar_mult r.local_ephemeral (c.scalar_base_mult i.local_ephemeral)
        ≡ c.scalar_mult i.local_ephemeral (c.scalar_base_mult r.local_ephemeral) =
      sound.shares _ _ in
    let es : c.scalar_mult r.local_ephemeral r.remote_static
        ≡ c.scalar_mult ni.private_key (c.scalar_base_mult r.local_ephemeral) =
      ap (c.scalar_mult r.local_ephemeral) (paired.knows_initiator ∙ paired.initiator_public)
      ∙ sound.shares _ _ in
    simp (st, h, k, eph, ee, es, paired.same_psk, sound.opens) refl

-- The response that a device creates after it has consumed an initiation is accepted by the device
-- that created that initiation, if the latter's index still stands for the handshake: the initiator
-- then has the responder's hash and chain key. The AEAD opens what it sealed, and the two sides of a
-- Diffie-Hellman exchange agree.
pub response_accepted :
    (c : Crypto) (ni nr : NoiseKeys) (i r : Handshake) (to_peer : ℕ) (table : IndexTable)
    (rounds : List Round) (rand : List ℕ × Bool) (msg : MessageResponse) (r' : Handshake)
    (table' indices : IndexTable) (handshakes : ℕ → Handshake) (number : ℕ)
    → IsSound c
    → IsPaired c ni i nr r
    → i.state ≡ initiation_created
    → r.hash ≡ i.hash
    → r.chain_key ≡ i.chain_key
    → r.remote_ephemeral ≡ public_key c i.local_ephemeral
    → create_message_response c to_peer r table rounds rand ≡ created msg r' table'
    → (lookup indices r.remote_index).handshake ≡ some number
    → handshakes number ≡ i
    → (consume_message_response c ni indices handshakes msg
        ≡ some (
          (lookup indices r.remote_index).peer,
          number,
          record i {
            hash = r'.hash;
            chain_key = r'.chain_key;
            remote_index = r'.local_index;
            state = response_consumed;
          },
        ))
      × (r'.state ≡ response_created)
unfolding consume_message_response response_message
response_accepted c ni nr i r to_peer table rounds rand msg r' table' indices handshakes number
      sound paired st h k eph e entry own =
    let (index, key, sent) = created_response c to_peer r table rounds rand msg r' table' e in
    let r0 : Handshake = record r { local_index = index; local_ephemeral = key } in
    let paired0 : IsPaired c ni i nr r0 = record {
      initiator_public = paired.initiator_public;
      responder_public = paired.responder_public;
      knows_responder = paired.knows_responder;
      knows_initiator = paired.knows_initiator;
      same_psk = paired.same_psk;
      initiator_precomputed = paired.initiator_precomputed;
      responder_precomputed = paired.responder_precomputed;
    } in
    let verified = verify-response_message c ni nr i r0 sound paired0 st h k eph in
    subst
      (λ (m, q).
        (consume_message_response c ni indices handshakes m
          ≡ some (
            (lookup indices r.remote_index).peer,
            number,
            record i {
              hash = q.hash;
              chain_key = q.chain_key;
              remote_index = q.local_index;
              state = response_consumed;
            },
          ))
        × (q.state ≡ response_created))
      sent (simp (entry, own, verified) refl, refl)

-- What the initiator holds after initiation_message.
sent_initiation :
    (c : Crypto) (ni : NoiseKeys) (to_peer : ℕ) (i : Handshake) (table : IndexTable)
    (rand : List ℕ × Bool) (rounds : List Round) (timestamp : List ℕ) (msg : MessageInitiation)
    (i' : Handshake) (table' : IndexTable)
    → create_message_initiation c ni to_peer i table rand rounds timestamp ≡ created msg i' table'
    → (i'.state ≡ initiation_created)
      × (i'.remote_static ≡ i.remote_static)
      × (i'.preshared_key ≡ i.preshared_key)
      × (i'.precomputed_static_static ≡ i.precomputed_static_static)
unfolding initiation_message
sent_initiation c ni to_peer i table rand rounds timestamp msg i' table' e =
    let (nz, index, sent) =
      created_initiation c ni to_peer i table rand rounds timestamp msg i' table' e in
    subst
      (λ (m, h).
        (h.state ≡ initiation_created)
        × (h.remote_static ≡ i.remote_static)
        × (h.preshared_key ≡ i.preshared_key)
        × (h.precomputed_static_static ≡ i.precomputed_static_static))
      sent (refl, refl, refl, refl)

-- Two devices that are set up as peers of each other end a handshake with the same keys: the
-- initiator creates an initiation, the responder consumes it and creates a response. Then the
-- initiator accepts that response, and what it derives to send with is what the responder derives
-- to receive with, and the other way round; one side is the initiator and the other is not. The
-- initiation's timestamp is new and the last one was long enough ago, the index of the initiator
-- still stands for its handshake, the AEAD opens what it sealed, and the two sides of a
-- Diffie-Hellman exchange agree.
pub session_agrees :
    (c : Crypto) (ni nr : NoiseKeys) (i : Handshake) (to_responder to_initiator : ℕ)
    (table_i table_r : IndexTable) (rand rand' : List ℕ × Bool) (rounds rounds' : List Round)
    (timestamp : List ℕ) (first : MessageInitiation) (i' : Handshake) (table_i' : IndexTable)
    (lookup_peer : List ℕ → Option ℕ) (handshakes handshakes' : ℕ → Handshake) (peer now later : ℕ)
    (r : Handshake) (second : MessageResponse) (r' : Handshake) (table_r' indices : IndexTable)
    (number : ℕ)
    → IsSound c
    → IsPaired c ni i nr (handshakes peer)
    → create_message_initiation c ni to_responder i table_i rand rounds timestamp
      ≡ created first i' table_i'
    → lookup_peer ni.public_key ≡ some peer
    → after timestamp (handshakes peer).last_timestamp ≡ true
    → exceeds (sub_time now (handshakes peer).last_initiation_consumption) handshake_initation_rate
      ≡ true
    → consume_message_initiation c nr lookup_peer handshakes now later first ≡ some (peer, r)
    → create_message_response c to_initiator r table_r rounds' rand' ≡ created second r' table_r'
    → (lookup indices i'.local_index).handshake ≡ some number
    → handshakes' number ≡ i'
    → (i'' : Handshake) × (k k' : List ℕ) × (consume_message_response c ni indices handshakes'
          second
        ≡ some ((lookup indices i'.local_index).peer, number, i''))
      × (derive_keys c i'' ≡ some (k, k', true))
      × (derive_keys c r' ≡ some (k', k, false))
unfolding derive_keys
session_agrees c ni nr i to_responder to_initiator table_i table_r rand rand' rounds rounds'
      timestamp first i' table_i' lookup_peer handshakes handshakes' peer now later r second r'
      table_r' indices number sound paired e known newer slow consumed e' entry own =
    let (st, rs, psk, pre) =
      sent_initiation c ni to_responder i table_i rand rounds timestamp first i' table_i' e in
    let accepted =
      initiation_accepted c ni nr i to_responder table_i rand rounds timestamp first i' table_i'
        lookup_peer handshakes peer now later sound paired e known newer slow in
    let got : Handshake = record (handshakes peer) {
      hash = i'.hash;
      chain_key = i'.chain_key;
      remote_index = i'.local_index;
      remote_ephemeral = public_key c i'.local_ephemeral;
      last_timestamp = timestamp;
      last_initiation_consumption = later;
      state = initiation_consumed;
    } in
    let r_is : got ≡ r = cc in
    let paired0 : IsPaired c ni i' nr got = record {
      initiator_public = paired.initiator_public;
      responder_public = paired.responder_public;
      knows_responder = rs ∙ paired.knows_responder;
      knows_initiator = paired.knows_initiator;
      same_psk = psk ∙ paired.same_psk;
      initiator_precomputed =
          pre ∙ paired.initiator_precomputed ∙ ap (shared_secret c ni.private_key) (sym rs);
      responder_precomputed = paired.responder_precomputed;
    } in
    let e'' : create_message_response c to_initiator got table_r rounds' rand'
        ≡ created second r' table_r' =
      subst
        (λ q.
          create_message_response c to_initiator q table_r rounds' rand'
          ≡ created second r' table_r')
        (sym r_is) e' in
    let (answered, st') =
      response_accepted c ni nr i' got to_initiator table_r rounds' rand' second r' table_r' indices
        handshakes' number sound paired0 st refl refl refl e'' entry own in
    (_, _, _, answered, refl, ap (λ s. derive_keys c (record r' { state = s })) st')
