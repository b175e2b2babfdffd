-- ===== src/Noise/Agreement.antt =====
-- What two devices that follow noise-protocol.go agree on.
use wireguard_go.Base.{
  ℕ, ◌≡◌, refl, sym, ◌∙◌, ap, subst, inl, inr, Bool, true, false, Option, some, List, arith,
  Bool-cases,
}
use wireguard_go.Base.Do.{◌>>=◌}
use wireguard_go.Base.Clock.{exceeds, sub_time}
use wireguard_go.Constants.{handshake_initation_rate}
use wireguard_go.Index.{
  IndexTable, Round, NewIndexResult, mapped, rand_error, looping, delete, new_index,
}
use wireguard_go.Tai64n.{after}
use wireguard_go.Crypto.{Crypto, IsSound, is_zero, new_private_key, public_key, shared_secret}
use wireguard_go.Noise.{
  Handshake, NoiseKeys, MessageInitiation, created, initial_chain_key, initial_hash,
  initiation_consumed,
}
use wireguard_go.Noise.Initiation.{
  initiation_message, with_index, create_message_initiation, verify_initiation, accept_initiation,
  consume_message_initiation,
}

-- The handshakes `i` and `r` are those of two devices, with the keys `ni` and `nr`, that are set up
-- as peers of each other.
pub record IsPaired (c : Crypto) (ni : NoiseKeys) (i : Handshake) (nr : NoiseKeys) (r : Handshake)
    : Type 0 where
  pub initiator_public : ni.public_key ≡ public_key c ni.private_key
  pub responder_public : nr.public_key ≡ public_key c nr.private_key
  pub knows_responder : i.remote_static ≡ nr.public_key
  pub knows_initiator : r.remote_static ≡ ni.public_key
  pub same_psk : i.preshared_key ≡ r.preshared_key
  pub initiator_precomputed :
      i.precomputed_static_static ≡ shared_secret c ni.private_key i.remote_static
  pub responder_precomputed :
      r.precomputed_static_static ≡ shared_secret c nr.private_key r.remote_static

-- What with_index creates.
created-with_index :
    (c : Crypto) (noise : NoiseKeys) (hs : Handshake) (timestamp : List ℕ) (r : NewIndexResult)
    (msg : MessageInitiation) (hs' : Handshake) (table' : IndexTable)
    → with_index c noise hs timestamp r ≡ created msg hs' table'
    → (index : ℕ) × (initiation_message c noise (record hs { local_index = index }) timestamp
        ≡ (msg, hs'))
unfolding with_index
created-with_index c noise hs timestamp (mapped index table) msg hs' table' e = (index, cc)
created-with_index c noise hs timestamp (rand_error index table) msg hs' table' e = absurd cc
created-with_index c noise hs timestamp (looping table) msg hs' table' e = absurd cc

-- How a created initiation comes about.
pub created_initiation :
    (c : Crypto) (noise : NoiseKeys) (peer : ℕ) (hs : Handshake) (table : IndexTable)
    (rand : List ℕ × Bool) (rounds : List Round) (timestamp : List ℕ) (msg : MessageInitiation)
    (hs' : Handshake) (table' : IndexTable)
    → create_message_initiation c noise peer hs table rand rounds timestamp ≡ created msg hs' table'
    → (is_zero hs.precomputed_static_static ≡ false)
      × (index : ℕ) × (initiation_message c noise
            (record hs {
              hash = initial_hash c;
              chain_key = initial_chain_key c;
              local_ephemeral = (new_private_key c rand).0;
              local_index = index;
            })
            timestamp
          ≡ (msg, hs'))
unfolding create_message_initiation
created_initiation c noise peer hs table rand rounds timestamp msg hs' table' e =
    elim (Bool-cases (is_zero hs.precomputed_static_static)) [
      | inl z ↦ absurd (ground arith)
      | inr nz ↦ elim (Bool-cases (new_private_key c rand).1) [
        | inl failed ↦ absurd (ground arith)
        | inr fine ↦
            let hs0 : Handshake = record hs {
              hash = initial_hash c;
              chain_key = initial_chain_key c;
              local_ephemeral = (new_private_key c rand).0;
            } in
            let (index, sent) =
              created-with_index c noise hs0 timestamp
                (new_index (delete table hs.local_index) peer rounds) msg hs' table'
                (ground arith) in
            (nz, index, sent)
      ]
    ]

-- The secret of the two static keys is the same on both sides.
same_precomputed :
    (c : Crypto) (ni nr : NoiseKeys) (i r : Handshake)
    → IsSound c
    → IsPaired c ni i nr r
    → i.precomputed_static_static ≡ r.precomputed_static_static
unfolding shared_secret public_key
same_precomputed c ni nr i r sound paired =
    let shares = sound.shares ni.private_key nr.private_key in
    let a = paired.initiator_public in
    let b = paired.responder_public in
    let d = paired.knows_responder in
    let e = paired.knows_initiator in
    let f = paired.initiator_precomputed in let g = paired.responder_precomputed in cc

verify-initiation_message :
    (c : Crypto) (ni nr : NoiseKeys) (i : Handshake) (lookup_peer : List ℕ → Option ℕ)
    (handshakes : ℕ → Handshake) (peer now : ℕ) (timestamp : List ℕ)
    → IsSound c
    → IsPaired c ni i nr (handshakes peer)
    → i.hash ≡ initial_hash c
    → i.chain_key ≡ initial_chain_key c
    → is_zero i.precomputed_static_static ≡ false
    → lookup_peer ni.public_key ≡ some peer
    → after timestamp (handshakes peer).last_timestamp ≡ true
    → exceeds (sub_time now (handshakes peer).last_initiation_consumption) handshake_initation_rate
      ≡ true
    → verify_initiation c nr lookup_peer handshakes now (initiation_message c ni i timestamp).0
      ≡ some (record {
        peer = peer;
        hash = (initiation_message c ni i timestamp).1.hash;
        chain_key = (initiation_message c ni i timestamp).1.chain_key;
        timestamp = timestamp;
      })
unfolding verify_initiation initiation_message shared_secret public_key
verify-initiation_message c ni nr i lookup_peer handshakes peer now timestamp sound paired h k nz
      known newer slow =
    let ss : c.scalar_mult nr.private_key (c.scalar_base_mult i.local_ephemeral)
        ≡ c.scalar_mult i.local_ephemeral i.remote_static =
      sound.shares _ _
      ∙ ap (c.scalar_mult i.local_ephemeral)
          (sym (paired.knows_responder ∙ paired.responder_public)) in
    let pre = same_precomputed c ni nr i (handshakes peer) sound paired in
    let to_r = paired.knows_responder in
    simp (h, k, ss, sound.opens, known, sym pre, nz, to_r, newer, slow) refl

-- An initiation that one device creates for a peer, which knows it by the same keys, is accepted by
-- that peer if its timestamp is newer than the last and the last was long enough ago: the peer then
-- has the initiator's hash and chain key, and its index as the remote one. The AEAD opens what it
-- sealed, and the two sides of a Diffie-Hellman exchange agree.
pub initiation_accepted :
    (c : Crypto) (ni nr : NoiseKeys) (i : Handshake) (to_peer : ℕ) (table : IndexTable)
    (rand : List ℕ × Bool) (rounds : List Round) (timestamp : List ℕ) (msg : MessageInitiation)
    (i' : Handshake) (table' : IndexTable) (lookup_peer : List ℕ → Option ℕ)
    (handshakes : ℕ → Handshake) (peer now later : ℕ)
    → IsSound c
    → IsPaired c ni i nr (handshakes peer)
    → create_message_initiation c ni to_peer i table rand rounds timestamp ≡ created msg i' table'
    → lookup_peer ni.public_key ≡ some peer
    → after timestamp (handshakes peer).last_timestamp ≡ true
    → exceeds (sub_time now (handshakes peer).last_initiation_consumption) handshake_initation_rate
      ≡ true
    → consume_message_initiation c nr lookup_peer handshakes now later msg
      ≡ some (
        peer,
        record (handshakes peer) {
          hash = i'.hash;
          chain_key = i'.chain_key;
          remote_index = i'.local_index;
          remote_ephemeral = public_key c i'.local_ephemeral;
          last_timestamp = timestamp;
          last_initiation_consumption = later;
          state = initiation_consumed;
        },
      )
unfolding consume_message_initiation accept_initiation verify_initiation initiation_message
initiation_accepted c ni nr i to_peer table rand rounds timestamp msg i' table' lookup_peer
      handshakes peer now later sound paired e known newer slow =
    let (nz, index, sent) =
      created_initiation c ni to_peer i table rand rounds timestamp msg i' table' e in
    let i0 : Handshake = record i {
      hash = initial_hash c;
      chain_key = initial_chain_key c;
      local_ephemeral = (new_private_key c rand).0;
      local_index = index;
    } in
    let paired0 : IsPaired c ni i0 nr (handshakes peer) = record {
      initiator_public = paired.initiator_public;
      responder_public = paired.responder_public;
      knows_responder = paired.knows_responder;
      knows_initiator = paired.knows_initiator;
      same_psk = paired.same_psk;
      initiator_precomputed = paired.initiator_precomputed;
      responder_precomputed = paired.responder_precomputed;
    } in
    let verified =
      verify-initiation_message c ni nr i0 lookup_peer handshakes peer now timestamp sound paired0
        refl refl nz known newer slow in
    subst
      (λ (m, h).
        consume_message_initiation c nr lookup_peer handshakes now later m
        ≡ some (
          peer,
          record (handshakes peer) {
            hash = h.hash;
            chain_key = h.chain_key;
            remote_index = h.local_index;
            remote_ephemeral = public_key c h.local_ephemeral;
            last_timestamp = timestamp;
            last_initiation_consumption = later;
            state = initiation_consumed;
          },
        ))
      sent
      (ap
        (λ o. o >>= λ v. some (
          v.peer,
          accept_initiation c (handshakes v.peer) v later (initiation_message c ni i0 timestamp).0,
        ))
        verified)
