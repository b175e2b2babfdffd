-- ===== src/Tests/Handshakes.antt =====
-- A handshake between two devices, by a toy cryptography that satisfies what the protocol needs.
use wireguard_go.Base.{
  ℕ, ◌+◌, ◌≡◌, refl, ap, Bool, true, false, Option, none, some, List, [], ◌∷◌, length, replicate,
  get_or, arith, ◌==◌, if◌then◌else◌, ==_refl,
}
use wireguard_go.Index
use wireguard_go.Index.{
  IndexTable, IndexTableEntry, RandBytes, Round, lookup, delete, insert, check_round, new_index,
  rand_uint32,
}
use wireguard_go.Index.Laws.{quiet}
use wireguard_go.Tai64n
use wireguard_go.Tai64n.{after}
use wireguard_go.Crypto.{Crypto, IsSound, is_zero, new_private_key, public_key, shared_secret}
use wireguard_go.Noise.{
  Handshake, NoiseKeys, MessageInitiation, MessageResponse, Created, created, refused, waiting,
  zeroed, zero_key, initiation_created, initiation_consumed,
}
use wireguard_go.Noise.Initiation.{initiation_message, with_index, create_message_initiation}
use wireguard_go.Noise.Response.{
  response_message, respond_with_index, create_message_response, consume_message_response,
  is_initiation_consumed,
}
use wireguard_go.Noise.Agreement.{IsPaired, initiation_accepted}
use wireguard_go.Noise.Session.{session_agrees}
use wireguard_go.Keypair.{derive_keys}

-- Hashes count, secrets add, and a sealed text opens under the key's first byte.
abbrev pub toy_open : ℕ → List ℕ → Option (List ℕ)
toy_open k [] = none
toy_open k (x ∷ text) = if x == k then some text else none

abbrev pub toy : Crypto
toy = record {
  blake2s = λ text. length text ∷ [];
  blake2s_mac = λ key text. replicate 16 (length text);
  hmac = λ key text. (get_or key 0 0 + length text) ∷ [];
  scalar_base_mult = λ a. get_or a 0 0 ∷ [];
  scalar_mult = λ a b. (get_or a 0 0 + get_or b 0 0) ∷ [];
  aead_seal = λ key nonce text ad. get_or key 0 0 ∷ text;
  aead_open = λ key nonce text ad. toy_open (get_or key 0 0) text;
  xaead_seal = λ key nonce text ad. get_or key 0 0 ∷ text;
  xaead_open = λ key nonce text ad. toy_open (get_or key 0 0) text;
}

pub toy-IsSound : IsSound toy
toy-IsSound = record {
  opens = λ key nonce text ad. simp (==_refl (get_or key 0 0)) refl;
  xopens = λ key nonce text ad. simp (==_refl (get_or key 0 0)) refl;
  shares = λ a b. ap (λ n. n ∷ []) (omega arith);
}

abbrev keys_i : NoiseKeys
keys_i = record { private_key = 3 ∷ []; public_key = 3 ∷ [] }

abbrev keys_r : NoiseKeys
keys_r = record { private_key = 4 ∷ []; public_key = 4 ∷ [] }

abbrev knows : List ℕ → Handshake
knows remote = record {
  state = zeroed;
  hash = zero_key;
  chain_key = zero_key;
  preshared_key = 9 ∷ [];
  local_ephemeral = zero_key;
  local_index = 0;
  remote_index = 0;
  remote_static = remote;
  remote_ephemeral = zero_key;
  precomputed_static_static = 7 ∷ [];
  last_timestamp = Tai64n.now 0;
  last_initiation_consumption = 0;
}

abbrev start_i : Handshake
start_i = knows (4 ∷ [])

abbrev start_r : Handshake
start_r = knows (3 ∷ [])

paired : IsPaired toy keys_i start_i keys_r start_r
unfolding public_key shared_secret
paired = record {
  initiator_public = refl;
  responder_public = refl;
  knows_responder = refl;
  knows_initiator = refl;
  same_psk = refl;
  initiator_precomputed = refl;
  responder_precomputed = refl;
}

abbrev draw : List Round
draw = quiet (record { bytes = (5, 0, 0, 0); failed = false }) ∷ []

abbrev secret : List ℕ × Bool
secret = (replicate 32 1, false)

-- The initiation.
abbrev empty_initiation : MessageInitiation
empty_initiation = record { type = 0; sender = 0; ephemeral = []; static = []; timestamp = [] }

abbrev empty_response : MessageResponse
empty_response = record { type = 0; sender = 0; receiver = 0; ephemeral = []; empty = [] }

abbrev message_of : {M : Type 0} → M → Created M → M
message_of d (created m hs table) = m
message_of d (refused e hs table) = d
message_of d (waiting hs table) = d

abbrev handshake_of : {M : Type 0} → Created M → Handshake
handshake_of (created m hs table) = hs
handshake_of (refused e hs table) = hs
handshake_of (waiting hs table) = hs

abbrev table_of : {M : Type 0} → Created M → IndexTable
table_of (created m hs table) = table
table_of (refused e hs table) = table
table_of (waiting hs table) = table

abbrev sent_at : List ℕ
sent_at = Tai64n.now 5_000_000_000

abbrev first_created : Created MessageInitiation
first_created = create_message_initiation toy keys_i 1 start_i Index.init secret draw sent_at

abbrev first : MessageInitiation
first = message_of empty_initiation first_created

abbrev after_first : Handshake
after_first = handshake_of first_created

abbrev only_initiator : List ℕ → Option ℕ
only_initiator key = if get_or key 0 0 == 3 then some 2 else none

-- The initiation is accepted by the responder, whose peer 2 is the initiator.
abbrev accepted : Handshake
accepted = record start_r {
  hash = after_first.hash;
  chain_key = after_first.chain_key;
  remote_index = after_first.local_index;
  remote_ephemeral = public_key toy after_first.local_ephemeral;
  last_timestamp = sent_at;
  last_initiation_consumption = 200_000_000;
  state = initiation_consumed;
}

first_is : first_created ≡ created first after_first (table_of first_created)
unfolding create_message_initiation with_index initiation_message new_index check_round rand_uint32
    delete is_zero new_private_key
first_is = refl

newer : after sent_at start_r.last_timestamp ≡ true
unfolding after Tai64n.now Tai64n.is_greater Tai64n.put_big_endian
newer = refl

abbrev second_created : Created MessageResponse
second_created = create_message_response toy 2 accepted Index.init draw secret

abbrev second : MessageResponse
second = message_of empty_response second_created

abbrev pub after_second : Handshake
after_second = handshake_of second_created

second_is : second_created ≡ created second after_second (table_of second_created)
unfolding create_message_response respond_with_index response_message new_index check_round
    rand_uint32 delete new_private_key is_initiation_consumed
second_is = refl

after_first-IsPaired : IsPaired toy keys_i after_first keys_r accepted
unfolding create_message_initiation with_index initiation_message new_index check_round rand_uint32
    delete is_zero new_private_key public_key shared_secret
after_first-IsPaired = record {
  initiator_public = refl;
  responder_public = refl;
  knows_responder = refl;
  knows_initiator = refl;
  same_psk = refl;
  initiator_precomputed = refl;
  responder_precomputed = refl;
}

indexed : (lookup (table_of first_created) after_first.local_index).handshake ≡ some 1
unfolding create_message_initiation with_index initiation_message new_index check_round rand_uint32
    delete is_zero new_private_key insert lookup
indexed = refl

waiting_for : after_first.state ≡ initiation_created
unfolding create_message_initiation with_index initiation_message new_index check_round rand_uint32
    delete is_zero new_private_key
waiting_for = refl

session_agrees_example :
    (i'' : Handshake) × (k k' : List ℕ) × (consume_message_response toy keys_i
        (table_of first_created)
        (λ number. after_first)
        second
      ≡ some ((lookup (table_of first_created) after_first.local_index).peer, 1, i''))
    × (derive_keys toy i'' ≡ some (k, k', true))
    × (derive_keys toy after_second ≡ some (k', k, false))
session_agrees_example =
    session_agrees toy keys_i keys_r start_i 1 2 Index.init Index.init secret secret draw draw
      sent_at first after_first (table_of first_created) only_initiator (λ peer. start_r)
      (λ number. after_first) 2 100_000_000 200_000_000 accepted second after_second
      (table_of second_created) (table_of first_created) 1 toy-IsSound paired first_is refl newer
      refl
      (initiation_accepted toy keys_i keys_r start_i 1 Index.init secret draw sent_at first
        after_first (table_of first_created) only_initiator (λ peer. start_r) 2 100_000_000
        200_000_000 toy-IsSound paired first_is refl newer refl)
      second_is indexed refl
