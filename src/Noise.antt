-- ===== src/Noise.antt =====
-- noise-protocol.go and noise-types.go: the state of a handshake and its messages. Keys, hashes and
-- ciphertexts are lists of bytes.
pub mod Initiation
pub mod Response
pub mod Agreement
pub mod Session
use wireguard_go.Base.{ℕ, List, [], ◌++◌, replicate}
use wireguard_go.Base.Text.{codes}
use wireguard_go.Index.{IndexTable}
use wireguard_go.Crypto.{Crypto, kdf1}

pub data HandshakeState : Type 0 where
  zeroed initiation_created initiation_consumed response_created response_consumed : HandshakeState

abbrev pub message_initiation_type : ℕ
message_initiation_type = 1

abbrev pub message_response_type : ℕ
message_response_type = 2

pub record MessageInitiation : Type 0 where
  pub type : ℕ
  pub sender : ℕ
  pub ephemeral : List ℕ
  pub static : List ℕ
  pub timestamp : List ℕ

pub record MessageResponse : Type 0 where
  pub type : ℕ
  pub sender : ℕ
  pub receiver : ℕ
  pub ephemeral : List ℕ
  pub empty : List ℕ

pub record Handshake : Type 0 where
  pub state : HandshakeState
  pub hash : List ℕ
  pub chain_key : List ℕ
  pub preshared_key : List ℕ
  pub local_ephemeral : List ℕ
  pub local_index : ℕ
  pub remote_index : ℕ
  pub remote_static : List ℕ
  pub remote_ephemeral : List ℕ
  pub precomputed_static_static : List ℕ
  pub last_timestamp : List ℕ
  pub last_initiation_consumption : ℕ

-- The keys of the device, `device.noise`.
pub record NoiseKeys : Type 0 where
  pub private_key : List ℕ
  pub public_key : List ℕ

abbrev pub zero_key : List ℕ
zero_key = replicate 32 0

abbrev pub zero_nonce : List ℕ
zero_nonce = replicate 12 0

-- Handshake.Clear.
unfoldable pub clear : Handshake → Handshake
clear h = record h {
  local_ephemeral = zero_key;
  remote_ephemeral = zero_key;
  chain_key = zero_key;
  hash = zero_key;
  local_index = 0;
  state = zeroed;
}

pub data Error : Type 0 where
  zero_shared_secret no_randomness initiation_not_consumed : Error

-- How the creation of a message ends, with the handshake and the index table that it leaves.
-- `waiting`: NewIndex has used up the random draws given.
pub data Created (M : Type 0) : Type 0 where
  created : M → Handshake → IndexTable → Created M
  refused : Error → Handshake → IndexTable → Created M
  waiting : Handshake → IndexTable → Created M

module _ (c : Crypto) where
  unfoldable pub mix_key : List ℕ → List ℕ → List ℕ
  mix_key chain_key input = kdf1 c chain_key input

  unfoldable pub mix_hash : List ℕ → List ℕ → List ℕ
  mix_hash hash input = c.blake2s (hash ++ input)

  unfoldable pub initial_chain_key : List ℕ
  initial_chain_key = c.blake2s (codes "Noise_IKpsk2_25519_ChaChaPoly_BLAKE2s")

  unfoldable pub initial_hash : List ℕ
  unfolding mix_hash
  initial_hash = mix_hash initial_chain_key (codes "WireGuard v1 zx2c4 Jason@zx2c4.com")
