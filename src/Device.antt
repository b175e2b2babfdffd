-- ===== src/Device.antt =====
-- device.go, peer.go and conn.go: the device and its peers. A peer is a number, and the device keeps
-- what the numbers stand for. The sockets of a bind are a number; what the operating system answers
-- to a call about them is an argument.
pub mod Bind
pub mod Peers
pub mod State
pub mod Interface
pub mod Create
pub mod Fits
pub mod Configure
pub mod Running
pub mod Settles
pub mod Removal
pub mod Deadlock
use wireguard_go.Base.{
  ℕ, ◌+◌, Bool, true, false, not, Option, none, some, List, [], ◌∷◌, ◌==◌, if◌then◌else◌, bytes_eq,
  replicate,
}
use wireguard_go.Routing
use wireguard_go.Routing.{RoutingTable}
use wireguard_go.Index
use wireguard_go.Index.{IndexTable}
use wireguard_go.Ratelimiter.{Ratelimiter}
use wireguard_go.Noise.{HandshakeState, zeroed, Handshake, NoiseKeys, zero_key}
use wireguard_go.Keypair.{Keypairs, Heap, Session}
use wireguard_go.Cookie.{CookieChecker, CookieGenerator}
use wireguard_go.Timers.{PeerTimers, new_timer}

-- An endpoint: the remote address, and whether a source address is cached for it.
pub record Endpoint : Type 0 where
  pub dst : List ℕ
  pub has_src : Bool

abbrev pub clear_src : Endpoint → Endpoint
clear_src e = record e { has_src = false }

pub record Peer : Type 0 where
  pub is_running : Bool
  pub keypairs : Keypairs
  pub handshake : Handshake
  pub endpoint : Option Endpoint
  pub persistent_keepalive_interval : ℕ  -- uint16
  pub tx_bytes : ℕ  -- uint64
  pub rx_bytes : ℕ  -- uint64
  pub timers : PeerTimers  -- and stats.lastHandshakeNano
  pub new_keypair_arrived : Bool  -- whether the channel of size 1 holds a signal
  pub flush_nonce_queue : Bool
  pub nonce_queue : List ℕ
  pub outbound_queue : List ℕ
  pub inbound_queue : List ℕ
  pub packet_in_nonce_queue_is_awaiting_key : Bool
  pub mac : CookieGenerator

pub record Device : Type 0 where
  pub is_up : Bool
  pub is_closed : Bool
  pub changing : Bool
  pub current : Bool
  pub bind : Option ℕ
  pub port : ℕ  -- uint16
  pub fwmark : ℕ  -- uint32
  pub noise : NoiseKeys
  pub routing : RoutingTable
  pub key_map : List (List ℕ × ℕ)
  pub peers : ℕ → Peer
  pub indices : IndexTable
  pub heap : Heap
  pub mac : CookieChecker
  pub under_load_until : ℕ
  pub limiter : Ratelimiter
  pub handshake_queue : List ℕ

abbrev pub put_peer : Device → ℕ → Peer → Device
put_peer d number peer = record d { peers = λ n. if n == number then peer else d.peers n }

-- The map `device.peers.keyMap`, which has a key at most once.
unfoldable pub key_map_lookup : List (List ℕ × ℕ) → List ℕ → Option ℕ
key_map_lookup [] key = none
key_map_lookup ((k, number) ∷ entries) key =
    if bytes_eq k key then some number else key_map_lookup entries key

unfoldable pub key_map_delete : List (List ℕ × ℕ) → List ℕ → List (List ℕ × ℕ)
key_map_delete [] key = []
key_map_delete ((k, number) ∷ entries) key =
    if bytes_eq k key then key_map_delete entries key else (k, number) ∷ key_map_delete entries key

-- Device.LookupPeer.
unfoldable pub lookup_peer : Device → List ℕ → Option ℕ
unfolding key_map_lookup
lookup_peer d pk = key_map_lookup d.key_map pk

-- What a peer and the device share with the handshake and key pair code.
abbrev pub session_of : Device → ℕ → Session
session_of d number = record {
  handshake = (d.peers number).handshake;
  indices = d.indices;
  heap = d.heap;
  keypairs = (d.peers number).keypairs;
}

abbrev pub put_session : Device → ℕ → Session → Device
put_session d number s =
    record (put_peer d number
      (record (d.peers number) { handshake = s.handshake; keypairs = s.keypairs })) {
        indices = s.indices;
        heap = s.heap;
      }
