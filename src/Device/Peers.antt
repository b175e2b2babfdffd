-- ===== src/Device/Peers.antt =====
-- Peers start, stop, come and go: peer.go, and the peer map of device.go. Waiting for a peer's
-- goroutines leaves no trace; a peer starts with empty queues.
use wireguard_go.Base.{
  ℕ, true, false, not, Option, none, some, List, [], ◌∷◌, length, ltb, if◌then◌else◌, is_some,
  replicate,
}
use wireguard_go.Constants.{max_peers}
use wireguard_go.Routing
use wireguard_go.Crypto.{Crypto, shared_secret}
use wireguard_go.Noise.{zeroed, Handshake, zero_key}
use wireguard_go.Cookie.{CookieGenerator, init_generator}
use wireguard_go.Timers.{PeerTimers, new_timer, timers_init, timers_stop, expired_zero_key_material}
use wireguard_go.Device.{
  Peer, Device, put_peer, key_map_delete, lookup_peer, session_of, put_session,
}

-- Peer.Start, with the clock that timersInit reads.
unfoldable pub start : ℕ → ℕ → Device → Device
unfolding timers_init
start now number d =
    let peer = d.peers number in
    if d.is_closed
    then d
    else if peer.is_running
    then d
    else put_peer d number (record peer {
      is_running = true;
      timers = timers_init now peer.timers;
      nonce_queue = [];
      outbound_queue = [];
      inbound_queue = [];
      new_keypair_arrived = false;
      flush_nonce_queue = false;
    })

-- Peer.Stop. The nonce worker resets its flag at its end. "clear key pairs" and "clear handshake
-- state" are what the zeroKeyMaterial timer does.
unfoldable pub stop : ℕ → Device → Device
unfolding timers_stop expired_zero_key_material
stop number d =
    let peer = d.peers number in
    let stopped =
      put_peer d number (record peer { is_running = false; timers = timers_stop peer.timers }) in
    let cleared = put_session stopped number (expired_zero_key_material (session_of d number)) in
    if not peer.is_running
    then d
    else put_peer cleared number (record (cleared.peers number) {
      flush_nonce_queue = true;
      packet_in_nonce_queue_is_awaiting_key = false;
    })

-- unsafeRemovePeer.
unfoldable pub unsafe_remove_peer : ℕ → List ℕ → Device → Device
unfolding stop key_map_delete
unsafe_remove_peer number key d =
    let unrouted = record d { routing = Routing.remove_peer d.routing number } in
    let stopped = stop number unrouted in
    record stopped { key_map = key_map_delete stopped.key_map key }

unfoldable pub remove_found : Option ℕ → List ℕ → Device → Device
unfolding unsafe_remove_peer
remove_found none key d = d
remove_found (some number) key d = unsafe_remove_peer number key d

-- Device.RemovePeer.
unfoldable pub remove_peer : List ℕ → Device → Device
unfolding lookup_peer remove_found
remove_peer key d = remove_found (lookup_peer d key) key d

unfoldable pub remove_each : List (List ℕ × ℕ) → Device → Device
unfolding unsafe_remove_peer
remove_each [] d = d
remove_each ((key, number) ∷ entries) d = remove_each entries (unsafe_remove_peer number key d)

-- Device.RemoveAllPeers.
unfoldable pub remove_all_peers : Device → Device
unfolding remove_each
remove_all_peers d = record (remove_each d.key_map d) { key_map = [] }

-- Go's zero value of what a peer holds.
abbrev pub zero_timers : PeerTimers
zero_timers = record {
  retransmit_handshake = new_timer;
  send_keepalive = new_timer;
  new_handshake = new_timer;
  zero_key_material = new_timer;
  persistent_keepalive = new_timer;
  handshake_attempts = 0;
  need_another_keepalive = false;
  sent_last_minute_handshake = false;
  last_sent_handshake = 0;
  last_handshake_nano = 0;
}

abbrev pub zero_handshake : Handshake
zero_handshake = record {
  state = zeroed;
  hash = zero_key;
  chain_key = zero_key;
  preshared_key = zero_key;
  local_ephemeral = zero_key;
  local_index = 0;
  remote_index = 0;
  remote_static = zero_key;
  remote_ephemeral = zero_key;
  precomputed_static_static = zero_key;
  last_timestamp = replicate 12 0;
  last_initiation_consumption = 0;
}

abbrev pub zero_generator : CookieGenerator
zero_generator = record {
  mac1_key = zero_key;
  cookie = replicate 16 0;
  cookie_set = 0;
  has_last_mac1 = false;
  last_mac1 = replicate 16 0;
  encryption_key = zero_key;
}

abbrev pub zero_peer : Peer
zero_peer = record {
  is_running = false;
  keypairs = record { current = none; previous = none; next = none };
  handshake = zero_handshake;
  endpoint = none;
  persistent_keepalive_interval = 0;
  tx_bytes = 0;
  rx_bytes = 0;
  timers = zero_timers;
  new_keypair_arrived = false;
  flush_nonce_queue = false;
  nonce_queue = [];
  outbound_queue = [];
  inbound_queue = [];
  packet_in_nonce_queue_is_awaiting_key = false;
  mac = zero_generator;
}

-- "create peer", "map public key" and "pre-compute DH", at the address `number`.
unfoldable pub map_peer : Crypto → ℕ → List ℕ → Device → Device
unfolding init_generator
map_peer c number pk d =
    let handshake = record zero_handshake {
      remote_static = pk;
      precomputed_static_static = shared_secret c d.noise.private_key pk;
    } in
    let peer = record zero_peer {
      mac = init_generator c zero_generator pk;
      handshake = handshake;
    } in
    record (put_peer d number peer) { key_map = (pk, number) ∷ d.key_map }

-- Device.NewPeer: `number` is the address of the new peer. `none` is an error.
unfoldable pub new_peer : Crypto → ℕ → ℕ → List ℕ → Device → Option Device
unfolding lookup_peer start map_peer
new_peer c now number pk d =
    let mapped = map_peer c number pk d in
    if d.is_closed
    then none
    else if not (ltb (length d.key_map) max_peers)
    then none
    else if is_some (lookup_peer d pk)
    then none
    else if d.is_up
    then some (start now number mapped)
    else some mapped
