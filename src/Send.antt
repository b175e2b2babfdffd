-- ===== src/Send.antt =====
-- send.go and SendBuffer of peer.go: the peers' goroutines that send, one function per turn of a
-- loop. `none`: NewIndex has used up the random draws given.
pub mod Nonces
pub mod Sequential
use wireguard_go.Base.{
  ℕ, ◌+◌, ◌-◌, ◌%◌, ◌^◌, Bool, true, false, not, ◌&&◌, ◌||◌, Option, none, some, List, [], ◌∷◌,
  length, ltb, leb, ◌==◌, if◌then◌else◌, is_some,
}
use wireguard_go.Base.Do.{◌>>=◌, guard}
use wireguard_go.Base.Clock.{exceeds, sub_time}
use wireguard_go.Constants.{
  rekey_after_messages, rekey_after_time, reject_after_messages, reject_after_time, rekey_timeout,
  max_content_size, queue_outbound_size,
}
use wireguard_go.Index.{Round}
use wireguard_go.Crypto.{Crypto}
use wireguard_go.Noise.{Created, created, refused, waiting, MessageInitiation}
use wireguard_go.Noise.Initiation.{create_message_initiation}
use wireguard_go.Keypair.{Keypair, Keypairs, Heap, store}
use wireguard_go.Cookie.{add_macs}
use wireguard_go.Timers
use wireguard_go.Timers.{is_less, timers_data_sent, timers_any_authenticated_packet_traversal}
use wireguard_go.Queue.{Flags, add_to_outbound_queue, add_to_encryption_queue, unlock, is_dropped}
use wireguard_go.Packet.{encrypt, destination}
use wireguard_go.Message.{encode_initiation}
use wireguard_go.Device.{Endpoint, Peer, Device}
use wireguard_go.Traffic.{
  put_created, put_mac, Outbound, Traffic, peer_of, update_peer, update_timers, is_active, put,
}

-- What a call that may send a handshake initiation draws: the clock, the jitter of the timer, the
-- randomness of the ephemeral key and of NewIndex, and the timestamp.
pub record Draws : Type 0 where
  pub now : ℕ
  pub jitter : ℕ
  pub rand : List ℕ × Bool
  pub rounds : List Round
  pub timestamp : List ℕ

-- SendBuffer: `ok` is what the bind's Send answers. The result says whether there was no error.
unfoldable pub send_to : Option ℕ → Option Endpoint → Bool → List ℕ → Traffic → Traffic × Bool
send_to none endpoint ok packet w = (w, false)
send_to (some bind) none ok packet w = (w, false)
send_to (some bind) (some e) ok packet w =
    (record w { sent = (Endpoint.dst e, packet) ∷ w.sent }, ok)

unfoldable pub send_buffer : ℕ → Bool → List ℕ → Traffic → Traffic × Bool
unfolding send_to
send_buffer number ok packet w = send_to w.device.bind (peer_of w number).endpoint ok packet w

-- FlushNonceQueue: the channel of the signal has room for one.
unfoldable pub flush_nonce_queue : ℕ → Traffic → Traffic
flush_nonce_queue number w =
    update_peer w number (record (peer_of w number) { flush_nonce_queue = true })

-- SendKeepalive of a peer that is running, with the address of a new element.
unfoldable pub send_keepalive : ℕ → ℕ → Traffic → Traffic × Bool
send_keepalive number element w =
    let peer = peer_of w number in
    let elem : Outbound = record { packet = []; nonce = 0; key_pair = none; peer = none } in
    let queued = record w { outbound = put w.outbound element elem } in
    if not (length peer.nonce_queue == 0) || peer.packet_in_nonce_queue_is_awaiting_key
    then (w, false)
    else (update_peer queued number (record peer { nonce_queue = element ∷ [] }), true)

-- addToOutboundQueue of the peer's nonce queue.
unfoldable pub add_nonce : ℕ → ℕ → Traffic → Option Traffic
add_nonce number element w = do
  (queue, flags) ← add_to_outbound_queue (peer_of w number).nonce_queue element w.outbound_flags
  some (
      update_peer (record w { outbound_flags = flags }) number
        (record (peer_of w number) { nonce_queue = queue }))

module _ (c : Crypto) where
  -- SendHandshakeInitiation after CreateMessageInitiation: the timers are those that the call leaves.
  unfoldable pub initiated : ℕ → ℕ → Bool → Created MessageInitiation → Traffic → Option Traffic
  unfolding encode_initiation send_buffer
  initiated number now ok (waiting hs table) w = none
  initiated number now ok (refused error hs table) w = some (put_created number hs table w)
  initiated number now ok (created msg hs table) w = do
    (packet, mac) ← add_macs c (peer_of w number).mac (encode_initiation msg) now
    some (send_buffer number ok packet (put_mac number mac (put_created number hs table w))).0

  unfoldable pub is_created : Created MessageInitiation → Bool
  is_created (created msg hs table) = true
  is_created (refused error hs table) = false
  is_created (waiting hs table) = false

  -- SendHandshakeInitiation. The timers run before the message is marshalled; neither reads what the
  -- other writes.
  unfoldable pub send_handshake_initiation : ℕ → Bool → Draws → Bool → Traffic → Option Traffic
  unfolding initiated is_created
  send_handshake_initiation number is_retry draws ok w =
      let peer = peer_of w number in
      let made =
        create_message_initiation c w.device.noise number peer.handshake w.device.indices draws.rand
          draws.rounds draws.timestamp in
      let (t, out) =
        Timers.send_handshake_initiation (is_active w number) peer.persistent_keepalive_interval
          is_retry draws.now (is_created made) draws.jitter peer.timers in
      let w' = update_timers w number t in
      let go = initiated number draws.now ok made w' in
      if is_less (sub_time draws.now peer.timers.last_sent_handshake) rekey_timeout
      then some w'
      else go

  -- keepKeyFreshSending.
  unfoldable pub is_stale : Heap → Option ℕ → ℕ → Bool
  is_stale heap none now = false
  is_stale heap (some key) now =
      ltb rekey_after_messages (heap key).send_nonce
      || ((heap key).is_initiator && exceeds (sub_time now (heap key).created) rekey_after_time)

  unfoldable pub keep_key_fresh_sending : ℕ → Draws → Bool → Traffic → Option Traffic
  unfolding is_stale send_handshake_initiation
  keep_key_fresh_sending number draws ok w =
      let sent = send_handshake_initiation number false draws ok w in
      if is_stale w.device.heap (peer_of w number).keypairs.current draws.now then sent else some w

  -- "insert into nonce/pre-handshake queue"
  unfoldable pub stage : ℕ → ℕ → Draws → Bool → Traffic → Option Traffic
  unfolding send_handshake_initiation add_nonce
  stage number element draws ok w =
      let asked = send_handshake_initiation number false draws ok w in
      if not (peer_of w number).is_running
      then some w
      else if (peer_of w number).packet_in_nonce_queue_is_awaiting_key
      then asked >>= add_nonce number element
      else add_nonce number element w

  unfoldable pub stage_for : Option ℕ → ℕ → Draws → Bool → Traffic → Option Traffic
  unfolding stage
  stage_for none element draws ok w = some w
  stage_for (some number) element draws ok w = stage number element draws ok w

  -- RoutineReadFromTUN with a packet that the interface has given without an error.
  unfoldable pub read_from_tun : ℕ → List ℕ → Draws → Bool → Traffic → Option Traffic
  unfolding stage_for
  read_from_tun element packet draws ok w =
      let elem = record (w.outbound element) { packet = packet } in
      let w' = record w { outbound = put w.outbound element elem } in
      let go = stage_for (destination w.device.routing packet) element draws ok w' in
      if length packet == 0 || ltb max_content_size (length packet) then some w else go

-- RoutineNonce: the current key pair, if it may be used.
unfoldable pub usable : Heap → Option ℕ → ℕ → Option ℕ
usable heap none now = none
usable heap (some key) now =
    if ltb (heap key).send_nonce reject_after_messages
      && is_less (sub_time now (heap key).created) reject_after_time
    then some key
    else none

unfoldable pub usable_keypair : Traffic → ℕ → ℕ → Option ℕ
unfolding usable
usable_keypair w number now = usable w.device.heap (peer_of w number).keypairs.current now

-- `atomic.AddUint64(&keyPair.sendNonce, 1) - 1`
unfoldable pub next_nonce : Heap → ℕ → ℕ × Heap
unfolding store
next_nonce heap key =
    let k = heap key in
    (k.send_nonce, store heap key (record k { send_nonce = (k.send_nonce + 1) % 2 ^ 64 }))

-- "add to parallel and sequential queue"
unfoldable pub add_work : ℕ → ℕ → Traffic → Option Traffic
add_work number element w = do
  (encryption, flags) ← add_to_encryption_queue w.encryption_queue element w.outbound_flags
  (queue, flags') ← add_to_outbound_queue (peer_of w number).outbound_queue element flags
  some (
      update_peer (record w { outbound_flags = flags'; encryption_queue = encryption }) number
        (record (peer_of w number) { outbound_queue = queue }))

-- The nonce for an element, which the peer's key pair counts.
unfoldable pub take_nonce : ℕ → ℕ → Traffic → ℕ × Traffic
unfolding next_nonce
take_nonce number key w0 =
    let w =
      update_peer w0 number
        (record (peer_of w0 number) { packet_in_nonce_queue_is_awaiting_key = false }) in
    let (nonce, heap) = next_nonce w.device.heap key in
    (nonce, record w { device = record w.device { heap = heap } })

-- The fields of the work element.
unfoldable pub fill : ℕ → ℕ → ℕ → ℕ → Traffic → Traffic
fill number element key nonce w =
    let elem = record (w.outbound element) {
      peer = some number;
      nonce = nonce;
      key_pair = some key;
    } in
    let flags : Flags = record { dropped = false; locked = true } in
    record w {
      outbound = put w.outbound element elem;
      outbound_flags = put w.outbound_flags element flags;
    }

-- "populate work element", and to both queues.
unfoldable pub populate : ℕ → ℕ → ℕ → Traffic → Option Traffic
unfolding take_nonce fill add_work
populate number element key w0 =
    let (nonce, w) = take_nonce number key w0 in
    let queued = add_work number element (fill number element key nonce w) in
    if leb reject_after_messages nonce then some w else queued

-- How the work on an element ends: it is passed on or given up, or it waits for a key pair.
pub data Nonce : Type 0 where
  passed : Traffic → Nonce
  awaiting : Traffic → Nonce
  stuck : Nonce

-- The outcome of the two calls; `stuck` is where they have not returned.
unfoldable pub outcome : (Traffic → Nonce) → Option Traffic → Nonce
outcome end none = stuck
outcome end (some w) = end w

module _ (c : Crypto) where
  unfoldable pub await_key : ℕ → Draws → Bool → Traffic → Nonce
  unfolding send_handshake_initiation outcome
  await_key number draws ok w =
      let peer = record (peer_of w number) {
        packet_in_nonce_queue_is_awaiting_key = true;
        new_keypair_arrived = false;
      } in
      outcome awaiting
        (send_handshake_initiation c number false draws ok (update_peer w number peer))

  unfoldable pub use_keypair : Option ℕ → ℕ → ℕ → Draws → Bool → Traffic → Nonce
  unfolding await_key populate outcome
  use_keypair none number element draws ok w = await_key number draws ok w
  use_keypair (some key) number element draws ok w = outcome passed (populate number element key w)

  -- A turn of "wait for key pair" with the element that the worker holds.
  unfoldable pub wait_for_keypair : ℕ → ℕ → Draws → Bool → Traffic → Nonce
  unfolding use_keypair usable_keypair
  wait_for_keypair number element draws ok w =
      use_keypair (usable_keypair w number draws.now) number element draws ok w

-- The signal flushNonceQueue, while the worker waits: it gives up its element and all that is queued.
unfoldable pub flush_nonces : ℕ → Traffic → Traffic
flush_nonces number w = update_peer w number (record (peer_of w number) {
  flush_nonce_queue = false;
  nonce_queue = [];
  packet_in_nonce_queue_is_awaiting_key = false;
})
