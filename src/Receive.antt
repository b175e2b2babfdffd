-- ===== src/Receive.antt =====
-- receive.go: data packets on their way in, one function per turn of a loop. `none`: a panic, or
-- NewIndex has used up the random draws given. Handshakes holds RoutineHandshake.
pub mod Handshakes
pub mod Passed
pub mod Accepted
pub mod Gates
pub mod Delivery
use wireguard_go.Base.{
  ℕ, ◌+◌, ◌-◌, ◌%◌, ◌^◌, Bool, true, false, not, ◌&&◌, Option, none, some, List, [], ◌∷◌, length,
  drop, ltb, ◌==◌, if◌then◌else◌, points_to,
}
use wireguard_go.Base.Do.{◌>>=◌}
use wireguard_go.Base.Clock.{exceeds, sub_time}
use wireguard_go.Base.Endian.{little_endian}
use wireguard_go.Constants.{min_message_size, reject_after_time, keepalive_timeout, rekey_timeout}
use wireguard_go.Replay.{ReplayFilter, validate_counter}
use wireguard_go.Index.{IndexTableEntry, lookup}
use wireguard_go.Crypto.{Crypto}
use wireguard_go.Keypair.{Keypair, Heap, confirm}
use wireguard_go.Timers.{
  timers_handshake_complete, timers_any_authenticated_packet_traversal,
  timers_any_authenticated_packet_received, timers_data_received,
}
use wireguard_go.Queue.{
  Flags, add_to_inbound_queue, add_to_decryption_queue, add_to_handshake_queue, drop_element,
  unlock, is_dropped,
}
use wireguard_go.Packet.{message_transport_type, decrypt, strip}
use wireguard_go.Message.{
  field, message_initiation_size, message_response_size, message_cookie_reply_size,
}
use wireguard_go.Device.{Endpoint, Peer, Device, session_of, put_session}
use wireguard_go.Traffic.{
  Inbound, HandshakeElement, Traffic, peer_of, update_peer, update_timers, update_endpoint,
  is_active, put,
}
use wireguard_go.Send.{Draws, send_handshake_initiation}

-- RoutineReceiveIncoming: a transport message is for the decryption workers and the peer.
unfoldable pub add_inbound : ℕ → ℕ → Traffic → Option Traffic
add_inbound number element w = do
  (decryption, flags) ← add_to_decryption_queue w.decryption_queue element w.inbound_flags
  (queue, flags') ← add_to_inbound_queue (peer_of w number).inbound_queue element flags
  some (
      update_peer (record w { inbound_flags = flags'; decryption_queue = decryption }) number
        (record (peer_of w number) { inbound_queue = queue }))

-- A transport message for a key pair. An entry with a key pair has a peer, or there is a panic.
unfoldable pub receive_for : Option ℕ → ℕ → ℕ → ℕ → List ℕ → Endpoint → Traffic → Option Traffic
unfolding add_inbound
receive_for none key now element packet endpoint w =
    if ltb ((w.device.heap key).created + reject_after_time) now then some w else none
receive_for (some number) key now element packet endpoint w =
    let elem : Inbound = record {
      packet = packet;
      counter = 0;
      key_pair = key;
      endpoint = endpoint;
    } in
    let flags : Flags = record { dropped = false; locked = true } in
    let work = record w {
      inbound = put w.inbound element elem;
      inbound_flags = put w.inbound_flags element flags;
    } in
    let added = add_inbound number element work in
    if ltb ((w.device.heap key).created + reject_after_time) now
    then some w
    else if (peer_of w number).is_running
    then added
    else some w

unfoldable pub receive_transport :
    IndexTableEntry → ℕ → ℕ → List ℕ → Endpoint → Traffic → Option Traffic
unfolding receive_for
receive_transport entry now element packet endpoint w = elim entry.key_pair [
  | none ↦ some w
  | some key ↦ receive_for entry.peer key now element packet endpoint w
]

-- The sizes of the handshake related messages.
unfoldable pub is_handshake_message : ℕ → ℕ → Bool
is_handshake_message msg_type size =
    if msg_type == 1
    then size == message_initiation_size
    else if msg_type == 2
    then size == message_response_size
    else if msg_type == 3
    then size == message_cookie_reply_size
    else false

-- addToHandshakeQueue; the pool of the buffers that are free is not part of the traffic.
unfoldable pub add_handshake : ℕ → Traffic → Option Traffic
add_handshake element w = do
  (queue, pool) ← add_to_handshake_queue (λ e. e) w.device.handshake_queue element []
  some (record w { device = record w.device { handshake_queue = queue } })

-- RoutineReceiveIncoming with a datagram, and the address of a new element.
unfoldable pub receive_incoming : ℕ → ℕ → List ℕ → Endpoint → Traffic → Option Traffic
unfolding receive_transport is_handshake_message add_handshake
receive_incoming now element packet endpoint w =
    let msg_type = little_endian (field 0 4 packet) in
    let entry = lookup w.device.indices (little_endian (field 4 4 packet)) in
    let transport = receive_transport entry now element packet endpoint w in
    let elem : HandshakeElement = record {
      msg_type = msg_type;
      packet = packet;
      endpoint = endpoint;
    } in
    let handshake =
      add_handshake element (record w { handshakes = put w.handshakes element elem }) in
    if ltb (length packet) min_message_size
    then some w
    else if msg_type == message_transport_type
    then (if ltb (length packet) message_transport_type then some w else transport)
    else if is_handshake_message msg_type (length packet)
    then handshake
    else some w

module _ (c : Crypto) where
  -- The result of the AEAD goes into the element.
  unfoldable pub opened : ℕ → Option (List ℕ) → Inbound → Traffic → Traffic
  opened element none elem w = record w {
    inbound = put w.inbound element (record elem { packet = [] });
    inbound_flags = unlock element (drop_element element w.inbound_flags);
  }
  opened element (some content) elem w = record w {
    inbound = put w.inbound element (record elem { packet = content });
    inbound_flags = unlock element w.inbound_flags;
  }

  -- RoutineDecryption with an element that it has taken.
  unfoldable pub decrypt_element : ℕ → Traffic → Traffic
  unfolding decrypt opened
  decrypt_element element w =
      let elem = w.inbound element in
      let (counter, content) = decrypt c (w.device.heap elem.key_pair).receive elem.packet in
      let done = opened element content (record elem { counter = counter }) w in
      if is_dropped w.inbound_flags element then w else done

  -- keepKeyFreshReceiving.
  unfoldable pub is_expiring : Heap → Option ℕ → ℕ → Bool
  is_expiring heap none now = false
  is_expiring heap (some key) now =
      (heap key).is_initiator
      && exceeds (sub_time now (heap key).created)
          (reject_after_time - keepalive_timeout - rekey_timeout)

  unfoldable pub keep_key_fresh_receiving : ℕ → Draws → Bool → Traffic → Option Traffic
  unfolding is_expiring send_handshake_initiation
  keep_key_fresh_receiving number draws ok w =
      let t = (peer_of w number).timers in
      let marked = update_timers w number (record t { sent_last_minute_handshake = true }) in
      let asked = send_handshake_initiation c number false draws ok marked in
      if t.sent_last_minute_handshake
      then some w
      else if is_expiring w.device.heap (peer_of w number).keypairs.current draws.now
      then asked
      else some w

-- "check if using new key-pair", with the clock of timersHandshakeComplete.
unfoldable pub confirm_keypair : ℕ → ℕ → ℕ → Traffic → Traffic
unfolding confirm timers_handshake_complete
confirm_keypair number key unix_nano w =
    let device = put_session w.device number (confirm key (session_of w.device number)) in
    let w' = record w { device = device } in
    let peer = peer_of w' number in
    let t =
      timers_handshake_complete (is_active w number) peer.persistent_keepalive_interval unix_nano
        peer.timers in
    if points_to (peer_of w number).keypairs.next key
    then update_peer w' number (record peer { timers = t; new_keypair_arrived = true })
    else w

-- The network interface's part: strip the padding, count, and write. The answer of the interface is
-- only logged.
unfoldable pub deliver : ℕ → Option (List ℕ) → Traffic → Traffic
deliver number none w = w
deliver number (some packet) w =
    let peer = peer_of w number in
    record (update_peer w number
      (record peer { rx_bytes = (peer.rx_bytes + length packet) % 2 ^ 64 })) {
        written = packet ∷ w.written;
      }

-- The timers and the packet, after keepKeyFreshReceiving.
unfoldable pub accept : ℕ → List ℕ → Traffic → Traffic
unfolding deliver strip timers_any_authenticated_packet_traversal
    timers_any_authenticated_packet_received timers_data_received
accept number packet w =
    let peer = peer_of w number in
    let active = is_active w number in
    let interval = peer.persistent_keepalive_interval in
    let t =
      timers_any_authenticated_packet_received active interval
        (timers_any_authenticated_packet_traversal active interval peer.timers) in
    let kept = update_timers w number t in
    let counted = update_timers w number (timers_data_received active interval t) in
    let delivered = deliver number (strip w.device.routing number packet) counted in
    if length packet == 0 then kept else delivered

abbrev pub lock_inbound : ℕ → Traffic → Traffic
lock_inbound element w =
    let flags : Flags = record (w.inbound_flags element) { locked = true } in
    record w { inbound_flags = put w.inbound_flags element flags }

-- The replay filter that ValidateCounter leaves in the key pair.
abbrev pub keep_filter : ℕ → ReplayFilter → Traffic → Traffic
keep_filter key filter w =
    let k = record (w.device.heap key) { replay_filter = filter } in
    record w { device = record w.device { heap = λ n. if n == key then k else w.device.heap n } }

module _ (c : Crypto) where
  -- RoutineSequentialReceiver with an element that it has taken, and whose mutex is free.
  unfoldable pub receive_element : ℕ → ℕ → Draws → ℕ → Bool → Traffic → Option Traffic
  unfolding confirm_keypair keep_key_fresh_receiving accept
  receive_element number element draws unix_nano ok w =
      let elem = w.inbound element in
      let (filter, valid) =
        validate_counter (w.device.heap elem.key_pair).replay_filter elem.counter in
      let locked = lock_inbound element w in
      let checked = keep_filter elem.key_pair filter locked in
      let placed = update_endpoint number elem.endpoint checked in
      let confirmed = confirm_keypair number elem.key_pair unix_nano placed in
      let fresh = keep_key_fresh_receiving c number draws ok confirmed in
      let result = fresh >>= (λ v. some (accept number elem.packet v)) in
      if is_dropped w.inbound_flags element
      then some locked
      else if not valid
      then some checked
      else result
