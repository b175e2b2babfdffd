-- ===== src/Send/Sequential.antt =====
-- The encryption workers and the sequential sender of send.go, one function per turn of a loop.
use wireguard_go.Base.{
  ℕ, ◌+◌, ◌%◌, ◌^◌, Bool, true, Option, none, some, List, length, ◌==◌, if◌then◌else◌,
}
use wireguard_go.Crypto.{Crypto}
use wireguard_go.Timers.{timers_data_sent, timers_any_authenticated_packet_traversal}
use wireguard_go.Queue.{unlock, is_dropped}
use wireguard_go.Packet.{encrypt}
use wireguard_go.Traffic.{Traffic, peer_of, update_peer, is_active, put}
use wireguard_go.Send.{Draws, send_buffer, keep_key_fresh_sending}

module _ (c : Crypto) where
  -- RoutineEncryption with an element that it has taken, and the MTU.
  unfoldable pub encrypt_with : Option ℕ → ℕ → ℕ → Traffic → Traffic
  unfolding encrypt
  encrypt_with none element mtu w = w
  encrypt_with (some key) element mtu w =
      let elem = w.outbound element in
      let k = w.device.heap key in
      record w {
        outbound =
            put w.outbound element
              (record elem { packet = encrypt c k.send k.remote_index mtu elem.nonce elem.packet });
        outbound_flags = unlock element w.outbound_flags;
      }

  unfoldable pub encrypt_element : ℕ → ℕ → Traffic → Traffic
  unfolding encrypt_with
  encrypt_element element mtu w =
      let done = encrypt_with (w.outbound element).key_pair element mtu w in
      if is_dropped w.outbound_flags element then w else done

  -- RoutineSequentialSender with an element that it has taken, and whose mutex is free: `ok` is the
  -- answer to the packet, `ok'` to a handshake initiation.
  unfoldable pub count_sent : ℕ → Draws → Bool → List ℕ → Traffic → Option Traffic
  unfolding keep_key_fresh_sending
  count_sent number draws ok packet w =
      let peer = peer_of w number in
      let active = is_active w number in
      let t =
        timers_any_authenticated_packet_traversal active peer.persistent_keepalive_interval
          peer.timers in
      let t' =
        if length packet == 32
        then t
        else timers_data_sent active peer.persistent_keepalive_interval t in
      keep_key_fresh_sending c number draws ok (
        update_peer w number
          (record peer { tx_bytes = (peer.tx_bytes + length packet) % 2 ^ 64; timers = t' }))

  unfoldable pub send_element : ℕ → ℕ → Draws → Bool → Bool → Traffic → Option Traffic
  unfolding send_buffer count_sent
  send_element number element draws ok ok' w =
      let flags = record (w.outbound_flags element) { locked = true } in
      let locked = record w { outbound_flags = put w.outbound_flags element flags } in
      let packet = (w.outbound element).packet in
      let (w', sent) = send_buffer number ok packet locked in
      let counted = count_sent number draws ok' packet w' in
      if is_dropped w.outbound_flags element then some locked else if sent then counted else some w'
