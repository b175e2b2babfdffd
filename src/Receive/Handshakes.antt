-- ===== src/Receive/Handshakes.antt =====
-- RoutineHandshake of receive.go, one turn of its loop.
use wireguard_go.Base.{ℕ, Bool, true, false, Option, none, some, List, ◌∷◌, ◌==◌, if◌then◌else◌}
use wireguard_go.Base.Do.{◌>>=◌}
use wireguard_go.Base.Endian.{little_endian}
use wireguard_go.Index.{Round, lookup}
use wireguard_go.Ratelimiter
use wireguard_go.Crypto.{Crypto}
use wireguard_go.Noise.{
  Handshake, MessageInitiation, MessageResponse, Created, created, refused, waiting,
}
use wireguard_go.Noise.Initiation.{consume_message_initiation}
use wireguard_go.Noise.Response.{create_message_response, consume_message_response}
use wireguard_go.Keypair.{new_keypair}
use wireguard_go.Cookie.{
  MessageCookieReply, check_mac1, check_mac2, Replied, replied, no_randomness, panic, create_reply,
  add_macs, consume_reply,
}
use wireguard_go.Timers.{
  timers_any_authenticated_packet_traversal, timers_any_authenticated_packet_received,
  timers_session_derived, timers_handshake_complete,
}
use wireguard_go.Message.{
  field, decode_initiation, encode_response, decode_response, encode_cookie_reply,
  decode_cookie_reply,
}
use wireguard_go.Device.{Endpoint, lookup_peer, session_of, put_session}
use wireguard_go.Device.State.{is_under_load}
use wireguard_go.Traffic.{
  HandshakeElement, Traffic, peer_of, update_peer, update_timers, update_endpoint, is_active,
}
use wireguard_go.Send.{send_buffer, send_keepalive}

-- The Endpoint's methods, and the forms of an address of package net.
pub record Addresses : Type 0 where
  pub dst_to_bytes : List ℕ → List ℕ
  pub dst_ip : List ℕ → List ℕ
  pub to4 : List ℕ → Option (List ℕ)
  pub to16 : List ℕ → List ℕ

-- What a turn draws: the clocks, the randomness of the cookie's secret and nonce, of the ephemeral
-- key and of NewIndex, the addresses of a new key pair and a new element, and the bind's answer.
pub record HandshakeDraws : Type 0 where
  pub now : ℕ
  pub unix_nano : ℕ
  pub secret : List ℕ × Bool
  pub cookie_nonce : List ℕ × Bool
  pub rand : List ℕ × Bool
  pub rounds : List Round
  pub keypair : ℕ
  pub element : ℕ
  pub ok : Bool

-- How a turn ends: the worker goes on, or has returned, or the turn has not come to an end.
pub data Turn : Type 0 where
  next exited : Traffic → Turn
  failed : Turn

unfoldable pub turn : Option Traffic → Turn
turn none = failed
turn (some w) = next w

-- timersAnyAuthenticatedPacketTraversal and timersAnyAuthenticatedPacketReceived.
unfoldable pub authenticated : ℕ → Traffic → Traffic
unfolding timers_any_authenticated_packet_traversal timers_any_authenticated_packet_received
authenticated number w =
    let peer = peer_of w number in
    let active = is_active w number in
    let interval = peer.persistent_keepalive_interval in
    update_timers w number (
      timers_any_authenticated_packet_received active interval
        (timers_any_authenticated_packet_traversal active interval peer.timers))

unfoldable pub put_handshake : ℕ → Handshake → Traffic → Traffic
put_handshake number hs w = update_peer w number (record (peer_of w number) { handshake = hs })

module _ (c : Crypto) where
  -- A cookie reply for the peer of its index, if there is one and it is running.
  unfoldable pub reply_for : Option ℕ → MessageCookieReply → ℕ → Traffic → Traffic
  reply_for none reply now w = w
  reply_for (some number) reply now w =
      let peer = peer_of w number in
      if peer.is_running
      then update_peer w number (record peer { mac = (consume_reply c peer.mac reply now).0 })
      else w

  -- "unmarshal packet": the worker returns where a cookie reply cannot be decoded.
  unfoldable pub handle_cookie_reply : Option MessageCookieReply → ℕ → Traffic → Turn
  unfolding reply_for
  handle_cookie_reply none now w = exited w
  handle_cookie_reply (some reply) now w =
      next (reply_for (lookup w.device.indices reply.receiver).peer reply now w)

  -- NewKeypair with the timer that it starts.
  unfoldable pub derive : ℕ → ℕ → ℕ → Traffic → Option Traffic
  unfolding new_keypair timers_session_derived
  derive number now keypair w =
      elim (new_keypair c number now keypair (session_of w.device number)) [
        | none ↦ none
        | some s ↦
            let w' = record w { device = put_session w.device number s } in
            let peer = peer_of w' number in
            some (
              update_timers w' number (
                timers_session_derived (is_active w number) peer.persistent_keepalive_interval
                  peer.timers))
      ]

  -- "send response", to a peer with a new key pair.
  unfoldable pub answer : ℕ → HandshakeDraws → MessageResponse → Traffic → Option Traffic
  unfolding encode_response add_macs send_buffer timers_any_authenticated_packet_traversal
  answer number draws response w = do
    (packet, mac) ← add_macs c (peer_of w number).mac (encode_response response) draws.now
    let t = (peer_of w number).timers
    let peer = record (peer_of w number) {
      mac = mac;
      timers = record t { last_sent_handshake = draws.now };
    }
    let (w', sent) = send_buffer number draws.ok packet (update_peer w number peer)
    let t' =
        timers_any_authenticated_packet_traversal (is_active w' number)
          peer.persistent_keepalive_interval peer.timers
    some (if sent then update_timers w' number t' else w')

  -- "create response", "derive key-pair" and the answer.
  unfoldable pub respond : ℕ → HandshakeDraws → Created MessageResponse → Traffic → Option Traffic
  unfolding derive answer put_handshake
  respond number draws (waiting hs table) w = none
  respond number draws (refused error hs table) w =
      some (put_handshake number hs (record w { device = record w.device { indices = table } }))
  respond number draws (created msg hs table) w =
      let w' =
        put_handshake number hs (record w { device = record w.device { indices = table } }) in
      elim (derive number draws.now draws.keypair w') [
        | none ↦ some w'
        | some w'' ↦ answer number draws msg w''
      ]

  unfoldable pub accept_initiation :
      Option (ℕ × Handshake) → Endpoint → HandshakeDraws → Traffic → Option Traffic
  unfolding respond put_handshake authenticated
  accept_initiation none endpoint draws w = some w
  accept_initiation (some (number, hs)) endpoint draws w =
      let w' = update_endpoint number endpoint (authenticated number (put_handshake number hs w)) in
      let made =
        create_message_response c number (peer_of w' number).handshake w'.device.indices
          draws.rounds draws.rand in
      respond number draws made w'

  unfoldable pub handle_initiation :
      Option MessageInitiation → Endpoint → HandshakeDraws → Traffic → Option Traffic
  unfolding accept_initiation
  handle_initiation none endpoint draws w = some w
  handle_initiation (some msg) endpoint draws w =
      let consumed =
        consume_message_initiation c w.device.noise (lookup_peer w.device)
          (λ n. (peer_of w n).handshake) draws.now draws.now msg in
      accept_initiation consumed endpoint draws w

  -- The end of a handshake that this side has begun.
  unfoldable pub complete : ℕ → HandshakeDraws → Traffic → Traffic
  unfolding timers_handshake_complete send_keepalive
  complete number draws w =
      let peer = peer_of w number in
      let t =
        timers_handshake_complete (is_active w number) peer.persistent_keepalive_interval
          draws.unix_nano peer.timers in
      let w' = (send_keepalive number draws.element (update_timers w number t)).0 in
      update_peer w' number (record (peer_of w' number) { new_keypair_arrived = true })

  -- A response that ConsumeMessageResponse accepts, of the peer that the index table names.
  unfoldable pub accept_response :
      Option (Option ℕ × ℕ × Handshake) → Endpoint → HandshakeDraws → Traffic → Traffic
  unfolding derive complete put_handshake authenticated
  accept_response none endpoint draws w = w
  accept_response (some (none, owner, hs)) endpoint draws w = put_handshake owner hs w
  accept_response (some (some number, owner, hs)) endpoint draws w =
      let w' = authenticated number (update_endpoint number endpoint (put_handshake owner hs w)) in
      elim (derive number draws.now draws.keypair w') [
        | none ↦ w'
        | some w'' ↦ complete number draws w''
      ]

  unfoldable pub handle_response :
      Option MessageResponse → Endpoint → HandshakeDraws → Traffic → Traffic
  unfolding accept_response
  handle_response none endpoint draws w = w
  handle_response (some msg) endpoint draws w =
      let consumed =
        consume_message_response c w.device.noise w.device.indices (λ n. (peer_of w n).handshake)
          msg in
      accept_response consumed endpoint draws w

-- The cookie reply goes to the source of the packet; without a bind there is a panic.
unfoldable pub send_reply : Option ℕ → List ℕ → Replied → Traffic → Option Traffic
unfolding encode_cookie_reply
send_reply bind dst panic w = none
send_reply bind dst no_randomness w = some w
send_reply none dst (replied reply) w = none
send_reply (some sockets) dst (replied reply) w =
    some (record w { sent = (dst, encode_cookie_reply reply) ∷ w.sent })

-- Whether a message gets to the handshake code.
pub data Gate : Type 0 where
  admitted dismissed : Traffic → Gate
  broken : Gate

unfoldable pub dismiss : Option Traffic → Gate
dismiss none = broken
dismiss (some w) = dismissed w

module _ (a : Addresses) where
  -- "check ratelimiter"
  unfoldable pub check_rate : List ℕ → ℕ → Traffic → Gate
  check_rate dst now w =
      let (limiter, allowed) = Ratelimiter.allow a.to4 a.to16 w.device.limiter (a.dst_ip dst) now in
      let w' = record w { device = record w.device { limiter = limiter } } in
      if allowed then admitted w' else dismissed w'

  module _ (c : Crypto) where
    -- "construct cookie reply", for a message without a valid cookie.
    unfoldable pub demand_cookie : List ℕ → Endpoint → HandshakeDraws → Traffic → Gate
    unfolding send_reply dismiss
    demand_cookie packet endpoint draws w =
        let (mac, made) =
          create_reply c w.device.mac packet (little_endian (field 4 4 packet))
            (a.dst_to_bytes (Endpoint.dst endpoint)) draws.secret draws.cookie_nonce draws.now
            draws.now in
        let w' = record w { device = record w.device { mac = mac } } in
        dismiss (send_reply w'.device.bind (Endpoint.dst endpoint) made w')

    unfoldable pub check_cookie : Option Bool → List ℕ → Endpoint → HandshakeDraws → Traffic → Gate
    unfolding demand_cookie check_rate
    check_cookie none packet endpoint draws w = broken
    check_cookie (some false) packet endpoint draws w = demand_cookie packet endpoint draws w
    check_cookie (some true) packet endpoint draws w =
        check_rate (Endpoint.dst endpoint) draws.now w

    -- "handle cookie fields and ratelimiting", with the answer of CheckMAC1.
    unfoldable pub check_load : Option Bool → List ℕ → Endpoint → HandshakeDraws → Traffic → Gate
    unfolding check_cookie is_under_load
    check_load none packet endpoint draws w = broken
    check_load (some false) packet endpoint draws w = dismissed w
    check_load (some true) packet endpoint draws w =
        let (device, loaded) = is_under_load draws.now w.device in
        let w' = record w { device = device } in
        let valid =
          check_mac2 c device.mac packet (a.dst_to_bytes (Endpoint.dst endpoint)) draws.now in
        if loaded then check_cookie valid packet endpoint draws w' else admitted w'

    -- "handle handshake initiation/response content"
    unfoldable pub handle_content : HandshakeElement → HandshakeDraws → Gate → Turn
    unfolding handle_initiation handle_response turn
    handle_content elem draws broken = failed
    handle_content elem draws (dismissed w) = next w
    handle_content elem draws (admitted w) =
        if elem.msg_type == 1
        then turn (handle_initiation c (decode_initiation elem.packet) elem.endpoint draws w)
        else next (handle_response c (decode_response elem.packet) elem.endpoint draws w)

    -- RoutineHandshake with an element that it has taken.
    unfoldable pub handle_handshake : HandshakeElement → HandshakeDraws → Traffic → Turn
    unfolding handle_cookie_reply check_load handle_content
    handle_handshake elem draws w =
        let gate =
          check_load (check_mac1 c w.device.mac elem.packet) elem.packet elem.endpoint draws w in
        let content = handle_content elem draws gate in
        if elem.msg_type == 3
        then handle_cookie_reply c (decode_cookie_reply elem.packet) draws.now w
        else if elem.msg_type == 1
        then content
        else if elem.msg_type == 2
        then content
        else next w
