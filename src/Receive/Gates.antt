-- ===== src/Receive/Gates.antt =====
-- Which handshake messages get through to the handshake code, and that no message of the sizes that
-- RoutineReceiveIncoming queues ends the worker.
use wireguard_go.Base.{
  ℕ, ◌≡◌, ◌≢◌, ◌⊎◌, refl, sym, ap, ◌∙◌, inl, inr, Bool, true, false, Option, none, some, List,
  length, ◌==◌, Bool-cases, arith, if◌then◌else◌,
}
use wireguard_go.Ratelimiter
use wireguard_go.Crypto.{Crypto}
use wireguard_go.Cookie.{check_mac1, check_mac2}
use wireguard_go.Message.{message_cookie_reply_size, decode_cookie_reply}
use wireguard_go.Device.{Endpoint}
use wireguard_go.Device.State.{is_under_load}
use wireguard_go.Traffic.{HandshakeElement, Traffic}
use wireguard_go.Receive.{is_handshake_message}
use wireguard_go.Receive.Handshakes.{
  Addresses, HandshakeDraws, Turn, next, exited, failed, turn, handle_cookie_reply, Gate, admitted,
  dismissed, broken, dismiss, check_rate, demand_cookie, check_cookie, check_load, handle_content,
  handle_handshake,
}

dismiss-dismissed : (o : Option Traffic) (w : Traffic) → dismiss o ≢ admitted w
unfolding dismiss
dismiss-dismissed none w h = absurd cc
dismiss-dismissed (some v) w h = absurd cc

admitted_if :
    (b : Bool) (x y w : Traffic) → (if b then admitted x else dismissed y) ≡ admitted w → b ≡ true
admitted_if true x y w h = refl
admitted_if false x y w h = absurd cc

-- `if` on two gates, the second of which is admitted anyway.
admitted_or :
    (b : Bool) (g g' : Gate) (w : Traffic)
    → (if b then g else g') ≡ admitted w
    → (b ≡ false) ⊎ (g ≡ admitted w)
admitted_or true g g' w h = inr h
admitted_or false g g' w h = inl refl

module _ (a : Addresses) (c : Crypto) where
  abbrev pub rate_allows : List ℕ → ℕ → Traffic → Bool
  rate_allows dst now w = (Ratelimiter.allow a.to4 a.to16 w.device.limiter (a.dst_ip dst) now).1

  check_rate-admitted :
      (dst : List ℕ) (now : ℕ) (w w' : Traffic)
      → check_rate a dst now w ≡ admitted w'
      → rate_allows dst now w ≡ true
  unfolding check_rate
  check_rate-admitted dst now w w' h = admitted_if (rate_allows dst now w) _ _ w' h

  demand_cookie-admitted :
      (packet : List ℕ) (e : Endpoint) (draws : HandshakeDraws) (w w' : Traffic)
      → demand_cookie a c packet e draws w ≢ admitted w'
  unfolding demand_cookie
  demand_cookie-admitted packet e draws w w' h = dismiss-dismissed _ w' h

  check_cookie-admitted :
      (m : Option Bool) (packet : List ℕ) (e : Endpoint) (draws : HandshakeDraws) (w w' : Traffic)
      → check_cookie a c m packet e draws w ≡ admitted w'
      → (m ≡ some true) × (rate_allows e.dst draws.now w ≡ true)
  unfolding check_cookie
  check_cookie-admitted none packet e draws w w' h = absurd cc
  check_cookie-admitted (some false) packet e draws w w' h =
      absurd (demand_cookie-admitted packet e draws w w' h)
  check_cookie-admitted (some true) packet e draws w w' h =
      (refl, check_rate-admitted e.dst draws.now w w' h)

  -- The device after the look at its load, and what it says.
  abbrev pub after_load : ℕ → Traffic → Traffic
  after_load now w = record w { device = (is_under_load now w.device).0 }

  check_load-admitted :
      (m : Option Bool) (packet : List ℕ) (e : Endpoint) (draws : HandshakeDraws) (w w' : Traffic)
      → check_load a c m packet e draws w ≡ admitted w'
      → (m ≡ some true)
        × (((is_under_load draws.now w.device).1 ≡ false)
            ⊎ ((check_mac2 c
                    (is_under_load draws.now w.device).0.mac
                    packet
                    (a.dst_to_bytes e.dst)
                    draws.now
                  ≡ some true)
                × (rate_allows e.dst draws.now (after_load draws.now w) ≡ true)))
  unfolding check_load
  check_load-admitted none packet e draws w w' h = absurd cc
  check_load-admitted (some false) packet e draws w w' h = absurd cc
  check_load-admitted (some true) packet e draws w w' h = (
    refl,
    elim (admitted_or (is_under_load draws.now w.device).1 _ _ w' h) [
      | inl calm ↦ inl calm
      | inr checked ↦
          inr (check_cookie-admitted _ packet e draws (after_load draws.now w) w' checked)
    ],
  )

  -- A message that RoutineHandshake lets through to the handshake code has a valid mac1, and under
  -- load it also has a valid mac2, for its source address, and the rate limiter allows its source.
  pub admitted_only :
      (elem : HandshakeElement) (draws : HandshakeDraws) (w w' : Traffic)
      → check_load a c (check_mac1 c w.device.mac elem.packet) elem.packet elem.endpoint draws w
        ≡ admitted w'
      → (check_mac1 c w.device.mac elem.packet ≡ some true)
        × (((is_under_load draws.now w.device).1 ≡ false)
            ⊎ ((check_mac2 c
                    (is_under_load draws.now w.device).0.mac
                    elem.packet
                    (a.dst_to_bytes elem.endpoint.dst)
                    draws.now
                  ≡ some true)
                × (rate_allows elem.endpoint.dst draws.now (after_load draws.now w) ≡ true)))
  admitted_only elem draws w w' h =
      check_load-admitted (check_mac1 c w.device.mac elem.packet) elem.packet elem.endpoint draws w
        w' h

abbrev exits : Turn → Bool
exits (next w) = false
exits (exited w) = true
exits failed = false

exits-if :
    (b : Bool) (x y : Turn) → exits x ≡ false → exits y ≡ false → exits (if b then x else y) ≡ false
exits-if true x y h k = h
exits-if false x y h k = k

exits-turn : (o : Option Traffic) → exits (turn o) ≡ false
unfolding turn
exits-turn none = refl
exits-turn (some w) = refl

reply_size :
    (msg_type size : ℕ)
    → (msg_type == 3) ≡ true
    → is_handshake_message msg_type size ≡ true
    → size ≡ message_cookie_reply_size
unfolding is_handshake_message
reply_size msg_type size reply sized = ground arith

module _ (a : Addresses) (c : Crypto) where
  exits-handle_content :
      (elem : HandshakeElement) (draws : HandshakeDraws) (gate : Gate)
      → exits (handle_content a c elem draws gate) ≡ false
  unfolding handle_content
  exits-handle_content elem draws broken = refl
  exits-handle_content elem draws (dismissed w) = refl
  exits-handle_content elem draws (admitted w) =
      exits-if (elem.msg_type == 1) _ _ (exits-turn _) refl

  exits-handle_cookie_reply :
      (packet : List ℕ) (now : ℕ) (w : Traffic)
      → length packet ≡ message_cookie_reply_size
      → exits (handle_cookie_reply c (decode_cookie_reply packet) now w) ≡ false
  unfolding handle_cookie_reply decode_cookie_reply
  exits-handle_cookie_reply packet now w h = rw h refl

  -- No element of a type and a size that RoutineReceiveIncoming puts into the handshake queue makes
  -- RoutineHandshake return.
  pub handle_handshake_continues :
      (elem : HandshakeElement) (draws : HandshakeDraws) (w w' : Traffic)
      → is_handshake_message elem.msg_type (length elem.packet) ≡ true
      → handle_handshake a c elem draws w ≢ exited w'
  unfolding handle_handshake is_handshake_message
  handle_handshake_continues elem draws w w' sized h =
      let content = exits-handle_content elem draws _ in
      let stays : exits (handle_handshake a c elem draws w) ≡ false =
        elim (Bool-cases (elem.msg_type == 3)) [
          | inl reply ↦ simp reply (
              exits-handle_cookie_reply elem.packet draws.now w
                (reply_size elem.msg_type (length elem.packet) reply sized))
          | inr other ↦ simp other (
              exits-if (elem.msg_type == 1) _ _ content
                (exits-if (elem.msg_type == 2) _ _ content refl))
        ] in
      let e : true ≡ false = sym (ap exits h) ∙ stays in cc
