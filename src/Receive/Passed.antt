-- ===== src/Receive/Passed.antt =====
-- What the sequential receiver, of receive.go, gives to the network interface in one turn.
use wireguard_go.Base.{
  ℕ, ◌≡◌, ◌⊎◌, refl, sym, ap, ◌∙◌, inl, inr, Bool, true, false, Option, none, some, List, ◌∷◌,
  length, ◌==◌, subst, points_to, Bool-cases,
}
use wireguard_go.Base.Do.{◌>>=◌}
use wireguard_go.Base.Clock.{sub_time}
use wireguard_go.Constants.{rekey_timeout}
use wireguard_go.Timers.{is_less}
use wireguard_go.Replay.{validate_counter}
use wireguard_go.Crypto.{Crypto}
use wireguard_go.Noise.{Created, created, refused, waiting, MessageInitiation}
use wireguard_go.Cookie.{add_macs}
use wireguard_go.Queue.{is_dropped}
use wireguard_go.Message.{encode_initiation}
use wireguard_go.Packet.{strip}
use wireguard_go.Device.{Endpoint}
use wireguard_go.Traffic.{update_endpoint, put_created, put_mac, Traffic, peer_of, update_timers}
use wireguard_go.Send.{Draws, send_to, send_buffer, initiated, send_handshake_initiation}
use wireguard_go.Receive.{
  lock_inbound, keep_filter, is_expiring, keep_key_fresh_receiving, confirm_keypair, deliver,
  accept, receive_element,
}

-- The interface's packets and the routing table are as they were.
abbrev Keeps : Traffic → Traffic → Type 0
Keeps w w' = (w'.written ≡ w.written) × (w'.device.routing ≡ w.device.routing)

AllKeep : Traffic → Option Traffic → Type 0
AllKeep w none = Unit {0}
AllKeep w (some w') = Keeps w w'

some-AllKeep : (v w : Traffic) → Keeps v w → AllKeep v (some w)
unfolding AllKeep
some-AllKeep v w h = h

bind-AllKeep {ℓ} :
    {A : Type ℓ} (w : Traffic) (m : Option A) (f : A → Option Traffic)
    → ((a : A) → AllKeep w (f a))
    → AllKeep w (m >>= f)
unfolding AllKeep
bind-AllKeep w none f h = tt
bind-AllKeep w (some a) f h = h a

send_to-Keeps :
    (bind : Option ℕ) (e : Option Endpoint) (ok : Bool) (packet : List ℕ) (v w : Traffic)
    → Keeps v w
    → Keeps v (send_to bind e ok packet w).0
unfolding send_to
send_to-Keeps none e ok packet v w k = k
send_to-Keeps (some s) none ok packet v w k = k
send_to-Keeps (some s) (some e) ok packet v w k = k

send_buffer-Keeps :
    (number : ℕ) (ok : Bool) (packet : List ℕ) (v w : Traffic)
    → Keeps v w
    → Keeps v (send_buffer number ok packet w).0
unfolding send_buffer
send_buffer-Keeps number ok packet v w k =
    send_to-Keeps w.device.bind (peer_of w number).endpoint ok packet v w k

initiated-AllKeep :
    (c : Crypto) (number now : ℕ) (ok : Bool) (made : Created MessageInitiation) (v w : Traffic)
    → Keeps v w
    → AllKeep v (initiated c number now ok made w)
unfolding initiated AllKeep
initiated-AllKeep c number now ok (waiting hs table) v w k = tt
initiated-AllKeep c number now ok (refused error hs table) v w k = k
initiated-AllKeep c number now ok (created msg hs table) v w k =
    bind-AllKeep v (add_macs c (peer_of w number).mac (encode_initiation msg) now) _ (λ p.
      send_buffer-Keeps number ok p.0 v (put_mac number p.1 (put_created number hs table w)) k)

send_handshake_initiation-AllKeep :
    (c : Crypto) (number : ℕ) (retry : Bool) (draws : Draws) (ok : Bool) (v w : Traffic)
    → Keeps v w
    → AllKeep v (send_handshake_initiation c number retry draws ok w)
unfolding send_handshake_initiation AllKeep
send_handshake_initiation-AllKeep c number retry draws ok v w k =
    elim (Bool-cases
      (is_less (sub_time draws.now (peer_of w number).timers.last_sent_handshake) rekey_timeout)) [
        | inl soon ↦ simp soon k
        | inr late ↦
            simp late (initiated-AllKeep c number draws.now ok _ v (update_timers w number _) k)
      ]

keep_key_fresh_receiving-AllKeep :
    (c : Crypto) (number : ℕ) (draws : Draws) (ok : Bool) (v w : Traffic)
    → Keeps v w
    → AllKeep v (keep_key_fresh_receiving c number draws ok w)
unfolding keep_key_fresh_receiving AllKeep
keep_key_fresh_receiving-AllKeep c number draws ok v w k =
    elim (Bool-cases (peer_of w number).timers.sent_last_minute_handshake) [
      | inl sent ↦ simp sent k
      | inr unsent ↦
          elim (Bool-cases
            (is_expiring c w.device.heap (peer_of w number).keypairs.current draws.now)) [
              | inl old ↦
                  simp (unsent, old)
                    (send_handshake_initiation-AllKeep c number false draws ok v
                      (update_timers w number
                        (record (peer_of w number).timers { sent_last_minute_handshake = true }))
                      k)
              | inr young ↦ simp (unsent, young) k
            ]
    ]

deliver-written :
    (number : ℕ) (o : Option (List ℕ)) (w : Traffic)
    → ((deliver number o w).written ≡ w.written)
      ⊎ ((out : List ℕ) × ((deliver number o w).written ≡ out ∷ w.written) × (o ≡ some out))
unfolding deliver
deliver-written number none w = inl refl
deliver-written number (some out) w = inr (out, refl, refl)

accept-written :
    (number : ℕ) (packet : List ℕ) (w : Traffic)
    → ((accept number packet w).written ≡ w.written)
      ⊎ ((out : List ℕ) × ((accept number packet w).written ≡ out ∷ w.written)
          × (strip w.device.routing number packet ≡ some out))
unfolding accept
accept-written number packet w = elim (Bool-cases (length packet == 0)) [
  | inl empty ↦ inl (simp empty refl)
  | inr full ↦
      simp full
        (deliver-written number (strip w.device.routing number packet) (update_timers w number _))
]

pub confirm-Keeps :
    (number key unix_nano : ℕ) (v w : Traffic)
    → Keeps v w
    → Keeps v (confirm_keypair number key unix_nano w)
unfolding confirm_keypair
confirm-Keeps number key unix_nano v w (a, b) =
    elim (Bool-cases (points_to (peer_of w number).keypairs.next key)) [
      | inl is_next ↦ (simp is_next a, simp is_next b)
      | inr other ↦ (simp other a, simp other b)
    ]

-- What the turn has done: nothing to the device; or, for an element that is not dropped, only to
-- the replay filter that refuses its counter; or the filter accepts it, and one packet at most is
-- written.
abbrev pub IsPassed : ℕ → ℕ → Traffic → Traffic → Type 0
IsPassed number element w w' =
    let elem = w.inbound element in
    let (filter, valid) =
      validate_counter (w.device.heap elem.key_pair).replay_filter elem.counter in
    ((w'.device ≡ w.device) × (w'.written ≡ w.written))
    ⊎ ((is_dropped w.inbound_flags element ≡ false)
        × (((valid ≡ false)
              × (w'.device ≡ (keep_filter elem.key_pair filter w).device)
              × (w'.written ≡ w.written))
            ⊎ ((valid ≡ true)
                × ((w'.written ≡ w.written)
                    ⊎ ((out : List ℕ) × (w'.written ≡ out ∷ w.written)
                        × (strip w.device.routing number elem.packet ≡ some out))))))

unfoldable pub AllPassed : ℕ → ℕ → Traffic → Option Traffic → Type 0
AllPassed number element w none = Unit {0}
AllPassed number element w (some w') = IsPassed number element w w'

pub AllPassed-some :
    (number element : ℕ) (w w' : Traffic) (o : Option Traffic)
    → AllPassed number element w o
    → o ≡ some w'
    → IsPassed number element w w'
unfolding AllPassed
AllPassed-some number element w w' o k e = subst (AllPassed number element w) e k

accept-AllPassed :
    (number element : ℕ) (w : Traffic) (o : Option Traffic)
    → is_dropped w.inbound_flags element ≡ false
    → (validate_counter
        (w.device.heap (w.inbound element).key_pair).replay_filter
        (w.inbound element).counter).1
      ≡ true
    → AllKeep w o
    → AllPassed number element w (o >>= (λ v. some (accept number (w.inbound element).packet v)))
unfolding AllPassed AllKeep
accept-AllPassed number element w none kept valid k = tt
accept-AllPassed number element w (some v) kept valid (same, routing) =
    elim (accept-written number (w.inbound element).packet v) [
      | inl unwritten ↦ inr (kept, inr (valid, inl (unwritten ∙ same)))
      | inr (out, is_out, stripped) ↦
          let routed =
            ap (λ t. strip t number (w.inbound element).packet) (sym routing) ∙ stripped in
          inr (kept, inr (valid, inr (out, is_out ∙ ap (λ l. out ∷ l) same, routed)))
    ]

some-AllPassed :
    (number element : ℕ) (w w' : Traffic)
    → IsPassed number element w w'
    → AllPassed number element w (some w')
unfolding AllPassed
some-AllPassed number element w w' h = h

pub receive_element-AllPassed :
    (c : Crypto) (number element : ℕ) (draws : Draws) (unix_nano : ℕ) (ok : Bool) (w : Traffic)
    → AllPassed number element w (receive_element c number element draws unix_nano ok w)
unfolding receive_element
receive_element-AllPassed c number element draws unix_nano ok w =
    let elem = w.inbound element in
    let (filter, valid) =
      validate_counter (w.device.heap elem.key_pair).replay_filter elem.counter in
    let locked = lock_inbound element w in
    let checked = keep_filter elem.key_pair filter locked in
    let confirmed =
      confirm_keypair number elem.key_pair unix_nano
        (update_endpoint number elem.endpoint checked) in
    let kept = keep_key_fresh_receiving-AllKeep c number draws ok w confirmed (
      confirm-Keeps number elem.key_pair unix_nano w (update_endpoint number elem.endpoint checked)
        (refl, refl)) in
    elim (Bool-cases (is_dropped w.inbound_flags element)) [
      | inl dropped ↦ simp dropped (some-AllPassed number element w locked (inl (refl, refl)))
      | inr here ↦ elim (Bool-cases valid) [
        | inr replayed ↦
            simp (here, replayed)
              (some-AllPassed number element w checked (inr (here, inl (replayed, refl, refl))))
        | inl fresh ↦
            simp (here, fresh)
              (accept-AllPassed number element w
                (keep_key_fresh_receiving c number draws ok confirmed) here fresh kept)
      ]
    ]
