-- ===== src/Receive/Accepted.antt =====
-- What the sequential receiver gives to the network interface is authentic and from the peer.
use wireguard_go.Base.{
  ℕ, ◌≡◌, ◌⊎◌, sym, ap, ap₂, ◌∙◌, inl, inr, Bool, true, false, Option, none, some, List, ◌∷◌,
  Bool-cases, if◌then◌else◌, ==_refl, arith,
}
use wireguard_go.Replay.{validate_counter}
use wireguard_go.Crypto.{Crypto}
use wireguard_go.Queue.{is_dropped, unlock, drop_element}
use wireguard_go.Packet.{decrypt}
use wireguard_go.Packet.Source.{IsFrom, strip-some}
use wireguard_go.Traffic.{Inbound, Traffic}
use wireguard_go.Send.{Draws}
use wireguard_go.Receive.Passed.{AllPassed-some, receive_element-AllPassed}
use wireguard_go.Receive.{keep_filter, receive_element, opened, decrypt_element}

-- What a decryption worker leaves of an element that is not dropped then: what it has decrypted.
opened-authentic :
    (c : Crypto) (element counter : ℕ) (content : Option (List ℕ)) (elem : Inbound) (v w : Traffic)
    → w ≡ opened c element content (record elem { counter = counter }) v
    → is_dropped w.inbound_flags element ≡ false
    → (counter ≡ (w.inbound element).counter)
      × (content ≡ some (w.inbound element).packet)
      × ((w.inbound element).key_pair ≡ elem.key_pair)
unfolding opened is_dropped unlock drop_element
opened-authentic c element counter none elem v w e here =
    absurd (dropped_again (sym here ∙ ap (λ t. (Traffic.inbound_flags t element).dropped) e))
  where
    dropped_again :
        false
          ≡ (Traffic.inbound_flags
              (opened c element none (record elem { counter = counter }) v)
              element).dropped
        → ⊥
    dropped_again h = let same = ==_refl element in absurd (ground (arith, same))
opened-authentic c element counter (some content) elem v w e here =
    let self : Inbound = record elem { counter = counter; packet = content } in
    let is_self : w.inbound element ≡ self =
      ap (λ t. Traffic.inbound t element) e
      ∙ ap (λ b. if b then self else v.inbound element) (==_refl element) in
    (
      ap Inbound.counter (sym is_self),
      ap (λ x. some (Inbound.packet x)) (sym is_self),
      ap Inbound.key_pair is_self,
    )

decrypt_element-authentic :
    (c : Crypto) (element : ℕ) (v : Traffic)
    → is_dropped (decrypt_element c element v).inbound_flags element ≡ false
    → (decrypt c (v.device.heap (v.inbound element).key_pair).receive (v.inbound element).packet ≡ (
      ((decrypt_element c element v).inbound element).counter,
      some ((decrypt_element c element v).inbound element).packet,
    ))
      × (((decrypt_element c element v).inbound element).key_pair ≡ (v.inbound element).key_pair)
unfolding decrypt_element
decrypt_element-authentic c element v here =
    let elem = v.inbound element in
    let p = decrypt c (v.device.heap elem.key_pair).receive elem.packet in
    let done = opened c element p.1 (record elem { counter = p.0 }) v in
    elim (Bool-cases (is_dropped v.inbound_flags element)) [
      | inl dropped ↦
          let is_v = ap (λ b. is_dropped (if b then v else done).inbound_flags element) dropped in
          let twice : true ≡ false = sym dropped ∙ sym is_v ∙ here in absurd cc
      | inr open_ ↦
          let (counter, content, key) =
            opened-authentic c element p.0 p.1 elem v (decrypt_element c element v)
              (ap (λ b. if b then v else done) open_) here in
          (ap₂ (λ a b. (a, b)) counter content, key)
    ]

-- The same once other goroutines have had their turns, if they leave the element alone but for
-- dropping it.
still_authentic :
    (c : Crypto) (element : ℕ) (v w : Traffic)
    → w.inbound element ≡ (decrypt_element c element v).inbound element
    → (is_dropped (decrypt_element c element v).inbound_flags element ≡ true
        → is_dropped w.inbound_flags element ≡ true)
    → is_dropped w.inbound_flags element ≡ false
    → decrypt c (v.device.heap (w.inbound element).key_pair).receive (v.inbound element).packet
      ≡ ((w.inbound element).counter, some (w.inbound element).packet)
still_authentic c element v w same dropped here =
    let before = is_dropped (decrypt_element c element v).inbound_flags element in
    let open_ : before ≡ false = elim (Bool-cases before) [
      | inl was ↦ absurd (cc (dropped was))
      | inr not_ ↦ not_
    ] in
    let (authentic, key) = decrypt_element-authentic c element v open_ in
    ap (λ k. decrypt c (v.device.heap k).receive (v.inbound element).packet)
      (ap Inbound.key_pair same ∙ key)
    ∙ authentic
    ∙ ap (λ e. (Inbound.counter e, some (Inbound.packet e))) (sym same)

-- What a turn of the sequential receiver on the traffic w, after a decryption worker's turn on v, has
-- done. The equation of `decrypt` says that the AEAD opens the element's message with the
-- receive key of its key pair, which gives the content that the element holds.
abbrev pub IsWritten : Crypto → ℕ → ℕ → Traffic → Traffic → Traffic → Type 0
IsWritten c number element v w w' =
    let elem = w.inbound element in
    let (filter, valid) =
      validate_counter (w.device.heap elem.key_pair).replay_filter elem.counter in
    ((w'.device ≡ w.device) × (w'.written ≡ w.written))
    ⊎ ((decrypt c (v.device.heap elem.key_pair).receive (v.inbound element).packet
          ≡ (elem.counter, some elem.packet))
        × (((valid ≡ false)
              × (w'.device ≡ (keep_filter elem.key_pair filter w).device)
              × (w'.written ≡ w.written))
            ⊎ ((valid ≡ true)
                × ((w'.written ≡ w.written)
                    ⊎ ((out : List ℕ) × (w'.written ≡ out ∷ w.written)
                        × IsFrom w.device.routing number elem.packet out)))))

-- A turn of the sequential receiver changes the device or the packets given to the network interface
-- only if the message of the element was authentic: the AEAD has opened it, in the turn of a
-- decryption worker, with the receive key of its key pair. If the replay filter of this key pair
-- refuses the counter of the message, nothing of the device but that filter changes and no packet is
-- given to the interface; otherwise one is at most, which is what was opened, up to the length in its
-- header, and whose source address, IPv4 or IPv6, is routed to the peer. Between the two turns the
-- goroutines may do anything but change the element's record or take back that it was dropped.
pub receive_element-IsWritten :
    (c : Crypto) (number element : ℕ) (draws : Draws) (unix_nano : ℕ) (ok : Bool) (v w w' : Traffic)
    → w.inbound element ≡ (decrypt_element c element v).inbound element
    → (is_dropped (decrypt_element c element v).inbound_flags element ≡ true
        → is_dropped w.inbound_flags element ≡ true)
    → receive_element c number element draws unix_nano ok w ≡ some w'
    → IsWritten c number element v w w'
receive_element-IsWritten c number element draws unix_nano ok v w w' same dropped h =
    elim (AllPassed-some number element w w' (receive_element c number element draws unix_nano ok w)
      (receive_element-AllPassed c number element draws unix_nano ok w) h) [
        | inl untouched ↦ inl untouched
        | inr (here, passed) ↦
            let authentic = still_authentic c element v w same dropped here in
            elim passed [
              | inl refused ↦ inr (authentic, inl refused)
              | inr (valid, inl unwritten) ↦ inr (authentic, inr (valid, inl unwritten))
              | inr (valid, inr (out, is_out, stripped)) ↦
                  let from =
                    strip-some w.device.routing number (w.inbound element).packet out stripped in
                  inr (authentic, inr (valid, inr (out, is_out, from)))
            ]
      ]
