-- ===== src/Receive/Delivery.antt =====
-- A packet from one worker's encryption to the other side's network interface.
use wireguard_go.Base.{
  ℕ, ◌^◌, ◌<◌, ◌≡◌, refl, sym, ap, ap₂, subst, ◌∙◌, inl, inr, Bool, true, false, not, some, List,
  [], ◌∷◌, length, ◌==◌, if◌then◌else◌, ==_refl, Bool-cases, arith,
}
use wireguard_go.Base.Do.{◌>>=◌}
use wireguard_go.Crypto.{Crypto, IsSound}
use wireguard_go.Replay.{validate_counter}
use wireguard_go.Routing.{RoutingTable}
use wireguard_go.Queue.{Flags, Elements, is_dropped, unlock}
use wireguard_go.Packet.{strip, strip_ipv4, strip_ipv6, ip_version, encrypt, decrypt}
use wireguard_go.Packet.RoundTrip.{IsDeliverable, strip-decrypt-encrypt}
use wireguard_go.Traffic.{Inbound, Outbound, Traffic, peer_of, update_endpoint, put}
use wireguard_go.Send.{Draws}
use wireguard_go.Send.Sequential.{encrypt_with, encrypt_element}
use wireguard_go.Receive.Passed.{confirm-Keeps}
use wireguard_go.Receive.{
  opened, decrypt_element, lock_inbound, keep_filter, is_expiring, keep_key_fresh_receiving,
  confirm_keypair, deliver, accept, receive_element,
}

put_self {ℓ} : {A : Type ℓ} (f : ℕ → A) (i : ℕ) (a : A) → put f i a i ≡ a
put_self f i a = ap (λ b. if b then a else f i) (==_refl i)

-- The traffic once the element's key pair is confirmed.
abbrev pub confirmed_by : ℕ → ℕ → ℕ → Traffic → Traffic
confirmed_by number element unix_nano w =
    let elem = w.inbound element in
    let filter = (validate_counter (w.device.heap elem.key_pair).replay_filter elem.counter).0 in
    confirm_keypair number elem.key_pair unix_nano (
      update_endpoint number elem.endpoint
        (keep_filter elem.key_pair filter (lock_inbound element w)))

fresh_without_initiation :
    (c : Crypto) (number : ℕ) (draws : Draws) (ok : Bool) (w : Traffic)
    → is_expiring c w.device.heap (peer_of w number).keypairs.current draws.now ≡ false
    → keep_key_fresh_receiving c number draws ok w ≡ some w
unfolding keep_key_fresh_receiving
fresh_without_initiation c number draws ok w young =
    elim (Bool-cases (peer_of w number).timers.sent_last_minute_handshake) [
      | inl sent ↦ simp sent refl
      | inr unsent ↦ simp (unsent, young) refl
    ]

nonempty :
    (table : RoutingTable) (number : ℕ) (content packet : List ℕ)
    → strip table number content ≡ some packet
    → (length content == 0) ≡ false
unfolding strip ip_version strip_ipv4 strip_ipv6
nonempty table number [] packet h = absurd cc
nonempty table number (x ∷ xs) packet h = ground arith

accept_delivers :
    (number : ℕ) (content packet : List ℕ) (w : Traffic)
    → strip w.device.routing number content ≡ some packet
    → (accept number content w).written ≡ packet ∷ w.written
unfolding accept deliver
accept_delivers number content packet w stripped =
    simp (nonempty w.device.routing number content packet stripped, stripped) refl

-- The sequential receiver with an element that was decrypted, whose counter the replay filter accepts
-- and whose content comes from an address of the peer.
receive_delivers :
    (c : Crypto) (number element : ℕ) (draws : Draws) (unix_nano : ℕ) (ok : Bool) (packet : List ℕ)
    (w : Traffic)
    → is_dropped w.inbound_flags element ≡ false
    → (validate_counter
        (w.device.heap (w.inbound element).key_pair).replay_filter
        (w.inbound element).counter).1
      ≡ true
    → is_expiring c
        (confirmed_by number element unix_nano w).device.heap
        (peer_of (confirmed_by number element unix_nano w) number).keypairs.current
        draws.now
      ≡ false
    → strip w.device.routing number (w.inbound element).packet ≡ some packet
    → (w' : Traffic) × (receive_element c number element draws unix_nano ok w ≡ some w')
      × (w'.written ≡ packet ∷ w.written)
unfolding receive_element
receive_delivers c number element draws unix_nano ok packet w here valid young stripped =
    let elem = w.inbound element in
    let v = confirmed_by number element unix_nano w in
    let (same, routing) =
      confirm-Keeps number elem.key_pair unix_nano w
        (update_endpoint number elem.endpoint (
          keep_filter elem.key_pair
            (validate_counter (w.device.heap elem.key_pair).replay_filter elem.counter).0
            (lock_inbound element w)))
        (refl, refl) in
    let result =
      keep_key_fresh_receiving c number draws ok v >>= (λ u. some (accept number elem.packet u)) in
    let checked =
      keep_filter elem.key_pair
        (validate_counter (w.device.heap elem.key_pair).replay_filter elem.counter).0
        (lock_inbound element w) in
    (
      accept number elem.packet v,
      ap₂
            (λ a b.
              if a then some (lock_inbound element w) else if not b then some checked else result)
            here valid
          ∙ ap (λ o. o >>= (λ u. some (accept number elem.packet u)))
              (fresh_without_initiation c number draws ok v young),
      accept_delivers number elem.packet packet v
            (ap (λ t. strip t number elem.packet) routing ∙ stripped)
          ∙ ap (λ l. packet ∷ l) same,
    )

-- A decryption worker with an authentic element.
decrypted :
    (c : Crypto) (element nonce : ℕ) (content : List ℕ) (w : Traffic)
    → is_dropped w.inbound_flags element ≡ false
    → decrypt c (w.device.heap (w.inbound element).key_pair).receive (w.inbound element).packet
      ≡ (nonce, some content)
    → decrypt_element c element w
      ≡ opened c element (some content) (record (w.inbound element) { counter = nonce }) w
unfolding decrypt_element
decrypted c element nonce content w here authentic =
    let elem = w.inbound element in
    let p = decrypt c (w.device.heap elem.key_pair).receive elem.packet in
    ap₂ (λ b q. if b then w else opened c element q.1 (record elem { counter = q.0 }) w) here
      authentic

-- An encryption worker with an element that has a key pair.
encrypted :
    (c : Crypto) (element mtu key : ℕ) (w : Traffic)
    → is_dropped w.outbound_flags element ≡ false
    → (w.outbound element).key_pair ≡ some key
    → ((encrypt_element c element mtu w).outbound element).packet
      ≡ encrypt c
          (w.device.heap key).send
          (w.device.heap key).remote_index
          mtu
          (w.outbound element).nonce
          (w.outbound element).packet
unfolding encrypt_element encrypt_with
encrypted c element mtu key w here has_key =
    ap₂
      (λ b o. Outbound.packet ((if b then w else encrypt_with c o element mtu w).outbound element))
      here has_key
    ∙ ap Outbound.packet (put_self w.outbound element _)

unlocked :
    (element : ℕ) (flags : Elements)
    → is_dropped (unlock element flags) element ≡ is_dropped flags element
unfolding is_dropped unlock
unlocked element flags =
    ap (λ b. Flags.dropped (if b then record (flags element) { locked = false } else flags element))
      (==_refl element)

-- The turns of a decryption worker and of the sequential receiver with an authentic element.
decrypt_delivers :
    (c : Crypto) (number element nonce : ℕ) (draws : Draws) (unix_nano : ℕ) (ok : Bool)
    (content packet : List ℕ) (w : Traffic)
    → is_dropped w.inbound_flags element ≡ false
    → decrypt c (w.device.heap (w.inbound element).key_pair).receive (w.inbound element).packet
      ≡ (nonce, some content)
    → (validate_counter (w.device.heap (w.inbound element).key_pair).replay_filter nonce).1 ≡ true
    → is_expiring c
        (confirmed_by number element unix_nano (decrypt_element c element w)).device.heap
        (peer_of
          (confirmed_by number element unix_nano (decrypt_element c element w))
          number).keypairs.current
        draws.now
      ≡ false
    → strip w.device.routing number content ≡ some packet
    → (w' : Traffic) × (receive_element c number element draws unix_nano ok
          (decrypt_element c element w)
        ≡ some w')
      × (w'.written ≡ packet ∷ w.written)
unfolding opened
decrypt_delivers c number element nonce draws unix_nano ok content packet w here authentic valid
      young stripped =
    let e : Inbound = record (w.inbound element) { counter = nonce } in
    let done = opened c element (some content) e w in
    let eq = decrypted c element nonce content w here authentic in
    let self : Inbound = record e { packet = content } in
    let at = sym (put_self w.inbound element self) in
    subst
      (λ v.
        (w' : Traffic) × (receive_element c number element draws unix_nano ok v ≡ some w')
        × (w'.written ≡ packet ∷ w.written))
      (sym eq)
      (receive_delivers c number element draws unix_nano ok packet done
        (unlocked element w.inbound_flags ∙ here)
        (subst
          (λ x.
            (validate_counter (w.device.heap (Inbound.key_pair x)).replay_filter
              (Inbound.counter x)).1
            ≡ true)
          at valid)
        (subst
          (λ v.
            is_expiring c (confirmed_by number element unix_nano v).device.heap
              (peer_of (confirmed_by number element unix_nano v) number).keypairs.current draws.now
            ≡ false)
          eq young)
        (subst (λ x. strip w.device.routing number (Inbound.packet x) ≡ some packet) at stripped))

-- An IP packet that an encryption worker has encrypted is written to the network interface of the
-- side that receives it, unchanged and without its padding, once the turns of a decryption worker
-- and of the sequential receiver are over, which end. Both sides have the key, the element is
-- dropped on neither, the nonce is a uint64 that the replay filter accepts, the packet has the
-- length that it says and is from an address that the receiver routes to the peer, the receiver's
-- current key pair is not one that it would renew now, and the AEAD opens what it sealed.
pub written-encrypted :
    (c : Crypto) (mtu key number element element' : ℕ) (draws : Draws) (unix_nano : ℕ) (ok : Bool)
    (sender w : Traffic)
    → IsSound c
    → is_dropped sender.outbound_flags element ≡ false
    → (sender.outbound element).key_pair ≡ some key
    → (sender.outbound element).nonce < 2 ^ 64
    → is_dropped w.inbound_flags element' ≡ false
    → (w.inbound element').packet ≡ ((encrypt_element c element mtu sender).outbound element).packet
    → (w.device.heap (w.inbound element').key_pair).receive ≡ (sender.device.heap key).send
    → IsDeliverable w.device.routing number (sender.outbound element).packet
    → (validate_counter
        (w.device.heap (w.inbound element').key_pair).replay_filter
        (sender.outbound element).nonce).1
      ≡ true
    → is_expiring c
        (confirmed_by number element' unix_nano (decrypt_element c element' w)).device.heap
        (peer_of
          (confirmed_by number element' unix_nano (decrypt_element c element' w))
          number).keypairs.current
        draws.now
      ≡ false
    → (w' : Traffic) × (receive_element c number element' draws unix_nano ok
          (decrypt_element c element' w)
        ≡ some w')
      × (w'.written ≡ (sender.outbound element).packet ∷ w.written)
written-encrypted c mtu key number element element' draws unix_nano ok sender w sound here has_key
      small here' arrived same_key good valid young =
    let k = sender.device.heap key in
    let elem = sender.outbound element in
    let (content, opens, stripped) =
      strip-decrypt-encrypt c k.send k.remote_index mtu elem.nonce elem.packet w.device.routing
        number sound small good in
    let authentic =
      ap₂ (decrypt c) same_key (arrived ∙ encrypted c element mtu key sender here has_key)
      ∙ opens in
    decrypt_delivers c number element' elem.nonce draws unix_nano ok content elem.packet w here'
      authentic valid young stripped
