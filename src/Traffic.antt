-- ===== src/Traffic.antt =====
-- What the goroutines of send.go and receive.go work on: the device, its queues, and their elements
-- by number. `sent` is what was given to the bind, `written` what was given to the network interface,
-- the latest first. The buffers are not part of it: an element has its packet.
use wireguard_go.Base.{ℕ, Bool, true, Option, some, List, length, ◌==◌, if◌then◌else◌}
use wireguard_go.Index.{IndexTable}
use wireguard_go.Noise.{Handshake}
use wireguard_go.Cookie.{CookieGenerator}
use wireguard_go.Timers.{PeerTimers, timers_active}
use wireguard_go.Queue.{Elements}
use wireguard_go.Device.{Endpoint, Peer, Device, put_peer}

-- QueueOutboundElement; its flags are in the queue's Elements.
pub record Outbound : Type 0 where
  pub packet : List ℕ
  pub nonce : ℕ
  pub key_pair : Option ℕ
  pub peer : Option ℕ

-- QueueInboundElement.
pub record Inbound : Type 0 where
  pub packet : List ℕ
  pub counter : ℕ
  pub key_pair : ℕ
  pub endpoint : Endpoint

-- QueueHandshakeElement.
pub record HandshakeElement : Type 0 where
  pub msg_type : ℕ
  pub packet : List ℕ
  pub endpoint : Endpoint

pub record Traffic : Type 0 where
  pub device : Device
  pub outbound : ℕ → Outbound
  pub inbound : ℕ → Inbound
  pub handshakes : ℕ → HandshakeElement
  pub outbound_flags : Elements
  pub inbound_flags : Elements
  pub encryption_queue : List ℕ
  pub decryption_queue : List ℕ
  pub sent : List (List ℕ × List ℕ)
  pub written : List (List ℕ)

abbrev pub peer_of : Traffic → ℕ → Peer
peer_of w number = w.device.peers number

abbrev pub update_peer : Traffic → ℕ → Peer → Traffic
update_peer w number peer = record w { device = put_peer w.device number peer }

abbrev pub update_timers : Traffic → ℕ → PeerTimers → Traffic
update_timers w number t = update_peer w number (record (peer_of w number) { timers = t })

abbrev pub update_endpoint : ℕ → Endpoint → Traffic → Traffic
update_endpoint number endpoint w =
    update_peer w number (record (peer_of w number) { endpoint = some endpoint })

-- peer.timersActive().
abbrev pub is_active : Traffic → ℕ → Bool
is_active w number =
    timers_active (peer_of w number).is_running true w.device.is_up (length w.device.key_map)

abbrev pub put {ℓ} : {A : Type ℓ} → (ℕ → A) → ℕ → A → ℕ → A
put f number a n = if n == number then a else f n

-- The handshake and the index table that the creation of a message leaves.
abbrev pub put_created : ℕ → Handshake → IndexTable → Traffic → Traffic
put_created number hs table w =
    update_peer (record w { device = record w.device { indices = table } }) number
      (record (peer_of w number) { handshake = hs })

abbrev pub put_mac : ℕ → CookieGenerator → Traffic → Traffic
put_mac number mac w = update_peer w number (record (peer_of w number) { mac = mac })
