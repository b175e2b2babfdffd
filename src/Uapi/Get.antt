-- ===== src/Uapi/Get.antt =====
-- The get operation of uapi.go: the lines that it writes. `%d` is the decimal digits of a number. The
-- peers come in the order of the model's map; Go's order is not fixed.
use wireguard_go.Base.{
  ℕ, zero, suc, ◌+◌, ◌/◌, ◌%◌, Option, none, some, List, [], ◌∷◌, ◌++◌, ltb, ◌==◌, if◌then◌else◌,
  map,
}
use wireguard_go.Base.Text.{codes}
use wireguard_go.Constants.{second}
use wireguard_go.Keys.{to_hex, is_zero_key}
use wireguard_go.Routing.{allowed_ips}
use wireguard_go.Device.{Endpoint, Device}

-- The Endpoint's DstToString, and the String of a net.IPNet.
pub record Printers : Type 0 where
  pub dst_to_string : Endpoint → List ℕ
  pub network_string : List ℕ × ℕ → List ℕ

-- The digits of a number that has at most `n` of them.
unfoldable pub digits : ℕ → ℕ → List ℕ
digits zero x = []
digits (suc n) x =
    let rest = digits n (x / 10) in if ltb x 10 then (48 + x) ∷ [] else rest ++ (48 + x % 10) ∷ []

-- A number below 2 ^ 64 has at most 20 digits.
unfoldable pub decimal : ℕ → List ℕ
unfolding digits
decimal x = digits 20 x

unfoldable pub device_lines : Device → List (List ℕ)
unfolding is_zero_key to_hex decimal
device_lines d =
    (if is_zero_key d.noise.private_key
      then []
      else (codes "private_key=" ++ to_hex d.noise.private_key) ∷ [])
    ++ (if d.port == 0 then [] else (codes "listen_port=" ++ decimal d.port) ∷ [])
    ++ (if d.fwmark == 0 then [] else (codes "fwmark=" ++ decimal d.fwmark) ∷ [])

module _ (printers : Printers) where
  unfoldable pub endpoint_lines : Option Endpoint → List (List ℕ)
  endpoint_lines none = []
  endpoint_lines (some e) = (codes "endpoint=" ++ printers.dst_to_string e) ∷ []

  unfoldable pub peer_lines : Device → ℕ → List (List ℕ)
  unfolding endpoint_lines to_hex decimal allowed_ips
  peer_lines d number =
      let peer = d.peers number in
      let nano = peer.timers.last_handshake_nano in
      (codes "public_key=" ++ to_hex peer.handshake.remote_static)
        ∷ (codes "preshared_key=" ++ to_hex peer.handshake.preshared_key)
        ∷ endpoint_lines peer.endpoint
      ++ (codes "last_handshake_time_sec=" ++ decimal (nano / second))
        ∷ (codes "last_handshake_time_nsec=" ++ decimal (nano % second))
        ∷ (codes "tx_bytes=" ++ decimal peer.tx_bytes)
        ∷ (codes "rx_bytes=" ++ decimal peer.rx_bytes)
        ∷ (codes "persistent_keepalive_interval=" ++ decimal peer.persistent_keepalive_interval)
        ∷ map (λ network. codes "allowed_ip=" ++ printers.network_string network)
            (allowed_ips d.routing number)

  unfoldable pub all_peer_lines : Device → List (List ℕ × ℕ) → List (List ℕ)
  unfolding peer_lines
  all_peer_lines d [] = []
  all_peer_lines d ((key, number) ∷ entries) = peer_lines d number ++ all_peer_lines d entries

  -- ipcGetOperation.
  unfoldable pub get_operation : Device → List (List ℕ)
  unfolding device_lines all_peer_lines
  get_operation d = device_lines d ++ all_peer_lines d d.key_map
