-- ===== src/Uapi.antt =====
-- The set operation of uapi.go: the lines of a configuration, one after the other, on the device.
pub mod Fields
pub mod Get
pub mod Handle
pub mod Socket
pub mod Dummy
pub mod Decimal
pub mod Fits
use wireguard_go.Base.{
  ℕ, ◌+◌, ◌-◌, ◌*◌, ◌^◌, Bool, true, false, not, ◌&&◌, ◌||◌, Option, none, some, List, [], ◌∷◌,
  length, ltb, leb, ◌==◌, if◌then◌else◌, bytes_eq,
}
use wireguard_go.Base.Do.{◌>>=◌}
use wireguard_go.Base.Text.{codes}
use wireguard_go.Routing
use wireguard_go.Crypto.{Crypto}
use wireguard_go.Keys.{from_hex, equals}
use wireguard_go.Device.{Endpoint, Peer, Device, lookup_peer}
use wireguard_go.Device.Bind.{BindResults, bind_set_mark, bind_update}
use wireguard_go.Device.Peers.{zero_peer, remove_peer, remove_all_peers, new_peer}
use wireguard_go.Device.Configure.{set_private_key}
use wireguard_go.Uapi.Fields.{parse_uint, split}
use wireguard_go.Traffic.{Traffic, peer_of, update_peer}
use wireguard_go.Send.{send_keepalive}

-- CreateEndpoint of the system's bind, and net.ParseCIDR with the address and the length of the
-- network.
pub record Parsers : Type 0 where
  pub create_endpoint : List ℕ → Option Endpoint
  pub parse_cidr : List ℕ → Option (List ℕ × ℕ)

pub data IpcError : Type 0 where
  protocol invalid port_in_use : IpcError

-- The variables of the loop, and the next address that `new` gives.
pub record Setting : Type 0 where
  pub traffic : Traffic
  pub peer : Option ℕ
  pub dummy : Bool
  pub device_config : Bool
  pub fresh : ℕ

-- How a line ends. `stuck`: a nil pointer, a panic of Insert, or a deadlock of SetPrivateKey.
pub data Outcome : Type 0 where
  continues : Setting → Outcome
  fails : IpcError → Outcome
  stuck : Outcome

abbrev pub is_true : List ℕ → Bool
is_true value = bytes_eq value (codes "true")

abbrev pub with_device : Setting → Device → Setting
with_device s d = record s { traffic = record s.traffic { device = d } }

unfoldable pub with_result : Setting → Option Device → Outcome
with_result s none = stuck
with_result s (some d) = continues (with_device s d)

unfoldable pub or_port_in_use : Setting → Device × Bool → Outcome
or_port_in_use s (d, ok) = if ok then continues (with_device s d) else fails port_in_use

module _ (c : Crypto) (r : BindResults) where
  -- "device configuration"
  unfoldable pub set_listen_port : Option ℕ → Setting → Outcome
  unfolding bind_update or_port_in_use
  set_listen_port none s = fails invalid
  set_listen_port (some port) s =
      or_port_in_use s (bind_update r (record s.traffic.device { port = port }))

  unfoldable pub set_fwmark : Option ℕ → Setting → Outcome
  unfolding bind_set_mark or_port_in_use
  set_fwmark none s = fails invalid
  set_fwmark (some mark) s = or_port_in_use s (bind_set_mark r mark s.traffic.device)

  unfoldable pub set_key : Option (List ℕ) → Setting → Outcome
  unfolding set_private_key with_result
  set_key none s = fails invalid
  set_key (some sk) s = with_result s (set_private_key c sk s.traffic.device)

  unfoldable pub set_device : List ℕ → List ℕ → Setting → Outcome
  unfolding set_listen_port set_fwmark set_key parse_uint from_hex remove_all_peers
  set_device key value s =
      if bytes_eq key (codes "private_key")
      then set_key (from_hex value) s
      else if bytes_eq key (codes "listen_port")
      then set_listen_port (parse_uint 16 value) s
      else if bytes_eq key (codes "fwmark")
      then set_fwmark (if length value == 0 then some 0 else parse_uint 32 value) s
      else if bytes_eq key (codes "public_key")
      then continues (record s { device_config = false })
      else if bytes_eq key (codes "replace_peers")
      then (if is_true value
          then continues (with_device s (remove_all_peers s.traffic.device))
          else fails invalid)
      else fails invalid

-- `peer = &Peer{}`, and `dummy = true`.
unfoldable pub select_dummy : Setting → Setting
select_dummy s = record s {
  traffic = update_peer s.traffic s.fresh zero_peer;
  peer = some s.fresh;
  dummy = true;
  fresh = s.fresh + 1;
}

module _ (c : Crypto) (now : ℕ) where
  unfoldable pub created_peer : Setting → Option Device → Outcome
  created_peer s none = fails invalid
  created_peer s (some d) =
      continues (record (with_device s d) { peer = some s.fresh; fresh = s.fresh + 1 })

  -- "find peer referenced"
  unfoldable pub find_peer : Option ℕ → List ℕ → Setting → Outcome
  unfolding new_peer created_peer
  find_peer (some number) pk s = continues (record s { peer = some number })
  find_peer none pk s = created_peer s (new_peer c now s.fresh pk s.traffic.device)

  unfoldable pub select_peer : Option (List ℕ) → Setting → Outcome
  unfolding find_peer select_dummy lookup_peer equals
  select_peer none s = fails invalid
  select_peer (some pk) s =
      let s' = if equals s.traffic.device.noise.public_key pk then select_dummy s else s in
      find_peer (lookup_peer s'.traffic.device pk) pk s'

unfoldable pub remove_selected : ℕ → Setting → Outcome
unfolding remove_peer select_dummy
remove_selected number s =
    let key = (peer_of s.traffic number).handshake.remote_static in
    let removed = with_device s (remove_peer key s.traffic.device) in
    continues (select_dummy (if s.dummy then s else removed))

unfoldable pub set_preshared_key : Option (List ℕ) → ℕ → Setting → Outcome
set_preshared_key none number s = fails invalid
set_preshared_key (some psk) number s =
    let peer = peer_of s.traffic number in
    continues (record s {
      traffic =
          update_peer s.traffic number
            (record peer { handshake = record peer.handshake { preshared_key = psk } });
    })

unfoldable pub set_endpoint : Option Endpoint → ℕ → Setting → Outcome
set_endpoint none number s = fails invalid
set_endpoint (some e) number s =
    let peer = peer_of s.traffic number in
    continues
      (record s { traffic = update_peer s.traffic number (record peer { endpoint = some e }) })

unfoldable pub set_interval : Option ℕ → ℕ → Setting → Outcome
unfolding send_keepalive
set_interval none number s = fails invalid
set_interval (some secs) number s =
    let peer = peer_of s.traffic number in
    let w = update_peer s.traffic number (record peer { persistent_keepalive_interval = secs }) in
    let set = record s { traffic = w } in
    let sent = record s { traffic = (send_keepalive number s.fresh w).0; fresh = s.fresh + 1 } in
    if peer.persistent_keepalive_interval == 0 && not (secs == 0) && w.device.is_up && not s.dummy
    then continues sent
    else continues set

unfoldable pub replace_allowed_ips : ℕ → Setting → Outcome
replace_allowed_ips number s =
    let d = s.traffic.device in
    if s.dummy
    then continues s
    else continues (with_device s (record d { routing = Routing.remove_peer d.routing number }))

unfoldable pub inserted : Setting → Option Routing.RoutingTable → Outcome
inserted s none = stuck
inserted s (some table) = continues (with_device s (record s.traffic.device { routing = table }))

unfoldable pub add_allowed_ip : Option (List ℕ × ℕ) → ℕ → Setting → Outcome
unfolding inserted
add_allowed_ip none number s = fails invalid
add_allowed_ip (some (ip, ones)) number s =
    let added = inserted s (Routing.insert s.traffic.device.routing ip ones number) in
    if s.dummy then continues s else added

module _ (c : Crypto) (parsers : Parsers) (now : ℕ) where
  -- "peer configuration", for the selected peer.
  unfoldable pub set_selected : List ℕ → List ℕ → ℕ → Setting → Outcome
  unfolding remove_selected set_preshared_key set_endpoint set_interval replace_allowed_ips
      add_allowed_ip parse_uint from_hex
  set_selected key value number s =
      if bytes_eq key (codes "remove")
      then (if is_true value then remove_selected number s else fails invalid)
      else if bytes_eq key (codes "preshared_key")
      then set_preshared_key (from_hex value) number s
      else if bytes_eq key (codes "endpoint")
      then set_endpoint (parsers.create_endpoint value) number s
      else if bytes_eq key (codes "persistent_keepalive_interval")
      then set_interval (parse_uint 16 value) number s
      else if bytes_eq key (codes "replace_allowed_ips")
      then (if is_true value then replace_allowed_ips number s else fails invalid)
      else if bytes_eq key (codes "allowed_ip")
      then add_allowed_ip (parsers.parse_cidr value) number s
      else fails invalid

  unfoldable pub for_selected : Option ℕ → List ℕ → List ℕ → Setting → Outcome
  unfolding set_selected
  for_selected none key value s = stuck
  for_selected (some number) key value s = set_selected key value number s

  unfoldable pub set_peer : List ℕ → List ℕ → Setting → Outcome
  unfolding select_peer for_selected from_hex
  set_peer key value s =
      if bytes_eq key (codes "public_key")
      then select_peer c now (from_hex value) s
      else for_selected s.peer key value s

  -- The two halves of the loop's body: the line that ends the device's part is also the peer's.
  unfoldable pub then_peer : List ℕ → List ℕ → Outcome → Outcome
  unfolding set_peer
  then_peer key value (continues s) = if s.device_config then continues s else set_peer key value s
  then_peer key value (fails error) = fails error
  then_peer key value stuck = stuck

  unfoldable pub set_parts : BindResults → Option (List ℕ × List ℕ) → Setting → Outcome
  unfolding set_device then_peer
  set_parts r none s = fails protocol
  set_parts r (some (key, value)) s =
      then_peer key value (if s.device_config then set_device c r key value s else continues s)

  -- One line that is not empty, with what the system answers to a call about the bind.
  unfoldable pub set_line : BindResults → List ℕ → Setting → Outcome
  unfolding set_parts split
  set_line r line s = set_parts r (split line) s

unfoldable pub and_then : Outcome → (Setting → Outcome) → Outcome
and_then (continues s) go = go s
and_then (fails error) go = fails error
and_then stuck go = stuck

-- ipcSetOperation on the lines that the scanner gives: an empty line ends it.
unfoldable pub set_operation :
    Crypto → Parsers → ℕ → List (BindResults × List ℕ) → Setting → Outcome
unfolding set_line and_then
set_operation c parsers now [] s = continues s
set_operation c parsers now ((r, line) ∷ lines) s =
    let rest = and_then (set_line c parsers now r line s) (set_operation c parsers now lines) in
    if length line == 0 then continues s else rest

-- The variables before the first line.
abbrev pub initial : Traffic → ℕ → Setting
initial w fresh = record {
  traffic = w;
  peer = none;
  dummy = false;
  device_config = true;
  fresh = fresh;
}
