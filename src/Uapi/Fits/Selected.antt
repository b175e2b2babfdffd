-- ===== src/Uapi/Fits/Selected.antt =====
-- The lines about the selected peer.
use wireguard_go.Base.{
  ℕ, ◌≡◌, sym, subst, inl, inr, Bool, true, false, not, ◌&&◌, ◌||◌, Option, none, some, List,
  length, ◌==◌, if◌then◌else◌,
}
use wireguard_go.Routing
use wireguard_go.Routing.{RoutingTable, ipv4_len, ipv6_len}
use wireguard_go.Routing.Laws.{IsValid, remove_peer-IsValid, insert_ipv4, insert_ipv6}
use wireguard_go.Crypto.{Crypto}
use wireguard_go.Keys.{equals}
use wireguard_go.Device.{Endpoint, Device, lookup_peer}
use wireguard_go.Device.Peers.{zero_peer, remove_peer, new_peer}
use wireguard_go.Device.Fits.{IsFit, AllFit, put_peer-IsFit, zero-AreWide}
use wireguard_go.Device.Fits.Peers.{remove_peer-IsFit, new_peer-AllFit}
use wireguard_go.Traffic.{Traffic, peer_of, update_peer}
use wireguard_go.Send.{send_keepalive}
use wireguard_go.Uapi.{
  Setting, continues, with_device, select_dummy, created_peer, find_peer, select_peer,
  remove_selected, set_preshared_key, set_endpoint, set_interval, replace_allowed_ips, inserted,
  add_allowed_ip,
}
use wireguard_go.Uapi.Fits.{Fits, Fits-if, IsNetwork, IsBelow}

select_dummy-IsFit : (s : Setting) → IsFit s.traffic.device → IsFit (select_dummy s).traffic.device
unfolding select_dummy
select_dummy-IsFit s h = put_peer-IsFit s.traffic.device s.fresh zero_peer h zero-AreWide

dummy_if-IsFit :
    (b : Bool) (s : Setting)
    → IsFit s.traffic.device
    → IsFit (if b then select_dummy s else s).traffic.device
dummy_if-IsFit true s h = select_dummy-IsFit s h
dummy_if-IsFit false s h = h

created_peer-Fits :
    (c : Crypto) (now : ℕ) (s : Setting) (o : Option Device)
    → AllFit o
    → Fits (created_peer c now s o)
unfolding created_peer Fits AllFit
created_peer-Fits c now s none h = tt
created_peer-Fits c now s (some d) h = h

find_peer-Fits :
    (c : Crypto) (now : ℕ) (o : Option ℕ) (pk : List ℕ) (s : Setting)
    → IsFit s.traffic.device
    → Fits (find_peer c now o pk s)
unfolding find_peer Fits
find_peer-Fits c now (some number) pk s h = h
find_peer-Fits c now none pk s h =
    created_peer-Fits c now s (new_peer c now s.fresh pk s.traffic.device)
      (new_peer-AllFit c now s.fresh pk s.traffic.device h)

pub select_peer-Fits :
    (c : Crypto) (now : ℕ) (o : Option (List ℕ)) (s : Setting)
    → IsFit s.traffic.device
    → Fits (select_peer c now o s)
unfolding select_peer Fits
select_peer-Fits c now none s h = tt
select_peer-Fits c now (some pk) s h =
    let same = equals s.traffic.device.noise.public_key pk in
    let s' = if same then select_dummy s else s in
    find_peer-Fits c now (lookup_peer s'.traffic.device pk) pk s' (dummy_if-IsFit same s h)

setting_if :
    (b : Bool) (s s' : Setting)
    → IsFit s.traffic.device
    → IsFit s'.traffic.device
    → IsFit (if b then s else s').traffic.device
setting_if true s s' h k = h
setting_if false s s' h k = k

pub remove_selected-Fits :
    (number : ℕ) (s : Setting) → IsFit s.traffic.device → Fits (remove_selected number s)
unfolding remove_selected Fits
remove_selected-Fits number s h =
    let key = (peer_of s.traffic number).handshake.remote_static in
    let removed = with_device s (remove_peer key s.traffic.device) in
    select_dummy-IsFit (if s.dummy then s else removed)
      (setting_if s.dummy s removed h (remove_peer-IsFit key s.traffic.device h))

pub set_preshared_key-Fits :
    (o : Option (List ℕ)) (number : ℕ) (s : Setting)
    → IsFit s.traffic.device
    → Fits (set_preshared_key o number s)
unfolding set_preshared_key Fits
set_preshared_key-Fits none number s h = tt
set_preshared_key-Fits (some psk) number s h =
    put_peer-IsFit s.traffic.device number _ h (h.peers_fit number)

pub set_endpoint-Fits :
    (o : Option Endpoint) (number : ℕ) (s : Setting)
    → IsFit s.traffic.device
    → Fits (set_endpoint o number s)
unfolding set_endpoint Fits
set_endpoint-Fits none number s h = tt
set_endpoint-Fits (some e) number s h =
    put_peer-IsFit s.traffic.device number _ h (h.peers_fit number)

send_keepalive-IsFit :
    (number element : ℕ) (w : Traffic)
    → IsFit w.device
    → IsFit (send_keepalive number element w).0.device
unfolding send_keepalive
send_keepalive-IsFit number element w h =
    let peer = peer_of w number in
    by_test (not (length peer.nonce_queue == 0) || peer.packet_in_nonce_queue_is_awaiting_key) _ _ h
      (put_peer-IsFit w.device number _ h (h.peers_fit number))
  where
    by_test :
        (b : Bool) (x y : Traffic × Bool)
        → IsFit x.0.device
        → IsFit y.0.device
        → IsFit (if b then x else y).0.device
    by_test true x y h k = h
    by_test false x y h k = k

pub set_interval-Fits :
    (o : Option ℕ) (number : ℕ) (s : Setting)
    → IsBelow 16 o
    → IsFit s.traffic.device
    → Fits (set_interval o number s)
unfolding set_interval Fits IsBelow
set_interval-Fits none number s below h = tt
set_interval-Fits (some secs) number s below h =
    let peer = peer_of s.traffic number in
    let w = update_peer s.traffic number (record peer { persistent_keepalive_interval = secs }) in
    let wide = h.peers_fit number in
    let set =
      put_peer-IsFit s.traffic.device number (record peer { persistent_keepalive_interval = secs })
        h (record { interval_fits = below; tx_fits = wide.tx_fits; rx_fits = wide.rx_fits }) in
    Fits-if
      (peer.persistent_keepalive_interval == 0 && not (secs == 0) && w.device.is_up && not s.dummy)
      _ _ (send_keepalive-IsFit number s.fresh w set) set

-- A device with another routing table that is valid.
routed-IsFit :
    (d : Device) (table : RoutingTable)
    → IsFit d
    → IsValid table
    → IsFit (record d { routing = table })
routed-IsFit d table h valid = record {
  valid = valid;
  port_fits = h.port_fits;
  mark_fits = h.mark_fits;
  peers_fit = h.peers_fit;
}

pub replace_allowed_ips-Fits :
    (number : ℕ) (s : Setting) → IsFit s.traffic.device → Fits (replace_allowed_ips number s)
unfolding replace_allowed_ips Fits
replace_allowed_ips-Fits number s h =
    let d = s.traffic.device in
    Fits-if s.dummy (continues s) _ h (
      routed-IsFit d (Routing.remove_peer d.routing number) h
        (remove_peer-IsValid d.routing number h.valid))

-- Insert of a network that ParseCIDR gives does not panic, and keeps the table valid.
insert-IsValid :
    (table : RoutingTable) (ip : List ℕ) (ones number : ℕ)
    → IsValid table
    → IsNetwork (some (ip, ones))
    → (t : RoutingTable) × (Routing.insert table ip ones number ≡ some t) × IsValid t
unfolding IsNetwork
insert-IsValid table ip ones number valid (inl (is_address, fits)) =
    let (t, inserted_, valid', kept, owners) =
      insert_ipv4 table ip ones number valid is_address fits in
    (t, inserted_, valid')
insert-IsValid table ip ones number valid (inr (is_address, fits)) =
    let (t, inserted_, valid', kept, owners) =
      insert_ipv6 table ip ones number valid is_address fits in
    (t, inserted_, valid')

pub add_allowed_ip-Fits :
    (o : Option (List ℕ × ℕ)) (number : ℕ) (s : Setting)
    → IsNetwork o
    → IsFit s.traffic.device
    → Fits (add_allowed_ip o number s)
unfolding add_allowed_ip inserted Fits
add_allowed_ip-Fits none number s network h = tt
add_allowed_ip-Fits (some (ip, ones)) number s network h =
    let d = s.traffic.device in
    let (t, inserted_, valid) = insert-IsValid d.routing ip ones number h.valid network in
    Fits-if s.dummy (continues s) _ h
      (subst (λ o. Fits (inserted s o)) (sym inserted_) (routed-IsFit d t h valid))
