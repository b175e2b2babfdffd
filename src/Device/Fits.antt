-- ===== src/Device/Fits.antt =====
-- The fields of a device keep to their widths, and its routing table stays valid.
pub mod Peers
use wireguard_go.Base.{
  ℕ, ◌^◌, ◌<◌, arith, Bool, true, false, not, Option, none, some, List, [], ◌∷◌, length, ltb, ◌==◌,
  if◌then◌else◌, is_some,
}
use wireguard_go.Base.Do.{◌>>=◌}
use wireguard_go.Constants.{max_peers}
use wireguard_go.Crypto.{Crypto, is_zero}
use wireguard_go.Keys.{equals}
use wireguard_go.Routing
use wireguard_go.Routing.{RoutingTable}
use wireguard_go.Routing.Laws.{IsValid, remove_peer-IsValid}
use wireguard_go.Device.{Peer, Device, put_peer, lookup_peer, put_session, session_of}
use wireguard_go.Device.Bind.{
  BindResults, unsafe_close_bind, bind_set_mark, clear_endpoint, clear_sources, use_sockets,
  bind_update,
}
use wireguard_go.Device.Peers.{
  start, stop, unsafe_remove_peer, remove_found, remove_peer, remove_each, remove_all_peers,
  map_peer, new_peer,
}
use wireguard_go.Timers.{timers_stop, expired_zero_key_material}

-- The uint16 and the uint64s of a peer.
pub record AreWide (interval tx rx : ℕ) : Type 0 where
  pub interval_fits : interval < 2 ^ 16
  pub tx_fits : tx < 2 ^ 64
  pub rx_fits : rx < 2 ^ 64

abbrev pub IsPeerWide : Peer → Type 0
IsPeerWide p = AreWide p.persistent_keepalive_interval p.tx_bytes p.rx_bytes

pub record AreFit (routing : RoutingTable) (port mark : ℕ) (peers : ℕ → Peer) : Type 0 where
  pub valid : IsValid routing
  pub port_fits : port < 2 ^ 16
  pub mark_fits : mark < 2 ^ 32
  pub peers_fit : (number : ℕ) → IsPeerWide (peers number)

-- The routing table is valid, the port is a uint16, the mark a uint32, and so are the peers' fields.
abbrev pub IsFit : Device → Type 0
IsFit d = AreFit d.routing d.port d.fwmark d.peers

-- The same of a device that there may not be.
unfoldable pub AllFit : Option Device → Type 0
AllFit none = Unit {0}
AllFit (some d) = IsFit d

abbrev fit_if : (b : Bool) (x y : Device) → IsFit x → IsFit y → IsFit (if b then x else y)
fit_if true x y h k = h
fit_if false x y h k = k

abbrev pair_if :
    (b : Bool) (x y : Device × Bool) → IsFit x.0 → IsFit y.0 → IsFit (if b then x else y).0
pair_if true x y h k = h
pair_if false x y h k = k

AllFit-if : (b : Bool) (x y : Option Device) → AllFit x → AllFit y → AllFit (if b then x else y)
AllFit-if true x y h k = h
AllFit-if false x y h k = k

AllFit-some : (d : Device) → IsFit d → AllFit (some d)
unfolding AllFit
AllFit-some d h = h

AllFit-then :
    (o : Option Device) (f : Device → Option Device)
    → AllFit o
    → ((d : Device) → IsFit d → AllFit (f d))
    → AllFit (o >>= f)
unfolding AllFit
AllFit-then none f h go = tt
AllFit-then (some d) f h go = go d h

peer_if : (b : Bool) (p q : Peer) → IsPeerWide p → IsPeerWide q → IsPeerWide (if b then p else q)
peer_if true p q h k = h
peer_if false p q h k = k

pub put_peer-IsFit :
    (d : Device) (number : ℕ) (peer : Peer)
    → IsFit d
    → IsPeerWide peer
    → IsFit (put_peer d number peer)
put_peer-IsFit d number peer h wide = record {
  valid = h.valid;
  port_fits = h.port_fits;
  mark_fits = h.mark_fits;
  peers_fit = λ n. peer_if (n == number) peer (d.peers n) wide (h.peers_fit n);
}

pub zero-AreWide : AreWide 0 0 0
zero-AreWide = record { interval_fits = omega arith; tx_fits = omega arith; rx_fits = omega arith }

-- The bind.
clear_sources-IsFit :
    (entries : List (List ℕ × ℕ)) (d : Device) → IsFit d → IsFit (clear_sources entries d)
unfolding clear_sources
clear_sources-IsFit [] d h = h
clear_sources-IsFit ((key, number) ∷ entries) d h =
    let peer = d.peers number in
    clear_sources-IsFit entries
      (put_peer d number (record peer { endpoint = clear_endpoint peer.endpoint }))
      (put_peer-IsFit d number (record peer { endpoint = clear_endpoint peer.endpoint }) h
        (h.peers_fit number))

-- CreateBind answers a port that is a uint16.
unfoldable pub IsPort : Option (ℕ × ℕ) → Type 0
IsPort none = Unit {0}
IsPort (some (sockets, port)) = port < 2 ^ 16

use_sockets-IsFit :
    (opened : Option (ℕ × ℕ)) (marked : Bool) (d : Device)
    → IsPort opened
    → IsFit d
    → IsFit (use_sockets opened marked d).0
unfolding use_sockets IsPort
use_sockets-IsFit none marked d p h = record {
  valid = h.valid;
  port_fits = omega arith;
  mark_fits = h.mark_fits;
  peers_fit = h.peers_fit;
}
use_sockets-IsFit (some (sockets, port)) marked d p h =
    let d' : Device = record d { bind = some sockets; port = port } in
    let h' : IsFit d' = record {
      valid = h.valid;
      port_fits = p;
      mark_fits = h.mark_fits;
      peers_fit = h.peers_fit;
    } in
    let cleared = clear_sources-IsFit d.key_map d' h' in
    pair_if (d.fwmark == 0) _ _ cleared (pair_if marked _ (d', false) cleared h')

close_bind-IsFit : (r : BindResults) (d : Device) → IsFit d → IsFit (unsafe_close_bind r d).0
unfolding unsafe_close_bind
close_bind-IsFit r d h = pair_if (is_some d.bind) (record d { bind = none }, r.closed) (d, true) h h

pub bind_update-IsFit :
    (r : BindResults) (d : Device) → IsPort r.sockets → IsFit d → IsFit (bind_update r d).0
unfolding bind_update
bind_update-IsFit r d p h =
    let d' = (unsafe_close_bind r d).0 in
    let h' = close_bind-IsFit r d h in
    pair_if (not (unsafe_close_bind r d).1) (d', false) _ h'
      (pair_if d'.is_up _ (d', true) (use_sockets-IsFit r.sockets r.marked d' p h') h')

pub bind_set_mark-IsFit :
    (r : BindResults) (mark : ℕ) (d : Device)
    → mark < 2 ^ 32
    → IsFit d
    → IsFit (bind_set_mark r mark d).0
unfolding bind_set_mark
bind_set_mark-IsFit r mark d m h =
    let d' : Device = record d { fwmark = mark } in
    let h' : IsFit d' = record {
      valid = h.valid;
      port_fits = h.port_fits;
      mark_fits = m;
      peers_fit = h.peers_fit;
    } in
    pair_if (d.fwmark == mark) (d, true) _ h
      (pair_if d.is_up _ (d', true) (pair_if (is_some d.bind) (d', r.marked) (d', true) h' h') h')
