-- ===== src/Device/Bind.antt =====
-- The functions of conn.go on the device's bind.
use wireguard_go.Base.{
  ℕ, Bool, true, false, not, Option, none, some, List, [], ◌∷◌, ◌==◌, if◌then◌else◌, is_some,
}
use wireguard_go.Device.{Endpoint, clear_src, Device, put_peer}

-- What the operating system answers: to the close, to CreateBind (the sockets and the port), and to
-- SetMark.
pub record BindResults : Type 0 where
  pub closed : Bool
  pub sockets : Option (ℕ × ℕ)
  pub marked : Bool

-- The device after the close, and whether there was no error.
unfoldable pub unsafe_close_bind : BindResults → Device → Device × Bool
unsafe_close_bind r d = if is_some d.bind then (record d { bind = none }, r.closed) else (d, true)

unfoldable pub bind_set_mark : BindResults → ℕ → Device → Device × Bool
bind_set_mark r mark d =
    let d' = record d { fwmark = mark } in
    if d.fwmark == mark
    then (d, true)
    else if d.is_up
    then (if is_some d.bind then (d', r.marked) else (d', true))
    else (d', true)

unfoldable pub clear_endpoint : Option Endpoint → Option Endpoint
clear_endpoint none = none
clear_endpoint (some e) = some (clear_src e)

-- "clear cached source addresses"
unfoldable pub clear_sources : List (List ℕ × ℕ) → Device → Device
unfolding clear_endpoint
clear_sources [] d = d
clear_sources ((key, number) ∷ entries) d =
    let peer = d.peers number in
    clear_sources entries
      (put_peer d number (record peer { endpoint = clear_endpoint peer.endpoint }))

-- BindUpdate after CreateBind: `opened` is the sockets and the port, or an error.
unfoldable pub use_sockets : Option (ℕ × ℕ) → Bool → Device → Device × Bool
unfolding clear_sources
use_sockets none marked d = (record d { bind = none; port = 0 }, false)
use_sockets (some (sockets, port)) marked d =
    let d' = record d { bind = some sockets; port = port } in
    if d.fwmark == 0
    then (clear_sources d.key_map d', true)
    else if marked
    then (clear_sources d.key_map d', true)
    else (d', false)

unfoldable pub bind_update : BindResults → Device → Device × Bool
unfolding unsafe_close_bind use_sockets
bind_update r d =
    let (d', ok) = unsafe_close_bind r d in
    if not ok
    then (d', false)
    else if d'.is_up
    then use_sockets r.sockets r.marked d'
    else (d', true)

unfoldable pub bind_close : BindResults → Device → Device × Bool
unfolding unsafe_close_bind
bind_close r d = unsafe_close_bind r d
