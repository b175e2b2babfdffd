-- ===== src/Device/State.antt =====
-- The device goes up and down, and closes: device.go.
use wireguard_go.Base.{
  ℕ, zero, suc, ◌+◌, Bool, true, false, not, Option, none, some, List, [], ◌∷◌, length, ltb, leb,
  if◌then◌else◌,
}
use wireguard_go.Constants.{under_load_after_time, under_load_queue_size}
use wireguard_go.Ratelimiter
use wireguard_go.Device.{Device}
use wireguard_go.Device.Bind.{BindResults, bind_update, bind_close}
use wireguard_go.Device.Peers.{start, stop, remove_all_peers}

abbrev pub same_bool : Bool → Bool → Bool
same_bool true b = b
same_bool false b = not b

unfoldable pub start_each : ℕ → List (List ℕ × ℕ) → Device → Device
unfolding start
start_each now [] d = d
start_each now ((key, number) ∷ entries) d = start_each now entries (start now number d)

unfoldable pub stop_each : List (List ℕ × ℕ) → Device → Device
unfolding stop
stop_each [] d = d
stop_each ((key, number) ∷ entries) d = stop_each entries (stop number d)

-- "change state of device".
unfoldable pub change_state : ℕ → BindResults → Bool → Device → Device
unfolding start_each stop_each bind_update bind_close
change_state now r true d =
    let (d', ok) = bind_update r d in
    if ok then start_each now d'.key_map d' else record d' { is_up = false }
change_state now r false d = let d' = (bind_close r d).0 in stop_each d'.key_map d'

-- deviceUpdateState, by rounds: `results` is what the system answers in each. `none`: the rounds
-- given are used up.
unfoldable pub device_update_state : ℕ → ℕ → (ℕ → BindResults) → Device → Option Device
unfolding change_state
device_update_state zero now results d = none
device_update_state (suc rounds) now results d =
    let new_is_up = d.is_up in
    let changed = change_state now (results rounds) new_is_up (record d { changing = true }) in
    let next =
      device_update_state rounds now results
        (record changed { current = new_is_up; changing = false }) in
    if d.changing
    then some d
    else if same_bool new_is_up d.current
    then some (record d { changing = false })
    else next

unfoldable pub up : ℕ → ℕ → (ℕ → BindResults) → Device → Option Device
unfolding device_update_state
up rounds now results d =
    let next = device_update_state rounds now results (record d { is_up = true }) in
    if d.is_closed then some d else next

unfoldable pub down : ℕ → ℕ → (ℕ → BindResults) → Device → Option Device
unfolding device_update_state
down rounds now results d = device_update_state rounds now results (record d { is_up = false })

-- `len(device.queue.handshake) >= UnderLoadQueueSize`, or so in the last second.
unfoldable pub is_under_load : ℕ → Device → Device × Bool
is_under_load now d =
    if leb under_load_queue_size (length d.handshake_queue)
    then (record d { under_load_until = now + under_load_after_time }, true)
    else (d, ltb now d.under_load_until)

-- Close. `none` is the panic of the limiter's Close. The device's other queues are flushed as well.
unfoldable pub close : BindResults → Device → Option Device
unfolding bind_close remove_all_peers
close r d =
    let closed = record d { is_closed = true; changing = true } in
    let down = record (bind_close r closed).0 { is_up = false } in
    let empty = remove_all_peers down in
    if d.is_closed then some d else elim (Ratelimiter.close empty.limiter) [
      | none ↦ none
      | some limiter ↦
          some (record empty { limiter = limiter; changing = false; handshake_queue = [] })
    ]
