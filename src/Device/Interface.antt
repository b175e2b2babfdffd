-- ===== src/Device/Interface.antt =====
-- tun.go: the device follows its interface. The int that MTU answers is its bit pattern, and the
-- MTU of the device an int32.
use wireguard_go.Base.{
  ℕ, suc, ◌+◌, ◌-◌, ◌%◌, ◌^◌, ◌≡◌, Bool, true, false, not, ◌&&◌, ◌||◌, Option, none, some, List, [],
  ◌∷◌, leb, ◌==◌, if◌then◌else◌, bit_and,
}
use wireguard_go.Base.Do.{◌>>=◌}
use wireguard_go.Device.{Device}
use wireguard_go.Device.Bind.{BindResults}
use wireguard_go.Device.State.{up, down}
use wireguard_go.Device.Settles.{IsSettled}
use wireguard_go.Tun.Listener.{event_up, event_down, event_mtu_update}

-- The variable of the reader, `device.tun.mtu` and the rest of the device.
pub record Reader : Type 0 where
  pub set_up : Bool
  pub mtu : ℕ
  pub device : Device

-- What a turn meets: the event, the answer of MTU, the time and what the sockets' calls answer to Up
-- and to Down.
pub record Turn : Type 0 where
  pub event : ℕ
  pub mtu : Option ℕ
  pub now : ℕ
  pub ups : ℕ → BindResults
  pub downs : ℕ → BindResults

-- `event & flag != 0`.
abbrev pub has : ℕ → ℕ → Bool
has event flag = not (bit_and event flag == 0)

-- `int(old)` of an int32.
abbrev int_of : ℕ → ℕ
int_of n = if leb (2 ^ 31) n then n + (2 ^ 64 - 2 ^ 32) else n

-- An MTU that is too large is stored as well.
unfoldable pub update_mtu : Option ℕ → Reader → Reader
update_mtu none r = r
update_mtu (some mtu) r = if int_of r.mtu == mtu then r else record r { mtu = mtu % 2 ^ 32 }

unfoldable pub on_mtu : Turn → Reader → Reader
unfolding update_mtu
on_mtu t r = if has t.event event_mtu_update then update_mtu t.mtu r else r

abbrev with_device : Bool → Reader → Device → Reader
with_device set_up r d = record r { set_up = set_up; device = d }

unfoldable pub on_up : ℕ → Turn → Reader → Option Reader
on_up rounds t r =
    let risen = up rounds t.now t.ups r.device >>= (λ d. some (with_device true r d)) in
    if has t.event event_up && not r.set_up then risen else some r

unfoldable pub on_down : ℕ → Turn → Reader → Option Reader
on_down rounds t r =
    let fallen = down rounds t.now t.downs r.device >>= (λ d. some (with_device false r d)) in
    if has t.event event_down && r.set_up then fallen else some r

unfoldable pub handle_event : ℕ → Turn → Reader → Option Reader
unfolding on_mtu on_up on_down
handle_event rounds t r = on_up rounds t (on_mtu t r) >>= on_down rounds t

-- `none`: deviceUpdateState has used up its rounds.
unfoldable pub read_events : ℕ → List Turn → Reader → Option Reader
unfolding handle_event
read_events rounds [] r = some r
read_events rounds (t ∷ ts) r = handle_event rounds t r >>= read_events rounds ts

-- The device is settled, and it is down while the interface is.
pub record IsFollowing (r : Reader) : Type 0 where
  pub settled : IsSettled r.device
  pub down_with : (r.set_up || not r.device.is_up) ≡ true

-- A part of a turn that ends, with the device following.
abbrev Follows : Option Reader → Type 0
Follows o = (r : Reader) × (o ≡ some r) × IsFollowing r

-- Three rounds of deviceUpdateState and more.
abbrev rounds : ℕ → ℕ
rounds n = suc (suc (suc n))
