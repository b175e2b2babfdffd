-- ===== src/Device/Create.antt =====
-- NewDevice of device.go, up to the goroutines that it starts. The buffers of the pool are left out.
use wireguard_go.Base.{arith, ℕ, ◌%◌, ◌^◌, ◌≡◌, refl, true, false, Option, none, some, []}
use wireguard_go.Replay.{zero_filter}
use wireguard_go.Routing.{reset}
use wireguard_go.Routing.Laws.{reset-IsValid}
use wireguard_go.Index
use wireguard_go.Ratelimiter
use wireguard_go.Ratelimiter.{Ratelimiter}
use wireguard_go.Noise.{zero_key}
use wireguard_go.Keypair.{Keypair}
use wireguard_go.Cookie.{CookieChecker}
use wireguard_go.Tun.Calls.{default_mtu}
use wireguard_go.Device.{Device}
use wireguard_go.Device.Peers.{zero_peer}
use wireguard_go.Device.Fits.{IsFit, zero-AreWide}
use wireguard_go.Device.Interface.{Reader, IsFollowing}

abbrev zero_limiter : Ratelimiter
zero_limiter = record {
  stop = false;
  stopped = false;
  table_ipv4 = λ ip. none;
  table_ipv6 = λ ip. none;
}

abbrev zero_checker : CookieChecker
zero_checker = record {
  mac1_key = zero_key;
  secret = zero_key;
  secret_set = 0;
  encryption_key = zero_key;
}

-- What stands at an address where there is no key pair yet.
abbrev zero_keypair : Keypair
zero_keypair = record {
  send_nonce = 0;
  send = zero_key;
  receive = zero_key;
  replay_filter = zero_filter;
  is_initiator = false;
  created = 0;
  local_index = 0;
  remote_index = 0;
}

-- `new(Device)` with its fields set, and the limiter that was initialized.
unfoldable pub made_device : Ratelimiter → Device
made_device limiter = record {
  is_up = false;
  is_closed = false;
  changing = false;
  current = false;
  bind = none;
  port = 0;
  fwmark = 0;
  noise = record { private_key = zero_key; public_key = zero_key };
  routing = reset;
  key_map = [];
  peers = λ number. zero_peer;
  indices = Index.init;
  heap = λ number. zero_keypair;
  mac = zero_checker;
  under_load_until = 0;
  limiter = limiter;
  handshake_queue = [];
}

-- The MTU that the interface answers, or the default, as an int32.
unfoldable pub initial_mtu : Option ℕ → ℕ
initial_mtu none = default_mtu
initial_mtu (some mtu) = mtu % 2 ^ 32

-- The device, with the reader of its interface's events. `none`: a panic of the limiter's Init.
unfoldable pub new_device : Option ℕ → Option Reader
unfolding made_device initial_mtu
new_device answer = elim (Ratelimiter.init zero_limiter) [
  | none ↦ none
  | some limiter ↦
      some (record { set_up = false; mtu = initial_mtu answer; device = made_device limiter })
]

-- A new device is made without a panic and is well-formed: it follows its interface, which is down,
-- its routing table is valid and its fields keep to their widths, whatever MTU the interface answers.
pub new_device_starts :
    (answer : Option ℕ)
    → (r : Reader) × (new_device answer ≡ some r) × IsFollowing r × IsFit r.device
unfolding new_device Ratelimiter.init
new_device_starts answer = (
  record {
    set_up = false;
    mtu = initial_mtu answer;
    device =
        made_device
          (record { stop = true; stopped = false; table_ipv4 = λ k. none; table_ipv6 = λ k. none });
  },
  refl,
  record {
    settled = record { unchanging = refl; is_current = refl; follow = tt };
    down_with = refl;
  },
  record {
    valid = reset-IsValid;
    port_fits = omega arith;
    mark_fits = omega arith;
    peers_fit = λ number. zero-AreWide;
  },
)
