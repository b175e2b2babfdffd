-- ===== src/Tests/Devices.antt =====
-- A device with one peer.
use wireguard_go.Base.{ℕ, ◌≡◌, ◌||◌, refl, inl, true, false, none, some, List, [], ◌∷◌}
use wireguard_go.Ratelimiter.{Ratelimiter}
use wireguard_go.Crypto.{public_key}
use wireguard_go.Keys.{equals}
use wireguard_go.Noise.{zero_key}
use wireguard_go.Cookie.{CookieChecker}
use wireguard_go.Device.{Device, Peer, lookup_peer, key_map_lookup}
use wireguard_go.Device.Bind.{BindResults, bind_update}
use wireguard_go.Device.Peers.{zero_peer, zero_handshake, remove_peer}
use wireguard_go.Device.State.{up}
use wireguard_go.Device.Settles.{IsSettled, up_settles}
use wireguard_go.Device.Removal.{IsRemoved, remove_peer-IsRemoved}
use wireguard_go.Device.Configure.{set_private_key}
use wireguard_go.Device.Deadlock.{set_private_key_blocks}
use wireguard_go.Tests.Handshakes.{toy}
use wireguard_go.Tests.Routes.{table4, host, three-IsShaped, host-IsAddress, any6, any6-IsAddress}
use wireguard_go.Tests.Sessions.{heap, table, session}

abbrev pub checker : CookieChecker
checker = record {
  mac1_key = zero_key;
  secret = zero_key;
  secret_set = 0;
  encryption_key = zero_key;
}

abbrev pub limiter : Ratelimiter
limiter = record { stop = true; stopped = false; table_ipv4 = λ ip. none; table_ipv6 = λ ip. none }

abbrev peer_key : List ℕ
peer_key = 5 ∷ []

-- The peer 2 has the key pairs of `session` and 10.1.0.0/16.
abbrev pub peer : Peer
peer = record zero_peer {
  keypairs = session.keypairs;
  handshake = record zero_handshake { remote_static = peer_key };
  endpoint = some (record { dst = 192 ∷ 0 ∷ 2 ∷ 1 ∷ []; has_src = true });
}

abbrev pub idle : Device
idle = record {
  is_up = false;
  is_closed = false;
  changing = false;
  current = false;
  bind = none;
  port = 0;
  fwmark = 0;
  noise = record { private_key = 3 ∷ []; public_key = 3 ∷ [] };
  routing = table4;
  key_map = (peer_key, 2) ∷ [];
  peers = λ n. peer;
  indices = table;
  heap = heap;
  mac = checker;
  under_load_until = 0;
  limiter = limiter;
  handshake_queue = [];
}

abbrev pub busy : Device
busy = record idle {
  is_up = true;
  current = true;
  bind = some 1;
  peers = λ n. record peer { is_running = true };
}

abbrev pub opens : ℕ → BindResults
opens n = record { closed = true; sockets = some (1, 51820); marked = true }

pub idle-IsSettled : IsSettled idle
idle-IsSettled = record { unchanging = refl; is_current = refl; follow = (refl, tt) }

busy-IsSettled : IsSettled busy
busy-IsSettled = record { unchanging = refl; is_current = refl; follow = (refl, tt) }

up_settles_example :
    (d' : Device) × (up 3 1_000 opens idle ≡ some d')
    × IsSettled d'
    × (d'.is_up
        ≡ (false || (bind_update (opens 2) (record idle { is_up = true; changing = true })).1))
up_settles_example = up_settles 0 1_000 opens idle idle-IsSettled refl

remove_peer-IsRemoved_example :
    IsRemoved peer_key zero_key 2 host any6 busy (remove_peer peer_key busy)
unfolding lookup_peer key_map_lookup
remove_peer-IsRemoved_example =
    remove_peer-IsRemoved peer_key zero_key 2 host any6 busy refl
      (record { shaped4 = three-IsShaped; shaped6 = tt }) host-IsAddress any6-IsAddress

set_private_key_blocks_example : set_private_key toy peer_key busy ≡ none
unfolding equals public_key
set_private_key_blocks_example = set_private_key_blocks toy peer_key busy (inl (refl, refl))
