-- ===== src/Device/Configure.antt =====
-- SetPrivateKey of device.go, with the locks of the peers' handshakes that it holds.
use wireguard_go.Base.{ℕ, ◌+◌, not, Option, some, List, [], ◌∷◌, ◌==◌, if◌then◌else◌}
use wireguard_go.Base.Do.{◌>>=◌, ◌>>◌, guard}
use wireguard_go.Keys.{equals, is_zero_key}
use wireguard_go.Crypto.{Crypto, is_zero, public_key, shared_secret}
use wireguard_go.Noise.{NoiseKeys, zero_key}
use wireguard_go.Cookie.{init_checker}
use wireguard_go.Routing
use wireguard_go.Device.{Device, put_peer, key_map_delete}
use wireguard_go.Device.Peers.{stop}

-- The read locks of the peers' handshake mutexes that the goroutine holds, by the number of the peer.
abbrev pub ReadLocks : Type 0
ReadLocks = ℕ → ℕ

abbrev pub no_locks : ReadLocks
no_locks number = 0

-- RLock of a handshake's mutex.
unfoldable pub rlock : ℕ → ReadLocks → ReadLocks
rlock number held n = if n == number then held n + 1 else held n

-- The loop that takes the read lock of every peer's handshake, until SetPrivateKey returns.
unfoldable pub rlock_each : List (List ℕ × ℕ) → ReadLocks → ReadLocks
unfolding rlock
rlock_each [] held = held
rlock_each ((key, number) ∷ entries) held = rlock_each entries (rlock number held)

-- Lock of a handshake's mutex, as the documentation of sync.RWMutex has it: it waits until every
-- reader has left. `none`: a reader is the goroutine itself, so that it never ends.
unfoldable pub lock : ReadLocks → ℕ → Option (Unit {0})
lock held number = guard (held number == 0)

-- Peer.Stop by a goroutine that holds read locks: after its early return it takes the write lock
-- of the peer's handshake.
unfoldable pub stop_holding : ReadLocks → ℕ → Device → Option Device
unfolding lock stop
stop_holding held number d =
    let stopped = lock held number >> some (stop number d) in
    if not (d.peers number).is_running then some d else stopped

-- unsafeRemovePeer by such a goroutine.
unfoldable pub remove_holding : ReadLocks → ℕ → List ℕ → Device → Option Device
unfolding stop_holding key_map_delete
remove_holding held number key d = do
  let unrouted = record d { routing = Routing.remove_peer d.routing number }
  stopped ← stop_holding held number unrouted
  some (record stopped { key_map = key_map_delete stopped.key_map key })

-- "remove peers with matching public keys"
unfoldable pub remove_matching : ReadLocks → List ℕ → List (List ℕ × ℕ) → Device → Option Device
unfolding remove_holding
remove_matching held pk [] d = some d
remove_matching held pk ((key, number) ∷ entries) d =
    let skip = remove_matching held pk entries d in
    let remove = remove_holding held number key d >>= remove_matching held pk entries in
    if equals (d.peers number).handshake.remote_static pk then remove else skip

-- "do static-static DH pre-computations" for one peer, and for those that are left.
unfoldable pub precompute : Crypto → ℕ → Device → Device
precompute c number d =
    let peer = d.peers number in
    let sk = d.noise.private_key in
    let secret =
      if is_zero_key sk then zero_key else shared_secret c sk peer.handshake.remote_static in
    put_peer d number
      (record peer { handshake = record peer.handshake { precomputed_static_static = secret } })

unfoldable pub precompute_each : Crypto → ReadLocks → List (List ℕ × ℕ) → Device → Option Device
unfolding precompute remove_holding
precompute_each c held [] d = some d
precompute_each c held ((key, number) ∷ entries) d =
    let d' = precompute c number d in
    let keep = precompute_each c held entries d' in
    let remove = remove_holding held number key d' >>= precompute_each c held entries in
    if is_zero (d'.peers number).handshake.precomputed_static_static then remove else keep

-- `none`: it never returns.
unfoldable pub set_private_key : Crypto → List ℕ → Device → Option Device
unfolding rlock_each remove_matching precompute_each
set_private_key c sk d = do
  let held = rlock_each d.key_map no_locks
  let pk = public_key c sk
  d1 ← remove_matching held pk d.key_map d
  let noise : NoiseKeys = record { private_key = sk; public_key = pk }
  let d2 = record d1 { noise = noise; mac = init_checker c d1.mac pk }
  precompute_each c held d2.key_map d2
