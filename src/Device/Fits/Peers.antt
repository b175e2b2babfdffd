-- ===== src/Device/Fits/Peers.antt =====
-- Peers that come and go, and SetPrivateKey, keep the fields of a device.
use wireguard_go.Base.{ℕ, false, not, Option, none, some, List, [], ◌∷◌, length, ltb, is_some}
use wireguard_go.Base.Do.{◌>>◌}
use wireguard_go.Constants.{max_peers}
use wireguard_go.Crypto.{Crypto, is_zero}
use wireguard_go.Keys.{equals}
use wireguard_go.Routing
use wireguard_go.Routing.{RoutingTable}
use wireguard_go.Routing.Laws.{remove_peer-IsValid}
use wireguard_go.Device.{Device, put_peer, key_map_delete, lookup_peer, put_session, session_of}
use wireguard_go.Device.Peers.{
  start, stop, unsafe_remove_peer, remove_found, remove_peer, remove_each, remove_all_peers,
  map_peer, new_peer,
}
use wireguard_go.Timers.{timers_stop, expired_zero_key_material}
use wireguard_go.Device.Configure.{
  ReadLocks, no_locks, rlock_each, lock, stop_holding, remove_holding, remove_matching, precompute,
  precompute_each, set_private_key,
}
use wireguard_go.Device.Fits.{
  IsFit, AllFit, fit_if, AllFit-if, AllFit-some, AllFit-then, put_peer-IsFit, zero-AreWide,
}

start-IsFit : (now number : ℕ) (d : Device) → IsFit d → IsFit (start now number d)
unfolding start
start-IsFit now number d h =
    fit_if d.is_closed d _ h
      (fit_if (d.peers number).is_running d _ h (put_peer-IsFit d number _ h (h.peers_fit number)))

stop-IsFit : (number : ℕ) (d : Device) → IsFit d → IsFit (stop number d)
unfolding stop
stop-IsFit number d h =
    let peer = d.peers number in
    let stopped : Device =
      put_peer d number (record peer { is_running = false; timers = timers_stop peer.timers }) in
    let cleared : Device =
      put_session stopped number (expired_zero_key_material (session_of d number)) in
    let h1 : IsFit stopped = put_peer-IsFit d number _ h (h.peers_fit number) in
    let h2 : IsFit cleared = put_peer-IsFit stopped number _ h1 (h1.peers_fit number) in
    fit_if (not peer.is_running) d _ h (put_peer-IsFit cleared number _ h2 (h2.peers_fit number))

unrouted-IsFit :
    (number : ℕ) (d : Device)
    → IsFit d
    → IsFit (record d { routing = Routing.remove_peer d.routing number })
unrouted-IsFit number d h = record {
  valid = remove_peer-IsValid d.routing number h.valid;
  port_fits = h.port_fits;
  mark_fits = h.mark_fits;
  peers_fit = h.peers_fit;
}

unsafe_remove_peer-IsFit :
    (number : ℕ) (key : List ℕ) (d : Device) → IsFit d → IsFit (unsafe_remove_peer number key d)
unfolding unsafe_remove_peer
unsafe_remove_peer-IsFit number key d h = stop-IsFit number _ (unrouted-IsFit number d h)

remove_found-IsFit :
    (o : Option ℕ) (key : List ℕ) (d : Device) → IsFit d → IsFit (remove_found o key d)
unfolding remove_found
remove_found-IsFit none key d h = h
remove_found-IsFit (some number) key d h = unsafe_remove_peer-IsFit number key d h

pub remove_peer-IsFit : (key : List ℕ) (d : Device) → IsFit d → IsFit (remove_peer key d)
unfolding remove_peer
remove_peer-IsFit key d h = remove_found-IsFit (lookup_peer d key) key d h

remove_each-IsFit :
    (entries : List (List ℕ × ℕ)) (d : Device) → IsFit d → IsFit (remove_each entries d)
unfolding remove_each
remove_each-IsFit [] d h = h
remove_each-IsFit ((key, number) ∷ entries) d h =
    remove_each-IsFit entries (unsafe_remove_peer number key d)
      (unsafe_remove_peer-IsFit number key d h)

pub remove_all_peers-IsFit : (d : Device) → IsFit d → IsFit (remove_all_peers d)
unfolding remove_all_peers
remove_all_peers-IsFit d h = remove_each-IsFit d.key_map d h

map_peer-IsFit :
    (c : Crypto) (number : ℕ) (pk : List ℕ) (d : Device) → IsFit d → IsFit (map_peer c number pk d)
unfolding map_peer
map_peer-IsFit c number pk d h = put_peer-IsFit d number _ h zero-AreWide

pub new_peer-AllFit :
    (c : Crypto) (now number : ℕ) (pk : List ℕ) (d : Device)
    → IsFit d
    → AllFit (new_peer c now number pk d)
unfolding new_peer AllFit
new_peer-AllFit c now number pk d h =
    let mapped = map_peer-IsFit c number pk d h in
    AllFit-if d.is_closed none _ tt (
      AllFit-if (not (ltb (length d.key_map) max_peers)) none _ tt (
        AllFit-if (is_some (lookup_peer d pk)) none _ tt
          (AllFit-if d.is_up _ _ (start-IsFit now number (map_peer c number pk d) mapped) mapped)))

-- SetPrivateKey.
AllFit-after : (o : Option (Unit {0})) (d : Device) → IsFit d → AllFit (o >> some d)
unfolding AllFit
AllFit-after none d h = tt
AllFit-after (some u) d h = h

stop_holding-AllFit :
    (held : ReadLocks) (number : ℕ) (d : Device) → IsFit d → AllFit (stop_holding held number d)
unfolding stop_holding AllFit
stop_holding-AllFit held number d h =
    AllFit-if (not (d.peers number).is_running) (some d) _ h
      (AllFit-after (lock held number) (stop number d) (stop-IsFit number d h))

remove_holding-AllFit :
    (held : ReadLocks) (number : ℕ) (key : List ℕ) (d : Device)
    → IsFit d
    → AllFit (remove_holding held number key d)
unfolding remove_holding
remove_holding-AllFit held number key d h =
    let unrouted : Device = record d { routing = Routing.remove_peer d.routing number } in
    let unmap : Device → Device = λ d'. record d' { key_map = key_map_delete d'.key_map key } in
    AllFit-then (stop_holding held number unrouted) (λ d'. some (unmap d'))
      (stop_holding-AllFit held number unrouted (unrouted-IsFit number d h))
      (λ d' h'. AllFit-some (unmap d') h')

remove_matching-AllFit :
    (held : ReadLocks) (pk : List ℕ) (entries : List (List ℕ × ℕ)) (d : Device)
    → IsFit d
    → AllFit (remove_matching held pk entries d)
unfolding remove_matching
remove_matching-AllFit held pk [] d h = AllFit-some d h
remove_matching-AllFit held pk ((key, number) ∷ entries) d h =
    AllFit-if (equals (d.peers number).handshake.remote_static pk) _ _
      (AllFit-then (remove_holding held number key d) (remove_matching held pk entries)
        (remove_holding-AllFit held number key d h)
        (λ d'. remove_matching-AllFit held pk entries d'))
      (remove_matching-AllFit held pk entries d h)

precompute-IsFit : (c : Crypto) (number : ℕ) (d : Device) → IsFit d → IsFit (precompute c number d)
unfolding precompute
precompute-IsFit c number d h = put_peer-IsFit d number _ h (h.peers_fit number)

precompute_each-AllFit :
    (c : Crypto) (held : ReadLocks) (entries : List (List ℕ × ℕ)) (d : Device)
    → IsFit d
    → AllFit (precompute_each c held entries d)
unfolding precompute_each
precompute_each-AllFit c held [] d h = AllFit-some d h
precompute_each-AllFit c held ((key, number) ∷ entries) d h =
    let d' = precompute c number d in
    let h' = precompute-IsFit c number d h in
    AllFit-if (is_zero (d'.peers number).handshake.precomputed_static_static) _ _
      (AllFit-then (remove_holding held number key d') (precompute_each c held entries)
        (remove_holding-AllFit held number key d' h')
        (λ e. precompute_each-AllFit c held entries e))
      (precompute_each-AllFit c held entries d' h')

pub set_private_key-AllFit :
    (c : Crypto) (sk : List ℕ) (d : Device) → IsFit d → AllFit (set_private_key c sk d)
unfolding set_private_key
set_private_key-AllFit c sk d h =
    let held = rlock_each d.key_map no_locks in
    AllFit-then (remove_matching held _ d.key_map d) _ (remove_matching-AllFit held _ d.key_map d h)
      (λ d1 h1. precompute_each-AllFit c held d1.key_map _ h1)
