-- ===== src/Device/Running.antt =====
-- What starting and stopping peers and renewing the sockets keep of a device.
use wireguard_go.Base.{
  ℕ, ◌≡◌, refl, sym, ◌∙◌, inl, inr, Bool, true, false, Option, none, some, List, [], ◌∷◌, ◌==◌,
  Bool-cases, is_some, ==_refl,
}
use wireguard_go.Device.{Peer, Device, put_peer}
use wireguard_go.Device.Bind.{
  BindResults, clear_sources, clear_endpoint, unsafe_close_bind, use_sockets, bind_update,
}
use wireguard_go.Device.Peers.{start, stop}
use wireguard_go.Device.State.{start_each, stop_each}

-- Every peer of the list runs, or none does.
abbrev pub AllRunning : Bool → List (List ℕ × ℕ) → (ℕ → Peer) → Type 0
AllRunning b [] peers = Unit {0}
AllRunning b ((key, number) ∷ entries) peers =
    ((peers number).is_running ≡ b) × AllRunning b entries peers

-- What starting a peer leaves alone.
pub start_keeps :
    (now number : ℕ) (d : Device)
    → ((start now number d).is_closed ≡ d.is_closed)
      × ((start now number d).is_up ≡ d.is_up)
      × ((start now number d).key_map ≡ d.key_map)
unfolding start
start_keeps now number d = elim (Bool-cases d.is_closed) [
  | inl shut ↦ (simp shut refl, simp shut refl, simp shut refl)
  | inr live ↦ elim (Bool-cases ((d.peers number).is_running)) [
    | inl runs ↦ (simp (live, runs) refl, simp (live, runs) refl, simp (live, runs) refl)
    | inr rests ↦ (simp (live, rests) refl, simp (live, rests) refl, simp (live, rests) refl)
  ]
]

start_runs :
    (now number : ℕ) (d : Device)
    → d.is_closed ≡ false
    → ((start now number d).peers number).is_running ≡ true
unfolding start
start_runs now number d live = elim (Bool-cases ((d.peers number).is_running)) [
  | inl runs ↦ simp (live, runs) refl
  | inr rests ↦ simp (live, rests, ==_refl number) refl
]

pub start_others :
    (now number m : ℕ) (d : Device)
    → (d.peers m).is_running ≡ true
    → ((start now number d).peers m).is_running ≡ true
unfolding start
start_others now number m d h = elim (Bool-cases d.is_closed) [
  | inl shut ↦ simp shut h
  | inr live ↦ elim (Bool-cases ((d.peers number).is_running)) [
    | inl runs ↦ simp (live, runs) h
    | inr rests ↦ elim (Bool-cases (m == number)) [
      | inl same ↦ simp (live, rests, same) refl
      | inr other ↦ simp (live, rests, other) h
    ]
  ]
]

pub stop_keeps :
    (number : ℕ) (d : Device)
    → ((stop number d).is_closed ≡ d.is_closed)
      × ((stop number d).is_up ≡ d.is_up)
      × ((stop number d).key_map ≡ d.key_map)
unfolding stop
stop_keeps number d = elim (Bool-cases ((d.peers number).is_running)) [
  | inl runs ↦ (simp runs refl, simp runs refl, simp runs refl)
  | inr rests ↦ (simp rests refl, simp rests refl, simp rests refl)
]

pub stop_rests : (number : ℕ) (d : Device) → ((stop number d).peers number).is_running ≡ false
unfolding stop
stop_rests number d = elim (Bool-cases ((d.peers number).is_running)) [
  | inl runs ↦ simp (runs, ==_refl number) refl
  | inr rests ↦ simp rests refl
]

pub stop_others :
    (number m : ℕ) (d : Device)
    → (d.peers m).is_running ≡ false
    → ((stop number d).peers m).is_running ≡ false
unfolding stop
stop_others number m d h = elim (Bool-cases ((d.peers number).is_running)) [
  | inr rests ↦ simp rests h
  | inl runs ↦ elim (Bool-cases (m == number)) [
    | inl same ↦ simp (runs, same, ==_refl number) refl
    | inr other ↦ simp (runs, other, ==_refl number) h
  ]
]

-- All peers of a list, one after the other.
pub start_each-keeps :
    (now : ℕ) (entries : List (List ℕ × ℕ)) (d : Device)
    → ((start_each now entries d).is_up ≡ d.is_up)
      × ((start_each now entries d).key_map ≡ d.key_map)
unfolding start_each
start_each-keeps now [] d = (refl, refl)
start_each-keeps now ((key, number) ∷ entries) d =
    let (shut, up_, keys) = start_keeps now number d in
    let (up_', keys') = start_each-keeps now entries (start now number d) in
    (up_' ∙ up_, keys' ∙ keys)

start_each_others :
    (now m : ℕ) (entries : List (List ℕ × ℕ)) (d : Device)
    → (d.peers m).is_running ≡ true
    → ((start_each now entries d).peers m).is_running ≡ true
unfolding start_each
start_each_others now m [] d h = h
start_each_others now m ((key, number) ∷ entries) d h =
    start_each_others now m entries (start now number d) (start_others now number m d h)

pub start_each-AllRunning :
    (now : ℕ) (entries : List (List ℕ × ℕ)) (d : Device)
    → d.is_closed ≡ false
    → AllRunning true entries (start_each now entries d).peers
unfolding start_each
start_each-AllRunning now [] d live = tt
start_each-AllRunning now ((key, number) ∷ entries) d live = (
  start_each_others now number entries (start now number d) (start_runs now number d live),
  start_each-AllRunning now entries (start now number d) ((start_keeps now number d).0 ∙ live),
)

pub stop_each-keeps :
    (entries : List (List ℕ × ℕ)) (d : Device)
    → ((stop_each entries d).is_up ≡ d.is_up) × ((stop_each entries d).key_map ≡ d.key_map)
unfolding stop_each
stop_each-keeps [] d = (refl, refl)
stop_each-keeps ((key, number) ∷ entries) d =
    let (shut, up_, keys) = stop_keeps number d in
    let (up_', keys') = stop_each-keeps entries (stop number d) in (up_' ∙ up_, keys' ∙ keys)

stop_each_others :
    (m : ℕ) (entries : List (List ℕ × ℕ)) (d : Device)
    → (d.peers m).is_running ≡ false
    → ((stop_each entries d).peers m).is_running ≡ false
unfolding stop_each
stop_each_others m [] d h = h
stop_each_others m ((key, number) ∷ entries) d h =
    stop_each_others m entries (stop number d) (stop_others number m d h)

pub stop_each-AllRunning :
    (entries : List (List ℕ × ℕ)) (d : Device)
    → AllRunning false entries (stop_each entries d).peers
unfolding stop_each
stop_each-AllRunning [] d = tt
stop_each-AllRunning ((key, number) ∷ entries) d = (
  stop_each_others number entries (stop number d) (stop_rests number d),
  stop_each-AllRunning entries (stop number d),
)

-- What the bind's functions leave alone.
clear_sources-keeps :
    (entries : List (List ℕ × ℕ)) (d : Device)
    → ((clear_sources entries d).is_up ≡ d.is_up)
      × ((clear_sources entries d).is_closed ≡ d.is_closed)
unfolding clear_sources
clear_sources-keeps [] d = (refl, refl)
clear_sources-keeps ((key, number) ∷ entries) d = clear_sources-keeps entries (
    put_peer d number
      (record (d.peers number) { endpoint = clear_endpoint (d.peers number).endpoint }))

use_sockets-keeps :
    (opened : Option (ℕ × ℕ)) (marked : Bool) (d : Device)
    → ((use_sockets opened marked d).0.is_up ≡ d.is_up)
      × ((use_sockets opened marked d).0.is_closed ≡ d.is_closed)
unfolding use_sockets
use_sockets-keeps none marked d = (refl, refl)
use_sockets-keeps (some (sockets, port)) marked d =
    let d' : Device = record d { bind = some sockets; port = port } in
    let (same_up, same_closed) = clear_sources-keeps d.key_map d' in
    elim (Bool-cases (d.fwmark == 0)) [
      | inl unmarked ↦ (simp unmarked same_up, simp unmarked same_closed)
      | inr fwmark ↦ elim (Bool-cases marked) [
        | inl fine ↦ (simp (fwmark, fine) same_up, simp (fwmark, fine) same_closed)
        | inr failed ↦ (simp (fwmark, failed) refl, simp (fwmark, failed) refl)
      ]
    ]

pub close_bind-keeps :
    (r : BindResults) (d : Device)
    → ((unsafe_close_bind r d).0.is_up ≡ d.is_up)
      × ((unsafe_close_bind r d).0.is_closed ≡ d.is_closed)
unfolding unsafe_close_bind
close_bind-keeps r d = elim (Bool-cases (is_some d.bind)) [
  | inl bound ↦ (simp bound refl, simp bound refl)
  | inr unbound ↦ (simp unbound refl, simp unbound refl)
]

pub bind_update-keeps :
    (r : BindResults) (d : Device)
    → ((bind_update r d).0.is_up ≡ d.is_up) × ((bind_update r d).0.is_closed ≡ d.is_closed)
unfolding bind_update
bind_update-keeps r d =
    let (same_up, same_closed) = close_bind-keeps r d in
    let (open_up, open_closed) = use_sockets-keeps r.sockets r.marked (unsafe_close_bind r d).0 in
    elim (Bool-cases (unsafe_close_bind r d).1) [
      | inr failed ↦ (simp failed same_up, simp failed same_closed)
      | inl fine ↦ elim (Bool-cases d.is_up) [
        | inl up_ ↦
            let up' = same_up ∙ up_ in
            (simp (fine, up') (open_up ∙ same_up), simp (fine, up') (open_closed ∙ same_closed))
        | inr down_ ↦
            let down' = same_up ∙ down_ in
            (simp (fine, down') (sym down_), simp (fine, down') same_closed)
      ]
    ]
