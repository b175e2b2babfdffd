-- ===== src/Uapi/Dummy.antt =====
-- The variable `dummy` of ipcSetOperation is never reset.
use wireguard_go.Base.{
  ℕ, ◌≡◌, refl, sym, ◌∙◌, inl, inr, Bool, true, false, not, ◌&&◌, ◌||◌, Option, none, some, List,
  [], ◌∷◌, ◌==◌, if◌then◌else◌, bytes_eq, Bool-cases, length, subst, ltb, is_some,
}
use wireguard_go.Base.Text.{codes}
use wireguard_go.Constants.{max_peers}
use wireguard_go.Routing
use wireguard_go.Routing.{RoutingTable}
use wireguard_go.Crypto.{Crypto}
use wireguard_go.Keys.{from_hex, equals}
use wireguard_go.Device.{Endpoint, Device, lookup_peer}
use wireguard_go.Device.Bind.{BindResults}
use wireguard_go.Device.Peers.{start, map_peer, new_peer}
use wireguard_go.Traffic.{Traffic, peer_of, update_peer}
use wireguard_go.Send.{send_keepalive}
use wireguard_go.Uapi.{
  Parsers, Setting, Outcome, continues, fails, stuck, with_device, select_dummy, created_peer,
  find_peer, select_peer, remove_selected, set_preshared_key, set_endpoint, set_interval,
  replace_allowed_ips, inserted, add_allowed_ip, set_selected, for_selected, set_peer, then_peer,
  set_parts, set_line, and_then, set_operation, is_true,
}
use wireguard_go.Uapi.Fields.{split, parse_uint}

-- A dummy is selected, in the peers' part, and the routing table is `t`.
abbrev pub IsQuiet : RoutingTable → Setting → Type 0
IsQuiet t s = (s.dummy ≡ true) × (s.device_config ≡ false) × (s.traffic.device.routing ≡ t)

-- The same of the setting that an outcome leaves, if it leaves one.
pub Quiet : RoutingTable → Outcome → Type 0
Quiet t (continues s) = IsQuiet t s
Quiet t (fails error) = Unit {0}
Quiet t stuck = Unit {0}

Quiet-continues : (t : RoutingTable) (s : Setting) → IsQuiet t s → Quiet t (continues s)
unfolding Quiet
Quiet-continues t s q = q

module _ (t : RoutingTable) where
  Quiet-if : (b : Bool) (x y : Outcome) → Quiet t x → Quiet t y → Quiet t (if b then x else y)
  Quiet-if true x y h k = h
  Quiet-if false x y h k = k

  AllRouting : Option Device → Type 0
  AllRouting none = Unit {0}
  AllRouting (some d) = d.routing ≡ t

  AllRouting-if :
      (b : Bool) (x y : Option Device)
      → AllRouting x
      → AllRouting y
      → AllRouting (if b then x else y)
  AllRouting-if true x y h k = h
  AllRouting-if false x y h k = k

start-routing : (now number : ℕ) (d : Device) → (start now number d).routing ≡ d.routing
unfolding start
start-routing now number d = elim (Bool-cases d.is_closed) [
  | inl shut ↦ simp shut refl
  | inr live ↦ elim (Bool-cases (d.peers number).is_running) [
    | inl runs ↦ simp (live, runs) refl
    | inr rests ↦ simp (live, rests) refl
  ]
]

new_peer-AllRouting :
    (c : Crypto) (now number : ℕ) (pk : List ℕ) (d : Device)
    → AllRouting d.routing (new_peer c now number pk d)
unfolding new_peer map_peer AllRouting
new_peer-AllRouting c now number pk d = AllRouting-if d.routing d.is_closed none _ tt (
    AllRouting-if d.routing (not (ltb (length d.key_map) max_peers)) none _ tt (
      AllRouting-if d.routing (is_some (lookup_peer d pk)) none _ tt (
        AllRouting-if d.routing d.is_up _ _ (start-routing now number (map_peer c number pk d))
          refl)))

send_keepalive-routing :
    (number element : ℕ) (w : Traffic)
    → (send_keepalive number element w).0.device.routing ≡ w.device.routing
unfolding send_keepalive
send_keepalive-routing number element w =
    elim (Bool-cases (
      not (length (peer_of w number).nonce_queue == 0)
      || (peer_of w number).packet_in_nonce_queue_is_awaiting_key)) [
        | inl busy ↦ simp busy refl
        | inr free ↦ simp free refl
      ]

module _ (t : RoutingTable) where
  created_peer-Quiet :
      (c : Crypto) (now : ℕ) (s : Setting) (o : Option Device)
      → IsQuiet t s
      → AllRouting t o
      → Quiet t (created_peer c now s o)
  unfolding created_peer Quiet AllRouting
  created_peer-Quiet c now s none q h = tt
  created_peer-Quiet c now s (some d) (a, b, e) h = (a, b, h)

  find_peer-Quiet :
      (c : Crypto) (now : ℕ) (o : Option ℕ) (pk : List ℕ) (s : Setting)
      → IsQuiet t s
      → Quiet t (find_peer c now o pk s)
  unfolding find_peer Quiet
  find_peer-Quiet c now (some number) pk s q = q
  find_peer-Quiet c now none pk s (a, b, e) =
      created_peer-Quiet c now s (new_peer c now s.fresh pk s.traffic.device) (a, b, e)
        (subst (λ x. AllRouting x (new_peer c now s.fresh pk s.traffic.device)) e
          (new_peer-AllRouting c now s.fresh pk s.traffic.device))

  dummy-Quiet : (b : Bool) (s : Setting) → IsQuiet t s → IsQuiet t (if b then select_dummy s else s)
  unfolding select_dummy
  dummy-Quiet true s (a, b, e) = (refl, b, e)
  dummy-Quiet false s q = q

  select_peer-Quiet :
      (c : Crypto) (now : ℕ) (o : Option (List ℕ)) (s : Setting)
      → IsQuiet t s
      → Quiet t (select_peer c now o s)
  unfolding select_peer Quiet
  select_peer-Quiet c now none s q = tt
  select_peer-Quiet c now (some pk) s q =
      let same = equals s.traffic.device.noise.public_key pk in
      let s' = if same then select_dummy s else s in
      find_peer-Quiet c now (lookup_peer s'.traffic.device pk) pk s' (dummy-Quiet same s q)

  remove_selected-Quiet :
      (number : ℕ) (s : Setting) → IsQuiet t s → Quiet t (remove_selected number s)
  unfolding remove_selected Quiet select_dummy
  remove_selected-Quiet number s (a, b, e) = (refl, simp a b, simp a e)

  set_interval-Quiet :
      (o : Option ℕ) (number : ℕ) (s : Setting) → IsQuiet t s → Quiet t (set_interval o number s)
  unfolding set_interval Quiet
  set_interval-Quiet none number s q = tt
  set_interval-Quiet (some secs) number s (a, b, e) =
      let peer = peer_of s.traffic number in
      let w = update_peer s.traffic number (record peer { persistent_keepalive_interval = secs }) in
      Quiet-if t
        (peer.persistent_keepalive_interval == 0
          && not (secs == 0)
          && w.device.is_up
          && not s.dummy)
        _ _ (a, b, send_keepalive-routing number s.fresh w ∙ e) (a, b, e)

  add_allowed_ip-Quiet :
      (o : Option (List ℕ × ℕ)) (number : ℕ) (s : Setting)
      → IsQuiet t s
      → Quiet t (add_allowed_ip o number s)
  unfolding add_allowed_ip Quiet
  add_allowed_ip-Quiet none number s q = tt
  add_allowed_ip-Quiet (some (ip, ones)) number s (a, b, e) =
      subst
        (λ x. Quiet t (
          if x
          then continues s
          else inserted s (Routing.insert s.traffic.device.routing ip ones number)))
        (sym a) (a, b, e)

  replace_allowed_ips-Quiet :
      (number : ℕ) (s : Setting) → IsQuiet t s → Quiet t (replace_allowed_ips number s)
  unfolding replace_allowed_ips Quiet
  replace_allowed_ips-Quiet number s (a, b, e) =
      let d = s.traffic.device in
      subst
        (λ x. Quiet t (
          if x
          then continues s
          else continues
              (with_device s (record d { routing = Routing.remove_peer d.routing number }))))
        (sym a) (a, b, e)

  set_preshared_key-Quiet :
      (o : Option (List ℕ)) (number : ℕ) (s : Setting)
      → IsQuiet t s
      → Quiet t (set_preshared_key o number s)
  unfolding set_preshared_key Quiet
  set_preshared_key-Quiet none number s q = tt
  set_preshared_key-Quiet (some psk) number s q = q

  set_endpoint-Quiet :
      (o : Option Endpoint) (number : ℕ) (s : Setting)
      → IsQuiet t s
      → Quiet t (set_endpoint o number s)
  unfolding set_endpoint Quiet
  set_endpoint-Quiet none number s q = tt
  set_endpoint-Quiet (some e) number s q = q

module _ (t : RoutingTable) (c : Crypto) (parsers : Parsers) (now : ℕ) where
  set_selected-Quiet :
      (key value : List ℕ) (number : ℕ) (s : Setting)
      → IsQuiet t s
      → Quiet t (set_selected c parsers now key value number s)
  unfolding set_selected Quiet
  set_selected-Quiet key value number s q =
      Quiet-if t (bytes_eq key (codes "remove")) _ _
        (Quiet-if t (is_true value) _ _ (remove_selected-Quiet t number s q) tt)
        (Quiet-if t (bytes_eq key (codes "preshared_key")) _ _
          (set_preshared_key-Quiet t (from_hex value) number s q)
          (Quiet-if t (bytes_eq key (codes "endpoint")) _ _
            (set_endpoint-Quiet t (parsers.create_endpoint value) number s q)
            (Quiet-if t (bytes_eq key (codes "persistent_keepalive_interval")) _ _
              (set_interval-Quiet t (parse_uint 16 value) number s q)
              (Quiet-if t (bytes_eq key (codes "replace_allowed_ips")) _ _
                (Quiet-if t (is_true value) _ _ (replace_allowed_ips-Quiet t number s q) tt)
                (Quiet-if t (bytes_eq key (codes "allowed_ip")) _ _
                  (add_allowed_ip-Quiet t (parsers.parse_cidr value) number s q) tt)))))

  for_selected-Quiet :
      (o : Option ℕ) (key value : List ℕ) (s : Setting)
      → IsQuiet t s
      → Quiet t (for_selected c parsers now o key value s)
  unfolding for_selected Quiet
  for_selected-Quiet none key value s q = tt
  for_selected-Quiet (some number) key value s q = set_selected-Quiet key value number s q

  set_peer-Quiet :
      (key value : List ℕ) (s : Setting)
      → IsQuiet t s
      → Quiet t (set_peer c parsers now key value s)
  unfolding set_peer
  set_peer-Quiet key value s q =
      Quiet-if t (bytes_eq key (codes "public_key")) _ _
        (select_peer-Quiet t c now (from_hex value) s q) (for_selected-Quiet s.peer key value s q)

  set_parts-Quiet :
      (r : BindResults) (o : Option (List ℕ × List ℕ)) (s : Setting)
      → IsQuiet t s
      → Quiet t (set_parts c parsers now r o s)
  unfolding set_parts then_peer Quiet
  set_parts-Quiet r none s q = tt
  set_parts-Quiet r (some (key, value)) s (a, b, e) = simp b (set_peer-Quiet key value s (a, b, e))

  and_then-Quiet :
      (o : Outcome) (go : Setting → Outcome)
      → Quiet t o
      → ((s : Setting) → IsQuiet t s → Quiet t (go s))
      → Quiet t (and_then o go)
  unfolding and_then Quiet
  and_then-Quiet (continues s) go q h = h s q
  and_then-Quiet (fails error) go q h = tt
  and_then-Quiet stuck go q h = tt

  -- From a setting in the peers' part with `dummy` set, as `remove` leaves it and the device's own
  -- public key, every set operation that succeeds leaves the routing table as it was and `dummy` set,
  -- whatever peers its lines are about: their allowed IPs are ignored.
  pub set_operation-Quiet :
      (lines : List (BindResults × List ℕ)) (s : Setting)
      → IsQuiet t s
      → Quiet t (set_operation c parsers now lines s)
  unfolding set_operation set_line Quiet
  set_operation-Quiet [] s q = q
  set_operation-Quiet ((r, line) ∷ lines) s q = Quiet-if t (length line == 0) _ _ q (
      and_then-Quiet (set_line c parsers now r line s) (set_operation c parsers now lines)
        (set_parts-Quiet r (split line) s q) (λ s'. set_operation-Quiet lines s'))
