-- ===== src/Uapi/Fits/Lines.antt =====
-- The set operation, line by line.
use wireguard_go.Base.{ℕ, Option, none, some, List, [], ◌∷◌, length, ◌==◌, bytes_eq}
use wireguard_go.Base.Text.{codes}
use wireguard_go.Crypto.{Crypto}
use wireguard_go.Keys.{from_hex}
use wireguard_go.Device.Bind.{BindResults}
use wireguard_go.Device.Fits.{IsFit, IsPort}
use wireguard_go.Uapi.{
  Parsers, Setting, Outcome, continues, fails, stuck, set_selected, for_selected, set_peer,
  then_peer, set_parts, set_line, and_then, set_operation, is_true,
}
use wireguard_go.Uapi.Fields.{split, parse_uint}
use wireguard_go.Uapi.Fits.{Fits, Fits-if, ArePorts, IsNetwork, parse_uint-IsBelow, set_device-Fits}
use wireguard_go.Uapi.Fits.Selected.{
  select_peer-Fits, remove_selected-Fits, set_preshared_key-Fits, set_endpoint-Fits,
  set_interval-Fits, replace_allowed_ips-Fits, add_allowed_ip-Fits,
}

module _ (c : Crypto) (parsers : Parsers)
    (networks : (text : List ℕ) → IsNetwork (parsers.parse_cidr text)) (now : ℕ) where
  set_selected-Fits :
      (key value : List ℕ) (number : ℕ) (s : Setting)
      → IsFit s.traffic.device
      → Fits (set_selected c parsers now key value number s)
  unfolding set_selected Fits
  set_selected-Fits key value number s h =
      Fits-if (bytes_eq key (codes "remove")) _ _
        (Fits-if (is_true value) _ _ (remove_selected-Fits number s h) tt)
        (Fits-if (bytes_eq key (codes "preshared_key")) _ _
          (set_preshared_key-Fits (from_hex value) number s h)
          (Fits-if (bytes_eq key (codes "endpoint")) _ _
            (set_endpoint-Fits (parsers.create_endpoint value) number s h)
            (Fits-if (bytes_eq key (codes "persistent_keepalive_interval")) _ _
              (set_interval-Fits (parse_uint 16 value) number s (parse_uint-IsBelow 16 value) h)
              (Fits-if (bytes_eq key (codes "replace_allowed_ips")) _ _
                (Fits-if (is_true value) _ _ (replace_allowed_ips-Fits number s h) tt)
                (Fits-if (bytes_eq key (codes "allowed_ip")) _ _
                  (add_allowed_ip-Fits (parsers.parse_cidr value) number s (networks value) h)
                  tt)))))

  for_selected-Fits :
      (o : Option ℕ) (key value : List ℕ) (s : Setting)
      → IsFit s.traffic.device
      → Fits (for_selected c parsers now o key value s)
  unfolding for_selected Fits
  for_selected-Fits none key value s h = tt
  for_selected-Fits (some number) key value s h = set_selected-Fits key value number s h

  set_peer-Fits :
      (key value : List ℕ) (s : Setting)
      → IsFit s.traffic.device
      → Fits (set_peer c parsers now key value s)
  unfolding set_peer
  set_peer-Fits key value s h =
      Fits-if (bytes_eq key (codes "public_key")) _ _ (select_peer-Fits c now (from_hex value) s h)
        (for_selected-Fits s.peer key value s h)

  then_peer-Fits :
      (key value : List ℕ) (o : Outcome) → Fits o → Fits (then_peer c parsers now key value o)
  unfolding then_peer Fits
  then_peer-Fits key value (continues s) h =
      Fits-if s.device_config (continues s) _ h (set_peer-Fits key value s h)
  then_peer-Fits key value (fails error) h = tt
  then_peer-Fits key value stuck h = tt

  set_parts-Fits :
      (r : BindResults) (o : Option (List ℕ × List ℕ)) (s : Setting)
      → IsPort r.sockets
      → IsFit s.traffic.device
      → Fits (set_parts c parsers now r o s)
  unfolding set_parts Fits
  set_parts-Fits r none s is_port h = tt
  set_parts-Fits r (some (key, value)) s is_port h =
      then_peer-Fits key value _
        (Fits-if s.device_config _ (continues s) (set_device-Fits c r is_port key value s h) h)

  and_then-Fits :
      (o : Outcome) (go : Setting → Outcome)
      → Fits o
      → ((s : Setting) → IsFit s.traffic.device → Fits (go s))
      → Fits (and_then o go)
  unfolding and_then Fits
  and_then-Fits (continues s) go h keeps = keeps s h
  and_then-Fits (fails error) go h keeps = tt
  and_then-Fits stuck go h keeps = tt

  -- A set operation that succeeds keeps the device fit, whatever its lines: its port and every
  -- keepalive interval are uint16s, its mark is a uint32, the byte counts are uint64s and the routing
  -- table is valid. ParseCIDR gives IPv4 and IPv6 networks, and CreateBind ports that are uint16s.
  pub set_operation-Fits :
      (lines : List (BindResults × List ℕ)) (s : Setting)
      → ArePorts lines
      → IsFit s.traffic.device
      → Fits (set_operation c parsers now lines s)
  unfolding set_operation set_line Fits ArePorts
  set_operation-Fits [] s ports h = h
  set_operation-Fits ((r, line) ∷ lines) s (is_port, ports) h =
      Fits-if (length line == 0) (continues s) _ h (
        and_then-Fits (set_line c parsers now r line s) (set_operation c parsers now lines)
          (set_parts-Fits r (split line) s is_port h) (λ s'. set_operation-Fits lines s' ports))
