-- ===== src/Uapi/Fits.antt =====
-- A configuration keeps the fields of the device within their widths and its routing table valid.
pub mod Selected
pub mod Lines
use wireguard_go.Base.{
  ℕ, ◌^◌, ◌<◌, ◌≤◌, ◌≡◌, refl, sym, subst, ◌⊎◌, inl, inr, Bool, true, false, not, ◌&&◌, ◌||◌,
  Option, none, some, List, [], ◌∷◌, length, ltb, ◌==◌, if◌then◌else◌, bytes_eq, arith, ltb→lt,
}
use wireguard_go.Base.Text.{codes}
use wireguard_go.Routing
use wireguard_go.Routing.{RoutingTable, ipv4_len, ipv6_len}
use wireguard_go.Routing.Laws.{IsValid, remove_peer-IsValid, insert_ipv4, insert_ipv6}
use wireguard_go.Trie.Address.{IsAddress}
use wireguard_go.Crypto.{Crypto}
use wireguard_go.Keys.{from_hex, equals}
use wireguard_go.Device.{Endpoint, Device, lookup_peer}
use wireguard_go.Device.Bind.{BindResults, bind_set_mark, bind_update}
use wireguard_go.Device.Peers.{zero_peer, remove_peer, remove_all_peers, new_peer}
use wireguard_go.Device.Configure.{set_private_key}
use wireguard_go.Device.Fits.{
  IsFit, AllFit, IsPort, put_peer-IsFit, bind_update-IsFit, bind_set_mark-IsFit, zero-AreWide,
}
use wireguard_go.Device.Fits.Peers.{
  remove_peer-IsFit, remove_all_peers-IsFit, new_peer-AllFit, set_private_key-AllFit,
}
use wireguard_go.Traffic.{Traffic, peer_of, update_peer}
use wireguard_go.Send.{send_keepalive}
use wireguard_go.Uapi.{
  Parsers, Setting, Outcome, continues, fails, stuck, with_device, with_result, or_port_in_use,
  set_listen_port, set_fwmark, set_key, set_device, select_dummy, created_peer, find_peer,
  select_peer, remove_selected, set_preshared_key, set_endpoint, set_interval, replace_allowed_ips,
  inserted, add_allowed_ip, set_selected, for_selected, set_peer, then_peer, set_parts, set_line,
  and_then, set_operation, is_true,
}
use wireguard_go.Uapi.Fields.{split, parse_uint, in_range, parse_digits}

-- The device of the setting that an outcome leaves, if it leaves one.
pub Fits : Outcome → Type 0
Fits (continues s) = IsFit s.traffic.device
Fits (fails error) = Unit {0}
Fits stuck = Unit {0}

Fits-if : (b : Bool) (x y : Outcome) → Fits x → Fits y → Fits (if b then x else y)
Fits-if true x y h k = h
Fits-if false x y h k = k

-- The lines' answers of CreateBind have ports that are uint16s.
unfoldable pub ArePorts : List (BindResults × List ℕ) → Type 0
ArePorts [] = Unit {0}
ArePorts ((r, line) ∷ lines) = IsPort r.sockets × ArePorts lines

-- ParseCIDR gives an address of 4 or 16 bytes with a mask that is not longer.
unfoldable pub IsNetwork : Option (List ℕ × ℕ) → Type 0
IsNetwork none = Unit {0}
IsNetwork (some (ip, ones)) =
    (IsAddress ipv4_len ip × (ones ≤ 32)) ⊎ (IsAddress ipv6_len ip × (ones ≤ 128))

-- A number that ParseUint gives has at most that many bits.
pub IsBelow : ℕ → Option ℕ → Type 0
IsBelow bits none = Unit {0}
IsBelow bits (some n) = n < 2 ^ bits

in_range-IsBelow : (bits : ℕ) (o : Option ℕ) → IsBelow bits (in_range bits o)
unfolding in_range IsBelow
in_range-IsBelow bits none = tt
in_range-IsBelow bits (some n) = by_test (ltb n (2 ^ bits)) (ltb→lt n (2 ^ bits))
  where
    by_test : (b : Bool) → (b ≡ true → n < 2 ^ bits) → IsBelow bits (if b then some n else none)
    by_test true h = h refl
    by_test false h = tt

parse_uint-IsBelow : (bits : ℕ) (text : List ℕ) → IsBelow bits (parse_uint bits text)
unfolding parse_uint IsBelow
parse_uint-IsBelow bits [] = tt
parse_uint-IsBelow bits (d ∷ ds) = in_range-IsBelow bits (parse_digits 0 (d ∷ ds))

or_port_in_use-Fits : (s : Setting) (p : Device × Bool) → IsFit p.0 → Fits (or_port_in_use s p)
unfolding or_port_in_use Fits
or_port_in_use-Fits s (d, ok) h = Fits-if ok (continues (with_device s d)) _ h tt

with_result-Fits : (s : Setting) (o : Option Device) → AllFit o → Fits (with_result s o)
unfolding with_result Fits AllFit
with_result-Fits s none h = tt
with_result-Fits s (some d) h = h

module _ (c : Crypto) (r : BindResults) (is_port : IsPort r.sockets) where
  set_listen_port-Fits :
      (o : Option ℕ) (s : Setting)
      → IsBelow 16 o
      → IsFit s.traffic.device
      → Fits (set_listen_port c r o s)
  unfolding set_listen_port Fits IsBelow
  set_listen_port-Fits none s below h = tt
  set_listen_port-Fits (some port) s below h =
      or_port_in_use-Fits s (bind_update r (record s.traffic.device { port = port })) (
        bind_update-IsFit r (record s.traffic.device { port = port }) is_port
          (record {
            valid = h.valid;
            port_fits = below;
            mark_fits = h.mark_fits;
            peers_fit = h.peers_fit;
          }))

  set_fwmark-Fits :
      (o : Option ℕ) (s : Setting)
      → IsBelow 32 o
      → IsFit s.traffic.device
      → Fits (set_fwmark c r o s)
  unfolding set_fwmark Fits IsBelow
  set_fwmark-Fits none s below h = tt
  set_fwmark-Fits (some mark) s below h =
      or_port_in_use-Fits s (bind_set_mark r mark s.traffic.device)
        (bind_set_mark-IsFit r mark s.traffic.device below h)

  set_key-Fits :
      (o : Option (List ℕ)) (s : Setting) → IsFit s.traffic.device → Fits (set_key c r o s)
  unfolding set_key Fits
  set_key-Fits none s h = tt
  set_key-Fits (some sk) s h =
      with_result-Fits s (set_private_key c sk s.traffic.device)
        (set_private_key-AllFit c sk s.traffic.device h)

  mark_text-IsBelow :
      (b : Bool) (text : List ℕ) → IsBelow 32 (if b then some 0 else parse_uint 32 text)
  unfolding IsBelow
  mark_text-IsBelow true text = omega arith
  mark_text-IsBelow false text = parse_uint-IsBelow 32 text

  set_device-Fits :
      (key value : List ℕ) (s : Setting)
      → IsFit s.traffic.device
      → Fits (set_device c r key value s)
  unfolding set_device Fits
  set_device-Fits key value s h =
      Fits-if (bytes_eq key (codes "private_key")) _ _ (set_key-Fits (from_hex value) s h) (
        Fits-if (bytes_eq key (codes "listen_port")) _ _
          (set_listen_port-Fits (parse_uint 16 value) s (parse_uint-IsBelow 16 value) h)
          (Fits-if (bytes_eq key (codes "fwmark")) _ _
            (set_fwmark-Fits (if length value == 0 then some 0 else parse_uint 32 value) s
              (mark_text-IsBelow (length value == 0) value) h)
            (Fits-if (bytes_eq key (codes "public_key"))
              (continues (record s { device_config = false })) _ h
              (Fits-if (bytes_eq key (codes "replace_peers")) _ _
                (Fits-if (is_true value)
                  (continues (with_device s (remove_all_peers s.traffic.device))) _
                  (remove_all_peers-IsFit s.traffic.device h) tt)
                tt))))
