-- ===== src/Tests/Settings.antt =====
-- Lines of a set operation.
use wireguard_go.Base.{
  ℕ, ◌≡◌, refl, inl, arith, true, false, none, some, List, [], ◌∷◌, ◌++◌, replicate,
}
use wireguard_go.Base.Text.{codes}
use wireguard_go.Keys.{to_hex}
use wireguard_go.Device.Bind.{BindResults}
use wireguard_go.Uapi.{Parsers, Setting, set_operation, initial}
use wireguard_go.Uapi.Fields.{parse_uint, parse_digits, in_range}
use wireguard_go.Uapi.Get.{digits, decimal}
use wireguard_go.Uapi.Dummy.{Quiet, set_operation-Quiet}
use wireguard_go.Tests.Handshakes.{toy}
use wireguard_go.Device.Fits.{IsFit, IsPort}
use wireguard_go.Uapi.Fits.{Fits, ArePorts, IsNetwork}
use wireguard_go.Uapi.Fits.Lines.{set_operation-Fits}
use wireguard_go.Tests.Routes.{table4, host, host-IsAddress, three-IsShaped}
use wireguard_go.Tests.Workers.{traffic}

parse_uint_run : parse_uint 16 (codes "51820") ≡ some 51820
unfolding parse_uint parse_digits in_range
parse_uint_run = refl

parse_uint_over : parse_uint 16 (codes "65536") ≡ none
unfolding parse_uint parse_digits in_range
parse_uint_over = refl

decimal_run : decimal 51820 ≡ codes "51820"
unfolding decimal digits
decimal_run = refl

abbrev answers : BindResults
answers = record { closed = true; sockets = some (1, 51820); marked = true }

abbrev parsers : Parsers
parsers = record {
  create_endpoint = λ text. some (record { dst = text; has_src = false });
  parse_cidr = λ text. some (host, 32);
}

-- What follows the removal of a peer: another peer and its network.
abbrev lines : List (BindResults × List ℕ)
lines =
    (answers, codes "public_key=" ++ to_hex (replicate 32 8))
    ∷ (answers, codes "allowed_ip=10.1.2.3/32")
    ∷ []

abbrev removed : Setting
removed = record {
  traffic = traffic;
  peer = some 2;
  dummy = true;
  device_config = false;
  fresh = 10;
}

set_operation-Quiet_example : Quiet table4 (set_operation toy parsers 1_000 lines removed)
set_operation-Quiet_example =
    set_operation-Quiet table4 toy parsers 1_000 lines removed (refl, refl, refl)

traffic-IsFit : IsFit traffic.device
traffic-IsFit = record {
  valid = record { shaped4 = three-IsShaped; shaped6 = tt };
  port_fits = omega arith;
  mark_fits = omega arith;
  peers_fit = λ number. record {
    interval_fits = omega arith;
    tx_fits = omega arith;
    rx_fits = omega arith;
  };
}

-- A port, and a peer with a network.
abbrev configuration : List (BindResults × List ℕ)
configuration = (answers, codes "listen_port=51821") ∷ lines

configuration-ArePorts : ArePorts configuration
unfolding ArePorts IsPort
configuration-ArePorts = (omega arith, (omega arith, (omega arith, tt)))

parsers-IsNetwork : (text : List ℕ) → IsNetwork (parsers.parse_cidr text)
unfolding IsNetwork
parsers-IsNetwork text = inl (host-IsAddress, omega arith)

set_operation-Fits_example :
    Fits (set_operation toy parsers 1_000 configuration (initial traffic 10))
set_operation-Fits_example =
    set_operation-Fits toy parsers parsers-IsNetwork 1_000 configuration (initial traffic 10)
      configuration-ArePorts traffic-IsFit
