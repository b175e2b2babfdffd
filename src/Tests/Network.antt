-- ===== src/Tests/Network.antt =====
-- Datagrams, packets of the interface, and the program's start.
use wireguard_go.Base.{
  ℕ, ◌+◌, ◌/◌, ◌%◌, ◌≡◌, refl, Bool, true, false, not, ◌||◌, Option, none, some, List, [], ◌∷◌,
  ◌++◌, length, replicate, slice, ◌==◌, if◌then◌else◌, arith,
}
use wireguard_go.Base.Text.{codes}
use wireguard_go.System.{ok}
use wireguard_go.Endpoint.{NativeEndpoint, zero_endpoint, clear_src, src4_ifindex, dst_ip, Pktinfo4}
use wireguard_go.Endpoint.Datagrams.{Sendmsg, send, receive_ipv4}
use wireguard_go.Endpoint.Sticky.{datagram4, sticky4}
use wireguard_go.Endpoint.Bytes.{IsWide, dst_to_bytes-injective}
use wireguard_go.Netlink.{Listener, scan_messages, scan_attrs}
use wireguard_go.Netlink.Routes.{
  scan_messages_stuck, attributes, any_elsewhere, scan_attrs-any_elsewhere,
}
use wireguard_go.Tun.{write, do_read}
use wireguard_go.Tun.Header.{HasHeader, do_read-write}
use wireguard_go.Device.Interface.{Reader, Turn}
use wireguard_go.Start.{Config, configure, daemon_environment, Environment, supplied, opened}
use wireguard_go.Start.Daemon.{lacks, configure-daemon_environment}
use wireguard_go.Tests.Devices.{idle, opens}
use wireguard_go.Tests.Kernel.{made}

-- A kernel that counts the datagrams it has taken.
abbrev sendmsg : Sendmsg ℕ
sendmsg = record {
  sendmsg4 = λ sock buff cmsg to k. (none, k + 1);
  sendmsg6 = λ sock buff cmsg to k. (none, k + 1);
}

abbrev info : Pktinfo4
info = record { ifindex = 3; spec_dst = 10 ∷ 0 ∷ 0 ∷ 1 ∷ []; addr = 10 ∷ 0 ∷ 0 ∷ 1 ∷ [] }

abbrev sender : List ℕ
sender = 192 ∷ 0 ∷ 2 ∷ 7 ∷ []

sticky4_example :
    send sendmsg made (1 ∷ []) (receive_ipv4 (ok (datagram4 9 51820 sender info))).1 0
    ≡ (none, (receive_ipv4 (ok (datagram4 9 51820 sender info))).1, 1)
sticky4_example = sticky4 sendmsg made (1 ∷ []) 9 51820 sender info 0 1 refl (omega arith) refl

abbrev remote : NativeEndpoint
remote = record zero_endpoint { dst_port = 51820; dst_word = sender }

remote-IsWide : IsWide remote
remote-IsWide = record { port = omega arith; word = refl; addr = refl }

dst_to_bytes-injective_example :
    (remote.is_v6 ≡ remote.is_v6)
    × (remote.dst_port ≡ remote.dst_port)
    × (remote.dst_word ≡ remote.dst_word)
    × (dst_ip remote ≡ dst_ip remote)
dst_to_bytes-injective_example =
    dst_to_bytes-injective remote remote remote-IsWide remote-IsWide refl

abbrev listener : Listener
listener = record { last_endpoint = some remote; requests = [] }

scan_messages_stuck_example : scan_messages 9 0 (replicate 20 0) listener ≡ none
unfolding wireguard_go.Base.Endian.little_endian
scan_messages_stuck_example = scan_messages_stuck 9 0 (replicate 20 0) listener (omega arith) refl

-- An attribute RTA_OIF that names the interface 3.
abbrev oif : List ℕ
oif = 8 ∷ 0 ∷ 4 ∷ 0 ∷ 3 ∷ 0 ∷ 0 ∷ 0 ∷ []

scan_attrs-any_elsewhere_example :
    scan_attrs 8 oif remote
    ≡ (if any_elsewhere (src4_ifindex remote) (attributes 8 oif) then clear_src remote else remote)
scan_attrs-any_elsewhere_example = scan_attrs-any_elsewhere 8 oif remote

abbrev packet : List ℕ
packet = 69 ∷ 0 ∷ 0 ∷ 3 ∷ []

do_read-write_example :
    (sent : List ℕ) × (write false (replicate 16 0 ++ packet) 16 ≡ some sent)
    × HasHeader packet sent
    × ((do_read none false (record { bytes = sent; error = none }) (replicate 40 7) 16).n ≡ 4)
    × (slice 16 20
          (do_read none false (record { bytes = sent; error = none }) (replicate 40 7) 16).buff
        ≡ packet)
do_read-write_example =
    do_read-write (replicate 16 0) packet (replicate 40 7) 16 refl (omega arith) (omega arith)
      (omega arith)

-- The interface goes up and changes its MTU, and goes down.
abbrev turns : List Turn
turns =
    record { event = 5; mtu = some 1280; now = 1_000; ups = opens; downs = opens }
    ∷ record { event = 2; mtu = none; now = 2_000; ups = opens; downs = opens }
    ∷ []

abbrev reader : Reader
reader = record { set_up = false; mtu = 1420; device = idle }

abbrev arguments : List (List ℕ)
arguments = codes "wireguard-go" ∷ codes "wg0" ∷ []

abbrev environment : Environment
environment = (codes "LOG_LEVEL", codes "debug") ∷ []

abbrev config : Config
config = record { foreground = false; name = codes "wg0"; level = 2; tun = opened; uapi = opened }

configure_run : configure arguments environment ≡ some config
unfolding configure
configure_run = refl

configure-daemon_environment_example :
    configure arguments (daemon_environment environment)
    ≡ some (record config { foreground = true; tun = supplied 3; uapi = supplied 4 })
unfolding lacks
configure-daemon_environment_example =
    configure-daemon_environment arguments environment config refl refl refl configure_run
