-- ===== src/Sockets.antt =====
-- conn_linux.go: the three sockets of a bind, and their options. The goroutine that CreateBind starts
-- on the netlink socket is in Netlink. The descriptor -1 is its bit pattern.
pub mod Descriptors
use wireguard_go.Base.{ℕ, ◌-◌, ◌^◌, Option, none, some}
use wireguard_go.System.{System, Action, Result, after, ok, err, pure, ◌>>=◌, ◌>>◌}

abbrev pub af_inet : ℕ
af_inet = 2

abbrev pub af_inet6 : ℕ
af_inet6 = 10

abbrev pub af_netlink : ℕ
af_netlink = 16

abbrev pub sock_dgram : ℕ
sock_dgram = 2

abbrev pub sock_raw : ℕ
sock_raw = 3

abbrev pub netlink_route : ℕ
netlink_route = 0

abbrev pub sol_socket : ℕ
sol_socket = 1

abbrev pub so_reuseaddr : ℕ
so_reuseaddr = 2

abbrev pub so_mark : ℕ
so_mark = 36

abbrev pub ipproto_ip : ℕ
ipproto_ip = 0

abbrev pub ip_pktinfo : ℕ
ip_pktinfo = 8

abbrev pub ipproto_ipv6 : ℕ
ipproto_ipv6 = 41

abbrev pub ipv6_recvpktinfo : ℕ
ipv6_recvpktinfo = 49

abbrev pub ipv6_v6only : ℕ
ipv6_v6only = 26

abbrev pub rtnlgrp_ipv4_route : ℕ
rtnlgrp_ipv4_route = 7

-- Without lastEndpoint, which is a parameter of the code that uses it.
pub record NativeBind : Type 0 where
  pub sock4 : ℕ
  pub sock6 : ℕ
  pub netlink_sock : ℕ
  pub last_mark : ℕ  -- uint32

-- What CreateBind returns: a pointer to a bind, the port and an error.
pub record Created : Type 0 where
  pub bind : Option NativeBind
  pub port : ℕ
  pub error : Option ℕ

module _ {K : Type 0} (s : System K) where
  -- `unix.Close(fd)` where its error is dropped.
  unfoldable pub closing : ℕ → K → K
  closing fd k = (s.close fd k).1

  unfoldable pub closed_on_error : ℕ → Result (Unit {0}) × K → Result (Unit {0}) × K
  unfolding closing
  closed_on_error fd (ok u, k) = (ok u, k)
  closed_on_error fd (err e, k) = (err e, closing fd k)

  -- "set sockopts and bind", with the socket closed on an error.
  unfoldable pub or_close : ℕ → Action K (Unit {0}) → Action K (Unit {0})
  unfolding closed_on_error
  or_close fd m k = closed_on_error fd (m k)

  unfoldable pub create_netlink_route_socket : Action K ℕ
  unfolding or_close
  create_netlink_route_socket = do
    sock ← s.socket af_netlink sock_raw netlink_route
    or_close sock (s.bind_netlink sock (2 ^ (rtnlgrp_ipv4_route - 1)))
    pure sock

  unfoldable pub set_options4 : ℕ → ℕ → Action K (Unit {0})
  set_options4 fd port = do
    s.setsockopt_int fd sol_socket so_reuseaddr 1
    s.setsockopt_int fd ipproto_ip ip_pktinfo 1
    s.bind_port fd port

  unfoldable pub set_options6 : ℕ → ℕ → Action K (Unit {0})
  set_options6 fd port = do
    s.setsockopt_int fd sol_socket so_reuseaddr 1
    s.setsockopt_int fd ipproto_ipv6 ipv6_recvpktinfo 1
    s.setsockopt_int fd ipproto_ipv6 ipv6_v6only 1
    s.bind_port fd port

  -- `addr.Port`, which Bind does not write, is the port that was asked for.
  unfoldable pub create4 : ℕ → Action K (ℕ × ℕ)
  unfolding or_close set_options4
  create4 port = do
    fd ← s.socket af_inet sock_dgram 0
    or_close fd (set_options4 fd port)
    pure (fd, port)

  unfoldable pub create6 : ℕ → Action K (ℕ × ℕ)
  unfolding or_close set_options6
  create6 port = do
    fd ← s.socket af_inet6 sock_dgram 0
    or_close fd (set_options6 fd port)
    pure (fd, port)

  -- CreateBind, from the IPv4 socket on.
  unfoldable pub with_sock4 : ℕ → ℕ → Result (ℕ × ℕ) × K → Created × K
  unfolding closing
  with_sock4 netlink_sock sock6 (ok (sock4, port), k) =
      let bind : NativeBind = record {
        sock4 = sock4;
        sock6 = sock6;
        netlink_sock = netlink_sock;
        last_mark = 0;
      } in
      (record { bind = some bind; port = port; error = none }, k)
  with_sock4 netlink_sock sock6 (err e, k) =
      let bind : NativeBind = record {
        sock4 = 2 ^ 64 - 1;
        sock6 = sock6;
        netlink_sock = netlink_sock;
        last_mark = 0;
      } in
      (
        record { bind = some bind; port = 0; error = some e },
        closing sock6 (closing netlink_sock k),
      )

  -- From the IPv6 socket on.
  unfoldable pub with_sock6 : ℕ → Result (ℕ × ℕ) × K → Created × K
  unfolding create4 closing with_sock4
  with_sock6 netlink_sock (ok (sock6, port), k) = with_sock4 netlink_sock sock6 (create4 port k)
  with_sock6 netlink_sock (err e, k) =
      (record { bind = none; port = 0; error = some e }, closing netlink_sock k)

  unfoldable pub with_netlink_sock : ℕ → Result ℕ × K → Created × K
  unfolding create6 with_sock6
  with_netlink_sock port (ok netlink_sock, k) = with_sock6 netlink_sock (create6 port k)
  with_netlink_sock port (err e, k) = (record { bind = none; port = 0; error = some e }, k)

  unfoldable pub create_bind : ℕ → K → Created × K
  unfolding create_netlink_route_socket with_netlink_sock
  create_bind port k = with_netlink_sock port (create_netlink_route_socket k)

  -- The bind and the error.
  unfoldable pub set_mark : ℕ → NativeBind → Action K NativeBind
  set_mark value bind = do
    s.setsockopt_int bind.sock6 sol_socket so_mark value
    s.setsockopt_int bind.sock4 sol_socket so_mark value
    pure (record bind { last_mark = value })

  unfoldable pub close_unblock : ℕ → Action K (Unit {0})
  close_unblock fd k = s.close fd (s.shutdown_read fd k).1

  abbrev first_error : Result (Unit {0}) → Result (Unit {0}) → Result (Unit {0})
  first_error (ok u) r = r
  first_error (err e) r = err e

  unfoldable pub close : NativeBind → Action K (Unit {0})
  unfolding close_unblock
  close bind k =
      let (r1, k1) = close_unblock bind.sock6 k in
      let (r2, k2) = close_unblock bind.sock4 k1 in
      let (r3, k3) = close_unblock bind.netlink_sock k2 in (first_error r1 (first_error r2 r3), k3)
