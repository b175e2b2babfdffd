-- ===== src/Portable.antt =====
-- conn_default.go: the bind of the systems without sticky sockets. The connections of package net are
-- numbers, and its functions parameters.
use wireguard_go.Base.{
  ℕ, ◌/◌, ◌%◌, ◌^◌, ◌≡◌, ap, true, Option, List, [], ◌∷◌, ◌++◌, length, if◌then◌else◌, is_some,
}
use wireguard_go.System.{Action, Result, ok, err, pure, ◌>>=◌}
use wireguard_go.Endpoint.{UdpAddr, Net, parse_endpoint}

pub data Network : Type 0 where
  udp4 udp6 : Network

-- ListenUDP, the port of LocalAddr as ResolveUDPAddr gives it, Close, ReadFromUDP and WriteToUDP.
pub record Udp (K : Type 0) : Type 0 where
  pub listen : Network → ℕ → Action K ℕ
  pub local_port : ℕ → Action K ℕ
  pub close : ℕ → Action K (Unit {0})
  pub read_from : ℕ → Action K (List ℕ × UdpAddr)
  pub write_to : ℕ → List ℕ → UdpAddr → Action K (Unit {0})

pub record NativeBind : Type 0 where
  pub ipv4 : ℕ
  pub ipv6 : ℕ

-- CreateEndpoint: a NativeEndpoint is a UDPAddr.
unfoldable pub create_endpoint : Net → List ℕ → Option UdpAddr
unfolding parse_endpoint
create_endpoint net s = parse_endpoint net s

unfoldable pub clear_src : UdpAddr → UdpAddr
clear_src e = e

unfoldable pub dst_ip : UdpAddr → List ℕ
dst_ip e = e.ip

unfoldable pub src_ip : UdpAddr → List ℕ
src_ip e = []

unfoldable pub dst_to_bytes : UdpAddr → List ℕ
dst_to_bytes e = e.ip ++ (e.port % 256) ∷ (e.port / 256 % 256) ∷ []

unfoldable pub src_to_string : UdpAddr → List ℕ
src_to_string e = []

module _ {K : Type 0} (u : Udp K) where
  -- The connection stays open where its port is not found.
  unfoldable pub listen_net : Network → ℕ → Action K (ℕ × ℕ)
  listen_net network port = do
    conn ← u.listen network port
    port' ← u.local_port conn
    pure (conn, port')

  -- The second connection, on the port of the first, which is closed on an error.
  unfoldable pub with_ipv6 : ℕ → Result (ℕ × ℕ) × K → Result (NativeBind × ℕ) × K
  with_ipv6 ipv4 (ok (ipv6, port), k) = (ok (record { ipv4 = ipv4; ipv6 = ipv6 }, port % 2 ^ 16), k)
  with_ipv6 ipv4 (err e, k) = (err e, (u.close ipv4 k).1)

  unfoldable pub create_bind : ℕ → Action K (NativeBind × ℕ)
  unfolding listen_net with_ipv6
  create_bind uport = do
    (ipv4, port) ← listen_net udp4 uport
    λ k. with_ipv6 ipv4 (listen_net udp6 port k)

  abbrev first_error : Result (Unit {0}) → Result (Unit {0}) → Result (Unit {0})
  first_error (ok u) r = r
  first_error (err e) r = err e

  unfoldable pub close : NativeBind → Action K (Unit {0})
  close bind k =
      let (r1, k1) = u.close bind.ipv4 k in
      let (r2, k2) = u.close bind.ipv6 k1 in (first_error r1 r2, k2)

  unfoldable pub receive_ipv4 : NativeBind → Action K (List ℕ × UdpAddr)
  receive_ipv4 bind = u.read_from bind.ipv4

  unfoldable pub receive_ipv6 : NativeBind → Action K (List ℕ × UdpAddr)
  receive_ipv6 bind = u.read_from bind.ipv6

  unfoldable pub send : Net → NativeBind → List ℕ → UdpAddr → Action K (Unit {0})
  send net bind buff e =
      if is_some (net.to16 e.ip) then u.write_to bind.ipv6 buff e else u.write_to bind.ipv4 buff e

  unfoldable pub set_mark : ℕ → Action K (Unit {0})
  set_mark mark = pure tt

  -- To16 gives an address of 16 bytes for the four bytes of an IPv4 address too, so that a datagram to
  -- one is given to the IPv6 connection.
  pub send_ipv4_on_ipv6 :
      (net : Net) (bind : NativeBind) (buff : List ℕ) (e : UdpAddr) (k : K)
      → ((ip : List ℕ) → length ip ≡ 4 → is_some (net.to16 ip) ≡ true)
      → length e.ip ≡ 4
      → send net bind buff e k ≡ u.write_to bind.ipv6 buff e k
  unfolding send
  send_ipv4_on_ipv6 net bind buff e k to16_some four =
      ap (λ b. (if b then u.write_to bind.ipv6 buff e else u.write_to bind.ipv4 buff e) k)
        (to16_some e.ip four)
