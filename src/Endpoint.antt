-- ===== src/Endpoint.antt =====
-- conn_linux.go: endpoints, with the source address that is cached, and the datagrams of a bind; and
-- parseEndpoint of conn.go. The functions of `net`, sendmsg and what recvmsg writes are arguments.
pub mod Datagrams
pub mod Sticky
pub mod Bytes
use wireguard_go.Base.{
  ℕ, ◌+◌, ◌%◌, ◌^◌, Bool, true, false, Option, none, some, List, [], ◌∷◌, ◌++◌, take, drop, slice,
  replicate, if◌then◌else◌, bytes_eq,
}
use wireguard_go.Base.Do.{◌>>=◌}
use wireguard_go.Base.Endian.{put_little_endian, little_endian}
use wireguard_go.Sockets.{ipproto_ip, ip_pktinfo, ipproto_ipv6}
use wireguard_go.Uapi.Fields.{parse_uint}

-- `dst` by its parts: the port, the 4 bytes that are the address of a SockaddrInet4 and the zone of a
-- SockaddrInet6, and the 16 bytes of the latter's address. Their `raw` copies of the address, which
-- only x/sys uses, are left out.
pub record NativeEndpoint : Type 0 where
  pub dst_port : ℕ  -- int
  pub dst_word : List ℕ
  pub dst_addr : List ℕ
  pub src : List ℕ  -- [16]byte
  pub is_v6 : Bool

abbrev pub zero_endpoint : NativeEndpoint
zero_endpoint = record {
  dst_port = 0;
  dst_word = replicate 4 0;
  dst_addr = replicate 16 0;
  src = replicate 16 0;
  is_v6 = false;
}

pub data Sockaddr : Type 0 where
  inet4 : ℕ → List ℕ → Sockaddr
  inet6 : ℕ → ℕ → List ℕ → Sockaddr

-- `*end.dst4()` and `*end.dst6()`.
abbrev pub dst4 : NativeEndpoint → Sockaddr
dst4 end = inet4 end.dst_port end.dst_word

abbrev pub dst6 : NativeEndpoint → Sockaddr
dst6 end = inet6 end.dst_port (little_endian end.dst_word) end.dst_addr

-- The fields of `src4()`; ifindex is an int32, by its bit pattern.
abbrev pub src4_src : NativeEndpoint → List ℕ
src4_src end = take 4 end.src

abbrev pub src4_ifindex : NativeEndpoint → ℕ
src4_ifindex end = little_endian (slice 4 8 end.src)

abbrev pub set_src4 : List ℕ → ℕ → NativeEndpoint → NativeEndpoint
set_src4 addr ifindex end = record end {
  src = addr ++ put_little_endian 4 ifindex ++ drop 8 end.src;
}

unfoldable pub clear_src : NativeEndpoint → NativeEndpoint
clear_src end = record end { src = replicate 16 0 }

unfoldable pub clear_dst : NativeEndpoint → NativeEndpoint
clear_dst end = record end { dst_port = 0; dst_word = replicate 4 0; dst_addr = replicate 16 0 }

-- net.IPv4: the address within those of IPv6.
abbrev pub ipv4 : List ℕ → List ℕ
ipv4 addr = replicate 10 0 ++ (255 ∷ 255 ∷ []) ++ addr

unfoldable pub src_ip : NativeEndpoint → List ℕ
src_ip end = if end.is_v6 then end.src else ipv4 (src4_src end)

unfoldable pub dst_ip : NativeEndpoint → List ℕ
dst_ip end = if end.is_v6 then end.dst_addr else ipv4 end.dst_word

-- The bytes of the address's structure in memory, without its `raw`.
unfoldable pub dst_to_bytes : NativeEndpoint → List ℕ
dst_to_bytes end =
    let start = put_little_endian 8 end.dst_port ++ end.dst_word in
    if end.is_v6 then start ++ end.dst_addr else start

-- net.UDPAddr: the IP address, the port and the zone.
pub record UdpAddr : Type 0 where
  pub ip : List ℕ
  pub port : ℕ
  pub zone : List ℕ

-- SplitHostPort's host, ParseIP, ResolveUDPAddr, InterfaceByName's index, and To4 and To16.
pub record Net : Type 0 where
  pub split_host : List ℕ → Option (List ℕ)
  pub parse_ip : List ℕ → Option (List ℕ)
  pub resolve_udp_addr : List ℕ → Option UdpAddr
  pub interface_by_name : List ℕ → Option ℕ
  pub to4 : List ℕ → Option (List ℕ)
  pub to16 : List ℕ → Option (List ℕ)

module _ (net : Net) where
  unfoldable pub parse_endpoint : List ℕ → Option UdpAddr
  parse_endpoint s = do host ← net.split_host s; ip ← net.parse_ip host; net.resolve_udp_addr s

  unfoldable pub zone_to_uint32 : List ℕ → Option ℕ
  zone_to_uint32 [] = some 0
  zone_to_uint32 (x ∷ xs) = elim (net.interface_by_name (x ∷ xs)) [
    | some index ↦ some (index % 2 ^ 32)
    | none ↦ parse_uint 32 (x ∷ xs)
  ]

  unfoldable pub endpoint4 : ℕ → List ℕ → NativeEndpoint
  unfolding clear_src
  endpoint4 port ip = clear_src (record zero_endpoint { dst_port = port; dst_word = ip })

  unfoldable pub endpoint6 : ℕ → ℕ → List ℕ → NativeEndpoint
  unfolding clear_src
  endpoint6 port zone ip = clear_src (record zero_endpoint {
    is_v6 = true;
    dst_port = port;
    dst_word = put_little_endian 4 zone;
    dst_addr = ip;
  })

  unfoldable pub from_udp_addr : UdpAddr → Option NativeEndpoint
  unfolding zone_to_uint32 endpoint4 endpoint6
  from_udp_addr addr = elim (net.to4 addr.ip) [
    | some ip ↦ some (endpoint4 addr.port ip)
    | none ↦ do
      ip ← net.to16 addr.ip
      zone ← zone_to_uint32 addr.zone
      some (endpoint6 addr.port zone ip)
  ]

  unfoldable pub create_endpoint : List ℕ → Option NativeEndpoint
  unfolding parse_endpoint from_udp_addr
  create_endpoint s = parse_endpoint s >>= from_udp_addr

-- unix.Inet4Pktinfo and unix.Inet6Pktinfo.
pub record Pktinfo4 : Type 0 where
  pub ifindex : ℕ  -- int32
  pub spec_dst : List ℕ
  pub addr : List ℕ

pub record Pktinfo6 : Type 0 where
  pub addr : List ℕ
  pub ifindex : ℕ  -- uint32

-- A control message, by its header and what follows.
pub record Cmsg (P : Type 0) : Type 0 where
  pub level : ℕ
  pub kind : ℕ
  pub len : ℕ
  pub pktinfo : P

abbrev pub sizeof_cmsghdr : ℕ
sizeof_cmsghdr = 16

abbrev pub sizeof_pktinfo4 : ℕ
sizeof_pktinfo4 = 12

abbrev pub sizeof_pktinfo6 : ℕ
sizeof_pktinfo6 = 20

abbrev pub ipv6_pktinfo : ℕ
ipv6_pktinfo = 50

abbrev pub cmsg4 : Pktinfo4 → Cmsg Pktinfo4
cmsg4 info = record {
  level = ipproto_ip;
  kind = ip_pktinfo;
  len = sizeof_pktinfo4 + sizeof_cmsghdr;
  pktinfo = info;
}

abbrev pub cmsg6 : Pktinfo6 → Cmsg Pktinfo6
cmsg6 info = record {
  level = ipproto_ipv6;
  kind = ipv6_pktinfo;
  len = sizeof_pktinfo6 + sizeof_cmsghdr;
  pktinfo = info;
}

abbrev pub zero_pktinfo4 : Pktinfo4
zero_pktinfo4 = record { ifindex = 0; spec_dst = replicate 4 0; addr = replicate 4 0 }

abbrev pub zero_pktinfo6 : Pktinfo6
zero_pktinfo6 = record { addr = replicate 16 0; ifindex = 0 }

-- "construct message header"
unfoldable pub pktinfo4_of : NativeEndpoint → Pktinfo4
pktinfo4_of end = record {
  ifindex = src4_ifindex end;
  spec_dst = src4_src end;
  addr = replicate 4 0;
}

unfoldable pub pktinfo6_of : NativeEndpoint → Pktinfo6
pktinfo6_of end = record {
  addr = end.src;
  ifindex = if bytes_eq end.src (replicate 16 0) then 0 else little_endian end.dst_word;
}
