-- ===== src/Endpoint/Datagrams.antt =====
-- conn_linux.go: sending and receiving a datagram. sendmsg is a parameter, on the kernel's state;
-- what recvmsg gives is an argument: an error, or the size, the sender and the control message.
use wireguard_go.Base.{ℕ, true, false, ◌&&◌, Option, none, some, List, leb, ◌==◌, if◌then◌else◌}
use wireguard_go.Base.Endian.{put_little_endian}
use wireguard_go.System.{Result, ok, err, einval}
use wireguard_go.Sockets.{ipproto_ip, ip_pktinfo, ipproto_ipv6, NativeBind}
use wireguard_go.Endpoint.{
  NativeEndpoint, zero_endpoint, Sockaddr, inet4, inet6, dst4, dst6, set_src4, clear_src, Pktinfo4,
  Pktinfo6, Cmsg, sizeof_pktinfo4, sizeof_pktinfo6, ipv6_pktinfo, cmsg4, cmsg6, zero_pktinfo4,
  zero_pktinfo6, pktinfo4_of, pktinfo6_of,
}

-- unix.SendmsgN with a control message of either kind: the socket, the datagram, the message and the
-- destination. The answer is an error or none.
pub record Sendmsg (K : Type 0) : Type 0 where
  pub sendmsg4 : ℕ → List ℕ → Cmsg Pktinfo4 → Sockaddr → K → Option ℕ × K
  pub sendmsg6 : ℕ → List ℕ → Cmsg Pktinfo6 → Sockaddr → K → Option ℕ × K

-- What a send leaves: the error, the endpoint and the kernel's state.
abbrev pub Sent : Type 0 → Type 0
Sent K = Option ℕ × NativeEndpoint × K

module _ {K : Type 0} (s : Sendmsg K) where
  -- The endpoint without its source, and the answer of the second attempt.
  abbrev pub resent : NativeEndpoint → Option ℕ × K → Sent K
  resent end (e, k) = (e, clear_src end, k)

  -- "clear src and retry"
  unfoldable pub retry4 : ℕ → NativeEndpoint → List ℕ → Option ℕ × K → Sent K
  retry4 sock end buff (none, k) = (none, end, k)
  retry4 sock end buff (some e, k) =
      if e == einval
      then resent end (s.sendmsg4 sock buff (cmsg4 zero_pktinfo4) (dst4 end) k)
      else (some e, end, k)

  unfoldable pub send4 : ℕ → NativeEndpoint → List ℕ → K → Sent K
  unfolding retry4 pktinfo4_of
  send4 sock end buff k =
      retry4 sock end buff (s.sendmsg4 sock buff (cmsg4 (pktinfo4_of end)) (dst4 end) k)

  unfoldable pub retry6 : ℕ → NativeEndpoint → List ℕ → Option ℕ × K → Sent K
  retry6 sock end buff (none, k) = (none, end, k)
  retry6 sock end buff (some e, k) =
      if e == einval
      then resent end (s.sendmsg6 sock buff (cmsg6 zero_pktinfo6) (dst6 end) k)
      else (some e, end, k)

  unfoldable pub send6 : ℕ → NativeEndpoint → List ℕ → K → Sent K
  unfolding retry6 pktinfo6_of
  send6 sock end buff k =
      retry6 sock end buff (s.sendmsg6 sock buff (cmsg6 (pktinfo6_of end)) (dst6 end) k)

  unfoldable pub send : NativeBind → List ℕ → NativeEndpoint → K → Sent K
  unfolding send4 send6
  send bind buff end k =
      if end.is_v6 then send6 bind.sock6 end buff k else send4 bind.sock4 end buff k

-- What recvmsg gives without an error.
pub record Received (P : Type 0) : Type 0 where
  pub size : ℕ
  pub new_dst : Sockaddr
  pub cmsg : Cmsg P

unfoldable pub set_dst4 : Sockaddr → NativeEndpoint → NativeEndpoint
set_dst4 (inet4 port addr) end = record end { dst_port = port; dst_word = addr }
set_dst4 (inet6 port zone addr) end = end

unfoldable pub set_dst6 : Sockaddr → NativeEndpoint → NativeEndpoint
set_dst6 (inet4 port addr) end = end
set_dst6 (inet6 port zone addr) end = record end {
  dst_port = port;
  dst_word = put_little_endian 4 zone;
  dst_addr = addr;
}

-- "update source cache"
unfoldable pub update_src4 : Cmsg Pktinfo4 → NativeEndpoint → NativeEndpoint
update_src4 cmsg end =
    if cmsg.level == ipproto_ip && cmsg.kind == ip_pktinfo && leb sizeof_pktinfo4 cmsg.len
    then set_src4 (Pktinfo4.spec_dst cmsg.pktinfo) (Pktinfo4.ifindex cmsg.pktinfo) end
    else end

unfoldable pub update_src6 : Cmsg Pktinfo6 → NativeEndpoint → NativeEndpoint
update_src6 cmsg end =
    if cmsg.level == ipproto_ipv6 && cmsg.kind == ipv6_pktinfo && leb sizeof_pktinfo6 cmsg.len
    then record end {
      src = Pktinfo6.addr cmsg.pktinfo;
      dst_word = put_little_endian 4 (Pktinfo6.ifindex cmsg.pktinfo);
    }
    else end

unfoldable pub receive4 : Result (Received Pktinfo4) → NativeEndpoint → Result ℕ × NativeEndpoint
unfolding set_dst4 update_src4
receive4 (err e) end = (err e, end)
receive4 (ok r) end =
    (ok r.size, update_src4 r.cmsg (set_dst4 r.new_dst (record end { is_v6 = false })))

unfoldable pub receive6 : Result (Received Pktinfo6) → NativeEndpoint → Result ℕ × NativeEndpoint
unfolding set_dst6 update_src6
receive6 (err e) end = (err e, end)
receive6 (ok r) end =
    (ok r.size, update_src6 r.cmsg (set_dst6 r.new_dst (record end { is_v6 = true })))

-- ReceiveIPv4 and ReceiveIPv6. The endpoint of the former is the bind's lastEndpoint from then on.
unfoldable pub receive_ipv4 : Result (Received Pktinfo4) → Result ℕ × NativeEndpoint
unfolding receive4
receive_ipv4 r = receive4 r zero_endpoint

unfoldable pub receive_ipv6 : Result (Received Pktinfo6) → Result ℕ × NativeEndpoint
unfolding receive6
receive_ipv6 r = receive6 r zero_endpoint
