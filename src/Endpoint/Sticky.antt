-- ===== src/Endpoint/Sticky.antt =====
-- "sticky sockets": an answer leaves from where the datagram came in.
use wireguard_go.Base.{
  ℕ, ◌^◌, ◌<◌, ◌≡◌, ap, ◌∙◌, false, none, List, ◌++◌, length, take, drop, replicate, if◌then◌else◌,
  bytes_eq, append_assoc, take-append_of, drop-append_of, ap₂,
}
use wireguard_go.Base.Endian.{
  put_little_endian, little_endian, little_endian-put_little_endian, length-put_little_endian,
}
use wireguard_go.System.{ok}
use wireguard_go.Sockets.{NativeBind}
use wireguard_go.Endpoint.{
  NativeEndpoint, zero_endpoint, inet4, inet6, set_src4, src4_src, src4_ifindex, Pktinfo4, Pktinfo6,
  cmsg4, cmsg6, pktinfo4_of, pktinfo6_of,
}
use wireguard_go.Endpoint.Datagrams.{
  Sendmsg, Received, receive_ipv4, receive_ipv6, send, retry4, retry6,
}

-- The source that was set is the one that is read.
src4_src-set_src4 :
    (addr : List ℕ) (ifindex : ℕ) (end : NativeEndpoint)
    → length addr ≡ 4
    → src4_src (set_src4 addr ifindex end) ≡ addr
src4_src-set_src4 addr ifindex end four =
    let word = put_little_endian 4 ifindex in
    ap (take 4) (append_assoc addr word (drop 8 end.src))
    ∙ take-append_of 4 addr (word ++ drop 8 end.src) four

src4_ifindex-set_src4 :
    (addr : List ℕ) (ifindex : ℕ) (end : NativeEndpoint)
    → length addr ≡ 4
    → ifindex < 2 ^ 32
    → src4_ifindex (set_src4 addr ifindex end) ≡ ifindex
src4_ifindex-set_src4 addr ifindex end four fits =
    let word = put_little_endian 4 ifindex in
    let rest = drop 8 end.src in
    let at =
      ap (drop 4) (append_assoc addr word rest) ∙ drop-append_of 4 addr (word ++ rest) four in
    ap (λ l. little_endian (take 4 l)) at
    ∙ ap little_endian (take-append_of 4 word rest (length-put_little_endian 4 ifindex))
    ∙ little_endian-put_little_endian 4 ifindex fits

-- A datagram with the control message that the options of the socket ask for.
abbrev pub datagram4 : ℕ → ℕ → List ℕ → Pktinfo4 → Received Pktinfo4
datagram4 size port addr info = record { size = size; new_dst = inet4 port addr; cmsg = cmsg4 info }

abbrev pub datagram6 : ℕ → ℕ → ℕ → List ℕ → Pktinfo6 → Received Pktinfo6
datagram6 size port zone addr info = record {
  size = size;
  new_dst = inet6 port zone addr;
  cmsg = cmsg6 info;
}

-- The message of an answer names the address and the interface at which the datagram came in.
pktinfo4_of_received :
    (size port : ℕ) (addr : List ℕ) (info : Pktinfo4)
    → length info.spec_dst ≡ 4
    → info.ifindex < 2 ^ 32
    → pktinfo4_of (receive_ipv4 (ok (datagram4 size port addr info))).1
      ≡ record { ifindex = info.ifindex; spec_dst = info.spec_dst; addr = replicate 4 0 }
unfolding receive_ipv4 pktinfo4_of
pktinfo4_of_received size port addr info four fits =
    let end : NativeEndpoint = record zero_endpoint { dst_port = port; dst_word = addr } in
    ap₂ (λ i a. record { ifindex = i; spec_dst = a; addr = replicate 4 0 })
      (src4_ifindex-set_src4 info.spec_dst info.ifindex end four fits)
      (src4_src-set_src4 info.spec_dst info.ifindex end four)

pktinfo6_of_received :
    (size port zone : ℕ) (addr : List ℕ) (info : Pktinfo6)
    → bytes_eq info.addr (replicate 16 0) ≡ false
    → info.ifindex < 2 ^ 32
    → pktinfo6_of (receive_ipv6 (ok (datagram6 size port zone addr info))).1 ≡ info
unfolding receive_ipv6 pktinfo6_of
pktinfo6_of_received size port zone addr info nonzero fits =
    ap₂ (λ i a. record { addr = info.addr; ifindex = if a then 0 else i })
      (little_endian-put_little_endian 4 info.ifindex fits) nonzero

module _ {K : Type 0} (s : Sendmsg K) where
  -- An answer to an IPv4 datagram goes to the datagram's sender, from the address and the interface at
  -- which the datagram came in, if the kernel takes it.
  pub sticky4 :
      (bind : NativeBind) (buff : List ℕ) (size port : ℕ) (addr : List ℕ) (info : Pktinfo4)
      (k k' : K)
      → length info.spec_dst ≡ 4
      → info.ifindex < 2 ^ 32
      → s.sendmsg4 bind.sock4 buff
          (cmsg4
            (record { ifindex = info.ifindex; spec_dst = info.spec_dst; addr = replicate 4 0 }))
          (inet4 port addr)
          k
        ≡ (none, k')
      → send s bind buff (receive_ipv4 (ok (datagram4 size port addr info))).1 k
        ≡ (none, (receive_ipv4 (ok (datagram4 size port addr info))).1, k')
  unfolding send receive_ipv4
  sticky4 bind buff size port addr info k k' four fits taken =
      let end = (receive_ipv4 (ok (datagram4 size port addr info))).1 in
      ap
        (λ i.
          retry4 s bind.sock4 end buff (s.sendmsg4 bind.sock4 buff (cmsg4 i) (inet4 port addr) k))
        (pktinfo4_of_received size port addr info four fits)
      ∙ ap (retry4 s bind.sock4 end buff) taken

  -- The same for an IPv6 datagram.
  pub sticky6 :
      (bind : NativeBind) (buff : List ℕ) (size port zone : ℕ) (addr : List ℕ) (info : Pktinfo6)
      (k k' : K)
      → bytes_eq info.addr (replicate 16 0) ≡ false
      → info.ifindex < 2 ^ 32
      → s.sendmsg6 bind.sock6 buff (cmsg6 info) (inet6 port info.ifindex addr) k ≡ (none, k')
      → send s bind buff (receive_ipv6 (ok (datagram6 size port zone addr info))).1 k
        ≡ (none, (receive_ipv6 (ok (datagram6 size port zone addr info))).1, k')
  unfolding send receive_ipv6
  sticky6 bind buff size port zone addr info k k' nonzero fits taken =
      let end = (receive_ipv6 (ok (datagram6 size port zone addr info))).1 in
      ap₂
        (λ i z.
          retry6 s bind.sock6 end buff (s.sendmsg6 bind.sock6 buff (cmsg6 i) (inet6 port z addr) k))
        (pktinfo6_of_received size port zone addr info nonzero fits)
        (little_endian-put_little_endian 4 info.ifindex fits)
      ∙ ap (retry6 s bind.sock6 end buff) taken
