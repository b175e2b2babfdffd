-- ===== src/Endpoint/Bytes.antt =====
-- DstToBytes, over which cookies are computed, tells destinations apart.
use wireguard_go.Base.{
  ℕ, ◌^◌, ◌<◌, ◌≡◌, refl, sym, ap, ◌∙◌, Bool, true, false, List, ◌++◌, length, take, drop,
  if◌then◌else◌, arith, length-append, take-append_of, drop-append_of,
}
use wireguard_go.Base.Endian.{
  put_little_endian, little_endian, little_endian-put_little_endian, length-put_little_endian,
}
use wireguard_go.Endpoint.{NativeEndpoint, dst_ip, dst_to_bytes, ipv4}

-- The widths of the destination's parts.
pub record IsWide (end : NativeEndpoint) : Type 0 where
  pub port : end.dst_port < 2 ^ 64
  pub word : length end.dst_word ≡ 4
  pub addr : length end.dst_addr ≡ 16

abbrev start : NativeEndpoint → List ℕ
start end = put_little_endian 8 end.dst_port ++ end.dst_word

length-start : (end : NativeEndpoint) → IsWide end → length (start end) ≡ 12
length-start end wide = omega (
  arith,
  length-append (put_little_endian 8 end.dst_port) end.dst_word,
  length-put_little_endian 8 end.dst_port,
  wide.word,
)

-- The port and the word of a destination are read back from its start.
port-start : (end : NativeEndpoint) → IsWide end → little_endian (take 8 (start end)) ≡ end.dst_port
port-start end wide =
    ap little_endian (
      take-append_of 8 (put_little_endian 8 end.dst_port) end.dst_word
        (length-put_little_endian 8 end.dst_port))
    ∙ little_endian-put_little_endian 8 end.dst_port wide.port

word-start : (end : NativeEndpoint) → drop 8 (start end) ≡ end.dst_word
word-start end =
    drop-append_of 8 (put_little_endian 8 end.dst_port) end.dst_word
      (length-put_little_endian 8 end.dst_port)

-- Equal starts are of equal ports and words.
start_injective :
    (a b : NativeEndpoint)
    → IsWide a
    → IsWide b
    → start a ≡ start b
    → (a.dst_port ≡ b.dst_port) × (a.dst_word ≡ b.dst_word)
start_injective a b wide_a wide_b h = (
  sym (port-start a wide_a) ∙ ap (λ l. little_endian (take 8 l)) h ∙ port-start b wide_b,
  sym (word-start a) ∙ ap (drop 8) h ∙ word-start b,
)

-- The bytes of an IPv6 destination.
start6_injective :
    (a b : NativeEndpoint)
    → IsWide a
    → IsWide b
    → start a ++ a.dst_addr ≡ start b ++ b.dst_addr
    → (start a ≡ start b) × (a.dst_addr ≡ b.dst_addr)
start6_injective a b wide_a wide_b h =
    let start_of : (end : NativeEndpoint)
        → IsWide end
        → take 12 (start end ++ end.dst_addr) ≡ start end =
      λ end wide. take-append_of 12 (start end) end.dst_addr (length-start end wide) in
    let addr_of : (end : NativeEndpoint)
        → IsWide end
        → drop 12 (start end ++ end.dst_addr) ≡ end.dst_addr =
      λ end wide. drop-append_of 12 (start end) end.dst_addr (length-start end wide) in
    (
      sym (start_of a wide_a) ∙ ap (take 12) h ∙ start_of b wide_b,
      sym (addr_of a wide_a) ∙ ap (drop 12) h ∙ addr_of b wide_b,
    )

-- The bytes and the address, by the family.
bytes_of : Bool → NativeEndpoint → List ℕ
bytes_of b end = if b then start end ++ end.dst_addr else start end

ip_of : Bool → NativeEndpoint → List ℕ
ip_of b end = if b then end.dst_addr else ipv4 end.dst_word

same_by :
    (v w : Bool) (a b : NativeEndpoint)
    → IsWide a
    → IsWide b
    → bytes_of v a ≡ bytes_of w b
    → (v ≡ w) × (a.dst_port ≡ b.dst_port) × (a.dst_word ≡ b.dst_word) × (ip_of v a ≡ ip_of w b)
unfolding bytes_of ip_of
same_by true true a b wide_a wide_b h =
    let (starts, addrs) = start6_injective a b wide_a wide_b h in
    let (ports, words) = start_injective a b wide_a wide_b starts in (refl, ports, words, addrs)
same_by false false a b wide_a wide_b h =
    let (ports, words) = start_injective a b wide_a wide_b h in (refl, ports, words, ap ipv4 words)
same_by true false a b wide_a wide_b h = absurd (
    omega (
      arith,
      ap length h,
      length-append (start a) a.dst_addr,
      length-start a wide_a,
      length-start b wide_b,
      wide_a.addr,
    ))
same_by false true a b wide_a wide_b h = absurd (
    omega (
      arith,
      ap length h,
      length-append (start b) b.dst_addr,
      length-start a wide_a,
      length-start b wide_b,
      wide_b.addr,
    ))

-- Endpoints whose DstToBytes are equal are of one family, one port, one address and, for IPv6, one
-- zone, if the parts of both have the widths of their fields.
pub dst_to_bytes-injective :
    (a b : NativeEndpoint)
    → IsWide a
    → IsWide b
    → dst_to_bytes a ≡ dst_to_bytes b
    → (a.is_v6 ≡ b.is_v6)
      × (a.dst_port ≡ b.dst_port)
      × (a.dst_word ≡ b.dst_word)
      × (dst_ip a ≡ dst_ip b)
unfolding dst_to_bytes dst_ip bytes_of ip_of
dst_to_bytes-injective a b wide_a wide_b h = same_by a.is_v6 b.is_v6 a b wide_a wide_b h
