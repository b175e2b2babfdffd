-- ===== src/Netlink.antt =====
-- routineRouteListener of conn_linux.go: the messages on routes, which clear the cached source of
-- the last endpoint when its route leads elsewhere. What recvmsg gives is an argument; the
-- endpoint is that of the bind, changed without a lock.
pub mod Routes
use wireguard_go.Base.{
  ℕ, zero, suc, ◌+◌, Bool, true, false, not, ◌&&◌, ◌||◌, Option, none, some, List, [], ◌∷◌, ◌++◌,
  length, drop, slice, ltb, leb, ◌==◌, if◌then◌else◌,
}
use wireguard_go.Base.Endian.{little_endian}
use wireguard_go.Endpoint.{NativeEndpoint, clear_src, src4_src, src4_ifindex}

abbrev pub sizeof_nl_msghdr : ℕ
sizeof_nl_msghdr = 16

abbrev pub sizeof_rt_msg : ℕ
sizeof_rt_msg = 12

abbrev pub sizeof_rt_attr : ℕ
sizeof_rt_attr = 4

abbrev pub rtm_newroute : ℕ
rtm_newroute = 24

abbrev pub rtm_delroute : ℕ
rtm_delroute = 25

abbrev pub rtm_getroute : ℕ
rtm_getroute = 26

abbrev pub rta_dst : ℕ
rta_dst = 1

abbrev pub rta_src : ℕ
rta_src = 2

abbrev pub rta_oif : ℕ
rta_oif = 4

abbrev pub rta_mark : ℕ
rta_mark = 16

abbrev pub af_inet : ℕ
af_inet = 2

-- The number in the bytes from `lo` to `hi`, in the machine's order.
abbrev pub number_at : ℕ → ℕ → List ℕ → ℕ
number_at lo hi bytes = little_endian (slice lo hi bytes)

-- The fields of NlMsghdr, and those of RtAttr.
abbrev pub hdr_len : List ℕ → ℕ
hdr_len remain = number_at 0 4 remain

abbrev pub hdr_type : List ℕ → ℕ
hdr_type remain = number_at 4 6 remain

abbrev pub hdr_seq : List ℕ → ℕ
hdr_seq remain = number_at 8 12 remain

abbrev pub attr_len : List ℕ → ℕ
attr_len attr = number_at 0 2 attr

abbrev pub attr_type : List ℕ → ℕ
attr_type attr = number_at 2 4 attr

-- The request that is written: for the route to `dst` from `src` with the mark.
pub record RouteRequest : Type 0 where
  pub kind : ℕ
  pub flags : ℕ
  pub seq : ℕ
  pub len : ℕ
  pub family : ℕ
  pub dst_len : ℕ
  pub src_len : ℕ
  pub dst : ℕ × ℕ × List ℕ  -- with the attribute's length and type
  pub src : ℕ × ℕ × List ℕ
  pub mark : ℕ × ℕ × ℕ

unfoldable pub route_request : ℕ → NativeEndpoint → RouteRequest
route_request last_mark end = record {
  kind = rtm_getroute;
  flags = 1;
  seq = 255;
  len = 52;
  family = af_inet;
  dst_len = 32;
  src_len = 32;
  dst = (8, rta_dst, end.dst_word);
  src = (8, rta_src, src4_src end);
  mark = (8, rta_mark, last_mark);
}

-- The last endpoint, and the requests written so far.
pub record Listener : Type 0 where
  pub last_endpoint : Option NativeEndpoint
  pub requests : List RouteRequest

-- "if uint32(bind.lastEndpoint.src4().ifindex) != ifidx"
unfoldable pub clear_elsewhere : List ℕ → NativeEndpoint → NativeEndpoint
unfolding clear_src
clear_elsewhere attr end =
    if attr_type attr == rta_oif && attr_len attr == sizeof_rt_attr + 4
    then if src4_ifindex end == number_at 4 8 attr then end else clear_src end
    else end

-- The loop over the attributes, each of at least four bytes, by the rounds left.
unfoldable pub scan_attrs : ℕ → List ℕ → NativeEndpoint → NativeEndpoint
unfolding clear_elsewhere
scan_attrs zero attr end = end
scan_attrs (suc n) attr end =
    let rest = scan_attrs n (drop (attr_len attr) attr) (clear_elsewhere attr end) in
    if ltb (length attr) sizeof_rt_attr
    then end
    else if ltb (attr_len attr) sizeof_rt_attr || ltb (length attr) (attr_len attr)
    then end
    else rest

-- A message on a route, with the endpoint that is asked about.
unfoldable pub route_of : ℕ → List ℕ → NativeEndpoint → Listener → Listener
unfolding scan_attrs route_request
route_of last_mark remain end l =
    let attr = drop (sizeof_nl_msghdr + sizeof_rt_msg) remain in
    if end.is_v6 || src4_ifindex end == 0
    then l
    else if hdr_seq remain == 255
    then (if ltb (sizeof_nl_msghdr + sizeof_rt_msg) (hdr_len remain)
        then record l { last_endpoint = some (scan_attrs (length attr) attr end) }
        else l)
    else record l { requests = l.requests ++ (route_request last_mark end ∷ []) }

unfoldable pub route_message : ℕ → List ℕ → Listener → Listener
unfolding route_of
route_message last_mark remain l = elim l.last_endpoint [
  | none ↦ l
  | some end ↦ route_of last_mark remain end l
]

unfoldable pub handle_message : ℕ → List ℕ → Listener → Listener
unfolding route_message
handle_message last_mark remain l =
    if hdr_type remain == rtm_newroute || hdr_type remain == rtm_delroute
    then route_message last_mark remain l
    else l

-- The loop over the messages of a datagram, by the rounds left. `none`: the rounds given are used up.
unfoldable pub scan_messages : ℕ → ℕ → List ℕ → Listener → Option Listener
unfolding handle_message
scan_messages zero last_mark remain l = none
scan_messages (suc n) last_mark remain l =
    let rest =
      scan_messages n last_mark (drop (hdr_len remain) remain)
        (handle_message last_mark remain l) in
    if ltb (length remain) sizeof_nl_msghdr
    then some l
    else if ltb (length remain) (hdr_len remain)
    then some l
    else rest
