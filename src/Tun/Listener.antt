-- ===== src/Tun/Listener.antt =====
-- tun_linux.go: the listeners that turn netlink messages, and the errors of an empty write, into
-- events. The buffer of a datagram keeps what earlier ones left behind its end.
use wireguard_go.Base.{
  ℕ, zero, suc, ◌-◌, ◌^◌, Option, none, some, List, [], ◌∷◌, ◌++◌, drop, ltb, ◌==◌, if◌then◌else◌,
  bit_and,
}
use wireguard_go.System.{einval}
use wireguard_go.Netlink.{sizeof_nl_msghdr, number_at, hdr_len, hdr_type}

-- TUNEventUp, TUNEventDown and TUNEventMTUUpdate.
abbrev pub event_up : ℕ
event_up = 1

abbrev pub event_down : ℕ
event_down = 2

abbrev pub event_mtu_update : ℕ
event_mtu_update = 4

abbrev pub nlmsg_done : ℕ
nlmsg_done = 3

abbrev pub rtm_newlink : ℕ
rtm_newlink = 16

abbrev pub iff_running : ℕ
iff_running = 64

abbrev pub eio : ℕ
eio = 5

unfoldable pub to_rtmgrp : ℕ → ℕ
to_rtmgrp sc = 2 ^ (sc - 1)

-- The event of a turn of RoutineHackListener, by the error of the write.
unfoldable pub hack_event : Option ℕ → List ℕ
hack_event none = []
hack_event (some e) =
    if e == einval then event_up ∷ [] else if e == eio then event_down ∷ [] else []

-- The index and the flags of the IfInfomsg after the header.
abbrev pub info_index : List ℕ → ℕ
info_index remain = number_at 20 24 remain

abbrev pub info_flags : List ℕ → ℕ
info_flags remain = number_at 24 28 remain

-- The events of an RTM_NEWLINK message.
unfoldable pub link_events : ℕ → List ℕ → List ℕ
link_events index remain =
    if info_index remain == index
    then (if bit_and (info_flags remain) iff_running == 0 then event_down ∷ [] else event_up ∷ [])
      ++ event_mtu_update ∷ []
    else []

-- What the loop over a datagram's messages comes to.
pub data Listened : Type 0 where
  events : List ℕ → Listened
  panics : Listened
  still_reading : Listened

abbrev also : List ℕ → Listened → Listened
also es (events fs) = events (es ++ fs)
also es panics = panics
also es still_reading = still_reading

-- The loop, by the rounds left: the bytes of the buffer from the message on, `left` of which are
-- of the datagram. The header of a message that fills the datagram is followed by an index out of
-- range.
unfoldable pub listen : ℕ → ℕ → ℕ → List ℕ → Listened
unfolding link_events
listen zero index left bytes = still_reading
listen (suc n) index left bytes =
    let len = hdr_len bytes in
    let rest = listen n index (left - len) (drop len bytes) in
    if ltb left sizeof_nl_msghdr
    then events []
    else if ltb left len
    then events []
    else if hdr_type bytes == nlmsg_done
    then events []
    else if hdr_type bytes == rtm_newlink
    then (if left == sizeof_nl_msghdr then panics else also (link_events index bytes) rest)
    else rest
