-- ===== src/Tun/Calls.antt =====
-- tun_linux.go: the calls about an interface by its name, each on a socket of its own, and the
-- making of a device. Errors that are texts are numbers here.
use wireguard_go.Base.{
  ℕ, ◌+◌, ◌-◌, ◌%◌, ◌^◌, List, [], ◌∷◌, ◌++◌, length, take, drop, slice, replicate, leb, ◌==◌,
  if◌then◌else◌,
}
use wireguard_go.Base.Endian.{put_little_endian, little_endian}
use wireguard_go.Misc.{to_int32}
use wireguard_go.System.{System, Action, Result, ok, err, ◌>>=◌, ◌>>◌, pure}
use wireguard_go.Sockets.{af_inet, sock_dgram, closing}

abbrev pub ifnamsiz : ℕ
ifnamsiz = 16

abbrev pub if_req_size : ℕ
if_req_size = ifnamsiz + 64

abbrev pub default_mtu : ℕ
default_mtu = 1420

-- `copy(ifr[:], name)`, of a request that is zero.
unfoldable pub request : List ℕ → List ℕ
request name = take if_req_size name ++ replicate (if_req_size - length name) 0

-- PutUint32(ifr[16:20], n).
abbrev pub put_field : ℕ → List ℕ → List ℕ
put_field n ifr = take 16 ifr ++ put_little_endian 4 n ++ drop 20 ifr

abbrev pub field : List ℕ → ℕ
field ifr = little_endian (slice 16 20 ifr)

-- The requests of ioctl.
pub data Request : Type 0 where
  siocgifindex siocsifmtu siocgifmtu tungetiff tunsetiff : Request

-- The int that MTU makes of the 32 bits of the answer.
unfoldable pub mtu_of : ℕ → ℕ
mtu_of val = if leb (2 ^ 31) val then (to_int32 val + (2 ^ 64 - 2 ^ 32)) % 2 ^ 64 else val

-- The bytes before the first zero.
unfoldable pub c_string : List ℕ → List ℕ
c_string [] = []
c_string (b ∷ bs) = if b == 0 then [] else b ∷ c_string bs

-- The system's calls, ioctl with the request it leaves in memory, and the other calls that make a
-- device: opening the clone device, SetNonblock and Pipe.
module _ {K : Type 0} (s : System K) (ioctl : Request → ℕ → List ℕ → Action K (List ℕ)) where
  -- What stands between the making of a socket and its deferred close.
  abbrev closed : {A : Type 0} → ℕ → Result A × K → Result A × K
  closed fd (r, k) = (r, closing s fd k)

  unfoldable pub get_dummy_sock : Action K ℕ
  get_dummy_sock = s.socket af_inet sock_dgram 0

  unfoldable pub on_socket : Request → List ℕ → Action K (List ℕ)
  unfolding get_dummy_sock
  on_socket req ifr = do fd ← get_dummy_sock; λ k. closed fd (ioctl req fd ifr k)

  unfoldable pub get_if_index : List ℕ → Action K ℕ
  unfolding on_socket request
  get_if_index name = do
    ifr ← on_socket siocgifindex (request name)
    pure (to_int32 (little_endian (slice ifnamsiz (ifnamsiz + 4) ifr)))

  unfoldable pub set_mtu : List ℕ → ℕ → Action K (Unit {0})
  unfolding on_socket request
  set_mtu name n = do ifr ← on_socket siocsifmtu (put_field (n % 2 ^ 32) (request name)); pure tt

  unfoldable pub mtu : List ℕ → Action K ℕ
  unfolding on_socket request mtu_of
  mtu name = do ifr ← on_socket siocgifmtu (request name); pure (mtu_of (field ifr))

  -- Name, with the descriptor of the device.
  unfoldable pub get_name : ℕ → Action K (List ℕ)
  unfolding c_string
  get_name fd = do ifr ← ioctl tungetiff fd (replicate if_req_size 0); pure (c_string ifr)

  -- The calls of CreateTUN and CreateTUNFromFile beside those: the opening of the clone device,
  -- SetNonblock, and Pipe.
  module _ (open_clone : Action K ℕ) (set_nonblock : ℕ → Action K (Unit {0}))
      (pipe : Action K (ℕ × ℕ)) where
    -- A device as it is made: the descriptor, the name, the pipe's ends and the index.
    abbrev Made : Type 0
    Made = ℕ × List ℕ × (ℕ × ℕ) × ℕ

    unfoldable pub create_tun_from_file : ℕ → Action K Made
    unfolding get_name get_if_index set_mtu
    create_tun_from_file fd = do
      set_nonblock fd
      name ← get_name fd
      ends ← pipe
      index ← get_if_index name
      set_mtu name default_mtu
      pure (fd, name, ends, index)

    -- The name with the flags IFF_TUN, in the request of TUNSETIFF.
    unfoldable pub tun_request : List ℕ → List ℕ
    unfolding request
    tun_request name = take 16 (request name) ++ put_little_endian 2 1 ++ drop 18 (request name)

    -- "Interface name too long" has no number, and is one here.
    abbrev name_too_long : ℕ
    name_too_long = 1_000

    unfoldable pub create_tun : List ℕ → Action K Made
    unfolding create_tun_from_file tun_request
    create_tun name = do
      fd ← open_clone
      set_nonblock fd
      λ k. if leb ifnamsiz (length name) then (err name_too_long, k) else (ok tt, k)
      ioctl tunsetiff fd (tun_request name)
      create_tun_from_file fd
