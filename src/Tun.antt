-- ===== src/Tun.antt =====
-- tun_linux.go: reading and writing packets, the MTU and the events of a TUN device. What the system
-- calls answer is an argument; an int is its bit pattern.
pub mod Header
pub mod Sets
pub mod Calls
pub mod Descriptors
pub mod Listener
use wireguard_go.Base.{
  ℕ, zero, suc, ◌+◌, ◌-◌, ◌/◌, ◌^◌, Bool, true, false, not, Option, none, some, List, [], ◌∷◌, ◌++◌,
  length, take, drop, set, get_or, ltb, leb, ◌==◌, if◌then◌else◌,
}

-- "add packet information header": two bytes of flags, and the protocol by the version of the packet,
-- whose first byte comes after the header.
unfoldable pub put_header : List ℕ → List ℕ
put_header buff =
    let buff = set (set buff 0 0) 1 0 in
    if get_or buff 4 0 / 16 == 6 then set (set buff 2 134) 3 221 else set (set buff 2 8) 3 0

-- The bytes that Write gives to the file. `none`: a panic on an index or a bound out of range.
unfoldable pub write : Bool → List ℕ → ℕ → Option (List ℕ)
unfolding put_header
write nopi buff offset =
    if nopi
    then (if leb offset (length buff) then some (drop offset buff) else none)
    else if ltb offset 4
    then none
    else if ltb (length (drop (offset - 4) buff)) 5
    then none
    else some (put_header (drop (offset - 4) buff))

-- What a read of the file gives: the bytes, and an error.
pub record FileRead : Type 0 where
  pub bytes : List ℕ
  pub error : Option ℕ

-- A call of Read: the buffer, the number of bytes and the error.
pub record ReadResult : Type 0 where
  pub buff : List ℕ
  pub n : ℕ
  pub error : Option ℕ

-- The bytes of the file, in the buffer from `at` on.
abbrev pub place : ℕ → List ℕ → List ℕ → List ℕ
place at bytes buff = take at buff ++ bytes ++ drop (at + length bytes) buff

-- doRead, for an offset of at least 4 and within the buffer. `waiting`: an error of a listener.
unfoldable pub do_read : Option ℕ → Bool → FileRead → List ℕ → ℕ → ReadResult
do_read (some e) nopi file buff offset = record { buff = buff; n = 0; error = some e }
do_read none true file buff offset = record {
  buff = place offset file.bytes buff;
  n = length file.bytes;
  error = file.error;
}
do_read none false file buff offset = record {
  buff = place (offset - 4) file.bytes buff;
  n = length file.bytes - 4;
  error = file.error;
}

abbrev pub eagain : ℕ
eagain = 11

unfoldable pub is_eagain : Option ℕ → Bool
is_eagain none = false
is_eagain (some e) = e == eagain

-- How a call of Read ends: with a result, or as the device is closed.
pub data ReadEnd : Type 0 where
  read_done : ReadResult → ReadEnd
  read_closed : List ℕ → ReadEnd

-- Read, by the turns left: in each, an error of a listener or what the file gives, and whether
-- readyRead says that there is more to read. `none`: it still waits.
unfoldable pub read : List (Option ℕ × FileRead × Bool) → Bool → List ℕ → ℕ → Option ReadEnd
unfolding do_read is_eagain
read [] nopi buff offset = none
read ((waiting, file, ready) ∷ turns) nopi buff offset =
    let r = do_read waiting nopi file buff offset in
    let rest = read turns nopi r.buff offset in
    if not (is_eagain r.error)
    then some (read_done r)
    else if ready
    then rest
    else some (read_closed r.buff)
