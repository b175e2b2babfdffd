-- ===== src/Index.antt =====
-- index.go: the table of the indices that peers put into their messages. The map is a function; its
-- missing keys read as the zero value. Pointers are the numbers of what they point to.
pub mod Laws
use wireguard_go.Base.{
  ℕ, suc, ◌+◌, ◌*◌, Bool, true, false, Option, none, some, List, [], ◌∷◌, ◌==◌, if◌then◌else◌,
  is_some,
}

pub record IndexTableEntry : Type 0 where
  pub peer : Option ℕ
  pub handshake : Option ℕ
  pub key_pair : Option ℕ

abbrev pub zero_entry : IndexTableEntry
zero_entry = record { peer = none; handshake = none; key_pair = none }

abbrev pub IndexTable : Type 0
IndexTable = ℕ → Option IndexTableEntry

abbrev pub init : IndexTable
init key = none

unfoldable pub delete : IndexTable → ℕ → IndexTable
delete table index key = if index == 0 then table key else if index == key then none else table key

unfoldable pub insert : IndexTable → ℕ → IndexTableEntry → IndexTable
insert table index value key = if index == key then some value else table key

unfoldable pub lookup : IndexTable → ℕ → IndexTableEntry
lookup table id = elim (table id) [ none ↦ zero_entry | some entry ↦ entry ]

-- What rand.Read left in the four bytes, and whether it failed.
pub record RandBytes : Type 0 where
  pub bytes : ℕ × ℕ × ℕ × ℕ
  pub failed : Bool

-- binary.LittleEndian.Uint32 of the bytes.
unfoldable pub rand_uint32 : RandBytes → ℕ
rand_uint32 r = r.bytes.0 + r.bytes.1 * 256 + r.bytes.2 * 65536 + r.bytes.3 * 16777216

-- One round of the loop of NewIndex: the random bytes, and what other goroutines do to the table
-- before the read lock, and between the read lock and the write lock.
pub record Round : Type 0 where
  pub rand : RandBytes
  pub before : IndexTable → IndexTable
  pub between : IndexTable → IndexTable

pub data NewIndexResult : Type 0 where
  -- the index, and the table with it
  mapped : ℕ → IndexTable → NewIndexResult
  -- the value that is returned beside the error
  rand_error : ℕ → IndexTable → NewIndexResult
  -- the rounds given are used up
  looping : IndexTable → NewIndexResult

-- The handshake of a peer goes by the peer's own number.
abbrev pub handshake_entry : ℕ → IndexTableEntry
handshake_entry peer = record { peer = some peer; handshake = some peer; key_pair = none }

-- What one round makes of its draw: `table` is what the first check sees, `table'` the second, under
-- the write lock; the rest is the next round after either check.
unfoldable pub check_round :
    RandBytes → IndexTable → IndexTable → ℕ → NewIndexResult → NewIndexResult → NewIndexResult
check_round rand table table' peer retry retry' =
    let index = rand_uint32 rand in
    if rand.failed
    then rand_error index table
    else if index == 0
    then retry
    else if is_some (table index)
    then retry
    else if is_some (table' index)
    then retry'
    else mapped index (insert table' index (handshake_entry peer))

unfoldable pub new_index : IndexTable → ℕ → List Round → NewIndexResult
new_index table peer [] = looping table
new_index table peer (round ∷ rounds) =
    let seen = round.before table in
    let locked = round.between seen in
    let retry = new_index seen peer rounds in
    let retry' = new_index locked peer rounds in
    check_round round.rand seen locked peer retry retry'
