-- ===== src/Replay.antt =====
-- replay.go: the anti-replay filter of RFC 6479, on a platform whose uintptr has 64 bits.
pub mod Spec
pub mod Words
pub mod Refinement
pub mod Runs
use wireguard_go.Base.{
  ℕ, zero, suc, ◌+◌, ◌-◌, ◌*◌, ◌/◌, ◌%◌, ◌^◌, min, bit_or, Bool, true, false, not, List, ltb, leb,
  ◌==◌, if◌then◌else◌, get_or, set, replicate,
}
use wireguard_go.Constants.{reject_after_messages}

-- `_Wordm>>8&1 + _Wordm>>16&1 + _Wordm>>32&1` is 3 where uintptr has 64 bits: a word has 8 bytes.
abbrev pub word_log_size : ℕ
word_log_size = 3

abbrev pub word_size : ℕ
word_size = 2 ^ word_log_size

abbrev pub counter_redundant_bits_log : ℕ
counter_redundant_bits_log = word_log_size + 3

abbrev pub counter_redundant_bits : ℕ
counter_redundant_bits = word_size * 8

abbrev pub counter_bits_total : ℕ
counter_bits_total = 2048

abbrev pub counter_window_size : ℕ
counter_window_size = counter_bits_total - counter_redundant_bits

abbrev pub backtrack_words : ℕ
backtrack_words = counter_bits_total / word_size

pub record ReplayFilter : Type 0 where
  pub counter : ℕ  -- uint64
  pub backtrack : List ℕ  -- uintptr words

-- Go's zero value of the struct, as a new key pair holds it.
abbrev pub zero_filter : ReplayFilter
zero_filter = record { counter = 0; backtrack = replicate backtrack_words 0 }

unfoldable pub init : ReplayFilter → ReplayFilter
init filter = record { counter = 0; backtrack = set filter.backtrack 0 0 }

-- `for i := …; i <= diff; i++ { filter.backtrack[(current+i)%BacktrackWords] = 0 }`, by the rounds
-- left.
unfoldable pub clear_words : ℕ → ℕ → ℕ → List ℕ → List ℕ
clear_words zero current i words = words
clear_words (suc rounds) current i words =
    clear_words rounds current (i + 1) (set words ((current + i) % backtrack_words) 0)

-- "move window forward"; `indexWord - current` cannot wrap, for the counter is the greater one.
unfoldable pub move_window : ReplayFilter → ℕ → ReplayFilter
unfolding clear_words
move_window filter counter =
    let index_word = counter / 2 ^ counter_redundant_bits_log in
    let current = filter.counter / 2 ^ counter_redundant_bits_log in
    let diff = min (index_word - current) backtrack_words in
    record { counter = counter; backtrack = clear_words diff current 1 filter.backtrack }

-- "check and set bit"; `1 << indexBit` fits a word, for the bit is below 64.
unfoldable pub check_and_set : ReplayFilter → ℕ → ReplayFilter × Bool
check_and_set filter counter =
    let index_word = counter / 2 ^ counter_redundant_bits_log % backtrack_words in
    let index_bit = counter % counter_redundant_bits in
    let old_value = get_or filter.backtrack index_word 0 in
    let new_value = bit_or old_value (2 ^ index_bit) in
    (
      record filter { backtrack = set filter.backtrack index_word new_value },
      not (old_value == new_value),
    )

unfoldable pub validate_counter : ReplayFilter → ℕ → ReplayFilter × Bool
validate_counter filter counter =
    if leb reject_after_messages counter
    then (filter, false)
    else if ltb filter.counter counter
    then check_and_set (move_window filter counter) counter
    else if ltb counter_window_size (filter.counter - counter)
    then (filter, false)
    else check_and_set filter counter
