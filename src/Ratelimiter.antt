-- ===== src/Ratelimiter.antt =====
-- ratelimiter/ratelimiter.go: a token bucket for each source address. Times are readings of the
-- monotonic clock in nanoseconds; an int64 is its bit pattern, a number below 2 ^ 64. An entry is
-- shared by pointer, and here stands in the table; net.IP's To4 and To16 are parameters.
pub mod Bucket
pub mod Collect
use wireguard_go.Base.Clock.{exceeds, sub_time}
use wireguard_go.Base.{
  bytes_eq, ℕ, suc, ◌+◌, ◌-◌, ◌*◌, ◌/◌, ◌%◌, ◌^◌, min, Bool, true, false, ◌&&◌, Option, none, some,
  List, [], ◌∷◌, ltb, leb, ◌==◌, if◌then◌else◌,
}

abbrev pub packets_per_second : ℕ
packets_per_second = 20

abbrev pub packets_burstable : ℕ
packets_burstable = 5

abbrev pub garbage_collect_time : ℕ
garbage_collect_time = 1_000_000_000

abbrev pub packet_cost : ℕ
packet_cost = 1_000_000_000 / packets_per_second

abbrev pub max_tokens : ℕ
max_tokens = packet_cost * packets_burstable

pub record RatelimiterEntry : Type 0 where
  pub last_time : ℕ
  pub tokens : ℕ

abbrev pub new_entry : ℕ → RatelimiterEntry
new_entry now = record { last_time = now; tokens = max_tokens - packet_cost }

-- "add tokens to entry" and "subtract cost of packet", under the entry's lock.
unfoldable pub take_token : RatelimiterEntry → ℕ → RatelimiterEntry × Bool
take_token entry now =
    let sum = (entry.tokens + sub_time now entry.last_time) % 2 ^ 64 in
    let tokens = if exceeds sum max_tokens then max_tokens else sum in
    if exceeds tokens packet_cost
    then (record { last_time = now; tokens = tokens - packet_cost }, true)
    else (record { last_time = now; tokens = tokens }, false)

-- What Allow does to the entry of one address.
unfoldable pub allow_entry : Option RatelimiterEntry → ℕ → RatelimiterEntry × Bool
unfolding take_token
allow_entry none now = (new_entry now, true)
allow_entry (some entry) now = take_token entry now

abbrev pub Table : Type 0
Table = List ℕ → Option RatelimiterEntry

abbrev pub update : Table → List ℕ → RatelimiterEntry → Table
update table key entry k = if bytes_eq key k then some entry else table k

pub record Ratelimiter : Type 0 where
  -- whether `stop` is a channel, and whether it is closed
  pub stop : Bool
  pub stopped : Bool
  pub table_ipv4 : Table
  pub table_ipv6 : Table

-- Closes the channel `stop`, if there is one. `none`: a panic, as it is closed already.
unfoldable pub close : Ratelimiter → Option Ratelimiter
close rate =
    if rate.stop
    then (if rate.stopped then none else some (record rate { stopped = true }))
    else some rate

-- Init closes the old channel, if any, and makes a new one and empty tables.
unfoldable pub init : Ratelimiter → Option Ratelimiter
init rate =
    if rate.stop && rate.stopped
    then none
    else some
        (record { stop = true; stopped = false; table_ipv4 = λ k. none; table_ipv6 = λ k. none })

-- One entry under the collector: kept unless it is older than a second by the clock at that moment.
unfoldable pub collect_entry : Option RatelimiterEntry → ℕ → Option RatelimiterEntry
collect_entry none now = none
collect_entry (some entry) now =
    if exceeds (sub_time now entry.last_time) garbage_collect_time then none else some entry

-- The collector's tick, over both tables; the clock is read anew at every entry.
unfoldable pub collect : Ratelimiter → (List ℕ → ℕ) → Ratelimiter
unfolding collect_entry
collect rate now = record rate {
  table_ipv4 = λ k. collect_entry (rate.table_ipv4 k) (now k);
  table_ipv6 = λ k. collect_entry (rate.table_ipv6 k) (now k);
}

module _ (to4 : List ℕ → Option (List ℕ)) (to16 : List ℕ → List ℕ) where
  unfoldable pub allow : Ratelimiter → List ℕ → ℕ → Ratelimiter × Bool
  unfolding allow_entry
  allow rate ip now = elim (to4 ip) [
    | some key ↦
        let (entry, ok) = allow_entry (rate.table_ipv4 key) now in
        (record rate { table_ipv4 = update rate.table_ipv4 key entry }, ok)
    | none ↦
        let key = to16 ip in
        let (entry, ok) = allow_entry (rate.table_ipv6 key) now in
        (record rate { table_ipv6 = update rate.table_ipv6 key entry }, ok)
  ]
