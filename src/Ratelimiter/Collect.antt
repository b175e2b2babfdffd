-- ===== src/Ratelimiter/Collect.antt =====
-- The garbage collector of ratelimiter.go cannot be observed.
use wireguard_go.Base.{ℕ, ◌^◌, ◌≤◌, ◌<◌, ◌≡◌, refl, Option, none, some, arith}
use wireguard_go.Ratelimiter.{RatelimiterEntry, allow_entry, collect_entry, max_tokens}

abbrev pub WasSane : Option RatelimiterEntry → ℕ → Type 0
WasSane none now = Unit {0}
WasSane (some e) now = (e.tokens ≤ max_tokens) × (e.last_time ≤ now)

-- Whether the collector has run since or not, a packet gets the same answer and leaves the same
-- entry, if the entry was within the cap and last used before the collector ran, and the clock is
-- below 2 ^ 62 nanoseconds.
pub collect_unseen :
    (e : Option RatelimiterEntry) (collected now : ℕ)
    → WasSane e collected
    → collected ≤ now
    → now < 2 ^ 62
    → allow_entry (collect_entry e collected) now ≡ allow_entry e now
unfolding allow_entry collect_entry
collect_unseen none collected now s le clock = refl
collect_unseen (some e) collected now s le clock = ground arith
