-- ===== src/Ratelimiter/Bucket.antt =====
-- The bucket of one address in ratelimiter.go: how many packets it lets through.
use wireguard_go.Base.{
  ℕ, ◌+◌, ◌-◌, ◌*◌, ◌^◌, ◌≤◌, ◌<◌, ◌≡◌, sym, subst, Bool, true, false, none, List, [], ◌∷◌, arith,
}
use wireguard_go.Ratelimiter.{
  RatelimiterEntry, new_entry, take_token, allow_entry, max_tokens, packet_cost,
}

abbrev pub allowed : Bool → ℕ
allowed true = 1
allowed false = 0

-- One packet, for a bucket that is within the cap and was last used before, by a clock below 2 ^ 62
-- nanoseconds (146 years): the bucket gets that time, the tokens stay within the cap, and what is
-- spent comes from the tokens there were and the time that has passed.
pub take_token_spends :
    (e : RatelimiterEntry) (now : ℕ)
    → e.tokens ≤ max_tokens
    → e.last_time ≤ now
    → now < 2 ^ 62
    → ((take_token e now).0.last_time ≡ now)
      × ((take_token e now).0.tokens ≤ max_tokens)
      × ((take_token e now).0.tokens + packet_cost * allowed (take_token e now).1
          ≤ e.tokens + (now - e.last_time))
unfolding take_token
take_token_spends e now h past clock = ground arith

-- The packets of one address, at the times of the list, with the bucket's answers counted.
abbrev pub count_allowed : RatelimiterEntry → List ℕ → ℕ
count_allowed e [] = 0
count_allowed e (now ∷ times) =
    allowed (take_token e now).1 + count_allowed (take_token e now).0 times

-- The times rise, from `from` to at most `until`.
abbrev pub Rises : ℕ → List ℕ → ℕ → Type 0
Rises from [] until = from ≤ until
Rises from (t ∷ ts) until = (from ≤ t) × Rises t ts until

Rises-le : (from : ℕ) (ts : List ℕ) (until : ℕ) → Rises from ts until → from ≤ until
Rises-le from [] until h = h
Rises-le from (t ∷ ts) until h = omega (arith, Rises-le t ts until h.1)

count_allowed_spends :
    (e : RatelimiterEntry) (times : List ℕ) (until : ℕ)
    → e.tokens ≤ max_tokens
    → Rises e.last_time times until
    → until < 2 ^ 62
    → packet_cost * count_allowed e times ≤ e.tokens + (until - e.last_time)
count_allowed_spends e [] until h r clock = omega arith
count_allowed_spends e (t ∷ ts) until h r clock =
    let le = Rises-le t ts until r.1 in
    let (last, capped, spent) = take_token_spends e t h r.0 (omega arith) in
    let rest =
      count_allowed_spends (take_token e t).0 ts until capped
        (subst (λ n. Rises n ts until) (sym last) r.1) clock in
    omega (arith, rest, spent, last)

-- From a new address's first packet on, which is let through, at most 5 packets pass at once and 20
-- a second after that: each packet costs 50 ms of the time since the first, above the burst. The
-- packets' times do not fall, and the clock is below 2 ^ 62 nanoseconds (146 years).
pub rate_bound :
    (first : ℕ) (times : List ℕ) (until : ℕ)
    → Rises first times until
    → until < 2 ^ 62
    → packet_cost * (1 + count_allowed (allow_entry none first).0 times)
      ≤ max_tokens + (until - first)
unfolding allow_entry
rate_bound first times until r clock =
    omega (arith, count_allowed_spends (new_entry first) times until (omega arith) r clock)
