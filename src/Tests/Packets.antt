-- ===== src/Tests/Packets.antt =====
-- The replay filter, the index table, the rate limiter and the timestamps, on concrete inputs.
use wireguard_go.Base.{
  ℕ, ◌≡◌, ◌≢◌, ◌≤◌, ◌+◌, ◌*◌, ◌-◌, refl, inl, true, false, none, [], ◌∷◌, ◌++◌, map, arith,
}
use wireguard_go.Replay.{
  zero_filter, init, validate_counter, move_window, check_and_set, clear_words,
}
use wireguard_go.Replay.Spec.{fresh}
use wireguard_go.Replay.Runs.{run, answers, window_answers, answers-init, replay_refused}
use wireguard_go.Index
use wireguard_go.Index.{
  IndexTable, RandBytes, mapped, handshake_entry, insert, rand_uint32, check_round, new_index,
}
use wireguard_go.Index.Laws.{Locked, quiet, new_index_fresh, new_index_ends}
use wireguard_go.Ratelimiter.{RatelimiterEntry, allow_entry, packet_cost, max_tokens}
use wireguard_go.Ratelimiter.Bucket.{count_allowed, rate_bound}
use wireguard_go.Tai64n.{now, after}
use wireguard_go.Tai64n.Order.{after_wrapped}

answers-init_example :
    answers (init zero_filter) (5 ∷ 3 ∷ 5 ∷ []) ≡ window_answers fresh (5 ∷ 3 ∷ 5 ∷ [])
answers-init_example = answers-init (5 ∷ 3 ∷ 5 ∷ [])

answers_run :
    answers (init zero_filter) (5 ∷ 3 ∷ 5 ∷ 3000 ∷ 4 ∷ 2999 ∷ [])
    ≡ true ∷ true ∷ false ∷ true ∷ false ∷ true ∷ []
unfolding init validate_counter move_window check_and_set clear_words
answers_run = refl

replay_refused_example :
    (validate_counter
      (run (validate_counter (run (init zero_filter) (5 ∷ [])) 3).0 (900 ∷ 4 ∷ []))
      3).1
    ≡ false
unfolding init validate_counter move_window check_and_set clear_words
replay_refused_example = replay_refused (5 ∷ []) 3 (900 ∷ 4 ∷ []) refl

-- Draws of 0 and of 258.
abbrev zero_draw : RandBytes
zero_draw = record { bytes = (0, 0, 0, 0); failed = false }

abbrev draw : RandBytes
draw = record { bytes = (2, 1, 0, 0); failed = false }

abbrev drawn : ℕ
drawn = 258

new_index_fresh_example :
    (seen : IndexTable) × (t : IndexTable) × Locked Index.init
      (quiet zero_draw ∷ quiet draw ∷ [])
      drawn
      seen
      t
    × (drawn ≢ 0)
    × (seen drawn ≡ none)
    × (t drawn ≡ none)
    × (insert Index.init drawn (handshake_entry 9) ≡ insert t drawn (handshake_entry 9))
unfolding new_index check_round rand_uint32
new_index_fresh_example =
    new_index_fresh Index.init 9 (quiet zero_draw ∷ quiet draw ∷ []) drawn
      (insert Index.init drawn (handshake_entry 9)) refl

new_index_ends_example :
    new_index Index.init 9 (map quiet (zero_draw ∷ []) ++ quiet draw ∷ [])
    ≡ mapped (rand_uint32 draw) (insert Index.init (rand_uint32 draw) (handshake_entry 9))
unfolding rand_uint32
new_index_ends_example =
    new_index_ends Index.init 9 (zero_draw ∷ []) draw [] ((refl, inl refl), tt) refl (omega arith)
      refl

abbrev half_empty : RatelimiterEntry
half_empty = record { last_time = 1_000; tokens = 120_000_000 }

rate_bound_example :
    packet_cost * (1 + count_allowed (allow_entry none 10).0 (10 ∷ 20 ∷ 20 ∷ []))
    ≤ max_tokens + (30 - 10)
rate_bound_example =
    rate_bound 10 (10 ∷ 20 ∷ 20 ∷ []) 30 (omega arith, (omega arith, (omega arith, omega arith)))
      (omega arith)

after_wrapped_example :
    (after (now 4_295_000_000) (now 4_294_000_000) ≡ false)
    × (after (now 4_294_000_000) (now 4_295_000_000) ≡ true)
after_wrapped_example =
    after_wrapped 4_294_000_000 4_295_000_000 (omega arith) (omega arith) refl (omega arith)
