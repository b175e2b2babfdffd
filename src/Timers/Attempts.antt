-- ===== src/Timers/Attempts.antt =====
-- How often the timers of timers.go retry a handshake.
use wireguard_go.Base.{
  ℕ, suc, ◌+◌, ◌≤◌, ◌^◌, ◌%◌, ◌≡◌, refl, inl, inr, Bool, true, false, List, [], ◌∷◌, ltb, arith,
  Bool-cases, ltb-false→le, if◌then◌else◌,
}
use wireguard_go.Base.Clock.{sub_time}
use wireguard_go.Constants.{max_timer_handshakes, rekey_timeout}
use wireguard_go.Timers.{
  PeerTimers, Output, keepalive, handshake_initiation, flush_nonce_queue, clear_src, is_less,
  expire, send_handshake_initiation, expired_retransmit_handshake, timers_handshake_initiated,
  timers_any_authenticated_packet_traversal,
}

-- The initiations among the outputs.
abbrev pub initiations : List Output → ℕ
initiations [] = 0
initiations (keepalive ∷ out) = initiations out
initiations (handshake_initiation ∷ out) = suc (initiations out)
initiations (flush_nonce_queue ∷ out) = initiations out
initiations (clear_src ∷ out) = initiations out

module _ (active : Bool) (interval : ℕ) where
  traversal_attempts :
      (b : Bool) (x y : PeerTimers)
      → x.handshake_attempts ≡ y.handshake_attempts
      → (if b then x else y).handshake_attempts ≡ y.handshake_attempts
  traversal_attempts true x y e = e
  traversal_attempts false x y e = refl

  sent_attempts :
      (jitter : ℕ) (t : PeerTimers)
      → (timers_handshake_initiated active interval jitter
          (timers_any_authenticated_packet_traversal active interval t)).handshake_attempts
        ≡ t.handshake_attempts
  unfolding timers_handshake_initiated timers_any_authenticated_packet_traversal
  sent_attempts jitter t = elim (Bool-cases active) [
    | inr off ↦ elim (Bool-cases (ltb 0 interval)) [
      | inl set ↦ simp (off, set) refl
      | inr unset ↦ simp (off, unset) refl
    ]
    | inl on ↦ elim (Bool-cases (ltb 0 interval)) [
      | inl set ↦ simp (on, set) refl
      | inr unset ↦ simp (on, unset) refl
    ]
  ]

  -- A retry leaves the number of attempts alone and sends at most one initiation.
  retry_attempts :
      (now jitter : ℕ) (made : Bool) (t : PeerTimers)
      → ((send_handshake_initiation active interval true now made jitter t).0.handshake_attempts
          ≡ t.handshake_attempts)
        × (initiations (send_handshake_initiation active interval true now made jitter t).1 ≤ 1)
  unfolding send_handshake_initiation
  retry_attempts now jitter made t =
      elim (Bool-cases (is_less (sub_time now t.last_sent_handshake) rekey_timeout)) [
        | inl early ↦ (simp early refl, simp early (omega arith))
        | inr late ↦ elim (Bool-cases made) [
          | inr failed ↦ (simp (late, failed) refl, simp (late, failed) (omega arith))
          | inl fine ↦ (
            simp (late, fine) (sent_attempts jitter (record t { last_sent_handshake = now })),
            simp (late, fine) (omega arith),
          )
        ]
      ]

  expired_attempts :
      (now jitter : ℕ) (made : Bool) (t : PeerTimers)
      → t.handshake_attempts ≤ max_timer_handshakes + 1
      → ((expired_retransmit_handshake active interval now made jitter t).0.handshake_attempts
          ≤ max_timer_handshakes + 1)
        × (initiations (expired_retransmit_handshake active interval now made jitter t).1
              + t.handshake_attempts
            ≤ (expired_retransmit_handshake active interval now made jitter t).0.handshake_attempts)
  unfolding expired_retransmit_handshake
  expired_attempts now jitter made t h =
      elim (Bool-cases (ltb max_timer_handshakes t.handshake_attempts)) [
        | inl many ↦ elim (Bool-cases active) [
          | inl on ↦ (simp (many, on) h, simp (many, on) (omega arith))
          | inr off ↦ (simp (many, off) h, simp (many, off) (omega arith))
        ]
        | inr few ↦
            let again = record t {
              retransmit_handshake = expire t.retransmit_handshake;
              handshake_attempts = (t.handshake_attempts + 1) % 2 ^ 64;
            } in
            let (same, most) = retry_attempts now jitter made again in
            (
              simp few (omega (arith, same, ltb-false→le _ _ few)),
              simp few (omega (arith, same, most, ltb-false→le _ _ few)),
            )
      ]

  -- The initiations that the handler sends at successive expirations of the timer: each with the
  -- clock, the jitter and whether CreateMessageInitiation succeeds.
  abbrev pub retries : List (ℕ × ℕ × Bool) → PeerTimers → ℕ
  retries [] t = 0
  retries ((now, jitter, made) ∷ events) t =
      initiations (expired_retransmit_handshake active interval now made jitter t).1
      + retries events (expired_retransmit_handshake active interval now made jitter t).0

  -- However often the retransmission timer expires, with no other event in between, its handler
  -- sends no more initiations than are left to the limit of MaxTimerHandshakes + 1 attempts, which
  -- the attempts so far do not exceed.
  pub retries_bounded :
      (events : List (ℕ × ℕ × Bool)) (t : PeerTimers)
      → t.handshake_attempts ≤ max_timer_handshakes + 1
      → retries events t + t.handshake_attempts ≤ max_timer_handshakes + 1
  retries_bounded [] t h = omega (arith, h)
  retries_bounded ((now, jitter, made) ∷ events) t h =
      let (fits, counted) = expired_attempts now jitter made t h in
      omega (
        arith,
        counted,
        retries_bounded events (expired_retransmit_handshake active interval now made jitter t).0
            fits,
      )
