-- ===== src/Timers.antt =====
-- timers.go, and SendHandshakeInitiation of send.go: what a peer's timers and counters do at each
-- event. A handler is a function on them, with the messages and signals that it sends. Whether the
-- timers are active does not change within one event.
pub mod Attempts
pub mod Keys
use wireguard_go.Base.{
  ℕ, ◌+◌, ◌-◌, ◌*◌, ◌%◌, ◌^◌, Bool, true, false, not, ◌&&◌, ◌||◌, Option, none, some, List, [], ◌∷◌,
  ◌++◌, ltb, if◌then◌else◌,
}
use wireguard_go.Base.Clock.{sub_time}
use wireguard_go.Constants.{
  second, millisecond, keepalive_timeout, rekey_timeout, reject_after_time, max_timer_handshakes,
}
use wireguard_go.Noise
use wireguard_go.Noise.{Handshake}
use wireguard_go.Index.{delete}
use wireguard_go.Keypair.{Session, delete_keypair}

-- The flag, and the duration that the runtime's timer was last set to, if it runs.
pub record Timer : Type 0 where
  pub is_pending : Bool
  pub runs : Option ℕ

-- A timer of NewTimer: AfterFunc, and Stop at once.
abbrev pub new_timer : Timer
new_timer = record { is_pending = false; runs = none }

unfoldable pub mod_timer : Timer → ℕ → Timer
mod_timer timer d = record { is_pending = true; runs = some d }

unfoldable pub del : Timer → Timer
del timer = record { is_pending = false; runs = none }

-- What the function of AfterFunc does before it calls the expiration function.
unfoldable pub expire : Timer → Timer
expire timer = record { is_pending = false; runs = none }

pub record PeerTimers : Type 0 where
  pub retransmit_handshake : Timer
  pub send_keepalive : Timer
  pub new_handshake : Timer
  pub zero_key_material : Timer
  pub persistent_keepalive : Timer
  pub handshake_attempts : ℕ
  pub need_another_keepalive : Bool
  pub sent_last_minute_handshake : Bool
  pub last_sent_handshake : ℕ
  pub last_handshake_nano : ℕ

-- What timersActive reads: isRunning, device != nil, isUp, the number of peers.
unfoldable pub timers_active : Bool → Bool → Bool → ℕ → Bool
timers_active is_running has_device is_up peers = is_running && has_device && is_up && ltb 0 peers

pub data Output : Type 0 where
  keepalive handshake_initiation flush_nonce_queue clear_src : Output

-- `a < b` on int64, for a constant b that is not negative.
abbrev pub is_less : ℕ → ℕ → Bool
is_less a b = ltb a b || not (ltb a (2 ^ 63))

module _ (active : Bool) (interval : ℕ) where
  unfoldable pub timers_data_sent : PeerTimers → PeerTimers
  unfolding del mod_timer
  timers_data_sent t =
      if active
      then (record t {
        send_keepalive = del t.send_keepalive;
        new_handshake =
            if not t.new_handshake.is_pending
            then mod_timer t.new_handshake (keepalive_timeout + rekey_timeout)
            else t.new_handshake;
      })
      else t

  unfoldable pub timers_data_received : PeerTimers → PeerTimers
  unfolding mod_timer
  timers_data_received t =
      if active
      then (if not t.send_keepalive.is_pending
          then (record t { send_keepalive = mod_timer t.send_keepalive keepalive_timeout })
          else (record t { need_another_keepalive = true }))
      else t

  unfoldable pub timers_any_authenticated_packet_received : PeerTimers → PeerTimers
  unfolding del
  timers_any_authenticated_packet_received t =
      if active then (record t { new_handshake = del t.new_handshake }) else t

  -- `jitter` is the draw of rand.Int31n.
  unfoldable pub timers_handshake_initiated : ℕ → PeerTimers → PeerTimers
  unfolding del mod_timer
  timers_handshake_initiated jitter t =
      if active
      then (record t {
        send_keepalive = del t.send_keepalive;
        retransmit_handshake =
            mod_timer t.retransmit_handshake (rekey_timeout + millisecond * jitter);
      })
      else t

  unfoldable pub timers_handshake_complete : ℕ → PeerTimers → PeerTimers
  unfolding del
  timers_handshake_complete unix_nano t = record t {
    retransmit_handshake = if active then del t.retransmit_handshake else t.retransmit_handshake;
    handshake_attempts = 0;
    sent_last_minute_handshake = false;
    last_handshake_nano = unix_nano;
  }

  unfoldable pub timers_session_derived : PeerTimers → PeerTimers
  unfolding mod_timer
  timers_session_derived t =
      if active
      then (record t { zero_key_material = mod_timer t.zero_key_material (reject_after_time * 3) })
      else t

  unfoldable pub timers_any_authenticated_packet_traversal : PeerTimers → PeerTimers
  unfolding mod_timer
  timers_any_authenticated_packet_traversal t =
      if ltb 0 interval && active
      then (record t {
        persistent_keepalive = mod_timer t.persistent_keepalive (interval * second);
      })
      else t

  -- `made` says whether CreateMessageInitiation succeeds.
  unfoldable pub send_handshake_initiation :
      Bool → ℕ → Bool → ℕ → PeerTimers → PeerTimers × List Output
  unfolding timers_any_authenticated_packet_traversal timers_handshake_initiated
  send_handshake_initiation is_retry now made jitter t =
      let t1 = if not is_retry then (record t { handshake_attempts = 0 }) else t in
      let t2 = record t1 { last_sent_handshake = now } in
      let t3 = timers_handshake_initiated jitter (timers_any_authenticated_packet_traversal t2) in
      if is_less (sub_time now t1.last_sent_handshake) rekey_timeout
      then (t1, [])
      else if not made
      then (t2, [])
      else (t3, handshake_initiation ∷ [])

  -- The endpoint's source is cleared if there is an endpoint.
  unfoldable pub expired_retransmit_handshake : ℕ → Bool → ℕ → PeerTimers → PeerTimers × List Output
  unfolding send_handshake_initiation del mod_timer expire
  expired_retransmit_handshake now made jitter t0 =
      let t = record t0 { retransmit_handshake = expire t0.retransmit_handshake } in
      let stopped =
        if active
        then (record t {
          send_keepalive = del t.send_keepalive;
          zero_key_material =
              if not t.zero_key_material.is_pending
              then mod_timer t.zero_key_material (reject_after_time * 3)
              else t.zero_key_material;
        })
        else t in
      let again = record t { handshake_attempts = (t.handshake_attempts + 1) % 2 ^ 64 } in
      let (t', sent) = send_handshake_initiation true now made jitter again in
      if ltb max_timer_handshakes t.handshake_attempts
      then (stopped, flush_nonce_queue ∷ [])
      else (t', clear_src ∷ sent)

  unfoldable pub expired_send_keepalive : PeerTimers → PeerTimers × List Output
  unfolding mod_timer expire
  expired_send_keepalive t0 =
      let t = record t0 { send_keepalive = expire t0.send_keepalive } in
      let t' = record t {
        need_another_keepalive = false;
        send_keepalive =
            if active then mod_timer t.send_keepalive keepalive_timeout else t.send_keepalive;
      } in
      (if t.need_another_keepalive then t' else t, keepalive ∷ [])

  unfoldable pub expired_new_handshake : ℕ → Bool → ℕ → PeerTimers → PeerTimers × List Output
  unfolding send_handshake_initiation expire
  expired_new_handshake now made jitter t0 =
      let t = record t0 { new_handshake = expire t0.new_handshake } in
      let (t', sent) = send_handshake_initiation false now made jitter t in (t', clear_src ∷ sent)

  unfoldable pub expired_persistent_keepalive : PeerTimers → PeerTimers × List Output
  unfolding del expire
  expired_persistent_keepalive t0 =
      let t = record t0 { persistent_keepalive = expire t0.persistent_keepalive } in
      let t' = if active then (record t { send_keepalive = del t.send_keepalive }) else t in
      if ltb 0 interval then (t', keepalive ∷ []) else (t, [])

-- expiredZeroKeyMaterial, on the handshake, the key pairs and the index table.
unfoldable pub expired_zero_key_material : Session → Session
expired_zero_key_material s =
    let kp = s.keypairs in
    let table = delete_keypair s.heap s.indices kp.previous in
    let table = delete_keypair s.heap table kp.current in
    let table = delete_keypair s.heap table kp.next in
    record s {
      handshake = Noise.clear s.handshake;
      indices = delete table s.handshake.local_index;
      keypairs = record { current = none; previous = none; next = none };
    }

-- `last` is the timers before, whose other fields stay.
unfoldable pub timers_init : ℕ → PeerTimers → PeerTimers
timers_init now last = record last {
  retransmit_handshake = new_timer;
  send_keepalive = new_timer;
  new_handshake = new_timer;
  zero_key_material = new_timer;
  persistent_keepalive = new_timer;
  handshake_attempts = 0;
  sent_last_minute_handshake = false;
  need_another_keepalive = false;
  last_sent_handshake = now - (rekey_timeout + second);
}

unfoldable pub timers_stop : PeerTimers → PeerTimers
unfolding del
timers_stop t = record t {
  retransmit_handshake = del t.retransmit_handshake;
  send_keepalive = del t.send_keepalive;
  new_handshake = del t.new_handshake;
  zero_key_material = del t.zero_key_material;
  persistent_keepalive = del t.persistent_keepalive;
}
