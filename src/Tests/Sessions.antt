-- ===== src/Tests/Sessions.antt =====
-- A peer with a current and an unconfirmed key pair.
use wireguard_go.Base.{
  ℕ, ◌≡◌, ◌≤◌, refl, Bool, true, false, Option, none, some, List, [], ◌∷◌, ◌+◌, arith,
}
use wireguard_go.Replay
use wireguard_go.Index
use wireguard_go.Index.{
  new_index, check_round, rand_uint32, delete, IndexTable, insert, handshake_entry,
}
use wireguard_go.Keypair.{Keypair, Heap, Session, derive_keys, new_keypair, confirm}
use wireguard_go.Keypair.Indexed.{IsIndexed}
use wireguard_go.Crypto.{new_private_key}
use wireguard_go.Noise.Response.{
  create_message_response, respond_with_index, response_message, is_initiation_consumed,
}
use wireguard_go.Keypair.Steps.{IsPending, new_keypair-IsIndexed, confirm-IsIndexed}
use wireguard_go.Constants.{max_timer_handshakes}
use wireguard_go.Timers.{PeerTimers, new_timer}
use wireguard_go.Timers.Attempts.{retries, retries_bounded}
use wireguard_go.Tests.Handshakes.{toy, after_second}

abbrev pub keypair_at : ℕ → Keypair
keypair_at index = record {
  send_nonce = 0;
  send = [];
  receive = [];
  replay_filter = Replay.zero_filter;
  is_initiator = true;
  created = 0;
  local_index = index;
  remote_index = 0;
}

-- The key pair n has the index 11 + n.
abbrev pub heap : Heap
heap n = keypair_at (11 + n)

abbrev pub table : IndexTable
table =
    insert
      (insert (insert Index.init 11 (record { peer = some 2; handshake = none; key_pair = some 0 }))
        12 (record { peer = some 2; handshake = none; key_pair = some 1 }))
      after_second.local_index (handshake_entry 2)

abbrev pub session : Session
session = record {
  handshake = after_second;
  indices = table;
  heap = heap;
  keypairs = record { current = some 0; previous = none; next = some 1 };
}

session-IsIndexed : IsIndexed heap table session.keypairs
unfolding insert create_message_response respond_with_index response_message new_index check_round
    rand_uint32 delete new_private_key is_initiation_consumed
session-IsIndexed = record {
  current = record {
    entry = record { peer = some 2; handshake = none; key_pair = some 0 };
    nonzero = omega arith;
    found = refl;
    own = refl;
  };
  previous = tt;
  next = record {
    entry = record { peer = some 2; handshake = none; key_pair = some 1 };
    nonzero = omega arith;
    found = refl;
    own = refl;
  };
  current_previous = tt;
  current_next = omega arith;
  previous_next = tt;
}

session-IsPending : IsPending session
unfolding insert create_message_response respond_with_index response_message new_index check_round
    rand_uint32 delete new_private_key is_initiation_consumed
session-IsPending = (omega arith, handshake_entry 2, refl, refl)

abbrev or_session : Option Session → Session
or_session none = session
or_session (some s) = s

abbrev renewed : Session
renewed = or_session (new_keypair toy 2 100 2 session)

renewed_is : new_keypair toy 2 100 2 session ≡ some renewed
unfolding new_keypair derive_keys create_message_response respond_with_index response_message
    new_index check_round rand_uint32 delete new_private_key is_initiation_consumed
renewed_is = refl

new_keypair-IsIndexed_example : IsIndexed renewed.heap renewed.indices renewed.keypairs
new_keypair-IsIndexed_example =
    new_keypair-IsIndexed toy 2 100 2 session renewed session-IsIndexed session-IsPending
      (omega arith, tt, omega arith) renewed_is

confirm-IsIndexed_example :
    IsIndexed (confirm 1 session).heap (confirm 1 session).indices (confirm 1 session).keypairs
confirm-IsIndexed_example = confirm-IsIndexed 1 session session-IsIndexed

abbrev timers : PeerTimers
timers = record {
  retransmit_handshake = new_timer;
  send_keepalive = new_timer;
  new_handshake = new_timer;
  zero_key_material = new_timer;
  persistent_keepalive = new_timer;
  handshake_attempts = 17;
  need_another_keepalive = false;
  sent_last_minute_handshake = false;
  last_sent_handshake = 0;
  last_handshake_nano = 0;
}

-- Four expirations, six seconds apart.
abbrev expirations : List (ℕ × ℕ × Bool)
expirations =
    (6_000_000_000, 0, true)
    ∷ (12_000_000_000, 0, true)
    ∷ (18_000_000_000, 0, true)
    ∷ (24_000_000_000, 0, true)
    ∷ []

retries_bounded_example : retries true 0 expirations timers + 17 ≤ max_timer_handshakes + 1
retries_bounded_example = retries_bounded true 0 expirations timers (omega arith)
