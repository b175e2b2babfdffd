-- ===== src/Tests/Workers.antt =====
-- The goroutines of a device with one peer.
use wireguard_go.Base.{◌≡◌, ◌≢◌, ◌⊎◌, refl, true, false, none, some, [], ◌∷◌, ◌++◌, replicate}
use wireguard_go.Keypair.{store}
use wireguard_go.Ratelimiter.{allow, allow_entry}
use wireguard_go.Cookie.{check_mac1, check_mac2}
use wireguard_go.Queue.{add_to_queue, add_to_encryption_queue, add_to_outbound_queue}
use wireguard_go.Device.State.{is_under_load}
use wireguard_go.Traffic.{HandshakeElement, Traffic}
use wireguard_go.Send.{
  Draws, Nonce, passed, awaiting, stuck, usable_keypair, usable, wait_for_keypair, use_keypair,
  outcome, populate, take_nonce, fill, next_nonce, add_work,
}
use wireguard_go.Send.Nonces.{Issued, start, pass, Increases, nonces-Increases}
use wireguard_go.Receive.{is_handshake_message}
use wireguard_go.Receive.Handshakes.{
  Addresses, HandshakeDraws, handle_handshake, exited, Gate, admitted, dismissed, broken,
  check_load, check_cookie, check_rate,
}
use wireguard_go.Receive.Gates.{rate_allows, after_load, admitted_only, handle_handshake_continues}
use wireguard_go.Tests.Handshakes.{toy}
use wireguard_go.Tests.Wire.{packet4}
use wireguard_go.Tests.Devices.{busy}

abbrev pub traffic : Traffic
traffic = record {
  device = record busy { under_load_until = 5_000 };
  outbound = λ n. record { packet = []; nonce = 0; key_pair = none; peer = none };
  inbound = λ n. record {
    packet = packet4;
    counter = 5;
    key_pair = 0;
    endpoint = record { dst = 192 ∷ 0 ∷ 2 ∷ 9 ∷ []; has_src = false };
  };
  handshakes =
      λ n. record { msg_type = 0; packet = []; endpoint = record { dst = []; has_src = false } };
  outbound_flags = λ n. record { dropped = false; locked = false };
  inbound_flags = λ n. record { dropped = false; locked = false };
  encryption_queue = [];
  decryption_queue = [];
  sent = [];
  written = [];
}

abbrev pub draws : Draws
draws = record { now = 1_000; jitter = 0; rand = ([], false); rounds = []; timestamp = [] }

abbrev passed_or : Traffic → Nonce → Traffic
passed_or w (passed w') = w'
passed_or w (awaiting w') = w
passed_or w stuck = w

-- Two packets, with the key pair 0.
abbrev after_one : Traffic
after_one = passed_or traffic (wait_for_keypair toy 2 7 draws true traffic)

abbrev after_two : Traffic
after_two = passed_or traffic (wait_for_keypair toy 2 8 draws true after_one)

usable_one : usable_keypair traffic 2 1_000 ≡ some 0
unfolding usable_keypair usable
usable_one = refl

passed_one : wait_for_keypair toy 2 7 draws true traffic ≡ passed after_one
unfolding wait_for_keypair usable_keypair usable use_keypair outcome populate take_nonce fill
    next_nonce store add_work add_to_encryption_queue add_to_outbound_queue add_to_queue
passed_one = refl

usable_two : usable_keypair after_one 2 1_000 ≡ some 0
unfolding wait_for_keypair usable_keypair usable use_keypair outcome populate take_nonce fill
    next_nonce store add_work add_to_encryption_queue add_to_outbound_queue add_to_queue
usable_two = refl

passed_two : wait_for_keypair toy 2 8 draws true after_one ≡ passed after_two
unfolding wait_for_keypair usable_keypair usable use_keypair outcome populate take_nonce fill
    next_nonce store add_work add_to_encryption_queue add_to_outbound_queue add_to_queue
passed_two = refl

abbrev log_one : Issued
log_one = (0, (after_one.outbound 7).nonce) ∷ []

nonces-Increases_example : Increases ((0, (after_two.outbound 8).nonce) ∷ log_one)
nonces-Increases_example =
    nonces-Increases toy ((0, (after_two.outbound 8).nonce) ∷ log_one) after_two (
      pass log_one 2 8 0 draws true after_one after_two
        (pass [] 2 7 0 draws true traffic after_one (start traffic) usable_one passed_one)
        usable_two passed_two)

abbrev plain : Addresses
plain = record {
  dst_to_bytes = λ dst. dst;
  dst_ip = λ dst. dst;
  to4 = λ ip. some ip;
  to16 = λ ip. ip;
}

abbrev handshake_draws : HandshakeDraws
handshake_draws = record {
  now = 1_000;
  unix_nano = 1_000;
  secret = ([], false);
  cookie_nonce = ([], false);
  rand = ([], false);
  rounds = [];
  keypair = 9;
  element = 9;
  ok = true;
}

-- An initiation with both MACs of the toy cryptography, for a device under load.
abbrev initiation : HandshakeElement
initiation = record {
  msg_type = 1;
  packet = replicate 116 0 ++ replicate 16 116 ++ replicate 16 132;
  endpoint = record { dst = 192 ∷ 0 ∷ 2 ∷ 9 ∷ []; has_src = false };
}

abbrev admitted_or : Gate → Traffic
admitted_or (admitted w) = w
admitted_or (dismissed w) = traffic
admitted_or broken = traffic

abbrev let_in : Traffic
let_in = admitted_or (
    check_load plain toy (check_mac1 toy traffic.device.mac initiation.packet) initiation.packet
      initiation.endpoint handshake_draws traffic)

let_in_run :
    check_load plain toy
      (check_mac1 toy traffic.device.mac initiation.packet)
      initiation.packet
      initiation.endpoint
      handshake_draws
      traffic
    ≡ admitted let_in
unfolding check_load check_mac1 check_mac2 is_under_load check_cookie check_rate allow allow_entry
let_in_run = refl

admitted_only_example :
    (check_mac1 toy traffic.device.mac initiation.packet ≡ some true)
    × (((is_under_load 1_000 traffic.device).1 ≡ false)
        ⊎ ((check_mac2 toy
                (is_under_load 1_000 traffic.device).0.mac
                initiation.packet
                initiation.endpoint.dst
                1_000
              ≡ some true)
            × (rate_allows plain toy initiation.endpoint.dst 1_000
                  (after_load plain toy 1_000 traffic)
                ≡ true)))
admitted_only_example = admitted_only plain toy initiation handshake_draws traffic let_in let_in_run

abbrev reply : HandshakeElement
reply = record {
  msg_type = 3;
  packet = replicate 64 0;
  endpoint = record { dst = 192 ∷ 0 ∷ 2 ∷ 9 ∷ []; has_src = false };
}

handle_handshake_continues_example :
    handle_handshake plain toy reply handshake_draws traffic ≢ exited traffic
unfolding is_handshake_message
handle_handshake_continues_example =
    handle_handshake_continues plain toy reply handshake_draws traffic traffic refl
