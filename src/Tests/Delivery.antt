-- ===== src/Tests/Delivery.antt =====
-- A packet from one device to another.
use wireguard_go.Base.{ℕ, ◌≡◌, refl, inl, true, false, Option, none, some, List, [], ◌∷◌, arith}
use wireguard_go.Base.Endian.{big_endian_uint16}
use wireguard_go.Misc.{min_uint}
use wireguard_go.Trie
use wireguard_go.Replay.{validate_counter, move_window, check_and_set, clear_words}
use wireguard_go.Routing.{lookup_ipv4}
use wireguard_go.Keypair.{confirm}
use wireguard_go.Packet.{ip_version, strip, strip_ipv4}
use wireguard_go.Queue.{is_dropped}
use wireguard_go.Traffic.{Traffic}
use wireguard_go.Send.Sequential.{encrypt_element}
use wireguard_go.Receive.{
  receive_element, decrypt_element, opened, confirm_keypair, is_expiring, keep_key_fresh_receiving,
  accept, deliver,
}
use wireguard_go.Receive.Accepted.{IsWritten, receive_element-IsWritten}
use wireguard_go.Receive.Delivery.{written-encrypted}
use wireguard_go.Tests.Handshakes.{toy, toy-IsSound}
use wireguard_go.Tests.Wire.{packet4}
use wireguard_go.Tests.Workers.{traffic, draws}

-- The element 4 is to be sent with the nonce 5 under the key pair 0.
abbrev sender : Traffic
sender = record traffic {
  outbound = λ n. record { packet = packet4; nonce = 5; key_pair = some 0; peer = some 2 };
}

-- It has arrived as the element 1, for the key pair 0.
abbrev receiver : Traffic
receiver = record traffic {
  inbound = λ n. record {
    packet = ((encrypt_element toy 4 1420 sender).outbound 4).packet;
    counter = 0;
    key_pair = 0;
    endpoint = record { dst = 192 ∷ 0 ∷ 2 ∷ 9 ∷ []; has_src = false };
  };
}

written-encrypted_example :
    (w' : Traffic) × (receive_element toy 2 1 draws 1_000 true (decrypt_element toy 1 receiver)
      ≡ some w')
    × (w'.written ≡ packet4 ∷ [])
unfolding validate_counter move_window check_and_set clear_words confirm_keypair confirm is_expiring
    ip_version big_endian_uint16 lookup_ipv4 is_dropped decrypt_element opened encrypt_element
    Trie.lookup Trie.lookup_from Trie.insert Trie.common_bits Trie.common_bits_from Trie.leading
    Trie.choose Trie.split_node min_uint wireguard_go.Base.Endian.put_little_endian
written-encrypted_example =
    written-encrypted toy 1420 0 2 4 1 draws 1_000 true sender receiver toy-IsSound refl refl
      (omega arith) refl refl refl (inl (refl, omega arith, refl, refl)) refl refl

-- The turn of the sequential receiver after that of the decryption worker.
abbrev opened_one : Traffic
opened_one = decrypt_element toy 1 receiver

abbrev traffic_or : Option Traffic → Traffic
traffic_or none = traffic
traffic_or (some w) = w

abbrev received : Traffic
received = traffic_or (receive_element toy 2 1 draws 1_000 true opened_one)

receive_run : receive_element toy 2 1 draws 1_000 true opened_one ≡ some received
unfolding receive_element validate_counter move_window check_and_set clear_words confirm_keypair
    confirm keep_key_fresh_receiving is_expiring accept deliver strip ip_version strip_ipv4
    big_endian_uint16 lookup_ipv4 is_dropped decrypt_element opened encrypt_element Trie.lookup
    Trie.lookup_from Trie.insert Trie.common_bits Trie.common_bits_from Trie.leading Trie.choose
    Trie.split_node min_uint wireguard_go.Base.Endian.put_little_endian wireguard_go.Queue.unlock
    wireguard_go.Base.Endian.little_endian
receive_run = refl

receive_element-IsWritten_example : IsWritten toy 2 1 receiver opened_one received
receive_element-IsWritten_example =
    receive_element-IsWritten toy 2 1 draws 1_000 true receiver opened_one received refl (λ h. h)
      receive_run
