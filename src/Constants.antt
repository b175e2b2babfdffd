-- ===== src/Constants.antt =====
-- constants.go: the protocol's constants. Durations are in nanoseconds, as in Go's `time`.
use wireguard_go.Base.{ℕ, ◌-◌, ◌*◌, ◌/◌, ◌^◌}

abbrev pub second : ℕ
second = 1_000_000_000

abbrev pub millisecond : ℕ
millisecond = 1_000_000

abbrev pub rekey_after_messages : ℕ
rekey_after_messages = 2 ^ 64 - 2 ^ 16 - 1

abbrev pub reject_after_messages : ℕ
reject_after_messages = 2 ^ 64 - 2 ^ 4 - 1

abbrev pub rekey_after_time : ℕ
rekey_after_time = second * 120

abbrev pub rekey_attempt_time : ℕ
rekey_attempt_time = second * 90

abbrev pub rekey_timeout : ℕ
rekey_timeout = second * 5

abbrev pub max_timer_handshakes : ℕ
max_timer_handshakes = 90 / 5

abbrev pub rekey_timeout_jitter_max_ms : ℕ
rekey_timeout_jitter_max_ms = 334

abbrev pub reject_after_time : ℕ
reject_after_time = second * 180

abbrev pub keepalive_timeout : ℕ
keepalive_timeout = second * 10

abbrev pub cookie_refresh_time : ℕ
cookie_refresh_time = second * 120

abbrev pub handshake_initation_rate : ℕ
handshake_initation_rate = second / 20

abbrev pub padding_multiple : ℕ
padding_multiple = 16

abbrev pub queue_outbound_size : ℕ
queue_outbound_size = 1024

abbrev pub queue_inbound_size : ℕ
queue_inbound_size = 1024

abbrev pub queue_handshake_size : ℕ
queue_handshake_size = 1024

abbrev pub max_segment_size : ℕ
max_segment_size = 65535

-- MessageTransportSize, MessageKeepaliveSize and MinMessageSize are the same.
abbrev pub min_message_size : ℕ
min_message_size = 32

abbrev pub max_message_size : ℕ
max_message_size = max_segment_size

abbrev pub max_content_size : ℕ
max_content_size = 65503

abbrev pub under_load_queue_size : ℕ
under_load_queue_size = queue_handshake_size / 8

abbrev pub under_load_after_time : ℕ
under_load_after_time = second

abbrev pub max_peers : ℕ
max_peers = 65536
