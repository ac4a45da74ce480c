-- ===== src/Protocol.antt =====
-- client/include/sangtachi/protocol_constants.hpp: the limits and intervals of the protocol.
use Prim.Native.Nat.{ℕ, ◌+◌}

abbrev pub tunnel_magic : ℕ
tunnel_magic = 0x53414e47

abbrev pub tunnel_version : ℕ
tunnel_version = 1

abbrev pub header_size : ℕ
header_size = 20

abbrev pub max_inner : ℕ
max_inner = 1452

abbrev pub max_datagram : ℕ
max_datagram = header_size + max_inner

abbrev pub stun_cookie : ℕ
stun_cookie = 0x2112a442

abbrev pub max_candidates : ℕ
max_candidates = 8

abbrev pub max_peers : ℕ
max_peers = 5

abbrev pub max_name_len : ℕ
max_name_len = 16

abbrev pub replay_window : ℕ
replay_window = 64

abbrev pub max_pending_pings : ℕ
max_pending_pings = 16

abbrev pub max_probe_paths : ℕ
max_probe_paths = 4

abbrev pub max_retired_epochs : ℕ
max_retired_epochs = 16

abbrev pub max_renegotiations : ℕ
max_renegotiations = 8

abbrev pub min_reneg_interval_ms : ℕ
min_reneg_interval_ms = 1000

abbrev pub unverified_tx_bucket : ℕ
unverified_tx_bucket = 10

abbrev pub unverified_tx_refill : ℕ
unverified_tx_refill = 5

abbrev pub hello_retransmit_ms : ℕ
hello_retransmit_ms = 200

abbrev pub punch_deadline_ms : ℕ
punch_deadline_ms = 10000

abbrev pub keepalive_interval_ms : ℕ
keepalive_interval_ms = 15000

abbrev pub idle_timeout_ms : ℕ
idle_timeout_ms = 50000

abbrev pub ping_interval_ms : ℕ
ping_interval_ms = 5000

abbrev pub retired_epoch_ttl_ms : ℕ
retired_epoch_ttl_ms = 120000

abbrev pub retired_nonce_ttl_ms : ℕ
retired_nonce_ttl_ms = 120000

abbrev pub probe_ttl_ms : ℕ
probe_ttl_ms = 5000

abbrev pub pending_ping_ttl_ms : ℕ
pending_ping_ttl_ms = 5000

abbrev pub terminal_session_ttl_ms : ℕ
terminal_session_ttl_ms = 120000

abbrev pub roster_interval_ms : ℕ
roster_interval_ms = 15000

abbrev pub roster_resend_interval_ms : ℕ
roster_resend_interval_ms = 5000

abbrev pub roster_resend_count : ℕ
roster_resend_count = 2
