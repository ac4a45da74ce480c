-- ===== src/Counters.antt =====
-- client/src/counters.cpp and client/include/sangtachi/counters.hpp: the table of counters. A table is
-- a function; adding stops at the largest 64-bit number. The names and the printed lines are not
-- modelled.
mod Laws
mod Examples
use sangtachi.Prelude.{ℕ, ◌+◌, ◌-◌, Bool, ltb, ◌==◌, if◌then◌else◌}

pub data Counter : Type 0 where
  adapter_rx console_queue_dropped control_queue_dropped drop_bad_nonce drop_bad_reason
        drop_bad_source drop_data_early drop_duplicate drop_inject_error drop_inject_ring_full
        drop_inner_checksum drop_inner_dst drop_inner_ihl drop_inner_length drop_inner_not_ipv4
        drop_inner_src drop_length drop_magic drop_no_epoch drop_no_sink drop_oversize_datagram
        drop_probe_full drop_reneg_limit drop_reneg_rate drop_retired_epoch drop_roster_direction
        drop_roster_flags drop_roster_name drop_roster_stale drop_short drop_stale_epoch
        drop_stun_parse drop_terminal_state drop_too_old drop_type_length drop_unclassified
        drop_unknown_peer drop_unknown_type drop_unmatched_pong drop_unverified_tx drop_version
        drop_vip_mismatch dup_ack endpoint_learned path_probe_failed record_write_failed rx_bytes
        rx_datagrams rx_err_adapter rx_err_recv telemetry_queue_dropped tx_bytes tx_datagrams
        tx_drop_bad_src tx_drop_no_route tx_drop_not_connected tx_drop_not_ipv4 tx_drop_not_unicast
        tx_drop_oversize tx_drop_short tx_err_ack tx_err_send :
      Counter

-- `index_of`.
abbrev pub index_of : Counter → ℕ
index_of adapter_rx = 0
index_of console_queue_dropped = 1
index_of control_queue_dropped = 2
index_of drop_bad_nonce = 3
index_of drop_bad_reason = 4
index_of drop_bad_source = 5
index_of drop_data_early = 6
index_of drop_duplicate = 7
index_of drop_inject_error = 8
index_of drop_inject_ring_full = 9
index_of drop_inner_checksum = 10
index_of drop_inner_dst = 11
index_of drop_inner_ihl = 12
index_of drop_inner_length = 13
index_of drop_inner_not_ipv4 = 14
index_of drop_inner_src = 15
index_of drop_length = 16
index_of drop_magic = 17
index_of drop_no_epoch = 18
index_of drop_no_sink = 19
index_of drop_oversize_datagram = 20
index_of drop_probe_full = 21
index_of drop_reneg_limit = 22
index_of drop_reneg_rate = 23
index_of drop_retired_epoch = 24
index_of drop_roster_direction = 25
index_of drop_roster_flags = 26
index_of drop_roster_name = 27
index_of drop_roster_stale = 28
index_of drop_short = 29
index_of drop_stale_epoch = 30
index_of drop_stun_parse = 31
index_of drop_terminal_state = 32
index_of drop_too_old = 33
index_of drop_type_length = 34
index_of drop_unclassified = 35
index_of drop_unknown_peer = 36
index_of drop_unknown_type = 37
index_of drop_unmatched_pong = 38
index_of drop_unverified_tx = 39
index_of drop_version = 40
index_of drop_vip_mismatch = 41
index_of dup_ack = 42
index_of endpoint_learned = 43
index_of path_probe_failed = 44
index_of record_write_failed = 45
index_of rx_bytes = 46
index_of rx_datagrams = 47
index_of rx_err_adapter = 48
index_of rx_err_recv = 49
index_of telemetry_queue_dropped = 50
index_of tx_bytes = 51
index_of tx_datagrams = 52
index_of tx_drop_bad_src = 53
index_of tx_drop_no_route = 54
index_of tx_drop_not_connected = 55
index_of tx_drop_not_ipv4 = 56
index_of tx_drop_not_unicast = 57
index_of tx_drop_oversize = 58
index_of tx_drop_short = 59
index_of tx_err_ack = 60
index_of tx_err_send = 61

abbrev pub counter_max : ℕ
counter_max = 0xffff_ffff_ffff_ffff

abbrev pub Counters : Type 0
Counters = Counter → ℕ

abbrev pub no_counts : Counters
no_counts c = 0

unfoldable pub add : Counters → Counter → ℕ → Counters
add t counter amount c =
    if index_of c == index_of counter
    then if ltb (counter_max - amount) (t c) then counter_max else t c + amount
    else t c

unfoldable pub increment : Counter → Counters → Counters
unfolding add
increment counter t = add t counter 1

pub set : Counters → Counter → ℕ → Counters
set t counter v c = if index_of c == index_of counter then v else t c
