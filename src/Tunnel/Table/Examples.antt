-- ===== src/Tunnel/Table/Examples.antt =====
-- Tests of the tunnel, and its theorems at concrete runs.
use sangtachi.Prelude.{ℕ, ◌-◌, ◌≤◌, ◌≡◌, refl, true, false, none, some, List, [], ◌∷◌, replicate}
use sangtachi.Protocol.{max_peers}
use sangtachi.Network.Endpoint.{Endpoint}
use sangtachi.Peer.Session.State.{SessionIo, Session, new_session}
use sangtachi.Peer.Session.Sending
use sangtachi.Tunnel.Table.{
  TxOutcome, Entry, Tunnel, terminal_count, enforce_retention_cap, send_data, run_timers,
}
use sangtachi.Tunnel.Table.Creation.{NewSession}
use sangtachi.Tunnel.Table.Retention.{actives, enforce_retention_cap_lem}
use sangtachi.Tunnel.Table.Runs.{
  empty_tunnel, TunnelEvent, session_wanted, datagram_in, timers_run, punch_begun, roster_sent,
  address_set, run_tunnel, run_tunnel-run_timers,
}
use sangtachi.Tunnel.Table.Retention.{AreValid}

abbrev home : Endpoint
home = record { address = 0x0a00_0001; port = 4000 }

abbrev wanted : NewSession
wanted = record {
  local_peer_id = 1;
  local_virtual_ip = 0x0a64_0001;
  peer_id = 2;
  peer_virtual_ip = 0x0a64_0002;
  candidates = home ∷ [];
  peer_is_host = true;
}

abbrev sample_io : SessionIo
sample_io = record {
  send_succeeds = λ n. true;
  random = λ n. none;
  rtt_clock_us = none;
  has_sink = true;
}

abbrev sample_events : List TunnelEvent
sample_events =
    session_wanted wanted sample_io (some (0 ∷ 0 ∷ 0 ∷ 7 ∷ []) ∷ some (replicate 16 1) ∷ []) 5
    ∷ address_set 0x0a64_0001
    ∷ punch_begun 2 6
    ∷ datagram_in home (1 ∷ 2 ∷ []) 9
    ∷ roster_sent 2 (1 ∷ [])
    ∷ timers_run 300
    ∷ []

short_inner : (send_data (1 ∷ 2 ∷ []) empty_tunnel).0 ≡ TxOutcome.dropped
unfolding send_data
short_inner = refl

run_tunnel-run_timers_example :
    AreValid (run_tunnel sample_events empty_tunnel).sessions
    × (terminal_count (run_timers 400 (run_tunnel sample_events empty_tunnel)).sessions
        ≤ max_peers - 1)
run_tunnel-run_timers_example = run_tunnel-run_timers sample_events 400

enforce_retention_cap_lem_example :
    (terminal_count (enforce_retention_cap (run_tunnel sample_events empty_tunnel)).sessions
      ≤ max_peers - 1)
    × (actives (enforce_retention_cap (run_tunnel sample_events empty_tunnel)).sessions
        ≡ actives (run_tunnel sample_events empty_tunnel).sessions)
enforce_retention_cap_lem_example =
    enforce_retention_cap_lem (run_tunnel sample_events empty_tunnel)
      (run_tunnel-run_timers sample_events 400).0

-- A connected session with peer 2, which has the address 10.100.0.2.
abbrev connected : Session
connected =
    record (new_session
      (record {
        local_peer_id = 1;
        local_virtual_ip = 0x0a64_0001;
        peer_id = 2;
        peer_virtual_ip = 0x0a64_0002;
        candidates = home ∷ [];
        peer_is_host = true;
        local_epoch = 11;
        attempt_nonce = replicate 8 3;
      })
      [] 0) { got_ack = true; sent_ack = true; pinned = some 21; peer_endpoint = some home }

abbrev sole_entry : Entry
sole_entry = record {
  peer_id = 2;
  session = connected;
  io = sample_io;
  epoch_retired = false;
  nonce_retired = false;
}

abbrev one_session : Tunnel
one_session = record empty_tunnel {
  sessions = sole_entry ∷ [];
  routes = record { slots = none ∷ none ∷ some 2 ∷ none ∷ none ∷ none ∷ [] };
  local_vip = some 0x0a64_0001;
}

abbrev inner_packet : List ℕ
inner_packet =
    0x45 ∷ 0 ∷ 0 ∷ 20 ∷ 0 ∷ 0 ∷ 0 ∷ 0 ∷ 64 ∷ 17 ∷ 0 ∷ 0 ∷ 10 ∷ 100 ∷ 0 ∷ 1 ∷ 10 ∷ 100 ∷ 0 ∷ 2 ∷ []
