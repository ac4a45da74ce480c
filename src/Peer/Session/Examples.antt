-- ===== src/Peer/Session/Examples.antt =====
-- Tests of the session, and its theorems at concrete runs.
use sangtachi.Prelude.{
  ◌+◌, ◌-◌, ◌*◌, ◌≤◌, ◌≡◌, refl, true, false, none, some, List, [], ◌∷◌, replicate, if◌then◌else◌,
  arith,
}
use sangtachi.Protocol.{unverified_tx_refill}
use sangtachi.Network.Endpoint.{Endpoint}
use sangtachi.Tunnel.Packet.{blank_header, type_of}
use sangtachi.Tunnel.Replay.{accepted, accept, check, check_initialized}
use sangtachi.Tunnel.Inner.{check_inner_ipv4, check_inner_header, fold_sum, sum_words}
use sangtachi.Tunnel.Wire.{read_u8, read_u32}
use sangtachi.Peer.Session.State.{
  SessionState, SessionConfig, SessionIo, Session, new_session, state, active, budget_cost,
}
use sangtachi.Peer.Session.Lifecycle.{
  next_deadline, poll, close_by_user, enter_terminal, send_close, stop_timers,
}
use sangtachi.Peer.Session.Admit.{RxPacket}
use sangtachi.Peer.Session.Receive.{receive}
use sangtachi.Peer.Session.Ended.{IsValid}
use sangtachi.Peer.Session.Trail.{HasTrail}
use sangtachi.Peer.Session.Delivery.{is_deliverable, receive-delivered}
use sangtachi.Peer.Session.Events.{
  Event, packet_in, timer_tick, user_close, punch_start, inner_out, roster_out, run,
  SameUpToCounters, run-new_session-IsValid, run-new_session-HasTrail, run_ended,
}
use sangtachi.Peer.Session.Budget.{
  Reply, ack_reply, probe_reply, pong_reply, unverified_sent, unverified_sent-le,
}
use sangtachi.Peer.Session.Deadlines.{poll_early}

abbrev home : Endpoint
home = record { address = 0x0a00_0001; port = 4000 }

abbrev stranger : Endpoint
stranger = record { address = 0x0a00_0002; port = 4001 }

abbrev sample_config : SessionConfig
sample_config = record {
  local_peer_id = 1;
  local_virtual_ip = 0x0a64_0001;
  peer_id = 2;
  peer_virtual_ip = 0x0a64_0002;
  candidates = home ∷ [];
  peer_is_host = true;
  local_epoch = 11;
  attempt_nonce = replicate 8 3;
}

abbrev sample_io : SessionIo
sample_io = record {
  send_succeeds = λ n. true;
  random = λ n. some (replicate 8 n);
  rtt_clock_us = none;
  has_sink = true;
}

abbrev data_packet : RxPacket
data_packet = record {
  header = record blank_header { type = 4; peer_id = 2; session_epoch = 21; sequence = 5 };
  payload =
      0x45 ∷ 0 ∷ 0 ∷ 20 ∷ 0 ∷ 0 ∷ 0 ∷ 0 ∷ 0x40 ∷ 0x11 ∷ 0x66 ∷ 0x0f ∷ 0x0a ∷ 0x64 ∷ 0 ∷ 2 ∷ 0x0a
      ∷ 0x64 ∷ 0 ∷ 1 ∷ [];
  from = home;
}

abbrev sample_events : List Event
sample_events =
    roster_out []
    ∷ punch_start 0
    ∷ packet_in data_packet 10
    ∷ timer_tick 200
    ∷ inner_out []
    ∷ user_close 300
    ∷ []

abbrev connected_session : Session
connected_session = record (new_session sample_config [] 0) {
  got_ack = true;
  sent_ack = true;
  pinned = some 21;
}

abbrev closed_session : Session
closed_session = record (new_session sample_config [] 0) { terminal = some SessionState.closed }

starts_punching : state (new_session sample_config [] 0) ≡ SessionState.punching
unfolding state new_session
starts_punching = refl

closes : state (close_by_user sample_io 9 (new_session sample_config [] 0)) ≡ SessionState.closed
unfolding close_by_user enter_terminal send_close stop_timers state active new_session
closes = refl

delivers : is_deliverable sample_io data_packet connected_session ≡ true
unfolding state new_session type_of accept check check_initialized accepted check_inner_ipv4
    check_inner_header fold_sum sum_words read_u8 read_u32
delivers = refl

run-new_session-IsValid_example :
    IsValid (run sample_io sample_events (new_session sample_config [] 0))
run-new_session-IsValid_example = run-new_session-IsValid sample_io sample_config [] 0 sample_events

run-new_session-HasTrail_example :
    HasTrail (run sample_io sample_events (new_session sample_config [] 0))
run-new_session-HasTrail_example =
    run-new_session-HasTrail sample_io sample_config [] 0 sample_events

-- What comes to a session that has ended.
abbrev late_events : List Event
late_events =
    punch_start 0 ∷ packet_in data_packet 10 ∷ timer_tick 200 ∷ inner_out [] ∷ user_close 300 ∷ []

run_ended_example : SameUpToCounters (run sample_io late_events closed_session) closed_session
unfolding active state new_session
run_ended_example = run_ended sample_io late_events closed_session (ground arith) refl

receive-delivered_example : (receive sample_io data_packet 10 connected_session).1.delivered ≡ (
    if is_deliverable sample_io data_packet connected_session
    then data_packet.payload ∷ connected_session.delivered
    else connected_session.delivered)
receive-delivered_example = receive-delivered sample_io data_packet 10 connected_session

-- A HELLO_ACK, a probe and a PONG to a stranger.
abbrev replies : List Reply
replies =
    ack_reply (replicate 8 1) stranger 10
    ∷ probe_reply stranger 4
    ∷ pong_reply (record data_packet { from = stranger }) 7 20
    ∷ []

unverified_sent-le_example :
    budget_cost * unverified_sent sample_io replies (new_session sample_config [] 0)
    ≤ (new_session sample_config [] 0).budget_milli
      + unverified_tx_refill * (1000 - (new_session sample_config [] 0).budget_at)
unfolding new_session
unverified_sent-le_example =
    unverified_sent-le sample_io 1000 replies (new_session sample_config [] 0) (ground arith)
      (omega arith) (omega arith)

-- Punching since 0, the next HELLO at 100 and a provisional path until 5010.
abbrev punching : Session
punching = record (new_session sample_config [] 0) {
  punch_started = true;
  hello = record { due = some 100; since = 0 };
  punch = record { due = some 15000; since = 0 };
  probes = record { to = stranger; nonce = replicate 8 4; registered = 10; answered = false } ∷ [];
}

poll_early_example : poll sample_io 99 punching ≡ punching
unfolding next_deadline new_session
poll_early_example = poll_early sample_io 99 punching (tt, tt) refl
