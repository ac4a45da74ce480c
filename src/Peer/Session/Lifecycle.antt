-- ===== src/Peer/Session/Lifecycle.antt =====
-- The timers of a session and the changes of its state.
use sangtachi.Prelude.{
  ℕ, ◌+◌, Bool, true, false, not, ◌||◌, Option, none, some, List, [], ◌∷◌, ltb, leb, if◌then◌else◌,
}
use sangtachi.Prelude.Bits.{u64}
use sangtachi.Protocol.{
  hello_retransmit_ms, punch_deadline_ms, idle_timeout_ms, ping_interval_ms, probe_ttl_ms,
}
use sangtachi.Tunnel.Packet.{PacketType, CloseReason, encode_close}
use sangtachi.Peer.Session.State.{
  SessionState, SessionFailure, SessionIo, ProbePath, Deadline, Session, state, active, state_eq,
}
use sangtachi.Peer.Session.Sending.{
  send_packet, send_hello_round, send_keepalive, send_ping, expire_probes, arm, disarm,
}

unfoldable pub stop_timers : Session → Session
stop_timers s = record s {
  hello = disarm s.hello;
  punch = disarm s.punch;
  keepalive = disarm s.keepalive;
  ping = disarm s.ping;
  idle = disarm s.idle;
}

unfoldable pub enter_connected : SessionIo → ℕ → Session → Session
enter_connected io now s = send_keepalive io now (record s {
  hello = disarm s.hello;
  punch = disarm s.punch;
  loss_baseline = some s.window.position;
  loss_accepted = 0;
  idle = arm now idle_timeout_ms;
  ping = arm now ping_interval_ms;
})

abbrev pub notify : SessionState → SessionState → Session → Session
notify from to s = record s { transitions = (from, to) ∷ s.transitions }

unfoldable pub settle : SessionIo → SessionState → ℕ → Session → Session
settle io before now s =
    if state_eq (state s) before
    then s
    else notify before (state s)
        (if state_eq (state s) SessionState.connected then enter_connected io now s else s)

unfoldable pub enter_terminal : SessionState → ℕ → Session → Session
enter_terminal terminal now s =
    let s1 = stop_timers s in
    notify (state s) terminal
      (record s1 { probes = []; terminal = some terminal; terminal_since = some now })

-- The CLOSE to the peer, if its endpoint is known.
unfoldable pub send_close : SessionIo → CloseReason → Session → Session
send_close io reason s = elim s.peer_endpoint [
  | some endpoint ↦ (send_packet io PacketType.close (encode_close reason) endpoint s).1
  | none ↦ s
]

unfoldable pub fail : SessionIo → SessionFailure → ℕ → Session → Session
fail io failure now s =
    let s1 = send_close io CloseReason.setup_failed (stop_timers s) in
    enter_terminal SessionState.failed now (record s1 { failure = some failure })

unfoldable pub close_by_user : SessionIo → ℕ → Session → Session
close_by_user io now s =
    let reason =
      if state_eq (state s) SessionState.connected
      then CloseReason.normal
      else CloseReason.user_cancel in
    if not (active s) then s else enter_terminal SessionState.closed now (send_close io reason s)

-- The HELLO round and the two deadlines that go with it.
unfoldable pub punch_round : SessionIo → ℕ → Session → Session
punch_round io now s =
    let s1 = send_hello_round io s in
    record s1 { hello = arm now hello_retransmit_ms; punch = arm now punch_deadline_ms }

unfoldable pub start_punch : SessionIo → ℕ → Session → Bool × Session
start_punch io now s =
    let s1 = record s { punch_started = true } in
    if not (active s) || s.punch_started
    then (false, s)
    else if state_eq (state s) SessionState.connected
    then (false, s1)
    else (true, punch_round io now s1)

-- `d && (!earliest || *d < *earliest)`, with its assignment.
abbrev pub earlier : Option ℕ → Option ℕ → Option ℕ
earlier earliest none = earliest
earlier none (some d) = some d
earlier (some e) (some d) = if ltb d e then some d else some e

abbrev pub first_probe_due : List ProbePath → Option ℕ
first_probe_due [] = none
first_probe_due (p ∷ _) = some (u64 (p.registered + probe_ttl_ms))

unfoldable pub next_deadline : Session → Option ℕ
next_deadline s =
    earlier
      (earlier
        (earlier (earlier (earlier (earlier none s.hello.due) s.punch.due) s.keepalive.due)
          s.ping.due)
        s.idle.due)
      (first_probe_due s.probes)

-- `due && *due <= now`.
abbrev pub is_due : Deadline → ℕ → Bool
is_due d now = elim d.due [ none ↦ false | some due ↦ leb due now ]

unfoldable pub poll_hello : SessionIo → ℕ → Session → Session
poll_hello io now s =
    let s1 = send_hello_round io s in
    if is_due s.hello now then record s1 { hello = arm now hello_retransmit_ms } else s

-- The three timers that send and are armed again.
unfoldable pub poll_senders : SessionIo → ℕ → Session → Session
poll_senders io now s =
    let s1 = poll_hello io now s in
    let s2 = if is_due s1.keepalive now then send_keepalive io now s1 else s1 in
    if is_due s2.ping now then send_ping io now s2 else s2

-- `poll` behind `expire_probes`.
unfoldable pub poll_timers : SessionIo → ℕ → Session → Session
poll_timers io now s =
    if is_due s.punch now
    then fail io
        (if s.got_ack || s.sent_ack
          then SessionFailure.peer_handshake_failed
          else SessionFailure.hole_punch_timeout)
        now s
    else if is_due s.idle now
    then fail io SessionFailure.tunnel_dropped now s
    else poll_senders io now s

unfoldable pub poll : SessionIo → ℕ → Session → Session
poll io now s = if not (active s) then s else poll_timers io now (expire_probes now s)
