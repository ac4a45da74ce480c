-- ===== src/Peer/Session/Ended.antt =====
-- What holds of a session that has ended, and that the timers and the state machine lead from
-- sessions that are live to sessions that are live or ended.
use sangtachi.Prelude.{
  ℕ, ◌≤◌, ◌≡◌, refl, ◌⊎◌, inl, inr, Bool, true, false, not, ◌||◌, Option, none, some, List, [], ◌∷◌,
  if◌then◌else◌, length, arith, Bool-cases, Option-cases,
}
use sangtachi.Protocol.{max_pending_pings, max_renegotiations, idle_timeout_ms, ping_interval_ms}
use sangtachi.Network.Endpoint.{Endpoint}
use sangtachi.Tunnel.Packet.{PacketType, CloseReason, encode_close}
use sangtachi.Peer.Session.State.{
  SessionState, is_terminal, SessionFailure, SessionIo, Session, state, active, state_eq,
  budget_capacity,
}
use sangtachi.Peer.Session.Sending.{
  send_packet, hand_out, send_to_all, send_to_peer, send_keepalive, expire_probes, arm, disarm,
}
use sangtachi.Peer.Session.Lifecycle.{
  stop_timers, enter_connected, settle, enter_terminal, send_close, fail, close_by_user,
  punch_round, start_punch, next_deadline, poll_hello, poll_senders, poll_timers, poll, is_due,
}
use sangtachi.Peer.Session.Bounds.{
  is_some, IsLive, send_packet-IsLive, expire_probes-IsLive, send_hello_round-IsLive,
  send_keepalive-IsLive, send_ping-IsLive,
}

abbrev pub is_ended : Option SessionState → Bool
is_ended none = false
is_ended (some t) = is_terminal t

-- A session that has ended: FAILED or CLOSED since a known time, no timer armed, no provisional
-- path, and the rest within its limits.
abbrev pub IsEnded : Session → Type 0
IsEnded s =
    (is_ended s.terminal ≡ true)
    × (is_some s.terminal_since ≡ true)
    × (s.hello.due ≡ none)
    × (s.punch.due ≡ none)
    × (s.keepalive.due ≡ none)
    × (s.ping.due ≡ none)
    × (s.idle.due ≡ none)
    × (s.probes ≡ [])
    × (s.budget_milli ≤ budget_capacity)
    × (length s.pending_pings ≤ max_pending_pings)
    × (s.renegotiations ≤ max_renegotiations)

abbrev pub IsValid : Session → Type 0
IsValid s = IsLive s ⊎ IsEnded s

pub live-active : (s : Session) → IsLive s → active s ≡ true
unfolding active state
live-active s h = ground arith

pub ended-inactive : (s : Session) → IsEnded s → active s ≡ false
unfolding active state
ended-inactive s h = ground arith

pub enter_terminal-IsEnded :
    (t : SessionState) (now : ℕ) (s : Session)
    → is_terminal t ≡ true
    → IsLive s
    → IsEnded (enter_terminal t now s)
unfolding enter_terminal stop_timers
enter_terminal-IsEnded t now s e h = ground arith

module _ (io : SessionIo) where
  send_packet-IsEnded :
      (type : PacketType) (payload : List ℕ) (to : Endpoint) (s : Session)
      → IsEnded s
      → IsEnded (send_packet io type payload to s).1
  unfolding send_packet hand_out
  send_packet-IsEnded type payload to s h = ground arith

  send_to_all-IsEnded :
      (type : PacketType) (payload : List ℕ) (cs : List Endpoint) (s : Session)
      → IsEnded s
      → IsEnded (send_to_all io type payload cs s)
  unfolding send_to_all
  send_to_all-IsEnded type payload [] s h = h
  send_to_all-IsEnded type payload (c ∷ cs) s h =
      send_to_all-IsEnded type payload cs (send_packet io type payload c s).1
        (send_packet-IsEnded type payload c s h)

  pub send_to_peer-IsEnded :
      (type : PacketType) (payload : List ℕ) (s : Session)
      → IsEnded s
      → IsEnded (send_to_peer io type payload s)
  unfolding send_to_peer
  send_to_peer-IsEnded type payload s h = elim (Option-cases s.peer_endpoint) [
    | inl e ↦ ground (arith, send_to_all-IsEnded type payload s.config.candidates s h)
    | inr (endpoint, e) ↦ ground (arith, send_packet-IsEnded type payload endpoint s h)
  ]

  pub send_close-IsLive :
      (reason : CloseReason) (s : Session) → IsLive s → IsLive (send_close io reason s)
  unfolding send_close
  send_close-IsLive reason s h = elim (Option-cases s.peer_endpoint) [
    | inl e ↦ ground arith
    | inr (endpoint, e) ↦
        ground (arith, send_packet-IsLive io PacketType.close (encode_close reason) endpoint s h)
  ]

  pub fail-IsEnded :
      (failure : SessionFailure) (now : ℕ) (s : Session)
      → IsLive s
      → IsEnded (fail io failure now s)
  unfolding fail stop_timers
  fail-IsEnded failure now s h =
      let s1 = send_close io CloseReason.setup_failed (stop_timers s) in
      enter_terminal-IsEnded SessionState.failed now (record s1 { failure = some failure }) refl
        (send_close-IsLive CloseReason.setup_failed (stop_timers s) h)

  pub settle-IsLive :
      (before : SessionState) (now : ℕ) (s : Session) → IsLive s → IsLive (settle io before now s)
  unfolding settle enter_connected
  settle-IsLive before now s h =
      let s1 = record s {
        hello = disarm s.hello;
        punch = disarm s.punch;
        loss_baseline = some s.window.position;
        loss_accepted = 0;
        idle = arm now idle_timeout_ms;
        ping = arm now ping_interval_ms;
      } in
      ground (arith, send_keepalive-IsLive io now s1 h)

  pub close_by_user-IsValid : (now : ℕ) (s : Session) → IsValid s → IsValid (close_by_user io now s)
  unfolding close_by_user
  close_by_user-IsValid now s (inl h) =
      let reason =
        if state_eq (state s) SessionState.connected
        then CloseReason.normal
        else CloseReason.user_cancel in
      ground (
        arith,
        live-active s h,
        enter_terminal-IsEnded SessionState.closed now (send_close io reason s) refl
            (send_close-IsLive reason s h),
      )
  close_by_user-IsValid now s (inr h) = ground (arith, ended-inactive s h)

  punch_round-IsLive : (now : ℕ) (s : Session) → IsLive s → IsLive (punch_round io now s)
  unfolding punch_round
  punch_round-IsLive now s h = send_hello_round-IsLive io s h

  start_punch-IsLive : (now : ℕ) (s : Session) → IsLive s → IsLive (start_punch io now s).1
  unfolding start_punch
  start_punch-IsLive now s h =
      let s1 = record s { punch_started = true } in
      elim (Bool-cases (not (active s) || s.punch_started)) [
        | inl e ↦ ground arith
        | inr e ↦ ground (arith, punch_round-IsLive now s1 h)
      ]

  pub start_punch-IsValid : (now : ℕ) (s : Session) → IsValid s → IsValid (start_punch io now s).1
  unfolding start_punch
  start_punch-IsValid now s (inl h) = inl (start_punch-IsLive now s h)
  start_punch-IsValid now s (inr h) = ground (arith, ended-inactive s h)

  poll_senders-IsLive : (now : ℕ) (s : Session) → IsLive s → IsLive (poll_senders io now s)
  unfolding poll_senders poll_hello
  poll_senders-IsLive now s h =
      let s1 = poll_hello io now s in
      let live1 : IsLive s1 = ground (arith, send_hello_round-IsLive io s h) in
      let s2 = if is_due s1.keepalive now then send_keepalive io now s1 else s1 in
      let live2 : IsLive s2 = ground (arith, live1, send_keepalive-IsLive io now s1 live1) in
      ground (arith, live2, send_ping-IsLive io now s2 live2)

  poll_timers-IsValid : (now : ℕ) (s : Session) → IsLive s → IsValid (poll_timers io now s)
  unfolding poll_timers
  poll_timers-IsValid now s h = ground (
    arith,
    poll_senders-IsLive now s h,
    fail-IsEnded SessionFailure.peer_handshake_failed now s h,
    fail-IsEnded SessionFailure.hole_punch_timeout now s h,
    fail-IsEnded SessionFailure.tunnel_dropped now s h,
  )

  pub poll-IsValid : (now : ℕ) (s : Session) → IsValid s → IsValid (poll io now s)
  unfolding poll
  poll-IsValid now s (inl h) = ground (
    arith,
    live-active s h,
    poll_timers-IsValid now (expire_probes now s) (expire_probes-IsLive now s h),
  )
  poll-IsValid now s (inr h) = ground (arith, ended-inactive s h)

-- A session that has ended has nothing to wait for.
pub next_deadline-ended : (s : Session) → IsEnded s → next_deadline s ≡ none
unfolding next_deadline
next_deadline-ended s h = ground arith
