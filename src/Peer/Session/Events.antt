-- ===== src/Peer/Session/Events.antt =====
-- Runs of a session: what the tunnel and the control plane do to it, in any order. The tunnel sends
-- an inner packet only through a connected session (client/src/tunnel/tunnel.cpp, `send_data`).
use sangtachi.Prelude.{
  ℕ, ◌≡◌, refl, inl, inr, ap, ◌∙◌, Bool, true, false, not, List, All, [], ◌∷◌, if◌then◌else◌, arith,
  Option-cases,
}
use sangtachi.Counters.{Counter}
use sangtachi.Network.Endpoint.{Endpoint}
use sangtachi.Peer.Epoch.{RetiredEpochs}
use sangtachi.Tunnel.Packet.{PacketType}
use sangtachi.Peer.Session.State.{
  SessionState, SessionConfig, SessionIo, Session, new_session, state, active, state_eq, count,
}
use sangtachi.Peer.Session.Sending.{send_packet, send_data_to, send_data, send_roster}
use sangtachi.Peer.Session.Lifecycle.{start_punch, poll, close_by_user}
use sangtachi.Peer.Session.Admit.{RxPacket, drop}
use sangtachi.Peer.Session.Receive.{receive}
use sangtachi.Peer.Session.Bounds.{IsLive, send_packet-IsLive, send_to_peer-IsLive}
use sangtachi.Peer.Session.Ended.{
  IsEnded, IsValid, send_to_peer-IsEnded, start_punch-IsValid, poll-IsValid, close_by_user-IsValid,
}
use sangtachi.Peer.Session.Quiet.{Quiet, send_to_peer-Quiet, send_data-Quiet}
use sangtachi.Peer.Session.Trail.{
  HasTrail, Quiet-HasTrail, poll-HasTrail, close_by_user-HasTrail, start_punch-Quiet,
}
use sangtachi.Peer.Session.Notices.{receive-HasTrail}
use sangtachi.Peer.Session.Reception.{receive-IsValid}

pub data Event : Type 0 where
  packet_in : RxPacket → ℕ → Event
  timer_tick : ℕ → Event
  user_close : ℕ → Event
  punch_start : ℕ → Event
  inner_out : List ℕ → Event
  roster_out : List ℕ → Event

-- The end of `Tunnel::send_data`, once it has its session: whether the packet went out.
unfoldable pub send_inner : SessionIo → List ℕ → Session → Bool × Session
send_inner io inner s =
    if not (state_eq (state s) SessionState.connected)
    then (false, count Counter.tx_drop_not_connected s)
    else send_data io inner s

unfoldable pub step : SessionIo → Event → Session → Session
step io (packet_in p now) s = (receive io p now s).1
step io (timer_tick now) s = poll io now s
step io (user_close now) s = close_by_user io now s
step io (punch_start now) s = (start_punch io now s).1
step io (inner_out inner) s = (send_inner io inner s).1
step io (roster_out payload) s = send_roster io payload s

-- The events one after the other, the first first.
unfoldable pub run : SessionIo → List Event → Session → Session
run io [] s = s
run io (e ∷ es) s = run io es (step io e s)

module _ (io : SessionIo) where
  send_data_to-IsLive :
      (inner : List ℕ) (cs : List Endpoint) (s : Session)
      → IsLive s
      → IsLive (send_data_to io inner cs s).1
  unfolding send_data_to
  send_data_to-IsLive inner [] s h = h
  send_data_to-IsLive inner (c ∷ cs) s h =
      let r = (send_packet io PacketType.inner_data inner c s).1 in
      let live = send_packet-IsLive io PacketType.inner_data inner c s h in
      ground (arith, live, send_data_to-IsLive inner cs r live)

  send_data-IsLive : (inner : List ℕ) (s : Session) → IsLive s → IsLive (send_data io inner s).1
  unfolding send_data
  send_data-IsLive inner s h = elim (Option-cases s.peer_endpoint) [
    | inl e ↦ ground (arith, send_data_to-IsLive inner s.config.candidates s h)
    | inr (endpoint, e) ↦
        ground (arith, send_packet-IsLive io PacketType.inner_data inner endpoint s h)
  ]

  ended-unconnected : (s : Session) → IsEnded s → state_eq (state s) SessionState.connected ≡ false
  unfolding state
  ended-unconnected s h = ground arith

  pub send_inner-IsValid :
      (inner : List ℕ) (s : Session) → IsValid s → IsValid (send_inner io inner s).1
  unfolding send_inner
  send_inner-IsValid inner s (inl h) = ground (arith, send_data-IsLive inner s h)
  send_inner-IsValid inner s (inr h) = ground (arith, ended-unconnected s h)

  pub send_roster-IsValid :
      (payload : List ℕ) (s : Session) → IsValid s → IsValid (send_roster io payload s)
  unfolding send_roster
  send_roster-IsValid payload s (inl h) = inl (send_to_peer-IsLive io PacketType.roster payload s h)
  send_roster-IsValid payload s (inr h) =
      inr (send_to_peer-IsEnded io PacketType.roster payload s h)

  step-IsValid : (e : Event) (s : Session) → IsValid s → IsValid (step io e s)
  unfolding step
  step-IsValid (packet_in p now) s h = receive-IsValid io p now s h
  step-IsValid (timer_tick now) s h = poll-IsValid io now s h
  step-IsValid (user_close now) s h = close_by_user-IsValid io now s h
  step-IsValid (punch_start now) s h = start_punch-IsValid io now s h
  step-IsValid (inner_out inner) s h = send_inner-IsValid inner s h
  step-IsValid (roster_out payload) s h = send_roster-IsValid payload s h

  pub run-IsValid : (es : List Event) (s : Session) → IsValid s → IsValid (run io es s)
  unfolding run
  run-IsValid [] s h = h
  run-IsValid (e ∷ es) s h = run-IsValid es (step io e s) (step-IsValid e s h)

  -- Whatever happens to a new session, it is either live, with its budget, its provisional paths, its
  -- pending pings and its renegotiations within their limits and no handshake flag set without a
  -- pinned epoch, or it has ended, with a known end, no timer armed and no provisional path.
  pub run-new_session-IsValid :
      (config : SessionConfig) (retired : RetiredEpochs) (now : ℕ) (es : List Event)
      → IsValid (run io es (new_session config retired now))
  unfolding new_session
  run-new_session-IsValid config retired now es =
      run-IsValid es (new_session config retired now)
        (inl (refl, refl, omega arith, omega arith, omega arith, omega arith, refl))

abbrev pub is_roster_out : Event → Bool
is_roster_out (roster_out payload) = true
is_roster_out _ = false

-- The two sessions differ in their counters at most.
abbrev pub SameUpToCounters : Session → Session → Type 0
SameUpToCounters t s = record t { counters = s.counters } ≡ s

module _ (io : SessionIo) where
  inactive-unconnected :
      (s : Session) → active s ≡ false → state_eq (state s) SessionState.connected ≡ false
  unfolding active
  inactive-unconnected s h = ground arith

  step_ended :
      (e : Event) (s : Session)
      → is_roster_out e ≡ false
      → active s ≡ false
      → SameUpToCounters (step io e s) s
  unfolding step receive drop poll close_by_user start_punch send_inner
  step_ended (packet_in p now) s n h = ground arith
  step_ended (timer_tick now) s n h = ground arith
  step_ended (user_close now) s n h = ground arith
  step_ended (punch_start now) s n h = ground arith
  step_ended (inner_out inner) s n h = ground (arith, inactive-unconnected s h)
  step_ended (roster_out payload) s n h = ground (arith, n)

  -- A session that has failed or been closed stays as it is: no packet, timer, start of punching,
  -- close or inner packet changes anything of it but its counters, and so it sends and delivers
  -- nothing. The one call left out is `send_roster`, which does not look at the state.
  pub run_ended :
      (es : List Event) (s : Session)
      → All (λ e. is_roster_out e ≡ false) es
      → active s ≡ false
      → SameUpToCounters (run io es s) s
  unfolding run active
  run_ended [] s n h = refl
  run_ended (e ∷ es) s n h =
      ap (λ (t : Session). record t { counters = s.counters })
        (run_ended es (step io e s) n.1 (ap active (step_ended e s n.0 h) ∙ h))
      ∙ step_ended e s n.0 h

  send_inner-HasTrail :
      (inner : List ℕ) (s : Session) → HasTrail s → HasTrail (send_inner io inner s).1
  unfolding send_inner state
  send_inner-HasTrail inner s h =
      let t = (send_data io inner s).1 in
      ground (arith, Quiet-HasTrail t s (send_data-Quiet io inner s) h)

  send_roster-Quiet : (payload : List ℕ) (s : Session) → Quiet (send_roster io payload s) s
  unfolding send_roster
  send_roster-Quiet payload s = send_to_peer-Quiet io PacketType.roster payload s

  step-HasTrail : (e : Event) (s : Session) → HasTrail s → HasTrail (step io e s)
  unfolding step
  step-HasTrail (packet_in p now) s h = receive-HasTrail io p now s h
  step-HasTrail (timer_tick now) s h = poll-HasTrail io now s h
  step-HasTrail (user_close now) s h = close_by_user-HasTrail io now s h
  step-HasTrail (punch_start now) s h =
      Quiet-HasTrail (start_punch io now s).1 s (start_punch-Quiet io now s) h
  step-HasTrail (inner_out inner) s h = send_inner-HasTrail inner s h
  step-HasTrail (roster_out payload) s h =
      Quiet-HasTrail (send_roster io payload s) s (send_roster-Quiet payload s) h

  run-HasTrail : (es : List Event) (s : Session) → HasTrail s → HasTrail (run io es s)
  unfolding run
  run-HasTrail [] s h = h
  run-HasTrail (e ∷ es) s h = run-HasTrail es (step io e s) (step-HasTrail e s h)

  -- Whatever happens to a new session, the transitions that it notifies lead from PUNCHING to its
  -- state: each starts where the one before ended, changes the state, and does not leave FAILED or
  -- CLOSED.
  pub run-new_session-HasTrail :
      (config : SessionConfig) (retired : RetiredEpochs) (now : ℕ) (es : List Event)
      → HasTrail (run io es (new_session config retired now))
  unfolding new_session state
  run-new_session-HasTrail config retired now es =
      run-HasTrail es (new_session config retired now) refl
