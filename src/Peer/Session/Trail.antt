-- ===== src/Peer/Session/Trail.antt =====
-- The transitions that a session notifies are a path through its states, and what `settle` and the
-- ends of a session add to it.
use sangtachi.Prelude.{
  ℕ, ◌≡◌, refl, sym, ap, ◌∙◌, subst, inl, inr, true, false, not, some, List, [], ◌∷◌, if◌then◌else◌,
  arith, Bool-cases,
}
use sangtachi.Protocol.{idle_timeout_ms, ping_interval_ms}
use sangtachi.Tunnel.Packet.{CloseReason}
use sangtachi.Peer.Session.State.{
  SessionState, is_terminal, SessionFailure, SessionIo, Session, state, active, state_eq,
}
use sangtachi.Peer.Session.Sending.{send_keepalive, expire_probes, arm, disarm}
use sangtachi.Peer.Session.Lifecycle.{
  stop_timers, enter_connected, settle, enter_terminal, send_close, fail, close_by_user,
  punch_round, start_punch, poll_hello, poll_senders, poll_timers, poll, is_due,
}
use sangtachi.Peer.Session.Quiet.{
  Quiet, send_keepalive-Quiet, send_close-Quiet, send_hello_round-Quiet, send_ping-Quiet,
}

-- The transitions `ts`, the latest first, lead from PUNCHING to `b` by steps between different states
-- that never leave FAILED or CLOSED.
abbrev pub IsTrail : SessionState → List (SessionState × SessionState) → Type 0
IsTrail b [] = b ≡ SessionState.punching
IsTrail b ((from, to) ∷ ts) =
    (to ≡ b) × (state_eq to from ≡ false) × (is_terminal from ≡ false) × IsTrail from ts

abbrev pub HasTrail : Session → Type 0
HasTrail s = IsTrail (state s) s.transitions

pub IsTrail-at :
    (a b : SessionState) (ts us : List (SessionState × SessionState))
    → a ≡ b
    → ts ≡ us
    → IsTrail a ts
    → IsTrail b us
IsTrail-at a b ts us e f h = subst (λ x. IsTrail b x) f (subst (λ x. IsTrail x ts) e h)

state_eq_sound : (a b : SessionState) → state_eq a b ≡ true → a ≡ b
state_eq_sound a b e = ground arith

pub Quiet-state : (t s : Session) → Quiet t s → state t ≡ state s
unfolding state
Quiet-state t s (e1, e2, e3, e4, e5) = cc

-- Nothing that a trail depends on is different.
pub Quiet-HasTrail : (t s : Session) → Quiet t s → HasTrail s → HasTrail t
Quiet-HasTrail t s q h =
    IsTrail-at (state s) (state t) s.transitions t.transitions (sym (Quiet-state t s q)) (sym q.3) h

-- One step more.
IsTrail-step :
    (before after : SessionState) (ts : List (SessionState × SessionState))
    → is_terminal before ≡ false
    → IsTrail before ts
    → IsTrail after (if state_eq after before then ts else (before, after) ∷ ts)
IsTrail-step before after ts e h = elim (Bool-cases (state_eq after before)) [
  | inl same ↦
      IsTrail-at before after ts (if state_eq after before then ts else (before, after) ∷ ts)
        (sym (state_eq_sound after before same)) (ground arith) h
  | inr other ↦
      IsTrail-at after after ((before, after) ∷ ts)
        (if state_eq after before then ts else (before, after) ∷ ts) refl (ground arith)
        (refl, other, e, h)
]

module _ (io : SessionIo) where
  pub enter_connected-Quiet : (now : ℕ) (s : Session) → Quiet (enter_connected io now s) s
  unfolding enter_connected
  enter_connected-Quiet now s = send_keepalive-Quiet io now (record s {
    hello = disarm s.hello;
    punch = disarm s.punch;
    loss_baseline = some s.window.position;
    loss_accepted = 0;
    idle = arm now idle_timeout_ms;
    ping = arm now ping_interval_ms;
  })

  pub settle-state :
      (before : SessionState) (now : ℕ) (s : Session) → state (settle io before now s) ≡ state s
  unfolding settle state
  settle-state before now s = ground (arith, enter_connected-Quiet now s)

  settle-transitions :
      (before : SessionState) (now : ℕ) (s : Session)
      → (settle io before now s).transitions
        ≡ (if state_eq (state s) before then s.transitions else (before, state s) ∷ s.transitions)
  unfolding settle
  settle-transitions before now s = ground (arith, enter_connected-Quiet now s)

  -- Settling after the flags changed notifies the change.
  pub settle-HasTrail :
      (before : SessionState) (now : ℕ) (s : Session)
      → is_terminal before ≡ false
      → IsTrail before s.transitions
      → HasTrail (settle io before now s)
  settle-HasTrail before now s e h =
      let ts =
        if state_eq (state s) before then s.transitions else (before, state s) ∷ s.transitions in
      IsTrail-at (state s) (state (settle io before now s)) ts (settle io before now s).transitions
        (sym (settle-state before now s)) (sym (settle-transitions before now s))
        (IsTrail-step before (state s) s.transitions e h)

terminal_ne :
    (t u : SessionState) → is_terminal t ≡ true → is_terminal u ≡ false → state_eq t u ≡ false
terminal_ne t u e f = ground arith

pub active-nonterminal : (s : Session) → active s ≡ true → is_terminal (state s) ≡ false
unfolding active
active-nonterminal s a = ground arith

-- An end is notified, from a state that is no end.
pub enter_terminal-HasTrail :
    (t : SessionState) (now : ℕ) (s : Session)
    → is_terminal t ≡ true
    → active s ≡ true
    → HasTrail s
    → HasTrail (enter_terminal t now s)
unfolding enter_terminal state stop_timers
enter_terminal-HasTrail t now s e a h =
    let nonterminal = active-nonterminal s a in
    (refl, terminal_ne t (state s) e nonterminal, nonterminal, h)

module _ (io : SessionIo) where
  -- A CLOSE in front of it changes nothing.
  close_and_end-HasTrail :
      (reason : CloseReason) (t : SessionState) (now : ℕ) (s u : Session)
      → is_terminal t ≡ true
      → Quiet u (send_close io reason s)
      → active s ≡ true
      → HasTrail s
      → HasTrail (enter_terminal t now u)
  unfolding active
  close_and_end-HasTrail reason t now s u e q a h =
      let s1 = send_close io reason s in
      let q1 = send_close-Quiet io reason s in
      let same = Quiet-state u s1 q ∙ Quiet-state s1 s q1 in
      enter_terminal-HasTrail t now u e (ap (λ x. not (is_terminal x)) same ∙ a)
        (Quiet-HasTrail u s1 q (Quiet-HasTrail s1 s q1 h))

  fail-HasTrail :
      (failure : SessionFailure) (now : ℕ) (s : Session)
      → active s ≡ true
      → HasTrail s
      → HasTrail (fail io failure now s)
  unfolding fail stop_timers active state
  fail-HasTrail failure now s a h =
      let s1 = send_close io CloseReason.setup_failed (stop_timers s) in
      close_and_end-HasTrail CloseReason.setup_failed SessionState.failed now (stop_timers s)
        (record s1 { failure = some failure }) refl (refl, refl, refl, refl, refl) a h

  pub close_by_user-HasTrail :
      (now : ℕ) (s : Session) → HasTrail s → HasTrail (close_by_user io now s)
  unfolding close_by_user
  close_by_user-HasTrail now s h =
      let reason =
        if state_eq (state s) SessionState.connected
        then CloseReason.normal
        else CloseReason.user_cancel in
      elim (Bool-cases (active s)) [
        | inl a ↦ ground (
          arith,
          close_and_end-HasTrail reason SessionState.closed now s (send_close io reason s) refl
              (refl, refl, refl, refl, refl) a h,
        )
        | inr a ↦ ground arith
      ]

  pub start_punch-Quiet : (now : ℕ) (s : Session) → Quiet (start_punch io now s).1 s
  unfolding start_punch punch_round
  start_punch-Quiet now s =
      ground (arith, send_hello_round-Quiet io (record s { punch_started = true }))

  poll_senders-Quiet : (now : ℕ) (s : Session) → Quiet (poll_senders io now s) s
  unfolding poll_senders poll_hello
  poll_senders-Quiet now s =
      let s1 = poll_hello io now s in
      let q1 : Quiet s1 s = ground (arith, send_hello_round-Quiet io s) in
      let s2 = if is_due s1.keepalive now then send_keepalive io now s1 else s1 in
      let q2 : Quiet s2 s = ground (arith, q1, send_keepalive-Quiet io now s1) in
      ground (arith, q2, send_ping-Quiet io now s2)

  pub poll-HasTrail : (now : ℕ) (s : Session) → HasTrail s → HasTrail (poll io now s)
  unfolding poll poll_timers expire_probes active state
  poll-HasTrail now s h =
      let s1 = expire_probes now s in
      elim (Bool-cases (active s)) [
        | inl a ↦ ground (
          arith,
          fail-HasTrail SessionFailure.peer_handshake_failed now s1 a h,
          fail-HasTrail SessionFailure.hole_punch_timeout now s1 a h,
          fail-HasTrail SessionFailure.tunnel_dropped now s1 a h,
          Quiet-HasTrail (poll_senders io now s1) s1 (poll_senders-Quiet now s1) h,
        )
        | inr a ↦ ground arith
      ]
