-- ===== src/Peer/Session/Notices.antt =====
-- The transitions that `receive` notifies continue the trail of the session.
use sangtachi.Prelude.{
  ℕ, ◌≡◌, refl, sym, ap, ◌∙◌, inl, inr, true, not, if◌then◌else◌, arith, Bool-cases, Option-cases,
}
use sangtachi.Protocol.{punch_deadline_ms}
use sangtachi.Peer.Epoch.{Nonce}
use sangtachi.Tunnel.Packet.{HelloPayload}
use sangtachi.Tunnel.Replay.{ReplayDecision, advanced}
use sangtachi.Peer.Session.State.{SessionState, is_terminal, SessionIo, Session, state, active}
use sangtachi.Peer.Session.Sending.{
  send_hello_ack, expire_probes, expire_pings, start_path_probe, disarm, arm,
}
use sangtachi.Peer.Session.Lifecycle.{settle}
use sangtachi.Peer.Session.Admit.{
  RxPacket, packet_type, Gate, refuse, admit, drop, begin_renegotiation, restart_punch, renegotiate,
  Admission, admit_hello, admit_packet, accept_sequence, Content, check_pong, check_content,
}
use sangtachi.Peer.Session.Receive.{
  pin, learn_path, renew_idle, act, apply, apply_renegotiated, receive_content, receive_decided,
  receive_admitted, receive_hello, hello_of, receive, is_close,
}
use sangtachi.Peer.Session.Quiet.{
  Quiet, start_path_probe-Quiet, send_hello_round-Quiet, send_hello_ack-QuietButAck,
}
use sangtachi.Peer.Session.Trail.{
  HasTrail, IsTrail-at, Quiet-state, Quiet-HasTrail, settle-HasTrail, settle-state,
  enter_terminal-HasTrail, active-nonterminal,
}
use sangtachi.Peer.Session.Effects.{Unmoved, prepared-Quiet, act-Unmoved, finish-HasTrail}

-- Active, and with a trail.
abbrev IsGoing : Session → Type 0
IsGoing s = (active s ≡ true) × HasTrail s

Quiet-IsGoing : (t s : Session) → Quiet t s → IsGoing s → IsGoing t
unfolding active
Quiet-IsGoing t s q (a, h) =
    (ap (λ x. not (is_terminal x)) (Quiet-state t s q) ∙ a, Quiet-HasTrail t s q h)

Unmoved-active : (t s : Session) → Unmoved t s → active s ≡ true → active t ≡ true
unfolding active state
Unmoved-active t s (e, f) a = elim (Option-cases s.terminal) [
  | inl e1 ↦ ground arith
  | inr (x, e1) ↦ ground arith
]

expire_probes-Quiet : (now : ℕ) (s : Session) → Quiet (expire_probes now s) s
unfolding expire_probes
expire_probes-Quiet now s = (refl, refl, refl, refl, refl)

check_content-Quiet : (p : RxPacket) (now : ℕ) (s : Session) → Quiet (check_content p now s).1 s
unfolding check_content check_pong expire_pings
check_content-Quiet p now s = ground arith

accept_sequence-Quiet : (seq : ℕ) (s : Session) → Quiet (accept_sequence seq s).1 s
unfolding accept_sequence
accept_sequence-Quiet seq s = ground arith

module _ (io : SessionIo) (p : RxPacket) (now : ℕ) where
  apply-HasTrail :
      (nonce : Nonce) (a : Admission) (d : ReplayDecision) (content : Content) (s : Session)
      → IsGoing s
      → HasTrail (apply io p nonce a d content now s).1
  unfolding apply
  apply-HasTrail nonce a d content s (going, h) =
      let path = learn_path p a (advanced d) (pin p.header.session_epoch s) in
      let s1 = renew_idle (state s) now path.1 in
      let q1 = prepared-Quiet p a (advanced d) (state s) now s in
      let s2 = act io p nonce a content (state s) now s1 in
      let ended = record s1 { peer_close_reason = content.close_reason } in
      let going1 = Quiet-IsGoing ended s q1 (going, h) in
      elim (Bool-cases (is_close (packet_type p))) [
        | inl e ↦
            ground
              (arith, enter_terminal-HasTrail SessionState.closed now ended refl going1.0 going1.1)
        | inr e ↦ ground (
          arith,
          finish-HasTrail io p path.0 (state s) now s2 (active-nonterminal s going) (
              IsTrail-at (state s) (state s) s.transitions s2.transitions refl
                (sym q1.3 ∙ sym (act-Unmoved io p nonce a content (state s) now s1).0.1) h),
        )
      ]

  settle-active :
      (before : SessionState) (s : Session)
      → active s ≡ true
      → active (settle io before now s) ≡ true
  unfolding active
  settle-active before s a = ap (λ x. not (is_terminal x)) (settle-state io before now s) ∙ a

  renegotiate-IsGoing :
      (old : ℕ) (nonce : Nonce) (s : Session)
      → IsGoing s
      → IsGoing (renegotiate io old p nonce now s)
  unfolding renegotiate begin_renegotiation restart_punch
  renegotiate-IsGoing old nonce s (going, h) =
      let s1 = begin_renegotiation old p.header.session_epoch now s in
      let s2 = send_hello_ack io nonce p.from now s1 in
      let s3 = record s2 {
        keepalive = disarm s2.keepalive;
        ping = disarm s2.ping;
        idle = disarm s2.idle;
      } in
      let s4 = if s3.punch_started then restart_punch io now s3 else s3 in
      let moved : Unmoved s4 s = ground (
        arith,
        send_hello_ack-QuietButAck io nonce p.from now s1,
        send_hello_round-Quiet io (record s3 { punch = arm now punch_deadline_ms }),
      ) in
      (
        settle-active (state s) s4 (Unmoved-active s4 s moved going),
        settle-HasTrail io (state s) now s4 (active-nonterminal s going)
            (IsTrail-at (state s) (state s) s.transitions s4.transitions refl (sym moved.1) h),
      )

  admit_packet-IsGoing :
      (nonce : Nonce) (s : Session) → IsGoing s → IsGoing (admit_packet io p nonce now s).1
  unfolding admit_packet admit_hello
  admit_packet-IsGoing nonce s h =
      let expired = Quiet-IsGoing (expire_probes now s) s (expire_probes-Quiet now s) h in
      elim (Option-cases s.pinned) [
        | inl e ↦ ground (arith, expired)
        | inr (old, e) ↦ ground (arith, expired, renegotiate-IsGoing old nonce s h)
      ]

  receive_content-HasTrail :
      (nonce : Nonce) (a : Admission) (d : ReplayDecision) (g : Gate Content × Session)
      → IsGoing g.1
      → HasTrail (receive_content io p nonce a d now g).1
  unfolding drop apply_renegotiated state
  receive_content-HasTrail nonce a d (refuse c, s) h = h.1
  receive_content-HasTrail nonce a d (admit content, s) h =
      let q = start_path_probe-Quiet io p.from now s in
      ground (
        arith,
        apply-HasTrail nonce a d content s h,
        Quiet-HasTrail (start_path_probe io p.from now s) s q h.1,
      )

  receive_decided-HasTrail :
      (nonce : Nonce) (a : Admission) (g : Gate ReplayDecision × Session)
      → IsGoing g.1
      → HasTrail (receive_decided io p nonce a now g).1
  unfolding drop state
  receive_decided-HasTrail nonce a (refuse c, s) h = h.1
  receive_decided-HasTrail nonce a (admit d, s) h =
      receive_content-HasTrail nonce a d (check_content p now s)
        (Quiet-IsGoing (check_content p now s).1 s (check_content-Quiet p now s) h)

  receive_admitted-HasTrail :
      (nonce : Nonce) (g : Gate Admission × Session)
      → IsGoing g.1
      → HasTrail (receive_admitted io p nonce now g).1
  unfolding drop state
  receive_admitted-HasTrail nonce (refuse c, s) h = h.1
  receive_admitted-HasTrail nonce (admit a, s) h =
      let seq = p.header.sequence in
      receive_decided-HasTrail nonce a (accept_sequence seq s)
        (Quiet-IsGoing (accept_sequence seq s).1 s (accept_sequence-Quiet seq s) h)

  receive_hello-HasTrail :
      (s : Session) (g : Gate HelloPayload) → IsGoing s → HasTrail (receive_hello io p now s g).1
  unfolding drop state
  receive_hello-HasTrail s (refuse c) h = h.1
  receive_hello-HasTrail s (admit hello) h =
      receive_admitted-HasTrail hello.nonce (admit_packet io p hello.nonce now s)
        (admit_packet-IsGoing hello.nonce s h)

  -- What a packet notifies continues the trail.
  pub receive-HasTrail : (s : Session) → HasTrail s → HasTrail (receive io p now s).1
  unfolding receive drop state
  receive-HasTrail s h = elim (Bool-cases (active s)) [
    | inr a ↦ ground arith
    | inl a ↦ ground (arith, receive_hello-HasTrail s (hello_of p s) (a, h))
  ]
