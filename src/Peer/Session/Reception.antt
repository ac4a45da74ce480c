-- ===== src/Peer/Session/Reception.antt =====
-- The checks of a packet keep a session live, so that `receive` as a whole keeps it valid.
use sangtachi.Prelude.{ℕ, ◌+◌, ◌≤◌, refl, inl, inr, if◌then◌else◌, arith, Option-cases}
use sangtachi.Protocol.{max_renegotiations}
use sangtachi.Peer.Epoch.{Nonce}
use sangtachi.Tunnel.Packet.{HelloPayload}
use sangtachi.Tunnel.Replay.{ReplayDecision}
use sangtachi.Peer.Session.State.{SessionIo, Session, state}
use sangtachi.Peer.Session.Sending.{send_hello_ack, disarm, arm}
use sangtachi.Protocol.{punch_deadline_ms}
use sangtachi.Peer.Session.Admit.{
  RxPacket, Gate, refuse, admit, drop, begin_renegotiation, restart_punch, renegotiate, Admission,
  admit_hello, admit_packet, accept_sequence, Content, check_pong, check_content,
}
use sangtachi.Peer.Session.Receive.{
  apply_renegotiated, receive_content, receive_decided, receive_admitted, receive_hello, hello_of,
  receive,
}
use sangtachi.Peer.Session.Bounds.{
  IsLive, expire_probes-IsLive, expire_pings-IsLive, start_path_probe-IsLive,
  send_hello_round-IsLive, send_hello_ack-IsLive,
}
use sangtachi.Peer.Session.Ended.{IsValid, live-active, ended-inactive, settle-IsLive}
use sangtachi.Peer.Session.Handler.{drop-IsLive, apply-IsValid}

begin_renegotiation-IsLive :
    (old epoch now : ℕ) (s : Session)
    → s.renegotiations + 1 ≤ max_renegotiations
    → IsLive s
    → IsLive (begin_renegotiation old epoch now s)
unfolding begin_renegotiation
begin_renegotiation-IsLive old epoch now s room h = ground arith

module _ (io : SessionIo) where
  restart_punch-IsLive : (now : ℕ) (s : Session) → IsLive s → IsLive (restart_punch io now s)
  unfolding restart_punch
  restart_punch-IsLive now s h =
      send_hello_round-IsLive io (record s { punch = arm now punch_deadline_ms }) h

  renegotiate-IsLive :
      (old : ℕ) (p : RxPacket) (nonce : Nonce) (now : ℕ) (s : Session)
      → s.renegotiations + 1 ≤ max_renegotiations
      → IsLive s
      → IsLive (renegotiate io old p nonce now s)
  unfolding renegotiate begin_renegotiation
  renegotiate-IsLive old p nonce now s room h =
      let s1 = begin_renegotiation old p.header.session_epoch now s in
      let live1 = begin_renegotiation-IsLive old p.header.session_epoch now s room h in
      let s2 = send_hello_ack io nonce p.from now s1 in
      let live2 = send_hello_ack-IsLive io nonce p.from now s1 refl live1 in
      let s3 = record s2 {
        keepalive = disarm s2.keepalive;
        ping = disarm s2.ping;
        idle = disarm s2.idle;
      } in
      let s4 = if s3.punch_started then restart_punch io now s3 else s3 in
      let live4 : IsLive s4 = ground (arith, live2, restart_punch-IsLive now s3 live2) in
      settle-IsLive io (state s) now s4 live4

  admit_hello-IsLive :
      (p : RxPacket) (nonce : Nonce) (now : ℕ) (s : Session)
      → IsLive s
      → IsLive (admit_hello io p nonce now s).1
  unfolding admit_hello
  admit_hello-IsLive p nonce now s h = elim (Option-cases s.pinned) [
    | inl e ↦ ground arith
    | inr (old, e) ↦ ground (arith, renegotiate-IsLive old p nonce now s)
  ]

  admit_packet-IsLive :
      (p : RxPacket) (nonce : Nonce) (now : ℕ) (s : Session)
      → IsLive s
      → IsLive (admit_packet io p nonce now s).1
  unfolding admit_packet
  admit_packet-IsLive p nonce now s h =
      ground (arith, admit_hello-IsLive p nonce now s h, expire_probes-IsLive now s h)

accept_sequence-IsLive : (seq : ℕ) (s : Session) → IsLive s → IsLive (accept_sequence seq s).1
unfolding accept_sequence
accept_sequence-IsLive seq s h = ground arith

check_pong-IsLive :
    (p : RxPacket) (now : ℕ) (s : Session) → IsLive s → IsLive (check_pong p now s).1
unfolding check_pong
check_pong-IsLive p now s h = ground (arith, expire_pings-IsLive now s h)

check_content-IsLive :
    (p : RxPacket) (now : ℕ) (s : Session) → IsLive s → IsLive (check_content p now s).1
unfolding check_content
check_content-IsLive p now s h = ground (arith, check_pong-IsLive p now s h)

module _ (io : SessionIo) (p : RxPacket) (now : ℕ) where
  receive_content-IsValid :
      (nonce : Nonce) (a : Admission) (d : ReplayDecision) (g : Gate Content × Session)
      → IsLive g.1
      → IsValid (receive_content io p nonce a d now g).1
  unfolding apply_renegotiated
  receive_content-IsValid nonce a d (refuse c, s) h = inl (drop-IsLive c s h)
  receive_content-IsValid nonce a d (admit content, s) h = ground (
    arith,
    apply-IsValid io p nonce a d content now s h,
    start_path_probe-IsLive io p.from now s h,
  )

  receive_decided-IsValid :
      (nonce : Nonce) (a : Admission) (g : Gate ReplayDecision × Session)
      → IsLive g.1
      → IsValid (receive_decided io p nonce a now g).1
  receive_decided-IsValid nonce a (refuse c, s) h = inl (drop-IsLive c s h)
  receive_decided-IsValid nonce a (admit d, s) h =
      receive_content-IsValid nonce a d (check_content p now s) (check_content-IsLive p now s h)

  receive_admitted-IsValid :
      (nonce : Nonce) (g : Gate Admission × Session)
      → IsLive g.1
      → IsValid (receive_admitted io p nonce now g).1
  receive_admitted-IsValid nonce (refuse c, s) h = inl (drop-IsLive c s h)
  receive_admitted-IsValid nonce (admit a, s) h =
      receive_decided-IsValid nonce a (accept_sequence p.header.sequence s)
        (accept_sequence-IsLive p.header.sequence s h)

  receive_hello-IsValid :
      (s : Session) (g : Gate HelloPayload) → IsLive s → IsValid (receive_hello io p now s g).1
  receive_hello-IsValid s (refuse c) h = inl (drop-IsLive c s h)
  receive_hello-IsValid s (admit hello) h =
      receive_admitted-IsValid hello.nonce (admit_packet io p hello.nonce now s)
        (admit_packet-IsLive io p hello.nonce now s h)

  -- A packet, of whatever kind and from wherever, leaves a valid session valid.
  pub receive-IsValid : (s : Session) → IsValid s → IsValid (receive io p now s).1
  unfolding receive drop
  receive-IsValid s (inl h) =
      ground (arith, live-active s h, receive_hello-IsValid s (hello_of p s) h)
  receive-IsValid s (inr h) = ground (arith, ended-inactive s h)
