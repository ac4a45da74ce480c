-- ===== src/Peer/Session/Delivery.antt =====
-- `receive` as a whole: which payload goes to the application, and the transitions that it notifies.
use sangtachi.Prelude.{
  ◌+◌, ℕ, ◌≡◌, refl, ◌∙◌, inl, inr, Bool, true, false, ◌&&◌, [], ◌∷◌, if◌then◌else◌, arith,
  Bool-cases, Option-cases,
}
use sangtachi.Prelude.Bits.{u64}
use sangtachi.Protocol.{punch_deadline_ms}
use sangtachi.Peer.Epoch.{Nonce}
use sangtachi.Tunnel.Packet.{PacketType, HelloPayload}
use sangtachi.Tunnel.Inner.{InnerError, check_inner_ipv4}
use sangtachi.Tunnel.Replay.{ReplayDecision, accepted, advanced, accept}
use sangtachi.Peer.Session.State.{SessionState, SessionIo, Session, state, active, state_eq}
use sangtachi.Peer.Session.Sending.{send_hello_ack, expire_probes, expire_pings, disarm, arm}
use sangtachi.Peer.Session.Lifecycle.{enter_terminal, stop_timers}
use sangtachi.Peer.Session.Admit.{
  RxPacket, packet_type, Gate, refuse, admit, drop, begin_renegotiation, restart_punch, renegotiate,
  Admission, admit_hello, admit_other, admit_packet, accept_sequence, beyond_baseline, Content,
  plain, check_data, check_pong, check_content, is_pinned_epoch,
}
use sangtachi.Peer.Session.Receive.{
  pin, learn_path, renew_idle, act, apply, apply_renegotiated, receive_content, receive_decided,
  receive_admitted, receive_hello, hello_of, receive, is_data,
}
use sangtachi.Peer.Session.Quiet.{
  start_path_probe-Quiet, send_hello_round-Quiet, send_hello_ack-QuietButAck,
}
use sangtachi.Peer.Session.Effects.{prepared-Quiet, act-Unmoved, finish-delivered, settle-delivered}

abbrev pub is_no_error : InnerError → Bool
is_no_error InnerError.no_error = true
is_no_error _ = false

-- What has to hold of a packet for its payload to go to the application.
abbrev pub is_deliverable : SessionIo → RxPacket → Session → Bool
is_deliverable io p s =
    is_data (packet_type p)
    && state_eq (state s) SessionState.connected
    && is_pinned_epoch false s.pinned p.header.session_epoch
    && accepted (accept s.window p.header.sequence).0
    && is_no_error (check_inner_ipv4 p.payload s.config.peer_virtual_ip s.config.local_virtual_ip)
    && io.has_sink

is_data_sound : (t : PacketType) → is_data t ≡ true → t ≡ PacketType.inner_data
is_data_sound t e = ground arith

module _ (io : SessionIo) (p : RxPacket) (now : ℕ) where
  apply-delivered :
      (nonce : Nonce) (a : Admission) (d : ReplayDecision) (content : Content) (s : Session)
      → (apply io p nonce a d content now s).1.delivered
        ≡ (if is_data (packet_type p) && io.has_sink then p.payload ∷ s.delivered else s.delivered)
  unfolding apply enter_terminal stop_timers
  apply-delivered nonce a d content s =
      let path = learn_path p a (advanced d) (pin p.header.session_epoch s) in
      let s1 = renew_idle (state s) now path.1 in
      let q1 = prepared-Quiet p a (advanced d) (state s) now s in
      let s2 = act io p nonce a content (state s) now s1 in
      ground (
        arith,
        q1,
        act-Unmoved io p nonce a content (state s) now s1,
        finish-delivered io p path.0 (state s) now s2,
      )

  renegotiate-delivered :
      (old : ℕ) (nonce : Nonce) (s : Session)
      → (renegotiate io old p nonce now s).delivered ≡ s.delivered
  unfolding renegotiate begin_renegotiation restart_punch
  renegotiate-delivered old nonce s =
      let s1 = begin_renegotiation old p.header.session_epoch now s in
      let s2 = send_hello_ack io nonce p.from now s1 in
      let s3 = record s2 {
        keepalive = disarm s2.keepalive;
        ping = disarm s2.ping;
        idle = disarm s2.idle;
      } in
      let s4 = if s3.punch_started then restart_punch io now s3 else s3 in
      ground (
        arith,
        send_hello_ack-QuietButAck io nonce p.from now s1,
        send_hello_round-Quiet io (record s3 { punch = arm now punch_deadline_ms }),
        settle-delivered io (state s) now s4,
      )

  admit_packet-delivered :
      (nonce : Nonce) (s : Session) → (admit_packet io p nonce now s).1.delivered ≡ s.delivered
  unfolding admit_packet admit_hello expire_probes
  admit_packet-delivered nonce s = elim (Option-cases s.pinned) [
    | inl e ↦ ground arith
    | inr (old, e) ↦ ground (arith, renegotiate-delivered old nonce s)
  ]

  -- Behind the replay window, the payload of a DATA packet is delivered if its content passes.
  receive_content-delivered :
      (nonce : Nonce) (a : Admission) (d : ReplayDecision) (c : Gate Content) (s : Session)
      → a.renegotiated && is_data (packet_type p) ≡ false
      → (receive_content io p nonce a d now (c, s)).1.delivered ≡ (elim c [
        | refuse _ ↦ s.delivered
        | admit _ ↦
            if is_data (packet_type p) && io.has_sink then p.payload ∷ s.delivered else s.delivered
      ])
  unfolding drop apply_renegotiated
  receive_content-delivered nonce a d (refuse c) s h = refl
  receive_content-delivered nonce a d (admit content) s h =
      ground (arith, apply-delivered nonce a d content s, start_path_probe-Quiet io p.from now s)

  receive_content-other :
      (nonce : Nonce) (a : Admission) (d : ReplayDecision) (g : Gate Content × Session)
      → is_data (packet_type p) ≡ false
      → (receive_content io p nonce a d now g).1.delivered ≡ g.1.delivered
  receive_content-other nonce a d (refuse c, s) h =
      receive_content-delivered nonce a d (refuse c) s (ground arith)
  receive_content-other nonce a d (admit content, s) h =
      ground (arith, receive_content-delivered nonce a d (admit content) s)

  check_content-delivered : (s : Session) → (check_content p now s).1.delivered ≡ s.delivered
  unfolding check_content check_pong expire_pings
  check_content-delivered s = ground arith

  accept_sequence-delivered :
      (seq : ℕ) (s : Session) → (accept_sequence seq s).1.delivered ≡ s.delivered
  unfolding accept_sequence
  accept_sequence-delivered seq s = ground arith

  receive_decided-other :
      (nonce : Nonce) (a : Admission) (g : Gate ReplayDecision × Session)
      → is_data (packet_type p) ≡ false
      → (receive_decided io p nonce a now g).1.delivered ≡ g.1.delivered
  unfolding drop
  receive_decided-other nonce a (refuse c, s) h = refl
  receive_decided-other nonce a (admit d, s) h =
      receive_content-other nonce a d (check_content p now s) h ∙ check_content-delivered s

  receive_admitted-other :
      (nonce : Nonce) (g : Gate Admission × Session)
      → is_data (packet_type p) ≡ false
      → (receive_admitted io p nonce now g).1.delivered ≡ g.1.delivered
  unfolding drop
  receive_admitted-other nonce (refuse c, s) h = refl
  receive_admitted-other nonce (admit a, s) h =
      receive_decided-other nonce a (accept_sequence p.header.sequence s) h
      ∙ accept_sequence-delivered p.header.sequence s

  receive_hello-other :
      (s : Session) (g : Gate HelloPayload)
      → is_data (packet_type p) ≡ false
      → (receive_hello io p now s g).1.delivered ≡ s.delivered
  unfolding drop
  receive_hello-other s (refuse c) h = refl
  receive_hello-other s (admit hello) h =
      receive_admitted-other hello.nonce (admit_packet io p hello.nonce now s) h
      ∙ admit_packet-delivered hello.nonce s

  -- A DATA packet behind the replay window.
  receive_data_decided :
      (s : Session) (d : ReplayDecision)
      → packet_type p ≡ PacketType.inner_data
      → (receive_decided io p [] plain now (admit d, s)).1.delivered ≡ (
          if state_eq (state s) SessionState.connected
            && is_no_error
                (check_inner_ipv4 p.payload s.config.peer_virtual_ip s.config.local_virtual_ip)
            && io.has_sink
          then p.payload ∷ s.delivered
          else s.delivered)
  unfolding check_content check_data
  receive_data_decided s d e =
      ground (arith, receive_content-delivered [] plain d (check_data p s) s)

  receive_data_sequenced :
      (s : Session)
      → packet_type p ≡ PacketType.inner_data
      → (receive_decided io p [] plain now (accept_sequence p.header.sequence s)).1.delivered ≡ (
          if accepted (accept s.window p.header.sequence).0
            && state_eq (state s) SessionState.connected
            && is_no_error
                (check_inner_ipv4 p.payload s.config.peer_virtual_ip s.config.local_virtual_ip)
            && io.has_sink
          then p.payload ∷ s.delivered
          else s.delivered)
  unfolding accept_sequence accepted drop state
  receive_data_sequenced s e =
      let d = (accept s.window p.header.sequence).0 in
      let s1 = record s { window = (accept s.window p.header.sequence).1 } in
      let s2 =
        if beyond_baseline s1.loss_baseline d.pkt_pos
        then record s1 { loss_accepted = u64 (s1.loss_accepted + 1) }
        else s1 in
      ground (arith, receive_data_decided s2 d e)

  receive_data :
      (s : Session)
      → packet_type p ≡ PacketType.inner_data
      → active s ≡ true
      → (receive io p now s).1.delivered
        ≡ (if is_deliverable io p s then p.payload ∷ s.delivered else s.delivered)
  unfolding receive hello_of admit_packet admit_other drop
  receive_data s e a = elim (Option-cases s.pinned) [
    | inl f ↦ ground (arith, receive_data_sequenced s e)
    | inr (epoch, f) ↦ ground (arith, receive_data_sequenced s e)
  ]

  inactive_undelivered : (s : Session) → active s ≡ false → is_deliverable io p s ≡ false
  unfolding active
  inactive_undelivered s h = ground arith

  -- The handler of a packet hands to the application the payload of a packet exactly if it is a DATA
  -- packet, the session is connected, the packet bears the pinned epoch, the replay window accepts its
  -- sequence number, the inner IPv4 checks find no error, and there is a sink; otherwise it hands out
  -- nothing.
  pub receive-delivered :
      (s : Session)
      → (receive io p now s).1.delivered
        ≡ (if is_deliverable io p s then p.payload ∷ s.delivered else s.delivered)
  unfolding receive drop
  receive-delivered s = elim (Bool-cases (active s)) [
    | inr a ↦ ground (arith, inactive_undelivered s a)
    | inl a ↦ elim (Bool-cases (is_data (packet_type p))) [
      | inl e ↦ receive_data s (is_data_sound (packet_type p) e) a
      | inr e ↦ ground (arith, receive_hello-other s (hello_of p s) e)
    ]
  ]
