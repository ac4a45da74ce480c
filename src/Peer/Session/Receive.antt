-- ===== src/Peer/Session/Receive.antt =====
-- The second half of `Session::receive`: what an accepted packet does; and the whole of it.
use sangtachi.Prelude.{
  ℕ, zero, suc, ◌+◌, ◌-◌, Bool, true, false, not, ◌&&◌, Option, none, some, List, [], ◌∷◌, ◌==◌,
  if◌then◌else◌, erase_if,
}
use sangtachi.Prelude.Bits.{u64}
use sangtachi.Protocol.{idle_timeout_ms}
use sangtachi.Counters.{Counter}
use sangtachi.Peer.Epoch.{Nonce}
use sangtachi.Tunnel.Packet.{PacketType, HelloPayload, encode_ping}
use sangtachi.Tunnel.Replay.{ReplayDecision, advanced}
use sangtachi.Tunnel.Roster.{Roster}
use sangtachi.Peer.Session.State.{
  SessionState, SessionIo, PendingPing, ProbePath, Session, state, active, state_eq, is_verified,
  count,
}
use sangtachi.Peer.Session.Sending.{start_path_probe, send_hello_ack, spend_for, send_packet, arm}
use sangtachi.Peer.Session.Lifecycle.{settle, enter_terminal}
use sangtachi.Peer.Session.Admit.{
  RxPacket, packet_type, Gate, refuse, admit, RxResult, drop, learn, read_hello, Admission,
  admit_packet, accept_sequence, Content, check_content,
}

abbrev pub mark_answered : ℕ → List ProbePath → List ProbePath
mark_answered n [] = []
mark_answered zero (p ∷ ps) = record p { answered = true } ∷ ps
mark_answered (suc i) (p ∷ ps) = p ∷ mark_answered i ps

-- `if (!pinned_) pinned_ = epoch`.
unfoldable pub pin : ℕ → Session → Session
pin epoch s = elim s.pinned [ none ↦ record s { pinned = some epoch } | some _ ↦ s ]

-- What an advance tells of the path: learned, or to be verified by a probe.
unfoldable pub learn_path : RxPacket → Admission → Bool → Session → Bool × Session
learn_path p a advance s = elim a.probe [
  | some i ↦ (
    false,
    if advance
        then learn p.from (record s { probes = mark_answered i s.probes })
        else record s { probes = mark_answered i s.probes },
  )
  | none ↦
      if not advance
      then (false, s)
      else if is_verified s p.from
      then (false, learn p.from s)
      else (true, s)
]

unfoldable pub renew_idle : SessionState → ℕ → Session → Session
renew_idle before now s =
    if state_eq before SessionState.connected
    then record s { idle = arm now idle_timeout_ms }
    else s

unfoldable pub answer_ping : SessionIo → RxPacket → ℕ → ℕ → Session → Session
answer_ping io p ping_id now s =
    let paid = spend_for p.from now s in
    if paid.0
    then (send_packet io PacketType.pong (encode_ping ping_id) p.from paid.1).1
    else paid.1

-- `it->second.sent_us` of the pending ping of that id.
abbrev pub sent_us_of : ℕ → List PendingPing → ℕ
sent_us_of id [] = 0
sent_us_of id (q ∷ qs) = if q.ping_id == id then q.sent_us else sent_us_of id qs

unfoldable pub take_rtt : SessionIo → ℕ → Session → Session
take_rtt io ping_id s = elim io.rtt_clock_us [
  | none ↦ s
  | some clock ↦ record s {
    last_rtt_us =
        some (
          u64 (clock s.clock_reads + 0x1_0000_0000_0000_0000 - sent_us_of ping_id s.pending_pings));
    rtt_samples = u64 (s.rtt_samples + 1);
    clock_reads = s.clock_reads + 1;
  }
]

unfoldable pub answer_pong : SessionIo → ℕ → Session → Session
answer_pong io ping_id s =
    let s1 = take_rtt io ping_id s in
    record s1 {
      pending_pings = erase_if (λ (q : PendingPing). q.ping_id == ping_id) s1.pending_pings;
    }

unfoldable pub take_ack : Admission → SessionState → Session → Session
take_ack a before s = elim a.probe [
  | some _ ↦ s
  | none ↦
      if state_eq before SessionState.connected
      then count Counter.dup_ack s
      else record s { got_ack = true }
]

-- A roster of the generation that is known changes nothing.
unfoldable pub take_roster : Option Roster → Session → Session
take_roster none s = s
take_roster (some r) s = record s { last_generation = some r.generation }

unfoldable pub deliver : SessionIo → List ℕ → Session → Session
deliver io payload s = if io.has_sink then record s { delivered = payload ∷ s.delivered } else s

-- The second `switch`, but for CLOSE.
unfoldable pub act :
    SessionIo → RxPacket → Nonce → Admission → Content → SessionState → ℕ → Session → Session
act io p nonce a content before now s = elim (packet_type p) [
  | PacketType.hello ↦ send_hello_ack io nonce p.from now s
  | PacketType.hello_ack ↦ take_ack a before s
  | PacketType.ping ↦ answer_ping io p content.ping_id now s
  | PacketType.pong ↦ answer_pong io content.ping_id s
  | PacketType.roster ↦ take_roster content.roster s
  | PacketType.inner_data ↦ deliver io p.payload s
  | _ ↦ s
]

abbrev pub is_data : PacketType → Bool
is_data PacketType.inner_data = true
is_data _ = false

abbrev pub is_close : PacketType → Bool
is_close PacketType.close = true
is_close _ = false

-- The end of `receive`: the probe of a new path, the change of state, and the drop without a sink.
unfoldable pub finish :
    SessionIo → RxPacket → Bool → SessionState → ℕ → Session → RxResult × Session
finish io p probe_source before now s =
    let s1 = if probe_source then start_path_probe io p.from now s else s in
    let s2 = settle io before now s1 in
    if is_data (packet_type p) && not io.has_sink then drop Counter.drop_no_sink s2 else (none, s2)

-- An accepted packet of an attempt that was not renegotiated.
unfoldable pub apply :
    SessionIo
    → RxPacket
    → Nonce
    → Admission
    → ReplayDecision
    → Content
    → ℕ
    → Session
    → RxResult × Session
apply io p nonce a d content now s =
    let path = learn_path p a (advanced d) (pin p.header.session_epoch s) in
    let s1 = renew_idle (state s) now path.1 in
    if is_close (packet_type p)
    then (
      none,
      enter_terminal SessionState.closed now
          (record s1 { peer_close_reason = content.close_reason }),
    )
    else finish io p path.0 (state s) now (act io p nonce a content (state s) now s1)

-- The HELLO that renegotiated: its endpoint is probed if it is not verified.
unfoldable pub apply_renegotiated : SessionIo → RxPacket → ℕ → Session → RxResult × Session
apply_renegotiated io p now s =
    (none, if is_verified s p.from then s else start_path_probe io p.from now s)

abbrev pub receive_content :
    SessionIo
    → RxPacket
    → Nonce
    → Admission
    → ReplayDecision
    → ℕ
    → Gate Content × Session
    → RxResult × Session
receive_content io p nonce a d now (refuse c, s) = drop c s
receive_content io p nonce a d now (admit content, s) =
    if a.renegotiated then apply_renegotiated io p now s else apply io p nonce a d content now s

abbrev pub receive_decided :
    SessionIo
    → RxPacket
    → Nonce
    → Admission
    → ℕ
    → Gate ReplayDecision × Session
    → RxResult × Session
receive_decided io p nonce a now (refuse c, s) = drop c s
receive_decided io p nonce a now (admit d, s) =
    receive_content io p nonce a d now (check_content p now s)

abbrev pub receive_admitted :
    SessionIo → RxPacket → Nonce → ℕ → Gate Admission × Session → RxResult × Session
receive_admitted io p nonce now (refuse c, s) = drop c s
receive_admitted io p nonce now (admit a, s) =
    receive_decided io p nonce a now (accept_sequence p.header.sequence s)

-- The payload that has been read, or a blank one.
unfoldable pub hello_of : RxPacket → Session → Gate HelloPayload
hello_of p s = elim (packet_type p) [
  | PacketType.hello ↦ read_hello p s
  | PacketType.hello_ack ↦ read_hello p s
  | _ ↦ admit (record { nonce = []; virtual_ip = 0 })
]

abbrev pub receive_hello :
    SessionIo → RxPacket → ℕ → Session → Gate HelloPayload → RxResult × Session
receive_hello io p now s (refuse c) = drop c s
receive_hello io p now s (admit hello) =
    receive_admitted io p hello.nonce now (admit_packet io p hello.nonce now s)

unfoldable pub receive : SessionIo → RxPacket → ℕ → Session → RxResult × Session
receive io p now s =
    if not (active s)
    then drop Counter.drop_terminal_state s
    else receive_hello io p now s (hello_of p s)
