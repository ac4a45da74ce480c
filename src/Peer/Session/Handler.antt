-- ===== src/Peer/Session/Handler.antt =====
-- The handler of a packet leads from live sessions to sessions that are live or ended.
use sangtachi.Prelude.{
  ℕ, zero, suc, ◌≡◌, refl, inl, inr, Bool, true, Option, none, some, List, [], ◌∷◌, ◌==◌,
  if◌then◌else◌, length, length-erase_if-le, arith, Option-cases,
}
use sangtachi.Counters.{Counter}
use sangtachi.Network.Endpoint.{Endpoint}
use sangtachi.Peer.Epoch.{Nonce}
use sangtachi.Tunnel.Packet.{PacketType, encode_ping}
use sangtachi.Tunnel.Replay.{ReplayDecision, advanced}
use sangtachi.Tunnel.Roster.{Roster}
use sangtachi.Peer.Session.State.{SessionState, SessionIo, PendingPing, ProbePath, Session, state}
use sangtachi.Peer.Session.Sending.{spend_for, start_path_probe}
use sangtachi.Peer.Session.Admit.{RxPacket, drop, learn, Admission, Content}
use sangtachi.Peer.Session.Receive.{
  mark_answered, pin, learn_path, renew_idle, answer_ping, take_rtt, answer_pong, take_ack,
  take_roster, deliver, act, finish, apply,
}
use sangtachi.Peer.Session.Bounds.{
  is_some, IsLive, send_packet-IsLive, spend_for-IsLive, start_path_probe-IsLive,
  send_hello_ack-IsLive,
}
use sangtachi.Peer.Session.Ended.{IsValid, enter_terminal-IsEnded, settle-IsLive}

-- Live, under a pinned epoch.
abbrev IsPinned : Session → Type 0
IsPinned s = IsLive s × (is_some s.pinned ≡ true)

pub drop-IsLive : (c : Counter) (s : Session) → IsLive s → IsLive (drop c s).1
unfolding drop
drop-IsLive c s h = h

learn-IsPinned : (from : Endpoint) (s : Session) → IsPinned s → IsPinned (learn from s)
unfolding learn
learn-IsPinned from s h = ground arith

pin-IsPinned : (epoch : ℕ) (s : Session) → IsLive s → IsPinned (pin epoch s)
unfolding pin
pin-IsPinned epoch s h = elim (Option-cases s.pinned) [
  | inl e ↦ ground arith
  | inr (p, e) ↦ ground arith
]

length-mark_answered : (i : ℕ) (ps : List ProbePath) → length (mark_answered i ps) ≡ length ps
length-mark_answered i [] = ground arith
length-mark_answered zero (p ∷ ps) = refl
length-mark_answered (suc i) (p ∷ ps) = ground (arith, length-mark_answered i ps)

learn_path-IsPinned :
    (p : RxPacket) (a : Admission) (advance : Bool) (s : Session)
    → IsPinned s
    → IsPinned (learn_path p a advance s).1
unfolding learn_path
learn_path-IsPinned p a advance s h = elim (Option-cases a.probe) [
  | inl e ↦ ground (arith, learn-IsPinned p.from s h)
  | inr (i, e) ↦
      let s1 = record s { probes = mark_answered i s.probes } in
      ground (arith, length-mark_answered i s.probes, learn-IsPinned p.from s1)
]

renew_idle-IsPinned :
    (before : SessionState) (now : ℕ) (s : Session)
    → IsPinned s
    → IsPinned (renew_idle before now s)
unfolding renew_idle
renew_idle-IsPinned before now s h = ground arith

take_ack-IsLive :
    (a : Admission) (before : SessionState) (s : Session)
    → IsPinned s
    → IsLive (take_ack a before s)
unfolding take_ack
take_ack-IsLive a before s h = elim (Option-cases a.probe) [
  | inl e ↦ ground arith
  | inr (i, e) ↦ ground arith
]

take_rtt-IsLive : (io : SessionIo) (id : ℕ) (s : Session) → IsLive s → IsLive (take_rtt io id s)
unfolding take_rtt
take_rtt-IsLive io id s h = elim (Option-cases io.rtt_clock_us) [
  | inl e ↦ ground arith
  | inr (c, e) ↦ ground arith
]

answer_pong-IsLive :
    (io : SessionIo) (id : ℕ) (s : Session) → IsLive s → IsLive (answer_pong io id s)
unfolding answer_pong
answer_pong-IsLive io id s h =
    let s1 = take_rtt io id s in
    ground (
      arith,
      take_rtt-IsLive io id s h,
      length-erase_if-le (λ (q : PendingPing). q.ping_id == id) s1.pending_pings,
    )

answer_ping-IsLive :
    (io : SessionIo) (p : RxPacket) (id now : ℕ) (s : Session)
    → IsLive s
    → IsLive (answer_ping io p id now s)
unfolding answer_ping
answer_ping-IsLive io p id now s h =
    let paid = (spend_for p.from now s).1 in
    let live = spend_for-IsLive p.from now s h in
    ground (arith, live, send_packet-IsLive io PacketType.pong (encode_ping id) p.from paid live)

take_roster-IsLive : (r : Option Roster) (s : Session) → IsLive s → IsLive (take_roster r s)
unfolding take_roster
take_roster-IsLive none s h = h
take_roster-IsLive (some r) s h = h

deliver-IsLive :
    (io : SessionIo) (payload : List ℕ) (s : Session) → IsLive s → IsLive (deliver io payload s)
unfolding deliver
deliver-IsLive io payload s h = ground arith

act-IsLive :
    (io : SessionIo) (p : RxPacket) (nonce : Nonce) (a : Admission) (content : Content)
    (before : SessionState) (now : ℕ) (s : Session)
    → IsPinned s
    → IsLive (act io p nonce a content before now s)
unfolding act
act-IsLive io p nonce a content before now s (h, pinned) = ground (
  arith,
  send_hello_ack-IsLive io nonce p.from now s pinned h,
  take_ack-IsLive a before s (h, pinned),
  answer_ping-IsLive io p content.ping_id now s h,
  answer_pong-IsLive io content.ping_id s h,
  take_roster-IsLive content.roster s h,
  deliver-IsLive io p.payload s h,
)

finish-IsLive :
    (io : SessionIo) (p : RxPacket) (probe_source : Bool) (before : SessionState) (now : ℕ)
    (s : Session)
    → IsLive s
    → IsLive (finish io p probe_source before now s).1
unfolding finish drop
finish-IsLive io p probe_source before now s h =
    let s1 = if probe_source then start_path_probe io p.from now s else s in
    let live1 : IsLive s1 = ground (arith, start_path_probe-IsLive io p.from now s h) in
    ground (arith, settle-IsLive io before now s1 live1)

pub apply-IsValid :
    (io : SessionIo) (p : RxPacket) (nonce : Nonce) (a : Admission) (d : ReplayDecision)
    (content : Content) (now : ℕ) (s : Session)
    → IsLive s
    → IsValid (apply io p nonce a d content now s).1
unfolding apply
apply-IsValid io p nonce a d content now s h =
    let pinned = pin-IsPinned p.header.session_epoch s h in
    let s0 = pin p.header.session_epoch s in
    let path = learn_path p a (advanced d) s0 in
    let s1 = renew_idle (state s) now path.1 in
    let live1 =
      renew_idle-IsPinned (state s) now path.1 (learn_path-IsPinned p a (advanced d) s0 pinned) in
    let s2 = act io p nonce a content (state s) now s1 in
    ground (
      arith,
      enter_terminal-IsEnded SessionState.closed now
          (record s1 { peer_close_reason = content.close_reason }) refl live1.0,
      finish-IsLive io p path.0 (state s) now s2
          (act-IsLive io p nonce a content (state s) now s1 live1),
    )
