-- ===== src/Peer/Session/Effects.antt =====
-- What the parts of `receive` change of the flags, the deliveries and the transitions.
use sangtachi.Prelude.{
  ℕ, ◌≡◌, refl, sym, inl, inr, Bool, false, not, ◌&&◌, Option, none, some, ◌∷◌, if◌then◌else◌,
  arith, Bool-cases, Option-cases,
}
use sangtachi.Peer.Epoch.{Nonce}
use sangtachi.Tunnel.Packet.{PacketType, encode_ping}
use sangtachi.Tunnel.Roster.{Roster}
use sangtachi.Peer.Session.State.{SessionState, is_terminal, SessionIo, Session, state}
use sangtachi.Peer.Session.Sending.{spend_for, start_path_probe}
use sangtachi.Peer.Session.Lifecycle.{settle}
use sangtachi.Peer.Session.Admit.{RxPacket, packet_type, drop, learn, Admission, Content}
use sangtachi.Peer.Session.Receive.{
  pin, learn_path, renew_idle, answer_ping, take_rtt, answer_pong, take_ack, take_roster, deliver,
  act, finish, is_data,
}
use sangtachi.Peer.Session.Quiet.{
  Quiet, spend_for-Quiet, send_packet-Quiet, start_path_probe-Quiet, send_hello_ack-QuietButAck,
}
use sangtachi.Peer.Session.Trail.{
  IsTrail, HasTrail, IsTrail-at, settle-HasTrail, enter_connected-Quiet,
}

-- The transitions are the same, and the session has not ended or is as ended as before.
abbrev pub Unmoved : Session → Session → Type 0
Unmoved t s = (t.terminal ≡ s.terminal) × (t.transitions ≡ s.transitions)

pin-Quiet : (epoch : ℕ) (s : Session) → Quiet (pin epoch s) s
unfolding pin
pin-Quiet epoch s = elim (Option-cases s.pinned) [
  | inl e ↦ ground arith
  | inr (p, e) ↦ ground arith
]

learn_path-Quiet :
    (p : RxPacket) (a : Admission) (advance : Bool) (s : Session)
    → Quiet (learn_path p a advance s).1 s
unfolding learn_path learn
learn_path-Quiet p a advance s = elim (Option-cases a.probe) [
  | inl e ↦ ground arith
  | inr (i, e) ↦ ground arith
]

-- The session that `apply` acts on.
pub prepared-Quiet :
    (p : RxPacket) (a : Admission) (advance : Bool) (before : SessionState) (now : ℕ) (s : Session)
    → Quiet (renew_idle before now (learn_path p a advance (pin p.header.session_epoch s)).1) s
unfolding renew_idle
prepared-Quiet p a advance before now s = ground (
  arith,
  pin-Quiet p.header.session_epoch s,
  learn_path-Quiet p a advance (pin p.header.session_epoch s),
)

take_ack-Unmoved :
    (a : Admission) (before : SessionState) (s : Session)
    → Unmoved (take_ack a before s) s × ((take_ack a before s).delivered ≡ s.delivered)
unfolding take_ack
take_ack-Unmoved a before s = elim (Option-cases a.probe) [
  | inl e ↦ ground arith
  | inr (i, e) ↦ ground arith
]

answer_pong-Quiet : (io : SessionIo) (id : ℕ) (s : Session) → Quiet (answer_pong io id s) s
unfolding answer_pong take_rtt
answer_pong-Quiet io id s = elim (Option-cases io.rtt_clock_us) [
  | inl e ↦ ground arith
  | inr (c, e) ↦ ground arith
]

answer_ping-Quiet :
    (io : SessionIo) (p : RxPacket) (id now : ℕ) (s : Session) → Quiet (answer_ping io p id now s) s
unfolding answer_ping
answer_ping-Quiet io p id now s =
    let paid = (spend_for p.from now s).1 in
    ground (
      arith,
      spend_for-Quiet p.from now s,
      send_packet-Quiet io PacketType.pong (encode_ping id) p.from paid,
    )

take_roster-Quiet : (r : Option Roster) (s : Session) → Quiet (take_roster r s) s
unfolding take_roster
take_roster-Quiet none s = (refl, refl, refl, refl, refl)
take_roster-Quiet (some r) s = (refl, refl, refl, refl, refl)

-- The action notifies nothing and ends nothing, and it delivers exactly the payload of a DATA packet
-- for which there is a sink.
pub act-Unmoved :
    (io : SessionIo) (p : RxPacket) (nonce : Nonce) (a : Admission) (content : Content)
    (before : SessionState) (now : ℕ) (s : Session)
    → Unmoved (act io p nonce a content before now s) s
      × ((act io p nonce a content before now s).delivered ≡ (
          if is_data (packet_type p) && io.has_sink then p.payload ∷ s.delivered else s.delivered))
unfolding act deliver
act-Unmoved io p nonce a content before now s = ground (
  arith,
  send_hello_ack-QuietButAck io nonce p.from now s,
  take_ack-Unmoved a before s,
  answer_ping-Quiet io p content.ping_id now s,
  answer_pong-Quiet io content.ping_id s,
  take_roster-Quiet content.roster s,
)

pub settle-delivered :
    (io : SessionIo) (before : SessionState) (now : ℕ) (s : Session)
    → (settle io before now s).delivered ≡ s.delivered
unfolding settle
settle-delivered io before now s = ground (arith, enter_connected-Quiet io now s)

module _ (io : SessionIo) (p : RxPacket) where
  pub finish-HasTrail :
      (probe_source : Bool) (before : SessionState) (now : ℕ) (s : Session)
      → is_terminal before ≡ false
      → IsTrail before s.transitions
      → HasTrail (finish io p probe_source before now s).1
  unfolding finish drop state
  finish-HasTrail probe_source before now s e h =
      let s1 = if probe_source then start_path_probe io p.from now s else s in
      let q1 : Quiet s1 s = ground (arith, start_path_probe-Quiet io p.from now s) in
      let trail =
        settle-HasTrail io before now s1 e
          (IsTrail-at before before s.transitions s1.transitions refl (sym q1.3) h) in
      elim (Bool-cases (is_data (packet_type p) && not io.has_sink)) [
        | inl e1 ↦ ground arith
        | inr e1 ↦ ground arith
      ]

  pub finish-delivered :
      (probe_source : Bool) (before : SessionState) (now : ℕ) (s : Session)
      → (finish io p probe_source before now s).1.delivered ≡ s.delivered
  unfolding finish drop
  finish-delivered probe_source before now s =
      let s1 = if probe_source then start_path_probe io p.from now s else s in
      let q1 : Quiet s1 s = ground (arith, start_path_probe-Quiet io p.from now s) in
      ground (arith, q1, settle-delivered io before now s1)
