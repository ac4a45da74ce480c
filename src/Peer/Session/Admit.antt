-- ===== src/Peer/Session/Admit.antt =====
-- The first half of `Session::receive`: the checks that depend on the session, the replay window, and
-- the checks of the content. Each early return of the source is a `refuse`.
use sangtachi.Prelude.{
  ℕ, suc, ◌+◌, Bool, true, false, not, ◌&&◌, Option, none, some, List, [], ◌∷◌, ltb, leb, ◌==◌,
  if◌then◌else◌, any,
}
use sangtachi.Prelude.Bits.{u64}
use sangtachi.Protocol.{
  hello_retransmit_ms, punch_deadline_ms, min_reneg_interval_ms, max_renegotiations,
}
use sangtachi.Counters.{Counter}
use sangtachi.Network.Endpoint.{Endpoint, endpoint_eq}
use sangtachi.Peer.Epoch.{Nonce, nonce_eq, add}
use sangtachi.Tunnel.Packet.{
  PacketType, PacketError, Header, type_of, HelloPayload, CloseReason, decode_hello, decode_ping,
  decode_close,
}
use sangtachi.Tunnel.Inner.{packet_counter, inner_counter, check_inner_ipv4}
use sangtachi.Tunnel.Replay.{ReplayVerdict, ReplayDecision, advanced, accept}
use sangtachi.Tunnel.Replay
use sangtachi.Tunnel.Roster.{Roster, decode_roster}
use sangtachi.Peer.Session.State.{
  SessionState, SessionIo, PendingPing, ProbePath, Session, state, state_eq, loss, is_peer_endpoint,
  count,
}
use sangtachi.Peer.Session.Sending.{
  expire_probes, send_hello_round, send_hello_ack, expire_pings, arm, disarm,
}
use sangtachi.Peer.Session.Lifecycle.{settle}

pub record RxPacket : Type 0 where
  pub header : Header
  pub payload : List ℕ
  pub from : Endpoint

abbrev pub packet_type : RxPacket → PacketType
packet_type p = type_of p.header.type

-- A check that drops the packet with a counter, or passes a value on.
pub data Gate (A : Type 0) : Type 0 where
  refuse : Counter → Gate A
  admit : A → Gate A

-- `RxResult`: the counter of a drop, `none` for an accepted packet.
abbrev pub RxResult : Type 0
RxResult = Option Counter

unfoldable pub drop : Counter → Session → RxResult × Session
drop c s = (some c, count c s)

unfoldable pub learn : Endpoint → Session → Session
learn from s =
    if is_peer_endpoint s.peer_endpoint from
    then s
    else count Counter.endpoint_learned (record s { peer_endpoint = some from })

-- The session after the part of `renegotiate` in front of the HELLO_ACK.
unfoldable pub begin_renegotiation : ℕ → ℕ → ℕ → Session → Session
begin_renegotiation old epoch now s = record s {
  renegotiations = s.renegotiations + 1;
  last_renegotiation = some now;
  retired = add s.retired old now;
  got_ack = false;
  sent_ack = false;
  loss_totals = loss s;
  loss_baseline = none;
  loss_accepted = elim s.loss_baseline [ none ↦ s.loss_accepted | some _ ↦ 0 ];
  window = Replay.reset s.window;
  pending_pings = [];
  pinned = some epoch;
}

-- The deadline of the new attempt, its HELLO round and the next one.
unfoldable pub restart_punch : SessionIo → ℕ → Session → Session
restart_punch io now s =
    let s1 = send_hello_round io (record s { punch = arm now punch_deadline_ms }) in
    record s1 { hello = arm now hello_retransmit_ms }

unfoldable pub renegotiate : SessionIo → ℕ → RxPacket → Nonce → ℕ → Session → Session
renegotiate io old p nonce now s =
    let s1 = begin_renegotiation old p.header.session_epoch now s in
    let s2 = send_hello_ack io nonce p.from now s1 in
    let s3 = record s2 {
      keepalive = disarm s2.keepalive;
      ping = disarm s2.ping;
      idle = disarm s2.idle;
    } in
    settle io (state s) now (if s3.punch_started then restart_punch io now s3 else s3)

-- The HELLO payload of a HELLO or a HELLO_ACK, which has to name the address of the peer.
unfoldable pub read_hello : RxPacket → Session → Gate HelloPayload
read_hello p s =
    let decoded = decode_hello p.payload in
    elim decoded.error [
      | PacketError.no_error ↦
          if decoded.value.virtual_ip == s.config.peer_virtual_ip
          then admit decoded.value
          else refuse Counter.drop_vip_mismatch
      | _ ↦ refuse Counter.drop_type_length
    ]

-- What the checks of the session find out: whether the attempt was renegotiated, and which
-- provisional path a HELLO_ACK answers.
pub record Admission : Type 0 where
  pub renegotiated : Bool
  pub probe : Option ℕ

abbrev pub plain : Admission
plain = record { renegotiated = false; probe = none }

-- `pinned_ && epoch != *pinned_`.
abbrev pub differs_from_pinned : Option ℕ → ℕ → Bool
differs_from_pinned none epoch = false
differs_from_pinned (some e) epoch = not (epoch == e)

-- `last_renegotiation_ && now < *last_renegotiation_ + kMinRenegIntervalMs`.
abbrev pub too_soon : Option ℕ → ℕ → Bool
too_soon none now = false
too_soon (some last) now = ltb now (u64 (last + min_reneg_interval_ms))

unfoldable pub admit_hello : SessionIo → RxPacket → Nonce → ℕ → Session → Gate Admission × Session
admit_hello io p nonce now s = elim s.pinned [
  | none ↦ (admit plain, s)
  | some old ↦
      if p.header.session_epoch == old
      then (admit plain, s)
      else if too_soon s.last_renegotiation now
      then (refuse Counter.drop_reneg_rate, s)
      else if leb max_renegotiations s.renegotiations
      then (refuse Counter.drop_reneg_limit, s)
      else (admit (record { renegotiated = true; probe = none }), renegotiate io old p nonce now s)
]

-- The first probed path with that nonce and that endpoint.
abbrev pub find_probe : Nonce → Endpoint → List ProbePath → Option ℕ
find_probe nonce from [] = none
find_probe nonce from (p ∷ ps) =
    if nonce_eq p.nonce nonce && endpoint_eq p.to from
    then some 0
    else elim (find_probe nonce from ps) [ none ↦ none | some i ↦ some (suc i) ]

-- Whether the epoch is the pinned one; `unpinned` is the answer without one.
abbrev pub is_pinned_epoch : Bool → Option ℕ → ℕ → Bool
is_pinned_epoch unpinned none epoch = unpinned
is_pinned_epoch unpinned (some e) epoch = epoch == e

unfoldable pub judge_ack : RxPacket → Nonce → Session → Gate Admission
judge_ack p nonce s = elim (find_probe nonce p.from s.probes) [
  | some i ↦
      if not (is_pinned_epoch false s.pinned p.header.session_epoch)
      then refuse Counter.drop_stale_epoch
      else admit (record { renegotiated = false; probe = some i })
  | none ↦
      if not (nonce_eq nonce s.config.attempt_nonce)
      then refuse Counter.drop_bad_nonce
      else if differs_from_pinned s.pinned p.header.session_epoch
      then refuse Counter.drop_stale_epoch
      else admit plain
]

unfoldable pub admit_other : RxPacket → Session → Gate Admission
admit_other p s = elim s.pinned [
  | none ↦ refuse Counter.drop_no_epoch
  | some e ↦ if p.header.session_epoch == e then admit plain else refuse Counter.drop_stale_epoch
]

-- The checks in front of the replay window, behind those of the HELLO payload.
unfoldable pub admit_packet : SessionIo → RxPacket → Nonce → ℕ → Session → Gate Admission × Session
admit_packet io p nonce now s = elim (packet_type p) [
  | PacketType.hello ↦ admit_hello io p nonce now s
  | PacketType.hello_ack ↦ (judge_ack p nonce (expire_probes now s), expire_probes now s)
  | _ ↦ (admit_other p s, s)
]

-- `loss_baseline_ && decision.pkt_pos > *loss_baseline_`.
abbrev pub beyond_baseline : Option ℕ → ℕ → Bool
beyond_baseline none pos = false
beyond_baseline (some baseline) pos = ltb baseline pos

-- The replay window, and the count of accepted packets.
unfoldable pub accept_sequence : ℕ → Session → Gate ReplayDecision × Session
accept_sequence seq s =
    let r = accept s.window seq in
    let s1 = record s { window = r.1 } in
    elim r.0.verdict [
      | ReplayVerdict.duplicate ↦ (refuse Counter.drop_duplicate, s1)
      | ReplayVerdict.too_old ↦ (refuse Counter.drop_too_old, s1)
      | _ ↦ (
        admit r.0,
        if beyond_baseline s1.loss_baseline r.0.pkt_pos
            then record s1 { loss_accepted = u64 (s1.loss_accepted + 1) }
            else s1,
      )
    ]

-- What the payload says.
pub record Content : Type 0 where
  pub ping_id : ℕ
  pub close_reason : Option CloseReason
  pub roster : Option Roster

abbrev pub no_content : Content
no_content = record { ping_id = 0; close_reason = none; roster = none }

abbrev pub value_or : Option Counter → Counter → Counter
value_or none c = c
value_or (some d) c = d

unfoldable pub check_data : RxPacket → Session → Gate Content
check_data p s =
    if not (state_eq (state s) SessionState.connected)
    then refuse Counter.drop_data_early
    else elim (inner_counter
        (check_inner_ipv4 p.payload s.config.peer_virtual_ip s.config.local_virtual_ip)) [
          | none ↦ admit no_content
          | some c ↦ refuse c
        ]

abbrev pub has_ping : ℕ → List PendingPing → Bool
has_ping id pings = any (λ (q : PendingPing). q.ping_id == id) pings

abbrev pub ping_content : ℕ → Content
ping_content id = record { ping_id = id; close_reason = none; roster = none }

unfoldable pub check_ping : RxPacket → Gate Content
check_ping p =
    let decoded = decode_ping p.payload in
    elim decoded.error [
      | PacketError.no_error ↦ admit (ping_content decoded.ping_id)
      | _ ↦ refuse Counter.drop_type_length
    ]

unfoldable pub check_pong : RxPacket → ℕ → Session → Gate Content × Session
check_pong p now s =
    let decoded = decode_ping p.payload in
    let s1 = expire_pings now s in
    elim decoded.error [
      | PacketError.no_error ↦ (
        if has_ping decoded.ping_id s1.pending_pings
            then admit (ping_content decoded.ping_id)
            else refuse Counter.drop_unmatched_pong,
        s1,
      )
      | _ ↦ (refuse Counter.drop_type_length, s)
    ]

unfoldable pub check_close : RxPacket → Gate Content
check_close p =
    let decoded = decode_close p.payload in
    elim decoded.error [
      | PacketError.no_error ↦
          admit (record { ping_id = 0; close_reason = some decoded.reason; roster = none })
      | e ↦ refuse (value_or (packet_counter e) Counter.drop_bad_reason)
    ]

unfoldable pub check_roster : RxPacket → Session → Gate Content
check_roster p s =
    let decoded =
      decode_roster p.payload
        (record { sender_is_host = s.config.peer_is_host; last_generation = s.last_generation }) in
    elim decoded.error [
      | PacketError.no_error ↦
          admit (record { ping_id = 0; close_reason = none; roster = some decoded.value })
      | e ↦ refuse (value_or (packet_counter e) Counter.drop_type_length)
    ]

unfoldable pub check_content : RxPacket → ℕ → Session → Gate Content × Session
check_content p now s = elim (packet_type p) [
  | PacketType.inner_data ↦ (check_data p s, s)
  | PacketType.ping ↦ (check_ping p, s)
  | PacketType.pong ↦ check_pong p now s
  | PacketType.close ↦ (check_close p, s)
  | PacketType.roster ↦ (check_roster p s, s)
  | _ ↦ (admit no_content, s)
]
