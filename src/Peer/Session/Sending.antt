-- ===== src/Peer/Session/Sending.antt =====
-- What a session sends: datagrams, the budget of those to unverified endpoints, the verification
-- of paths, and the rounds to the candidates. `sent` and the other logs have the latest first.
use sangtachi.Prelude.{
  ℕ, ◌+◌, ◌-◌, ◌*◌, min, Bool, true, false, not, ◌&&◌, Option, none, some, List, [], ◌∷◌, ◌++◌, ltb,
  leb, ◌==◌, if◌then◌else◌, any, length, replicate, take, erase_if,
}
use sangtachi.Prelude.Bits.{u32, u64}
use sangtachi.Protocol.{
  max_datagram, unverified_tx_refill, max_probe_paths, probe_ttl_ms, pending_ping_ttl_ms,
  max_pending_pings, ping_interval_ms, keepalive_interval_ms,
}
use sangtachi.Counters.{Counter, Counters, increment}
use sangtachi.Network.Endpoint.{Endpoint, endpoint_eq}
use sangtachi.Peer.Epoch.{Nonce, Drawn, value, failed, starved, generate_probe_nonce}
use sangtachi.Tunnel.Packet.{PacketType, HeaderFields, build_packet, encode_hello, encode_ping}
use sangtachi.Peer.Session.State.{
  SessionIo, PendingPing, ProbePath, Deadline, Session, budget_cost, budget_capacity, is_verified,
  count,
}

-- The buffer that a datagram is built in.
unfoldable pub blank_buffer : List ℕ
blank_buffer = replicate max_datagram 0

abbrev pub header_fields : Session → HeaderFields
header_fields s = record {
  peer_id = s.config.local_peer_id;
  session_epoch = s.config.local_epoch;
  sequence = s.next_seq;
}

abbrev pub took_seq : Session → Session
took_seq s = record s { next_seq = u32 (s.next_seq + 1) }

-- The call of `send` with the first `n` bytes of the buffer.
unfoldable pub hand_out : SessionIo → Endpoint → ℕ → List ℕ → Session → Bool × Session
hand_out io to n buffer s =
    let s1 = record s { sent = record { to = to; datagram = take n buffer } ∷ s.sent } in
    if not (io.send_succeeds (length s.sent))
    then (false, count Counter.tx_err_send s1)
    else (true, s1)

unfoldable pub send_packet : SessionIo → PacketType → List ℕ → Endpoint → Session → Bool × Session
send_packet io type payload to s =
    let built = build_packet type (header_fields s) payload blank_buffer in
    if built.0 == 0 then (false, took_seq s) else hand_out io to built.0 built.1 (took_seq s)

-- The refill of the budget since `budget_at`.
unfoldable pub refill : ℕ → Session → Session
refill now s =
    let room = u64 (budget_capacity + 0x1_0000_0000_0000_0000 - s.budget_milli) in
    let elapsed = min (now - s.budget_at) room in
    if ltb s.budget_at now
    then record s {
      budget_milli = u64 (s.budget_milli + min room (u64 (elapsed * unverified_tx_refill)));
      budget_at = now;
    }
    else s

abbrev pub pay : Session → Bool × Session
pay s =
    if ltb s.budget_milli budget_cost
    then (false, count Counter.drop_unverified_tx s)
    else (true, record s { budget_milli = s.budget_milli - budget_cost })

unfoldable pub spend_for : Endpoint → ℕ → Session → Bool × Session
spend_for to now s = if is_verified s to then (true, s) else pay (refill now s)

abbrev pub probe_due : ℕ → ProbePath → Bool
probe_due now p = leb (u64 (p.registered + probe_ttl_ms)) now

abbrev pub count_failed_probes : ℕ → List ProbePath → Counters → Counters
count_failed_probes now [] t = t
count_failed_probes now (p ∷ ps) t =
    count_failed_probes now ps
      (if probe_due now p && not p.answered then increment Counter.path_probe_failed t else t)

unfoldable pub expire_probes : ℕ → Session → Session
expire_probes now s = record s {
  counters = count_failed_probes now s.probes s.counters;
  probes = erase_if (probe_due now) s.probes;
}

abbrev pub nonce_drawn : Drawn Nonce → Option Nonce
nonce_drawn (value nonce _) = some nonce
nonce_drawn (failed _) = none
nonce_drawn starved = none

abbrev pub own_hello : Session → Nonce → List ℕ
own_hello s nonce = encode_hello (record { nonce = nonce; virtual_ip = s.config.local_virtual_ip })

-- The registration of a path once it is paid for, and its HELLO.
unfoldable pub register_probe : SessionIo → Endpoint → ℕ → Nonce → Session → Session
register_probe io from now nonce s =
    let p : ProbePath = record { to = from; nonce = nonce; registered = now; answered = false } in
    (send_packet io PacketType.hello (own_hello s nonce) from
      (record s { probes = s.probes ++ (p ∷ []) })).1

unfoldable pub probe_new_path : SessionIo → Endpoint → ℕ → Session → Session
probe_new_path io from now s =
    let s1 = record s { draws = s.draws + 1 } in
    elim (nonce_drawn (generate_probe_nonce (io.random s.draws ∷ []))) [
      | none ↦ s1
      | some nonce ↦
          if (spend_for from now s1).0
          then register_probe io from now nonce (spend_for from now s1).1
          else (spend_for from now s1).1
    ]

-- `start_path_probe` behind `expire_probes`.
unfoldable pub probe_path : SessionIo → Endpoint → ℕ → Session → Session
probe_path io from now s =
    if any (λ (p : ProbePath). endpoint_eq p.to from) s.probes
    then s
    else if leb max_probe_paths (length s.probes)
    then count Counter.drop_probe_full s
    else probe_new_path io from now s

unfoldable pub start_path_probe : SessionIo → Endpoint → ℕ → Session → Session
start_path_probe io from now s = probe_path io from now (expire_probes now s)

-- The datagram to each of the endpoints, the results ignored.
unfoldable pub send_to_all : SessionIo → PacketType → List ℕ → List Endpoint → Session → Session
send_to_all io type payload [] s = s
send_to_all io type payload (c ∷ cs) s =
    send_to_all io type payload cs (send_packet io type payload c s).1

unfoldable pub send_to_peer : SessionIo → PacketType → List ℕ → Session → Session
send_to_peer io type payload s = elim s.peer_endpoint [
  | some endpoint ↦ (send_packet io type payload endpoint s).1
  | none ↦ send_to_all io type payload s.config.candidates s
]

-- `send_roster`; it does not look at the state.
unfoldable pub send_roster : SessionIo → List ℕ → Session → Session
send_roster io payload s = send_to_peer io PacketType.roster payload s

unfoldable pub send_data_to : SessionIo → List ℕ → List Endpoint → Session → Bool × Session
send_data_to io inner [] s = (true, s)
send_data_to io inner (c ∷ cs) s =
    let r = send_packet io PacketType.inner_data inner c s in
    let rest = send_data_to io inner cs r.1 in if not r.0 then (false, r.1) else rest

unfoldable pub send_data : SessionIo → List ℕ → Session → Bool × Session
send_data io inner s = elim s.peer_endpoint [
  | some endpoint ↦ send_packet io PacketType.inner_data inner endpoint s
  | none ↦ send_data_to io inner s.config.candidates s
]

unfoldable pub send_hello_round : SessionIo → Session → Session
send_hello_round io s =
    send_to_all io PacketType.hello (own_hello s s.config.attempt_nonce) s.config.candidates s

abbrev pub after_ack : Bool × Session → Session
after_ack (true, s) = record s { sent_ack = true }
after_ack (false, s) = count Counter.tx_err_ack s

unfoldable pub send_hello_ack : SessionIo → Nonce → Endpoint → ℕ → Session → Session
send_hello_ack io echo to now s =
    let paid = spend_for to now s in
    if not paid.0
    then paid.1
    else after_ack (send_packet io PacketType.hello_ack (own_hello paid.1 echo) to paid.1)

abbrev pub arm : ℕ → ℕ → Deadline
arm now interval = record { due = some (u64 (now + interval)); since = now }

-- `due.reset()`.
abbrev pub disarm : Deadline → Deadline
disarm d = record { due = none; since = d.since }

unfoldable pub send_keepalive : SessionIo → ℕ → Session → Session
send_keepalive io now s =
    let s1 = send_to_peer io PacketType.keepalive [] s in
    record s1 { keepalive = arm now keepalive_interval_ms }

unfoldable pub expire_pings : ℕ → Session → Session
expire_pings now s = record s {
  pending_pings =
      erase_if (λ (p : PendingPing). leb (u64 (p.sent_ms + pending_ping_ttl_ms)) now)
        s.pending_pings;
}

-- `pending_pings_[id] = ping`.
abbrev pub put_ping : PendingPing → List PendingPing → List PendingPing
put_ping ping [] = ping ∷ []
put_ping ping (p ∷ ps) = if p.ping_id == ping.ping_id then ping ∷ ps else p ∷ put_ping ping ps

-- The reading of the RTT clock, 0 without one.
abbrev pub clock_reading : SessionIo → Session → ℕ
clock_reading io s = elim io.rtt_clock_us [ none ↦ 0 | some clock ↦ clock s.clock_reads ]

unfoldable pub note_ping : SessionIo → ℕ → Session → Session
note_ping io now s = record s {
  next_ping_id = u64 (s.next_ping_id + 1);
  pending_pings =
      put_ping (record { ping_id = s.next_ping_id; sent_ms = now; sent_us = clock_reading io s })
        s.pending_pings;
  clock_reads = s.clock_reads + 1;
}

unfoldable pub send_ping : SessionIo → ℕ → Session → Session
send_ping io now s =
    let s1 = expire_pings now (record s { ping = arm now ping_interval_ms }) in
    if leb max_pending_pings (length s1.pending_pings)
    then s1
    else send_to_peer io PacketType.ping (encode_ping s1.next_ping_id) (note_ping io now s1)
