-- ===== src/Peer/Session/Budget.antt =====
-- The budget of the datagrams to endpoints that are not verified (`spend_for`).
use sangtachi.Prelude.{
  ℕ, ◌+◌, ◌-◌, ◌*◌, ◌≤◌, ◌≡◌, suc, Bool, true, false, List, [], ◌∷◌, length, ap, refl, ◌++◌, none,
  some, sym, subst, Option-cases, if◌then◌else◌, All, arith, inl, inr, Bool-cases,
}
use sangtachi.Protocol.{unverified_tx_refill}
use sangtachi.Network.Endpoint.{Endpoint}
use sangtachi.Peer.Epoch.{Nonce, generate_probe_nonce}
use sangtachi.Tunnel.Packet.{PacketType, encode_ping}
use sangtachi.Peer.Session.State.{
  SessionIo, Sent, Session, budget_cost, budget_capacity, is_candidate, is_verified,
}
use sangtachi.Peer.Session.Sending.{
  send_packet, hand_out, refill, spend_for, send_hello_ack, after_ack, own_hello, expire_probes,
  start_path_probe, probe_path, probe_new_path, register_probe, nonce_drawn,
}
use sangtachi.Peer.Session.Admit.{RxPacket}
use sangtachi.Peer.Session.Receive.{answer_ping}

-- A refill gives at most its rate for the time that passed.
refill-le :
    (now until : ℕ) (s : Session)
    → now ≤ until
    → s.budget_at ≤ until
    → s.budget_milli ≤ budget_capacity
    → ((refill now s).budget_milli + unverified_tx_refill * (until - (refill now s).budget_at)
        ≤ s.budget_milli + unverified_tx_refill * (until - s.budget_at))
      × ((refill now s).budget_at ≤ until)
      × ((refill now s).budget_milli ≤ budget_capacity)
unfolding refill
refill-le now until s h k b = ground arith

-- What a session sends to an endpoint because a packet came from there: a HELLO_ACK, the HELLO that
-- probes the path, or a PONG, each at a time.
pub data Reply : Type 0 where
  ack_reply : Nonce → Endpoint → ℕ → Reply
  probe_reply : Endpoint → ℕ → Reply
  pong_reply : RxPacket → ℕ → ℕ → Reply

abbrev pub reply_to : Reply → Endpoint
reply_to (ack_reply echo to now) = to
reply_to (probe_reply to now) = to
reply_to (pong_reply p ping_id now) = p.from

abbrev pub reply_time : Reply → ℕ
reply_time (ack_reply echo to now) = now
reply_time (probe_reply to now) = now
reply_time (pong_reply p ping_id now) = now

abbrev pub send_reply : SessionIo → Reply → Session → Session
send_reply io (ack_reply echo to now) s = send_hello_ack io echo to now s
send_reply io (probe_reply to now) s = start_path_probe io to now s
send_reply io (pong_reply p ping_id now) s = answer_ping io p ping_id now s

-- The datagrams that the replies hand to the socket while their endpoint is not verified.
abbrev pub unverified_sent : SessionIo → List Reply → Session → ℕ
unverified_sent io [] s = 0
unverified_sent io (r ∷ rs) s =
    let t = send_reply io r s in
    let rest = unverified_sent io rs t in
    if is_verified s (reply_to r) then rest else (length t.sent - length s.sent) + rest

-- The budget of `t`, with what flows in until then and `n` datagrams, is covered by that of `s`.
abbrev IsPaid : ℕ → ℕ → Session → Session → Type 0
IsPaid until n s t =
    (budget_cost * n + (t.budget_milli + unverified_tx_refill * (until - t.budget_at))
      ≤ s.budget_milli + unverified_tx_refill * (until - s.budget_at))
    × (t.budget_at ≤ until)
    × (t.budget_milli ≤ budget_capacity)

abbrev IsCovered : ℕ → Session → Type 0
IsCovered until s = (s.budget_at ≤ until) × (s.budget_milli ≤ budget_capacity)

module _ (io : SessionIo) (until : ℕ) where
  send_packet-budget :
      (type : PacketType) (payload : List ℕ) (to : Endpoint) (s : Session)
      → let t = (send_packet io type payload to s).1 in
        (length t.sent ≤ suc (length s.sent))
        × (t.budget_milli ≡ s.budget_milli)
        × (t.budget_at ≡ s.budget_at)
  unfolding send_packet hand_out
  send_packet-budget type payload to s = ground arith

  refill-sent : (now : ℕ) (s : Session) → (refill now s).sent ≡ s.sent
  unfolding refill
  refill-sent now s = ground arith

  spend_for-IsPaid :
      (to : Endpoint) (now : ℕ) (s : Session)
      → now ≤ until
      → IsCovered until s
      → let r = spend_for to now s in
        IsPaid until (if is_verified s to then 0 else if r.0 then 1 else 0) s r.1
        × (r.1.sent ≡ s.sent)
  unfolding spend_for
  spend_for-IsPaid to now s h c =
      let filled = refill-le now until s h c.0 c.1 in ground (arith, filled, refill-sent now s)

  -- Whoever pays first, and hands out at most one datagram if that is granted.
  granted_send-IsPaid :
      (to : Endpoint) (now : ℕ) (s t : Session)
      → now ≤ until
      → IsCovered until s
      → length t.sent
        ≤ length (spend_for to now s).1.sent + (if (spend_for to now s).0 then 1 else 0)
      → t.budget_milli ≡ (spend_for to now s).1.budget_milli
      → t.budget_at ≡ (spend_for to now s).1.budget_at
      → IsPaid until (if is_verified s to then 0 else length t.sent - length s.sent) s t
  granted_send-IsPaid to now s t h c l m a =
      let paid = spend_for-IsPaid to now s h c in
      let same : length (spend_for to now s).1.sent ≡ length s.sent =
        ap (λ (x : List Sent). length x) paid.1 in
      ground (arith, paid.0, l, m, a, same)

  after_ack-budget :
      (r : Bool × Session)
      → ((after_ack r).sent ≡ r.1.sent)
        × ((after_ack r).budget_milli ≡ r.1.budget_milli)
        × ((after_ack r).budget_at ≡ r.1.budget_at)
  after_ack-budget (true, s) = (refl, refl, refl)
  after_ack-budget (false, s) = (refl, refl, refl)

  ack-IsPaid :
      (echo : Nonce) (to : Endpoint) (now : ℕ) (s : Session)
      → now ≤ until
      → IsCovered until s
      → let t = send_hello_ack io echo to now s in
        IsPaid until (if is_verified s to then 0 else length t.sent - length s.sent) s t
  unfolding send_hello_ack
  ack-IsPaid echo to now s h c =
      let paid = spend_for to now s in
      let r = send_packet io PacketType.hello_ack (own_hello paid.1 echo) to paid.1 in
      let out = send_packet-budget PacketType.hello_ack (own_hello paid.1 echo) to paid.1 in
      let after = after_ack-budget r in
      let len : length (after_ack r).sent ≡ length r.1.sent =
        ap (λ (x : List Sent). length x) after.0 in
      granted_send-IsPaid to now s (send_hello_ack io echo to now s) h c (ground (arith, out, len))
        (ground (arith, out, after)) (ground (arith, out, after))

  pong-IsPaid :
      (p : RxPacket) (ping_id now : ℕ) (s : Session)
      → now ≤ until
      → IsCovered until s
      → let t = answer_ping io p ping_id now s in
        IsPaid until (if is_verified s p.from then 0 else length t.sent - length s.sent) s t
  unfolding answer_ping
  pong-IsPaid p ping_id now s h c =
      let paid = spend_for p.from now s in
      let out = send_packet-budget PacketType.pong (encode_ping ping_id) p.from paid.1 in
      granted_send-IsPaid p.from now s (answer_ping io p ping_id now s) h c (ground (arith, out))
        (ground (arith, out)) (ground (arith, out))

  -- The HELLO of a path that is registered; `s` is the session before the draw.
  probe_new_path-IsPaid :
      (to : Endpoint) (now : ℕ) (s : Session)
      → now ≤ until
      → IsCovered until s
      → let t = probe_new_path io to now s in
        IsPaid until (if is_verified s to then 0 else length t.sent - length s.sent) s t
  unfolding probe_new_path register_probe is_verified is_candidate
  probe_new_path-IsPaid to now s h c =
      let s1 = record s { draws = s.draws + 1 } in
      let paid = spend_for to now s1 in
      let probed : Nonce → Session =
        λ nonce. if paid.0 then register_probe io to now nonce paid.1 else paid.1 in
      let IsDone = λ (t : Session).
        IsPaid until (if is_verified s to then 0 else length t.sent - length s.sent) s t in
      elim (Option-cases (nonce_drawn (generate_probe_nonce (io.random s.draws ∷ [])))) [
        | inl e ↦
            subst (λ o. IsDone (elim o [ none ↦ s1 | some nonce ↦ probed nonce ])) (sym e)
              (ground (arith, c))
        | inr (nonce, e) ↦
            let s2 = record paid.1 {
              probes =
                  paid.1.probes
                  ++ (record { to = to; nonce = nonce; registered = now; answered = false } ∷ []);
            } in
            let out = send_packet-budget PacketType.hello (own_hello paid.1 nonce) to s2 in
            subst (λ o. IsDone (elim o [ none ↦ s1 | some nonce ↦ probed nonce ])) (sym e)
              (granted_send-IsPaid to now s1 (probed nonce) h c (ground (arith, out))
                (ground (arith, out)) (ground (arith, out)))
      ]

  probe-IsPaid :
      (to : Endpoint) (now : ℕ) (s : Session)
      → now ≤ until
      → IsCovered until s
      → let t = start_path_probe io to now s in
        IsPaid until (if is_verified s to then 0 else length t.sent - length s.sent) s t
  unfolding start_path_probe probe_path expire_probes is_verified is_candidate
  probe-IsPaid to now s h c =
      ground (arith, c, probe_new_path-IsPaid to now (expire_probes now s) h c)

  reply-IsPaid :
      (r : Reply) (s : Session)
      → reply_time r ≤ until
      → IsCovered until s
      → let t = send_reply io r s in
        IsPaid until (if is_verified s (reply_to r) then 0 else length t.sent - length s.sent) s t
  reply-IsPaid (ack_reply echo to now) s h c = ack-IsPaid echo to now s h c
  reply-IsPaid (probe_reply to now) s h c = probe-IsPaid to now s h c
  reply-IsPaid (pong_reply p ping_id now) s h c = pong-IsPaid p ping_id now s h c

  -- The datagrams that a session sends in answer to endpoints that are not verified (HELLO_ACKs, the
  -- HELLOs that probe a path, and PONGs), up to a time `until`, cost no more than what the budget holds
  -- at the start and what flows in until then: 5 milli-tokens a millisecond, 1000 for one datagram.
  -- The answers may come in any order of their times, and between verified ones.
  pub unverified_sent-le :
      (rs : List Reply) (s : Session)
      → All (λ r. reply_time r ≤ until) rs
      → s.budget_at ≤ until
      → s.budget_milli ≤ budget_capacity
      → budget_cost * unverified_sent io rs s
        ≤ s.budget_milli + unverified_tx_refill * (until - s.budget_at)
  unverified_sent-le [] s h k b = omega arith
  unverified_sent-le (r ∷ rs) s h k b =
      let paid = reply-IsPaid r s h.0 (k, b) in
      let t = send_reply io r s in
      let rest = unverified_sent-le rs t h.1 paid.1 paid.2 in
      elim (Bool-cases (is_verified s (reply_to r))) [
        | inl v ↦ ground (arith, v, paid.0, rest)
        | inr v ↦ ground (arith, v, paid.0, rest)
      ]
