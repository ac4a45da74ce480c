-- ===== src/Peer/Session/Bounds.antt =====
-- What holds of every session that has not ended, and that sending keeps it.
use sangtachi.Prelude.{
  ℕ, ◌+◌, ◌≤◌, ◌≡◌, inl, inr, Bool, true, false, not, ◌||◌, Option, none, some, List, [], ◌∷◌, ◌++◌,
  leb, length, length-append, length-erase_if-le, arith, Bool-cases, Option-cases,
}
use sangtachi.Prelude.Bits.{u64}
use sangtachi.Protocol.{
  max_probe_paths, max_pending_pings, max_renegotiations, pending_ping_ttl_ms, ping_interval_ms,
}
use sangtachi.Network.Endpoint.{Endpoint}
use sangtachi.Peer.Epoch.{Nonce, generate_probe_nonce}
use sangtachi.Tunnel.Packet.{PacketType, build_packet, encode_ping}
use sangtachi.Peer.Session.State.{SessionIo, PendingPing, ProbePath, Session, budget_capacity}
use sangtachi.Peer.Session.Sending.{
  hand_out, send_packet, refill, spend_for, expire_probes, nonce_drawn, register_probe,
  probe_new_path, probe_path, start_path_probe, send_to_all, send_to_peer, send_hello_round,
  send_hello_ack, after_ack, send_keepalive, expire_pings, put_ping, note_ping, send_ping,
  probe_due, clock_reading, arm, own_hello, took_seq, header_fields, blank_buffer,
}

abbrev pub is_some {ℓ} : {A : Type ℓ} → Option A → Bool
is_some none = false
is_some (some _) = true

-- A flag of the handshake is set only under a pinned epoch.
abbrev pub epoch_known : Bool → Bool → Option ℕ → Bool
epoch_known got_ack sent_ack pinned = not (got_ack || sent_ack) || is_some pinned

-- A session that has not ended: its budget, its provisional paths, its pending pings and its
-- renegotiations are within their limits, and a flag is set only under a pinned epoch.
abbrev pub IsLive : Session → Type 0
IsLive s =
    (s.terminal ≡ none)
    × (s.terminal_since ≡ none)
    × (s.budget_milli ≤ budget_capacity)
    × (length s.probes ≤ max_probe_paths)
    × (length s.pending_pings ≤ max_pending_pings)
    × (s.renegotiations ≤ max_renegotiations)
    × (epoch_known s.got_ack s.sent_ack s.pinned ≡ true)

module _ (io : SessionIo) where
  pub hand_out-IsLive :
      (to : Endpoint) (n : ℕ) (buffer : List ℕ) (s : Session)
      → IsLive s
      → IsLive (hand_out io to n buffer s).1
  unfolding hand_out
  hand_out-IsLive to n buffer s h = elim (Bool-cases (io.send_succeeds (length s.sent))) [
    | inl e ↦ ground arith
    | inr e ↦ ground arith
  ]

  pub send_packet-IsLive :
      (type : PacketType) (payload : List ℕ) (to : Endpoint) (s : Session)
      → IsLive s
      → IsLive (send_packet io type payload to s).1
  unfolding send_packet
  send_packet-IsLive type payload to s h =
      let built = build_packet type (header_fields s) payload blank_buffer in
      ground (arith, hand_out-IsLive to built.0 built.1 (took_seq s) h)

pub refill-IsLive : (now : ℕ) (s : Session) → IsLive s → IsLive (refill now s)
unfolding refill
refill-IsLive now s h = ground arith

pub spend_for-IsLive :
    (to : Endpoint) (now : ℕ) (s : Session) → IsLive s → IsLive (spend_for to now s).1
unfolding spend_for
spend_for-IsLive to now s h = ground (arith, refill-IsLive now s)

pub expire_probes-IsLive : (now : ℕ) (s : Session) → IsLive s → IsLive (expire_probes now s)
unfolding expire_probes
expire_probes-IsLive now s h = ground (arith, length-erase_if-le (probe_due now) s.probes)

pub expire_pings-IsLive : (now : ℕ) (s : Session) → IsLive s → IsLive (expire_pings now s)
unfolding expire_pings
expire_pings-IsLive now s h = ground (
  arith,
  length-erase_if-le (λ (p : PendingPing). leb (u64 (p.sent_ms + pending_ping_ttl_ms)) now)
      s.pending_pings,
)

length-put_ping-le :
    (ping : PendingPing) (ps : List PendingPing) → length (put_ping ping ps) ≤ length ps + 1
length-put_ping-le ping [] = omega arith
length-put_ping-le ping (p ∷ ps) = ground (arith, length-put_ping-le ping ps)

module _ (io : SessionIo) where
  pub register_probe-IsLive :
      (from : Endpoint) (now : ℕ) (nonce : Nonce) (s : Session)
      → length s.probes + 1 ≤ max_probe_paths
      → IsLive s
      → IsLive (register_probe io from now nonce s)
  unfolding register_probe
  register_probe-IsLive from now nonce s room h =
      let p : ProbePath = record { to = from; nonce = nonce; registered = now; answered = false } in
      send_packet-IsLive io PacketType.hello (own_hello s nonce) from
        (record s { probes = s.probes ++ (p ∷ []) })
        (ground (arith, length-append s.probes (p ∷ [])))

  -- Paying leaves the provisional paths as they are.
  spend_for-probes :
      (to : Endpoint) (now : ℕ) (s : Session) → (spend_for to now s).1.probes ≡ s.probes
  unfolding spend_for refill
  spend_for-probes to now s = ground arith

  probe_new_path-IsLive :
      (from : Endpoint) (now : ℕ) (s : Session)
      → length s.probes + 1 ≤ max_probe_paths
      → IsLive s
      → IsLive (probe_new_path io from now s)
  unfolding probe_new_path
  probe_new_path-IsLive from now s room h =
      let s1 = record s { draws = s.draws + 1 } in
      let live = spend_for-IsLive from now s1 h in
      let s2 = (spend_for from now s1).1 in
      elim (Option-cases (nonce_drawn (generate_probe_nonce (io.random s.draws ∷ [])))) [
        | inl e ↦ ground arith
        | inr (nonce, e) ↦
            ground
              (arith, live, spend_for-probes from now s1, register_probe-IsLive from now nonce s2)
      ]

  pub probe_path-IsLive :
      (from : Endpoint) (now : ℕ) (s : Session) → IsLive s → IsLive (probe_path io from now s)
  unfolding probe_path
  probe_path-IsLive from now s h = ground (arith, probe_new_path-IsLive from now s)

  pub start_path_probe-IsLive :
      (from : Endpoint) (now : ℕ) (s : Session) → IsLive s → IsLive (start_path_probe io from now s)
  unfolding start_path_probe
  start_path_probe-IsLive from now s h =
      probe_path-IsLive from now (expire_probes now s) (expire_probes-IsLive now s h)

  pub send_to_all-IsLive :
      (type : PacketType) (payload : List ℕ) (cs : List Endpoint) (s : Session)
      → IsLive s
      → IsLive (send_to_all io type payload cs s)
  unfolding send_to_all
  send_to_all-IsLive type payload [] s h = h
  send_to_all-IsLive type payload (c ∷ cs) s h =
      send_to_all-IsLive type payload cs (send_packet io type payload c s).1
        (send_packet-IsLive io type payload c s h)

  pub send_to_peer-IsLive :
      (type : PacketType) (payload : List ℕ) (s : Session)
      → IsLive s
      → IsLive (send_to_peer io type payload s)
  unfolding send_to_peer
  send_to_peer-IsLive type payload s h = elim (Option-cases s.peer_endpoint) [
    | inl e ↦ ground (arith, send_to_all-IsLive type payload s.config.candidates s h)
    | inr (endpoint, e) ↦ ground (arith, send_packet-IsLive io type payload endpoint s h)
  ]

  pub send_hello_round-IsLive : (s : Session) → IsLive s → IsLive (send_hello_round io s)
  unfolding send_hello_round
  send_hello_round-IsLive s h =
      send_to_all-IsLive PacketType.hello (own_hello s s.config.attempt_nonce) s.config.candidates s
        h

  pub send_keepalive-IsLive : (now : ℕ) (s : Session) → IsLive s → IsLive (send_keepalive io now s)
  unfolding send_keepalive
  send_keepalive-IsLive now s h = send_to_peer-IsLive PacketType.keepalive [] s h

  pub send_ping-IsLive : (now : ℕ) (s : Session) → IsLive s → IsLive (send_ping io now s)
  unfolding send_ping note_ping
  send_ping-IsLive now s h =
      let s1 = expire_pings now (record s { ping = arm now ping_interval_ms }) in
      let live = expire_pings-IsLive now (record s { ping = arm now ping_interval_ms }) h in
      ground (
        arith,
        live,
        length-put_ping-le
            (record { ping_id = s1.next_ping_id; sent_ms = now; sent_us = clock_reading io s1 })
            s1.pending_pings,
        send_to_peer-IsLive PacketType.ping (encode_ping s1.next_ping_id) (note_ping io now s1),
      )

  after_ack-IsLive :
      (r : Bool × Session) → is_some r.1.pinned ≡ true → IsLive r.1 → IsLive (after_ack r)
  after_ack-IsLive (true, s) p h = ground arith
  after_ack-IsLive (false, s) p h = h

  pub send_packet-pinned :
      (type : PacketType) (payload : List ℕ) (to : Endpoint) (s : Session)
      → (send_packet io type payload to s).1.pinned ≡ s.pinned
  unfolding send_packet hand_out
  send_packet-pinned type payload to s = ground arith

  spend_for-pinned :
      (to : Endpoint) (now : ℕ) (s : Session) → (spend_for to now s).1.pinned ≡ s.pinned
  unfolding spend_for refill
  spend_for-pinned to now s = ground arith

  pub send_hello_ack-IsLive :
      (echo : Nonce) (to : Endpoint) (now : ℕ) (s : Session)
      → is_some s.pinned ≡ true
      → IsLive s
      → IsLive (send_hello_ack io echo to now s)
  unfolding send_hello_ack
  send_hello_ack-IsLive echo to now s p h =
      let paid = (spend_for to now s).1 in
      let live = spend_for-IsLive to now s h in
      let payload = own_hello paid echo in
      ground (
        arith,
        live,
        spend_for-pinned to now s,
        send_packet-pinned PacketType.hello_ack payload to paid,
        send_packet-IsLive io PacketType.hello_ack payload to paid live,
        after_ack-IsLive (send_packet io PacketType.hello_ack payload to paid),
      )
