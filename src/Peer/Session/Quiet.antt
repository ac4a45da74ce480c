-- ===== src/Peer/Session/Quiet.antt =====
-- Sending leaves the flags of the handshake and the logs of deliveries and
-- transitions as they are.
use sangtachi.Prelude.{
  ℕ, ◌+◌, ◌≡◌, refl, inl, inr, Bool, true, false, List, [], ◌∷◌, ◌++◌, arith, Option-cases,
}
use sangtachi.Network.Endpoint.{Endpoint}
use sangtachi.Protocol.{ping_interval_ms}
use sangtachi.Peer.Epoch.{Nonce, generate_probe_nonce}
use sangtachi.Tunnel.Packet.{PacketType, CloseReason, encode_close, encode_ping}
use sangtachi.Peer.Session.State.{SessionIo, ProbePath, Session}
use sangtachi.Peer.Session.Sending.{
  hand_out, send_packet, refill, spend_for, expire_probes, nonce_drawn, register_probe,
  probe_new_path, probe_path, start_path_probe, send_to_all, send_to_peer, send_hello_round,
  send_hello_ack, after_ack, send_keepalive, expire_pings, note_ping, send_ping, own_hello,
  send_data_to, send_data, arm,
}
use sangtachi.Peer.Session.Lifecycle.{send_close}

-- What nothing that only sends changes.
abbrev pub Quiet : Session → Session → Type 0
Quiet t s =
    (t.terminal ≡ s.terminal)
    × (t.got_ack ≡ s.got_ack)
    × (t.sent_ack ≡ s.sent_ack)
    × (t.transitions ≡ s.transitions)
    × (t.delivered ≡ s.delivered)

-- The same, but for the flag that a HELLO_ACK sets.
abbrev pub QuietButAck : Session → Session → Type 0
QuietButAck t s =
    (t.terminal ≡ s.terminal)
    × (t.got_ack ≡ s.got_ack)
    × (t.transitions ≡ s.transitions)
    × (t.delivered ≡ s.delivered)

pub spend_for-Quiet : (to : Endpoint) (now : ℕ) (s : Session) → Quiet (spend_for to now s).1 s
unfolding spend_for refill
spend_for-Quiet to now s = ground arith

module _ (io : SessionIo) where
  pub send_packet-Quiet :
      (type : PacketType) (payload : List ℕ) (to : Endpoint) (s : Session)
      → Quiet (send_packet io type payload to s).1 s
  unfolding send_packet hand_out
  send_packet-Quiet type payload to s = ground arith

  register_probe-Quiet :
      (from : Endpoint) (now : ℕ) (nonce : Nonce) (s : Session)
      → Quiet (register_probe io from now nonce s) s
  unfolding register_probe
  register_probe-Quiet from now nonce s =
      let p : ProbePath = record { to = from; nonce = nonce; registered = now; answered = false } in
      send_packet-Quiet PacketType.hello (own_hello s nonce) from
        (record s { probes = s.probes ++ (p ∷ []) })

  probe_new_path-Quiet :
      (from : Endpoint) (now : ℕ) (s : Session) → Quiet (probe_new_path io from now s) s
  unfolding probe_new_path
  probe_new_path-Quiet from now s =
      let s1 = record s { draws = s.draws + 1 } in
      let s2 = (spend_for from now s1).1 in
      elim (Option-cases (nonce_drawn (generate_probe_nonce (io.random s.draws ∷ [])))) [
        | inl e ↦ ground arith
        | inr (nonce, e) ↦
            ground (arith, spend_for-Quiet from now s1, register_probe-Quiet from now nonce s2)
      ]

  pub start_path_probe-Quiet :
      (from : Endpoint) (now : ℕ) (s : Session) → Quiet (start_path_probe io from now s) s
  unfolding start_path_probe probe_path expire_probes
  start_path_probe-Quiet from now s =
      ground (arith, probe_new_path-Quiet from now (expire_probes now s))

  send_to_all-Quiet :
      (type : PacketType) (payload : List ℕ) (cs : List Endpoint) (s : Session)
      → Quiet (send_to_all io type payload cs s) s
  unfolding send_to_all
  send_to_all-Quiet type payload [] s = (refl, refl, refl, refl, refl)
  send_to_all-Quiet type payload (c ∷ cs) s = ground (
    arith,
    send_packet-Quiet type payload c s,
    send_to_all-Quiet type payload cs (send_packet io type payload c s).1,
  )

  pub send_to_peer-Quiet :
      (type : PacketType) (payload : List ℕ) (s : Session)
      → Quiet (send_to_peer io type payload s) s
  unfolding send_to_peer
  send_to_peer-Quiet type payload s = elim (Option-cases s.peer_endpoint) [
    | inl e ↦ ground (arith, send_to_all-Quiet type payload s.config.candidates s)
    | inr (endpoint, e) ↦ ground (arith, send_packet-Quiet type payload endpoint s)
  ]

  pub send_hello_round-Quiet : (s : Session) → Quiet (send_hello_round io s) s
  unfolding send_hello_round
  send_hello_round-Quiet s =
      send_to_all-Quiet PacketType.hello (own_hello s s.config.attempt_nonce) s.config.candidates s

  pub send_keepalive-Quiet : (now : ℕ) (s : Session) → Quiet (send_keepalive io now s) s
  unfolding send_keepalive
  send_keepalive-Quiet now s = send_to_peer-Quiet PacketType.keepalive [] s

  pub send_close-Quiet : (reason : CloseReason) (s : Session) → Quiet (send_close io reason s) s
  unfolding send_close
  send_close-Quiet reason s = elim (Option-cases s.peer_endpoint) [
    | inl e ↦ ground arith
    | inr (endpoint, e) ↦
        ground (arith, send_packet-Quiet PacketType.close (encode_close reason) endpoint s)
  ]

  pub send_ping-Quiet : (now : ℕ) (s : Session) → Quiet (send_ping io now s) s
  unfolding send_ping note_ping expire_pings
  send_ping-Quiet now s =
      let s1 = expire_pings now (record s { ping = arm now ping_interval_ms }) in
      ground (
        arith,
        send_to_peer-Quiet PacketType.ping (encode_ping s1.next_ping_id) (note_ping io now s1),
      )

  after_ack-QuietButAck : (r : Bool × Session) → QuietButAck (after_ack r) r.1
  after_ack-QuietButAck (true, s) = (refl, refl, refl, refl)
  after_ack-QuietButAck (false, s) = (refl, refl, refl, refl)

  pub send_hello_ack-QuietButAck :
      (echo : Nonce) (to : Endpoint) (now : ℕ) (s : Session)
      → QuietButAck (send_hello_ack io echo to now s) s
  unfolding send_hello_ack
  send_hello_ack-QuietButAck echo to now s =
      let paid = (spend_for to now s).1 in
      let payload = own_hello paid echo in
      ground (
        arith,
        spend_for-Quiet to now s,
        send_packet-Quiet PacketType.hello_ack payload to paid,
        after_ack-QuietButAck (send_packet io PacketType.hello_ack payload to paid),
      )

  send_data_to-Quiet :
      (inner : List ℕ) (cs : List Endpoint) (s : Session) → Quiet (send_data_to io inner cs s).1 s
  unfolding send_data_to
  send_data_to-Quiet inner [] s = (refl, refl, refl, refl, refl)
  send_data_to-Quiet inner (c ∷ cs) s =
      let r = (send_packet io PacketType.inner_data inner c s).1 in
      ground
        (arith, send_packet-Quiet PacketType.inner_data inner c s, send_data_to-Quiet inner cs r)

  pub send_data-Quiet : (inner : List ℕ) (s : Session) → Quiet (send_data io inner s).1 s
  unfolding send_data
  send_data-Quiet inner s = elim (Option-cases s.peer_endpoint) [
    | inl e ↦ ground (arith, send_data_to-Quiet inner s.config.candidates s)
    | inr (endpoint, e) ↦ ground (arith, send_packet-Quiet PacketType.inner_data inner endpoint s)
  ]
