-- ===== src/Tunnel/Table/Runs.antt =====
-- Runs of the tunnel: its operations in any order, from the empty table.
use sangtachi.Prelude.{
  ℕ, ◌-◌, ◌≤◌, sym, subst, inl, inr, true, false, Option, none, List, [], ◌∷◌, arith, Bool-cases,
  Option-cases,
}
use sangtachi.Protocol.{max_peers}
use sangtachi.Counters.{no_counts}
use sangtachi.Network.Endpoint.{Endpoint}
use sangtachi.Peer.Epoch.{
  Nonce, Drawn, value, failed, starved, generate_session_epoch, generate_attempt_nonce,
}
use sangtachi.Peer.Session.State.{SessionConfig, SessionIo, Session, new_session, active}
use sangtachi.Peer.Session.Lifecycle.{poll, close_by_user, start_punch}
use sangtachi.Peer.Session.Sending.{send_roster}
use sangtachi.Peer.Session.Events.{
  run-new_session-IsValid, run, send_inner, send_inner-IsValid, send_roster-IsValid,
}
use sangtachi.Peer.Session.Ended.{IsValid, start_punch-IsValid, poll-IsValid, close_by_user-IsValid}
use sangtachi.Tunnel.Wire.{read_u32}
use sangtachi.Tunnel.Router.{empty_router, assign, is_not_unicast}
use sangtachi.Tunnel.Router
use sangtachi.Tunnel.Table.{
  Entry, Tunnel, find_entry, put_back, shared, on_datagram, send_routed, send_data, for_each,
  erase_each, is_outdated, run_timers, close_all, leave_room, terminal_count, call_found,
  call_session, set_local_virtual_ip,
}
use sangtachi.Tunnel.Table.Creation.{
  NewSession, is_creatable, registered_entries, register_ended, install_session, with_nonce,
  with_epoch, create_session,
}
use sangtachi.Tunnel.Table.Retention.{AreValid, enforce_retention_cap_lem}
use sangtachi.Tunnel.Table.Validity.{
  put_entry-AreValid, put_back-AreValid, erase_if-AreValid, enforce_retention_cap-AreValid,
  find_entry-IsValid, on_datagram-AreValid,
}

abbrev pub empty_tunnel : Tunnel
empty_tunnel = record {
  counters = no_counts;
  sessions = [];
  retired = [];
  retired_nonces = [];
  ended_nonces = [];
  routes = empty_router;
  local_vip = none;
}

pub data TunnelEvent : Type 0 where
  session_wanted : NewSession → SessionIo → List (Option (List ℕ)) → ℕ → TunnelEvent
  datagram_in : Endpoint → List ℕ → ℕ → TunnelEvent
  inner_packet_out : List ℕ → TunnelEvent
  timers_run : ℕ → TunnelEvent
  closed_all : ℕ → TunnelEvent
  room_left : ℕ → TunnelEvent
  punch_begun : ℕ → ℕ → TunnelEvent
  roster_sent : ℕ → List ℕ → TunnelEvent
  address_set : ℕ → TunnelEvent

unfoldable pub step_tunnel : TunnelEvent → Tunnel → Tunnel
step_tunnel (session_wanted request io answers now) t = (create_session request io answers now t).1
step_tunnel (datagram_in from datagram now) t = on_datagram from datagram now t
step_tunnel (inner_packet_out inner) t = (send_data inner t).1
step_tunnel (timers_run now) t = run_timers now t
step_tunnel (closed_all now) t = close_all now t
step_tunnel (room_left now) t = leave_room now t
step_tunnel (punch_begun peer_id now) t = call_session (λ io s. (start_punch io now s).1) peer_id t
step_tunnel (roster_sent peer_id payload) t =
    call_session (λ io s. send_roster io payload s) peer_id t
step_tunnel (address_set virtual_ip) t = set_local_virtual_ip virtual_ip t

unfoldable pub run_tunnel : List TunnelEvent → Tunnel → Tunnel
run_tunnel [] t = t
run_tunnel (e ∷ es) t = run_tunnel es (step_tunnel e t)

for_each-AreValid :
    (call : SessionIo → Session → Session) (es : List Entry) (t : Tunnel)
    → ((io : SessionIo) (s : Session) → IsValid s → IsValid (call io s))
    → AreValid es
    → AreValid t.sessions
    → AreValid (for_each call es t).sessions
unfolding for_each
for_each-AreValid call [] t k v h = h
for_each-AreValid call (e ∷ es) t k (v, vs) h =
    let s = call e.io (shared e t) in
    for_each-AreValid call es (put_back e s t) k vs
      (put_back-AreValid e s t (k e.io (shared e t) v) h)

polled-AreValid :
    (now : ℕ) (t : Tunnel)
    → AreValid t.sessions
    → AreValid
        (erase_each (is_outdated now) (for_each (λ io s. poll io now s) t.sessions t)).sessions
unfolding erase_each
polled-AreValid now t h =
    erase_if-AreValid (is_outdated now) (for_each (λ io s. poll io now s) t.sessions t).sessions (
      for_each-AreValid (λ io s. poll io now s) t.sessions t (λ io s v. poll-IsValid io now s v) h
        h)

closed-AreValid :
    (now : ℕ) (t : Tunnel)
    → AreValid t.sessions
    → AreValid (for_each (λ io s. close_by_user io now s) t.sessions t).sessions
closed-AreValid now t h =
    for_each-AreValid (λ io s. close_by_user io now s) t.sessions t
      (λ io s v. close_by_user-IsValid io now s v) h h

leave_room-AreValid :
    (now : ℕ) (t : Tunnel) → AreValid t.sessions → AreValid (leave_room now t).sessions
unfolding leave_room erase_each
leave_room-AreValid now t h =
    erase_if-AreValid (λ e. true) (for_each (λ io s. close_by_user io now s) t.sessions t).sessions
      (closed-AreValid now t h)

send_data-AreValid :
    (inner : List ℕ) (t : Tunnel) → AreValid t.sessions → AreValid (send_data inner t).1.sessions
unfolding send_data send_routed
send_data-AreValid inner t h = elim (Option-cases (Router.lookup t.routes (read_u32 inner 16))) [
  | inl e ↦ ground (arith, h)
  | inr (id, e) ↦ elim (Option-cases (find_entry id t.sessions)) [
    | inl f ↦ ground (arith, h)
    | inr (x, f) ↦
        let s = (send_inner x.io inner (shared x t)).1 in
        ground (
          arith,
          h,
          put_back-AreValid x s t
              (send_inner-IsValid x.io inner (shared x t) (find_entry-IsValid id t.sessions x h f))
              h,
        )
  ]
]

registered-AreValid : (es : List Entry) → AreValid es → AreValid (registered_entries es)
registered-AreValid [] h = tt
registered-AreValid (e ∷ es) (h, hs) = elim (Bool-cases (active e.session)) [
  | inl a ↦ ground (arith, h, registered-AreValid es hs)
  | inr a ↦ ground (arith, h, registered-AreValid es hs)
]

install_session-AreValid :
    (request : NewSession) (io : SessionIo) (now epoch : ℕ) (nonce : Nonce) (t : Tunnel)
    → AreValid t.sessions
    → AreValid (install_session request io now epoch nonce t).sessions
unfolding install_session run
install_session-AreValid request io now epoch nonce t h =
    let config : SessionConfig = record {
      local_peer_id = request.local_peer_id;
      local_virtual_ip = request.local_virtual_ip;
      peer_id = request.peer_id;
      peer_virtual_ip = request.peer_virtual_ip;
      candidates = request.candidates;
      peer_is_host = request.peer_is_host;
      local_epoch = epoch;
      attempt_nonce = nonce;
    } in
    let e : Entry = record {
      peer_id = request.peer_id;
      session = new_session config t.retired now;
      io = io;
      epoch_retired = false;
      nonce_retired = false;
    } in
    put_entry-AreValid e t.sessions (run-new_session-IsValid io config t.retired now []) h

with_nonce-AreValid :
    (request : NewSession) (io : SessionIo) (now epoch : ℕ) (d : Drawn Nonce) (t : Tunnel)
    → AreValid t.sessions
    → AreValid (with_nonce request io now epoch d t).1.sessions
with_nonce-AreValid request io now epoch (value nonce answers) t h =
    install_session-AreValid request io now epoch nonce t h
with_nonce-AreValid request io now epoch (failed answers) t h = h
with_nonce-AreValid request io now epoch starved t h = h

with_epoch-AreValid :
    (request : NewSession) (io : SessionIo) (now : ℕ) (d : Drawn ℕ) (t : Tunnel)
    → AreValid t.sessions
    → AreValid (with_epoch request io now d t).1.sessions
with_epoch-AreValid request io now (value epoch answers) t h =
    with_nonce-AreValid request io now epoch (generate_attempt_nonce t.retired_nonces now answers) t
      h
with_epoch-AreValid request io now (failed answers) t h = h
with_epoch-AreValid request io now starved t h = h

create_session-AreValid :
    (request : NewSession) (io : SessionIo) (answers : List (Option (List ℕ))) (now : ℕ)
    (t : Tunnel)
    → AreValid t.sessions
    → AreValid (create_session request io answers now t).1.sessions
unfolding create_session register_ended
create_session-AreValid request io answers now t h = elim (Bool-cases (is_creatable request t)) [
  | inl e ↦ ground (
    arith,
    with_epoch-AreValid request io now (generate_session_epoch answers) (register_ended now t)
        (registered-AreValid t.sessions h),
  )
  | inr e ↦ ground (arith, h)
]

call_session-AreValid :
    (call : SessionIo → Session → Session) (peer_id : ℕ) (t : Tunnel)
    → ((io : SessionIo) (s : Session) → IsValid s → IsValid (call io s))
    → AreValid t.sessions
    → AreValid (call_session call peer_id t).sessions
unfolding call_session
call_session-AreValid call peer_id t k h = elim (Option-cases (find_entry peer_id t.sessions)) [
  | inl e ↦ subst (λ o. AreValid (call_found call t o).sessions) (sym e) h
  | inr (x, e) ↦
      subst (λ o. AreValid (call_found call t o).sessions) (sym e)
        (put_back-AreValid x (call x.io (shared x t)) t
          (k x.io (shared x t) (find_entry-IsValid peer_id t.sessions x h e)) h)
]

step_tunnel-AreValid :
    (e : TunnelEvent) (t : Tunnel) → AreValid t.sessions → AreValid (step_tunnel e t).sessions
unfolding step_tunnel run_timers close_all
step_tunnel-AreValid (session_wanted request io answers now) t h =
    create_session-AreValid request io answers now t h
step_tunnel-AreValid (datagram_in from datagram now) t h =
    on_datagram-AreValid from datagram now t h
step_tunnel-AreValid (inner_packet_out inner) t h = send_data-AreValid inner t h
step_tunnel-AreValid (timers_run now) t h =
    enforce_retention_cap-AreValid
      (erase_each (is_outdated now) (for_each (λ io s. poll io now s) t.sessions t))
      (polled-AreValid now t h)
step_tunnel-AreValid (closed_all now) t h =
    enforce_retention_cap-AreValid (for_each (λ io s. close_by_user io now s) t.sessions t)
      (closed-AreValid now t h)
step_tunnel-AreValid (room_left now) t h = leave_room-AreValid now t h
step_tunnel-AreValid (punch_begun peer_id now) t h =
    call_session-AreValid (λ io s. (start_punch io now s).1) peer_id t
      (λ io s v. start_punch-IsValid io now s v) h
step_tunnel-AreValid (roster_sent peer_id payload) t h =
    call_session-AreValid (λ io s. send_roster io payload s) peer_id t
      (λ io s v. send_roster-IsValid io payload s v) h
step_tunnel-AreValid (address_set virtual_ip) t h = h

run_tunnel-AreValid :
    (es : List TunnelEvent) (t : Tunnel) → AreValid t.sessions → AreValid (run_tunnel es t).sessions
unfolding run_tunnel
run_tunnel-AreValid [] t h = h
run_tunnel-AreValid (e ∷ es) t h =
    run_tunnel-AreValid es (step_tunnel e t) (step_tunnel-AreValid e t h)

-- From an empty tunnel, whatever sessions are made, datagrams and inner packets come, timers run,
-- punching begins, rosters are sent, addresses are set, and sessions are closed or the room is left,
-- in any order: all sessions are valid, and whenever the timers have run the tunnel retains at most
-- four sessions that have ended.
pub run_tunnel-run_timers :
    (es : List TunnelEvent) (now : ℕ)
    → AreValid (run_tunnel es empty_tunnel).sessions
      × (terminal_count (run_timers now (run_tunnel es empty_tunnel)).sessions ≤ max_peers - 1)
unfolding run_timers
run_tunnel-run_timers es now =
    let t = run_tunnel es empty_tunnel in
    let valid = run_tunnel-AreValid es empty_tunnel tt in
    let swept = erase_each (is_outdated now) (for_each (λ io s. poll io now s) t.sessions t) in
    (valid, (enforce_retention_cap_lem swept (polled-AreValid now t valid)).0)
