-- ===== src/Tunnel/Table.antt =====
-- client/src/tunnel/tunnel.cpp and client/include/sangtachi/tunnel/tunnel.hpp: the tunnel with its
-- table of sessions. Callbacks other than those of the sessions are left out: the transition handler
-- and the observer of the inner packets that go out, with the roster publisher. A session in the
-- routing table is its peer_id.
pub mod Retention
pub mod Outgoing
pub mod Creation
pub mod Validity
pub mod Runs
mod Examples
use sangtachi.Prelude.{
  ℕ, zero, suc, ◌+◌, ◌-◌, ◌*◌, Bool, true, false, not, ◌&&◌, ◌||◌, Option, none, some, List, [],
  ◌∷◌, ◌++◌, ltb, leb, ◌==◌, if◌then◌else◌, length, take, any, erase_if,
}
use sangtachi.Prelude.Bits.{◌>>>◌, u64}
use sangtachi.Protocol.{max_peers, max_inner, terminal_session_ttl_ms}
use sangtachi.Counters.{Counter, Counters, increment}
use sangtachi.Network.Endpoint.{Endpoint}
use sangtachi.Peer.Epoch.{
  Nonce, RetiredEpochs, RetiredNonces, add, contains, add_nonce, Drawn, value, failed, starved,
  generate_session_epoch, generate_attempt_nonce,
}
use sangtachi.Peer.Session.State.{
  SessionState, is_terminal, SessionConfig, SessionIo, Session, new_session, state, state_eq,
  active, count,
}
use sangtachi.Peer.Session.Lifecycle.{poll, close_by_user}
use sangtachi.Peer.Session.Admit.{RxPacket}
use sangtachi.Peer.Session.Receive.{receive}
use sangtachi.Peer.Session.Events.{send_inner}
use sangtachi.Tunnel.Wire.{read_u8, read_u32}
use sangtachi.Tunnel.Packet.{CommonCheck, PacketError, check_common}
use sangtachi.Tunnel.Inner.{packet_counter}
use sangtachi.Tunnel.Router.{Router, is_not_unicast, route_index, assign, release, lookup}

-- `Tunnel::Entry`, with its key and with what the session asks of its surroundings.
pub record Entry : Type 0 where
  pub peer_id : ℕ
  pub session : Session
  pub io : SessionIo
  pub epoch_retired : Bool
  pub nonce_retired : Bool

pub record Tunnel : Type 0 where
  pub counters : Counters
  pub sessions : List Entry
  pub retired : RetiredEpochs
  pub retired_nonces : RetiredNonces
  pub ended_nonces : List Nonce
  pub routes : Router
  pub local_vip : Option ℕ

abbrev pub count_global : Counter → Tunnel → Tunnel
count_global c t = record t { counters = increment c t.counters }

unfoldable pub terminal_count : List Entry → ℕ
terminal_count [] = 0
terminal_count (e ∷ es) =
    let rest = terminal_count es in if not (active e.session) then suc rest else rest

-- `sessions_.find(peer_id)`.
unfoldable pub find_entry : ℕ → List Entry → Option Entry
find_entry id [] = none
find_entry id (e ∷ es) = if e.peer_id == id then some e else find_entry id es

-- The entry of that key takes the place of the one that is there, or its place in the order of the
-- keys.
unfoldable pub put_entry : Entry → List Entry → List Entry
put_entry e [] = e ∷ []
put_entry e (f ∷ fs) =
    if f.peer_id == e.peer_id
    then e ∷ fs
    else if ltb e.peer_id f.peer_id
    then e ∷ f ∷ fs
    else f ∷ put_entry e fs

unfoldable pub erase_at : ℕ → List Entry → List Entry
erase_at n [] = []
erase_at zero (e ∷ es) = es
erase_at (suc n) (e ∷ es) = e ∷ erase_at n es

abbrev pub nonce_at : ℕ → List Entry → List Nonce
nonce_at n [] = []
nonce_at zero (e ∷ es) = if not e.nonce_retired then e.session.config.attempt_nonce ∷ [] else []
nonce_at (suc n) (e ∷ es) = nonce_at n es

-- `erase`, of the entry at a position.
unfoldable pub erase : ℕ → Tunnel → Tunnel
erase n t = record t {
  ended_nonces = t.ended_nonces ++ nonce_at n t.sessions;
  sessions = erase_at n t.sessions;
}

-- The better of an entry at the front and the best of the ones behind it, each with its time.
abbrev pub older : Option ℕ → Option (ℕ × ℕ) → Option (ℕ × ℕ)
older none none = none
older none (some (n, since)) = some (suc n, since)
older (some since) none = some (zero, since)
older (some since) (some (n, other)) =
    if ltb other since then some (suc n, other) else some (zero, since)

-- The position and the time of the first of the entries that ended the longest ago.
unfoldable pub oldest : List Entry → Option (ℕ × ℕ)
oldest [] = none
oldest (e ∷ es) = older e.session.terminal_since (oldest es)

-- `while (terminal_count() > kMaxPeers - 1)`, with fuel.
unfoldable pub enforce_cap : ℕ → Tunnel → Tunnel
enforce_cap zero t = t
enforce_cap (suc fuel) t = elim (oldest t.sessions) [
  | none ↦ t
  | some (n, _) ↦
      let next = enforce_cap fuel (erase n t) in
      if ltb (max_peers - 1) (terminal_count t.sessions) then next else t
]

unfoldable pub enforce_retention_cap : Tunnel → Tunnel
enforce_retention_cap t = enforce_cap (length t.sessions) t

-- A session after a call: back in its entry, with the list of retired epochs that it shares; a
-- transition to an end that the call notified releases its route.
unfoldable pub put_back : Entry → Session → Tunnel → Tunnel
put_back e s t =
    let news = take (length s.transitions - length e.session.transitions) s.transitions in
    record t {
      sessions = put_entry (record e { session = s }) t.sessions;
      retired = s.retired;
      routes =
          if any (λ (x : SessionState × SessionState). is_terminal x.1) news
          then release t.routes e.peer_id
          else t.routes;
    }

-- The session of an entry, with the list of retired epochs as it is.
abbrev pub shared : Entry → Tunnel → Session
shared e t = record e.session { retired = t.retired }

-- The part of `on_datagram` behind the search for the session.
unfoldable pub on_packet : Endpoint → CommonCheck → ℕ → Entry → Tunnel → Tunnel
on_packet from common now e t =
    let s = shared e t in
    let packet : RxPacket = record {
      header = common.header;
      payload = common.payload;
      from = from;
    } in
    if contains t.retired common.header.session_epoch now
    then put_back e (count Counter.drop_retired_epoch s) t
    else if not (active s)
    then put_back e (count Counter.drop_terminal_state s) t
    else enforce_retention_cap (put_back e (receive e.io packet now s).1 t)

abbrev pub count_error : PacketError → Tunnel → Tunnel
count_error error t = elim (packet_counter error) [ none ↦ t | some c ↦ count_global c t ]

unfoldable pub on_datagram : Endpoint → List ℕ → ℕ → Tunnel → Tunnel
on_datagram from datagram now t =
    let common = check_common datagram in
    elim common.error [
      | PacketError.no_error ↦ elim (find_entry common.header.peer_id t.sessions) [
        | none ↦ count_global Counter.drop_unknown_peer t
        | some e ↦ on_packet from common now e t
      ]
      | error ↦ count_error error t
    ]

pub data TxOutcome : Type 0 where
  sent dropped send_failed : TxOutcome

abbrev pub drop_global : Counter → Tunnel → TxOutcome × Tunnel
drop_global c t = (TxOutcome.dropped, count_global c t)

abbrev pub is_connected : Session → Bool
is_connected s = state_eq (state s) SessionState.connected

-- The end of `send_data`, with the session of the route.
unfoldable pub send_routed : List ℕ → Entry → Tunnel → TxOutcome × Tunnel
send_routed inner e t =
    let r = send_inner e.io inner (shared e t) in
    (
      if is_connected e.session
          then (if r.0 then TxOutcome.sent else TxOutcome.send_failed)
          else TxOutcome.dropped,
      put_back e r.1 t,
    )

abbrev pub is_local : Option ℕ → ℕ → Bool
is_local none src = false
is_local (some vip) src = src == vip

-- `route`: the entry behind an address.
abbrev pub routed_entry : Tunnel → ℕ → Option Entry
routed_entry t destination = elim (lookup t.routes destination) [
  | none ↦ none
  | some id ↦ find_entry id t.sessions
]

unfoldable pub send_data : List ℕ → Tunnel → TxOutcome × Tunnel
send_data inner t =
    if ltb (length inner) 20
    then drop_global Counter.tx_drop_short t
    else if not (read_u8 inner 0 >>> 4 == 4)
    then drop_global Counter.tx_drop_not_ipv4 t
    else if ltb max_inner (length inner)
    then drop_global Counter.tx_drop_oversize t
    else if not (is_local t.local_vip (read_u32 inner 12))
    then drop_global Counter.tx_drop_bad_src t
    else if is_not_unicast (read_u32 inner 16)
    then drop_global Counter.tx_drop_not_unicast t
    else elim (routed_entry t (read_u32 inner 16)) [
      | none ↦ drop_global Counter.tx_drop_no_route t
      | some e ↦ send_routed inner e t
    ]

-- A call of a method of each session, in the order of the keys.
unfoldable pub for_each : (SessionIo → Session → Session) → List Entry → Tunnel → Tunnel
for_each call [] t = t
for_each call (e ∷ es) t = for_each call es (put_back e (call e.io (shared e t)) t)

-- The nonces of the entries that pass a test and whose nonce is not retired.
abbrev pub nonces_of : (Entry → Bool) → List Entry → List Nonce
nonces_of test [] = []
nonces_of test (e ∷ es) =
    if test e && not e.nonce_retired
    then e.session.config.attempt_nonce ∷ nonces_of test es
    else nonces_of test es

-- `erase`, of each entry that passes a test.
unfoldable pub erase_each : (Entry → Bool) → Tunnel → Tunnel
erase_each test t = record t {
  ended_nonces = t.ended_nonces ++ nonces_of test t.sessions;
  sessions = erase_if test t.sessions;
}

-- `since && *since + kTerminalSessionTtlMs <= now`.
abbrev pub is_outdated : ℕ → Entry → Bool
is_outdated now e = elim e.session.terminal_since [
  | none ↦ false
  | some since ↦ leb (u64 (since + terminal_session_ttl_ms)) now
]

unfoldable pub run_timers : ℕ → Tunnel → Tunnel
run_timers now t =
    enforce_retention_cap
      (erase_each (is_outdated now) (for_each (λ io s. poll io now s) t.sessions t))

unfoldable pub close_all : ℕ → Tunnel → Tunnel
close_all now t = enforce_retention_cap (for_each (λ io s. close_by_user io now s) t.sessions t)

unfoldable pub leave_room : ℕ → Tunnel → Tunnel
leave_room now t =
    let t1 = erase_each (λ e. true) (for_each (λ io s. close_by_user io now s) t.sessions t) in
    record t1 { local_vip = none }

abbrev pub call_found : (SessionIo → Session → Session) → Tunnel → Option Entry → Tunnel
call_found call t none = t
call_found call t (some e) = put_back e (call e.io (shared e t)) t

-- A call of a method of the session with a peer, if there is one (`find`).
unfoldable pub call_session : (SessionIo → Session → Session) → ℕ → Tunnel → Tunnel
call_session call peer_id t = call_found call t (find_entry peer_id t.sessions)

abbrev pub set_local_virtual_ip : ℕ → Tunnel → Tunnel
set_local_virtual_ip virtual_ip t = record t { local_vip = some virtual_ip }
