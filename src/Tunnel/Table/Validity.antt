-- ===== src/Tunnel/Table/Validity.antt =====
-- Every operation of the tunnel keeps its sessions valid.
use sangtachi.Prelude.{
  ℕ, zero, suc, ◌≡◌, sym, ap, ◌∙◌, subst, inl, inr, Bool, Option, none, some, List, [], ◌∷◌, ◌==◌,
  length, erase_if, arith, Bool-cases, Option-cases,
}
use sangtachi.Counters.{Counter}
use sangtachi.Network.Endpoint.{Endpoint}
use sangtachi.Peer.Epoch.{contains}
use sangtachi.Peer.Session.State.{Session, active, count}
use sangtachi.Peer.Session.Admit.{RxPacket}
use sangtachi.Peer.Session.Receive.{receive}
use sangtachi.Peer.Session.Ended.{IsValid}
use sangtachi.Peer.Session.Reception.{receive-IsValid}
use sangtachi.Tunnel.Packet.{CommonCheck, check_common}
use sangtachi.Tunnel.Table.{
  Entry, Tunnel, find_entry, put_entry, erase_at, erase, oldest, enforce_cap, enforce_retention_cap,
  put_back, shared, on_packet, on_datagram,
}
use sangtachi.Tunnel.Table.Retention.{AreValid}

pub put_entry-AreValid :
    (e : Entry) (es : List Entry) → IsValid e.session → AreValid es → AreValid (put_entry e es)
unfolding put_entry
put_entry-AreValid e [] v h = (v, tt)
put_entry-AreValid e (f ∷ fs) v (h, hs) = elim (Bool-cases (f.peer_id == e.peer_id)) [
  | inl same ↦ ground (arith, v, h, hs)
  | inr other ↦ ground (arith, v, h, hs, put_entry-AreValid e fs v hs)
]

pub put_back-AreValid :
    (e : Entry) (s : Session) (t : Tunnel)
    → IsValid s
    → AreValid t.sessions
    → AreValid (put_back e s t).sessions
unfolding put_back
put_back-AreValid e s t v h = put_entry-AreValid (record e { session = s }) t.sessions v h

erase_at-AreValid : (n : ℕ) (es : List Entry) → AreValid es → AreValid (erase_at n es)
unfolding erase_at
erase_at-AreValid n [] h = tt
erase_at-AreValid zero (e ∷ es) (h, hs) = hs
erase_at-AreValid (suc n) (e ∷ es) (h, hs) = (h, erase_at-AreValid n es hs)

pub erase_if-AreValid :
    (test : Entry → Bool) (es : List Entry) → AreValid es → AreValid (erase_if test es)
erase_if-AreValid test [] h = tt
erase_if-AreValid test (e ∷ es) (h, hs) = elim (Bool-cases (test e)) [
  | inl gone ↦ ground (arith, hs, erase_if-AreValid test es hs)
  | inr stays ↦ ground (arith, h, hs, erase_if-AreValid test es hs)
]

or_else : Entry → Option Entry → Entry
or_else x none = x
or_else x (some y) = y

pub find_entry-IsValid :
    (id : ℕ) (es : List Entry) (e : Entry)
    → AreValid es
    → find_entry id es ≡ some e
    → IsValid e.session
unfolding find_entry or_else
find_entry-IsValid id [] e h f = ground arith
find_entry-IsValid id (x ∷ es) e (h, hs) f = elim (Bool-cases (x.peer_id == id)) [
  | inl same ↦
      let first : find_entry id (x ∷ es) ≡ some x = ground arith in
      subst (λ (y : Entry). IsValid y.session) (ap (or_else x) (sym first ∙ f)) h
  | inr other ↦
      let behind : find_entry id (x ∷ es) ≡ find_entry id es = ground arith in
      find_entry-IsValid id es e hs (sym behind ∙ f)
]

enforce_cap-AreValid :
    (fuel : ℕ) (t : Tunnel) → AreValid t.sessions → AreValid (enforce_cap fuel t).sessions
unfolding enforce_cap erase
enforce_cap-AreValid zero t h = h
enforce_cap-AreValid (suc fuel) t h = elim (Option-cases (oldest t.sessions)) [
  | inl e ↦ ground (arith, h)
  | inr ((n, since), e) ↦
      ground (arith, h, enforce_cap-AreValid fuel (erase n t) (erase_at-AreValid n t.sessions h))
]

pub enforce_retention_cap-AreValid :
    (t : Tunnel) → AreValid t.sessions → AreValid (enforce_retention_cap t).sessions
unfolding enforce_retention_cap
enforce_retention_cap-AreValid t h = enforce_cap-AreValid (length t.sessions) t h

on_packet-AreValid :
    (from : Endpoint) (common : CommonCheck) (now : ℕ) (e : Entry) (t : Tunnel)
    → IsValid e.session
    → AreValid t.sessions
    → AreValid (on_packet from common now e t).sessions
unfolding on_packet
on_packet-AreValid from common now e t v h =
    let s = shared e t in
    let packet : RxPacket = record {
      header = common.header;
      payload = common.payload;
      from = from;
    } in
    let s1 = (receive e.io packet now s).1 in
    let v1 = receive-IsValid e.io packet now s v in
    let retired = put_back-AreValid e (count Counter.drop_retired_epoch s) t v h in
    let ended = put_back-AreValid e (count Counter.drop_terminal_state s) t v h in
    let received =
      enforce_retention_cap-AreValid (put_back e s1 t) (put_back-AreValid e s1 t v1 h) in
    elim (Bool-cases (contains t.retired common.header.session_epoch now)) [
      | inl c ↦ ground (arith, retired)
      | inr c ↦ elim (Bool-cases (active s)) [
        | inl a ↦ ground (arith, received)
        | inr a ↦ ground (arith, ended)
      ]
    ]

-- A datagram leaves the sessions valid.
pub on_datagram-AreValid :
    (from : Endpoint) (datagram : List ℕ) (now : ℕ) (t : Tunnel)
    → AreValid t.sessions
    → AreValid (on_datagram from datagram now t).sessions
unfolding on_datagram
on_datagram-AreValid from datagram now t h =
    let common = check_common datagram in
    elim (Option-cases (find_entry common.header.peer_id t.sessions)) [
      | inl e ↦ ground (arith, h)
      | inr (x, e) ↦ ground (
        arith,
        h,
        on_packet-AreValid from common now x t
            (find_entry-IsValid common.header.peer_id t.sessions x h e) h,
      )
    ]
