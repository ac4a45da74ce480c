-- ===== src/Tunnel/Publisher.antt =====
-- client/src/tunnel/roster_publisher.cpp: the host sends the roster to the connected sessions. A
-- session is its peer id here; `sent` are the calls of its `send_roster`, the latest first. The map of
-- schedules is a list in the order of its keys. `last` has a value whenever `self` has one.
pub mod Announce
pub mod Quiet
mod Examples
use sangtachi.Prelude.{
  ℕ, zero, suc, ◌+◌, ◌*◌, Bool, true, false, not, ◌&&◌, ◌||◌, Option, none, some, List, [], ◌∷◌,
  ltb, leb, ◌==◌, if◌then◌else◌, length, any, take, replicate, copy_to, erase_if, bytes_eq,
}
use sangtachi.Prelude.Bits.{u8, u32, u64}
use sangtachi.Protocol.{
  max_peers, max_name_len, roster_interval_ms, roster_resend_interval_ms, roster_resend_count,
}
use sangtachi.Peer.Session.Lifecycle.{earlier}
use sangtachi.Tunnel.Roster.{RosterMember, blank_member, Roster, blank_roster, encode_roster}

pub record RosterPeer : Type 0 where
  pub peer_id : ℕ
  pub virtual_ip : ℕ
  pub name : List ℕ

pub record Schedule : Type 0 where
  pub period_due : Option ℕ
  pub period_since : ℕ
  pub resend_due : Option ℕ
  pub resend_since : ℕ
  pub resends_left : ℕ

abbrev pub new_schedule : Schedule
new_schedule = record {
  period_due = none;
  period_since = 0;
  resend_due = none;
  resend_since = 0;
  resends_left = 0;
}

pub record RosterPublisher : Type 0 where
  pub self : Option RosterPeer
  pub peers : List RosterPeer
  pub generation : ℕ
  pub last : Option Roster
  pub forced_change : Bool
  pub schedules : List (ℕ × Schedule)
  pub dirty : Bool
  pub sent : List (ℕ × List ℕ)

-- The name is cut at the size of the array.
unfoldable pub member : RosterPeer → Bool → RosterMember
member p connected =
    let len = u8 (if ltb max_name_len (length p.name) then max_name_len else length p.name) in
    record {
      peer_id = p.peer_id;
      virtual_ip = p.virtual_ip;
      connected = connected;
      name = copy_to (replicate max_name_len 0) 0 (take len p.name);
      name_len = len;
    }

abbrev pub has_peer : List ℕ → ℕ → Bool
has_peer connected peer_id = any (λ id. id == peer_id) connected

abbrev pub members_of : List ℕ → List RosterPeer → List RosterMember
members_of connected [] = []
members_of connected (p ∷ peers) =
    member p (has_peer connected p.peer_id) ∷ members_of connected peers

-- The roster for a host and the others; the host itself always counts as connected.
unfoldable pub build_roster : RosterPeer → List RosterPeer → List ℕ → Roster
build_roster self peers connected =
    let members = member self true ∷ members_of connected peers in
    record {
      generation = 0;
      members = copy_to (replicate max_peers blank_member) 0 (take max_peers members);
      count = u8 (if ltb 255 (length members) then 255 else length members);
    }

unfoldable pub start_roster : RosterPeer → RosterPublisher → RosterPublisher
start_roster self p = record p {
  self = some self;
  peers = [];
  generation = 0;
  schedules = [];
  last = some (build_roster self [] []);
  forced_change = false;
  dirty = true;
}

unfoldable pub stop_roster : RosterPublisher → RosterPublisher
stop_roster p = record p {
  self = none;
  peers = [];
  schedules = [];
  last = none;
  forced_change = false;
  dirty = false;
}

abbrev pub set_peers : List RosterPeer → RosterPublisher → RosterPublisher
set_peers peers p = record p { peers = peers; dirty = true }

abbrev pub is_key : ℕ → ℕ × Schedule → Bool
is_key peer_id entry = entry.0 == peer_id

abbrev pub has_self : Option RosterPeer → Bool
has_self none = false
has_self (some self) = true

unfoldable pub on_connected_change : ℕ → Bool → RosterPublisher → RosterPublisher
on_connected_change peer_id entered p = if not (has_self p.self) then p else record p {
  schedules = if not entered then erase_if (is_key peer_id) p.schedules else p.schedules;
  forced_change = p.forced_change || any (λ q. q.peer_id == peer_id) p.peers;
  dirty = true;
}

abbrev pub last_roster : RosterPublisher → Roster
last_roster p = elim p.last [ none ↦ blank_roster | some roster ↦ roster ]

-- The bytes that `send` hands to a session, if the roster can be written.
unfoldable pub roster_payload : RosterPublisher → Option (List ℕ)
roster_payload p =
    let written =
      encode_roster (record (last_roster p) { generation = p.generation })
        (replicate (5 + max_peers * (10 + max_name_len)) 0) in
    if written.0 == 0 then none else some (take written.0 written.1)

abbrev pub hand_over : ℕ → RosterPublisher → Option (List ℕ) → RosterPublisher
hand_over peer_id p none = p
hand_over peer_id p (some payload) = record p { sent = (peer_id, payload) ∷ p.sent }

-- `send`, with what it does to the schedule apart.
unfoldable pub send_roster_to : ℕ → RosterPublisher → RosterPublisher
send_roster_to peer_id p = hand_over peer_id p (roster_payload p)

abbrev pub sent_at : ℕ → Schedule → Schedule
sent_at now s = record s { period_due = some (u64 (now + roster_interval_ms)); period_since = now }

-- `schedules_.find`.
abbrev pub find_schedule : ℕ → List (ℕ × Schedule) → Option Schedule
find_schedule peer_id [] = none
find_schedule peer_id (entry ∷ entries) =
    let rest = find_schedule peer_id entries in if is_key peer_id entry then some entry.1 else rest

abbrev pub write_schedule : ℕ → Schedule → List (ℕ × Schedule) → List (ℕ × Schedule)
write_schedule peer_id s [] = []
write_schedule peer_id s (entry ∷ entries) =
    if is_key peer_id entry
    then (entry.0, s) ∷ entries
    else entry ∷ write_schedule peer_id s entries

-- `try_emplace` of a key that is new, at its place in the order of the keys.
abbrev pub insert_schedule : ℕ → Schedule → List (ℕ × Schedule) → List (ℕ × Schedule)
insert_schedule peer_id s [] = (peer_id, s) ∷ []
insert_schedule peer_id s (entry ∷ entries) =
    if ltb peer_id entry.0
    then (peer_id, s) ∷ entry ∷ entries
    else entry ∷ insert_schedule peer_id s entries

abbrev pub restarted_at : ℕ → Schedule → Schedule
restarted_at now s = record (sent_at now s) {
  resends_left = roster_resend_count;
  resend_due = some (u64 (now + roster_resend_interval_ms));
  resend_since = now;
}

-- What `refresh` does for one session: it may have entered, and the roster may have changed.
abbrev pub announce_to : Bool → ℕ → ℕ → RosterPublisher → Option Schedule → RosterPublisher
announce_to changed now peer_id p none = record (send_roster_to peer_id p) {
  schedules =
      insert_schedule peer_id
        (if changed then restarted_at now new_schedule else sent_at now new_schedule) p.schedules;
}
announce_to changed now peer_id p (some s) =
    if not changed then p else record (send_roster_to peer_id p) {
      schedules = write_schedule peer_id (restarted_at now s) p.schedules;
    }

abbrev pub announce : Bool → ℕ → List ℕ → RosterPublisher → RosterPublisher
announce changed now [] p = p
announce changed now (peer_id ∷ connected) p =
    announce changed now connected
      (announce_to changed now peer_id p (find_schedule peer_id p.schedules))

abbrev pub member_eq : RosterMember → RosterMember → Bool
member_eq a b =
    (a.peer_id == b.peer_id)
    && (a.virtual_ip == b.virtual_ip)
    && (if a.connected then b.connected else not b.connected)
    && bytes_eq a.name b.name
    && (a.name_len == b.name_len)

abbrev pub members_eq : List RosterMember → List RosterMember → Bool
members_eq [] [] = true
members_eq [] (m ∷ ms) = false
members_eq (m ∷ ms) [] = false
members_eq (m ∷ ms) (n ∷ ns) = member_eq m n && members_eq ms ns

abbrev pub roster_eq : Roster → Roster → Bool
roster_eq a b =
    (a.generation == b.generation) && members_eq a.members b.members && (a.count == b.count)

abbrev pub has_changed : Roster → RosterPublisher → Bool
has_changed roster p = p.forced_change || not (roster_eq roster (last_roster p))

unfoldable pub refresh : RosterPeer → ℕ → List ℕ → RosterPublisher → RosterPublisher
refresh self now connected p =
    let roster = build_roster self p.peers connected in
    let changed = has_changed roster p in
    announce changed now connected (record p {
      schedules = erase_if (λ entry. not (has_peer connected entry.0)) p.schedules;
      forced_change = false;
      last = some roster;
      generation = if changed then u32 (p.generation + 1) else p.generation;
    })

-- The least deadline of the schedules, with the one so far.
abbrev pub earliest_schedule : List (ℕ × Schedule) → Option ℕ → Option ℕ
earliest_schedule [] e = e
earliest_schedule (entry ∷ entries) e =
    earliest_schedule entries (earlier (earlier e entry.1.period_due) entry.1.resend_due)

unfoldable pub earliest : RosterPublisher → Option ℕ
earliest p =
    if not (has_self p.self)
    then none
    else if p.dirty
    then some 0
    else earliest_schedule p.schedules none

abbrev pub has_come : ℕ → Option ℕ → Bool
has_come now none = false
has_come now (some d) = leb d now

-- The schedule behind a resend; `resends_left` is a machine word that is counted down.
abbrev pub resent_at : ℕ → Schedule → Schedule
resent_at now s =
    let left = u64 (s.resends_left + 0xffff_ffff_ffff_ffff) in
    record (sent_at now s) {
      resends_left = left;
      resend_since = now;
      resend_due = if ltb 0 left then some (u64 (now + roster_resend_interval_ms)) else none;
    }

-- The two deadlines of one session, with its schedule if there is one.
unfoldable pub run_schedule : ℕ → ℕ → RosterPublisher → Option Schedule → RosterPublisher
run_schedule now peer_id p none = p
run_schedule now peer_id p (some s) =
    let resends = has_come now s.resend_due in
    let s1 = if resends then resent_at now s else s in
    let p1 = if resends then send_roster_to peer_id p else p in
    let repeats = has_come now s1.period_due in
    let s2 = if repeats then sent_at now s1 else s1 in
    let p2 = if repeats then send_roster_to peer_id p1 else p1 in
    record p2 { schedules = write_schedule peer_id s2 p2.schedules }

abbrev pub run_sessions : ℕ → List ℕ → RosterPublisher → RosterPublisher
run_sessions now [] p = p
run_sessions now (peer_id ∷ connected) p =
    run_sessions now connected (run_schedule now peer_id p (find_schedule peer_id p.schedules))

abbrev pub run_publisher_of : ℕ → List ℕ → RosterPublisher → Option RosterPeer → RosterPublisher
run_publisher_of now connected p none = p
run_publisher_of now connected p (some self) =
    run_sessions now connected
      (if p.dirty then refresh self now connected (record p { dirty = false }) else p)

unfoldable pub run_publisher : ℕ → List ℕ → RosterPublisher → RosterPublisher
run_publisher now connected p = run_publisher_of now connected p p.self
