-- ===== src/Tunnel/Publisher/Announce.antt =====
-- A change of the roster reaches every connected session at once, and is repeated.
use sangtachi.Prelude.{
  ℕ, ◌+◌, ◌<◌, ◌≡◌, refl, sym, ap, subst, ◌∙◌, inl, inr, Bool, true, false, not, Option, none, some,
  List, [], ◌∷◌, if◌then◌else◌, ◌==◌, erase_if, All, arith, Option-cases,
}
use sangtachi.Prelude.Bits.{u32, u64}
use sangtachi.Tunnel.Publisher.{
  Schedule, RosterPeer, RosterPublisher, find_schedule, write_schedule, insert_schedule,
  restarted_at, roster_payload, send_roster_to, announce_to, announce, build_roster, has_changed,
  has_peer, refresh, run_sessions, run_publisher, run_publisher_of,
}
use sangtachi.Tunnel.Publisher.Quiet.{run_sessions-quiet}

-- The first schedule with a key, behind a change of the one with this key or another.
find-insert_schedule :
    (id peer_id : ℕ) (s : Schedule) (entries : List (ℕ × Schedule))
    → find_schedule peer_id entries ≡ none
    → find_schedule id (insert_schedule peer_id s entries)
      ≡ (if peer_id == id then some s else find_schedule id entries)
find-insert_schedule id peer_id s [] f = ground arith
find-insert_schedule id peer_id s (entry ∷ entries) f =
    ground (arith, find-insert_schedule id peer_id s entries)

find-write_schedule :
    (id peer_id : ℕ) (s t : Schedule) (entries : List (ℕ × Schedule))
    → find_schedule peer_id entries ≡ some t
    → find_schedule id (write_schedule peer_id s entries)
      ≡ (if peer_id == id then some s else find_schedule id entries)
find-write_schedule id peer_id s t [] f = ground (arith, f)
find-write_schedule id peer_id s t (entry ∷ entries) f =
    ground (arith, find-write_schedule id peer_id s t entries)

-- A schedule with two resends in 5 s and the period of 15 s.
abbrev pub restarted : ℕ → Schedule
restarted now = record {
  period_due = some (u64 (now + 15000));
  period_since = now;
  resend_due = some (u64 (now + 5000));
  resend_since = now;
  resends_left = 2;
}

find-announce_to :
    (id now peer_id : ℕ) (p : RosterPublisher)
    → find_schedule id
        (announce_to true now peer_id p (find_schedule peer_id p.schedules)).schedules
      ≡ (if peer_id == id then some (restarted now) else find_schedule id p.schedules)
find-announce_to id now peer_id p =
    let IsAnnounced = λ (o : Option Schedule).
      find_schedule id (announce_to true now peer_id p o).schedules
      ≡ (if peer_id == id then some (restarted now) else find_schedule id p.schedules) in
    elim (Option-cases (find_schedule peer_id p.schedules)) [
      | inl e ↦
          subst IsAnnounced (sym e) (find-insert_schedule id peer_id (restarted now) p.schedules e)
      | inr (s, e) ↦
          subst IsAnnounced (sym e)
            (find-write_schedule id peer_id (restarted_at now s) s p.schedules e)
    ]

-- The schedule of the session begins anew.
abbrev pub IsRestarted : ℕ → RosterPublisher → ℕ → Type 0
IsRestarted now p id = find_schedule id p.schedules ≡ some (restarted now)

announce-keeps :
    (now : ℕ) (connected : List ℕ) (p : RosterPublisher) (id : ℕ)
    → IsRestarted now p id
    → IsRestarted now (announce true now connected p) id
announce-keeps now [] p id h = h
announce-keeps now (peer_id ∷ connected) p id h =
    announce-keeps now connected
      (announce_to true now peer_id p (find_schedule peer_id p.schedules)) id
      (ground (arith, h, find-announce_to id now peer_id p))

announce-IsRestarted :
    (now : ℕ) (connected : List ℕ) (p : RosterPublisher)
    → All (IsRestarted now (announce true now connected p)) connected
announce-IsRestarted now [] p = tt
announce-IsRestarted now (peer_id ∷ connected) p =
    let q = announce_to true now peer_id p (find_schedule peer_id p.schedules) in
    (
      announce-keeps now connected q peer_id
          (ground (arith, find-announce_to peer_id now peer_id p)),
      announce-IsRestarted now connected q,
    )

-- What the publisher has sent, with one payload for each of the sessions on top.
abbrev pub handed : List ℕ → List ℕ → List (ℕ × List ℕ) → List (ℕ × List ℕ)
handed payload [] sent = sent
handed payload (id ∷ ids) sent = handed payload ids ((id, payload) ∷ sent)

-- The content of the roster, which an announcement leaves as it is.
abbrev pub HasPayload : List ℕ → RosterPublisher → Type 0
HasPayload payload p = roster_payload p ≡ some payload

announce_to-sent :
    (now peer_id : ℕ) (payload : List ℕ) (p : RosterPublisher) (o : Option Schedule)
    → HasPayload payload p
    → (HasPayload payload (announce_to true now peer_id p o))
      × ((announce_to true now peer_id p o).sent ≡ (peer_id, payload) ∷ p.sent)
      × ((announce_to true now peer_id p o).generation ≡ p.generation)
unfolding send_roster_to roster_payload
announce_to-sent now peer_id payload p none h = rw h (h, refl, refl)
announce_to-sent now peer_id payload p (some s) h = rw h (h, refl, refl)

announce-sent :
    (now : ℕ) (connected : List ℕ) (payload : List ℕ) (p : RosterPublisher)
    → HasPayload payload p
    → ((announce true now connected p).sent ≡ handed payload connected p.sent)
      × ((announce true now connected p).generation ≡ p.generation)
announce-sent now [] payload p h = (refl, refl)
announce-sent now (peer_id ∷ connected) payload p h =
    let o = find_schedule peer_id p.schedules in
    let step = announce_to-sent now peer_id payload p o h in
    let rest = announce-sent now connected payload (announce_to true now peer_id p o) step.0 in
    (rest.0 ∙ ap (λ sent. handed payload connected sent) step.1, rest.1 ∙ step.2)

-- The roster that `refresh` makes, with the next generation.
abbrev pub renewed : RosterPeer → List ℕ → RosterPublisher → RosterPublisher
renewed self connected p = record p {
  last = some (build_roster self p.peers connected);
  generation = u32 (p.generation + 1);
}

-- What `run` leaves, when the roster has changed, of what it was.
abbrev pub IsPublished : ℕ → List ℕ → List ℕ → RosterPublisher → RosterPublisher → Type 0
IsPublished now connected payload p q =
    (q.sent ≡ handed payload connected p.sent)
    × (q.generation ≡ u32 (p.generation + 1))
    × All (IsRestarted now q) connected

announced-IsPublished :
    (now : ℕ) (connected payload : List ℕ) (p q : RosterPublisher)
    → now + 15000 < 0x1_0000_0000_0000_0000
    → HasPayload payload q
    → q.sent ≡ p.sent
    → q.generation ≡ u32 (p.generation + 1)
    → IsPublished now connected payload p
        (run_sessions now connected (announce true now connected q))
announced-IsPublished now connected payload p q w h s g =
    let r = announce true now connected q in
    let sent = announce-sent now connected payload q h in
    let again = announce-IsRestarted now connected q in
    let IsDone = λ (t : RosterPublisher). IsPublished now connected payload p t in
    subst IsDone (sym (run_sessions-quiet now connected r (restarted now) (ground arith) again))
      (sent.0 ∙ ap (λ t. handed payload connected t) s, sent.1 ∙ g, again)

-- When the publisher of a host looks at a roster that has changed, its generation goes up by one, every
-- connected session gets the roster of that generation once, in their order, and nothing else is
-- sent; each of them has its schedule anew, with two resends in 5 s and the period of 15 s. The roster
-- has to have a form that can be written, and the time must not be at the end of its range.
pub run_publisher-IsPublished :
    (now : ℕ) (connected payload : List ℕ) (self : RosterPeer) (p : RosterPublisher)
    → now + 15000 < 0x1_0000_0000_0000_0000
    → p.self ≡ some self
    → p.dirty ≡ true
    → has_changed (build_roster self p.peers connected) p ≡ true
    → roster_payload (renewed self connected p) ≡ some payload
    → IsPublished now connected payload p (run_publisher now connected p)
unfolding run_publisher refresh roster_payload
run_publisher-IsPublished now connected payload self p w e d c h =
    let IsDone =
      λ (t : RosterPublisher). IsPublished now connected payload p (run_sessions now connected t) in
    let q : Bool → RosterPublisher = λ b. record p {
      dirty = false;
      schedules = erase_if (λ entry. not (has_peer connected entry.0)) p.schedules;
      forced_change = false;
      last = some (build_roster self p.peers connected);
      generation = if b then u32 (p.generation + 1) else p.generation;
    } in
    subst (λ o. IsPublished now connected payload p (run_publisher_of now connected p o)) (sym e)
      (subst
        (λ b. IsDone (if b then refresh self now connected (record p { dirty = false }) else p))
        (sym d)
        (subst (λ b. IsDone (announce b now connected (q b))) (sym c)
          (announced-IsPublished now connected payload p (q true) w h refl refl)))
