-- ===== src/Tunnel/Publisher/Quiet.antt =====
-- `earliest` against `run`: nothing happens before it.
use sangtachi.Prelude.{
  ℕ, ◌≡◌, refl, sym, ap, subst, inl, inr, Bool, true, false, not, ◌&&◌, Option, none, some, List,
  [], ◌∷◌, if◌then◌else◌, All, arith, Bool-cases, Option-cases,
}
use sangtachi.Peer.Session.Lifecycle.{earlier}
use sangtachi.Peer.Session.Deadlines.{is_before, is_before-earlier}
use sangtachi.Tunnel.Publisher.{
  Schedule, RosterPublisher, is_key, has_self, find_schedule, write_schedule, earliest_schedule,
  earliest, has_come, run_schedule, run_sessions, run_publisher_of, run_publisher, refresh,
}

-- Neither deadline has come.
abbrev pub is_quiet : ℕ → Schedule → Bool
is_quiet now s = is_before now s.period_due && is_before now s.resend_due

abbrev pub all_quiet : ℕ → List (ℕ × Schedule) → Bool
all_quiet now [] = true
all_quiet now (entry ∷ entries) = is_quiet now entry.1 && all_quiet now entries

is_before-earliest_schedule :
    (now : ℕ) (entries : List (ℕ × Schedule)) (e : Option ℕ)
    → is_before now (earliest_schedule entries e) ≡ is_before now e && all_quiet now entries
is_before-earliest_schedule now [] e = ground arith
is_before-earliest_schedule now (entry ∷ entries) e =
    let d = entry.1.period_due in
    let r = entry.1.resend_due in
    ground (
      arith,
      is_before-earliest_schedule now entries (earlier (earlier e d) r),
      is_before-earlier now (earlier e d) r,
      is_before-earlier now e d,
    )

find_schedule-is_quiet :
    (now peer_id : ℕ) (entries : List (ℕ × Schedule)) (s : Schedule)
    → all_quiet now entries ≡ true
    → find_schedule peer_id entries ≡ some s
    → is_quiet now s ≡ true
find_schedule-is_quiet now peer_id [] s q f = ground (arith, f)
find_schedule-is_quiet now peer_id (entry ∷ entries) s q f =
    elim (Bool-cases (is_key peer_id entry)) [
      | inl e ↦
          let same : some entry.1 ≡ some s = ground (arith, e, f) in
          let same1 : entry.1 ≡ s = ground (arith, same) in
          subst (λ t. is_quiet now t ≡ true) same1 (ground (arith, q))
      | inr e ↦
          find_schedule-is_quiet now peer_id entries s (ground (arith, q)) (ground (arith, e, f))
    ]

pub write_schedule-same :
    (peer_id : ℕ) (entries : List (ℕ × Schedule)) (s : Schedule)
    → find_schedule peer_id entries ≡ some s
    → write_schedule peer_id s entries ≡ entries
write_schedule-same peer_id [] s f = refl
write_schedule-same peer_id (entry ∷ entries) s f = elim (Bool-cases (is_key peer_id entry)) [
  | inl e ↦
      let same : some entry.1 ≡ some s = ground (arith, e, f) in
      let same1 : entry.1 ≡ s = ground (arith, same) in
      rw e (ap (λ t. (entry.0, t) ∷ entries) (sym same1))
  | inr e ↦
      rw e (ap (λ es. entry ∷ es) (write_schedule-same peer_id entries s (ground (arith, e, f))))
]

is_before-has_come : (now : ℕ) (d : Option ℕ) → has_come now d ≡ not (is_before now d)
is_before-has_come now none = refl
is_before-has_come now (some d) = ground arith

run_schedule-quiet :
    (now peer_id : ℕ) (p : RosterPublisher) (s : Schedule)
    → find_schedule peer_id p.schedules ≡ some s
    → is_quiet now s ≡ true
    → run_schedule now peer_id p (find_schedule peer_id p.schedules) ≡ p
unfolding run_schedule
run_schedule-quiet now peer_id p s e quiet =
    let r : has_come now s.resend_due ≡ false =
      ground (arith, quiet, is_before-has_come now s.resend_due) in
    let d : has_come now s.period_due ≡ false =
      ground (arith, quiet, is_before-has_come now s.period_due) in
    subst (λ o. run_schedule now peer_id p o ≡ p) (sym e)
      (rw (r, d)
        (ap (λ es. record p { schedules = es }) (write_schedule-same peer_id p.schedules s e)))

-- The sessions whose schedules are the same, with no deadline that has come.
pub run_sessions-quiet :
    (now : ℕ) (connected : List ℕ) (p : RosterPublisher) (s : Schedule)
    → is_quiet now s ≡ true
    → All (λ id. find_schedule id p.schedules ≡ some s) connected
    → run_sessions now connected p ≡ p
run_sessions-quiet now [] p s q h = refl
run_sessions-quiet now (peer_id ∷ connected) p s q h =
    rw (run_schedule-quiet now peer_id p s h.0 q) (run_sessions-quiet now connected p s q h.1)

run_schedule_early :
    (now peer_id : ℕ) (p : RosterPublisher)
    → all_quiet now p.schedules ≡ true
    → run_schedule now peer_id p (find_schedule peer_id p.schedules) ≡ p
unfolding run_schedule
run_schedule_early now peer_id p q = elim (Option-cases (find_schedule peer_id p.schedules)) [
  | inl e ↦ subst (λ o. run_schedule now peer_id p o ≡ p) (sym e) refl
  | inr (s, e) ↦
      run_schedule-quiet now peer_id p s e (find_schedule-is_quiet now peer_id p.schedules s q e)
]

run_sessions_early :
    (now : ℕ) (connected : List ℕ) (p : RosterPublisher)
    → all_quiet now p.schedules ≡ true
    → run_sessions now connected p ≡ p
run_sessions_early now [] p q = refl
run_sessions_early now (peer_id ∷ connected) p q =
    rw (run_schedule_early now peer_id p q) (run_sessions_early now connected p q)

-- Before the time that `earliest` names, and for good if it names none, `run` leaves the publisher as
-- it is and sends nothing, whatever the connected sessions are.
pub run_publisher_early :
    (now : ℕ) (connected : List ℕ) (p : RosterPublisher)
    → is_before now (earliest p) ≡ true
    → run_publisher now connected p ≡ p
unfolding run_publisher earliest
run_publisher_early now connected p b = elim (Option-cases p.self) [
  | inl e ↦ subst (λ o. run_publisher_of now connected p o ≡ p) (sym e) refl
  | inr (self, e) ↦
      let active : has_self p.self ≡ true = subst (λ o. has_self o ≡ true) (sym e) refl in
      let clean : p.dirty ≡ false = ground (arith, active, b) in
      let quiet : all_quiet now p.schedules ≡ true =
        ground (arith, active, b, is_before-earliest_schedule now p.schedules none) in
      subst (λ o. run_publisher_of now connected p o ≡ p) (sym e)
        (subst
          (λ b.
            run_sessions now connected
              (if b then refresh self now connected (record p { dirty = false }) else p)
            ≡ p)
          (sym clean) (run_sessions_early now connected p quiet))
]
