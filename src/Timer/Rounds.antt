-- ===== src/Timer/Rounds.antt =====
-- What a round of the timers does, in plain arithmetic, and the wait behind it.
use sangtachi.Prelude.{
  ℕ, ◌+◌, ◌-◌, ◌<◌, ◌≤◌, ◌≡◌, refl, sym, subst, ◌∙◌, inl, inr, Bool, true, false, not, ◌&&◌, ◌||◌,
  Option, none, some, List, [], ◌∷◌, All, any, arith, ltb, leb, ◌==◌, if◌then◌else◌, Bool-cases,
  IsDistinct, erase_if,
}
use sangtachi.Timer.{Timer, TimerTick, TimerSet, run_expired, earliest_deadline, next_timeout_ms}
use sangtachi.Timer.Live.{live, same_id}
use sangtachi.Timer.Deadlines.{IsEarliest, earliest_deadline-IsEarliest, next_timeout_ms_lem}
use sangtachi.Timer.Expiry.{note_tick, idle_set, swept, due_ticks, run_expired-sweep, joined}

-- The ticks of the timers that are due, in their order, with the time since each last fired.
abbrev pub fired : ℕ → List Timer → List TimerTick
fired now [] = []
fired now (t ∷ timers) =
    let rest = fired now timers in
    if leb t.deadline now
    then record { name = t.name; elapsed_ms = now - t.last_fired } ∷ rest
    else rest

-- A timer that is not due stays; of the others a periodic one is due next an interval from now.
abbrev pub remaining : ℕ → List Timer → List Timer
remaining now [] = []
remaining now (t ∷ timers) =
    let rest = remaining now timers in
    if ltb now t.deadline
    then t ∷ rest
    else if t.repeating
    then record {
      name = t.name;
      interval_ms = t.interval_ms;
      deadline = now + t.interval_ms;
      last_fired = now;
      repeating = true;
      id = t.id;
    }
      ∷ rest
    else rest

-- The timer has fired before now, and an interval from now does not leave the range of the clock.
abbrev pub IsTimely : ℕ → Timer → Type 0
IsTimely now t = (t.last_fired ≤ now) × (now + t.interval_ms < 0x1_0000_0000_0000_0000)

due_ticks-fired :
    (now : ℕ) (timers : List Timer)
    → All (IsTimely now) timers
    → due_ticks now timers ≡ fired now timers
due_ticks-fired now [] h = refl
due_ticks-fired now (t ∷ timers) h = ground (arith, due_ticks-fired now timers h.1, h.0)

swept-remaining :
    (now : ℕ) (timers : List Timer)
    → All (IsTimely now) timers
    → swept now timers ≡ remaining now timers
swept-remaining now [] h = refl
swept-remaining now (t ∷ timers) h = ground (arith, swept-remaining now timers h.1, h.0)

-- With a callback that leaves the set alone, a round fires exactly the timers that are due, each
-- once and in their order, with the time since they last fired; one that fires once is gone, a
-- periodic one is due next an interval from now, and the others stay. The ids are distinct, no
-- callback is running, no timer fired after now, and the clock does not run over within an interval.
pub run_expired-fired :
    (next now : ℕ) (timers : List Timer)
    → IsDistinct same_id timers
    → All (IsTimely now) timers
    → run_expired note_tick now (idle_set next timers) []
      ≡ (idle_set next (remaining now timers), fired now timers)
run_expired-fired next now timers d h =
    run_expired-sweep next now timers d
    ∙ joined next (swept-remaining now timers h) (due_ticks-fired now timers h)

-- A periodic timer has an interval that is not 0.
abbrev pub is_steady : Timer → Bool
is_steady t = not t.repeating || ltb 0 t.interval_ms

remaining_later :
    (now : ℕ) (timers : List Timer)
    → All (λ t. is_steady t ≡ true) timers
    → any (λ t. leb t.deadline now) (remaining now timers) ≡ false
remaining_later now [] h = refl
remaining_later now (t ∷ timers) h = ground (arith, remaining_later now timers h.1, h.0)

not_due :
    (now d : ℕ) (p : Timer → Bool) (timers : List Timer)
    → any (λ t. leb t.deadline now) timers ≡ false
    → any (λ t. t.deadline == d) (erase_if p timers) ≡ true
    → now < d
not_due now d p [] h e = ground (arith, e)
not_due now d p (t ∷ timers) h e = elim (Bool-cases (p t)) [
  | inl c ↦ not_due now d p timers (ground (arith, h)) (ground (arith, c, e))
  | inr c ↦ elim (Bool-cases (t.deadline == d)) [
    | inl f ↦ ground (arith, h, f)
    | inr f ↦ not_due now d p timers (ground (arith, h)) (ground (arith, c, e, f))
  ]
]

waits :
    (now : ℕ) (ts : TimerSet) (o : Option ℕ)
    → any (λ t. leb t.deadline now) ts.timers ≡ false
    → IsEarliest (live ts) o
    → 0 < next_timeout_ms now o
waits now ts none h e = let w = next_timeout_ms_lem now 0 in omega (arith, w.0)
waits now ts (some d) h e =
    let w = next_timeout_ms_lem now d in
    (w.2 (not_due now d (λ t. ts.cancel_pending && (t.id == ts.firing_id)) ts.timers h e.0)).0

-- After such a round the next wait is not 0, provided that the intervals of the periodic timers are
-- not 0; a timer that fires once may have any delay.
pub run_expired_waits :
    (next now : ℕ) (timers : List Timer)
    → IsDistinct same_id timers
    → All (IsTimely now) timers
    → All (λ t. is_steady t ≡ true) timers
    → 0
      < next_timeout_ms now
          (earliest_deadline (run_expired note_tick now (idle_set next timers) []).0)
run_expired_waits next now timers d h k =
    let ts = idle_set next (remaining now timers) in
    subst (λ r. 0 < next_timeout_ms now (earliest_deadline r.0))
      (sym (run_expired-fired next now timers d h))
      (waits now ts (earliest_deadline ts) (remaining_later now timers k)
        (earliest_deadline-IsEarliest ts))
