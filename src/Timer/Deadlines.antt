-- ===== src/Timer/Deadlines.antt =====
-- The earliest deadline, and the time to wait for it.
use sangtachi.Prelude.{
  ℕ, ◌+◌, ◌<◌, ◌≤◌, ◌≡◌, refl, inl, inr, true, ◌||◌, Option, none, some, List, [], ◌∷◌, All, any,
  erase_if, arith, ltb, ◌==◌, Bool-cases,
}
use sangtachi.Timer.{
  Timer, TimerSet, is_cancelled, earliest_deadline, earliest_of, sooner, next_timeout_ms,
}
use sangtachi.Timer.Live.{live}

-- The least of the deadlines, if there are any.
abbrev pub IsEarliest : List Timer → Option ℕ → Type 0
IsEarliest timers none = timers ≡ []
IsEarliest timers (some d) =
    (any (λ t. t.deadline == d) timers ≡ true) × All (λ t. d ≤ t.deadline) timers

abbrev least : List Timer → Option ℕ → Option ℕ
least [] e = e
least (t ∷ timers) e = least timers (sooner t.deadline e)

earliest_of-live :
    (ts : TimerSet) (xs : List Timer) (e : Option ℕ)
    → earliest_of ts xs e ≡ least (erase_if (is_cancelled ts) xs) e
earliest_of-live ts [] e = refl
earliest_of-live ts (t ∷ xs) e = elim (Bool-cases (is_cancelled ts t)) [
  | inl c ↦ rw c (earliest_of-live ts xs e)
  | inr c ↦ rw c (earliest_of-live ts xs (sooner t.deadline e))
]

-- With a deadline `d` so far.
least_lem :
    (xs : List Timer) (d : ℕ)
    → (m : ℕ) × (least xs (some d) ≡ some m)
      × (m ≤ d)
      × All (λ t. m ≤ t.deadline) xs
      × ((m == d) || any (λ t. t.deadline == m) xs ≡ true)
least_lem [] d = (d, refl, ground arith, tt, ground arith)
least_lem (t ∷ xs) d = elim (Bool-cases (ltb t.deadline d)) [
  | inl e ↦
      (let found = least_lem xs t.deadline in
        (
          found.0,
          rw e found.1,
          ground (arith, e, found.2),
          (found.2, found.3),
          ground (arith, found.4),
        ))
  | inr e ↦
      (let found = least_lem xs d in
        (
          found.0,
          rw e found.1,
          found.2,
          (ground (arith, e, found.2), found.3),
          ground (arith, found.4),
        ))
]

least-IsEarliest : (xs : List Timer) → IsEarliest xs (least xs none)
least-IsEarliest [] = refl
least-IsEarliest (t ∷ xs) =
    let found = least_lem xs t.deadline in rw found.1 (ground (arith, found.4), (found.2, found.3))

-- `earliest_deadline` is the least deadline of the live timers, and there is none exactly if there
-- are no live timers.
pub earliest_deadline-IsEarliest : (ts : TimerSet) → IsEarliest (live ts) (earliest_deadline ts)
unfolding earliest_deadline
earliest_deadline-IsEarliest ts =
    rw (earliest_of-live ts ts.timers none) (least-IsEarliest (live ts))

-- The wait is 0 exactly if the deadline has come, and else it is neither 0 nor the value that means
-- an unlimited wait and does not go past the deadline; without a deadline it is unlimited.
pub next_timeout_ms_lem :
    (now deadline : ℕ)
    → (next_timeout_ms now none ≡ 0xffff_ffff)
      × (deadline ≤ now → next_timeout_ms now (some deadline) ≡ 0)
      × (now < deadline
          → (0 < next_timeout_ms now (some deadline))
            × (next_timeout_ms now (some deadline) < 0xffff_ffff)
            × (now + next_timeout_ms now (some deadline) ≤ deadline))
unfolding next_timeout_ms
next_timeout_ms_lem now deadline = (refl, (λ h. ground arith), (λ h. ground arith))
