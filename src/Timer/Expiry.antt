-- ===== src/Timer/Expiry.antt =====
-- A round of the timers with a callback that only notes the ticks: which timers fire, and what is left.
use sangtachi.Prelude.{
  ℕ, ◌≡◌, refl, sym, ap, ap₂, subst, ◌∙◌, inl, inr, Bool, false, some, List, [], ◌∷◌, ◌++◌, map,
  All, erase_if, arith, ltb, if◌then◌else◌, Bool-cases, IsDistinct, All-weaken, All-append,
  All-both, append_assoc, append-nil,
}
use sangtachi.Timer.{
  Timer, TimerTick, TimerSet, find_first, erase_first, has_id, write_timer, rearmed, tick_of,
  fire_found, fire, fire_each, run_expired, due_ids,
}
use sangtachi.Timer.Live.{same_id}

-- The callback that notes the tick and leaves the set alone.
abbrev pub note_tick : TimerTick → TimerSet → List TimerTick → TimerSet × List TimerTick
note_tick t ts log = (ts, log ++ (t ∷ []))

abbrev is_waiting : ℕ → Timer → Bool
is_waiting now t = ltb now t.deadline

-- The timers that are due fire in their order.
abbrev pub due_ticks : ℕ → List Timer → List TimerTick
due_ticks now timers = map (tick_of now) (erase_if (is_waiting now) timers)

-- A timer that was due is armed again, or gone if it fires once.
abbrev pub swept : ℕ → List Timer → List Timer
swept now [] = []
swept now (t ∷ timers) =
    let rest = swept now timers in
    if is_waiting now t then t ∷ rest else if t.repeating then rearmed now t ∷ rest else rest

abbrev pub idle_set : ℕ → List Timer → TimerSet
idle_set next timers = record {
  timers = timers;
  next_id = next;
  firing_id = 0;
  cancel_pending = false;
}

-- No timer of a list has the id.
abbrev IsAway : ℕ → List Timer → Type 0
IsAway id timers = All (λ t. has_id id t ≡ false) timers

find_first-away :
    (t : Timer) (pre rest : List Timer)
    → IsAway t.id pre
    → find_first (has_id t.id) (pre ++ (t ∷ rest)) ≡ some t
find_first-away t [] rest h = ground arith
find_first-away t (x ∷ pre) rest h = rw h.0 (find_first-away t pre rest h.1)

erase_first-away :
    (t : Timer) (pre rest : List Timer)
    → IsAway t.id pre
    → erase_first (has_id t.id) (pre ++ (t ∷ rest)) ≡ pre ++ rest
erase_first-away t [] rest h = ground arith
erase_first-away t (x ∷ pre) rest h = rw h.0 (ap (◌∷◌ x) (erase_first-away t pre rest h.1))

write_timer-away :
    (t new : Timer) (pre rest : List Timer)
    → new.id ≡ t.id
    → IsAway t.id pre
    → write_timer new (pre ++ (t ∷ rest)) ≡ pre ++ (new ∷ rest)
write_timer-away t new [] rest e h = ground (arith, e)
write_timer-away t new (x ∷ pre) rest e h =
    ground (arith, e, h.0, write_timer-away t new pre rest e h.1)

-- One timer that is due fires once.
fire-away :
    (next now : ℕ) (t : Timer) (pre rest : List Timer) (log : List TimerTick)
    → IsAway t.id pre
    → fire note_tick now t.id (idle_set next (pre ++ (t ∷ rest))) log ≡ (
      idle_set next (pre ++ ((if t.repeating then rearmed now t ∷ [] else []) ++ rest)),
      log ++ (tick_of now t ∷ []),
    )
unfolding fire
fire-away next now t pre rest log h =
    ap (fire_found note_tick now t.id (idle_set next (pre ++ (t ∷ rest))) log)
      (find_first-away t pre rest h)
    ∙ elim (Bool-cases t.repeating) [
      | inl r ↦ ground (arith, r, write_timer-away t (rearmed now t) pre rest refl h)
      | inr r ↦ ground (arith, r, erase_first-away t pre rest h)
    ]

abbrev left_of : ℕ → Timer → List Timer
left_of now t = if t.repeating then rearmed now t ∷ [] else []

left_of-IsAway : (now : ℕ) (t y : Timer) → same_id t y ≡ false → IsAway y.id (left_of now t)
left_of-IsAway now t y h = elim (Bool-cases t.repeating) [
  | inl r ↦ subst (λ b. IsAway y.id (if b then rearmed now t ∷ [] else [])) (sym r) (h, tt)
  | inr r ↦ subst (λ b. IsAway y.id (if b then rearmed now t ∷ [] else [])) (sym r) tt
]

-- The others stay away from what has been swept and what is put behind it.
IsAway-append :
    (pre more rest : List Timer)
    → All (λ y. IsAway y.id pre) rest
    → All (λ y. IsAway y.id more) rest
    → All (λ y. IsAway y.id (pre ++ more)) rest
IsAway-append pre more rest h k =
    All-both (λ y. IsAway y.id pre) (λ y. IsAway y.id more) (λ y. IsAway y.id (pre ++ more))
      (λ y p q. All-append (λ t. has_id y.id t ≡ false) pre more p q) rest h k

swept-due :
    (now : ℕ) (t : Timer) (rest : List Timer)
    → is_waiting now t ≡ false
    → swept now (t ∷ rest) ≡ left_of now t ++ swept now rest
swept-due now t rest h = ground (arith, h)

pub joined :
    (next : ℕ) {xs ys : List Timer} {us vs : List TimerTick}
    → xs ≡ ys
    → us ≡ vs
    → ◌≡◌ {A = TimerSet × List TimerTick} (idle_set next xs, us) (idle_set next ys, vs)
joined next p q = λ i. (idle_set next (p i), q i)

sweep :
    (next now : ℕ) (pre rest : List Timer) (log : List TimerTick)
    → All (λ t. IsAway t.id pre) rest
    → IsDistinct same_id rest
    → fire_each note_tick now (due_ids now rest) (idle_set next (pre ++ rest)) log
      ≡ (idle_set next (pre ++ swept now rest), log ++ due_ticks now rest)
sweep next now pre [] log h d = λ i. (idle_set next (pre ++ []), sym (append-nil log) i)
sweep next now pre (t ∷ rest) log h d = elim (Bool-cases (is_waiting now t)) [
  | inl w ↦
      ap₂ (λ ids timers. fire_each note_tick now ids (idle_set next timers) log)
        {x = due_ids now (t ∷ rest)} {y = due_ids now rest} {u = pre ++ (t ∷ rest)}
        {v = (pre ++ (t ∷ [])) ++ rest} (ground (arith, w)) (sym (append_assoc pre (t ∷ []) rest))
      ∙ sweep next now (pre ++ (t ∷ [])) rest log
          (IsAway-append pre (t ∷ []) rest h.1 (
            All-weaken (λ y. same_id t y ≡ false) (λ y. IsAway y.id (t ∷ [])) (λ y q. (q, tt)) rest
              d.0))
          d.1
      ∙ joined next
          (append_assoc pre (t ∷ []) (swept now rest)
            ∙ ap (◌++◌ pre) {x = t ∷ swept now rest} {y = swept now (t ∷ rest)} (ground (arith, w)))
          (ap (◌++◌ log) {x = due_ticks now rest} {y = due_ticks now (t ∷ rest)}
            (ground (arith, w)))
  | inr w ↦
      ap (λ ids. fire_each note_tick now ids (idle_set next (pre ++ (t ∷ rest))) log)
        {x = due_ids now (t ∷ rest)} {y = t.id ∷ due_ids now rest} (ground (arith, w))
      ∙ ap (λ out. fire_each note_tick now (due_ids now rest) out.0 out.1)
          (fire-away next now t pre rest log h.0)
      ∙ ap
          (λ timers.
            fire_each note_tick now (due_ids now rest) (idle_set next timers)
              (log ++ (tick_of now t ∷ [])))
          (sym (append_assoc pre (left_of now t) rest))
      ∙ sweep next now (pre ++ left_of now t) rest (log ++ (tick_of now t ∷ []))
          (IsAway-append pre (left_of now t) rest h.1 (
            All-weaken (λ y. same_id t y ≡ false) (λ y. IsAway y.id (left_of now t))
              (λ y q. left_of-IsAway now t y q) rest d.0))
          d.1
      ∙ joined next
          (append_assoc pre (left_of now t) (swept now rest)
            ∙ ap (◌++◌ pre) (sym (swept-due now t rest w)))
          (append_assoc log (tick_of now t ∷ []) (due_ticks now rest)
            ∙ ap (◌++◌ log) {x = tick_of now t ∷ due_ticks now rest} {y = due_ticks now (t ∷ rest)}
                (ground (arith, w)))
]

nil-IsAway : (xs : List Timer) → All (λ y. IsAway y.id []) xs
nil-IsAway [] = tt
nil-IsAway (x ∷ xs) = (tt, nil-IsAway xs)

-- A round in terms of the code's own steps.
pub run_expired-sweep :
    (next now : ℕ) (timers : List Timer)
    → IsDistinct same_id timers
    → run_expired note_tick now (idle_set next timers) []
      ≡ (idle_set next (swept now timers), due_ticks now timers)
unfolding run_expired
run_expired-sweep next now timers d = sweep next now [] timers [] (nil-IsAway timers) d
