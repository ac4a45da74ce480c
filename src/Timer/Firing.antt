-- ===== src/Timer/Firing.antt =====
-- One round of the timers keeps the set valid, whatever the callback adds and cancels.
use sangtachi.Prelude.{
  ℕ, ◌+◌, ◌*◌, ◌<◌, ◌≤◌, ◌≡◌, refl, sym, ap, subst, ◌∙◌, inl, inr, Bool, false, not, some, List, [],
  ◌∷◌, All, length, arith, ◌==◌, if◌then◌else◌, Bool-cases, Option-cases, IsDistinct, erase_if-All,
  erase_if-IsDistinct, All-weaken,
}
use native.Mathlib.Nat.{mul-suc}
use sangtachi.Timer.{
  Timer, TimerTick, TimerSet, is_cancelled, find_first, erase_first, has_id, write_timer, rearmed,
  tick_of, begin_firing, end_firing, fire_found, fire, fire_each, run_expired, due_ids,
}
use sangtachi.Timer.Live.{same_name, same_id, IsValid, find_first-All}
use sangtachi.Timer.Names.{erase_first-All, erase_first-IsDistinct}
use sangtachi.Timer.Validity.{
  TimerOp, apply_ops, HasRoom, HasRoom-le, apply_ops-HasRoom, apply_ops-firing, apply_ops-IsIdle,
  IsIdle,
}
use sangtachi.Timer.Marks.{live_unmarked, unmarked-IsValid, end_firing-live}

module _ (t new : Timer) where
  write_timer-All {κ} :
      (P : Timer → Type κ) (xs : List Timer)
      → (P t → P new)
      → find_first (has_id new.id) xs ≡ some t
      → All P xs
      → All P (write_timer new xs)
  write_timer-All P [] f e h = h
  write_timer-All P (x ∷ xs) f e h = elim (Bool-cases (x.id == new.id)) [
    | inl k ↦ (let first : x ≡ t = ground (arith, k, e) in rw k (f (subst P first h.0), h.1))
    | inr k ↦ rw k (h.0, write_timer-All P xs f (ground (arith, k, e)) h.1)
  ]

  write_timer-IsDistinct :
      (same : Timer → Timer → Bool) (xs : List Timer)
      → ((y : Timer) → same t y ≡ same new y)
      → ((y : Timer) → same y t ≡ same y new)
      → find_first (has_id new.id) xs ≡ some t
      → IsDistinct same xs
      → IsDistinct same (write_timer new xs)
  write_timer-IsDistinct same [] f g e h = h
  write_timer-IsDistinct same (x ∷ xs) f g e h = elim (Bool-cases (x.id == new.id)) [
    | inl k ↦
        let first : x ≡ t = ground (arith, k, e) in
        rw k (
          All-weaken (λ y. same x y ≡ false) (λ y. same new y ≡ false)
              (λ y q. sym (f y) ∙ ap (λ z. same z y) (sym first) ∙ q) xs h.0,
          h.1,
        )
    | inr k ↦
        let rest : find_first (has_id new.id) xs ≡ some t = ground (arith, k, e) in
        rw k (
          write_timer-All (λ y. same x y ≡ false) xs (λ q. sym (g x) ∙ q) rest h.0,
          write_timer-IsDistinct same xs f g rest h.1,
        )
  ]

end_firing-HasRoom :
    (n : ℕ) (ts : TimerSet)
    → HasRoom n ts
    → HasRoom n (end_firing ts.firing_id ts) × IsIdle (end_firing ts.firing_id ts)
end_firing-HasRoom n ts h =
    let left = sym (end_firing-live ts h.valid.ids) in
    let known = λ (t : Timer). (1 ≤ t.id) × (t.id < ts.next_id) in
    (
      record {
        valid =
            unmarked-IsValid (end_firing ts.firing_id ts) refl
              (subst (IsDistinct same_name) left h.valid.names)
              (subst (IsDistinct same_id) left
                (erase_if-IsDistinct same_id (is_cancelled ts) ts.timers h.valid.ids))
              (subst (All known) left
                (erase_if-All known (is_cancelled ts) ts.timers h.valid.known));
        firing = omega (arith, h.started);
        started = h.started;
        room = h.room;
      },
      (refl, refl),
    )

begin_firing-HasRoom :
    (n now : ℕ) (t : Timer) (ts : TimerSet)
    → HasRoom n ts
    → IsIdle ts
    → find_first (has_id t.id) ts.timers ≡ some t
    → HasRoom n (begin_firing now t ts)
begin_firing-HasRoom n now t ts h i e =
    let found =
      find_first-All (λ t. (1 ≤ t.id) × (t.id < ts.next_id)) (has_id t.id) ts.timers t e
        h.valid.known in
    record {
      valid =
          unmarked-IsValid (begin_firing now t ts) refl
            (write_timer-IsDistinct t (rearmed now t) same_name ts.timers (λ y. refl) (λ y. refl) e
              (subst (IsDistinct same_name) (live_unmarked ts i.1) h.valid.names))
            (write_timer-IsDistinct t (rearmed now t) same_id ts.timers (λ y. refl) (λ y. refl) e
              h.valid.ids)
            (write_timer-All t (rearmed now t) (λ t. (1 ≤ t.id) × (t.id < ts.next_id)) ts.timers
              (λ q. q) e h.valid.known);
      firing = found.1.1;
      started = h.started;
      room = h.room;
    }

-- A one-shot timer goes before its callback.
erase_first-HasRoom :
    (n : ℕ) (p : Timer → Bool) (ts : TimerSet)
    → HasRoom n ts
    → IsIdle ts
    → HasRoom n (record ts { timers = erase_first p ts.timers })
erase_first-HasRoom n p ts h i = record {
  valid =
      unmarked-IsValid (record ts { timers = erase_first p ts.timers }) i.1
        (erase_first-IsDistinct same_name p ts.timers
          (subst (IsDistinct same_name) (live_unmarked ts i.1) h.valid.names))
        (erase_first-IsDistinct same_id p ts.timers h.valid.ids)
        (erase_first-All (λ t. (1 ≤ t.id) × (t.id < ts.next_id)) p ts.timers h.valid.known);
  firing = h.firing;
  started = h.started;
  room = h.room;
}

-- A callback that adds and cancels timers, with at most `k` calls each time.
abbrev pub Uses : {S : Type 0} → ℕ → (TimerTick → TimerSet → S → TimerSet × S) → Type 0
Uses {S} k on_tick =
    (t : TimerTick) (ts : TimerSet) (s : S)
    → (ops : List TimerOp) × ((on_tick t ts s).0 ≡ apply_ops ops ts) × (length ops ≤ k)

module _ {S : Type 0} (k : ℕ) (on_tick : TimerTick → TimerSet → S → TimerSet × S)
    (u : Uses k on_tick) where
  on_tick-HasRoom :
      (n : ℕ) (t : TimerTick) (ts : TimerSet) (s : S)
      → HasRoom (k + n) ts
      → HasRoom n (on_tick t ts s).0
        × ((on_tick t ts s).0.firing_id ≡ ts.firing_id)
        × (IsIdle ts → IsIdle (on_tick t ts s).0)
  on_tick-HasRoom n t ts s h =
      let ops = u t ts s in
      let room = HasRoom-le (k + n) (length ops.0 + n) ts (omega (arith, ops.2)) h in
      rw ops.1 (
        apply_ops-HasRoom ops.0 n ts room,
        apply_ops-firing ops.0 n ts room,
        apply_ops-IsIdle ops.0 n ts room,
      )

  fired-HasRoom :
      (n now : ℕ) (t : Timer) (ts : TimerSet) (s : S)
      → HasRoom (k + n) ts
      → IsIdle ts
      → find_first (has_id t.id) ts.timers ≡ some t
      → HasRoom n (fire_found on_tick now t.id ts s (some t)).0
        × IsIdle (fire_found on_tick now t.id ts s (some t)).0
  fired-HasRoom n now t ts s h i e =
      let begun = begin_firing now t ts in
      let after = (on_tick (tick_of now t) begun s) in
      let gone = record ts { timers = erase_first (has_id t.id) ts.timers } in
      let IsDone = λ (b : Bool).
        let out =
          if not b then on_tick (tick_of now t) gone s else (end_firing t.id after.0, after.1) in
        HasRoom n out.0 × IsIdle out.0 in
      elim (Bool-cases t.repeating) [
        | inl r ↦
            let out =
              on_tick-HasRoom n (tick_of now t) begun s
                (begin_firing-HasRoom (k + n) now t ts h i e) in
            subst IsDone (sym r) (
              subst (λ f. HasRoom n (end_firing f after.0) × IsIdle (end_firing f after.0)) out.1
                (end_firing-HasRoom n after.0 out.0))
        | inr r ↦
            let out =
              on_tick-HasRoom n (tick_of now t) gone s
                (erase_first-HasRoom (k + n) (has_id t.id) ts h i) in
            subst IsDone (sym r) (out.0, out.2 i)
      ]

  fire-HasRoom :
      (n now id : ℕ) (ts : TimerSet) (s : S)
      → HasRoom (k + n) ts
      → IsIdle ts
      → HasRoom n (fire on_tick now id ts s).0 × IsIdle (fire on_tick now id ts s).0
  unfolding fire
  fire-HasRoom n now id ts s h i = elim (Option-cases (find_first (has_id id) ts.timers)) [
    | inl e ↦
        subst
          (λ o.
            HasRoom n (fire_found on_tick now id ts s o).0
            × IsIdle (fire_found on_tick now id ts s o).0)
          (sym e) (HasRoom-le (k + n) n ts (omega arith) h, i)
    | inr (t, e) ↦
        let known =
          find_first-All (λ t. (1 ≤ t.id) × (t.id < ts.next_id)) (has_id id) ts.timers t e
            h.valid.known in
        let same : t.id ≡ id = ground (arith, known.0) in
        subst
          (λ o.
            HasRoom n (fire_found on_tick now id ts s o).0
            × IsIdle (fire_found on_tick now id ts s o).0)
          (sym e)
          (subst
            (λ j.
              HasRoom n (fire_found on_tick now j ts s (some t)).0
              × IsIdle (fire_found on_tick now j ts s (some t)).0)
            same
            (fired-HasRoom n now t ts s h i
              (subst (λ j. find_first (has_id j) ts.timers ≡ some t) (sym same) e)))
  ]

  fire_each-HasRoom :
      (n now : ℕ) (ids : List ℕ) (ts : TimerSet) (s : S)
      → HasRoom (k * length ids + n) ts
      → IsIdle ts
      → HasRoom n (fire_each on_tick now ids ts s).0 × IsIdle (fire_each on_tick now ids ts s).0
  fire_each-HasRoom n now [] ts s h i =
      (HasRoom-le (k * length {A = ℕ} [] + n) n ts (omega arith) h, i)
  fire_each-HasRoom n now (id ∷ ids) ts s h i =
      let first =
        fire-HasRoom (k * length ids + n) now id ts s
          (HasRoom-le (k * length (id ∷ ids) + n) (k + (k * length ids + n)) ts
            (omega (arith, mul-suc k (length ids))) h)
          i in
      fire_each-HasRoom n now ids (fire on_tick now id ts s).0 (fire on_tick now id ts s).1 first.0
        first.1

-- After a round of the timers at whatever time, whose callback adds and cancels timers, the set is
-- valid: live names and ids are unique, and no node is left marked or firing. The set is valid
-- before and no callback is running; each call of the callback makes at most `k` changes, and the
-- ids are not used up by that.
pub run_expired-IsValid :
    {S : Type 0} (k : ℕ) (on_tick : TimerTick → TimerSet → S → TimerSet × S) (now : ℕ)
    (ts : TimerSet) (s : S)
    → Uses k on_tick
    → IsValid ts
    → IsIdle ts
    → 1 ≤ ts.next_id
    → ts.next_id + k * length (due_ids now ts.timers) < 0x1_0000_0000_0000_0000
    → IsValid (run_expired on_tick now ts s).0 × IsIdle (run_expired on_tick now ts s).0
unfolding run_expired
run_expired-IsValid k on_tick now ts s u v i o l =
    let done =
      fire_each-HasRoom k on_tick u 0 now (due_ids now ts.timers) ts s
        (record { valid = v; firing = omega (arith, i.0, o); started = o; room = omega (arith, l) })
        i in
    (done.0.valid, done.1)
