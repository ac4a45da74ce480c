-- ===== src/Timer/Validity.antt =====
-- Validity of the set over `run_expired`, whatever the callback adds and cancels.
use sangtachi.Prelude.{
  ℕ, suc, ◌+◌, ◌<◌, ◌≤◌, ◌≡◌, refl, ◌∙◌, inl, inr, false, List, [], ◌∷◌, length, arith,
  Option-cases,
}
use sangtachi.Timer.{TimerSet, is_live_named, find, add_periodic, add_once, cancel}
use sangtachi.Timer.Live.{IsValid, IsFiring, find_first-All, add_once-IsAdded, add_periodic-IsAdded}
use sangtachi.Timer.Cancel.{cancel-live}

-- What a callback may do to the set.
pub data TimerOp : Type 0 where
  add_periodic_op add_once_op : List ℕ → ℕ → ℕ → TimerOp
  cancel_op : List ℕ → TimerOp

abbrev pub apply_op : TimerOp → TimerSet → TimerSet
apply_op (TimerOp.add_periodic_op name interval now) ts = (add_periodic ts name interval now).1
apply_op (TimerOp.add_once_op name delay now) ts = (add_once ts name delay now).1
apply_op (TimerOp.cancel_op name) ts = (cancel ts name).1

abbrev pub apply_ops : List TimerOp → TimerSet → TimerSet
apply_ops [] ts = ts
apply_ops (op ∷ ops) ts = apply_ops ops (apply_op op ts)

-- A valid set whose next `n` ids fit.
pub record HasRoom (n : ℕ) (ts : TimerSet) : Type 0 where
  pub valid : IsValid ts
  pub firing : IsFiring ts
  pub started : 1 ≤ ts.next_id
  pub room : ts.next_id + n < 0x1_0000_0000_0000_0000

apply_op-frame :
    (op : TimerOp) (ts : TimerSet)
    → ts.next_id + 1 < 0x1_0000_0000_0000_0000
    → ((apply_op op ts).firing_id ≡ ts.firing_id)
      × (ts.next_id ≤ (apply_op op ts).next_id)
      × ((apply_op op ts).next_id ≤ ts.next_id + 1)
unfolding add_periodic add_once cancel
apply_op-frame (TimerOp.add_periodic_op name interval now) ts h = ground arith
apply_op-frame (TimerOp.add_once_op name delay now) ts h = ground arith
apply_op-frame (TimerOp.cancel_op name) ts h = elim (Option-cases (find ts name)) [
  | inl e ↦ ground (arith, e)
  | inr (t, e) ↦ ground (arith, e)
]

apply_op-IsValid :
    (op : TimerOp) (ts : TimerSet)
    → IsValid ts
    → IsFiring ts
    → 1 ≤ ts.next_id
    → ts.next_id + 1 < 0x1_0000_0000_0000_0000
    → IsValid (apply_op op ts)
apply_op-IsValid (TimerOp.add_periodic_op name interval now) ts v f o l =
    (add_periodic-IsAdded ts name interval now v f o l).2
apply_op-IsValid (TimerOp.add_once_op name delay now) ts v f o l =
    (add_once-IsAdded ts name delay now v f o l).2
apply_op-IsValid (TimerOp.cancel_op name) ts v f o l = (cancel-live ts name v).2

apply_op-HasRoom :
    (op : TimerOp) (n : ℕ) (ts : TimerSet) → HasRoom (suc n) ts → HasRoom n (apply_op op ts)
apply_op-HasRoom op n ts h =
    let frame = apply_op-frame op ts (omega (arith, h.room)) in
    record {
      valid = apply_op-IsValid op ts h.valid h.firing h.started (omega (arith, h.room));
      firing = omega (arith, frame, h.firing);
      started = omega (arith, frame, h.started);
      room = omega (arith, frame, h.room);
    }

pub HasRoom-le : (n m : ℕ) (ts : TimerSet) → m ≤ n → HasRoom n ts → HasRoom m ts
HasRoom-le n m ts l h = record {
  valid = h.valid;
  firing = h.firing;
  started = h.started;
  room = omega (arith, h.room);
}

pub apply_ops-HasRoom :
    (ops : List TimerOp) (n : ℕ) (ts : TimerSet)
    → HasRoom (length ops + n) ts
    → HasRoom n (apply_ops ops ts)
apply_ops-HasRoom [] n ts h = HasRoom-le (length {A = TimerOp} [] + n) n ts (omega arith) h
apply_ops-HasRoom (op ∷ ops) n ts h = apply_ops-HasRoom ops n (apply_op op ts) (
    apply_op-HasRoom op (length ops + n) ts
      (HasRoom-le (length (op ∷ ops) + n) (suc (length ops + n)) ts (omega arith) h))

pub apply_ops-firing :
    (ops : List TimerOp) (n : ℕ) (ts : TimerSet)
    → HasRoom (length ops + n) ts
    → (apply_ops ops ts).firing_id ≡ ts.firing_id
apply_ops-firing [] n ts h = refl
apply_ops-firing (op ∷ ops) n ts h =
    apply_ops-firing ops n (apply_op op ts) (
      apply_op-HasRoom op (length ops + n) ts
        (HasRoom-le (length (op ∷ ops) + n) (suc (length ops + n)) ts (omega arith) h))
    ∙ (apply_op-frame op ts (omega (arith, h.room))).0

-- No callback is running.
abbrev pub IsIdle : TimerSet → Type 0
IsIdle ts = (ts.firing_id ≡ 0) × (ts.cancel_pending ≡ false)

apply_op-IsIdle : (op : TimerOp) (ts : TimerSet) → IsValid ts → IsIdle ts → IsIdle (apply_op op ts)
unfolding add_periodic add_once cancel find
apply_op-IsIdle (TimerOp.add_periodic_op name interval now) ts v h = ground arith
apply_op-IsIdle (TimerOp.add_once_op name delay now) ts v h = ground arith
apply_op-IsIdle (TimerOp.cancel_op name) ts v h = elim (Option-cases (find ts name)) [
  | inl e ↦ ground (arith, e)
  | inr (t, e) ↦
      let known =
        find_first-All (λ t. (1 ≤ t.id) × (t.id < ts.next_id)) (is_live_named ts name) ts.timers t e
          v.known in
      ground (arith, e, known.1, h)
]

pub apply_ops-IsIdle :
    (ops : List TimerOp) (n : ℕ) (ts : TimerSet)
    → HasRoom (length ops + n) ts
    → IsIdle ts
    → IsIdle (apply_ops ops ts)
apply_ops-IsIdle [] n ts h i = i
apply_ops-IsIdle (op ∷ ops) n ts h i =
    apply_ops-IsIdle ops n (apply_op op ts)
      (apply_op-HasRoom op (length ops + n) ts
        (HasRoom-le (length (op ∷ ops) + n) (suc (length ops + n)) ts (omega arith) h))
      (apply_op-IsIdle op ts h.valid i)
