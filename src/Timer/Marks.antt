-- ===== src/Timer/Marks.antt =====
-- What a marked timer leaves of the set, and what the end of its callback makes of it.
use sangtachi.Prelude.{
  ℕ, suc, ◌<◌, ◌≤◌, ◌≡◌, refl, sym, ap, ◌∙◌, inl, inr, Bool, true, false, List, [], ◌∷◌, All, any,
  erase_if, length, arith, ◌==◌, if◌then◌else◌, Bool-cases, IsDistinct, erase_if-none,
  erase_if-cong, erase_if-IsDistinct, All-weaken,
}
use sangtachi.Timer.{Timer, TimerSet, is_cancelled, erase_first, has_id, end_firing, timer_count}
use sangtachi.Timer.Live.{live, same_name, same_id, IsValid}

unmarked :
    (ts : TimerSet)
    → ts.cancel_pending ≡ false
    → (xs : List Timer) → All (λ t. is_cancelled ts t ≡ false) xs
unmarked ts h [] = tt
unmarked ts h (x ∷ xs) = (ground (arith, h), unmarked ts h xs)

-- Everything is live unless a timer is marked.
pub live_unmarked : (ts : TimerSet) → ts.cancel_pending ≡ false → live ts ≡ ts.timers
live_unmarked ts h = erase_if-none (is_cancelled ts) ts.timers (unmarked ts h ts.timers)

-- A set over other timers with distinct names and ids, and no mark.
pub unmarked-IsValid :
    (ts : TimerSet)
    → ts.cancel_pending ≡ false
    → IsDistinct same_name ts.timers
    → IsDistinct same_id ts.timers
    → All (λ t. (1 ≤ t.id) × (t.id < ts.next_id)) ts.timers
    → IsValid ts
unmarked-IsValid ts h n i k = record {
  names = erase_if-IsDistinct same_name (is_cancelled ts) ts.timers n;
  ids = i;
  known = k;
  marked = λ e. ground (arith, e, h);
}

-- Erasing the first timer with an id erases all with it, since there is only one.
erase_first-id :
    (id : ℕ) (xs : List Timer)
    → IsDistinct same_id xs
    → erase_first (has_id id) xs ≡ erase_if (has_id id) xs
erase_first-id id [] d = refl
erase_first-id id (x ∷ xs) d = elim (Bool-cases (x.id == id)) [
  | inl k ↦ rw k (
      sym (
        erase_if-none (has_id id) xs (
          All-weaken (λ y. same_id x y ≡ false) (λ y. has_id id y ≡ false)
            (λ y q. ground (arith, k, q)) xs d.0)))
  | inr k ↦ rw k (ap (◌∷◌ x) (erase_first-id id xs d.1))
]

marked_id :
    (ts : TimerSet)
    → ts.cancel_pending ≡ true
    → (xs : List Timer) → All (λ t. has_id ts.firing_id t ≡ is_cancelled ts t) xs
marked_id ts h [] = tt
marked_id ts h (x ∷ xs) = (ground (arith, h), marked_id ts h xs)

-- The end of a callback leaves the timers that were live.
pub end_firing-live :
    (ts : TimerSet) → IsDistinct same_id ts.timers → (end_firing ts.firing_id ts).timers ≡ live ts
end_firing-live ts d = elim (Bool-cases ts.cancel_pending) [
  | inl p ↦
      ap (λ b. if b then erase_first (has_id ts.firing_id) ts.timers else ts.timers) p
      ∙ erase_first-id ts.firing_id ts.timers d
      ∙ erase_if-cong (has_id ts.firing_id) (is_cancelled ts) ts.timers (marked_id ts p ts.timers)
  | inr p ↦
      ap (λ b. if b then erase_first (has_id ts.firing_id) ts.timers else ts.timers) p
      ∙ sym (live_unmarked ts p)
]

length-erase_first :
    (p : Timer → Bool) (xs : List Timer)
    → any p xs ≡ true
    → length xs ≡ suc (length (erase_first p xs))
length-erase_first p [] h = ground (arith, h)
length-erase_first p (x ∷ xs) h = ground (arith, length-erase_first p xs)

-- The count of the timers is that of the live ones: a timer that is only marked is not counted.
pub timer_count-live : (ts : TimerSet) → IsValid ts → timer_count ts ≡ length (live ts)
unfolding timer_count
timer_count-live ts v = elim (Bool-cases ts.cancel_pending) [
  | inl p ↦
      let gone : erase_first (has_id ts.firing_id) ts.timers ≡ live ts =
        erase_first-id ts.firing_id ts.timers v.ids
        ∙ erase_if-cong (has_id ts.firing_id) (is_cancelled ts) ts.timers
            (marked_id ts p ts.timers) in
      ground (
        arith,
        p,
        ap (λ l. length l) gone,
        length-erase_first (has_id ts.firing_id) ts.timers (v.marked p),
      )
  | inr p ↦ ground (arith, p, ap (λ l. length l) (live_unmarked ts p))
]
