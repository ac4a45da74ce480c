-- ===== src/Timer/Cancel.antt =====
-- Cancelling a timer takes it out of the live ones, also when its own callback runs and the node has
-- to stay.
use sangtachi.Prelude.{
  ℕ, ◌<◌, ◌≤◌, ◌≡◌, refl, sym, ap, subst, ◌∙◌, inl, inr, Bool, true, false, none, some, List, [],
  ◌∷◌, All, any, erase_if, arith, ◌==◌, Bool-cases, Option-cases, IsDistinct, erase_if-none,
  erase_if-cong, erase_if-IsDistinct, All-weaken,
}
use sangtachi.Timer.{
  Timer, TimerSet, is_cancelled, is_live_named, find_first, erase_first, find, cancel, cancel_found,
  has_id,
}
use sangtachi.Timer.Live.{
  live, same_name, same_id, is_named, IsValid, find_first-live, find_first-All, find_first-none,
  found-any,
}
use sangtachi.Timer.Names.{erase_first-live, one_match, erase_first-All, erase_first-IsDistinct}

-- The marked timer is not the one that is erased.
any-erase_first :
    (ts : TimerSet) (name : List ℕ) (xs : List Timer)
    → ts.cancel_pending ≡ true
    → any (has_id ts.firing_id) xs ≡ true
    → any (has_id ts.firing_id) (erase_first (is_live_named ts name) xs) ≡ true
any-erase_first ts name [] p h = h
any-erase_first ts name (x ∷ xs) p h = elim (Bool-cases (has_id ts.firing_id x)) [
  | inl e ↦ ground (arith, p, e)
  | inr e ↦ ground (arith, p, e, any-erase_first ts name xs p)
]

-- Erasing from the set, when the timer that is found is not the one whose callback runs.
cancel_now :
    (ts : TimerSet) (name : List ℕ)
    → IsValid ts
    → (erase_if (is_cancelled ts) (erase_first (is_live_named ts name) ts.timers)
        ≡ erase_if (is_named name) (live ts))
      × IsValid (record ts { timers = erase_first (is_live_named ts name) ts.timers })
cancel_now ts name v =
    let gone = erase_first-live ts name ts.timers v.names in
    (
      gone,
      record {
        names = rw gone (erase_if-IsDistinct same_name (is_named name) (live ts) v.names);
        ids = erase_first-IsDistinct same_id (is_live_named ts name) ts.timers v.ids;
        known =
            erase_first-All (λ t. (1 ≤ t.id) × (t.id < ts.next_id)) (is_live_named ts name)
              ts.timers v.known;
        marked = λ p. any-erase_first ts name ts.timers p (v.marked p);
      },
    )

any-All :
    (p : Timer → Bool) (xs : List Timer) (t : Timer) (q : Timer → Bool)
    → find_first q xs ≡ some t
    → p t ≡ true
    → any p xs ≡ true
any-All p [] t q e h = ground (arith, e)
any-All p (x ∷ xs) t q e h = elim (Bool-cases (q x)) [
  | inl k ↦ (let same : x ≡ t = ground (arith, k, e) in rw same (rw h refl))
  | inr k ↦ ground (arith, any-All p xs t q (ground (arith, k, e)) h)
]

-- Marking the timer whose callback runs.
cancel_later :
    (ts : TimerSet) (name : List ℕ) (t : Timer)
    → IsValid ts
    → find ts name ≡ some t
    → t.id ≡ ts.firing_id
    → (live (record ts { cancel_pending = true }) ≡ erase_if (is_named name) (live ts))
      × IsValid (record ts { cancel_pending = true })
unfolding find
cancel_later ts name t v e h =
    let found : find_first (is_named name) (live ts) ≡ some t =
      sym (find_first-live ts name ts.timers) ∙ e in
    let test =
      find_first-All (λ t. (1 ≤ t.id) × (t.id < ts.next_id)) (is_live_named ts name) ts.timers t e
        v.known in
    let idle : ts.cancel_pending ≡ false = ground (arith, test.0, h) in
    let whole : live ts ≡ ts.timers = erase_if-none (is_cancelled ts) ts.timers (
      All-weaken (λ t. (1 ≤ t.id) × (t.id < ts.next_id)) (λ t. is_cancelled ts t ≡ false)
        (λ x k. rw idle refl) ts.timers v.known) in
    let gone : live (record ts { cancel_pending = true }) ≡ erase_if (is_named name) (live ts) =
      erase_if-cong (λ x. x.id == ts.firing_id) (is_named name) ts.timers
        (one_match name ts.firing_id ts.timers t (subst (IsDistinct same_name) whole v.names) v.ids
          (ap (find_first (is_named name)) (sym whole) ∙ found) h)
      ∙ ap (erase_if (is_named name)) (sym whole) in
    (
      gone,
      record {
        names = rw gone (erase_if-IsDistinct same_name (is_named name) (live ts) v.names);
        ids = v.ids;
        known = v.known;
        marked = λ p.
            any-All (has_id ts.firing_id) ts.timers t (is_live_named ts name) e (ground (arith, h));
      },
    )

found_some :
    (ts : TimerSet) (name : List ℕ) (t : Timer)
    → find ts name ≡ some t
    → any (is_named name) (live ts) ≡ true
unfolding find
found_some ts name t e =
    sym (found-any (is_named name) (live ts))
    ∙ ap (λ o. elim o [ none ↦ false | some t ↦ true ])
        (sym (find_first-live ts name ts.timers) ∙ e)

missing :
    (ts : TimerSet) (name : List ℕ)
    → find ts name ≡ none
    → All (λ t. is_named name t ≡ false) (live ts)
unfolding find
missing ts name e =
    find_first-none (is_named name) (live ts) (sym (find_first-live ts name ts.timers) ∙ e)

any-none : (p : Timer → Bool) (xs : List Timer) → All (λ t. p t ≡ false) xs → any p xs ≡ false
any-none p [] h = refl
any-none p (x ∷ xs) h = rw (h.0, any-none p xs h.1) refl

-- Cancelling a name takes the timer with it, if there is one, from the live timers and leaves the
-- others in their order, and it says whether there was one. That is so too for the timer whose own
-- callback runs, whose node has to stay until the callback is done. The set stays valid.
pub cancel-live :
    (ts : TimerSet) (name : List ℕ)
    → IsValid ts
    → (live (cancel ts name).1 ≡ erase_if (is_named name) (live ts))
      × ((cancel ts name).0 ≡ any (is_named name) (live ts))
      × IsValid (cancel ts name).1
unfolding cancel
cancel-live ts name v =
    let IsDone = λ (out : Bool × TimerSet).
      (live out.1 ≡ erase_if (is_named name) (live ts))
      × (out.0 ≡ any (is_named name) (live ts))
      × IsValid out.1 in
    elim (Option-cases (find ts name)) [
      | inl e ↦
          let none_left = missing ts name e in
          let out : cancel ts name ≡ (false, ts) = ap (cancel_found ts name) e in
          subst IsDone (sym out) (
            sym (erase_if-none (is_named name) (live ts) none_left),
            sym (any-none (is_named name) (live ts) none_left),
            v,
          )
      | inr (t, e) ↦
          let yes = sym (found_some ts name t e) in
          elim (Bool-cases (t.id == ts.firing_id)) [
            | inl k ↦
                let out : cancel ts name ≡ (true, record ts { cancel_pending = true }) =
                  ap (cancel_found ts name) e ∙ rw k refl in
                let done = cancel_later ts name t v e (ground arith) in
                subst IsDone (sym out) (done.0, yes, done.1)
            | inr k ↦
                let out : cancel ts name
                    ≡ (true, record ts { timers = erase_first (is_live_named ts name) ts.timers }) =
                  ap (cancel_found ts name) e ∙ rw k refl in
                let done = cancel_now ts name v in subst IsDone (sym out) (done.0, yes, done.1)
          ]
    ]
