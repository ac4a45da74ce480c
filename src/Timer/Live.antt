-- ===== src/Timer/Live.antt =====
-- The timers of a set that are not cancelled, in their order: what adding and cancelling make of
-- them, whether or not a callback is running.
use sangtachi.Prelude.{
  ℕ, ◌+◌, ◌<◌, ◌≤◌, ◌≡◌, refl, ap, subst, ◌∙◌, inl, inr, Bool, true, false, not, none, some, List,
  [], ◌∷◌, ◌++◌, All, any, erase_if, arith, ◌==◌, if◌then◌else◌, Bool-cases, bytes_eq, IsDistinct,
  append-IsDistinct, All-append, All-weaken,
}
use sangtachi.Prelude.Bits.{u64}
use sangtachi.Timer.{
  Timer, TimerSet, is_cancelled, is_live_named, find_first, find, contains, push_timer,
  add_periodic, add_once, has_id,
}

-- The timers that are there for a caller.
abbrev pub live : TimerSet → List Timer
live ts = erase_if (is_cancelled ts) ts.timers

abbrev pub same_name : Timer → Timer → Bool
same_name a b = bytes_eq a.name b.name

abbrev pub same_id : Timer → Timer → Bool
same_id a b = a.id == b.id

abbrev pub is_named : List ℕ → Timer → Bool
is_named name t = bytes_eq t.name name

-- Names of live timers and ids are unique, ids are below the next one, and a timer that is marked
-- as cancelled is there.
pub record IsValid (ts : TimerSet) : Type 0 where
  pub names : IsDistinct same_name (live ts)
  pub ids : IsDistinct same_id ts.timers
  pub known : All (λ t. (1 ≤ t.id) × (t.id < ts.next_id)) ts.timers
  pub marked : ts.cancel_pending ≡ true → any (has_id ts.firing_id) ts.timers ≡ true

pub find_first-live :
    (ts : TimerSet) (name : List ℕ) (xs : List Timer)
    → find_first (is_live_named ts name) xs
      ≡ find_first (is_named name) (erase_if (is_cancelled ts) xs)
find_first-live ts name [] = refl
find_first-live ts name (t ∷ xs) = ground (arith, find_first-live ts name xs)

-- What is found satisfies the test and what all elements satisfy.
pub find_first-All {κ} :
    (P : Timer → Type κ) (p : Timer → Bool) (xs : List Timer) (t : Timer)
    → find_first p xs ≡ some t
    → All P xs
    → (p t ≡ true) × P t
find_first-All P p [] t e h = ground (arith, e)
find_first-All P p (x ∷ xs) t e h = elim (Bool-cases (p x)) [
  | inl k ↦ let same : x ≡ t = ground (arith, k, e) in subst (λ y. (p y ≡ true) × P y) same (k, h.0)
  | inr k ↦ find_first-All P p xs t (ground (arith, k, e)) h.1
]

pub find_first-none :
    (p : Timer → Bool) (xs : List Timer) → find_first p xs ≡ none → All (λ t. p t ≡ false) xs
find_first-none p [] e = tt
find_first-none p (x ∷ xs) e = elim (Bool-cases (p x)) [
  | inl k ↦ ground (arith, k)
  | inr k ↦ (k, find_first-none p xs (ground (arith, k)))
]

pub found-any :
    (p : Timer → Bool) (xs : List Timer)
    → elim (find_first p xs) [ none ↦ false | some t ↦ true ] ≡ any p xs
found-any p [] = refl
found-any p (x ∷ xs) = elim (Bool-cases (p x)) [ inl k ↦ rw k refl | inr k ↦ rw k (found-any p xs) ]

pub contains-live :
    (ts : TimerSet) (name : List ℕ) → contains ts name ≡ any (is_named name) (live ts)
unfolding contains find
contains-live ts name =
    ap (λ o. elim o [ none ↦ false | some t ↦ true ]) (find_first-live ts name ts.timers)
    ∙ found-any (is_named name) (live ts)

pub any-false : (p : Timer → Bool) (xs : List Timer) → any p xs ≡ false → All (λ t. p t ≡ false) xs
any-false p [] h = tt
any-false p (x ∷ xs) h = elim (Bool-cases (p x)) [
  | inl k ↦ ground (arith, k, h)
  | inr k ↦ (k, any-false p xs (ground (arith, k, h)))
]

pub bytes_eq_sym : (xs ys : List ℕ) → bytes_eq xs ys ≡ bytes_eq ys xs
bytes_eq_sym [] [] = refl
bytes_eq_sym [] (y ∷ ys) = refl
bytes_eq_sym (x ∷ xs) [] = refl
bytes_eq_sym (x ∷ xs) (y ∷ ys) = ground (arith, bytes_eq_sym xs ys)

erase_if-append :
    (p : Timer → Bool) (xs : List Timer) (t : Timer)
    → p t ≡ false
    → erase_if p (xs ++ (t ∷ [])) ≡ erase_if p xs ++ (t ∷ [])
erase_if-append p [] t h = rw h refl
erase_if-append p (x ∷ xs) t h = ground (arith, h, erase_if-append p xs t h)

any-append_left :
    (p : Timer → Bool) (xs ys : List Timer) → any p xs ≡ true → any p (xs ++ ys) ≡ true
any-append_left p [] ys h = ground (arith, h)
any-append_left p (x ∷ xs) ys h = ground (arith, any-append_left p xs ys)

-- The id of the timer whose callback runs, if any, is one that was given out.
abbrev pub IsFiring : TimerSet → Type 0
IsFiring ts = ts.firing_id < ts.next_id

pub pushed_live :
    (ts : TimerSet) (name : List ℕ) (interval now : ℕ) (repeating : Bool)
    → IsFiring ts
    → live (push_timer ts name interval now repeating)
      ≡ live ts
        ++ (record {
          name = name;
          interval_ms = interval;
          deadline = u64 (now + interval);
          last_fired = now;
          repeating = repeating;
          id = ts.next_id;
        }
            ∷ [])
pushed_live ts name interval now repeating f =
    erase_if-append (is_cancelled ts) ts.timers
      (record {
        name = name;
        interval_ms = interval;
        deadline = u64 (now + interval);
        last_fired = now;
        repeating = repeating;
        id = ts.next_id;
      })
      (ground arith)

pub pushed-IsValid :
    (ts : TimerSet) (name : List ℕ) (interval now : ℕ) (repeating : Bool)
    → IsValid ts
    → IsFiring ts
    → 1 ≤ ts.next_id
    → ts.next_id + 1 < 0x1_0000_0000_0000_0000
    → any (is_named name) (live ts) ≡ false
    → IsValid (push_timer ts name interval now repeating)
pushed-IsValid ts name interval now repeating v f o l n =
    let new : Timer = record {
      name = name;
      interval_ms = interval;
      deadline = u64 (now + interval);
      last_fired = now;
      repeating = repeating;
      id = ts.next_id;
    } in
    record {
      names = rw (pushed_live ts name interval now repeating f) (
          append-IsDistinct same_name (live ts) new v.names
            (any-false (is_named name) (live ts) n));
      ids = append-IsDistinct same_id ts.timers new v.ids (
          All-weaken (λ t. (1 ≤ t.id) × (t.id < ts.next_id)) (λ t. same_id t new ≡ false)
            (λ t k. ground arith) ts.timers v.known);
      known =
          All-append (λ t. (1 ≤ t.id) × (t.id < u64 (ts.next_id + 1))) ts.timers (new ∷ [])
            (All-weaken (λ t. (1 ≤ t.id) × (t.id < ts.next_id))
              (λ t. (1 ≤ t.id) × (t.id < u64 (ts.next_id + 1))) (λ t k. (k.0, omega (arith, k.1)))
              ts.timers v.known)
            ((o, omega arith), tt);
      marked = λ p. any-append_left (has_id ts.firing_id) ts.timers (new ∷ []) (v.marked p);
    }

abbrev pub timer_of : TimerSet → List ℕ → ℕ → ℕ → Bool → Timer
timer_of ts name interval now repeating = record {
  name = name;
  interval_ms = interval;
  deadline = u64 (now + interval);
  last_fired = now;
  repeating = repeating;
  id = ts.next_id;
}

-- What both ways of adding a timer do, where `out` is what they give back.
abbrev pub IsAdded : TimerSet → Timer → Bool × TimerSet → Type 0
IsAdded ts new out =
    (out.0 ≡ not (any (is_named new.name) (live ts)))
    × (live out.1 ≡ (if any (is_named new.name) (live ts) then live ts else live ts ++ (new ∷ [])))
    × IsValid out.1

module _ (ts : TimerSet) (name : List ℕ) (interval now : ℕ) (v : IsValid ts) (f : IsFiring ts)
    (o : 1 ≤ ts.next_id) (l : ts.next_id + 1 < 0x1_0000_0000_0000_0000) where
  pushed-IsAdded :
      (repeating : Bool)
      → IsAdded ts (timer_of ts name interval now repeating) (
          if contains ts name
          then (false, ts)
          else (true, push_timer ts name interval now repeating))
  pushed-IsAdded repeating = elim (Bool-cases (any (is_named name) (live ts))) [
    | inl e ↦ rw (contains-live ts name, e) (refl, refl, v)
    | inr e ↦
        rw (contains-live ts name, e)
          (
            refl,
            pushed_live ts name interval now repeating f,
            pushed-IsValid ts name interval now repeating v f o l e,
          )
  ]

  -- A timer is added behind the live ones exactly if none of them has its name; otherwise the set
  -- stays as it is. This holds for a valid set whose ids are not used up.
  pub add_once-IsAdded :
      IsAdded ts (timer_of ts name interval now false) (add_once ts name interval now)
  unfolding add_once
  add_once-IsAdded = pushed-IsAdded false

  pub add_periodic-IsAdded :
      IsAdded ts (timer_of ts name interval now true) (add_periodic ts name interval now)
  unfolding add_periodic
  add_periodic-IsAdded = pushed-IsAdded true
