-- ===== src/Timer/Names.antt =====
-- Erasing the one node that has a name.
use sangtachi.Prelude.{
  ℕ, ◌≡◌, refl, sym, ap, subst, ◌∙◌, inl, inr, Bool, true, false, some, List, [], ◌∷◌, All,
  erase_if, arith, ◌==◌, if◌then◌else◌, Bool-cases, bytes_eq, bytes_eq-eq, IsDistinct,
  erase_if-none, All-weaken, All-both,
}
use sangtachi.Timer.{Timer, TimerSet, is_cancelled, is_live_named, find_first, erase_first}
use sangtachi.Timer.Live.{same_name, same_id, is_named, find_first-All, bytes_eq_sym}

-- If one timer has the name, the others with distinct names have another.
others_named :
    (t : Timer) (name : List ℕ) (xs : List Timer)
    → is_named name t ≡ true
    → All (λ y. same_name t y ≡ false) xs
    → All (λ y. is_named name y ≡ false) xs
others_named t name xs h k =
    All-weaken (λ y. same_name t y ≡ false) (λ y. is_named name y ≡ false)
      (λ y e.
        bytes_eq_sym y.name name
        ∙ ap (λ n. bytes_eq n y.name) (sym (bytes_eq-eq t.name name h))
        ∙ e)
      xs k

pub erase_first-live :
    (ts : TimerSet) (name : List ℕ) (xs : List Timer)
    → IsDistinct same_name (erase_if (is_cancelled ts) xs)
    → erase_if (is_cancelled ts) (erase_first (is_live_named ts name) xs)
      ≡ erase_if (is_named name) (erase_if (is_cancelled ts) xs)
erase_first-live ts name [] d = refl
erase_first-live ts name (x ∷ xs) d =
    let kept = erase_if (is_cancelled ts) xs in
    let split = λ (b : Bool) (e : is_cancelled ts x ≡ b).
      subst (λ b. IsDistinct same_name (if b then kept else x ∷ kept)) e d in
    elim (Bool-cases (is_cancelled ts x)) [
      | inl c ↦ ground (arith, c, erase_first-live ts name xs (split true c))
      | inr c ↦ elim (Bool-cases (is_named name x)) [
        | inl n ↦ ground (
          arith,
          c,
          n,
          erase_if-none (is_named name) kept (others_named x name kept n (split false c).0),
        )
        | inr n ↦ ground (arith, c, n, erase_first-live ts name xs (split false c).1)
      ]
    ]

pub one_match :
    (name : List ℕ) (f : ℕ) (xs : List Timer) (t : Timer)
    → IsDistinct same_name xs
    → IsDistinct same_id xs
    → find_first (is_named name) xs ≡ some t
    → t.id ≡ f
    → All (λ x. (x.id == f) ≡ is_named name x) xs
one_match name f [] t d i e h = tt
one_match name f (x ∷ xs) t d i e h = elim (Bool-cases (is_named name x)) [
  | inl n ↦
      let same : x ≡ t = ground (arith, n, e) in
      let is_id : x.id ≡ f = ap (λ t. t.id) same ∙ h in
      (
        rw n (ground arith),
        All-both (λ y. same_id x y ≡ false) (λ y. is_named name y ≡ false)
            (λ y. (y.id == f) ≡ is_named name y) (λ y p q. rw q (ground arith)) xs i.0
            (others_named x name xs n d.0),
      )
  | inr n ↦ (
    (let found =
          find_first-All (λ y. same_id x y ≡ false) (is_named name) xs t (ground (arith, n, e))
            i.0 in
        rw n (ground (arith, found.1))),
    one_match name f xs t d.1 i.1 (ground (arith, n, e)) h,
  )
]

-- Erasing one node keeps a set valid, if that is not marked.
pub erase_first-All {κ} :
    (P : Timer → Type κ) (p : Timer → Bool) (xs : List Timer) → All P xs → All P (erase_first p xs)
erase_first-All P p [] h = h
erase_first-All P p (x ∷ xs) h = elim (Bool-cases (p x)) [
  | inl e ↦ rw e h.1
  | inr e ↦ rw e (h.0, erase_first-All P p xs h.1)
]

pub erase_first-IsDistinct :
    (same : Timer → Timer → Bool) (p : Timer → Bool) (xs : List Timer)
    → IsDistinct same xs
    → IsDistinct same (erase_first p xs)
erase_first-IsDistinct same p [] h = h
erase_first-IsDistinct same p (x ∷ xs) h = elim (Bool-cases (p x)) [
  | inl e ↦ rw e h.1
  | inr e ↦
      rw e (erase_first-All (λ y. same x y ≡ false) p xs h.0, erase_first-IsDistinct same p xs h.1)
]
