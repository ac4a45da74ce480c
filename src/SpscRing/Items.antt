-- ===== src/SpscRing/Items.antt =====
-- The items that lie behind one another in the slots of a ring, from an index on.
use sangtachi.Prelude.{
  ℕ, zero, suc, ◌+◌, ◌-◌, ◌%◌, ◌≤◌, ◌<◌, ◌≡◌, refl, ap, ap₂, ◌∙◌, inl, inr, List, [], ◌∷◌, ◌++◌,
  ltb, if◌then◌else◌, length, get_or, set, get_or-set_ne, arith, Bool-cases,
}
use native.Mathlib.Nat.{mod-eq_of_lt, mod-eq-sub-mod}
use sangtachi.SpscRing.{slot_count}

-- An index that went over the end once comes back.
abbrev pub wrap : ℕ → ℕ → ℕ
wrap k x = if ltb x k then x else x - k

pub mod_wrap : (k x : ℕ) → 0 < k → x < k + k → x % k ≡ wrap k x
mod_wrap k x pos h = elim (Bool-cases (ltb x k)) [
  | inl e ↦ ground (arith, mod-eq_of_lt {n = x} {m = k})
  | inr e ↦ ground (arith, mod-eq-sub-mod {n = x} {m = k}, mod-eq_of_lt {n = x - k} {m = k})
]

module _ {A : Type 0} (capacity : ℕ) (blank : A) where
  -- The `n` items from index `x` on, which is not reduced.
  unfoldable pub items : ℕ → ℕ → List A → List A
  items zero x slots = []
  items (suc n) x slots = get_or slots (wrap (slot_count capacity) x) blank ∷ items n (suc x) slots

  pub length-items : (n x : ℕ) (slots : List A) → length (items n x slots) ≡ n
  unfolding items
  length-items zero x slots = refl
  length-items (suc n) x slots = ap suc (length-items n (suc x) slots)

  pub items-snoc :
      (n x : ℕ) (slots : List A)
      → items (suc n) x slots
        ≡ items n x slots ++ (get_or slots (wrap (slot_count capacity) (x + n)) blank ∷ [])
  unfolding items
  items-snoc zero x slots =
      ap (λ i. get_or slots (wrap (slot_count capacity) i) blank ∷ []) {x = x} {y = x + 0}
        (omega arith)
  items-snoc (suc n) x slots =
      ap (λ is. get_or slots (wrap (slot_count capacity) x) blank ∷ is)
        (items-snoc n (suc x) slots
          ∙ ap
              (λ i.
                items n (suc x) slots ++ (get_or slots (wrap (slot_count capacity) i) blank ∷ []))
              {x = suc x + n} {y = x + suc n} (omega arith))

  pub items-set_ne :
      (n x i : ℕ) (v : A) (slots : List A)
      → i < slot_count capacity
      → x + n ≤ i + slot_count capacity
      → i < x
      → items n x (set slots i v) ≡ items n x slots
  unfolding items
  items-set_ne zero x i v slots h k l = refl
  items-set_ne (suc n) x i v slots h k l =
      ap₂ (λ a is. a ∷ is)
        (get_or-set_ne slots i (wrap (slot_count capacity) x) v blank (λ e. ground arith))
        (items-set_ne n (suc x) i v slots h (omega (arith, k)) (omega (arith, l)))

  pub items-set_after :
      (n x i : ℕ) (v : A) (slots : List A)
      → i < slot_count capacity
      → x + n ≤ i
      → items n x (set slots i v) ≡ items n x slots
  unfolding items
  items-set_after zero x i v slots h k = refl
  items-set_after (suc n) x i v slots h k =
      ap₂ (λ a is. a ∷ is)
        (get_or-set_ne slots i (wrap (slot_count capacity) x) v blank (λ e. ground arith))
        (items-set_after n (suc x) i v slots h (omega (arith, k)))

  -- Indices that went over the end are the indices from the start on.
  pub items-shift :
      (n y : ℕ) (slots : List A)
      → y + n ≤ slot_count capacity
      → items n (slot_count capacity + y) slots ≡ items n y slots
  unfolding items
  items-shift zero y slots h = refl
  items-shift (suc n) y slots h =
      ap₂ (λ i is. get_or slots i blank ∷ is)
        {x = wrap (slot_count capacity) (slot_count capacity + y)}
        {y = wrap (slot_count capacity) y} (ground arith)
        (ap (λ x. items n x slots) {x = suc (slot_count capacity + y)}
            {y = slot_count capacity + suc y} (omega arith)
          ∙ items-shift n (suc y) slots (omega (arith, h)))
