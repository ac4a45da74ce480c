-- ===== src/Network/StunClient/Slots.antt =====
-- Writing one slot of the client.
use sangtachi.Prelude.{
  ℕ, zero, suc, ◌+◌, ◌<◌, ◌≤◌, ◌≡◌, ◌∙◌, inl, inr, Bool, true, false, none, some, List, [], ◌∷◌,
  All, set, get_or, length, if◌then◌else◌, arith, Bool-cases, Option-cases, All-weaken, IsDistinct,
}
use sangtachi.Network.StunClient.{Slot, empty_slot, place_of, count_active}
use sangtachi.Network.StunClient.Valid.{same_server}

pub set-All {κ} :
    (P : Slot → Type κ) (xs : List Slot) (i : ℕ) (v : Slot) → All P xs → P v → All P (set xs i v)
set-All P [] i v h k = h
set-All P (x ∷ xs) zero v h k = (k, h.1)
set-All P (x ∷ xs) (suc i) v h k = (h.0, set-All P xs i v h.1 k)

pub get_or-All {κ} :
    (P : Slot → Type κ) (xs : List Slot) (i : ℕ)
    → All P xs
    → i < length xs
    → P (get_or xs i empty_slot)
get_or-All P [] i h l = absurd (omega arith)
get_or-All P (x ∷ xs) zero h l = h.0
get_or-All P (x ∷ xs) (suc i) h l = get_or-All P xs i h.1 (omega arith)

pub same_server_sym : (a b : Slot) → same_server b a ≡ same_server a b
same_server_sym a b = ground arith

others {κ μ} :
    (P : Slot → Type κ) (Q : Slot → Type μ) (s : Slot)
    → ((y : Slot) → P y → same_server s y ≡ false → Q y)
    → (xs : List Slot) → All P xs
    → All (λ y. same_server s y ≡ false) xs
    → All Q xs
others P Q s f [] h k = tt
others P Q s f (x ∷ xs) h k = (f x h.0 k.0, others P Q s f xs h.1 k.1)

-- What is written has to fit the others only.
pub set-All_others {κ μ} :
    (P : Slot → Type κ) (Q : Slot → Type μ) (xs : List Slot) (i : ℕ) (v : Slot)
    → IsDistinct same_server xs
    → i < length xs
    → All P xs
    → ((y : Slot) → P y → same_server (get_or xs i empty_slot) y ≡ false → Q y)
    → Q v
    → All Q (set xs i v)
set-All_others P Q [] i v d l h f k = absurd (omega arith)
set-All_others P Q (x ∷ xs) zero v d l h f k = (k, others P Q x f xs h.1 d.0)
set-All_others P Q (x ∷ xs) (suc i) v d l h f k = (
  f x h.0 (
      same_server_sym x (get_or xs i empty_slot)
      ∙ get_or-All (λ y. same_server x y ≡ false) xs i d.0 (omega arith)),
  set-All_others P Q xs i v d.1 (omega arith) h.1 f k,
)

pub set-IsDistinct :
    (xs : List Slot) (i : ℕ) (v : Slot)
    → IsDistinct same_server xs
    → All (λ y. same_server v y ≡ false) xs
    → IsDistinct same_server (set xs i v)
set-IsDistinct [] i v d h = d
set-IsDistinct (x ∷ xs) zero v d h = (h.1, d.1)
set-IsDistinct (x ∷ xs) (suc i) v d h = (
  set-All (λ y. same_server x y ≡ false) xs i v d.0 (same_server_sym v x ∙ h.0),
  set-IsDistinct xs i v d.1 h.1,
)

-- The place that is found is one of the slots, and the test is true of it.
pub place_of-some :
    (p : Slot → Bool) (xs : List Slot) (i : ℕ)
    → place_of p xs ≡ some i
    → (i < length xs) × (p (get_or xs i empty_slot) ≡ true)
place_of-some p [] i e = ground (arith, e)
place_of-some p (x ∷ xs) i e = elim (Bool-cases (p x)) [
  | inl k ↦ (let first : i ≡ 0 = ground (arith, k, e) in rw first (omega arith, k))
  | inr k ↦ elim (Option-cases (place_of p xs)) [
    | inl n ↦ ground (arith, k, n, e)
    | inr (j, n) ↦
        let at : i ≡ suc j = ground (arith, k, n, e) in
        let found = place_of-some p xs j n in rw at (omega (arith, found), found.1)
  ]
]

pub place_of-none :
    (p : Slot → Bool) (xs : List Slot) → place_of p xs ≡ none → All (λ s. p s ≡ false) xs
place_of-none p [] e = tt
place_of-none p (x ∷ xs) e = elim (Bool-cases (p x)) [
  | inl k ↦ ground (arith, k, e)
  | inr k ↦ elim (Option-cases (place_of p xs)) [
    | inl n ↦ (k, place_of-none p xs n)
    | inr (j, n) ↦ ground (arith, k, n, e)
  ]
]

pub count_active_le : (xs : List Slot) → count_active xs ≤ length xs
count_active_le [] = omega arith
count_active_le (x ∷ xs) = ground (arith, count_active_le xs)

-- Freeing an active slot, and taking a free one.
pub count_active-set :
    (xs : List Slot) (i : ℕ) (v : Slot)
    → i < length xs
    → count_active (set xs i v) + (if (get_or xs i empty_slot).active then 1 else 0)
      ≡ count_active xs + (if v.active then 1 else 0)
count_active-set [] i v l = absurd (omega arith)
count_active-set (x ∷ xs) zero v l = ground arith
count_active-set (x ∷ xs) (suc i) v l = ground (arith, count_active-set xs i v)

-- Writing a slot that asks the same.
pub set-IsDistinct_same :
    (xs : List Slot) (i : ℕ) (v : Slot)
    → IsDistinct same_server xs
    → i < length xs
    → ((y : Slot) → same_server v y ≡ same_server (get_or xs i empty_slot) y)
    → IsDistinct same_server (set xs i v)
set-IsDistinct_same [] i v d l f = d
set-IsDistinct_same (x ∷ xs) zero v d l f = (
  All-weaken (λ y. same_server x y ≡ false) (λ y. same_server v y ≡ false) (λ y e. f y ∙ e) xs d.0,
  d.1,
)
set-IsDistinct_same (x ∷ xs) (suc i) v d l f = (
  set-All (λ y. same_server x y ≡ false) xs i v d.0
      (same_server_sym v x
        ∙ f x
        ∙ same_server_sym x (get_or xs i empty_slot)
        ∙ get_or-All (λ y. same_server x y ≡ false) xs i d.0 (omega arith)),
  set-IsDistinct_same xs i v d.1 (omega arith) f,
)
