-- ===== src/Prelude/Every.antt =====
-- Lists all of whose elements satisfy a predicate, and lists without duplicates.
use mathlib.Core.Path.{◌≡◌, refl, ap}
use mathlib.Core.Logic.{inl, inr}
use mathlib.Core.Bool.{Bool, false}
use mathlib.Core.List.{List, [], ◌∷◌, ◌++◌}
use Prim.Native.Nat.{ℕ, zero, suc}
use sangtachi.Prelude.Tests.{Bool-cases}
use sangtachi.Prelude.Lists.{All, erase_if, take}

pub All-append {ℓ κ} :
    {A : Type ℓ} (P : A → Type κ) (xs ys : List A) → All P xs → All P ys → All P (xs ++ ys)
All-append P [] ys h k = k
All-append P (x ∷ xs) ys h k = (h.0, All-append P xs ys h.1 k)

pub All-weaken {ℓ κ μ} :
    {A : Type ℓ} (P : A → Type κ) (Q : A → Type μ)
    → ((x : A) → P x → Q x)
    → (xs : List A) → All P xs
    → All Q xs
All-weaken P Q f [] h = tt
All-weaken P Q f (x ∷ xs) h = (f x h.0, All-weaken P Q f xs h.1)

pub All-both {ℓ α β γ} :
    {A : Type ℓ} (P : A → Type α) (Q : A → Type β) (R : A → Type γ)
    → ((x : A) → P x → Q x → R x)
    → (xs : List A) → All P xs
    → All Q xs
    → All R xs
All-both P Q R f [] h k = tt
All-both P Q R f (x ∷ xs) h k = (f x h.0 k.0, All-both P Q R f xs h.1 k.1)

pub erase_if-All {ℓ κ} :
    {A : Type ℓ} (P : A → Type κ) (p : A → Bool) (xs : List A) → All P xs → All P (erase_if p xs)
erase_if-All P p [] h = h
erase_if-All P p (x ∷ xs) h = elim (Bool-cases (p x)) [
  | inl e ↦ rw e (erase_if-All P p xs h.1)
  | inr e ↦ rw e (h.0, erase_if-All P p xs h.1)
]

pub take-All {ℓ κ} :
    {A : Type ℓ} (P : A → Type κ) (n : ℕ) (xs : List A) → All P xs → All P (take n xs)
take-All P zero xs h = tt
take-All P (suc n) [] h = h
take-All P (suc n) (x ∷ xs) h = (h.0, take-All P n xs h.1)

module _ {ℓ} {A : Type ℓ} where
  pub erase_if-cleared : (p : A → Bool) (xs : List A) → All (λ x. p x ≡ false) (erase_if p xs)
  erase_if-cleared p [] = tt
  erase_if-cleared p (x ∷ xs) = elim (Bool-cases (p x)) [
    | inl e ↦ rw e (erase_if-cleared p xs)
    | inr e ↦ rw e (e, erase_if-cleared p xs)
  ]

  -- Erasing what is not there.
  pub erase_if-none : (p : A → Bool) (xs : List A) → All (λ x. p x ≡ false) xs → erase_if p xs ≡ xs
  erase_if-none p [] h = refl
  erase_if-none p (x ∷ xs) h = rw h.0 (ap (◌∷◌ x) (erase_if-none p xs h.1))

  pub erase_if-cong :
      (p q : A → Bool) (xs : List A) → All (λ x. p x ≡ q x) xs → erase_if p xs ≡ erase_if q xs
  erase_if-cong p q [] h = refl
  erase_if-cong p q (x ∷ xs) h = rw (h.0, erase_if-cong p q xs h.1) refl

  -- No two elements are the same by the test.
  abbrev pub IsDistinct : (A → A → Bool) → List A → Type 0
  IsDistinct same [] = Unit
  IsDistinct same (x ∷ xs) = All (λ y. same x y ≡ false) xs × IsDistinct same xs

  pub erase_if-IsDistinct :
      (same : A → A → Bool) (p : A → Bool) (xs : List A)
      → IsDistinct same xs
      → IsDistinct same (erase_if p xs)
  erase_if-IsDistinct same p [] h = h
  erase_if-IsDistinct same p (x ∷ xs) h = elim (Bool-cases (p x)) [
    | inl e ↦ rw e (erase_if-IsDistinct same p xs h.1)
    | inr e ↦
        rw e (erase_if-All (λ y. same x y ≡ false) p xs h.0, erase_if-IsDistinct same p xs h.1)
  ]

  pub take-IsDistinct :
      (same : A → A → Bool) (n : ℕ) (xs : List A) → IsDistinct same xs → IsDistinct same (take n xs)
  take-IsDistinct same zero xs h = tt
  take-IsDistinct same (suc n) [] h = h
  take-IsDistinct same (suc n) (x ∷ xs) h =
      (take-All (λ y. same x y ≡ false) n xs h.0, take-IsDistinct same n xs h.1)

  pub append-IsDistinct :
      (same : A → A → Bool) (xs : List A) (y : A)
      → IsDistinct same xs
      → All (λ x. same x y ≡ false) xs
      → IsDistinct same (xs ++ (y ∷ []))
  append-IsDistinct same [] y h n = (tt, tt)
  append-IsDistinct same (x ∷ xs) y h n = (
    All-append (λ z. same x z ≡ false) xs (y ∷ []) h.0 (n.0, tt),
    append-IsDistinct same xs y h.1 n.1,
  )
