-- ===== src/Prelude/Lists.antt =====
-- Lists measured and indexed by native numbers, under the library's names.
use Prim.Native.Nat.{ℕ, zero, suc, ◌+◌, ◌-◌, ◌≤◌, ◌<◌, min}
use mathlib.Core.Path.{◌≡◌, refl, ap, ap₂, sym, ◌∙◌}
use mathlib.Core.Logic.{◌≢◌}
use mathlib.Core.Bool.{Bool, false, ◌||◌}
use mathlib.Core.List.{List, [], ◌∷◌, ◌++◌}
use native.Mathlib.Omega.{arith}
use sangtachi.Prelude.Tests.{if◌then◌else◌}

module _ {ℓ} {A : Type ℓ} where
  abbrev pub length : List A → ℕ
  length [] = 0
  length (x ∷ xs) = suc (length xs)

  abbrev pub get_or : List A → ℕ → A → A
  get_or [] i d = d
  get_or (x ∷ xs) zero d = x
  get_or (x ∷ xs) (suc i) d = get_or xs i d

  abbrev pub set : List A → ℕ → A → List A
  set [] i v = []
  set (x ∷ xs) zero v = v ∷ xs
  set (x ∷ xs) (suc i) v = x ∷ set xs i v

  abbrev pub take : ℕ → List A → List A
  take zero xs = []
  take (suc n) [] = []
  take (suc n) (x ∷ xs) = x ∷ take n xs

  abbrev pub drop : ℕ → List A → List A
  drop zero xs = xs
  drop (suc n) [] = []
  drop (suc n) (x ∷ xs) = drop n xs

  abbrev pub replicate : ℕ → A → List A
  replicate zero a = []
  replicate (suc n) a = a ∷ replicate n a

  abbrev pub All {κ} : (A → Type κ) → List A → Type κ
  All P [] = Unit {κ}
  All P (x ∷ xs) = P x × All P xs

  abbrev pub any : (A → Bool) → List A → Bool
  any p [] = false
  any p (x ∷ xs) = p x || any p xs

  -- `std::erase_if` keeps the elements that fail the test.
  abbrev pub erase_if : (A → Bool) → List A → List A
  erase_if p [] = []
  erase_if p (x ∷ xs) = if p x then erase_if p xs else x ∷ erase_if p xs

  pub length-append : (xs ys : List A) → length (xs ++ ys) ≡ length xs + length ys
  length-append [] ys = omega arith
  length-append (x ∷ xs) ys = omega (arith, length-append xs ys)

  pub length-set : (xs : List A) (i : ℕ) (v : A) → length (set xs i v) ≡ length xs
  length-set [] i v = refl
  length-set (x ∷ xs) zero v = refl
  length-set (x ∷ xs) (suc i) v = ap suc (length-set xs i v)

  pub length-take : (n : ℕ) (xs : List A) → length (take n xs) ≡ min n (length xs)
  length-take zero xs = omega arith
  length-take (suc n) [] = omega arith
  length-take (suc n) (x ∷ xs) = omega (arith, length-take n xs)

  pub length-drop : (n : ℕ) (xs : List A) → length (drop n xs) ≡ length xs - n
  length-drop zero xs = omega arith
  length-drop (suc n) [] = omega arith
  length-drop (suc n) (x ∷ xs) = omega (arith, length-drop n xs)

  pub length-replicate : (n : ℕ) (a : A) → length (replicate n a) ≡ n
  length-replicate zero a = refl
  length-replicate (suc n) a = ap suc (length-replicate n a)

  pub length-erase_if-le : (p : A → Bool) (xs : List A) → length (erase_if p xs) ≤ length xs
  length-erase_if-le p [] = omega arith
  length-erase_if-le p (x ∷ xs) = ground (arith, length-erase_if-le p xs)

  pub get_or-set_self :
      (xs : List A) (i : ℕ) (v d : A) → i < length xs → get_or (set xs i v) i d ≡ v
  get_or-set_self [] i v d h = absurd (omega arith)
  get_or-set_self (x ∷ xs) zero v d h = refl
  get_or-set_self (x ∷ xs) (suc i) v d h = get_or-set_self xs i v d (omega arith)

  pub get_or-set_ne :
      (xs : List A) (i j : ℕ) (v d : A) → i ≢ j → get_or (set xs i v) j d ≡ get_or xs j d
  get_or-set_ne [] i j v d h = refl
  get_or-set_ne (x ∷ xs) zero zero v d h = absurd (h refl)
  get_or-set_ne (x ∷ xs) zero (suc j) v d h = refl
  get_or-set_ne (x ∷ xs) (suc i) zero v d h = refl
  get_or-set_ne (x ∷ xs) (suc i) (suc j) v d h = get_or-set_ne xs i j v d (λ e. h (ap suc e))

  pub drop-append : (xs ys : List A) → drop (length xs) (xs ++ ys) ≡ ys
  drop-append [] ys = refl
  drop-append (x ∷ xs) ys = drop-append xs ys

  pub take-append : (xs ys : List A) → take (length xs) (xs ++ ys) ≡ xs
  take-append [] ys = refl
  take-append (x ∷ xs) ys = ap (◌∷◌ x) (take-append xs ys)

  pub take-length : (xs : List A) → take (length xs) xs ≡ xs
  take-length [] = refl
  take-length (x ∷ xs) = ap (◌∷◌ x) (take-length xs)

  pub append-nil : (xs : List A) → xs ++ [] ≡ xs
  append-nil [] = refl
  append-nil (x ∷ xs) = ap (◌∷◌ x) (append-nil xs)

module _ {ℓ} {A : Type ℓ} where
  pub append_assoc : (xs ys zs : List A) → (xs ++ ys) ++ zs ≡ xs ++ (ys ++ zs)
  append_assoc [] ys zs = refl
  append_assoc (x ∷ xs) ys zs = ap (◌∷◌ x) (append_assoc xs ys zs)

  pub take-append-drop : (n : ℕ) (xs : List A) → take n xs ++ drop n xs ≡ xs
  take-append-drop zero xs = refl
  take-append-drop (suc n) [] = refl
  take-append-drop (suc n) (x ∷ xs) = ap (◌∷◌ x) (take-append-drop n xs)

  pub set-append :
      (pre : List A) (x v : A) (post : List A)
      → set (pre ++ (x ∷ post)) (length pre) v ≡ pre ++ (v ∷ post)
  set-append [] x v post = refl
  set-append (p ∷ pre) x v post = ap (◌∷◌ p) (set-append pre x v post)

  -- `out[offset + i] = xs[i]` for each i.
  abbrev pub copy_to : List A → ℕ → List A → List A
  copy_to out offset [] = out
  copy_to out offset (x ∷ xs) = copy_to (set out offset x) (offset + 1) xs

module _ {ℓ} {A : Type ℓ} where
  copy_to-step :
      (pre : List A) (x y : A) (old post : List A)
      → set (pre ++ ((x ∷ old) ++ post)) (length pre) y ≡ (pre ++ (y ∷ [])) ++ (old ++ post)
  copy_to-step pre x y old post =
      set-append pre x y (old ++ post) ∙ sym (append_assoc pre (y ∷ []) (old ++ post))

  -- A copy replaces exactly the elements that it covers.
  pub copy_to-middle :
      (new old pre post : List A)
      → length new ≡ length old
      → copy_to (pre ++ (old ++ post)) (length pre) new ≡ pre ++ (new ++ post)
  copy_to-middle [] [] pre post h = refl
  copy_to-middle [] (x ∷ old) pre post h = absurd (omega arith)
  copy_to-middle (y ∷ new) [] pre post h = absurd (omega arith)
  copy_to-middle (y ∷ new) (x ∷ old) pre post h =
      ap₂ (λ out k. copy_to out k new) {x = set (pre ++ ((x ∷ old) ++ post)) (length pre) y}
        {y = (pre ++ (y ∷ [])) ++ (old ++ post)} {u = length pre + 1} {v = length (pre ++ (y ∷ []))}
        (copy_to-step pre x y old post) (omega (arith, length-append pre (y ∷ [])))
      ∙ copy_to-middle new old (pre ++ (y ∷ [])) post (omega arith)
      ∙ append_assoc pre (y ∷ []) (new ++ post)

  pub copy_to-prefix :
      (new out : List A)
      → length new ≤ length out
      → copy_to out 0 new ≡ new ++ drop (length new) out
  copy_to-prefix new out h =
      ap (λ t. copy_to t 0 new) (sym (take-append-drop (length new) out))
      ∙ copy_to-middle new (take (length new) out) [] (drop (length new) out)
          (omega (arith, length-take (length new) out))

  -- What a second copy, right after a first one, leaves.
  pub copy_to-twice :
      (head tail out : List A)
      → length head + length tail ≤ length out
      → copy_to (copy_to out 0 head) (length head) tail
        ≡ head ++ (tail ++ drop (length tail) (drop (length head) out))
  copy_to-twice head tail out h =
      ap (λ t. copy_to t (length head) tail)
        (copy_to-prefix head out (omega arith)
          ∙ ap (◌++◌ head) (sym (take-append-drop (length tail) (drop (length head) out))))
      ∙ copy_to-middle tail (take (length tail) (drop (length head) out)) head
          (drop (length tail) (drop (length head) out))
          (omega (
            arith,
            length-take (length tail) (drop (length head) out),
            length-drop (length head) out,
          ))

  pub take-append-append :
      (xs ys zs : List A) → take (length xs + length ys) (xs ++ (ys ++ zs)) ≡ xs ++ ys
  take-append-append xs ys zs =
      ap₂ take {x = length xs + length ys} {y = length (xs ++ ys)} {u = xs ++ (ys ++ zs)}
        {v = (xs ++ ys) ++ zs} (omega (arith, length-append xs ys)) (sym (append_assoc xs ys zs))
      ∙ take-append (xs ++ ys) zs

  pub get_or-append :
      (xs ys : List A) (i : ℕ) (d : A) → get_or (xs ++ ys) (length xs + i) d ≡ get_or ys i d
  get_or-append [] ys i d = ap (λ k. get_or ys k d) {x = 0 + i} {y = i} (omega arith)
  get_or-append (x ∷ xs) ys i d =
      ap (λ k. get_or (x ∷ (xs ++ ys)) k d) {x = suc (length xs) + i} {y = suc (length xs + i)}
        (omega arith)
      ∙ get_or-append xs ys i d
