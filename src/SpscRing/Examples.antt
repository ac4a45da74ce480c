-- ===== src/SpscRing/Examples.antt =====
-- Tests of the ring, and its theorems at concrete rings.
use sangtachi.Prelude.{
  ℕ, ◌≡◌, refl, false, none, some, List, [], ◌∷◌, ◌++◌, ltb, if◌then◌else◌, length, arith,
}
use sangtachi.SpscRing.{Ring, try_push, try_pop}
use sangtachi.SpscRing.Queue.{IsRing, contents, try_push-contents, try_pop-contents}

-- A ring of capacity 2 whose items go over the end.
abbrev over_the_end : Ring ℕ
over_the_end = record { slots = 8 ∷ 0 ∷ 7 ∷ []; head = 2; tail = 1 }

over_the_end-IsRing : IsRing 2 0 over_the_end
over_the_end-IsRing = (refl, omega arith, omega arith)

refuses_a_third : (try_push 2 9 over_the_end).0 ≡ false
unfolding try_push
refuses_a_third = refl

pops_the_oldest : (try_pop 2 0 over_the_end).0 ≡ some 7
unfolding try_pop
pops_the_oldest = refl

try_push-contents_example :
    IsRing 2 0 (try_push 2 9 over_the_end).1
    × ((try_push 2 9 over_the_end).0 ≡ ltb (length (contents 2 0 over_the_end)) 2)
    × (contents 2 0 (try_push 2 9 over_the_end).1 ≡ (
        if ltb (length (contents 2 0 over_the_end)) 2
        then contents 2 0 over_the_end ++ (9 ∷ [])
        else contents 2 0 over_the_end))
try_push-contents_example = try_push-contents 2 0 9 over_the_end over_the_end-IsRing

try_pop-contents_example :
    IsRing 2 0 (try_pop 2 0 over_the_end).1
    × (contents 2 0 over_the_end ≡ (elim (try_pop 2 0 over_the_end).0 as (λ x. List ℕ) [
      | none ↦ []
      | some v ↦ v ∷ contents 2 0 (try_pop 2 0 over_the_end).1
    ]))
try_pop-contents_example = try_pop-contents 2 0 over_the_end over_the_end-IsRing
