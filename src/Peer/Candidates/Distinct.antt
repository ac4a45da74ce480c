-- ===== src/Peer/Candidates/Distinct.antt =====
-- The registered list has no two candidates with the same endpoint, and misses none while there is
-- room.
use sangtachi.Prelude.{
  ℕ, zero, suc, ◌≤◌, ◌≡◌, refl, ap, ◌∙◌, ◌⊎◌, inl, inr, false, Option, List, [], ◌∷◌, IsDistinct,
  erase_if-cleared, erase_if-IsDistinct, take-IsDistinct, erase_if, length, take, length-take,
  arith, leb, Bool-cases,
}
use sangtachi.Network.Endpoint.{Endpoint}
use sangtachi.Peer.Candidates.{Candidate, LocalAddress, registration_list}
use sangtachi.Peer.Candidates.Registration.{
  same_endpoint, listed, preferred_order, firsts, registration_list-firsts,
}

-- No two candidates have the same endpoint.
abbrev pub IsUnique : List Candidate → Type 0
IsUnique = IsDistinct same_endpoint

firsts-IsUnique : (xs : List Candidate) → IsUnique (firsts xs)
firsts-IsUnique [] = tt
firsts-IsUnique (x ∷ xs) = (
  erase_if-cleared (same_endpoint x) (firsts xs),
  erase_if-IsDistinct same_endpoint (same_endpoint x) (firsts xs) (firsts-IsUnique xs),
)

listed-erase_other :
    (c d : Candidate) (xs : List Candidate)
    → same_endpoint c d ≡ false
    → listed (erase_if (same_endpoint c) xs) d ≡ listed xs d
listed-erase_other c d [] h = refl
listed-erase_other c d (x ∷ xs) h = ground (arith, listed-erase_other c d xs h)

listed-firsts : (xs : List Candidate) (d : Candidate) → listed (firsts xs) d ≡ listed xs d
listed-firsts [] d = refl
listed-firsts (x ∷ xs) d = elim (Bool-cases (same_endpoint x d)) [
  | inl e ↦ rw e refl
  | inr e ↦ rw (e, listed-erase_other x d (firsts xs) e) (listed-firsts xs d)
]

take_short : (n : ℕ) (xs : List Candidate) → length xs ≤ n → take n xs ≡ xs
take_short zero [] h = refl
take_short zero (x ∷ xs) h = absurd (omega arith)
take_short (suc n) [] h = refl
take_short (suc n) (x ∷ xs) h = ap (◌∷◌ x) (take_short n xs (omega arith))

-- The list that is registered has at most eight candidates, no two with the same endpoint, and
-- unless it has eight every endpoint that was observed or belongs to a local address is in it.
pub registration_list-IsUnique :
    (endpoints : List Endpoint) (locals : List LocalAddress) (default_if : Option ℕ) (port : ℕ)
    → (length (registration_list endpoints locals default_if port) ≤ 8)
      × IsUnique (registration_list endpoints locals default_if port)
      × ((length (registration_list endpoints locals default_if port) ≡ 8)
          ⊎ ((c : Candidate)
              → listed (registration_list endpoints locals default_if port) c
                ≡ listed (preferred_order endpoints locals default_if port) c))
registration_list-IsUnique endpoints locals default_if port =
    let all = firsts (preferred_order endpoints locals default_if port) in
    rw registration_list-firsts (
      omega (arith, length-take 8 all),
      take-IsDistinct same_endpoint 8 all
          (firsts-IsUnique (preferred_order endpoints locals default_if port)),
      elim (Bool-cases (leb (length all) 8)) [
        | inl e ↦ inr (λ c.
            ap (λ l. listed l c) (take_short 8 all (ground arith))
            ∙ listed-firsts (preferred_order endpoints locals default_if port) c)
        | inr e ↦ inl (ground (arith, length-take 8 all))
      ],
    )
