-- ===== src/Peer/Candidates/Registration.antt =====
-- The list that is registered: the candidates in their order of preference, the first of each
-- endpoint, cut to the limit.
use sangtachi.Prelude.{
  ℕ, ◌≡◌, refl, sym, ap, ◌∙◌, inl, inr, Bool, true, false, not, ◌||◌, Option, List, [], ◌∷◌, ◌++◌,
  map, any, erase_if, take, append_assoc, append-nil, arith, Bool-cases,
}
use sangtachi.Network.Endpoint.{Endpoint, endpoint_eq}
use sangtachi.Peer.Candidates.{
  Candidate, CandidateKind, LocalAddress, push_unique, push_reflexive, push_locals, local_candidate,
  is_default, registration_list,
}

abbrev pub same_endpoint : Candidate → Candidate → Bool
same_endpoint a b = endpoint_eq a.endpoint b.endpoint

-- The candidates in their order of preference, duplicates included.
abbrev pub preferred_order : List Endpoint → List LocalAddress → Option ℕ → ℕ → List Candidate
preferred_order endpoints locals default_if local_port =
    map (λ r. record { endpoint = r; kind = CandidateKind.reflexive }) endpoints
    ++ (map (local_candidate local_port) (erase_if (λ l. not (is_default default_if l)) locals)
        ++ map (local_candidate local_port) (erase_if (is_default default_if) locals))

-- The first candidate of each endpoint.
abbrev pub firsts : List Candidate → List Candidate
firsts [] = []
firsts (c ∷ cs) = c ∷ erase_if (same_endpoint c) (firsts cs)

abbrev push_each : List Candidate → List Candidate → List Candidate
push_each out [] = out
push_each out (c ∷ cs) = push_each (push_unique out c) cs

push_each-append :
    (out xs ys : List Candidate) → push_each out (xs ++ ys) ≡ push_each (push_each out xs) ys
push_each-append out [] ys = refl
push_each-append out (x ∷ xs) ys = push_each-append (push_unique out x) xs ys

push_reflexive-each :
    (out : List Candidate) (rs : List Endpoint)
    → push_reflexive out rs
      ≡ push_each out (map (λ r. record { endpoint = r; kind = CandidateKind.reflexive }) rs)
push_reflexive-each out [] = refl
push_reflexive-each out (r ∷ rs) =
    push_reflexive-each (push_unique out (record { endpoint = r; kind = CandidateKind.reflexive }))
      rs

push_locals-default :
    (default_if : Option ℕ) (port : ℕ) (out : List Candidate) (locals : List LocalAddress)
    → push_locals default_if true port out locals
      ≡ push_each out
          (map (local_candidate port) (erase_if (λ l. not (is_default default_if l)) locals))
push_locals-default default_if port out [] = refl
push_locals-default default_if port out (l ∷ locals) = ground (
  arith,
  push_locals-default default_if port (push_unique out (local_candidate port l)) locals,
  push_locals-default default_if port out locals,
)

push_locals-others :
    (default_if : Option ℕ) (port : ℕ) (out : List Candidate) (locals : List LocalAddress)
    → push_locals default_if false port out locals
      ≡ push_each out (map (local_candidate port) (erase_if (is_default default_if) locals))
push_locals-others default_if port out [] = refl
push_locals-others default_if port out (l ∷ locals) = ground (
  arith,
  push_locals-others default_if port (push_unique out (local_candidate port l)) locals,
  push_locals-others default_if port out locals,
)

abbrev pub listed : List Candidate → Candidate → Bool
listed out c = any (λ kept. same_endpoint kept c) out

listed-append :
    (out : List Candidate) (c d : Candidate)
    → listed (out ++ (c ∷ [])) d ≡ (listed out d || same_endpoint c d)
listed-append [] c d = ground arith
listed-append (x ∷ out) c d = ground (arith, listed-append out c d)

-- Taking away what is listed, and then the endpoint of one more.
erase-listed :
    (out : List Candidate) (c : Candidate) (xs : List Candidate)
    → erase_if (listed (out ++ (c ∷ []))) xs ≡ erase_if (listed out) (erase_if (same_endpoint c) xs)
erase-listed out c [] = refl
erase-listed out c (x ∷ xs) = rw (listed-append out c x, erase-listed out c xs) (ground arith)

listed-same :
    (out : List Candidate) (c x : Candidate)
    → same_endpoint c x ≡ true
    → listed out c ≡ listed out x
listed-same [] c x h = refl
listed-same (y ∷ out) c x h = ground (arith, listed-same out c x h)

-- Taking away more than the endpoint of a candidate, if that is listed.
erase-seen :
    (out : List Candidate) (c : Candidate) (xs : List Candidate)
    → listed out c ≡ true
    → erase_if (listed out) (erase_if (same_endpoint c) xs) ≡ erase_if (listed out) xs
erase-seen out c [] h = refl
erase-seen out c (x ∷ xs) h = elim (Bool-cases (same_endpoint c x)) [
  | inl e ↦ rw (e, sym (listed-same out c x e), h) (erase-seen out c xs h)
  | inr e ↦ rw (e, erase-seen out c xs h) refl
]

push_each-eq :
    (out xs : List Candidate) → push_each out xs ≡ out ++ erase_if (listed out) (firsts xs)
unfolding push_unique
push_each-eq out [] = sym (append-nil out)
push_each-eq out (x ∷ xs) = elim (Bool-cases (listed out x)) [
  | inl e ↦ rw (e, erase-seen out x (firsts xs) e) (push_each-eq out xs)
  | inr e ↦ rw e (
      push_each-eq (out ++ (x ∷ [])) xs
      ∙ rw erase-listed (
          append_assoc out (x ∷ [])
            (erase_if (listed out) (erase_if (same_endpoint x) (firsts xs)))))
]

erase-none : (xs : List Candidate) → erase_if (listed []) xs ≡ xs
erase-none [] = refl
erase-none (x ∷ xs) = ap (◌∷◌ x) (erase-none xs)

-- The loops over the endpoints and the local addresses, one after the other, register the first
-- candidate of each endpoint in the order of preference: the observed endpoints, the addresses of
-- the default interface, the other addresses. The list is cut at the end, to eight.
pub registration_list-firsts :
    (endpoints : List Endpoint) (locals : List LocalAddress) (default_if : Option ℕ) (port : ℕ)
    → registration_list endpoints locals default_if port
      ≡ take 8 (firsts (preferred_order endpoints locals default_if port))
unfolding registration_list
registration_list-firsts endpoints locals default_if port =
    let observed = map (λ r. record { endpoint = r; kind = CandidateKind.reflexive }) endpoints in
    let default =
      map (local_candidate port) (erase_if (λ l. not (is_default default_if l)) locals) in
    let others = map (local_candidate port) (erase_if (is_default default_if) locals) in
    ap (take 8) (
      push_locals-others default_if port
        (push_locals default_if true port (push_reflexive [] endpoints) locals) locals
      ∙ ap (λ out. push_each out others)
          (push_locals-default default_if port (push_reflexive [] endpoints) locals
            ∙ ap (λ out. push_each out default) (push_reflexive-each [] endpoints)
            ∙ sym (push_each-append [] observed default))
      ∙ sym (push_each-append [] (observed ++ default) others)
      ∙ ap (push_each []) (append_assoc observed default others)
      ∙ push_each-eq [] (observed ++ (default ++ others))
      ∙ erase-none (firsts (observed ++ (default ++ others))))
