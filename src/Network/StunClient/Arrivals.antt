-- ===== src/Network/StunClient/Arrivals.antt =====
-- A datagram keeps the client valid.
use sangtachi.Prelude.{
  ℕ, ◌+◌, ◌*◌, ◌<◌, ◌≤◌, ◌≡◌, refl, sym, ap, subst, ◌∙◌, inl, inr, true, false, Option, none, List,
  [], ◌∷◌, ◌++◌, any, get_or, length, length-append, if◌then◌else◌, arith, bytes_eq, Bool-cases,
  Option-cases,
}
use sangtachi.Network.Stun.{Parsed, StunResponse, peek_transaction_id, parse_binding_response}
use sangtachi.Network.StunClient.{
  StunClient, StunPhase, StunMapping, empty_slot, slot_at, server_at, in_flight, is_done, awaits,
  place_of,
}
use sangtachi.Network.StunClient.Queries.{
  release, on_parsed, datagram_at, datagram_of, on_datagram, take_mapped, keep_mapped, count_parse,
  is_error,
}
use sangtachi.Network.StunClient.Valid.{IsSound, IsPhase}
use sangtachi.Network.StunClient.Slots.{place_of-some}
use sangtachi.Network.StunClient.Steps.{release-IsSound, more_room}
use sangtachi.Network.StunClient.Settled.{IsValidClient, refill-IsValidClient, release-in_flight}

-- A client with a query runs.
active_runs :
    (p : StunPhase) (queries found : ℕ)
    → IsPhase p queries found
    → 1 ≤ queries
    → (is_done p ≡ false) × (found < 2)
active_runs StunPhase.idle q f h l = absurd (omega (arith, h, l))
active_runs StunPhase.running q f h l = (refl, h.1)
active_runs StunPhase.succeeded q f h l = absurd (omega (arith, h.0, l))
active_runs StunPhase.failed q f h l = absurd (omega (arith, h, l))

push_mapping :
    (m : StunMapping) (n : ℕ) (c : StunClient)
    → IsSound none n c
    → length c.mappings < 2
    → IsSound none n (record c { mappings = c.mappings ++ (m ∷ []) })
push_mapping m n c h l = record {
  two = h.two;
  next = h.next;
  few = h.few;
  asked = h.asked;
  distinct = h.distinct;
  answers = omega (arith, length-append c.mappings (m ∷ []));
  armed = h.armed;
  room = h.room;
}

counted : (n : ℕ) (c : StunClient) → IsSound none n c → IsSound none n (count_parse c)
counted n c h = record {
  two = h.two;
  next = h.next;
  few = h.few;
  asked = h.asked;
  distinct = h.distinct;
  answers = h.answers;
  armed = h.armed;
  room = h.room;
}

-- Keeping the endpoint of a response changes nothing else.
abbrev IsKept : ℕ → StunClient → StunClient → Type 0
IsKept n c d =
    IsSound none n d × (d.slots ≡ c.slots) × (d.phase ≡ c.phase) × (d.servers ≡ c.servers)

take_mapped-IsKept :
    (label : List ℕ) (r : StunResponse) (n : ℕ) (c : StunClient)
    → IsSound none n c
    → length c.mappings < 2
    → IsKept n c (take_mapped label r c)
take_mapped-IsKept label r n c h l = elim (Bool-cases (is_error r.type)) [
  | inl e ↦
      subst (λ b. IsKept n c (if b then c else keep_mapped label c r.mapped)) (sym e)
        (h, refl, refl, refl)
  | inr e ↦
      subst (λ b. IsKept n c (if b then c else keep_mapped label c r.mapped)) (sym e)
        (elim (Option-cases r.mapped) [
          | inl f ↦ subst (λ o. IsKept n c (keep_mapped label c o)) (sym f) (h, refl, refl, refl)
          | inr (m, f) ↦
              subst (λ o. IsKept n c (keep_mapped label c o)) (sym f)
                (push_mapping (record { server = label; mapped = m }) n c h l, refl, refl, refl)
        ])
]

on_parsed-IsValidClient :
    (random : ℕ → Option (List ℕ)) (i now n : ℕ) (c : StunClient) (parsed : Parsed StunResponse)
    → i < length c.slots
    → (slot_at c i).active ≡ true
    → IsValidClient (2 * length c.servers + n) c
    → IsValidClient n (on_parsed random i now c parsed)
unfolding release
on_parsed-IsValidClient random i now n c (Parsed.failure e) l a h =
    (counted n c (more_room (2 * length c.servers + n) n c (omega arith) h.0), h.1)
on_parsed-IsValidClient random i now n c (Parsed.ok r) l a h =
    let runs =
      active_runs c.phase (in_flight c) (length c.mappings) h.1
        (omega (arith, release-in_flight i c l a)) in
    let label = (server_at c (slot_at c i).server_index).label in
    let next = take_mapped label r c in
    let kept = take_mapped-IsKept label r (2 * length c.servers + n) c h.0 runs.1 in
    refill-IsValidClient random now n (release i next) (ap is_done kept.2 ∙ runs.0) (
      release-IsSound i (2 * length next.servers + n) none next
        (subst (λ s. IsSound none (2 * length s + n) next) (sym kept.3) kept.0)
        (omega (arith, l, h.0.two)) (ap (λ slots. (get_or slots i empty_slot).active) kept.1 ∙ a)
        (λ k m. tt))

-- A datagram keeps the client valid.
pub arrived-IsValidClient :
    (random : ℕ → Option (List ℕ)) (payload : List ℕ) (now n : ℕ) (c : StunClient)
    → IsValidClient (2 * length c.servers + n) c
    → IsValidClient n (on_datagram random payload now c)
unfolding on_datagram
arrived-IsValidClient random payload now n c h =
    let less = more_room (2 * length c.servers + n) n c (omega arith) h.0 in
    let Goal = λ (o : Option (List ℕ)). IsValidClient n (datagram_of random payload now c o) in
    elim (Option-cases (peek_transaction_id payload)) [
      | inl e ↦ subst Goal (sym e) (counted n c less, h.1)
      | inr (id, e) ↦
          let found : IsValidClient n
              (datagram_at random payload now c (place_of (awaits id) c.slots)) =
            elim (Option-cases (place_of (awaits id) c.slots)) [
              | inl f ↦
                  subst (λ o. IsValidClient n (datagram_at random payload now c o)) (sym f)
                    (counted n c less, h.1)
              | inr (i, f) ↦
                  let place = place_of-some (awaits id) c.slots i f in
                  subst (λ o. IsValidClient n (datagram_at random payload now c o)) (sym f)
                    (on_parsed-IsValidClient random i now n c
                      (parse_binding_response payload (slot_at c i).transaction) place.0
                      (ground (arith, place.1)) h)
            ] in
          subst Goal (sym e) (elim (Bool-cases (any (bytes_eq id) c.resolved)) [
            | inl f ↦ rw f (less, h.1)
            | inr f ↦ rw f found
          ])
    ]
