-- ===== src/Network/StunClient/Progress.antt =====
-- The queries come to an end: each deadline lowers a weight of the client.
use sangtachi.Prelude.{
  ℕ, zero, suc, ◌+◌, ◌-◌, ◌<◌, ◌≤◌, ◌≡◌, sym, subst, inl, inr, Bool, true, false, not, Option, none,
  some, List, [], ◌∷◌, get_or, length, if◌then◌else◌, arith, Bool-cases, Option-cases,
}
use sangtachi.Network.Stun.{Parsed, StunResponse, parse_binding_response}
use sangtachi.Network.StunClient.{
  StunClient, StunPhase, Slot, empty_slot, slot_at, in_flight, find_slot, asks, free_slot, is_free,
  place_of, awaits, server_at,
}
use sangtachi.Network.StunClient.Queries.{
  start_query, begin_query, query_with, release, release_from, release_all, fail, wants_query,
  fill_slot, fill, settle, refill, retry, retry_at, deadline_at, datagram_of, datagram_at,
  on_parsed, take_mapped,
}
use sangtachi.Network.StunClient.Slots.{place_of-some, count_active-set}
use sangtachi.Network.StunClient.Settled.{release_active}

-- The servers that have not been asked, and the queries.
abbrev pub weight : StunClient → ℕ
weight c = length c.servers - c.next_server + in_flight c

release-weight :
    (i : ℕ) (c : StunClient)
    → i < length c.slots
    → (slot_at c i).active ≡ true
    → suc (weight (release i c)) ≡ weight c
unfolding release
release-weight i c l a =
    ground
      (arith, a, count_active-set c.slots i (record (slot_at c i) { active = false; sent = 0 }) l)

active_place :
    (slots : List Slot) (i : ℕ) → (get_or slots i empty_slot).active ≡ true → i < length slots
active_place [] i h = ground (arith, h)
active_place (s ∷ slots) zero h = omega arith
active_place (s ∷ slots) (suc i) h = omega (arith, active_place slots i h)

release_active-weight : (i : ℕ) (c : StunClient) → weight (release_active i c) ≤ weight c
release_active-weight i c = elim (Bool-cases (slot_at c i).active) [
  | inl a ↦
      subst (λ b. weight (if b then release i c else c) ≤ weight c) (sym a)
        (omega (arith, release-weight i c (active_place c.slots i a) a))
  | inr a ↦ subst (λ b. weight (if b then release i c else c) ≤ weight c) (sym a) (omega arith)
]

pub release_from-weight : (left i : ℕ) (c : StunClient) → weight (release_from left i c) ≤ weight c
release_from-weight zero i c = omega arith
release_from-weight (suc left) i c =
    omega (arith, release_from-weight left (suc i) (release_active i c), release_active-weight i c)

begun-weight :
    (i now draws : ℕ) (transaction : List ℕ) (c : StunClient)
    → i < length c.slots
    → c.next_server < length c.servers
    → weight (
        start_query i c.next_server now transaction
          (record c { next_server = c.next_server + 1; draws = draws }))
      ≤ weight c
unfolding start_query
begun-weight i now draws transaction c l n = ground (
  arith,
  count_active-set c.slots i
      (record { active = true; server_index = c.next_server; transaction = transaction; sent = 1 })
      l,
)

fill_slot-weight :
    (random : ℕ → Option (List ℕ)) (now : ℕ) (again : StunClient → Bool × StunClient)
    (c : StunClient)
    → ((d : StunClient) → weight (again d).1 ≤ weight d)
    → c.next_server < length c.servers
    → weight (fill_slot random now again c (free_slot c)).1 ≤ weight c
unfolding begin_query
fill_slot-weight random now again c f n = elim (Option-cases (free_slot c)) [
  | inl e ↦ subst (λ o. weight (fill_slot random now again c o).1 ≤ weight c) (sym e) (omega arith)
  | inr (i, e) ↦
      let place = place_of-some is_free c.slots i e in
      let drawn = record c { next_server = c.next_server + 1; draws = c.draws + 1 } in
      let IsDone = λ (o : Option (List ℕ)).
        let begun = query_with i c.next_server now drawn o in
        weight (if not begun.0 then begun else again begun.1).1 ≤ weight c in
      subst (λ o. weight (fill_slot random now again c o).1 ≤ weight c) (sym e)
        (elim (Option-cases (random c.draws)) [
          | inl r ↦ subst IsDone (sym r) (omega arith)
          | inr (t, r) ↦
              let next = start_query i c.next_server now t drawn in
              subst IsDone (sym r)
                (omega (arith, f next, begun-weight i now (c.draws + 1) t c place.0 n))
        ])
]

fill-weight :
    (random : ℕ → Option (List ℕ)) (now fuel : ℕ) (c : StunClient)
    → weight (fill random now fuel c).1 ≤ weight c
unfolding fill
fill-weight random now zero c = omega arith
fill-weight random now (suc fuel) c = elim (Bool-cases (wants_query c)) [
  | inr e ↦
      subst
        (λ b.
          weight
            (if not b
              then (true, c)
              else fill_slot random now (fill random now fuel) c (free_slot c)).1
          ≤ weight c)
        (sym e) (omega arith)
  | inl e ↦
      subst
        (λ b.
          weight
            (if not b
              then (true, c)
              else fill_slot random now (fill random now fuel) c (free_slot c)).1
          ≤ weight c)
        (sym e)
        (fill_slot-weight random now (fill random now fuel) c (fill-weight random now fuel)
          (ground arith))
]

pub settle-weight : (c : StunClient) → weight (settle c) ≤ weight c
unfolding settle fail release_all
settle-weight c = ground (
  arith,
  release_from-weight (length c.slots) 0 c,
  release_from-weight (length c.slots) 0 (record c { phase = StunPhase.succeeded }),
)

pub refill-weight :
    (random : ℕ → Option (List ℕ)) (now : ℕ) (c : StunClient)
    → weight (refill random now c) ≤ weight c
unfolding refill fail release_all
refill-weight random now c =
    let filled = (fill random now (length c.servers - c.next_server) c).1 in
    ground (
      arith,
      fill-weight random now (length c.servers - c.next_server) c,
      settle-weight filled,
      release_from-weight (length filled.slots) 0 filled,
    )

-- The deadline of a query.
pub deadline-weight :
    (random : ℕ → Option (List ℕ)) (now i : ℕ) (c : StunClient)
    → i < length c.slots
    → (slot_at c i).active ≡ true
    → suc (weight (deadline_at random now c (some i))) ≤ weight c
deadline-weight random now i c l a =
    omega (arith, refill-weight random now (release i c), release-weight i c l a)

retry-weight :
    (index i now : ℕ) (c : StunClient)
    → i < length c.slots
    → (slot_at c i).active ≡ true
    → weight (retry index i now c) ≤ weight c
unfolding retry
retry-weight index i now c l a = ground (
  arith,
  a,
  count_active-set c.slots i (record (slot_at c i) { sent = (slot_at c i).sent + 1 }) l,
)

pub retry_at-weight :
    (index now : ℕ) (c : StunClient) → weight (retry_at index now c (find_slot c index)) ≤ weight c
retry_at-weight index now c = elim (Option-cases (find_slot c index)) [
  | inl e ↦ subst (λ o. weight (retry_at index now c o) ≤ weight c) (sym e) (omega arith)
  | inr (i, e) ↦
      let place = place_of-some (asks index) c.slots i e in
      subst (λ o. weight (retry_at index now c o) ≤ weight c) (sym e)
        (retry-weight index i now c place.0 (ground (arith, place.1)))
]

take_mapped-weight :
    (label : List ℕ) (r : StunResponse) (c : StunClient)
    → ((take_mapped label r c).slots ≡ c.slots) × (weight (take_mapped label r c) ≡ weight c)
take_mapped-weight label r c = elim (Option-cases r.mapped) [
  | inl e ↦ ground (arith, e)
  | inr (m, e) ↦ ground (arith, e)
]

on_parsed-weight :
    (random : ℕ → Option (List ℕ)) (i now : ℕ) (c : StunClient) (p : Parsed StunResponse)
    → i < length c.slots
    → (slot_at c i).active ≡ true
    → weight (on_parsed random i now c p) ≤ weight c
on_parsed-weight random i now c (Parsed.failure e) l a = omega arith
on_parsed-weight random i now c (Parsed.ok r) l a =
    let label = (server_at c (slot_at c i).server_index).label in
    let kept = take_mapped label r c in
    let same = take_mapped-weight label r c in
    let l1 : i < length kept.slots = subst (λ ss. i < length ss) (sym same.0) l in
    let a1 : (slot_at kept i).active ≡ true =
      subst (λ ss. (get_or ss i empty_slot).active ≡ true) (sym same.0) a in
    omega (arith, refill-weight random now (release i kept), release-weight i kept l1 a1, same.1)

datagram_at-weight :
    (random : ℕ → Option (List ℕ)) (payload id : List ℕ) (now : ℕ) (c : StunClient)
    → weight (datagram_at random payload now c (place_of (awaits id) c.slots)) ≤ weight c
datagram_at-weight random payload id now c = elim (Option-cases (place_of (awaits id) c.slots)) [
  | inl e ↦
      subst (λ o. weight (datagram_at random payload now c o) ≤ weight c) (sym e) (omega arith)
  | inr (i, e) ↦
      let place = place_of-some (awaits id) c.slots i e in
      subst (λ o. weight (datagram_at random payload now c o) ≤ weight c) (sym e)
        (on_parsed-weight random i now c (parse_binding_response payload (slot_at c i).transaction)
          place.0 (ground (arith, place.1)))
]

pub datagram_of-weight :
    (random : ℕ → Option (List ℕ)) (payload : List ℕ) (now : ℕ) (c : StunClient)
    (o : Option (List ℕ))
    → weight (datagram_of random payload now c o) ≤ weight c
datagram_of-weight random payload now c none = omega arith
datagram_of-weight random payload now c (some id) =
    ground (arith, datagram_at-weight random payload id now c)
