-- ===== src/Network/StunClient/Settled.antt =====
-- After the slots are filled the phase is settled: while there are queries the client runs, and when
-- it has ended there are none.
use sangtachi.Prelude.{
  ℕ, zero, suc, ◌+◌, ◌*◌, ◌-◌, ◌<◌, ◌≡◌, refl, sym, ap, subst, ◌∙◌, inl, inr, true, false, not,
  Option, none, List, [], ◌∷◌, set, get_or, length, leb, ◌==◌, if◌then◌else◌, arith, Bool-cases,
}
use sangtachi.Network.StunClient.{
  StunClient, StunPhase, Slot, empty_slot, slot_at, in_flight, count_active, is_done,
}
use sangtachi.Network.StunClient.Queries.{
  release, release_from, release_all, fail, fill, settle, refill,
}
use sangtachi.Network.StunClient.Valid.{IsSound, IsPhase}
use sangtachi.Network.StunClient.Slots.{count_active-set}
use sangtachi.Network.StunClient.Steps.{release-IsSound, fill-IsSound, more_room}

-- Between events: the client is sound, and its phase says whether there are queries.
abbrev pub IsValidClient : ℕ → StunClient → Type 0
IsValidClient n c = IsSound none n c × IsPhase c.phase (in_flight c) (length c.mappings)

-- A slot that is released leaves the others.
release-slots :
    (i : ℕ) (c : StunClient)
    → (release i c).slots ≡ set c.slots i (record (slot_at c i) { active = false; sent = 0 })
unfolding release
release-slots i c = refl

pub release-in_flight :
    (i : ℕ) (c : StunClient)
    → i < length c.slots
    → (slot_at c i).active ≡ true
    → suc (in_flight (release i c)) ≡ in_flight c
unfolding release
release-in_flight i c l a =
    ground
      (arith, a, count_active-set c.slots i (record (slot_at c i) { active = false; sent = 0 }) l)

-- One round of the loop that releases the active slots.
abbrev pub release_active : ℕ → StunClient → StunClient
release_active i c = if (slot_at c i).active then release i c else c

release_active-IsSound :
    (i n : ℕ) (c : StunClient) → i < 2 → IsSound none n c → IsSound none n (release_active i c)
release_active-IsSound i n c l h = elim (Bool-cases (slot_at c i).active) [
  | inl a ↦
      subst (λ b. IsSound none n (if b then release i c else c)) (sym a)
        (release-IsSound i n none c h l a (λ k d. tt))
  | inr a ↦ subst (λ b. IsSound none n (if b then release i c else c)) (sym a) h
]

release_active-slots :
    (i : ℕ) (c : StunClient)
    → (release_active i c).slots ≡ (
        if (slot_at c i).active
        then set c.slots i (record (slot_at c i) { active = false; sent = 0 })
        else c.slots)
unfolding release
release_active-slots i c = ground arith

abbrev cleared : ℕ → List Slot → List Slot
cleared i slots =
    let slot = get_or slots i empty_slot in
    if slot.active then set slots i (record slot { active = false; sent = 0 }) else slots

two_cleared :
    (slots : List Slot) → length slots ≡ 2 → count_active (cleared 1 (cleared 0 slots)) ≡ 0
two_cleared [] l = absurd (omega arith)
two_cleared (a ∷ []) l = absurd (omega arith)
two_cleared (a ∷ b ∷ []) l = ground arith
two_cleared (a ∷ b ∷ d ∷ slots) l = absurd (omega arith)

two_released :
    (n : ℕ) (c : StunClient)
    → IsSound none n c
    → IsSound none n (release_active 1 (release_active 0 c))
      × (in_flight (release_active 1 (release_active 0 c)) ≡ 0)
two_released n c h = (
  release_active-IsSound 1 n (release_active 0 c) (omega arith)
      (release_active-IsSound 0 n c (omega arith) h),
  ap count_active
        (release_active-slots 1 (release_active 0 c) ∙ ap (cleared 1) (release_active-slots 0 c))
      ∙ two_cleared c.slots h.two,
)

pub release_all-IsSound :
    (n : ℕ) (c : StunClient)
    → IsSound none n c
    → IsSound none n (release_all c) × (in_flight (release_all c) ≡ 0)
unfolding release_all
release_all-IsSound n c h =
    subst (λ k. IsSound none n (release_from k 0 c) × (in_flight (release_from k 0 c) ≡ 0))
      (sym h.two) (two_released n c h)

release_active-frame :
    (i : ℕ) (c : StunClient)
    → ((release_active i c).phase ≡ c.phase) × ((release_active i c).mappings ≡ c.mappings)
unfolding release
release_active-frame i c = ground arith

release_from-frame :
    (left i : ℕ) (c : StunClient)
    → ((release_from left i c).phase ≡ c.phase) × ((release_from left i c).mappings ≡ c.mappings)
release_from-frame zero i c = (refl, refl)
release_from-frame (suc left) i c =
    let rest = release_from-frame left (suc i) (release_active i c) in
    let first = release_active-frame i c in (rest.0 ∙ first.0, rest.1 ∙ first.1)

with_phase :
    (p : StunPhase) (n : ℕ) (c : StunClient)
    → IsSound none n c
    → IsSound none n (record c { phase = p })
with_phase p n c h = record {
  two = h.two;
  next = h.next;
  few = h.few;
  asked = h.asked;
  distinct = h.distinct;
  answers = h.answers;
  armed = h.armed;
  room = h.room;
}

pub fail-IsValidClient : (n : ℕ) (c : StunClient) → IsSound none n c → IsValidClient n (fail c)
unfolding fail
fail-IsValidClient n c h =
    let done = release_all-IsSound n c h in
    (with_phase StunPhase.failed n (release_all c) done.0, done.1)

settle-IsValidClient : (n : ℕ) (c : StunClient) → IsSound none n c → IsValidClient n (settle c)
unfolding settle release_all
settle-IsValidClient n c h = elim (Bool-cases (leb 2 (length c.mappings))) [
  | inl e ↦
      let ended = record c { phase = StunPhase.succeeded } in
      let done = release_all-IsSound n ended (with_phase StunPhase.succeeded n c h) in
      let frame = release_from-frame (length c.slots) 0 ended in
      subst
        (λ b. IsValidClient n (
          if b
          then release_all ended
          else if in_flight c == 0
          then fail c
          else record c { phase = StunPhase.running }))
        (sym e)
        (
          done.0,
          subst
              (λ p. IsPhase p (in_flight (release_all ended)) (length (release_all ended).mappings))
              (sym frame.0) (done.1, ap (λ l. length l) frame.1 ∙ ground arith),
        )
  | inr e ↦ elim (Bool-cases (in_flight c == 0)) [
    | inl f ↦ rw (e, f) (fail-IsValidClient n c h)
    | inr f ↦ rw (e, f) (with_phase StunPhase.running n c h, (ground arith, ground arith))
  ]
]

pub refill-IsValidClient :
    (random : ℕ → Option (List ℕ)) (now n : ℕ) (c : StunClient)
    → is_done c.phase ≡ false
    → IsSound none (2 * length c.servers + n) c
    → IsValidClient n (refill random now c)
unfolding refill
refill-IsValidClient random now n c d h =
    let filled = fill random now (length c.servers - c.next_server) c in
    let sound : IsSound none n filled.1 =
      fill-IsSound random now (length c.servers - c.next_server) n c (
        more_room (2 * length c.servers + n) (2 * (length c.servers - c.next_server) + n) c
          (omega arith) h) in
    elim (Bool-cases filled.0) [
      | inl e ↦
          subst
            (λ b.
              IsValidClient n
                (if b then c else if not filled.0 then fail filled.1 else settle filled.1))
            (sym d)
            (subst (λ b. IsValidClient n (if not b then fail filled.1 else settle filled.1)) (sym e)
              (settle-IsValidClient n filled.1 sound))
      | inr e ↦
          subst
            (λ b.
              IsValidClient n
                (if b then c else if not filled.0 then fail filled.1 else settle filled.1))
            (sym d)
            (subst (λ b. IsValidClient n (if not b then fail filled.1 else settle filled.1)) (sym e)
              (fail-IsValidClient n filled.1 sound))
    ]
