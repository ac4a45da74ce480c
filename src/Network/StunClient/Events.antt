-- ===== src/Network/StunClient/Events.antt =====
-- Each event keeps the client valid: a timer that has come, with its node gone from the set, and a
-- datagram.
use sangtachi.Prelude.{
  ℕ, suc, ◌+◌, ◌*◌, ◌-◌, ◌<◌, ◌≡◌, refl, sym, subst, ◌∙◌, inl, inr, true, false, Option, none, some,
  List, [], ◌∷◌, All, get_or, length, length-set, ltb, leb, if◌then◌else◌, arith, Bool-cases,
  Option-cases, All-weaken, All-both,
}
use sangtachi.Network.StunClient.{
  StunClient, StunPhase, Slot, slot_at, in_flight, count_active, is_done, retry_timer,
  deadline_timer, retry_prefix, tail_index, find_slot, asks, send_request, retry_intervals,
}
use sangtachi.Network.StunClient.Queries.{
  write_slot, arm_once, disarm, release, retry, retry_at, retry_of, deadline_at, deadline_of,
  on_timer,
}
use sangtachi.Network.StunClient.Names.{tail_index_lem, retry_timer-ne_deadline, deadline_timer-ne}
use sangtachi.Network.StunClient.Valid.{
  IsArmed, IsAsked, IsSound, IsPhase, contains-add_once, contains-cancel, add_once-HasRoom,
  cancel-HasRoom,
}
use sangtachi.Network.StunClient.Slots.{
  set-All, get_or-All, place_of-some, place_of-none, count_active-set, set-IsDistinct_same,
}
use sangtachi.Network.StunClient.Steps.{release-IsSound, more_room}
use sangtachi.Network.StunClient.Settled.{IsValidClient, refill-IsValidClient}

-- The timer of a retry is gone.
retry_gone :
    (j n : ℕ) (c : StunClient) → IsSound none n c → IsSound none n (disarm (retry_timer j) c)
retry_gone j n c h = record {
  two = h.two;
  next = h.next;
  few = h.few;
  asked = h.asked;
  distinct = h.distinct;
  answers = h.answers;
  armed =
      All-weaken (IsArmed none c.timers) (IsArmed none (disarm (retry_timer j) c).timers)
        (λ s k a b.
          contains-cancel c.timers (retry_timer j) (deadline_timer s.server_index) h.room.valid
            (retry_timer-ne_deadline j s.server_index) (k a b))
        c.slots h.armed;
  room = cancel-HasRoom c.timers (retry_timer j) n h.room;
}

-- The timer of a deadline is gone.
deadline_gone :
    (j n : ℕ) (c : StunClient)
    → j < 10_000_000_000
    → IsSound none n c
    → IsSound (some j) n (disarm (deadline_timer j) c)
deadline_gone j n c l h = record {
  two = h.two;
  next = h.next;
  few = h.few;
  asked = h.asked;
  distinct = h.distinct;
  answers = h.answers;
  armed =
      All-both (IsArmed none c.timers) (IsAsked c.next_server)
        (IsArmed (some j) (disarm (deadline_timer j) c).timers)
        (λ s k q a b.
          let below = q a in
          contains-cancel c.timers (deadline_timer j) (deadline_timer s.server_index) h.room.valid
            (deadline_timer-ne s.server_index j (omega (arith, below, h.next, h.few)) l b) (k a tt))
        c.slots h.armed h.asked;
  room = cancel-HasRoom c.timers (deadline_timer j) n h.room;
}

-- Unless a query asks the server that is spared, all are armed.
nobody_spared :
    (j n : ℕ) (c : StunClient)
    → IsSound (some j) n c
    → All (λ s. asks j s ≡ false) c.slots
    → IsSound none n c
nobody_spared j n c h k = record {
  two = h.two;
  next = h.next;
  few = h.few;
  asked = h.asked;
  distinct = h.distinct;
  answers = h.answers;
  armed =
      All-both (IsArmed (some j) c.timers) (λ s. asks j s ≡ false) (IsArmed none c.timers)
        (λ s p q a b. p a (λ e. ground (arith, q, a, e))) c.slots h.armed k;
  room = h.room;
}

none_active :
    (j : ℕ) (slots : List Slot) → count_active slots ≡ 0 → All (λ s. asks j s ≡ false) slots
none_active j [] h = tt
none_active j (s ∷ slots) h = elim (Bool-cases s.active) [
  | inl a ↦ ground (arith, a, h)
  | inr a ↦ (ground (arith, a), none_active j slots (ground (arith, a, h)))
]

resent-IsSound :
    (i n sent : ℕ) (c : StunClient)
    → IsSound none n c
    → i < 2
    → IsSound none n
        (write_slot i (record (slot_at c i) { sent = sent }) (send_request (slot_at c i) c))
resent-IsSound i n sent c h l =
    let new : Slot = record (slot_at c i) { sent = sent } in
    record {
      two = length-set c.slots i new ∙ h.two;
      next = h.next;
      few = h.few;
      asked =
          set-All (IsAsked c.next_server) c.slots i new h.asked
            (get_or-All (IsAsked c.next_server) c.slots i h.asked (omega (arith, h.two)));
      distinct = set-IsDistinct_same c.slots i new h.distinct (omega (arith, h.two)) (λ y. refl);
      answers = h.answers;
      armed =
          set-All (IsArmed none c.timers) c.slots i new h.armed
            (get_or-All (IsArmed none c.timers) c.slots i h.armed (omega (arith, h.two)));
      room = h.room;
    }

armed_again :
    (index delay now n : ℕ) (c : StunClient)
    → IsSound none (suc n) c
    → IsSound none n (arm_once (retry_timer index) delay now c)
armed_again index delay now n c h = record {
  two = h.two;
  next = h.next;
  few = h.few;
  asked = h.asked;
  distinct = h.distinct;
  answers = h.answers;
  armed =
      All-weaken (IsArmed none c.timers)
        (IsArmed none (arm_once (retry_timer index) delay now c).timers)
        (λ s k a b.
          contains-add_once c.timers (retry_timer index) (deadline_timer s.server_index) delay now n
            h.room (k a b))
        c.slots h.armed;
  room = add_once-HasRoom c.timers (retry_timer index) delay now n h.room;
}

-- A retry leaves the slots with the same queries.
retry-IsSound :
    (index i now n : ℕ) (c : StunClient)
    → IsSound none (suc n) c
    → i < 2
    → IsSound none n (retry index i now c)
unfolding retry
retry-IsSound index i now n c h l =
    let slot = slot_at c i in
    let again = write_slot i (record slot { sent = slot.sent + 1 }) (send_request slot c) in
    let sound = resent-IsSound i (suc n) (slot.sent + 1) c h l in
    elim (Bool-cases (leb 4 slot.sent)) [
      | inl e ↦ rw e (more_room (suc n) n c (omega arith) h)
      | inr e ↦ elim (Bool-cases (ltb (slot.sent + 1) 4)) [
        | inl f ↦
            rw (e, f)
              (armed_again index (get_or retry_intervals (slot.sent + 1 - 1) 0) now n again sound)
        | inr f ↦ rw (e, f) (more_room (suc n) n again (omega arith) sound)
      ]
    ]

retry-frame :
    (index i now : ℕ) (c : StunClient)
    → i < length c.slots
    → ((retry index i now c).phase ≡ c.phase)
      × (in_flight (retry index i now c) ≡ in_flight c)
      × ((retry index i now c).mappings ≡ c.mappings)
unfolding retry
retry-frame index i now c l =
    ground
      (arith, count_active-set c.slots i (record (slot_at c i) { sent = (slot_at c i).sent + 1 }) l)

retry_at-IsValidClient :
    (j now n : ℕ) (c : StunClient)
    → IsSound none (suc n) c
    → IsPhase c.phase (in_flight c) (length c.mappings)
    → IsValidClient n (retry_at j now c (find_slot c j))
retry_at-IsValidClient j now n c h p = elim (Option-cases (find_slot c j)) [
  | inl e ↦
      subst (λ o. IsValidClient n (retry_at j now c o)) (sym e)
        (more_room (suc n) n c (omega arith) h, p)
  | inr (i, e) ↦
      let found = place_of-some (asks j) c.slots i e in
      let frame = retry-frame j i now c found.0 in
      subst (λ o. IsValidClient n (retry_at j now c o)) (sym e)
        (
          retry-IsSound j i now n c h (omega (arith, found.0, h.two)),
          subst (λ q. IsPhase q (in_flight (retry j i now c)) (length (retry j i now c).mappings))
              (sym frame.0)
              (subst (λ k. IsPhase c.phase k (length (retry j i now c).mappings)) (sym frame.1)
                (subst (λ m. IsPhase c.phase (in_flight c) (length m)) (sym frame.2) p)),
        )
]

-- A client that has ended has no queries, and one with queries runs.
ended :
    (p : StunPhase) (queries found : ℕ) → is_done p ≡ true → IsPhase p queries found → queries ≡ 0
ended StunPhase.idle q f e h = h
ended StunPhase.running q f e h = ground (arith, e)
ended StunPhase.succeeded q f e h = h.0
ended StunPhase.failed q f e h = h

deadline_at-IsValidClient :
    (random : ℕ → Option (List ℕ)) (j now n : ℕ) (c : StunClient)
    → is_done c.phase ≡ false
    → IsSound (some j) (2 * length c.servers + n) c
    → IsPhase c.phase (in_flight c) (length c.mappings)
    → IsValidClient n (deadline_at random now c (find_slot c j))
unfolding release
deadline_at-IsValidClient random j now n c d h p = elim (Option-cases (find_slot c j)) [
  | inl e ↦
      subst (λ o. IsValidClient n (deadline_at random now c o)) (sym e)
        (
          more_room (2 * length c.servers + n) n c (omega arith)
              (nobody_spared j (2 * length c.servers + n) c h (place_of-none (asks j) c.slots e)),
          p,
        )
  | inr (i, e) ↦
      let found = place_of-some (asks j) c.slots i e in
      let active : (slot_at c i).active ≡ true = ground (arith, found.1) in
      let index : (slot_at c i).server_index ≡ j = ground (arith, found.1) in
      subst (λ o. IsValidClient n (deadline_at random now c o)) (sym e)
        (refill-IsValidClient random now n (release i c) d (
          release-IsSound i (2 * length c.servers + n) (some j) c h (omega (arith, found.0, h.two))
            active (λ k m z. m (z ∙ sym index))))
]

-- `on_timer` for the timer of a retry, whose node is gone.
pub retry_due-IsValidClient :
    (random : ℕ → Option (List ℕ)) (j now n : ℕ) (c : StunClient)
    → j < 10_000_000_000
    → IsValidClient (suc n) c
    → IsValidClient n (on_timer random (retry_timer j) now (disarm (retry_timer j) c))
unfolding on_timer
retry_due-IsValidClient random j now n c l h =
    let left = disarm (retry_timer j) c in
    let sound = retry_gone j (suc n) c h.0 in
    let less = more_room (suc n) n left (omega arith) sound in
    elim (Bool-cases (is_done c.phase)) [
      | inl e ↦
          subst
            (λ b. IsValidClient n (
              if b
              then left
              else retry_of random (retry_timer j) now left
                  (tail_index (retry_timer j) retry_prefix)))
            (sym e) (less, h.1)
      | inr e ↦
          subst
            (λ b. IsValidClient n (
              if b
              then left
              else retry_of random (retry_timer j) now left
                  (tail_index (retry_timer j) retry_prefix)))
            (sym e)
            (subst (λ o. IsValidClient n (retry_of random (retry_timer j) now left o))
              (sym (tail_index_lem j l).0) (retry_at-IsValidClient j now n left sound h.1))
    ]

-- `on_timer` for the timer of a deadline, whose node is gone.
pub deadline_due-IsValidClient :
    (random : ℕ → Option (List ℕ)) (j now n : ℕ) (c : StunClient)
    → j < 10_000_000_000
    → IsValidClient (2 * length c.servers + n) c
    → IsValidClient n (on_timer random (deadline_timer j) now (disarm (deadline_timer j) c))
unfolding on_timer
deadline_due-IsValidClient random j now n c l h =
    let room = 2 * length c.servers + n in
    let left = disarm (deadline_timer j) c in
    let sound = deadline_gone j room c l h.0 in
    elim (Bool-cases (is_done c.phase)) [
      | inl e ↦
          subst
            (λ b. IsValidClient n (
              if b
              then left
              else retry_of random (deadline_timer j) now left
                  (tail_index (deadline_timer j) retry_prefix)))
            (sym e)
            (
              more_room room n left (omega arith) (
                  nobody_spared j room left sound (
                    none_active j c.slots (ended c.phase (in_flight c) (length c.mappings) e h.1))),
              h.1,
            )
      | inr e ↦
          subst
            (λ b. IsValidClient n (
              if b
              then left
              else retry_of random (deadline_timer j) now left
                  (tail_index (deadline_timer j) retry_prefix)))
            (sym e)
            (subst (λ o. IsValidClient n (retry_of random (deadline_timer j) now left o))
              (sym (tail_index_lem j l).2)
              (subst (λ o. IsValidClient n (deadline_of random now left o))
                (sym (tail_index_lem j l).1)
                (deadline_at-IsValidClient random j now n left e sound h.1)))
    ]
