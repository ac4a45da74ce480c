-- ===== src/Network/StunClient/Ending.antt =====
-- The queries of a run come to an end.
use sangtachi.Prelude.{
  ℕ, suc, ◌+◌, ◌<◌, ◌≤◌, ◌≡◌, refl, sym, subst, inl, inr, Bool, true, false, not, ◌&&◌, Option,
  none, some, List, [], ◌∷◌, All, length, ltb, if◌then◌else◌, arith, Bool-cases, Option-cases,
}
use sangtachi.Counters.{Counters}
use sangtachi.Timer.{TimerSet}
use sangtachi.Network.Stun.{peek_transaction_id}
use sangtachi.Network.StunClient.{
  StunClient, StunServer, new_stun_client, is_done, find_slot, asks, deadline_timer, retry_timer,
  retry_prefix, tail_index,
}
use sangtachi.Network.StunClient.Queries.{
  disarm, start, fail, release_all, on_timer, retry_of, deadline_of, deadline_at, on_datagram,
}
use sangtachi.Network.StunClient.Names.{tail_index_lem}
use sangtachi.Network.StunClient.Slots.{place_of-some}
use sangtachi.Network.StunClient.Runs.{StunEvent, step, run, IsNamed}
use sangtachi.Network.StunClient.Progress.{
  weight, deadline-weight, retry_at-weight, datagram_of-weight, refill-weight, release_from-weight,
}

abbrev pub is_found : Option ℕ → Bool
is_found none = false
is_found (some i) = true

-- Whether the event is the deadline of a query.
abbrev pub ends_query : StunEvent → StunClient → Bool
ends_query (StunEvent.deadline_due j now) c = not (is_done c.phase) && is_found (find_slot c j)
ends_query e c = false

-- How many queries of a run meet their deadline.
abbrev pub deadlines_met : (ℕ → Option (List ℕ)) → List StunEvent → StunClient → ℕ
deadlines_met random [] c = 0
deadlines_met random (e ∷ events) c =
    let rest = deadlines_met random events (step random e c) in
    if ends_query e c then suc rest else rest

-- The weight that a step takes away at least.
abbrev cost : StunEvent → StunClient → ℕ
cost e c = if ends_query e c then 1 else 0

-- A client that is not done, at the deadline of a server and at a retry.
waiting_deadline :
    (random : ℕ → Option (List ℕ)) (j now : ℕ) (c left : StunClient)
    → weight left ≡ weight c
    → left.slots ≡ c.slots
    → weight (deadline_at random now left (find_slot left j))
        + (if is_found (find_slot left j) then 1 else 0)
      ≤ weight c
waiting_deadline random j now c left w s = elim (Option-cases (find_slot left j)) [
  | inl e ↦
      subst (λ o. weight (deadline_at random now left o) + (if is_found o then 1 else 0) ≤ weight c)
        (sym e) (omega (arith, w))
  | inr (i, e) ↦
      let place = place_of-some (asks j) left.slots i e in
      let less = deadline-weight random now i left place.0 (ground (arith, place.1)) in
      subst (λ o. weight (deadline_at random now left o) + (if is_found o then 1 else 0) ≤ weight c)
        (sym e) (omega (arith, w, less))
]

deadline_due-weight :
    (random : ℕ → Option (List ℕ)) (j now : ℕ) (c : StunClient)
    → j < 10_000_000_000
    → weight (step random (StunEvent.deadline_due j now) c) + cost (StunEvent.deadline_due j now) c
      ≤ weight c
unfolding on_timer
deadline_due-weight random j now c l =
    let left = disarm (deadline_timer j) c in
    let IsLess = λ (b : Bool) (o : Option ℕ).
      weight (if b then left else retry_of random (deadline_timer j) now left o)
        + (if not b && is_found (find_slot c j) then 1 else 0)
      ≤ weight c in
    let met =
      subst
        (λ o.
          weight (deadline_of random now left o) + (if is_found (find_slot c j) then 1 else 0)
          ≤ weight c)
        (sym (tail_index_lem j l).1) (waiting_deadline random j now c left refl refl) in
    elim (Bool-cases (is_done c.phase)) [
      | inl d ↦
          subst (λ b. IsLess b (tail_index (deadline_timer j) retry_prefix)) (sym d) (omega arith)
      | inr d ↦
          subst (λ b. IsLess b (tail_index (deadline_timer j) retry_prefix)) (sym d)
            (subst (λ o. IsLess false o) (sym (tail_index_lem j l).2) met)
    ]

retry_due-weight :
    (random : ℕ → Option (List ℕ)) (j now : ℕ) (c : StunClient)
    → j < 10_000_000_000
    → weight (step random (StunEvent.retry_due j now) c) ≤ weight c
unfolding on_timer
retry_due-weight random j now c l =
    let left = disarm (retry_timer j) c in
    let IsLess = λ (b : Bool) (o : Option ℕ).
      weight (if b then left else retry_of random (retry_timer j) now left o) ≤ weight c in
    let tried =
      subst (λ o. IsLess false o) (sym (tail_index_lem j l).0) (retry_at-weight j now left) in
    elim (Bool-cases (is_done c.phase)) [
      | inl d ↦
          subst (λ b. IsLess b (tail_index (retry_timer j) retry_prefix)) (sym d) (omega arith)
      | inr d ↦ subst (λ b. IsLess b (tail_index (retry_timer j) retry_prefix)) (sym d) tried
    ]

step-weight :
    (random : ℕ → Option (List ℕ)) (e : StunEvent) (c : StunClient)
    → IsNamed e
    → weight (step random e c) + cost e c ≤ weight c
unfolding on_datagram
step-weight random (StunEvent.retry_due j now) c l =
    omega (arith, retry_due-weight random j now c l)
step-weight random (StunEvent.deadline_due j now) c l = deadline_due-weight random j now c l
step-weight random (StunEvent.arrived payload now) c l =
    omega (arith, datagram_of-weight random payload now c (peek_transaction_id payload))

run-weight :
    (random : ℕ → Option (List ℕ)) (events : List StunEvent) (c : StunClient)
    → All IsNamed events
    → deadlines_met random events c + weight (run random events c) ≤ weight c
run-weight random [] c h = omega arith
run-weight random (e ∷ events) c h =
    ground (arith, run-weight random events (step random e c) h.1, step-weight random e c h.0)

start-weight :
    (random : ℕ → Option (List ℕ)) (now : ℕ) (servers : List StunServer) (timers : TimerSet)
    (counters : Counters)
    → weight (start random now (new_stun_client servers timers counters)) ≤ length servers
unfolding start fail release_all
start-weight random now servers timers counters =
    let fresh = new_stun_client servers timers counters in
    let failed = release_from-weight 2 0 fresh in
    let filled = refill-weight random now fresh in
    elim (Bool-cases (ltb (length servers) 2)) [
      | inl e ↦ rw e (omega (arith, failed))
      | inr e ↦ rw e (omega (arith, filled))
    ]

-- Whatever retries, deadlines and datagrams come to a client that has started, in whatever order: the
-- queries that meet their deadline, the queries that it has at the end and the servers that it has not
-- asked yet are together at most as many as its servers. So it waits for at most one deadline a server.
pub run_started-deadlines_met :
    (random : ℕ → Option (List ℕ)) (now : ℕ) (events : List StunEvent) (servers : List StunServer)
    (timers : TimerSet) (counters : Counters)
    → All IsNamed events
    → deadlines_met random events (start random now (new_stun_client servers timers counters))
        + weight (run random events (start random now (new_stun_client servers timers counters)))
      ≤ length servers
run_started-deadlines_met random now events servers timers counters h =
    let started = start random now (new_stun_client servers timers counters) in
    omega
      (arith, run-weight random events started h, start-weight random now servers timers counters)
