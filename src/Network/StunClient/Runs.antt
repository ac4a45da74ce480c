-- ===== src/Network/StunClient/Runs.antt =====
-- A run of the STUN client: it starts, and then its timers come and datagrams arrive in whatever order.
use sangtachi.Prelude.{
  ℕ, suc, ◌+◌, ◌*◌, ◌<◌, refl, inl, inr, Option, none, List, [], ◌∷◌, All, length, ltb, arith,
  Bool-cases,
}
use sangtachi.Counters.{Counters}
use sangtachi.Timer.{TimerSet}
use sangtachi.Timer.Validity.{HasRoom, HasRoom-le}
use sangtachi.Network.StunClient.{
  StunClient, StunServer, new_stun_client, retry_timer, deadline_timer,
}
use sangtachi.Network.StunClient.Queries.{disarm, start, on_timer, on_datagram}
use sangtachi.Network.StunClient.Valid.{IsSound}
use sangtachi.Network.StunClient.Steps.{more_room}
use sangtachi.Network.StunClient.Settled.{IsValidClient, refill-IsValidClient, fail-IsValidClient}
use sangtachi.Network.StunClient.Events.{retry_due-IsValidClient, deadline_due-IsValidClient}
use sangtachi.Network.StunClient.Arrivals.{arrived-IsValidClient}

-- The timer of a server comes, for a retry or the deadline, or a datagram arrives, each with the time.
pub data StunEvent : Type 0 where
  retry_due deadline_due : ℕ → ℕ → StunEvent
  arrived : List ℕ → ℕ → StunEvent

-- A timer that fires once is gone from the set when its callback runs.
abbrev pub step : (ℕ → Option (List ℕ)) → StunEvent → StunClient → StunClient
step random (StunEvent.retry_due j now) c =
    on_timer random (retry_timer j) now (disarm (retry_timer j) c)
step random (StunEvent.deadline_due j now) c =
    on_timer random (deadline_timer j) now (disarm (deadline_timer j) c)
step random (StunEvent.arrived payload now) c = on_datagram random payload now c

abbrev pub run : (ℕ → Option (List ℕ)) → List StunEvent → StunClient → StunClient
run random [] c = c
run random (e ∷ events) c = run random events (step random e c)

-- An event is about a server that a name can be made for.
abbrev pub IsNamed : StunEvent → Type 0
IsNamed (StunEvent.retry_due j now) = j < 10_000_000_000
IsNamed (StunEvent.deadline_due j now) = j < 10_000_000_000
IsNamed (StunEvent.arrived payload now) = Unit

new_stun_client-IsSound :
    (n : ℕ) (servers : List StunServer) (timers : TimerSet) (counters : Counters)
    → length servers < 10_000_000_000
    → HasRoom n timers
    → IsSound none n (new_stun_client servers timers counters)
new_stun_client-IsSound n servers timers counters l h = record {
  two = refl;
  next = omega arith;
  few = l;
  asked = ((λ a. ground (arith, a)), ((λ a. ground (arith, a)), tt));
  distinct = ground arith;
  answers = omega arith;
  armed = ((λ a. ground (arith, a)), ((λ a. ground (arith, a)), tt));
  room = h;
}

start-IsValidClient :
    (random : ℕ → Option (List ℕ)) (now n : ℕ) (servers : List StunServer) (timers : TimerSet)
    (counters : Counters)
    → length servers < 10_000_000_000
    → HasRoom (2 * length servers + n) timers
    → IsValidClient n (start random now (new_stun_client servers timers counters))
unfolding start
start-IsValidClient random now n servers timers counters l h =
    let fresh = new_stun_client servers timers counters in
    let sound = new_stun_client-IsSound (2 * length servers + n) servers timers counters l h in
    elim (Bool-cases (ltb (length servers) 2)) [
      | inl e ↦ rw e (
          fail-IsValidClient n fresh
            (more_room (2 * length servers + n) n fresh (omega arith) sound))
      | inr e ↦ rw e (refill-IsValidClient random now n fresh refl sound)
    ]

-- More ids of timers than an event can use up, with fewer servers than names.
abbrev pub event_room : ℕ
event_room = 20_000_000_000

step-IsValidClient :
    (random : ℕ → Option (List ℕ)) (e : StunEvent) (n : ℕ) (c : StunClient)
    → IsNamed e
    → IsValidClient (event_room + n) c
    → IsValidClient n (step random e c)
step-IsValidClient random (StunEvent.retry_due j now) n c l h =
    retry_due-IsValidClient random j now n c l
      (more_room (event_room + n) (suc n) c (omega arith) h.0, h.1)
step-IsValidClient random (StunEvent.deadline_due j now) n c l h =
    deadline_due-IsValidClient random j now n c l
      (more_room (event_room + n) (2 * length c.servers + n) c (omega (arith, h.0.few)) h.0, h.1)
step-IsValidClient random (StunEvent.arrived payload now) n c l h =
    arrived-IsValidClient random payload now n c
      (more_room (event_room + n) (2 * length c.servers + n) c (omega (arith, h.0.few)) h.0, h.1)

run-IsValidClient :
    (random : ℕ → Option (List ℕ)) (events : List StunEvent) (n : ℕ) (c : StunClient)
    → All IsNamed events
    → IsValidClient (event_room * length events + n) c
    → IsValidClient n (run random events c)
run-IsValidClient random [] n c k h =
    (more_room (event_room * length {A = StunEvent} [] + n) n c (omega arith) h.0, h.1)
run-IsValidClient random (e ∷ events) n c k h =
    run-IsValidClient random events n (step random e c) k.1 (
      step-IsValidClient random e (event_room * length events + n) c k.0 (
        more_room (event_room * length (e ∷ events) + n)
            (event_room + (event_room * length events + n)) c (omega arith) h.0,
        h.1,
      ))

-- Whatever happens to a client that has started: its two slots ask different servers, every query has
-- the timer of its deadline in the set, and its phase says what is the case: while it runs it has a
-- query and fewer than two endpoints, it has succeeded with exactly two endpoints and no query, and
-- it has failed with no query. The timers are valid and their ids are not used up.
pub run_started-IsValidClient :
    (random : ℕ → Option (List ℕ)) (now : ℕ) (events : List StunEvent) (servers : List StunServer)
    (timers : TimerSet) (counters : Counters)
    → length servers < 10_000_000_000
    → All IsNamed events
    → HasRoom (event_room * suc (length events)) timers
    → IsValidClient 0
        (run random events (start random now (new_stun_client servers timers counters)))
run_started-IsValidClient random now events servers timers counters l k h =
    run-IsValidClient random events 0 (start random now (new_stun_client servers timers counters)) k
      (start-IsValidClient random now (event_room * length events + 0) servers timers counters l (
        HasRoom-le (event_room * suc (length events))
          (2 * length servers + (event_room * length events + 0)) timers (omega arith) h))
