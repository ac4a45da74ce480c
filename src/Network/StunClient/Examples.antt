-- ===== src/Network/StunClient/Examples.antt =====
-- Tests of the STUN client, and the theorems at a concrete run.
use sangtachi.Prelude.{
  ℕ, ◌+◌, ◌*◌, ◌≤◌, ◌≡◌, length, refl, Option, some, List, [], ◌∷◌, replicate, arith,
}
use sangtachi.Counters.{Counters}
use sangtachi.Timer.{new_timer_set}
use sangtachi.Timer.Validity.{HasRoom}
use sangtachi.Network.Endpoint.{Endpoint}
use sangtachi.Network.Stun.{StunMessageType}
use sangtachi.Network.Stun.Response.{encode_message, encode_mapped}
use sangtachi.Network.StunClient.{StunClient, StunServer, new_stun_client, stun_stage_cap_ms}
use sangtachi.Network.StunClient.Queries.{start}
use sangtachi.Network.StunClient.Settled.{IsValidClient}
use sangtachi.Network.StunClient.Runs.{StunEvent, run, event_room, run_started-IsValidClient}
use sangtachi.Network.StunClient.Progress.{weight}
use sangtachi.Network.StunClient.Ending.{deadlines_met, run_started-deadlines_met}

abbrev servers : List StunServer
servers =
    record { label = b'a' ∷ []; endpoint = record { address = 0x0101_0101; port = 3478 } }
    ∷ record { label = b'b' ∷ []; endpoint = record { address = 0x0202_0202; port = 3478 } }
    ∷ record { label = b'c' ∷ []; endpoint = record { address = 0x0303_0303; port = 3478 } }
    ∷ []

abbrev no_counts : Counters
no_counts c = 0

-- The n-th transaction id has n in all bytes.
abbrev draw : ℕ → Option (List ℕ)
draw n = some (replicate 12 n)

abbrev home : Endpoint
home = record { address = 0xcb00_7107; port = 40000 }

-- The answer to the n-th query.
abbrev answer : ℕ → List ℕ
answer n =
    encode_message StunMessageType.binding_success_response (replicate 12 n)
      (record { type = 0x0020; value = encode_mapped home; padding = [] } ∷ [])

-- The first server does not answer, the other two do.
abbrev events : List StunEvent
events =
    StunEvent.retry_due 0 500
    ∷ StunEvent.arrived (answer 1) 700
    ∷ StunEvent.deadline_due 0 5000
    ∷ StunEvent.arrived (answer 2) 5100
    ∷ []

abbrev started : StunClient
started = start draw 0 (new_stun_client servers new_timer_set no_counts)

new_timer_set-HasRoom : HasRoom (event_room * 5) new_timer_set
new_timer_set-HasRoom = record {
  valid = record { names = tt; ids = tt; known = tt; marked = λ e. ground (arith, e) };
  firing = omega arith;
  started = omega arith;
  room = omega arith;
}

cap_of_three : stun_stage_cap_ms 3 ≡ 10000
unfolding stun_stage_cap_ms
cap_of_three = refl

run_started-IsValidClient_example : IsValidClient 0 (run draw events started)
run_started-IsValidClient_example =
    run_started-IsValidClient draw 0 events servers new_timer_set no_counts (omega arith)
      (ground arith) new_timer_set-HasRoom

run_started-deadlines_met_example :
    deadlines_met draw events started + weight (run draw events started) ≤ length servers
run_started-deadlines_met_example =
    run_started-deadlines_met draw 0 events servers new_timer_set no_counts (ground arith)
