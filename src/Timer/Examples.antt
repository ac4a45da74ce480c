-- ===== src/Timer/Examples.antt =====
-- Tests of the timers, and the theorems at concrete sets.
use sangtachi.Prelude.{ℕ, ◌+◌, ◌<◌, ◌≡◌, refl, true, false, List, [], ◌∷◌, any, erase_if, arith}
use sangtachi.Timer.{
  Timer, TimerTick, TimerSet, find, cancel, fire, run_expired, earliest_deadline, next_timeout_ms,
}
use sangtachi.Timer.Live.{live, is_named, IsValid}
use sangtachi.Timer.Cancel.{cancel-live}
use sangtachi.Timer.Expiry.{note_tick, idle_set}
use sangtachi.Timer.Rounds.{fired, remaining, run_expired-fired, run_expired_waits}
use sangtachi.Timer.Validity.{TimerOp, IsIdle}
use sangtachi.Timer.Firing.{Uses, run_expired-IsValid}

abbrev tick : List ℕ
tick = b't' ∷ []

abbrev once : List ℕ
once = b'o' ∷ []

abbrev both : List Timer
both =
    record {
      name = tick;
      interval_ms = 100;
      deadline = 1000;
      last_fired = 900;
      repeating = true;
      id = 1;
    }
    ∷ record {
      name = once;
      interval_ms = 50;
      deadline = 1005;
      last_fired = 955;
      repeating = false;
      id = 2;
    }
    ∷ []

-- The callback of the periodic timer is running.
abbrev running : TimerSet
running = record { timers = both; next_id = 3; firing_id = 1; cancel_pending = false }

running-IsValid : IsValid running
running-IsValid = record {
  names = ground arith;
  ids = ground arith;
  known = ground arith;
  marked = λ e. ground (arith, e);
}

idle_set-IsValid : IsValid (idle_set 3 both)
idle_set-IsValid = record {
  names = ground arith;
  ids = ground arith;
  known = ground arith;
  marked = λ e. ground (arith, e);
}

-- A callback that cancels the periodic timer, its own or not.
abbrev stop_tick : TimerTick → TimerSet → ℕ → TimerSet × ℕ
stop_tick t ts s = ((cancel ts tick).1, s + 1)

stop_tick-Uses : Uses 1 stop_tick
stop_tick-Uses t ts s = (TimerOp.cancel_op tick ∷ [], refl, omega arith)

-- The periodic timer cancels itself, and the other one fires.
stopped : run_expired stop_tick 1005 (idle_set 3 both) 0 ≡ (idle_set 3 [], 2)
unfolding run_expired fire cancel find
stopped = refl

cancel-live_example :
    (live (cancel running tick).1 ≡ erase_if (is_named tick) (live running))
    × ((cancel running tick).0 ≡ any (is_named tick) (live running))
    × IsValid (cancel running tick).1
cancel-live_example = cancel-live running tick running-IsValid

run_expired-IsValid_example :
    IsValid (run_expired stop_tick 1005 (idle_set 3 both) 0).0
    × IsIdle (run_expired stop_tick 1005 (idle_set 3 both) 0).0
run_expired-IsValid_example =
    run_expired-IsValid 1 stop_tick 1005 (idle_set 3 both) 0 stop_tick-Uses idle_set-IsValid
      (refl, refl) (omega arith) (omega arith)

run_expired-fired_example :
    run_expired note_tick 1005 (idle_set 3 both) []
    ≡ (idle_set 3 (remaining 1005 both), fired 1005 both)
run_expired-fired_example = run_expired-fired 3 1005 both idle_set-IsValid.ids (ground arith)

-- A timer that fires once at once, beside the others.
abbrev with_immediate : List Timer
with_immediate =
    record {
      name = b'z' ∷ [];
      interval_ms = 0;
      deadline = 1005;
      last_fired = 1005;
      repeating = false;
      id = 3;
    }
    ∷ both

run_expired_waits_example :
    0
    < next_timeout_ms 1005
        (earliest_deadline (run_expired note_tick 1005 (idle_set 4 with_immediate) []).0)
run_expired_waits_example =
    run_expired_waits 4 1005 with_immediate (ground arith) (ground arith) (ground arith)
