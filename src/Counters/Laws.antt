-- ===== src/Counters/Laws.antt =====
-- Counting.
use sangtachi.Prelude.{ℕ, ◌+◌, ◌≤◌, ◌≡◌, min, ◌==◌, if◌then◌else◌, arith}
use sangtachi.Counters.{Counter, index_of, counter_max, Counters, add}

-- Adding changes only its own counter, and there the sum stops at the largest 64-bit number.
pub add_lem :
    (t : Counters) (counter c : Counter) (amount : ℕ)
    → t c ≤ counter_max
    → amount ≤ counter_max
    → add t counter amount c
      ≡ (if index_of c == index_of counter then min (t c + amount) counter_max else t c)
unfolding add
add_lem t counter c amount h k = ground arith
