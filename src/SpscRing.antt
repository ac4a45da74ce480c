-- ===== src/SpscRing.antt =====
-- client/include/sangtachi/spsc_ring.hpp: the ring buffer between one producer and one consumer. Each
-- operation is one step here.
pub mod Items
pub mod Queue
mod Examples
use sangtachi.Prelude.{
  ℕ, suc, ◌+◌, ◌-◌, ◌%◌, Bool, true, false, Option, none, some, List, [], ◌∷◌, ◌==◌, if◌then◌else◌,
  get_or, set, replicate,
}

pub record Ring (A : Type 0) : Type 0 where
  pub slots : List A
  pub head : ℕ
  pub tail : ℕ

-- `kSlots`.
abbrev pub slot_count : ℕ → ℕ
slot_count capacity = capacity + 1

-- A ring as constructed; `blank` is the default value of the element type.
abbrev pub new_ring : {A : Type 0} → ℕ → A → Ring A
new_ring capacity blank = record {
  slots = replicate (slot_count capacity) blank;
  head = 0;
  tail = 0;
}

unfoldable pub try_push : {A : Type 0} → ℕ → A → Ring A → Bool × Ring A
try_push capacity v r =
    let next = (r.tail + 1) % slot_count capacity in
    if next == r.head
    then (false, r)
    else (true, record { slots = set r.slots r.tail v; head = r.head; tail = next })

unfoldable pub try_pop : {A : Type 0} → ℕ → A → Ring A → Option A × Ring A
try_pop capacity blank r = if r.head == r.tail then (none, r) else (
  some (get_or r.slots r.head blank),
  record {
    slots = set r.slots r.head blank;
    head = (r.head + 1) % slot_count capacity;
    tail = r.tail;
  },
)

unfoldable pub size : {A : Type 0} → ℕ → Ring A → ℕ
size capacity r = (r.tail + slot_count capacity - r.head) % slot_count capacity
