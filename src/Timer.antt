-- ===== src/Timer.antt =====
-- client/src/timer.cpp and client/include/sangtachi/timer.hpp: the set of timers. A name is a list of
-- character codes. The callback of `run_expired` is an argument: it gets the tick, the set and a
-- state of its own, and gives back both.
pub mod Live
pub mod Names
pub mod Cancel
pub mod Deadlines
pub mod Expiry
pub mod Rounds
pub mod Validity
pub mod Marks
pub mod Firing
mod Examples
use sangtachi.Prelude.{
  ℕ, zero, suc, ◌+◌, ◌-◌, ◌*◌, Bool, true, false, not, ◌&&◌, ◌||◌, Option, none, some, List, [],
  ◌∷◌, ◌++◌, ltb, leb, ◌==◌, if◌then◌else◌, length, min, bytes_eq,
}
use sangtachi.Prelude.Bits.{u64}

abbrev pub infinite_timeout : ℕ
infinite_timeout = 0xffff_ffff

unfoldable pub next_timeout_ms : ℕ → Option ℕ → ℕ
next_timeout_ms now none = infinite_timeout
next_timeout_ms now (some deadline) =
    if leb deadline now then 0 else min (deadline - now) (infinite_timeout - 1)

pub record Timer : Type 0 where
  pub name : List ℕ
  pub interval_ms : ℕ
  pub deadline : ℕ
  pub last_fired : ℕ
  pub repeating : Bool
  pub id : ℕ

pub record TimerTick : Type 0 where
  pub name : List ℕ
  pub elapsed_ms : ℕ

pub record TimerSet : Type 0 where
  pub timers : List Timer
  pub next_id : ℕ
  pub firing_id : ℕ
  pub cancel_pending : Bool

abbrev pub new_timer_set : TimerSet
new_timer_set = record { timers = []; next_id = 1; firing_id = 0; cancel_pending = false }

-- `cancel_pending_ && it->id == firing_id_`.
abbrev pub is_cancelled : TimerSet → Timer → Bool
is_cancelled ts t = ts.cancel_pending && (t.id == ts.firing_id)

-- The first timer that the test is true of, and the list without it.
abbrev pub find_first : (Timer → Bool) → List Timer → Option Timer
find_first p [] = none
find_first p (t ∷ timers) = if p t then some t else find_first p timers

abbrev pub erase_first : (Timer → Bool) → List Timer → List Timer
erase_first p [] = []
erase_first p (t ∷ timers) = if p t then timers else t ∷ erase_first p timers

abbrev pub is_live_named : TimerSet → List ℕ → Timer → Bool
is_live_named ts name t = not (is_cancelled ts t) && bytes_eq t.name name

unfoldable pub find : TimerSet → List ℕ → Option Timer
find ts name = find_first (is_live_named ts name) ts.timers

unfoldable pub contains : TimerSet → List ℕ → Bool
contains ts name = elim (find ts name) [ none ↦ false | some t ↦ true ]

abbrev pub push_timer : TimerSet → List ℕ → ℕ → ℕ → Bool → TimerSet
push_timer ts name interval now repeating = record ts {
  timers =
      ts.timers
      ++ (record {
        name = name;
        interval_ms = interval;
        deadline = u64 (now + interval);
        last_fired = now;
        repeating = repeating;
        id = ts.next_id;
      }
          ∷ []);
  next_id = u64 (ts.next_id + 1);
}

-- Whether the timer was added, and the set.
unfoldable pub add_periodic : TimerSet → List ℕ → ℕ → ℕ → Bool × TimerSet
add_periodic ts name interval_ms now =
    if contains ts name then (false, ts) else (true, push_timer ts name interval_ms now true)

unfoldable pub add_once : TimerSet → List ℕ → ℕ → ℕ → Bool × TimerSet
add_once ts name delay_ms now =
    if contains ts name then (false, ts) else (true, push_timer ts name delay_ms now false)

-- What `cancel` does with the timer that it finds: the one whose callback runs is only marked.
abbrev pub cancel_found : TimerSet → List ℕ → Option Timer → Bool × TimerSet
cancel_found ts name none = (false, ts)
cancel_found ts name (some t) =
    if t.id == ts.firing_id
    then (true, record ts { cancel_pending = true })
    else (true, record ts { timers = erase_first (is_live_named ts name) ts.timers })

-- Whether there was such a timer, and the set.
unfoldable pub cancel : TimerSet → List ℕ → Bool × TimerSet
cancel ts name = cancel_found ts name (find ts name)

-- The earlier of a deadline and the earliest so far.
abbrev pub sooner : ℕ → Option ℕ → Option ℕ
sooner deadline none = some deadline
sooner deadline (some earliest) = if ltb deadline earliest then some deadline else some earliest

abbrev pub earliest_of : TimerSet → List Timer → Option ℕ → Option ℕ
earliest_of ts [] earliest = earliest
earliest_of ts (t ∷ timers) earliest =
    earliest_of ts timers (if is_cancelled ts t then earliest else sooner t.deadline earliest)

unfoldable pub earliest_deadline : TimerSet → Option ℕ
earliest_deadline ts = earliest_of ts ts.timers none

unfoldable pub timer_count : TimerSet → ℕ
timer_count ts = length ts.timers - (if ts.cancel_pending then 1 else 0)

abbrev pub due_ids : ℕ → List Timer → List ℕ
due_ids now [] = []
due_ids now (t ∷ timers) =
    let rest = due_ids now timers in if leb t.deadline now then t.id ∷ rest else rest

abbrev pub has_id : ℕ → Timer → Bool
has_id id t = t.id == id

-- The timer in the place of the first with its id.
abbrev pub write_timer : Timer → List Timer → List Timer
write_timer new [] = []
write_timer new (t ∷ timers) = if t.id == new.id then new ∷ timers else t ∷ write_timer new timers

abbrev pub tick_of : ℕ → Timer → TimerTick
tick_of now t = record {
  name = t.name;
  elapsed_ms = u64 (now + (0x1_0000_0000_0000_0000 - t.last_fired));
}

abbrev pub rearmed : ℕ → Timer → Timer
rearmed now t = record t { last_fired = now; deadline = u64 (now + t.interval_ms) }

-- The set while the callback of a periodic timer runs.
abbrev pub begin_firing : ℕ → Timer → TimerSet → TimerSet
begin_firing now t ts = record ts {
  timers = write_timer (rearmed now t) ts.timers;
  firing_id = t.id;
  cancel_pending = false;
}

-- And after it: a timer that cancelled itself goes now.
abbrev pub end_firing : ℕ → TimerSet → TimerSet
end_firing id ts = record ts {
  timers = if ts.cancel_pending then erase_first (has_id id) ts.timers else ts.timers;
  firing_id = 0;
  cancel_pending = false;
}

module _ {S : Type 0} (on_tick : TimerTick → TimerSet → S → TimerSet × S) where
  -- One timer that is due: it may be gone by now; a one-shot timer goes before its callback.
  abbrev pub fire_found : ℕ → ℕ → TimerSet → S → Option Timer → TimerSet × S
  fire_found now id ts s none = (ts, s)
  fire_found now id ts s (some t) =
      let out = on_tick (tick_of now t) (begin_firing now t ts) s in
      if not t.repeating
      then on_tick (tick_of now t) (record ts { timers = erase_first (has_id id) ts.timers }) s
      else (end_firing id out.0, out.1)

  unfoldable pub fire : ℕ → ℕ → TimerSet → S → TimerSet × S
  fire now id ts s = fire_found now id ts s (find_first (has_id id) ts.timers)

  abbrev pub fire_each : ℕ → List ℕ → TimerSet → S → TimerSet × S
  fire_each now [] ts s = (ts, s)
  fire_each now (id ∷ ids) ts s = let out = fire now id ts s in fire_each now ids out.0 out.1

  unfoldable pub run_expired : ℕ → TimerSet → S → TimerSet × S
  run_expired now ts s = fire_each now (due_ids now ts.timers) ts s
