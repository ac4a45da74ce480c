-- ===== src/Network/StunClient/Valid.antt =====
-- What holds of a STUN client between its events: the two slots ask different servers, every query has
-- the timer of its deadline, and the phase says whether there are queries.
use sangtachi.Prelude.{
  ℕ, suc, ◌+◌, ◌<◌, ◌≤◌, ◌≡◌, ◌≢◌, refl, sym, ap, ◌∙◌, inl, inr, Bool, true, false, ◌&&◌, ◌||◌,
  Option, none, some, List, [], ◌∷◌, ◌++◌, All, any, erase_if, length, ◌==◌, arith, bytes_eq,
  bytes_eq_refl, bytes_eq-eq, Bool-cases, Option-cases, IsDistinct,
}
use sangtachi.Timer.{Timer, TimerSet, find, contains, add_once, cancel}
use sangtachi.Timer.Live.{live, is_named, contains-live, IsValid, add_once-IsAdded, timer_of}
use sangtachi.Timer.Cancel.{cancel-live}
use sangtachi.Timer.Validity.{HasRoom, HasRoom-le, TimerOp, apply_ops-HasRoom}
use sangtachi.Network.StunClient.{StunClient, StunPhase, Slot, deadline_timer}

abbrev pub same_server : Slot → Slot → Bool
same_server a b = a.active && b.active && (a.server_index == b.server_index)

-- One server may be spared, whose deadline has just come.
abbrev pub IsBound : Option ℕ → ℕ → Type 0
IsBound none i = Unit
IsBound (some spared) i = i ≢ spared

-- The timer of the deadline of an active slot is in the set.
abbrev pub IsArmed : Option ℕ → TimerSet → Slot → Type 0
IsArmed spared ts s =
    s.active ≡ true
    → IsBound spared s.server_index
    → contains ts (deadline_timer s.server_index) ≡ true

abbrev pub IsAsked : ℕ → Slot → Type 0
IsAsked next s = s.active ≡ true → s.server_index < next

-- What holds whatever the phase, which is settled last; `n` timers more can be added.
pub record IsSound (spared : Option ℕ) (n : ℕ) (c : StunClient) : Type 0 where
  pub two : length c.slots ≡ 2
  pub next : c.next_server ≤ length c.servers
  pub few : length c.servers < 10_000_000_000
  pub asked : All (IsAsked c.next_server) c.slots
  pub distinct : IsDistinct same_server c.slots
  pub answers : length c.mappings ≤ 2
  pub armed : All (IsArmed spared c.timers) c.slots
  pub room : HasRoom n c.timers

-- What the phase says of the number of queries and of the endpoints that were found.
abbrev pub IsPhase : StunPhase → ℕ → ℕ → Type 0
IsPhase StunPhase.idle queries found = queries ≡ 0
IsPhase StunPhase.running queries found = (1 ≤ queries) × (found < 2)
IsPhase StunPhase.succeeded queries found = (queries ≡ 0) × (found ≡ 2)
IsPhase StunPhase.failed queries found = queries ≡ 0

any-append : (p : Timer → Bool) (xs ys : List Timer) → any p (xs ++ ys) ≡ (any p xs || any p ys)
any-append p [] ys = refl
any-append p (x ∷ xs) ys = ground (arith, any-append p xs ys)

-- Those with another name are not erased.
any-erase_if :
    (name other : List ℕ) (xs : List Timer)
    → bytes_eq other name ≡ false
    → any (is_named other) (erase_if (is_named name) xs) ≡ any (is_named other) xs
any-erase_if name other [] d = refl
any-erase_if name other (x ∷ xs) d = elim (Bool-cases (is_named other x)) [
  | inl e ↦
      let away : is_named name x ≡ false =
        ap (λ n. bytes_eq n name) (bytes_eq-eq x.name other e) ∙ d in
      ground (arith, e, away)
  | inr e ↦ ground (arith, e, any-erase_if name other xs d)
]

-- Adding a timer takes no other away.
pub contains-add_once :
    (ts : TimerSet) (name other : List ℕ) (delay now n : ℕ)
    → HasRoom (suc n) ts
    → contains ts other ≡ true
    → contains (add_once ts name delay now).1 other ≡ true
contains-add_once ts name other delay now n h k =
    let added =
      add_once-IsAdded ts name delay now h.valid h.firing h.started (omega (arith, h.room)) in
    contains-live (add_once ts name delay now).1 other
    ∙ ap (any (is_named other)) added.1
    ∙ elim (Bool-cases (any (is_named name) (live ts))) [
      | inl e ↦ rw e (sym (contains-live ts other) ∙ k)
      | inr e ↦ rw e (
          any-append (is_named other) (live ts) (timer_of ts name delay now false ∷ [])
          ∙ rw (sym (contains-live ts other) ∙ k) refl)
    ]

-- And there is a timer with the name then.
pub contains-add_once_self :
    (ts : TimerSet) (name : List ℕ) (delay now n : ℕ)
    → HasRoom (suc n) ts
    → contains (add_once ts name delay now).1 name ≡ true
contains-add_once_self ts name delay now n h =
    let added =
      add_once-IsAdded ts name delay now h.valid h.firing h.started (omega (arith, h.room)) in
    contains-live (add_once ts name delay now).1 name
    ∙ ap (any (is_named name)) added.1
    ∙ elim (Bool-cases (any (is_named name) (live ts))) [
      | inl e ↦ rw e e
      | inr e ↦ rw e (
          any-append (is_named name) (live ts) (timer_of ts name delay now false ∷ [])
          ∙ ground (arith, bytes_eq_refl name))
    ]

-- Cancelling one name takes no other away.
pub contains-cancel :
    (ts : TimerSet) (name other : List ℕ)
    → IsValid ts
    → bytes_eq other name ≡ false
    → contains ts other ≡ true
    → contains (cancel ts name).1 other ≡ true
contains-cancel ts name other v d k =
    contains-live (cancel ts name).1 other
    ∙ ap (any (is_named other)) (cancel-live ts name v).0
    ∙ any-erase_if name other (live ts) d
    ∙ sym (contains-live ts other)
    ∙ k

-- The set keeps room for one timer less after each of these.
pub add_once-HasRoom :
    (ts : TimerSet) (name : List ℕ) (delay now n : ℕ)
    → HasRoom (suc n) ts
    → HasRoom n (add_once ts name delay now).1
add_once-HasRoom ts name delay now n h =
    apply_ops-HasRoom (TimerOp.add_once_op name delay now ∷ []) n ts
      (HasRoom-le (suc n) (1 + n) ts (omega arith) h)

cancel-frame :
    (ts : TimerSet) (name : List ℕ)
    → ((cancel ts name).1.firing_id ≡ ts.firing_id) × ((cancel ts name).1.next_id ≡ ts.next_id)
unfolding cancel
cancel-frame ts name = elim (Option-cases (find ts name)) [
  | inl e ↦ ground (arith, e)
  | inr (t, e) ↦ ground (arith, e)
]

pub cancel-HasRoom :
    (ts : TimerSet) (name : List ℕ) (n : ℕ) → HasRoom n ts → HasRoom n (cancel ts name).1
cancel-HasRoom ts name n h =
    let frame = cancel-frame ts name in
    record {
      valid = (cancel-live ts name h.valid).2;
      firing = omega (arith, frame, h.firing);
      started = omega (arith, frame, h.started);
      room = omega (arith, frame, h.room);
    }
