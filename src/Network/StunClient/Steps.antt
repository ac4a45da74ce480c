-- ===== src/Network/StunClient/Steps.antt =====
-- A query that begins and one that ends keep a client sound.
use sangtachi.Prelude.{
  ℕ, zero, suc, ◌+◌, ◌*◌, ◌<◌, ◌≤◌, ◌≡◌, ◌≢◌, refl, sym, subst, ◌∙◌, inl, inr, Bool, true, false,
  not, Option, none, some, List, length, length-set, if◌then◌else◌, arith, Bool-cases, Option-cases,
  All-weaken, All-both,
}
use sangtachi.Timer.{add_once, cancel}
use sangtachi.Timer.Validity.{HasRoom-le}
use sangtachi.Network.StunClient.{StunClient, Slot, slot_at, retry_timer, deadline_timer, free_slot}
use sangtachi.Network.StunClient.Queries.{
  start_query, begin_query, query_with, release, fill_slot, fill, wants_query,
}
use sangtachi.Network.StunClient.Names.{retry_timer-ne_deadline, deadline_timer-ne}
use sangtachi.Network.StunClient.Valid.{
  same_server, IsBound, IsArmed, IsAsked, IsSound, contains-add_once, contains-add_once_self,
  contains-cancel, add_once-HasRoom, cancel-HasRoom,
}
use sangtachi.Network.StunClient.Slots.{set-All, get_or-All, set-All_others, set-IsDistinct}

-- A query of the next server begins in a slot.
pub start_query-IsSound :
    (i now n draws : ℕ) (transaction : List ℕ) (c : StunClient)
    → IsSound none (suc (suc n)) c
    → c.next_server < length c.servers
    → IsSound none n (
        start_query i c.next_server now transaction
          (record c { next_server = c.next_server + 1; draws = draws }))
unfolding start_query
start_query-IsSound i now n draws transaction c h l =
    let new : Slot = record {
      active = true;
      server_index = c.next_server;
      transaction = transaction;
      sent = 1;
    } in
    let first = (add_once c.timers (retry_timer c.next_server) 500 now).1 in
    let second = (add_once first (deadline_timer c.next_server) 5000 now).1 in
    let room = add_once-HasRoom c.timers (retry_timer c.next_server) 500 now (suc n) h.room in
    record {
      two = length-set c.slots i new ∙ h.two;
      next = omega arith;
      few = h.few;
      asked =
          set-All (IsAsked (c.next_server + 1)) c.slots i new
            (All-weaken (IsAsked c.next_server) (IsAsked (c.next_server + 1))
              (λ s k a. let m = k a in omega arith) c.slots h.asked)
            (λ a. omega arith);
      distinct = set-IsDistinct c.slots i new h.distinct (
          All-weaken (IsAsked c.next_server) (λ y. same_server new y ≡ false)
            (λ s k. elim (Bool-cases s.active) [
              | inl e ↦ (let m = k e in ground (arith, m))
              | inr e ↦ ground (arith, e)
            ])
            c.slots h.asked);
      answers = h.answers;
      armed =
          set-All (IsArmed none second) c.slots i new
            (All-weaken (IsArmed none c.timers) (IsArmed none second)
              (λ s k a b.
                contains-add_once first (deadline_timer c.next_server)
                  (deadline_timer s.server_index) 5000 now n room
                  (contains-add_once c.timers (retry_timer c.next_server)
                    (deadline_timer s.server_index) 500 now (suc n) h.room (k a b)))
              c.slots h.armed)
            (λ a b. contains-add_once_self first (deadline_timer c.next_server) 5000 now n room);
      room = add_once-HasRoom first (deadline_timer c.next_server) 5000 now n room;
    }

-- The query in an active slot ends; its deadline may have come already.
pub release-IsSound :
    (i n : ℕ) (spared : Option ℕ) (c : StunClient)
    → IsSound spared n c
    → i < 2
    → (slot_at c i).active ≡ true
    → ((k : ℕ) → k ≢ (slot_at c i).server_index → IsBound spared k)
    → IsSound none n (release i c)
unfolding release
release-IsSound i n spared c h l a b =
    let s = slot_at c i in
    let gone : Slot = record s { active = false; sent = 0 } in
    let first = (cancel c.timers (retry_timer s.server_index)).1 in
    let second = (cancel first (deadline_timer s.server_index)).1 in
    let room = cancel-HasRoom c.timers (retry_timer s.server_index) n h.room in
    let asked = get_or-All (IsAsked c.next_server) c.slots i h.asked (omega (arith, h.two)) a in
    record {
      two = length-set c.slots i gone ∙ h.two;
      next = h.next;
      few = h.few;
      asked = set-All (IsAsked c.next_server) c.slots i gone h.asked (λ e. ground (arith, e));
      distinct = set-IsDistinct c.slots i gone h.distinct (
          All-weaken (IsAsked c.next_server) (λ y. same_server gone y ≡ false) (λ y k. refl) c.slots
            h.asked);
      answers = h.answers;
      armed =
          set-All_others (λ y. IsArmed spared c.timers y × IsAsked c.next_server y)
            (IsArmed none second) c.slots i gone h.distinct (omega (arith, h.two))
            (All-both (IsArmed spared c.timers) (IsAsked c.next_server)
              (λ y. IsArmed spared c.timers y × IsAsked c.next_server y) (λ y p q. (p, q)) c.slots
              h.armed h.asked)
            (λ y k d e f.
              let other : y.server_index ≢ s.server_index = λ z. ground (arith, a, d, e, z) in
              let below = k.1 e in
              contains-cancel first (deadline_timer s.server_index) (deadline_timer y.server_index)
                room.valid
                (deadline_timer-ne y.server_index s.server_index
                  (omega (arith, below, h.next, h.few)) (omega (arith, asked, h.next, h.few)) other)
                (contains-cancel c.timers (retry_timer s.server_index)
                  (deadline_timer y.server_index) h.room.valid
                  (retry_timer-ne_deadline s.server_index y.server_index)
                  (k.0 e (b y.server_index other))))
            (λ e. ground (arith, e));
      room = cancel-HasRoom first (deadline_timer s.server_index) n room;
    }

pub more_room : (n m : ℕ) (c : StunClient) → m ≤ n → IsSound none n c → IsSound none m c
more_room n m c l h = record {
  two = h.two;
  next = h.next;
  few = h.few;
  asked = h.asked;
  distinct = h.distinct;
  answers = h.answers;
  armed = h.armed;
  room = HasRoom-le n m c.timers l h.room;
}

-- A drawn number that is not used changes nothing.
draw-IsSound :
    (n draws : ℕ) (c : StunClient)
    → IsSound none n c
    → c.next_server < length c.servers
    → IsSound none n (record c { next_server = c.next_server + 1; draws = draws })
draw-IsSound n draws c h l = record {
  two = h.two;
  next = omega arith;
  few = h.few;
  asked =
      All-weaken (IsAsked c.next_server) (IsAsked (c.next_server + 1))
        (λ s k a. let m = k a in omega arith) c.slots h.asked;
  distinct = h.distinct;
  answers = h.answers;
  armed = h.armed;
  room = h.room;
}

fill_slot-IsSound :
    (random : ℕ → Option (List ℕ)) (now n m : ℕ) (again : StunClient → Bool × StunClient)
    (c : StunClient) (place : Option ℕ)
    → m ≤ n
    → ((d : StunClient) → IsSound none n d → IsSound none m (again d).1)
    → IsSound none (suc (suc n)) c
    → c.next_server < length c.servers
    → IsSound none m (fill_slot random now again c place).1
unfolding begin_query
fill_slot-IsSound random now n m again c none q f h l = more_room (suc (suc n)) m c (omega arith) h
fill_slot-IsSound random now n m again c (some i) q f h l =
    let drawn = record c { next_server = c.next_server + 1; draws = c.draws + 1 } in
    let IsDone = λ (o : Option (List ℕ)).
      let begun = query_with i c.next_server now drawn o in
      IsSound none m (if not begun.0 then begun else again begun.1).1 in
    elim (Option-cases (random c.draws)) [
      | inl r ↦ subst IsDone (sym r) (
          more_room (suc (suc n)) m drawn (omega arith)
            (draw-IsSound (suc (suc n)) (c.draws + 1) c h l))
      | inr (t, r) ↦ subst IsDone (sym r) (
          f (start_query i c.next_server now t drawn)
            (start_query-IsSound i now n (c.draws + 1) t c h l))
    ]

-- The loop that fills the slots, of which each round arms two timers.
pub fill-IsSound :
    (random : ℕ → Option (List ℕ)) (now fuel m : ℕ) (c : StunClient)
    → IsSound none (2 * fuel + m) c
    → IsSound none m (fill random now fuel c).1
unfolding fill
fill-IsSound random now zero m c h = more_room (2 * 0 + m) m c (omega arith) h
fill-IsSound random now (suc fuel) m c h = elim (Bool-cases (wants_query c)) [
  | inr e ↦
      subst
        (λ b.
          IsSound none m
            (if not b
              then (true, c)
              else fill_slot random now (fill random now fuel) c (free_slot c)).1)
        (sym e) (more_room (2 * suc fuel + m) m c (omega arith) h)
  | inl e ↦
      subst
        (λ b.
          IsSound none m
            (if not b
              then (true, c)
              else fill_slot random now (fill random now fuel) c (free_slot c)).1)
        (sym e)
        (fill_slot-IsSound random now (2 * fuel + m) m (fill random now fuel) c (free_slot c)
          (omega arith) (λ d k. fill-IsSound random now fuel m d k)
          (more_room (2 * suc fuel + m) (suc (suc (2 * fuel + m))) c (omega arith) h)
          (ground arith))
]
