-- ===== src/Peer/Session/Deadlines.antt =====
-- `next_deadline` against `poll`: nothing happens before it.
use sangtachi.Prelude.{
  ℕ, ◌+◌, ◌≤◌, ◌<◌, ◌≡◌, inl, inr, refl, Bool, true, false, not, ◌&&◌, Option, none, some, List, [],
  ◌∷◌, ltb, All, erase_if, arith, Option-cases,
}
use sangtachi.Prelude.Bits.{u64}
use sangtachi.Protocol.{probe_ttl_ms}
use sangtachi.Counters.{Counters}
use sangtachi.Peer.Session.State.{SessionIo, ProbePath, Deadline, Session}
use sangtachi.Peer.Session.Sending.{probe_due, count_failed_probes, expire_probes}
use sangtachi.Peer.Session.Lifecycle.{
  earlier, first_probe_due, next_deadline, is_due, poll_hello, poll_senders, poll_timers, poll,
}

-- The time lies before the deadline, if there is one.
abbrev pub is_before : ℕ → Option ℕ → Bool
is_before now none = true
is_before now (some d) = ltb now d

pub is_before-earlier :
    (now : ℕ) (a b : Option ℕ) → is_before now (earlier a b) ≡ is_before now a && is_before now b
is_before-earlier now none none = refl
is_before-earlier now none (some e) = refl
is_before-earlier now (some d) none = ground arith
is_before-earlier now (some d) (some e) = ground arith

-- The provisional paths stand in the order in which they expire.
abbrev pub IsOrdered : List ProbePath → Type 0
IsOrdered [] = Unit
IsOrdered (p ∷ ps) =
    All (λ (q : ProbePath). u64 (p.registered + probe_ttl_ms) ≤ u64 (q.registered + probe_ttl_ms))
      ps
    × IsOrdered ps

erase_if-none_due :
    (now : ℕ) (ps : List ProbePath)
    → All (λ (q : ProbePath). probe_due now q ≡ false) ps
    → erase_if (probe_due now) ps ≡ ps
erase_if-none_due now [] h = refl
erase_if-none_due now (p ∷ ps) (h, hs) = ground (arith, erase_if-none_due now ps hs)

count-none_due :
    (now : ℕ) (ps : List ProbePath) (t : Counters)
    → All (λ (q : ProbePath). probe_due now q ≡ false) ps
    → count_failed_probes now ps t ≡ t
count-none_due now [] t h = refl
count-none_due now (p ∷ ps) t (h, hs) = ground (arith, count-none_due now ps t hs)

later_not_due :
    (now due : ℕ) (ps : List ProbePath)
    → now < due
    → All (λ (q : ProbePath). due ≤ u64 (q.registered + probe_ttl_ms)) ps
    → All (λ (q : ProbePath). probe_due now q ≡ false) ps
later_not_due now due [] h k = tt
later_not_due now due (p ∷ ps) h (k, ks) = (ground arith, later_not_due now due ps h ks)

-- Before the first one expires, none of them does.
first_not_due :
    (now : ℕ) (ps : List ProbePath)
    → IsOrdered ps
    → is_before now (first_probe_due ps) ≡ true
    → All (λ (q : ProbePath). probe_due now q ≡ false) ps
first_not_due now [] h k = tt
first_not_due now (p ∷ ps) (h, hs) k =
    (ground arith, later_not_due now (u64 (p.registered + probe_ttl_ms)) ps (ground arith) h)

-- The next deadline lies ahead exactly if all of them do.
is_before-next_deadline :
    (now : ℕ) (s : Session)
    → is_before now (next_deadline s) ≡ (
        is_before now s.hello.due
        && is_before now s.punch.due
        && is_before now s.keepalive.due
        && is_before now s.ping.due
        && is_before now s.idle.due
        && is_before now (first_probe_due s.probes))
unfolding next_deadline
is_before-next_deadline now s =
    let e1 = earlier none s.hello.due in
    let e2 = earlier e1 s.punch.due in
    let e3 = earlier e2 s.keepalive.due in
    let e4 = earlier e3 s.ping.due in
    let e5 = earlier e4 s.idle.due in
    ground (
      arith,
      is_before-earlier now none s.hello.due,
      is_before-earlier now e1 s.punch.due,
      is_before-earlier now e2 s.keepalive.due,
      is_before-earlier now e3 s.ping.due,
      is_before-earlier now e4 s.idle.due,
      is_before-earlier now e5 (first_probe_due s.probes),
    )

is_before-is_due : (now : ℕ) (d : Deadline) → is_before now d.due ≡ not (is_due d now)
is_before-is_due now d = elim (Option-cases d.due) [
  | inl e ↦ ground arith
  | inr (x, e) ↦ ground arith
]

expire_probes-none_due :
    (now : ℕ) (s : Session)
    → All (λ (q : ProbePath). probe_due now q ≡ false) s.probes
    → expire_probes now s ≡ s
unfolding expire_probes
expire_probes-none_due now s h =
    ground (arith, erase_if-none_due now s.probes h, count-none_due now s.probes s.counters h)

-- Before the next deadline, `poll` leaves the session as it is, as it does for good without a
-- deadline; so whoever sleeps until `next_deadline` misses nothing. The provisional paths have to
-- stand in the order in which they expire.
pub poll_early :
    (io : SessionIo) (now : ℕ) (s : Session)
    → IsOrdered s.probes
    → is_before now (next_deadline s) ≡ true
    → poll io now s ≡ s
unfolding poll poll_timers poll_senders poll_hello
poll_early io now s ordered early =
    let all = is_before-next_deadline now s in
    let e : expire_probes now s ≡ s =
      expire_probes-none_due now s (first_not_due now s.probes ordered (ground (arith, all))) in
    ground (
      arith,
      e,
      all,
      is_before-is_due now s.hello,
      is_before-is_due now s.punch,
      is_before-is_due now s.keepalive,
      is_before-is_due now s.ping,
      is_before-is_due now s.idle,
    )
