-- ===== src/Tunnel/Replay/Accept.antt =====
-- `commit` and `accept` of the replay window.
use sangtachi.Prelude.{
  ℕ, ◌+◌, ◌-◌, ◌^◌, ◌≤◌, ◌<◌, ◌≡◌, ◌↔◌, refl, ◌∙◌, inl, inr, true, false, List, ◌∷◌, if◌then◌else◌,
  arith,
}
use sangtachi.Prelude.Bits.{u64}
use sangtachi.Tunnel.Replay.{
  sub32, ReplayVerdict, ReplayDecision, accepted, verdict_eq, decision_eq, ReplayWindow, check,
  write_decision, commit, accept,
}
use sangtachi.Tunnel.Replay.Tracking.{
  Tracks, IsAhead, IsBehind, mem, check_ahead, check_behind, two_sides, advanced_window,
  marked_window, advanced_window-Tracks, marked_window-Tracks, accept_taken,
}

verdict_eq_iff : (a b : ReplayVerdict) → (verdict_eq a b ≡ true) ↔ (a ≡ b)
verdict_eq_iff a b = ground arith

decision_eq_iff : (a b : ReplayDecision) → (decision_eq a b ≡ true) ↔ (a ≡ b)
unfolding decision_eq
decision_eq_iff a b = ground (arith, verdict_eq_iff a.verdict b.verdict)

-- A decision is written exactly if it is an acceptance that `check` gives in this state; any
-- other leaves the window as it was.
pub commit_iff :
    (w : ReplayWindow) (d : ReplayDecision)
    → (((commit w d).0 ≡ true) ↔ ((accepted d ≡ true) × (check w d.seq ≡ d)))
      × ((commit w d).1 ≡ (if (commit w d).0 then write_decision w d else w))
unfolding commit
commit_iff w d = ground (arith, decision_eq_iff (check w d.seq) d)

write_advance :
    (w : ReplayWindow) (seq n : ℕ)
    → w.initialized ≡ true
    → w.position + n < 2 ^ 64
    → write_decision w (record {
      verdict = ReplayVerdict.advance;
      seq = seq;
      distance = n;
      pkt_pos = u64 (w.position + n);
    })
      ≡ advanced_window w seq n
unfolding write_decision
write_advance w seq n i h = ground arith

-- A packet within the window that is not yet recorded.
check_reorder :
    (w : ReplayWindow) (seq n : ℕ)
    → w.initialized ≡ true
    → 64 ≤ w.position
    → w.position < 2 ^ 64
    → IsBehind w.highest seq n
    → (check w seq).verdict ≡ ReplayVerdict.reorder
    → (check w seq ≡ record {
      verdict = ReplayVerdict.reorder;
      seq = seq;
      distance = n;
      pkt_pos = w.position - n;
    })
      × (1 ≤ n)
      × (n ≤ 64)
unfolding check
check_reorder w seq n i p q b h = ground arith

write_reorder :
    (w : ReplayWindow) (seq n : ℕ)
    → w.initialized ≡ true
    → write_decision w (record {
      verdict = ReplayVerdict.reorder;
      seq = seq;
      distance = n;
      pkt_pos = w.position - n;
    })
      ≡ marked_window w n
unfolding write_decision
write_reorder w seq n i = ground arith

pub accept-fst : (w : ReplayWindow) (seq : ℕ) → (accept w seq).0 ≡ check w seq
unfolding accept
accept-fst w seq = ground arith

-- What holds of a packet that is taken with decision `d` and leaves the window `w'`.
abbrev pub Taken : ReplayWindow → List ℕ → ReplayDecision → ReplayWindow → Type 0
Taken w ps d w' =
    (mem d.pkt_pos ps ≡ false)
    × Tracks w' (d.pkt_pos ∷ ps)
    × (w'.position < w.position + 0x8000_0000)

module _ (w : ReplayWindow) (ps : List ℕ) (seq n : ℕ) (t : Tracks w ps) where
  IsAhead-Taken :
      IsAhead w.highest seq n
      → w.position + 0x8000_0000 ≤ 2 ^ 64
      → Taken w ps (check w seq) (write_decision w (check w seq))
  IsAhead-Taken a room =
      let e : u64 (w.position + n) ≡ w.position + n = omega arith in
      rw (check_ahead w seq n t.started t.word a) (
        rw (write_advance w seq n t.started (omega arith)) (
          rw e (
            t.above (w.position + n) (omega arith),
            advanced_window-Tracks w ps seq n t a (omega arith),
            omega arith,
          )))

  IsBehind-Taken :
      IsBehind w.highest seq n
      → accepted (check w seq) ≡ true
      → Taken w ps (check w seq) (write_decision w (check w seq))
  unfolding accepted
  IsBehind-Taken b h =
      let v : (check w seq).verdict ≡ ReplayVerdict.reorder =
        ground (arith, check_behind w ps seq n t b) in
      let (e, lo, hi) = check_reorder w seq n t.started t.room t.fits b v in
      rw e (
        rw (write_reorder w seq n t.started) (
          ground (arith, v, check_behind w ps seq n t b),
          marked_window-Tracks w ps seq n t lo hi,
          omega arith,
        ))

-- If the window tracks exactly the positions accepted so far and `accept` takes a packet, its
-- position was not among them, the new window tracks the positions with it, and the highest
-- position grows by less than 2^31.
pub accept-Tracks :
    (w : ReplayWindow) (ps : List ℕ) (seq : ℕ)
    → Tracks w ps
    → seq < 0x1_0000_0000
    → w.position + 0x8000_0000 ≤ 2 ^ 64
    → accepted (accept w seq).0 ≡ true
    → Taken w ps (accept w seq).0 (accept w seq).1
accept-Tracks w ps seq t s room h =
    let h' : accepted (check w seq) ≡ true = rw accept-fst at h in
    rw (accept_taken w seq h') (elim (two_sides w.highest seq t.word s) [
      | inl a ↦ IsAhead-Taken w ps seq (sub32 seq w.highest) t a room
      | inr b ↦ IsBehind-Taken w ps seq (sub32 w.highest seq) t b h'
    ])

pub check_highest :
    (w : ReplayWindow)
    → w.initialized ≡ true
    → (check w w.highest).verdict ≡ ReplayVerdict.duplicate
unfolding check
check_highest w i = ground arith

-- The same packet once more, when the window has started.
pub check-accept_replayed :
    (w : ReplayWindow) (ps : List ℕ) (seq : ℕ)
    → Tracks w ps
    → seq < 0x1_0000_0000
    → w.position + 0x8000_0000 ≤ 2 ^ 64
    → accepted (accept w seq).0 ≡ true
    → (check (accept w seq).1 seq).verdict ≡ ReplayVerdict.duplicate
unfolding accepted
check-accept_replayed w ps seq t s room h =
    let h' : accepted (check w seq) ≡ true = rw accept-fst at h in
    rw (accept_taken w seq h') (elim (two_sides w.highest seq t.word s) [
      | inl a ↦ rw (check_ahead w seq (sub32 seq w.highest) t.started t.word a) (
          rw (write_advance w seq (sub32 seq w.highest) t.started (omega arith))
            (check_highest (advanced_window w seq (sub32 seq w.highest)) refl))
      | inr b ↦
          let n = sub32 w.highest seq in
          let v : (check w seq).verdict ≡ ReplayVerdict.reorder =
            ground (arith, check_behind w ps seq n t b) in
          let (e, lo, hi) = check_reorder w seq n t.started t.room t.fits b v in
          rw e (
            rw (write_reorder w seq n t.started) (
              check_behind (marked_window w n) ((w.position - n) ∷ ps) seq n
                (marked_window-Tracks w ps seq n t lo hi) b
              ∙ ground arith))
    ])
