-- ===== src/Tunnel/Replay/Replayed.antt =====
-- A packet that comes twice in a row, in any history of the window.
use sangtachi.Prelude.{
  ℕ, ◌+◌, ◌*◌, ◌^◌, ◌≤◌, ◌<◌, ◌≡◌, refl, sym, subst, inl, inr, true, false, List, [], ◌∷◌, arith,
  Bool-cases, length, All,
}
use sangtachi.Tunnel.Replay.{ReplayVerdict, ReplayWindow, accepted, check, accept, reset}
use sangtachi.Tunnel.Replay.Tracking.{Tracks}
use sangtachi.Tunnel.Replay.Accept.{accept-Tracks, check_highest, check-accept_replayed}
use sangtachi.Tunnel.Replay.Run.{
  feed, first_window, first_window-Tracks, accept_first, feed-taken, feed-refused, Words,
}

-- The window tracks what was accepted, and its position has at most grown by 2^31 a packet.
abbrev IsTracked : ℕ → List ℕ × ReplayWindow → Type 0
IsTracked limit r = Tracks r.1 r.0 × (r.1.position ≤ limit)

feed-IsTracked :
    (seqs : List ℕ) (w : ReplayWindow) (ps : List ℕ) (limit : ℕ)
    → Tracks w ps
    → Words seqs
    → w.position + length seqs * 0x8000_0000 ≤ limit
    → limit ≤ 2 ^ 64
    → IsTracked limit (feed w ps seqs)
feed-IsTracked [] w ps limit t s room top = unfold feed in (t, omega arith)
feed-IsTracked (seq ∷ seqs) w ps limit t s room top =
    elim (Bool-cases (accepted (accept w seq).0)) [
      | inl h ↦
          let k = accept-Tracks w ps seq t s.0 (omega arith) h in
          subst (IsTracked limit) (sym (feed-taken w ps seq seqs h))
            (feed-IsTracked seqs (accept w seq).1 _ limit k.1 s.1 (omega (arith, k.2)) top)
      | inr h ↦
          subst (IsTracked limit) (sym (feed-refused w ps seq seqs h))
            (feed-IsTracked seqs w ps limit t s.1 (omega arith) top)
    ]

first_replayed :
    (w : ReplayWindow) (seq : ℕ)
    → w.initialized ≡ false
    → (check (accept w seq).1 seq).verdict ≡ ReplayVerdict.duplicate
first_replayed w seq i =
    subst (λ (v : ReplayWindow). (check v seq).verdict ≡ ReplayVerdict.duplicate)
      (sym (accept_first w seq i).2) (check_highest (first_window seq) refl)

-- In any history of fewer than 2^32 packets from a reset window, a packet that is accepted, the first
-- one included, is a duplicate when it comes once more right away.
pub accept_replayed :
    (w : ReplayWindow) (seqs : List ℕ) (seq : ℕ)
    → All (λ s. s < 0x1_0000_0000) seqs
    → seq < 0x1_0000_0000
    → length seqs + 1 < 0x1_0000_0000
    → accepted (accept (feed (reset w) [] seqs).1 seq).0 ≡ true
    → (check (accept (feed (reset w) [] seqs).1 seq).1 seq).verdict ≡ ReplayVerdict.duplicate
accept_replayed w [] seq s l room h = unfold feed reset in first_replayed (reset w) seq refl
accept_replayed w (first ∷ seqs) seq s l room h =
    let begun = accept_first (reset w) first (unfold reset in refl) in
    let limit = 64 + length seqs * 0x8000_0000 in
    let taken = feed-taken (reset w) [] first seqs begun.0 in
    let IsDone = λ (r : List ℕ × ReplayWindow).
      accepted (accept r.1 seq).0 ≡ true
      → (check (accept r.1 seq).1 seq).verdict ≡ ReplayVerdict.duplicate in
    let tracked : IsTracked limit
        (feed (accept (reset w) first).1 ((accept (reset w) first).0.pkt_pos ∷ []) seqs) =
      rw (begun.1, begun.2)
        (feed-IsTracked seqs (first_window first) (64 ∷ []) limit (first_window-Tracks first s.0)
          s.1 (omega arith) (omega arith)) in
    let r = feed (accept (reset w) first).1 ((accept (reset w) first).0.pkt_pos ∷ []) seqs in
    subst IsDone (sym taken)
      (λ a. check-accept_replayed r.1 r.0 seq tracked.0 l (omega (arith, tracked.1)) a) h
