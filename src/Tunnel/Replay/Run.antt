-- ===== src/Tunnel/Replay/Run.antt =====
-- Whole histories of the replay window: what a sequence of `accept` calls lets through.
use sangtachi.Prelude.{
  ℕ, ◌+◌, ◌-◌, ◌*◌, ◌^◌, ◌≤◌, ◌<◌, ◌≡◌, refl, ap, inl, inr, true, false, List, [], ◌∷◌,
  if◌then◌else◌, arith, Bool-cases, length, All,
}
use sangtachi.Protocol.{replay_window}
use sangtachi.Prelude.Bits.{bit-zero}
use sangtachi.Tunnel.Replay.{
  ReplayDecision, accepted, decision_eq, ReplayWindow, check, write_decision, commit, accept, reset,
}
use sangtachi.Tunnel.Replay.Tracking.{Tracks, mem, accept_refused}
use sangtachi.Tunnel.Replay.Accept.{accept-Tracks, accept-fst}

-- The positions accepted so far, newest first, and the window after the packets `seqs`.
unfoldable pub feed : ReplayWindow → List ℕ → List ℕ → List ℕ × ReplayWindow
feed w ps [] = (ps, w)
feed w ps (seq ∷ seqs) =
    feed (accept w seq).1 (if accepted (accept w seq).0 then (accept w seq).0.pkt_pos ∷ ps else ps)
      seqs

-- No position twice.
abbrev pub IsUnique : List ℕ → Type 0
IsUnique [] = Unit {0}
IsUnique (p ∷ ps) = (mem p ps ≡ false) × IsUnique ps

abbrev pub first_window : ℕ → ReplayWindow
first_window seq = record {
  highest = seq;
  position = replay_window;
  seen_bits = 0;
  initialized = true;
}

-- The first packet starts the window, whatever its number.
pub accept_first :
    (w : ReplayWindow) (seq : ℕ)
    → w.initialized ≡ false
    → (accepted (accept w seq).0 ≡ true)
      × ((accept w seq).0.pkt_pos ≡ replay_window)
      × ((accept w seq).1 ≡ first_window seq)
unfolding accept commit check write_decision decision_eq accepted
accept_first w seq i = ground arith

pub first_window-Tracks :
    (seq : ℕ) → seq < 0x1_0000_0000 → Tracks (first_window seq) (replay_window ∷ [])
first_window-Tracks seq h = record {
  started = refl;
  word = h;
  bits_word = omega arith;
  room = omega arith;
  fits = omega arith;
  above = λ p q. ground arith;
  top = refl;
  marks = λ b p q. ground (arith, bit-zero (b - 1));
}

module _ (w : ReplayWindow) (ps : List ℕ) (seq : ℕ) (seqs : List ℕ) where
  pub feed-taken :
      accepted (accept w seq).0 ≡ true
      → feed w ps (seq ∷ seqs) ≡ feed (accept w seq).1 ((accept w seq).0.pkt_pos ∷ ps) seqs
  unfolding feed
  feed-taken h = rw h

  pub feed-refused : accepted (accept w seq).0 ≡ false → feed w ps (seq ∷ seqs) ≡ feed w ps seqs
  unfolding feed
  feed-refused h = rw h (
      ap (λ (r : ReplayDecision × ReplayWindow). feed r.1 ps seqs)
        (accept_refused w seq (rw accept-fst at h)))

abbrev pub Words : List ℕ → Type 0
Words = All λ s. s < 0x1_0000_0000

feed-IsUnique :
    (seqs : List ℕ) (w : ReplayWindow) (ps : List ℕ)
    → Tracks w ps
    → IsUnique ps
    → Words seqs
    → w.position + length seqs * 0x8000_0000 ≤ 2 ^ 64
    → IsUnique (feed w ps seqs).0
feed-IsUnique [] w ps t u s room = unfold feed in u
feed-IsUnique (seq ∷ seqs) w ps t u s room = elim (Bool-cases (accepted (accept w seq).0)) [
  | inl h ↦
      let k = accept-Tracks w ps seq t s.0 (omega arith) h in
      rw (feed-taken w ps seq seqs h, IsUnique)
        (feed-IsUnique seqs (accept w seq).1 _ k.1 (k.0, u) s.1 (omega (arith, k.2)))
  | inr h ↦
      rw (feed-refused w ps seq seqs h, IsUnique) (feed-IsUnique seqs w ps t u s.1 (omega arith))
]

-- From a reset window, whatever fewer than 2^32 packets arrive and in whatever order, no two of
-- them are accepted at the same extended position.
pub feed-reset-IsUnique :
    (w : ReplayWindow) (seqs : List ℕ)
    → All (λ s. s < 0x1_0000_0000) seqs
    → length seqs < 0x1_0000_0000
    → IsUnique (feed (reset w) [] seqs).0
feed-reset-IsUnique w [] s room = unfold feed in tt
feed-reset-IsUnique w (seq ∷ seqs) s room =
    let (a, p, e) = accept_first (reset w) seq (unfold reset in refl) in
    rw (feed-taken (reset w) [] seq seqs a, IsUnique)
      (rw (p, e)
        (feed-IsUnique seqs (first_window seq) (replay_window ∷ []) (first_window-Tracks seq s.0)
          (refl, tt) s.1 (omega arith)))
