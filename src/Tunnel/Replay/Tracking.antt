-- ===== src/Tunnel/Replay/Tracking.antt =====
-- The replay window tracks exactly the positions that it has accepted: within the window a packet
-- is taken once, and no packet that is new is refused.
use sangtachi.Prelude.{
  ℕ, ◌+◌, ◌-◌, ◌^◌, ◌≤◌, ◌<◌, ◌≡◌, refl, ap, ◌⊎◌, Bool, true, false, List, ◌∷◌, ltb, ◌==◌,
  if◌then◌else◌, bit_or, arith, any,
}
use sangtachi.Prelude.Bits.{u32, u64, bit, bit_le_one, bit-bit_or, bit_or-lt}
use sangtachi.Protocol.{replay_window}
use sangtachi.Tunnel.Replay.{
  sub32, ReplayVerdict, ReplayDecision, accepted, decision_eq, ReplayWindow, bit_for_back, check,
  shifted_bits, write_decision, commit, accept,
}
use sangtachi.Tunnel.Replay.Bitmap.{
  bit_and-bit_for_back, bit-bit_for_back, bit_for_back-lt, shifted_bits-lt, bit-shifted_bits,
}

-- `n` steps after `h` on the circle of 32-bit sequence numbers, and `n` steps before it.
abbrev pub IsAhead : ℕ → ℕ → ℕ → Type 0
IsAhead h s n = (1 ≤ n) × (n < 0x8000_0000) × (s ≡ u32 (h + n))

abbrev pub IsBehind : ℕ → ℕ → ℕ → Type 0
IsBehind h s n = (n ≤ 0x8000_0000) × (s < 0x1_0000_0000) × (h ≡ u32 (s + n))

abbrev pub mem : ℕ → List ℕ → Bool
mem p ps = any (λ q. q == p) ps

-- `ps` are the positions accepted so far.
pub record Tracks (w : ReplayWindow) (ps : List ℕ) : Type 0 where
  pub started : w.initialized ≡ true
  pub word : w.highest < 0x1_0000_0000
  pub bits_word : w.seen_bits < 2 ^ 64
  pub room : 64 ≤ w.position
  pub fits : w.position < 2 ^ 64
  pub above : (p : ℕ) → w.position < p → mem p ps ≡ false
  pub top : mem w.position ps ≡ true
  pub marks : (b : ℕ) → 1 ≤ b → b ≤ 64 → mem (w.position - b) ps ≡ (bit w.seen_bits (b - 1) == 1)

pub two_sides :
    (h s : ℕ)
    → h < 0x1_0000_0000
    → s < 0x1_0000_0000
    → IsAhead h s (sub32 s h) ⊎ IsBehind h s (sub32 h s)
two_sides h s p q = omega arith

-- A packet ahead of the highest always advances the window.
pub check_ahead :
    (w : ReplayWindow) (seq n : ℕ)
    → w.initialized ≡ true
    → w.highest < 0x1_0000_0000
    → IsAhead w.highest seq n
    → check w seq ≡ record {
      verdict = ReplayVerdict.advance;
      seq = seq;
      distance = n;
      pkt_pos = u64 (w.position + n);
    }
unfolding check
check_ahead w seq n i p a = ground arith

-- The verdict of the specification on a packet `n` places behind position `top`.
abbrev pub verdict_behind : ℕ → List ℕ → ℕ → ReplayVerdict
verdict_behind top ps n =
    if ltb replay_window n
    then ReplayVerdict.too_old
    else if mem (top - n) ps
    then ReplayVerdict.duplicate
    else ReplayVerdict.reorder

-- For a packet n places behind the highest one, `check` says too old if n exceeds the window,
-- duplicate if its position was accepted before, and reorder otherwise; so no new packet within the
-- window is refused.
pub check_behind :
    (w : ReplayWindow) (ps : List ℕ) (seq n : ℕ)
    → Tracks w ps
    → IsBehind w.highest seq n
    → (check w seq).verdict ≡ verdict_behind w.position ps n
unfolding check
check_behind w ps seq n t a = ground (
  arith,
  bit_and-bit_for_back w.seen_bits n,
  bit_le_one w.seen_bits (n - 1),
  t.marks n,
  t.top,
  t.started,
)

seq-check : (w : ReplayWindow) (seq : ℕ) → (check w seq).seq ≡ seq
unfolding check
seq-check w seq = ground arith

decision_eq_refl : (d : ReplayDecision) → decision_eq d d ≡ true
unfolding decision_eq
decision_eq_refl d = ground arith

-- What `accept` does with a packet: the decision that it measures is always committed.
pub accept_taken :
    (w : ReplayWindow) (seq : ℕ)
    → accepted (check w seq) ≡ true
    → accept w seq ≡ (check w seq, write_decision w (check w seq))
unfolding accept commit
accept_taken w seq h = ground (arith, h, seq-check w seq, decision_eq_refl (check w seq))

pub accept_refused :
    (w : ReplayWindow) (seq : ℕ) → accepted (check w seq) ≡ false → accept w seq ≡ (check w seq, w)
unfolding accept
accept_refused w seq h = rw h

-- The windows that `write_decision` leaves.
abbrev pub advanced_window : ReplayWindow → ℕ → ℕ → ReplayWindow
advanced_window w seq n = record {
  highest = seq;
  position = w.position + n;
  seen_bits = shifted_bits w.seen_bits n;
  initialized = true;
}

abbrev pub marked_window : ReplayWindow → ℕ → ReplayWindow
marked_window w n = record w { seen_bits = bit_or w.seen_bits (bit_for_back n) }

module _ (w : ReplayWindow) (ps : List ℕ) (seq n : ℕ) (t : Tracks w ps) where
  pub advanced_window-Tracks :
      IsAhead w.highest seq n
      → w.position + n < 2 ^ 64
      → Tracks (advanced_window w seq n) ((w.position + n) ∷ ps)
  advanced_window-Tracks a h = record {
    started = refl;
    word = omega arith;
    bits_word = shifted_bits-lt w.seen_bits n;
    room = omega (arith, t.room);
    fits = h;
    above = λ p q. ground (arith, t.above p);
    top = ground arith;
    marks = λ b p q. ground (
      arith,
      bit-shifted_bits w.seen_bits n b a.0 p q,
      t.above (w.position + n - b),
      t.top,
      t.marks (b - n),
      ap (λ k. mem k ps) {x = w.position + n - b} {y = w.position - (b - n)},
      ap (λ k. mem k ps) {x = w.position + n - b} {y = w.position},
    );
  }

  pub marked_window-Tracks : 1 ≤ n → n ≤ 64 → Tracks (marked_window w n) ((w.position - n) ∷ ps)
  marked_window-Tracks p q = record {
    started = t.started;
    word = t.word;
    bits_word = bit_or-lt 64 w.seen_bits (bit_for_back n) t.bits_word (bit_for_back-lt n q);
    room = t.room;
    fits = t.fits;
    above = λ k h. ground (arith, t.above k);
    top = ground (arith, t.top);
    marks = λ b r s. ground (
      arith,
      bit-bit_or (b - 1) w.seen_bits (bit_for_back n),
      bit-bit_for_back n b p r,
      bit_le_one w.seen_bits (b - 1),
      t.marks b r s,
      t.room,
    );
  }
