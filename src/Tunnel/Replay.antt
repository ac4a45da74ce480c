-- ===== src/Tunnel/Replay.antt =====
-- client/src/tunnel/replay.cpp and client/include/sangtachi/tunnel/replay.hpp: the replay window
-- of a session. Sequence numbers are 32-bit words, `position` and `seen_bits` 64-bit words.
pub mod Bitmap
pub mod Tracking
pub mod Accept
pub mod Run
pub mod Replayed
mod Examples
use sangtachi.Prelude.{
  ℕ, ◌+◌, ◌-◌, Bool, true, false, not, ◌&&◌, ltb, ◌==◌, if◌then◌else◌, bit_and, bit_or,
}
use sangtachi.Prelude.Bits.{◌<<<◌, u32, u64}
use sangtachi.Protocol.{replay_window}

-- `a - b` on `uint32_t`.
abbrev pub sub32 : ℕ → ℕ → ℕ
sub32 a b = u32 (a + 0x1_0000_0000 - b)

unfoldable pub is_newer : ℕ → ℕ → Bool
is_newer a b = not (a == b) && ltb (sub32 a b) 0x8000_0000

pub data ReplayVerdict : Type 0 where
  advance reorder duplicate too_old : ReplayVerdict

pub record ReplayDecision : Type 0 where
  pub verdict : ReplayVerdict
  pub seq : ℕ
  pub distance : ℕ
  pub pkt_pos : ℕ

unfoldable pub accepted : ReplayDecision → Bool
accepted d = elim d.verdict [
  | ReplayVerdict.advance ↦ true
  | ReplayVerdict.reorder ↦ true
  | _ ↦ false
]

pub advanced : ReplayDecision → Bool
advanced d = elim d.verdict [ ReplayVerdict.advance ↦ true | _ ↦ false ]

abbrev verdict_eq : ReplayVerdict → ReplayVerdict → Bool
verdict_eq ReplayVerdict.advance ReplayVerdict.advance = true
verdict_eq ReplayVerdict.reorder ReplayVerdict.reorder = true
verdict_eq ReplayVerdict.duplicate ReplayVerdict.duplicate = true
verdict_eq ReplayVerdict.too_old ReplayVerdict.too_old = true
verdict_eq _ _ = false

-- The defaulted `operator==`.
pub decision_eq : ReplayDecision → ReplayDecision → Bool
decision_eq a b =
    verdict_eq a.verdict b.verdict
    && (a.seq == b.seq)
    && (a.distance == b.distance)
    && (a.pkt_pos == b.pkt_pos)

pub record ReplayWindow : Type 0 where
  pub highest : ℕ
  pub position : ℕ
  pub seen_bits : ℕ
  pub initialized : Bool

-- A window as constructed.
abbrev pub fresh : ReplayWindow
fresh = record { highest = 0; position = 0; seen_bits = 0; initialized = false }

-- The caller guarantees 1 ≤ back ≤ 64.
abbrev pub bit_for_back : ℕ → ℕ
bit_for_back back = 1 <<< (back - 1)

-- The part of `check` below its first test: `seq` against an initialized window.
unfoldable pub check_initialized : ReplayWindow → ℕ → ReplayDecision
unfolding is_newer
check_initialized w seq =
    let shift = sub32 seq w.highest in
    let back = sub32 w.highest seq in
    if seq == w.highest
    then record { verdict = ReplayVerdict.duplicate; seq = seq; distance = 0; pkt_pos = 0 }
    else if is_newer seq w.highest
    then record {
      verdict = ReplayVerdict.advance;
      seq = seq;
      distance = shift;
      pkt_pos = u64 (w.position + shift);
    }
    else if ltb replay_window back
    then record { verdict = ReplayVerdict.too_old; seq = seq; distance = back; pkt_pos = 0 }
    else if not (bit_and w.seen_bits (bit_for_back back) == 0)
    then record { verdict = ReplayVerdict.duplicate; seq = seq; distance = back; pkt_pos = 0 }
    else record {
      verdict = ReplayVerdict.reorder;
      seq = seq;
      distance = back;
      pkt_pos = u64 (w.position + 0x1_0000_0000_0000_0000 - back);
    }

unfoldable pub check : ReplayWindow → ℕ → ReplayDecision
unfolding check_initialized
check w seq = if w.initialized then check_initialized w seq else record {
  verdict = ReplayVerdict.advance;
  seq = seq;
  distance = 0;
  pkt_pos = replay_window;
}

-- The bitmap after an advance by `shift`.
pub shifted_bits : ℕ → ℕ → ℕ
shifted_bits bits shift =
    if ltb replay_window shift
    then 0
    else if shift == replay_window
    then bit_for_back replay_window
    else bit_or (u64 (bits <<< shift)) (bit_for_back shift)

-- The part of `commit` behind its guards: the decision is written into the window.
pub write_decision : ReplayWindow → ReplayDecision → ReplayWindow
unfolding shifted_bits
write_decision w d =
    if w.initialized
    then elim d.verdict [
      | ReplayVerdict.advance ↦ record {
        highest = d.seq;
        position = u64 (w.position + d.distance);
        seen_bits = shifted_bits w.seen_bits d.distance;
        initialized = true;
      }
      | _ ↦ record w { seen_bits = bit_or w.seen_bits (bit_for_back d.distance) }
    ]
    else record { highest = d.seq; position = replay_window; seen_bits = 0; initialized = true }

pub commit : ReplayWindow → ReplayDecision → Bool × ReplayWindow
commit w d =
    if not (accepted d)
    then (false, w)
    else if not (decision_eq (check w d.seq) d)
    then (false, w)
    else (true, write_decision w d)

unfoldable pub accept : ReplayWindow → ℕ → ReplayDecision × ReplayWindow
accept w seq = let d = check w seq in if accepted d then (d, (commit w d).1) else (d, w)

pub reset : ReplayWindow → ReplayWindow
reset w = fresh
