-- ===== src/Tunnel/Replay/Examples.antt =====
-- Tests of the replay window, and its theorems at concrete packets.
use sangtachi.Prelude.{◌^◌, ◌≡◌, refl, true, [], ◌∷◌, arith}
use sangtachi.Protocol.{replay_window}
use sangtachi.Tunnel.Replay.{
  ReplayVerdict, ReplayDecision, is_newer, accepted, decision_eq, fresh, check, write_decision,
  commit, accept, reset,
}
use sangtachi.Tunnel.Replay.Tracking.{Tracks, check_behind, verdict_behind}
use sangtachi.Tunnel.Replay.Accept.{Taken, accept-Tracks}
use sangtachi.Tunnel.Replay.Replayed.{accept_replayed}
use sangtachi.Tunnel.Replay.Run.{
  feed, IsUnique, first_window, first_window-Tracks, feed-reset-IsUnique,
}

newer_wraps : is_newer 3 0xffff_fffe ≡ true
unfolding is_newer
newer_wraps = refl

history : (feed fresh [] (10 ∷ 12 ∷ 11 ∷ 12 ∷ 11 ∷ 200 ∷ 12 ∷ [])).0 ≡ 254 ∷ 65 ∷ 66 ∷ 64 ∷ []
unfolding feed accept commit check accepted decision_eq write_decision
history = refl

edge_of_window : (accept (first_window 10) 74).1.seen_bits ≡ 2 ^ 63
unfolding accept commit check accepted decision_eq write_decision
edge_of_window = refl

abbrev started : Tracks (first_window 10) (replay_window ∷ [])
started = first_window-Tracks 10 (omega arith)

feed-reset-IsUnique_example : IsUnique (feed (reset (first_window 10)) [] (5 ∷ 7 ∷ 6 ∷ 5 ∷ [])).0
feed-reset-IsUnique_example =
    feed-reset-IsUnique (first_window 10) (5 ∷ 7 ∷ 6 ∷ 5 ∷ []) (omega arith) (omega arith)

accept-Tracks_example :
    Taken
      (first_window 10)
      (replay_window ∷ [])
      (accept (first_window 10) 7).0
      (accept (first_window 10) 7).1
unfolding accept commit check accepted decision_eq write_decision
accept-Tracks_example =
    accept-Tracks (first_window 10) (replay_window ∷ []) 7 started (omega arith) (omega arith) refl

check_behind_example :
    (check (first_window 10) 7).verdict ≡ verdict_behind 64 (replay_window ∷ []) 3
check_behind_example = check_behind (first_window 10) (replay_window ∷ []) 7 3 started (omega arith)

-- A packet that comes late.
accept_replayed_example :
    (check (accept (feed (reset (first_window 10)) [] (5 ∷ 9 ∷ [])).1 7).1 7).verdict
    ≡ ReplayVerdict.duplicate
unfolding feed reset accept commit check accepted decision_eq write_decision
accept_replayed_example =
    accept_replayed (first_window 10) (5 ∷ 9 ∷ []) 7 (ground arith) (omega arith) (omega arith) refl

abbrev stale : ReplayDecision
stale = record { verdict = ReplayVerdict.advance; seq = 10; distance = 3; pkt_pos = 67 }
