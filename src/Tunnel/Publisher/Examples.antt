-- ===== src/Tunnel/Publisher/Examples.antt =====
-- The roster of a host whose room two players join.
use sangtachi.Prelude.{ℕ, ◌≡◌, refl, true, false, none, some, List, [], ◌∷◌, arith}
use sangtachi.Peer.Session.Deadlines.{is_before}
use sangtachi.Tunnel.Roster.{
  encode_roster, total_size, write_members, write_member, is_valid_name, is_name_byte,
}
use sangtachi.Tunnel.Wire.{write_u8, write_u32}
use sangtachi.Tunnel.Publisher.{
  RosterPeer, RosterPublisher, member, build_roster, start_roster, set_peers, on_connected_change,
  roster_payload, earliest, run_publisher,
}
use sangtachi.Tunnel.Publisher.Announce.{IsPublished, renewed, run_publisher-IsPublished}
use sangtachi.Tunnel.Publisher.Quiet.{run_publisher_early}

abbrev host : RosterPeer
host = record { peer_id = 1; virtual_ip = 0x0a40_0001; name = b'a' ∷ [] }

abbrev player : RosterPeer
player = record { peer_id = 2; virtual_ip = 0x0a40_0002; name = b'b' ∷ b'c' ∷ [] }

abbrev blank : RosterPublisher
blank = record {
  self = none;
  peers = [];
  generation = 0;
  last = none;
  forced_change = false;
  schedules = [];
  dirty = false;
  sent = [];
}

-- The player is in the room and its session is connected.
abbrev joined : RosterPublisher
joined = record {
  self = some host;
  peers = player ∷ [];
  generation = 0;
  last = some (build_roster host [] []);
  forced_change = true;
  schedules = [];
  dirty = true;
  sent = [];
}

joined_lem : on_connected_change 2 true (set_peers (player ∷ []) (start_roster host blank)) ≡ joined
unfolding on_connected_change start_roster
joined_lem = refl

abbrev payload : List ℕ
payload =
    0 ∷ 0 ∷ 0 ∷ 1 ∷ 2 ∷ 0 ∷ 0 ∷ 0 ∷ 1 ∷ 10 ∷ 64 ∷ 0 ∷ 1 ∷ 1 ∷ 1 ∷ b'a' ∷ 0 ∷ 0 ∷ 0 ∷ 2 ∷ 10 ∷ 64 ∷ 0
    ∷ 2 ∷ 1 ∷ 2 ∷ b'b' ∷ b'c' ∷ []

renewed-payload : roster_payload (renewed host (2 ∷ []) joined) ≡ some payload
unfolding roster_payload build_roster member encode_roster total_size write_members write_member
    is_valid_name is_name_byte write_u8 write_u32
renewed-payload = refl

run_publisher-IsPublished_example :
    IsPublished 1000 (2 ∷ []) payload joined (run_publisher 1000 (2 ∷ []) joined)
run_publisher-IsPublished_example =
    run_publisher-IsPublished 1000 (2 ∷ []) payload host joined (omega arith) refl refl refl
      renewed-payload

-- Two sessions with deadlines ahead.
abbrev waiting : RosterPublisher
waiting = record joined {
  dirty = false;
  forced_change = false;
  schedules =
      (
        2,
        record {
          period_due = some 16000;
          period_since = 1000;
          resend_due = some 6000;
          resend_since = 1000;
          resends_left = 2;
        },
      )
      ∷ (
        3,
        record {
          period_due = some 9000;
          period_since = 1000;
          resend_due = none;
          resend_since = 0;
          resends_left = 0;
        },
      )
      ∷ [];
}

waiting-early : is_before 5999 (earliest waiting) ≡ true
unfolding earliest
waiting-early = refl

run_publisher_early_example : run_publisher 5999 (2 ∷ 3 ∷ []) waiting ≡ waiting
run_publisher_early_example = run_publisher_early 5999 (2 ∷ 3 ∷ []) waiting waiting-early
