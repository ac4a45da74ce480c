-- ===== src/Peer/Session/State.antt =====
-- The state of a session, and the state of its state machine.
use sangtachi.Prelude.{ℕ, ◌+◌, ◌-◌, Bool, true, false, not, ◌||◌, Option, none, some, List, [], any}
use sangtachi.Prelude.Bits.{u64}
use sangtachi.Counters.{Counter, Counters, increment, no_counts}
use sangtachi.Network.Endpoint.{Endpoint, endpoint_eq}
use sangtachi.Peer.Epoch.{Nonce, RetiredEpochs}
use sangtachi.Tunnel.Packet.{CloseReason}
use sangtachi.Tunnel.Replay.{ReplayWindow}
use sangtachi.Tunnel.Replay

pub data SessionState : Type 0 where
  punching handshaking connected failed closed : SessionState

abbrev pub is_terminal : SessionState → Bool
is_terminal SessionState.failed = true
is_terminal SessionState.closed = true
is_terminal _ = false

pub data SessionFailure : Type 0 where
  hole_punch_timeout peer_handshake_failed tunnel_dropped : SessionFailure

pub record SessionConfig : Type 0 where
  pub local_peer_id : ℕ
  pub local_virtual_ip : ℕ
  pub peer_id : ℕ
  pub peer_virtual_ip : ℕ
  pub candidates : List Endpoint
  pub peer_is_host : Bool
  pub local_epoch : ℕ
  pub attempt_nonce : Nonce

-- What the session asks of its surroundings (`SessionIo`): whether the n-th send succeeds, the
-- answer of the n-th draw of a nonce, the n-th reading of the RTT clock if there is one, and whether
-- there is a sink for the inner packets.
pub record SessionIo : Type 0 where
  pub send_succeeds : ℕ → Bool
  pub random : ℕ → Option Nonce
  pub rtt_clock_us : Option (ℕ → ℕ)
  pub has_sink : Bool

-- A datagram handed to `send`.
pub record Sent : Type 0 where
  pub to : Endpoint
  pub datagram : List ℕ

pub record LossStats : Type 0 where
  pub expected : ℕ
  pub accepted : ℕ

pub record PendingPing : Type 0 where
  pub ping_id : ℕ
  pub sent_ms : ℕ
  pub sent_us : ℕ

pub record ProbePath : Type 0 where
  pub to : Endpoint
  pub nonce : Nonce
  pub registered : ℕ
  pub answered : Bool

-- A deadline and the time from which it was armed.
pub record Deadline : Type 0 where
  pub due : Option ℕ
  pub since : ℕ

abbrev pub unarmed : Deadline
unarmed = record { due = none; since = 0 }

-- The flags and fields of `Session`. The last five fields are what went out: the datagrams, the
-- inner packets, the transitions that were notified, and how often the nonce source and the RTT
-- clock were read; `retired` is the list that the sessions of the tunnel share.
pub record Session : Type 0 where
  pub config : SessionConfig
  pub counters : Counters
  pub got_ack : Bool
  pub sent_ack : Bool
  pub terminal : Option SessionState
  pub failure : Option SessionFailure
  pub peer_close_reason : Option CloseReason
  pub terminal_since : Option ℕ
  pub pinned : Option ℕ
  pub window : ReplayWindow
  pub loss_baseline : Option ℕ
  pub loss_accepted : ℕ
  pub loss_totals : LossStats
  pub next_seq : ℕ
  pub peer_endpoint : Option Endpoint
  pub renegotiations : ℕ
  pub last_renegotiation : Option ℕ
  pub pending_pings : List PendingPing
  pub next_ping_id : ℕ
  pub last_rtt_us : Option ℕ
  pub rtt_samples : ℕ
  pub last_generation : Option ℕ
  pub probes : List ProbePath
  pub budget_milli : ℕ
  pub budget_at : ℕ
  pub punch_started : Bool
  pub hello : Deadline
  pub punch : Deadline
  pub keepalive : Deadline
  pub ping : Deadline
  pub idle : Deadline
  pub retired : RetiredEpochs
  pub sent : List Sent
  pub delivered : List (List ℕ)
  pub transitions : List (SessionState × SessionState)
  pub draws : ℕ
  pub clock_reads : ℕ

abbrev pub budget_cost : ℕ
budget_cost = 1000

abbrev pub budget_capacity : ℕ
budget_capacity = 10000

-- The constructor, with the list of retired epochs that it is given.
unfoldable pub new_session : SessionConfig → RetiredEpochs → ℕ → Session
new_session config retired now = record {
  config = config;
  counters = no_counts;
  got_ack = false;
  sent_ack = false;
  terminal = none;
  failure = none;
  peer_close_reason = none;
  terminal_since = none;
  pinned = none;
  window = Replay.fresh;
  loss_baseline = none;
  loss_accepted = 0;
  loss_totals = record { expected = 0; accepted = 0 };
  next_seq = 0;
  peer_endpoint = none;
  renegotiations = 0;
  last_renegotiation = none;
  pending_pings = [];
  next_ping_id = 0;
  last_rtt_us = none;
  rtt_samples = 0;
  last_generation = none;
  probes = [];
  budget_milli = budget_capacity;
  budget_at = now;
  punch_started = false;
  hello = unarmed;
  punch = unarmed;
  keepalive = unarmed;
  ping = unarmed;
  idle = unarmed;
  retired = retired;
  sent = [];
  delivered = [];
  transitions = [];
  draws = 0;
  clock_reads = 0;
}

-- The state that the flags stand for.
abbrev pub state_of_flags : Option SessionState → Bool → Bool → SessionState
state_of_flags (some terminal) got_ack sent_ack = terminal
state_of_flags none true true = SessionState.connected
state_of_flags none true false = SessionState.handshaking
state_of_flags none false true = SessionState.handshaking
state_of_flags none false false = SessionState.punching

unfoldable pub state : Session → SessionState
state s = state_of_flags s.terminal s.got_ack s.sent_ack

unfoldable pub active : Session → Bool
unfolding state
active s = not (is_terminal (state s))

abbrev pub state_eq : SessionState → SessionState → Bool
state_eq SessionState.punching SessionState.punching = true
state_eq SessionState.handshaking SessionState.handshaking = true
state_eq SessionState.connected SessionState.connected = true
state_eq SessionState.failed SessionState.failed = true
state_eq SessionState.closed SessionState.closed = true
state_eq _ _ = false

unfoldable pub loss : Session → LossStats
loss s = elim s.loss_baseline [
  | none ↦ s.loss_totals
  | some baseline ↦ record {
    expected =
        u64 (s.loss_totals.expected + u64 (s.window.position + 0x1_0000_0000_0000_0000 - baseline));
    accepted = u64 (s.loss_totals.accepted + s.loss_accepted);
  }
]

unfoldable pub is_candidate : Session → Endpoint → Bool
is_candidate s endpoint = any (λ c. endpoint_eq c endpoint) s.config.candidates

-- `peer_endpoint_ == endpoint`.
abbrev pub is_peer_endpoint : Option Endpoint → Endpoint → Bool
is_peer_endpoint none endpoint = false
is_peer_endpoint (some e) endpoint = endpoint_eq e endpoint

unfoldable pub is_verified : Session → Endpoint → Bool
is_verified s endpoint = is_candidate s endpoint || is_peer_endpoint s.peer_endpoint endpoint

-- `counters_.increment(counter)`.
abbrev pub count : Counter → Session → Session
count c s = record s { counters = increment c s.counters }
