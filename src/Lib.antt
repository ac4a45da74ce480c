-- ===== src/Lib.antt =====
-- Verification of the client of Sangtachi, a virtual network between a few peers over UDP. A tunnel
-- keeps one session for each peer; a session punches a path to its peer, agrees on session epochs,
-- watches its timers and decides of every datagram whether it is genuine, new and deliverable.
--
-- How the parts interact: a datagram passes the common checks of the packet codec, its session checks
-- the epoch and the nonce, the replay window its sequence number and the inner checks its payload, and
-- what is left goes to the application. In the other direction the tunnel routes an inner packet by
-- its address to a connected session, which builds a datagram with the next sequence number. What a
-- session drops is a counter in its table.
--
-- Files, and the code they model (paths from the root of the repository):
--   Protocol           client/include/sangtachi/protocol_constants.hpp
--   Counters           client/src/counters.cpp, client/include/sangtachi/counters.hpp
--   SpscRing           client/include/sangtachi/spsc_ring.hpp, each operation one step
--   Network.Endpoint   client/src/network/endpoint.cpp: the parser of endpoints
--   Network.Stun       client/src/network/stun.cpp: the messages; Attributes and Response write messages
--                      down independently of the parser, Checks is about what it accepts
--   Timer              client/src/timer.cpp; Live is the abstract view, the timers that are not
--                      cancelled, and Cancel, Firing, Rounds and Deadlines prove what the set promises
--   Network.StunClient client/src/network/stun_client.cpp: the state and the names of the timers;
--                      Queries are the operations, Events the runs, and the others are proofs
--   Network.Decimal    the decimal digits of std::to_string
--   Peer.Candidates    client/src/peer/candidates.cpp, with client/include/sangtachi/platform/interfaces.hpp
--   Tunnel.Wire        client/src/tunnel/packet.cpp: read_u8 to write_u64, which stun.cpp has too
--   Tunnel.Packet      client/src/tunnel/packet.cpp: header, common checks, HELLO, PING and CLOSE; its
--                      modules prove the round trips and what the common checks guarantee
--   Tunnel.Roster      client/src/tunnel/packet.cpp: the ROSTER payload
--   Tunnel.Inner       client/src/tunnel/tunnel.cpp: check_inner_ipv4 and to_counter
--   Tunnel.Replay      client/src/tunnel/replay.cpp; Bitmap, Tracking, Accept and Run relate the bitmap
--                      to the set of positions that were accepted
--   Tunnel.Table       client/src/tunnel/tunnel.cpp: the table of sessions (Table), create_session (Creation);
--                      Retention, Outgoing, Validity and Runs prove what it promises
--   Tunnel.Router      client/src/tunnel/router.cpp
--   Tunnel.Publisher   client/src/tunnel/roster_publisher.cpp; Announce is about a change of the
--                      roster, Quiet about the time before a deadline
--   Tunnel.DataSender  client/src/tunnel/data_sender.cpp, on the tunnel of Tunnel.Table; Work,
--                      Arguments and Checksum are proofs
--   Peer.Epoch         client/src/peer/epoch.cpp
--   Peer.Session       client/src/peer/session.cpp: State is the class with its fields, Sending what it
--                      sends, Lifecycle the timers and the state machine, Admit the checks of `receive`
--                      and Receive what an accepted packet does; Events are the runs of a session. The
--                      other modules are proofs.
--   Prelude            Boolean tests, lists, bits and the names that all files share
--
-- How the code is read. Bytes, words and times are natural numbers; every step that can wrap around
-- writes the wrap-around out (u32, u64). An object is a record and a method a function from record to
-- record; `Session` also logs what goes out through its callbacks, the latest first: datagrams, inner
-- packets, transitions. The callbacks of `SessionIo` are arguments: the answer of the n-th send, the
-- n-th nonce, the n-th reading of the clock. An early return with a counter is a `refuse`. The list of
-- retired epochs, which the sessions of a tunnel share, is a field of the session here, and the tunnel
-- hands its own in and takes it back around each call. The maps of pending pings and of sessions are
-- lists in the order of their keys.
--
-- Fuel. The fold of the inner checksum has fuel for 4 rounds, and two end it for any 32-bit sum; the
-- loop that enforces the cap on retained sessions has as much as there are sessions, and each round
-- erases one. The generators of epochs and nonces run on the list of the
-- random source's answers, and say when it is too short. The loop over the attributes of a STUN message
-- has the length of the message as fuel and moves on by four bytes a round. The STUN
-- client's loop that fills the slots has the servers that are left as fuel, and each round asks one.
-- All else is structural.
--
-- Not modelled: log lines and other text output, the control plane, the main loop and the platform.
pub mod Prelude
pub mod Protocol
pub mod Counters
pub mod Network
pub mod SpscRing
pub mod Timer
pub mod Peer
pub mod Tunnel
