-- ===== src/Tunnel/Table/Outgoing.antt =====
-- What becomes of an inner packet that the tunnel sends: the datagram that goes out.
use sangtachi.Prelude.{ℕ, ◌≡◌, Bool, true, false, List, ◌∷◌, length, take}
use sangtachi.Network.Endpoint.{Endpoint}
use sangtachi.Peer.Session.State.{Session}
use sangtachi.Peer.Session.Sending.{header_fields, blank_buffer}
use sangtachi.Peer.Session.Sending
use sangtachi.Tunnel.Packet.{PacketType, PacketError, check_common, build_packet, packet_header}
use sangtachi.Tunnel.Table.{Tunnel, TxOutcome}

-- The datagram of a packet that `send_packet` hands out.
abbrev pub framed : PacketType → List ℕ → Session → List ℕ
framed type payload s =
    let built = build_packet type (header_fields s) payload blank_buffer in take built.0 built.1

-- What a session that has learned its peer's endpoint hands out for an inner packet: a datagram to
-- that endpoint, that the receiver's common checks accept as a DATA packet of this session with the
-- next sequence number and the packet as its payload.
abbrev pub IsHandedOut : Endpoint → List ℕ → Session → Session → Type 0
IsHandedOut to inner s after =
    (after.sent ≡ record { to = to; datagram = framed PacketType.inner_data inner s } ∷ s.sent)
    × (check_common (framed PacketType.inner_data inner s) ≡ record {
      error = PacketError.no_error;
      header = packet_header PacketType.inner_data (header_fields s) (length inner);
      payload = inner;
    })

abbrev pub is_sent : TxOutcome → Bool
is_sent TxOutcome.sent = true
is_sent _ = false
