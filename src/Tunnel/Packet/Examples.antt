-- ===== src/Tunnel/Packet/Examples.antt =====
-- Tests of the packet codec, and its theorems at concrete packets.
use sangtachi.Prelude.{ℕ, ◌≡◌, refl, some, List, [], ◌∷◌, take, replicate, length, arith}
use sangtachi.Protocol.{header_size}
use sangtachi.Tunnel.Packet.{
  PacketType, PacketError, Header, blank_header, HeaderFields, HelloPayload, serialize_header,
  deserialize_header, check_header, check_common, packet_header, build_packet, payload_length_ok,
  is_known_type, type_of,
}
use sangtachi.Tunnel.Packet.HeaderCodec.{IsHeader, deserialize-serialize}
use sangtachi.Tunnel.Packet.Common.{
  Passes, check_common-Passes, check_common-build_packet, build_packet_iff,
}
use sangtachi.Tunnel.Wire.{read_u8, read_u16, read_u32, write_u8, write_u16, write_u32}

abbrev sample_header : Header
sample_header = record blank_header {
  type = 3;
  peer_id = 7;
  session_epoch = 0x1234_5678;
  sequence = 0xffff_ffff;
}

sample_header-IsHeader : IsHeader sample_header
sample_header-IsHeader = omega arith

abbrev sample_fields : HeaderFields
sample_fields = record { peer_id = 7; session_epoch = 9; sequence = 0 }

keepalive_bytes :
    take 20 (build_packet PacketType.keepalive sample_fields [] (replicate 24 0)).1
    ≡ 0x53 ∷ 0x41 ∷ 0x4e ∷ 0x47 ∷ 1 ∷ 3 ∷ 0 ∷ 0 ∷ 0 ∷ 0 ∷ 0 ∷ 7 ∷ 0 ∷ 0 ∷ 0 ∷ 9 ∷ 0 ∷ 0 ∷ 0 ∷ 0 ∷ []
unfolding build_packet serialize_header write_u8 write_u16 write_u32 payload_length_ok
keepalive_bytes = refl

refuses_short : (check_common (1 ∷ 2 ∷ [])).error ≡ PacketError.short
unfolding check_common deserialize_header
refuses_short = refl

deserialize-serialize_example :
    (deserialize_header (serialize_header sample_header) ≡ some sample_header)
    × (length (serialize_header sample_header) ≡ header_size)
deserialize-serialize_example = deserialize-serialize sample_header sample_header-IsHeader

check_common-build_packet_example :
    check_common (
      take
        (build_packet PacketType.keepalive sample_fields [] (replicate 24 0)).0
        (build_packet PacketType.keepalive sample_fields [] (replicate 24 0)).1)
    ≡ record {
      error = PacketError.no_error;
      header = packet_header PacketType.keepalive sample_fields 0;
      payload = [];
    }
check_common-build_packet_example =
    check_common-build_packet PacketType.keepalive sample_fields [] (replicate 24 0) (omega arith) (
      (build_packet_iff PacketType.keepalive sample_fields [] (replicate 24 0)).0.1
        (unfold payload_length_ok in refl, omega arith))

abbrev keepalive_datagram : List ℕ
keepalive_datagram =
    0x53 ∷ 0x41 ∷ 0x4e ∷ 0x47 ∷ 1 ∷ 3 ∷ 0 ∷ 0 ∷ 0 ∷ 0 ∷ 0 ∷ 7 ∷ 0 ∷ 0 ∷ 0 ∷ 9 ∷ 0 ∷ 0 ∷ 0 ∷ 0 ∷ []

check_common-Passes_example :
    Passes keepalive_datagram
      (check_common keepalive_datagram).header
      (check_common keepalive_datagram).payload
unfolding check_common check_header deserialize_header read_u8 read_u16 read_u32 payload_length_ok
    is_known_type type_of
check_common-Passes_example = check_common-Passes keepalive_datagram refl

abbrev sample_hello : HelloPayload
sample_hello = record { nonce = replicate 16 0xab; virtual_ip = 0x0a64_0002 }
