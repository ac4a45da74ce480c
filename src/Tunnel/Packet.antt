-- ===== src/Tunnel/Packet.antt =====
-- client/src/tunnel/packet.cpp and client/include/sangtachi/tunnel/packet.hpp: the header of a
-- tunnel datagram, the common checks, and the payloads of HELLO, PING and CLOSE. Integers are kept
-- within their width by `u8`, `u16` and `u32` where the source casts.
pub mod HeaderCodec
pub mod Common
pub mod Payloads
mod Examples
use sangtachi.Prelude.{
  ℕ, ◌+◌, ◌-◌, Bool, true, false, not, ◌&&◌, ◌||◌, Option, none, some, List, [], ◌∷◌, ltb, leb,
  ◌==◌, if◌then◌else◌, length, take, drop, replicate, copy_to,
}
use sangtachi.Prelude.Bits.{u8, u16}
use sangtachi.Protocol.{
  tunnel_magic, tunnel_version, header_size, max_inner, max_peers, max_name_len,
}
use sangtachi.Tunnel.Wire.{
  read_u8, read_u16, read_u32, read_u64, write_u8, write_u16, write_u32, write_u64,
}

-- The values of `PacketType`; a cast of any other byte gives `unlisted`.
pub data PacketType : Type 0 where
  hello hello_ack keepalive inner_data ping pong close roster : PacketType
  unlisted : ℕ → PacketType

-- `static_cast<PacketType>`.
unfoldable pub type_of : ℕ → PacketType
type_of n =
    if n == 1
    then PacketType.hello
    else if n == 2
    then PacketType.hello_ack
    else if n == 3
    then PacketType.keepalive
    else if n == 4
    then PacketType.inner_data
    else if n == 5
    then PacketType.ping
    else if n == 6
    then PacketType.pong
    else if n == 7
    then PacketType.close
    else if n == 8
    then PacketType.roster
    else PacketType.unlisted n

-- `static_cast<std::uint8_t>`.
abbrev pub type_byte : PacketType → ℕ
type_byte PacketType.hello = 1
type_byte PacketType.hello_ack = 2
type_byte PacketType.keepalive = 3
type_byte PacketType.inner_data = 4
type_byte PacketType.ping = 5
type_byte PacketType.pong = 6
type_byte PacketType.close = 7
type_byte PacketType.roster = 8
type_byte (PacketType.unlisted n) = n

abbrev pub nonce_size : ℕ
nonce_size = 16

abbrev pub hello_payload_size : ℕ
hello_payload_size = nonce_size + 4

abbrev pub ping_payload_size : ℕ
ping_payload_size = 8

abbrev pub close_payload_size : ℕ
close_payload_size = 1

abbrev pub data_min_payload : ℕ
data_min_payload = 20

abbrev pub data_max_payload : ℕ
data_max_payload = max_inner

abbrev pub roster_min_payload : ℕ
roster_min_payload = 16

abbrev pub roster_max_payload : ℕ
roster_max_payload = 135

pub data PacketError : Type 0 where
  no_error short magic version unknown_type length_mismatch type_length bad_reason roster_direction
        roster_stale roster_flags roster_name :
      PacketError

pub record Header : Type 0 where
  pub magic : ℕ
  pub version : ℕ
  pub type : ℕ
  pub payload_length : ℕ
  pub peer_id : ℕ
  pub session_epoch : ℕ
  pub sequence : ℕ

-- A header as constructed.
abbrev pub blank_header : Header
blank_header = record {
  magic = tunnel_magic;
  version = tunnel_version;
  type = 0;
  payload_length = 0;
  peer_id = 0;
  session_epoch = 0;
  sequence = 0;
}

pub serialize_header : Header → List ℕ
unfolding write_u8 write_u16 write_u32
serialize_header h =
    let out = write_u32 (replicate header_size 0) 0 h.magic in
    let out = write_u8 out 4 h.version in
    let out = write_u8 out 5 h.type in
    let out = write_u16 out 6 h.payload_length in
    let out = write_u32 out 8 h.peer_id in
    let out = write_u32 out 12 h.session_epoch in write_u32 out 16 h.sequence

unfoldable pub deserialize_header : List ℕ → Option Header
deserialize_header bytes =
    if ltb (length bytes) header_size
    then none
    else some (record {
      magic = read_u32 bytes 0;
      version = read_u8 bytes 4;
      type = read_u8 bytes 5;
      payload_length = read_u16 bytes 6;
      peer_id = read_u32 bytes 8;
      session_epoch = read_u32 bytes 12;
      sequence = read_u32 bytes 16;
    })

pub is_known_type : ℕ → Bool
is_known_type type = leb (type_byte PacketType.hello) type && leb type (type_byte PacketType.roster)

unfoldable pub payload_length_ok : PacketType → ℕ → Bool
payload_length_ok PacketType.hello n = n == hello_payload_size
payload_length_ok PacketType.hello_ack n = n == hello_payload_size
payload_length_ok PacketType.keepalive n = n == 0
payload_length_ok PacketType.inner_data n = leb data_min_payload n && leb n data_max_payload
payload_length_ok PacketType.ping n = n == ping_payload_size
payload_length_ok PacketType.pong n = n == ping_payload_size
payload_length_ok PacketType.close n = n == close_payload_size
payload_length_ok PacketType.roster n = leb roster_min_payload n && leb n roster_max_payload
payload_length_ok (PacketType.unlisted _) n = false

pub record CommonCheck : Type 0 where
  pub error : PacketError
  pub header : Header
  pub payload : List ℕ

abbrev refused : PacketError → CommonCheck
refused e = record { error = e; header = blank_header; payload = [] }

-- The checks of `check_common` once the header has been read.
pub check_header : Header → List ℕ → CommonCheck
check_header header datagram =
    let actual = length datagram - header_size in
    if not (header.magic == tunnel_magic)
    then refused PacketError.magic
    else if not (header.version == tunnel_version)
    then refused PacketError.version
    else if not (is_known_type header.type)
    then refused PacketError.unknown_type
    else if not (header.payload_length == actual)
    then refused PacketError.length_mismatch
    else if not (payload_length_ok (type_of header.type) actual)
    then refused PacketError.type_length
    else record {
      error = PacketError.no_error;
      header = header;
      payload = drop header_size datagram;
    }

unfoldable pub check_common : List ℕ → CommonCheck
check_common datagram = elim (deserialize_header datagram) [
  | none ↦ refused PacketError.short
  | some header ↦ check_header header datagram
]

pub record HeaderFields : Type 0 where
  pub peer_id : ℕ
  pub session_epoch : ℕ
  pub sequence : ℕ

-- The header that `build_packet` writes.
abbrev pub packet_header : PacketType → HeaderFields → ℕ → Header
packet_header type fields size = record blank_header {
  type = type_byte type;
  payload_length = u16 size;
  peer_id = fields.peer_id;
  session_epoch = fields.session_epoch;
  sequence = fields.sequence;
}

-- The number of bytes written, 0 if none, and the buffer.
unfoldable pub build_packet : PacketType → HeaderFields → List ℕ → List ℕ → ℕ × List ℕ
build_packet type fields payload out =
    let total = header_size + length payload in
    if not (payload_length_ok type (length payload))
    then (0, out)
    else if ltb (length out) total
    then (0, out)
    else (
      total,
      copy_to (copy_to out 0 (serialize_header (packet_header type fields (length payload))))
          header_size payload,
    )

pub record HelloPayload : Type 0 where
  pub nonce : List ℕ
  pub virtual_ip : ℕ

pub encode_hello : HelloPayload → List ℕ
encode_hello p =
    write_u32 (copy_to (replicate hello_payload_size 0) 0 (take nonce_size p.nonce)) nonce_size
      p.virtual_ip

pub record HelloDecode : Type 0 where
  pub error : PacketError
  pub value : HelloPayload

pub decode_hello : List ℕ → HelloDecode
decode_hello payload =
    if not (payload_length_ok PacketType.hello (length payload))
    then record {
      error = PacketError.type_length;
      value = record { nonce = replicate nonce_size 0; virtual_ip = 0 };
    }
    else record {
      error = PacketError.no_error;
      value = record { nonce = take nonce_size payload; virtual_ip = read_u32 payload nonce_size };
    }

pub encode_ping : ℕ → List ℕ
encode_ping id = write_u64 (replicate ping_payload_size 0) 0 id

pub record PingDecode : Type 0 where
  pub error : PacketError
  pub ping_id : ℕ

pub decode_ping : List ℕ → PingDecode
decode_ping payload =
    if not (payload_length_ok PacketType.ping (length payload))
    then record { error = PacketError.type_length; ping_id = 0 }
    else record { error = PacketError.no_error; ping_id = read_u64 payload 0 }

pub data CloseReason : Type 0 where
  normal user_cancel config_error setup_failed : CloseReason

abbrev pub reason_byte : CloseReason → ℕ
reason_byte CloseReason.normal = 0
reason_byte CloseReason.user_cancel = 1
reason_byte CloseReason.config_error = 2
reason_byte CloseReason.setup_failed = 3

-- `static_cast<CloseReason>`, of a byte up to 3.
abbrev pub reason_of : ℕ → CloseReason
reason_of n =
    if n == 0
    then CloseReason.normal
    else if n == 1
    then CloseReason.user_cancel
    else if n == 2
    then CloseReason.config_error
    else CloseReason.setup_failed

pub encode_close : CloseReason → List ℕ
encode_close reason = reason_byte reason ∷ []

pub record CloseDecode : Type 0 where
  pub error : PacketError
  pub reason : CloseReason

pub decode_close : List ℕ → CloseDecode
decode_close payload =
    let reason = read_u8 payload 0 in
    if not (payload_length_ok PacketType.close (length payload))
    then record { error = PacketError.type_length; reason = CloseReason.normal }
    else if ltb (reason_byte CloseReason.setup_failed) reason
    then record { error = PacketError.bad_reason; reason = CloseReason.normal }
    else record { error = PacketError.no_error; reason = reason_of reason }
