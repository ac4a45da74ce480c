-- ===== src/Tunnel/Inner.antt =====
-- The inner IPv4 checks of client/src/tunnel/tunnel.cpp (`check_inner_ipv4`), and how drop reasons
-- become counters.
pub mod Checksum
pub mod Accepted
mod Examples
use sangtachi.Prelude.{
  ℕ, zero, suc, ◌+◌, ◌*◌, not, ◌||◌, Option, none, some, List, ltb, ◌==◌, if◌then◌else◌, length,
  bit_and, bit_or,
}
use sangtachi.Prelude.Bits.{◌<<<◌, ◌>>>◌, u32}
use sangtachi.Counters.{Counter}
use sangtachi.Tunnel.Wire.{read_u8, read_u32}
use sangtachi.Tunnel.Packet.{PacketError}

pub data InnerError : Type 0 where
  no_error not_ipv4 ihl checksum length_mismatch src dst : InnerError

-- `to_counter(PacketError)`.
abbrev pub packet_counter : PacketError → Option Counter
packet_counter PacketError.no_error = none
packet_counter PacketError.short = some Counter.drop_short
packet_counter PacketError.magic = some Counter.drop_magic
packet_counter PacketError.version = some Counter.drop_version
packet_counter PacketError.unknown_type = some Counter.drop_unknown_type
packet_counter PacketError.length_mismatch = some Counter.drop_length
packet_counter PacketError.type_length = some Counter.drop_type_length
packet_counter PacketError.bad_reason = some Counter.drop_bad_reason
packet_counter PacketError.roster_direction = some Counter.drop_roster_direction
packet_counter PacketError.roster_stale = some Counter.drop_roster_stale
packet_counter PacketError.roster_flags = some Counter.drop_roster_flags
packet_counter PacketError.roster_name = some Counter.drop_roster_name

-- `to_counter(InnerError)`.
abbrev pub inner_counter : InnerError → Option Counter
inner_counter InnerError.no_error = none
inner_counter InnerError.not_ipv4 = some Counter.drop_inner_not_ipv4
inner_counter InnerError.ihl = some Counter.drop_inner_ihl
inner_counter InnerError.checksum = some Counter.drop_inner_checksum
inner_counter InnerError.length_mismatch = some Counter.drop_inner_length
inner_counter InnerError.src = some Counter.drop_inner_src
inner_counter InnerError.dst = some Counter.drop_inner_dst

-- The sum over `words` 16-bit words from offset `i` on.
unfoldable pub sum_words : ℕ → ℕ → List ℕ → ℕ → ℕ
sum_words zero i payload sum = sum
sum_words (suc words) i payload sum =
    sum_words words (i + 2) payload
      (u32 (sum + bit_or (read_u8 payload i <<< 8) (read_u8 payload (i + 1))))

-- `while ((sum >> 16) != 0)`, with fuel.
unfoldable pub fold_sum : ℕ → ℕ → ℕ
fold_sum zero sum = sum
fold_sum (suc fuel) sum =
    let folded = fold_sum fuel (bit_and sum 0xffff + (sum >>> 16)) in
    if not (sum >>> 16 == 0) then folded else sum

-- A sum of at most 30 words needs two rounds.
abbrev pub fold_fuel : ℕ
fold_fuel = 4

-- The checks behind the header length: checksum, total length, addresses.
unfoldable pub check_inner_header : List ℕ → ℕ → ℕ → ℕ → InnerError
check_inner_header payload header_words peer_virtual_ip local_virtual_ip =
    if not (fold_sum fold_fuel (sum_words (header_words * 2) 0 payload 0) == 0xffff)
    then InnerError.checksum
    else if not (bit_or (read_u8 payload 2 <<< 8) (read_u8 payload 3) == length payload)
    then InnerError.length_mismatch
    else if not (read_u32 payload 12 == peer_virtual_ip)
    then InnerError.src
    else if not (read_u32 payload 16 == local_virtual_ip)
    then InnerError.dst
    else InnerError.no_error

unfoldable pub check_inner_ipv4 : List ℕ → ℕ → ℕ → InnerError
check_inner_ipv4 payload peer_virtual_ip local_virtual_ip =
    let header_words = bit_and (read_u8 payload 0) 0x0f in
    if (length payload == 0) || not (read_u8 payload 0 >>> 4 == 4)
    then InnerError.not_ipv4
    else if ltb header_words 5 || ltb (length payload) (header_words * 4)
    then InnerError.ihl
    else check_inner_header payload header_words peer_virtual_ip local_virtual_ip
