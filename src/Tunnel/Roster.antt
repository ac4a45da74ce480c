-- ===== src/Tunnel/Roster.antt =====
-- The ROSTER payload of client/src/tunnel/packet.cpp: who is in the room, sent by the host.
use sangtachi.Prelude.{
  ℕ, zero, suc, ◌+◌, ◌-◌, Bool, true, false, not, ◌&&◌, ◌||◌, Option, none, some, List, [], ◌∷◌,
  ltb, leb, ◌==◌, if◌then◌else◌, length, set, take, drop, replicate, copy_to, bit_and,
}
use sangtachi.Protocol.{max_peers, max_name_len}
use sangtachi.Tunnel.Wire.{read_u8, read_u32, write_u8, write_u32}
use sangtachi.Tunnel.Packet.{PacketError}

abbrev pub roster_head_size : ℕ
roster_head_size = 5

abbrev pub roster_member_fixed_size : ℕ
roster_member_fixed_size = 10

-- `kRosterFlagConnected` and `kRosterFlagsReserved`.
abbrev pub flag_connected : ℕ
flag_connected = 1

abbrev pub flags_reserved : ℕ
flags_reserved = 0xfe

unfoldable pub is_name_byte : ℕ → Bool
is_name_byte c =
    (leb b'A' c && leb c b'Z')
    || (leb b'a' c && leb c b'z')
    || (leb b'0' c && leb c b'9')
    || (c == b'_')

abbrev pub all_name_bytes : List ℕ → Bool
all_name_bytes [] = true
all_name_bytes (c ∷ cs) = is_name_byte c && all_name_bytes cs

unfoldable pub is_valid_name : List ℕ → Bool
is_valid_name name =
    if (length name == 0) || ltb max_name_len (length name) then false else all_name_bytes name

-- `name` is the array of `max_name_len` bytes.
pub record RosterMember : Type 0 where
  pub peer_id : ℕ
  pub virtual_ip : ℕ
  pub connected : Bool
  pub name : List ℕ
  pub name_len : ℕ

abbrev pub blank_member : RosterMember
blank_member = record {
  peer_id = 0;
  virtual_ip = 0;
  connected = false;
  name = replicate max_name_len 0;
  name_len = 0;
}

abbrev pub name_view : RosterMember → List ℕ
name_view m = take (if ltb m.name_len max_name_len then m.name_len else max_name_len) m.name

-- `members` is the array of `max_peers` entries; the first `count` of them have a meaning.
pub record Roster : Type 0 where
  pub generation : ℕ
  pub members : List RosterMember
  pub count : ℕ

abbrev pub blank_roster : Roster
blank_roster = record { generation = 0; members = replicate max_peers blank_member; count = 0 }

pub record RosterContext : Type 0 where
  pub sender_is_host : Bool
  pub last_generation : Option ℕ

pub record RosterDecode : Type 0 where
  pub error : PacketError
  pub value : Roster

abbrev pub roster_fail : PacketError → RosterDecode
roster_fail e = record { error = e; value = blank_roster }

-- One member at `pos`; its name is `len` bytes.
abbrev pub member_at : List ℕ → ℕ → ℕ → RosterMember
member_at payload pos len = record {
  peer_id = read_u32 payload pos;
  virtual_ip = read_u32 payload (pos + 4);
  connected = not (bit_and (read_u8 payload (pos + 8)) flag_connected == 0);
  name =
      copy_to (replicate max_name_len 0) 0
        (take len (drop (pos + roster_member_fixed_size) payload));
  name_len = len;
}

-- The loop over the members: `left` are to come, `i` is the index of the next one. `none` is a
-- payload that ends too early or a name of a length that is not permitted; otherwise the members,
-- the flags as they came, and the position behind the last member.
pub read_members :
    ℕ → ℕ → List ℕ → ℕ → List RosterMember → List ℕ → Option (List RosterMember × List ℕ × ℕ)
read_members zero i payload pos members flags = some (members, flags, pos)
read_members (suc left) i payload pos members flags =
    let remaining = length payload - pos in
    let name_len = read_u8 payload (pos + 9) in
    let rest =
      read_members left (i + 1) payload (pos + (roster_member_fixed_size + name_len))
        (set members i (member_at payload pos name_len))
        (set flags i (read_u8 payload (pos + 8))) in
    if ltb remaining roster_member_fixed_size
    then none
    else if ltb name_len 1 || ltb max_name_len name_len
    then none
    else if ltb (remaining - roster_member_fixed_size) name_len
    then none
    else rest

abbrev pub any_reserved : ℕ → List ℕ → Bool
any_reserved zero flags = false
any_reserved (suc n) [] = false
any_reserved (suc n) (f ∷ flags) = not (bit_and f flags_reserved == 0) || any_reserved n flags

abbrev pub all_valid_names : ℕ → List RosterMember → Bool
all_valid_names zero members = true
all_valid_names (suc n) [] = true
all_valid_names (suc n) (m ∷ members) = is_valid_name (name_view m) && all_valid_names n members

-- `context.last_generation && generation < *context.last_generation`.
abbrev pub is_stale : Option ℕ → ℕ → Bool
is_stale none generation = false
is_stale (some last) generation = ltb generation last

-- The checks behind the structure: generation, flags, names.
pub accept_members : Roster → List ℕ → Option ℕ → RosterDecode
accept_members r flags last =
    if is_stale last r.generation
    then roster_fail PacketError.roster_stale
    else if any_reserved r.count flags
    then roster_fail PacketError.roster_flags
    else if not (all_valid_names r.count r.members)
    then roster_fail PacketError.roster_name
    else record { error = PacketError.no_error; value = r }

abbrev pub finish_members :
    List ℕ → ℕ → ℕ → Option ℕ → Option (List RosterMember × List ℕ × ℕ) → RosterDecode
finish_members payload generation count last none = roster_fail PacketError.type_length
finish_members payload generation count last (some (members, flags, pos)) =
    if not (pos == length payload)
    then roster_fail PacketError.type_length
    else accept_members (record { generation = generation; members = members; count = count }) flags
        last

pub decode_roster : List ℕ → RosterContext → RosterDecode
decode_roster payload context =
    let count = read_u8 payload 4 in
    if not context.sender_is_host
    then roster_fail PacketError.roster_direction
    else if ltb (length payload) roster_head_size
    then roster_fail PacketError.type_length
    else if ltb count 1 || ltb max_peers count
    then roster_fail PacketError.type_length
    else finish_members payload (read_u32 payload 0) count context.last_generation (
        read_members count 0 payload roster_head_size (replicate max_peers blank_member)
          (replicate max_peers 0))

-- The first pass of `encode_roster`: the size, or `none` if a name is not valid.
unfoldable pub total_size : ℕ → List RosterMember → ℕ → Option ℕ
total_size zero members total = some total
total_size (suc n) [] total = some total
total_size (suc n) (m ∷ members) total =
    if ltb max_name_len m.name_len || not (is_valid_name (name_view m))
    then none
    else total_size n members (total + (roster_member_fixed_size + m.name_len))

-- One member is written at `pos`.
unfoldable pub write_member : List ℕ → ℕ → RosterMember → List ℕ
write_member out pos m =
    let out = write_u32 out pos m.peer_id in
    let out = write_u32 out (pos + 4) m.virtual_ip in
    let out = write_u8 out (pos + 8) (if m.connected then flag_connected else 0) in
    let out = write_u8 out (pos + 9) m.name_len in
    copy_to out (pos + roster_member_fixed_size) (take m.name_len m.name)

-- The second pass.
unfoldable pub write_members : ℕ → List RosterMember → List ℕ → ℕ → List ℕ
write_members zero members out pos = out
write_members (suc n) [] out pos = out
write_members (suc n) (m ∷ members) out pos =
    write_members n members (write_member out pos m) (pos + (roster_member_fixed_size + m.name_len))

abbrev pub write_roster : Roster → List ℕ → Option ℕ → ℕ × List ℕ
write_roster r out none = (0, out)
write_roster r out (some total) = if ltb (length out) total then (0, out) else (
  total,
  write_members r.count r.members (write_u8 (write_u32 out 0 r.generation) 4 r.count)
      roster_head_size,
)

-- The number of bytes written, 0 if none, and the buffer.
unfoldable pub encode_roster : Roster → List ℕ → ℕ × List ℕ
encode_roster r out =
    if ltb r.count 1 || ltb max_peers r.count
    then (0, out)
    else write_roster r out (total_size r.count r.members roster_head_size)
