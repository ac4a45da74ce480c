-- ===== src/Tunnel/Packet/Common.antt =====
-- `check_common` and `build_packet`: what is built passes the checks with the fields and the payload
-- that went in, and what passes has the shape that every handler relies on.
use sangtachi.Prelude.{
  ℕ, ◌+◌, ◌≤◌, ◌<◌, ◌≡◌, ◌≢◌, ◌↔◌, ◌⊎◌, refl, inl, inr, true, none, some, List, [], length, take,
  drop, copy_to, arith, Option-cases, copy_to-twice, take-append-append,
}
use sangtachi.Prelude.Bits.{u16}
use sangtachi.Protocol.{header_size, tunnel_magic, tunnel_version}
use sangtachi.Tunnel.Packet.{
  PacketType, type_of, type_byte, PacketError, Header, HeaderFields, serialize_header,
  deserialize_header, is_known_type, payload_length_ok, check_header, check_common, packet_header,
  build_packet,
}
use sangtachi.Tunnel.Packet.HeaderCodec.{
  IsHeader, header_bytes, serialize_header-eq, deserialize-header_bytes,
}

-- Every type that has a permitted payload length is a listed one, and the lengths are bounded.
pub payload_length_ok-bounds :
    (t : PacketType) (n : ℕ)
    → payload_length_ok t n ≡ true
    → (n ≤ 1452)
      × (type_of (type_byte t) ≡ t)
      × (is_known_type (type_byte t) ≡ true)
      × (type_byte t < 256)
unfolding payload_length_ok is_known_type type_of
payload_length_ok-bounds t n h = ground arith

length-deserialize :
    (d : List ℕ) {h : Header} → deserialize_header d ≡ some h → header_size ≤ length d
unfolding deserialize_header
length-deserialize d e = ground arith

-- The conditions under which a datagram passes the common checks.
pub record Passes (d : List ℕ) (h : Header) (payload : List ℕ) : Type 0 where
  pub read : deserialize_header d ≡ some h
  pub magic : h.magic ≡ tunnel_magic
  pub version : h.version ≡ tunnel_version
  pub known : is_known_type h.type ≡ true
  pub total : length d ≡ header_size + h.payload_length
  pub fits : payload_length_ok (type_of h.type) h.payload_length ≡ true
  pub rest : payload ≡ drop header_size d

module _ (h : Header) (d : List ℕ) (p : header_size ≤ length d) where
  check_header_passed :
      (check_header h d).error ≡ PacketError.no_error
      → (h.magic ≡ tunnel_magic)
        × (h.version ≡ tunnel_version)
        × (is_known_type h.type ≡ true)
        × (length d ≡ header_size + h.payload_length)
        × (payload_length_ok (type_of h.type) h.payload_length ≡ true)
        × ((check_header h d).header ≡ h)
        × ((check_header h d).payload ≡ drop header_size d)
  unfolding check_header
  check_header_passed e = ground arith

  check_header_complete :
      h.magic ≡ tunnel_magic
      → h.version ≡ tunnel_version
      → is_known_type h.type ≡ true
      → length d ≡ header_size + h.payload_length
      → payload_length_ok (type_of h.type) h.payload_length ≡ true
      → check_header h d
        ≡ record { error = PacketError.no_error; header = h; payload = drop header_size d }
  unfolding check_header
  check_header_complete a b c e f = ground arith

check_common_short :
    (d : List ℕ) → deserialize_header d ≡ none → (check_common d).error ≡ PacketError.short
unfolding check_common
check_common_short d e = ground (arith, e)

check_common_read :
    (d : List ℕ) (h : Header) → deserialize_header d ≡ some h → check_common d ≡ check_header h d
unfolding check_common
check_common_read d h e = ground (arith, e)

-- A datagram that passes has a whole header with the magic, the version, a listed type and the
-- length that the header and the type call for; the result is that header and the rest.
pub check_common-Passes :
    (d : List ℕ)
    → (check_common d).error ≡ PacketError.no_error
    → Passes d (check_common d).header (check_common d).payload
check_common-Passes d e = elim (Option-cases (deserialize_header d)) [
  | inl n ↦ absurd (ground (arith, check_common_short d n, e))
  | inr (h, s) ↦
      let c = check_common_read d h s in
      let k = check_header_passed h d (length-deserialize d s) (rw c at e) in
      rw c (
        rw (k.5) (record {
          read = s;
          magic = k.0;
          version = k.1;
          known = k.2;
          total = k.3;
          fits = k.4;
          rest = k.6;
        }))
]

-- And every datagram of that shape passes, with that result.
pub Passes-check_common :
    (d : List ℕ) (h : Header) (payload : List ℕ)
    → Passes d h payload
    → check_common d ≡ record { error = PacketError.no_error; header = h; payload = payload }
unfolding check_common
Passes-check_common d h payload v = ground (
  arith,
  v.read,
  v.rest,
  length-deserialize d v.read,
  check_header_complete h d (length-deserialize d v.read) v.magic v.version v.known v.total v.fits,
)

-- The fields of a session's header within their widths.
abbrev pub IsFields : HeaderFields → Type 0
IsFields f =
    (f.peer_id < 0x1_0000_0000) × (f.session_epoch < 0x1_0000_0000) × (f.sequence < 0x1_0000_0000)

packet_header-IsHeader :
    (t : PacketType) (f : HeaderFields) (n : ℕ)
    → IsFields f
    → payload_length_ok t n ≡ true
    → IsHeader (packet_header t f n)
packet_header-IsHeader t f n v h = record {
  magic = omega arith;
  version = omega arith;
  type = (payload_length_ok-bounds t n h).3;
  payload_length = omega arith;
  peer_id = v.0;
  session_epoch = v.1;
  sequence = v.2;
}

build_packet-written :
    (t : PacketType) (f : HeaderFields) (payload out : List ℕ)
    → (build_packet t f payload out).0 ≢ 0
    → (payload_length_ok t (length payload) ≡ true)
      × (header_size + length payload ≤ length out)
      × (build_packet t f payload out ≡ (
        header_size + length payload,
        copy_to
            (copy_to out 0 (serialize_header (packet_header t f (length payload))))
            header_size
            payload,
      ))
unfolding build_packet
build_packet-written t f payload out h = ground arith

-- The bytes of a packet that was built.
packet_bytes :
    (h : Header) (payload out : List ℕ)
    → header_size + length payload ≤ length out
    → take
        (header_size + length payload)
        (copy_to (copy_to out 0 (serialize_header h)) header_size payload)
      ≡ header_bytes h payload
packet_bytes h payload out fits = rw serialize_header-eq (
    rw (copy_to-twice (header_bytes h []) payload out fits) (
      take-append-append (header_bytes h []) payload
        (drop (length payload) (drop header_size out))))

-- What `build_packet` writes passes the receiver's common checks, with the header fields and the
-- payload that went in.
pub check_common-build_packet :
    (t : PacketType) (f : HeaderFields) (payload out : List ℕ)
    → IsFields f
    → (build_packet t f payload out).0 ≢ 0
    → check_common (take (build_packet t f payload out).0 (build_packet t f payload out).1)
      ≡ record {
        error = PacketError.no_error;
        header = packet_header t f (length payload);
        payload = payload;
      }
check_common-build_packet t f payload out v h =
    let (good, fits, e) = build_packet-written t f payload out h in
    let n = length payload in
    let k = payload_length_ok-bounds t n good in
    let size : u16 n ≡ n = omega (arith, k.0) in
    rw e (
      rw (packet_bytes (packet_header t f n) payload out fits) (
        Passes-check_common (header_bytes (packet_header t f n) payload) (packet_header t f n)
          payload
          (record {
            read =
                deserialize-header_bytes (packet_header t f n) payload
                  (packet_header-IsHeader t f n v good);
            magic = refl;
            version = refl;
            known = k.2;
            total = omega (arith, size);
            fits = rw (size, k.1) good;
            rest = refl;
          })))

-- A packet is built exactly if the type permits the payload's length and the buffer has room, and
-- otherwise the buffer keeps its bytes.
pub build_packet_iff :
    (t : PacketType) (f : HeaderFields) (payload out : List ℕ)
    → (((build_packet t f payload out).0 ≢ 0) ↔ (
        (payload_length_ok t (length payload) ≡ true)
        × (header_size + length payload ≤ length out)))
      × (((build_packet t f payload out).0 ≢ 0) ⊎ (build_packet t f payload out ≡ (0, out)))
unfolding build_packet
build_packet_iff t f payload out = ground arith
