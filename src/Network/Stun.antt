-- ===== src/Network/Stun.antt =====
-- client/src/network/stun.cpp and client/include/sangtachi/network/stun.hpp: the STUN messages. A
-- message is a list of bytes, a transaction id one of twelve. The byte order helpers are those of
-- Tunnel.Wire.
pub mod Attributes
pub mod Response
pub mod Checks
mod Examples
use sangtachi.Prelude.{
  ℕ, zero, suc, ◌+◌, ◌-◌, ◌*◌, Bool, true, false, not, ◌&&◌, ◌||◌, Option, none, some, List, [],
  ◌∷◌, ltb, ◌==◌, if◌then◌else◌, length, take, drop, replicate, copy_to, bit_and, bit_xor, bytes_eq,
}
use sangtachi.Prelude.Bits.{◌>>>◌, u8, u16}
use sangtachi.Protocol.{stun_cookie}
use sangtachi.Tunnel.Wire.{read_u8, read_u16, read_u32, write_u16, write_u32}
use sangtachi.Network.Endpoint.{Endpoint}

abbrev pub stun_header_size : ℕ
stun_header_size = 20

abbrev pub attr_header_size : ℕ
attr_header_size = 4

abbrev pub mapped_ipv4_value_size : ℕ
mapped_ipv4_value_size = 8

abbrev pub error_code_prefix_size : ℕ
error_code_prefix_size = 4

abbrev pub attr_xor_mapped_address : ℕ
attr_xor_mapped_address = 0x0020

abbrev pub attr_error_code : ℕ
attr_error_code = 0x0009

abbrev pub address_family_ipv4 : ℕ
address_family_ipv4 = 0x01

pub data StunMessageType : Type 0 where
  binding_request binding_success_response binding_error_response : StunMessageType

-- `static_cast<std::uint16_t>`.
abbrev pub type_word : StunMessageType → ℕ
type_word StunMessageType.binding_request = 0x0001
type_word StunMessageType.binding_success_response = 0x0101
type_word StunMessageType.binding_error_response = 0x0111

-- `kNone` is left out: a result is either an error or a value.
pub data StunParseError : Type 0 where
  too_short not_stun bad_cookie transaction_mismatch unknown_type length_not_aligned length_mismatch
        attribute_truncated mapped_address_family mapped_address_malformed missing_mapped_address
        duplicate_mapped_address :
      StunParseError

pub data Parsed {ℓ} (A : Type ℓ) : Type ℓ where
  failure : StunParseError → Parsed A
  ok : A → Parsed A

pub record StunResponse : Type 0 where
  pub type : StunMessageType
  pub mapped : Option Endpoint
  pub error_code : Option ℕ

unfoldable pub has_stun_leading_bits : List ℕ → Bool
has_stun_leading_bits datagram = bit_and (read_u8 datagram 0) 0xc0 == 0

unfoldable pub has_stun_cookie : List ℕ → Bool
has_stun_cookie datagram = read_u32 datagram 4 == stun_cookie

-- The bytes 8 to 19.
unfoldable pub read_transaction_id : List ℕ → List ℕ
read_transaction_id datagram = take 12 (drop 8 datagram)

-- `(value_length + 3) & ~3`, in 64 bits.
unfoldable pub padded_size : ℕ → ℕ
padded_size value_length = bit_and (value_length + 3) 0xffff_ffff_ffff_fffc

unfoldable pub decode_mapped_address : List ℕ → Parsed Endpoint
decode_mapped_address value =
    let cookie_high = u16 (stun_cookie >>> 16) in
    if ltb (length value) 2
    then Parsed.failure StunParseError.mapped_address_malformed
    else if not (read_u8 value 1 == address_family_ipv4)
    then Parsed.failure StunParseError.mapped_address_family
    else if not (length value == mapped_ipv4_value_size)
    then Parsed.failure StunParseError.mapped_address_malformed
    else Parsed.ok (record {
      address = bit_xor (read_u32 value 4) stun_cookie;
      port = bit_xor (read_u16 value 2) cookie_high;
    })

unfoldable pub decode_error_code : List ℕ → Option ℕ
decode_error_code value =
    let error_class = bit_and (read_u8 value 2) 0x07 in
    let number = read_u8 value 3 in
    if ltb (length value) error_code_prefix_size
    then none
    else if ltb error_class 3 || ltb 6 error_class || ltb 99 number
    then none
    else some (error_class * 100 + number)

unfoldable pub build_binding_request : List ℕ → List ℕ
build_binding_request transaction_id =
    let message =
      write_u16 (replicate stun_header_size 0) 0 (type_word StunMessageType.binding_request) in
    let message = write_u16 message 2 0 in
    let message = write_u32 message 4 stun_cookie in copy_to message 8 (take 12 transaction_id)

unfoldable pub peek_transaction_id : List ℕ → Option (List ℕ)
peek_transaction_id datagram =
    if ltb (length datagram) stun_header_size
    then none
    else if not (has_stun_leading_bits datagram) || not (has_stun_cookie datagram)
    then none
    else some (read_transaction_id datagram)

-- The variables of the loop over the attributes.
pub record Walk : Type 0 where
  pub saw_mapped : Bool
  pub duplicate_mapped : Bool
  pub saw_error_code : Bool
  pub mapped : Option Endpoint
  pub error_code : Option ℕ

abbrev pub new_walk : Walk
new_walk = record {
  saw_mapped = false;
  duplicate_mapped = false;
  saw_error_code = false;
  mapped = none;
  error_code = none;
}

abbrev pub with_mapped : Walk → Parsed Endpoint → Parsed Walk
with_mapped w (Parsed.failure e) = Parsed.failure e
with_mapped w (Parsed.ok endpoint) =
    Parsed.ok (record w { saw_mapped = true; mapped = some endpoint })

-- What the loop does with one attribute of a success response, or else of an error response.
unfoldable pub take_attribute : Bool → ℕ → List ℕ → Walk → Parsed Walk
take_attribute is_success attr_type value w =
    if is_success && (attr_type == attr_xor_mapped_address) && w.saw_mapped
    then Parsed.ok (record w { duplicate_mapped = true })
    else if is_success && (attr_type == attr_xor_mapped_address)
    then with_mapped w (decode_mapped_address value)
    else if not is_success && (attr_type == attr_error_code) && not w.saw_error_code
    then Parsed.ok (record w { saw_error_code = true; error_code = decode_error_code value })
    else Parsed.ok w

-- The next round, unless the attribute ends the loop with an error.
abbrev pub bind_walk : Parsed Walk → (Walk → Parsed Walk) → Parsed Walk
bind_walk (Parsed.failure e) f = Parsed.failure e
bind_walk (Parsed.ok w) f = f w

-- The loop. Every round moves on by four bytes at least, so there are no more than the fuel.
pub walk_attributes : ℕ → Bool → List ℕ → ℕ → Walk → Parsed Walk
walk_attributes zero is_success datagram offset w = Parsed.ok w
walk_attributes (suc fuel) is_success datagram offset w =
    let remaining = length datagram - offset in
    let attr_type = read_u16 datagram offset in
    let attr_length = read_u16 datagram (offset + 2) in
    let padded = padded_size attr_length in
    let value = take attr_length (drop (offset + attr_header_size) datagram) in
    if not (ltb offset (length datagram))
    then Parsed.ok w
    else if ltb remaining attr_header_size
    then Parsed.failure StunParseError.attribute_truncated
    else if ltb (remaining - attr_header_size) padded
    then Parsed.failure StunParseError.attribute_truncated
    else bind_walk (take_attribute is_success attr_type value w)
        (walk_attributes fuel is_success datagram (offset + (attr_header_size + padded)))

abbrev pub has_endpoint : Option Endpoint → Bool
has_endpoint none = false
has_endpoint (some e) = true

-- The checks behind the loop.
unfoldable pub conclude : Bool → Parsed Walk → Parsed StunResponse
conclude is_success (Parsed.failure e) = Parsed.failure e
conclude is_success (Parsed.ok w) =
    let type =
      if is_success
      then StunMessageType.binding_success_response
      else StunMessageType.binding_error_response in
    if is_success && not (has_endpoint w.mapped)
    then Parsed.failure StunParseError.missing_mapped_address
    else if w.duplicate_mapped
    then Parsed.failure StunParseError.duplicate_mapped_address
    else Parsed.ok (record { type = type; mapped = w.mapped; error_code = w.error_code })

unfoldable pub parse_binding_response : List ℕ → List ℕ → Parsed StunResponse
parse_binding_response datagram expected =
    let raw_type = read_u16 datagram 0 in
    let is_success = raw_type == type_word StunMessageType.binding_success_response in
    let is_error = raw_type == type_word StunMessageType.binding_error_response in
    let declared = read_u16 datagram 2 in
    if ltb (length datagram) stun_header_size
    then Parsed.failure StunParseError.too_short
    else if not (has_stun_leading_bits datagram)
    then Parsed.failure StunParseError.not_stun
    else if not (has_stun_cookie datagram)
    then Parsed.failure StunParseError.bad_cookie
    else if not (bytes_eq (read_transaction_id datagram) expected)
    then Parsed.failure StunParseError.transaction_mismatch
    else if not is_success && not is_error
    then Parsed.failure StunParseError.unknown_type
    else if not (bit_and declared 0x03 == 0)
    then Parsed.failure StunParseError.length_not_aligned
    else if not (stun_header_size + declared == length datagram)
    then Parsed.failure StunParseError.length_mismatch
    else conclude is_success
        (walk_attributes (length datagram) is_success datagram stun_header_size new_walk)
