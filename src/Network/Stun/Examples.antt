-- ===== src/Network/Stun/Examples.antt =====
-- Tests of the STUN messages, and the theorems at concrete messages.
use sangtachi.Prelude.{ℕ, ◌+◌, ◌≡◌, refl, true, List, [], ◌∷◌, All, length, replicate, arith}
use sangtachi.Tunnel.Wire.{read_u8, read_u16, read_u32}
use sangtachi.Network.Endpoint.{Endpoint}
use sangtachi.Network.Stun.{
  StunMessageType, Parsed, new_walk, has_stun_leading_bits, has_stun_cookie, read_transaction_id,
  decode_mapped_address, take_attribute, walk_attributes, conclude, parse_binding_response,
  padded_size,
}
use sangtachi.Network.Stun.Attributes.{Attribute, IsAttribute, encode_attributes}
use sangtachi.Network.Stun.Response.{
  encode_message, encode_mapped, mapped_to, judge_mapped, values_of, parse-encode_success,
  parse-mapped,
}
use sangtachi.Network.Stun.Checks.{walk_attributes_fuel, Passes, parse-Passes}

abbrev id : List ℕ
id = replicate 12 7

abbrev home : Endpoint
home = record { address = 0xc0000201; port = 40000 }

-- A software name of one byte, and a mapped address.
abbrev answer : List Attribute
answer =
    record { type = 0x8022; value = 65 ∷ []; padding = 0 ∷ 0 ∷ 0 ∷ [] }
    ∷ record { type = 0x0020; value = encode_mapped home; padding = [] }
    ∷ []

answer-IsAttribute : All IsAttribute answer
answer-IsAttribute = ground arith

-- Twice the address.
abbrev doubled : List Attribute
doubled = record { type = 0x0020; value = encode_mapped home; padding = [] } ∷ answer

abbrev refusal : List Attribute
refusal = record { type = 0x0009; value = 0 ∷ 0 ∷ 4 ∷ 1 ∷ []; padding = [] } ∷ answer

answer_bytes :
    parse_binding_response
      (0x01 ∷ 0x01 ∷ 0 ∷ 12 ∷ 0x21 ∷ 0x12 ∷ 0xa4 ∷ 0x42 ∷ 7 ∷ 7 ∷ 7 ∷ 7 ∷ 7 ∷ 7 ∷ 7 ∷ 7 ∷ 7 ∷ 7 ∷ 7
        ∷ 7 ∷ 0 ∷ 0x20 ∷ 0 ∷ 8 ∷ 0 ∷ 1 ∷ 0xbd ∷ 0x52 ∷ 0xe1 ∷ 0x12 ∷ 0xa6 ∷ 0x43 ∷ [])
      id
    ≡ Parsed.ok (mapped_to home)
unfolding parse_binding_response has_stun_leading_bits has_stun_cookie read_transaction_id read_u8
    read_u16 read_u32 padded_size take_attribute decode_mapped_address walk_attributes conclude
answer_bytes = refl

parse-encode_success_example :
    parse_binding_response (encode_message StunMessageType.binding_success_response id doubled) id
    ≡ judge_mapped (values_of 0x0020 doubled)
parse-encode_success_example = parse-encode_success id doubled refl (ground arith) (omega arith)

parse-mapped_example :
    parse_binding_response (encode_message StunMessageType.binding_success_response id answer) id
    ≡ Parsed.ok (mapped_to home)
parse-mapped_example =
    parse-mapped id answer home refl answer-IsAttribute (omega arith) (omega arith) (omega arith)
      refl

parse-Passes_example :
    Passes (encode_message StunMessageType.binding_success_response id answer) id (mapped_to home)
parse-Passes_example =
    parse-Passes (encode_message StunMessageType.binding_success_response id answer) id
      (mapped_to home) parse-mapped_example

walk_attributes_fuel_example :
    walk_attributes
      (length (encode_attributes answer) + 3)
      true
      (encode_attributes answer)
      0
      new_walk
    ≡ walk_attributes (length (encode_attributes answer)) true (encode_attributes answer) 0 new_walk
walk_attributes_fuel_example = walk_attributes_fuel 3 true (encode_attributes answer) 0 new_walk
