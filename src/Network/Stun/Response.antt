-- ===== src/Network/Stun/Response.antt =====
-- What the parser makes of a whole binding response, written down independently of it, and of a
-- request.
use sangtachi.Prelude.{
  ℕ, ◌%◌, ◌<◌, ◌≡◌, refl, ap, subst, ◌∙◌, ◌⊎◌, inl, inr, Bool, true, false, Option, none, some,
  List, [], ◌∷◌, ◌++◌, All, length, take, length-append, take-append, arith, ◌==◌, if◌then◌else◌,
  bit_xor, bytes_eq_refl,
}
use sangtachi.Prelude.Bits.{bit_and-low_mask}
use sangtachi.Prelude.Xor.{bit_xor-lt, bit_xor_cancel}
use sangtachi.Protocol.{stun_cookie}
use sangtachi.Tunnel.Wire.{read_u8, read_u16, read_u32, split16, split32, bytes32}
use sangtachi.Network.Endpoint.{Endpoint}
use sangtachi.Network.Stun.{
  StunMessageType, type_word, StunParseError, Parsed, StunResponse, has_stun_leading_bits,
  has_stun_cookie, read_transaction_id, decode_mapped_address, decode_error_code, Walk, new_walk,
  take_attribute, walk_attributes, conclude, parse_binding_response,
}
use sangtachi.Network.Stun.Attributes.{
  Attribute, IsAttribute, bytes16, encode_attributes, take_attributes, walk_attributes-encode,
}

-- A message with a length field that fits its attributes.
abbrev pub message_header : StunMessageType → List ℕ → ℕ → List ℕ
message_header type id size = bytes16 (type_word type) (bytes16 size (bytes32 stun_cookie id))

abbrev pub encode_message : StunMessageType → List ℕ → List Attribute → List ℕ
encode_message type id attrs =
    message_header type id (length (encode_attributes attrs)) ++ encode_attributes attrs

-- The values of the attributes of one type, in their order.
abbrev pub values_of : ℕ → List Attribute → List (List ℕ)
values_of type [] = []
values_of type (a ∷ attrs) =
    let rest = values_of type attrs in if a.type == type then a.value ∷ rest else rest

abbrev pub mapped_to : Endpoint → StunResponse
mapped_to e = record {
  type = StunMessageType.binding_success_response;
  mapped = some e;
  error_code = none;
}

abbrev pub single_mapping : Parsed Endpoint → List (List ℕ) → Parsed StunResponse
single_mapping (Parsed.failure e) values = Parsed.failure e
single_mapping (Parsed.ok endpoint) [] = Parsed.ok (mapped_to endpoint)
single_mapping (Parsed.ok endpoint) (v ∷ values) =
    Parsed.failure StunParseError.duplicate_mapped_address

-- The judgement of a success response by the values of its mapped addresses.
abbrev pub judge_mapped : List (List ℕ) → Parsed StunResponse
judge_mapped [] = Parsed.failure StunParseError.missing_mapped_address
judge_mapped (v ∷ values) = single_mapping (decode_mapped_address v) values

-- The code of an error response by the values of its error codes.
abbrev pub first_code : List (List ℕ) → Option ℕ
first_code [] = none
first_code (v ∷ values) = decode_error_code v

abbrev pub rejected_with : Option ℕ → StunResponse
rejected_with code = record {
  type = StunMessageType.binding_error_response;
  mapped = none;
  error_code = code;
}

abbrev mapped_walk : Endpoint → Bool → Walk
mapped_walk e duplicate = record new_walk {
  saw_mapped = true;
  duplicate_mapped = duplicate;
  mapped = some e;
}

pub Parsed-cases {ℓ} :
    {A : Type ℓ} (p : Parsed A)
    → ((e : StunParseError) × (p ≡ Parsed.failure e)) ⊎ ((a : A) × (p ≡ Parsed.ok a))
Parsed-cases (Parsed.failure e) = inl (e, refl)
Parsed-cases (Parsed.ok a) = inr (a, refl)

conclude-duplicate :
    (e : Endpoint) (attrs : List Attribute)
    → conclude true (take_attributes true attrs (mapped_walk e true))
      ≡ Parsed.failure StunParseError.duplicate_mapped_address
unfolding conclude take_attribute
conclude-duplicate e [] = refl
conclude-duplicate e (a ∷ attrs) = ground (arith, conclude-duplicate e attrs)

conclude-mapped :
    (e : Endpoint) (attrs : List Attribute)
    → conclude true (take_attributes true attrs (mapped_walk e false))
      ≡ single_mapping (Parsed.ok e) (values_of 0x0020 attrs)
unfolding conclude take_attribute
conclude-mapped e [] = refl
conclude-mapped e (a ∷ attrs) = ground (arith, conclude-mapped e attrs, conclude-duplicate e attrs)

conclude-success :
    (attrs : List Attribute)
    → conclude true (take_attributes true attrs new_walk) ≡ judge_mapped (values_of 0x0020 attrs)
unfolding conclude take_attribute
conclude-success [] = refl
conclude-success (a ∷ attrs) = elim (Parsed-cases (decode_mapped_address a.value)) [
  | inl (x, h) ↦ ground (arith, conclude-success attrs)
  | inr (e, h) ↦ ground (arith, conclude-success attrs, conclude-mapped e attrs)
]

abbrev code_walk : Option ℕ → Walk
code_walk code = record new_walk { saw_error_code = true; error_code = code }

encode_attributes-aligned :
    (attrs : List Attribute) → All IsAttribute attrs → length (encode_attributes attrs) % 4 ≡ 0
encode_attributes-aligned [] h = refl
encode_attributes-aligned (a ∷ attrs) h = omega (
  arith,
  h.0,
  encode_attributes-aligned attrs h.1,
  length-append a.value (a.padding ++ encode_attributes attrs),
  length-append a.padding (encode_attributes attrs),
)

read_transaction_id-message :
    (type : StunMessageType) (id : List ℕ) (size : ℕ) (rest : List ℕ)
    → length id ≡ 12
    → read_transaction_id (message_header type id size ++ rest) ≡ id
unfolding read_transaction_id
read_transaction_id-message type id size rest h =
    subst (λ k. take k (id ++ rest) ≡ id) h (take-append id rest)

-- The length field of a message.
read_length :
    (type : StunMessageType) (id : List ℕ) (size : ℕ) (rest : List ℕ)
    → size < 65536
    → read_u16 (message_header type id size ++ rest) 2 ≡ size
unfolding read_u16 read_u8
read_length type id size rest h = split16 size h

walk-message :
    (type : StunMessageType) (is_success : Bool) (id : List ℕ) (attrs : List Attribute)
    → length id ≡ 12
    → All IsAttribute attrs
    → walk_attributes
        (length (encode_message type id attrs))
        is_success
        (encode_message type id attrs)
        20
        new_walk
      ≡ take_attributes is_success attrs new_walk
walk-message type is_success id attrs n h =
    let size = length (encode_attributes attrs) in
    ap
      (λ k.
        walk_attributes (length (encode_message type id attrs)) is_success
          (encode_message type id attrs) k new_walk)
      {x = 20} {y = length (message_header type id size)} (omega arith)
    ∙ walk_attributes-encode (length (encode_message type id attrs)) is_success
        (message_header type id size) attrs new_walk h
        (omega (arith, length-append (message_header type id size) (encode_attributes attrs)))

abbrev response_type : Bool → StunMessageType
response_type true = StunMessageType.binding_success_response
response_type false = StunMessageType.binding_error_response

-- A well-formed response passes the checks in front of the loop.
parse-message :
    (is_success : Bool) (id : List ℕ) (attrs : List Attribute)
    → length id ≡ 12
    → All IsAttribute attrs
    → length (encode_attributes attrs) < 65536
    → parse_binding_response (encode_message (response_type is_success) id attrs) id
      ≡ conclude is_success (take_attributes is_success attrs new_walk)
unfolding parse_binding_response has_stun_leading_bits has_stun_cookie read_u8 read_u16 read_u32
parse-message true id attrs n h l =
    let type = StunMessageType.binding_success_response in
    rw
      (
        read_transaction_id-message type id (length (encode_attributes attrs))
            (encode_attributes attrs) n,
        bytes_eq_refl id,
        split16 (length (encode_attributes attrs)) l,
        walk-message type true id attrs n h,
      )
      (ground (
        arith,
        length-append id (encode_attributes attrs),
        encode_attributes-aligned attrs h,
        bit_and-low_mask 2 (length (encode_attributes attrs)),
      ))
parse-message false id attrs n h l =
    let type = StunMessageType.binding_error_response in
    rw
      (
        read_transaction_id-message type id (length (encode_attributes attrs))
            (encode_attributes attrs) n,
        bytes_eq_refl id,
        split16 (length (encode_attributes attrs)) l,
        walk-message type false id attrs n h,
      )
      (ground (
        arith,
        length-append id (encode_attributes attrs),
        encode_attributes-aligned attrs h,
        bit_and-low_mask 2 (length (encode_attributes attrs)),
      ))

-- Every binding success response that is made up of attributes, and whose length field fits them,
-- is judged by the values of its mapped addresses alone: without one the address is missing, a
-- first one that cannot be decoded is the error, two or more are a duplicate, and otherwise the
-- response has the endpoint.
pub parse-encode_success :
    (id : List ℕ) (attrs : List Attribute)
    → length id ≡ 12
    → All IsAttribute attrs
    → length (encode_attributes attrs) < 65536
    → parse_binding_response (encode_message StunMessageType.binding_success_response id attrs) id
      ≡ judge_mapped (values_of 0x0020 attrs)
parse-encode_success id attrs n h l = parse-message true id attrs n h l ∙ conclude-success attrs

-- The value of a mapped address, as a server writes it.
abbrev pub encode_mapped : Endpoint → List ℕ
encode_mapped e =
    0 ∷ 1 ∷ bytes16 (bit_xor e.port 0x2112) (bytes32 (bit_xor e.address stun_cookie) [])

-- An endpoint is read back from the value that a server writes for it.
pub decode-encode_mapped :
    (e : Endpoint)
    → e.address < 0x1_0000_0000
    → e.port < 65536
    → decode_mapped_address (encode_mapped e) ≡ Parsed.ok e
unfolding decode_mapped_address read_u8 read_u16 read_u32
decode-encode_mapped e ha hp = ground (
  arith,
  split32 (bit_xor e.address stun_cookie) (bit_xor-lt 32 e.address stun_cookie ha (omega arith)),
  split16 (bit_xor e.port 0x2112) (bit_xor-lt 16 e.port 0x2112 hp (omega arith)),
  bit_xor_cancel 32 e.address stun_cookie ha (omega arith),
  bit_xor_cancel 16 e.port 0x2112 hp (omega arith),
)

-- A success response with exactly one mapped address, of the form that a server writes for an
-- endpoint, gives the client that endpoint, whatever else it holds and in whatever order.
pub parse-mapped :
    (id : List ℕ) (attrs : List Attribute) (e : Endpoint)
    → length id ≡ 12
    → All IsAttribute attrs
    → length (encode_attributes attrs) < 65536
    → e.address < 0x1_0000_0000
    → e.port < 65536
    → values_of 0x0020 attrs ≡ encode_mapped e ∷ []
    → parse_binding_response (encode_message StunMessageType.binding_success_response id attrs) id
      ≡ Parsed.ok (mapped_to e)
parse-mapped id attrs e n h l ha hp one =
    parse-encode_success id attrs n h l ∙ rw one (rw (decode-encode_mapped e ha hp) refl)
