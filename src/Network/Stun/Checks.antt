-- ===== src/Network/Stun/Checks.antt =====
-- What a response that the parser accepts has passed, how the parser's loop ends, and what it makes
-- of a request.
use sangtachi.Prelude.{
  ℕ, zero, suc, ◌+◌, ◌%◌, ◌≤◌, ◌≡◌, refl, ap, ◌∙◌, ◌⊎◌, inl, inr, Bool, true, false, none, some,
  List, [], ◌∷◌, ◌++◌, length, take, drop, arith, ◌==◌, Bool-cases, Option-cases, bytes_eq_refl,
  bytes_eq-eq, take-length, append-nil, copy_to-middle, replicate, subst,
}
use sangtachi.Prelude.Bits.{bit_and-low_mask}
use sangtachi.Protocol.{stun_cookie}
use sangtachi.Tunnel.Wire.{read_u8, read_u16, read_u32, write_u16, write_u32}
use sangtachi.Network.Endpoint.{Endpoint}
use sangtachi.Network.Stun.{
  StunMessageType, StunParseError, Parsed, StunResponse, has_stun_leading_bits, has_stun_cookie,
  read_transaction_id, padded_size, Walk, new_walk, take_attribute, walk_attributes, conclude,
  parse_binding_response, peek_transaction_id, build_binding_request,
}
use sangtachi.Network.Stun.Response.{Parsed-cases}

-- An error response never takes an address.
take_attribute-rejected :
    (attr_type : ℕ) (value : List ℕ) (w next : Walk)
    → take_attribute false attr_type value w ≡ Parsed.ok next
    → next.mapped ≡ w.mapped
unfolding take_attribute
take_attribute-rejected attr_type value w next h = ground arith

walk_attributes-rejected :
    (fuel : ℕ) (datagram : List ℕ) (offset : ℕ) (w last : Walk)
    → walk_attributes fuel false datagram offset w ≡ Parsed.ok last
    → last.mapped ≡ w.mapped
unfolding walk_attributes
walk_attributes-rejected zero datagram offset w last h = ground arith
walk_attributes-rejected (suc fuel) datagram offset w last h =
    let size = read_u16 datagram (offset + 2) in
    let value = take size (drop (offset + 4) datagram) in
    elim (Parsed-cases (take_attribute false (read_u16 datagram offset) value w)) [
      | inl (x, e) ↦ ground (arith, e)
      | inr (next, e) ↦ ground (
        arith,
        take_attribute-rejected (read_u16 datagram offset) value w next,
        walk_attributes-rejected fuel datagram (offset + (4 + padded_size size)) next last,
      )
    ]

-- Fuel for the bytes that are left is enough: with more the loop does the same.
walk_attributes-fuel :
    (n m : ℕ) (is_success : Bool) (datagram : List ℕ) (offset : ℕ) (w : Walk)
    → length datagram ≤ offset + n
    → length datagram ≤ offset + m
    → walk_attributes n is_success datagram offset w
      ≡ walk_attributes m is_success datagram offset w
unfolding walk_attributes
walk_attributes-fuel zero zero is_success datagram offset w p q = refl
walk_attributes-fuel zero (suc m) is_success datagram offset w p q = ground arith
walk_attributes-fuel (suc n) zero is_success datagram offset w p q = ground arith
walk_attributes-fuel (suc n) (suc m) is_success datagram offset w p q =
    let size = read_u16 datagram (offset + 2) in
    let value = take size (drop (offset + 4) datagram) in
    elim (Parsed-cases (take_attribute is_success (read_u16 datagram offset) value w)) [
      | inl (x, e) ↦ ground (arith, e)
      | inr (next, e) ↦ ground (
        arith,
        walk_attributes-fuel n m is_success datagram (offset + (4 + padded_size size)) next
            (omega arith) (omega arith),
      )
    ]

-- The loop of the parser comes to its end on its fuel: however much more there is, it does the same.
pub walk_attributes_fuel :
    (extra : ℕ) (is_success : Bool) (datagram : List ℕ) (offset : ℕ) (w : Walk)
    → walk_attributes (length datagram + extra) is_success datagram offset w
      ≡ walk_attributes (length datagram) is_success datagram offset w
walk_attributes_fuel extra is_success datagram offset w =
    walk_attributes-fuel (length datagram + extra) (length datagram) is_success datagram offset w
      (omega arith) (omega arith)

-- What is known of an accepted response.
pub record Passes (datagram expected : List ℕ) (r : StunResponse) : Type 0 where
  pub whole : 20 ≤ length datagram
  pub cookie : read_u32 datagram 4 ≡ stun_cookie
  pub transaction : read_transaction_id datagram ≡ expected
  pub length_field : 20 + read_u16 datagram 2 ≡ length datagram
  pub aligned : length datagram % 4 ≡ 0
  pub content :
      ((read_u16 datagram 0 ≡ 0x0101)
        × (r.type ≡ StunMessageType.binding_success_response)
        × ((e : Endpoint) × (r.mapped ≡ some e)))
      ⊎ ((read_u16 datagram 0 ≡ 0x0111)
          × (r.type ≡ StunMessageType.binding_error_response)
          × (r.mapped ≡ none))

conclude-success_ok :
    (p : Parsed Walk) (r : StunResponse)
    → conclude true p ≡ Parsed.ok r
    → (r.type ≡ StunMessageType.binding_success_response) × ((e : Endpoint) × (r.mapped ≡ some e))
unfolding conclude
conclude-success_ok (Parsed.failure x) r h = ground (arith, h)
conclude-success_ok (Parsed.ok w) r h = elim (Option-cases w.mapped) [
  | inl e ↦ ground (arith, e)
  | inr (a, e) ↦ (ground (arith, e), (a, ground (arith, e)))
]

conclude-error_ok :
    (datagram : List ℕ) (r : StunResponse)
    → conclude false (walk_attributes (length datagram) false datagram 20 new_walk) ≡ Parsed.ok r
    → (r.type ≡ StunMessageType.binding_error_response) × (r.mapped ≡ none)
unfolding conclude
conclude-error_ok datagram r h =
    elim (Parsed-cases (walk_attributes (length datagram) false datagram 20 new_walk)) [
      | inl (x, e) ↦ ground (arith, e)
      | inr (w, e) ↦
          ground (arith, walk_attributes-rejected (length datagram) datagram 20 new_walk w)
    ]

-- A response that the parser accepts is a whole STUN message with the magic cookie and the
-- transaction id of the request, its length field is the number of bytes behind the header, and it
-- is a success response with an endpoint or an error response without one.
pub parse-Passes :
    (datagram expected : List ℕ) (r : StunResponse)
    → parse_binding_response datagram expected ≡ Parsed.ok r
    → Passes datagram expected r
unfolding parse_binding_response has_stun_cookie
parse-Passes datagram expected r h =
    let kind = read_u16 datagram 0 in
    let aligned : read_u16 datagram 2 % 4 ≡ 0 =
      ground (arith, bit_and-low_mask 2 (read_u16 datagram 2)) in
    let size : 20 + read_u16 datagram 2 ≡ length datagram = ground arith in
    record {
      whole = ground arith;
      cookie = ground arith;
      transaction = bytes_eq-eq (read_transaction_id datagram) expected (ground arith);
      length_field = size;
      aligned = omega (arith, aligned, size);
      content = elim (Bool-cases (kind == 0x0101)) [
        | inl e ↦
            (let done =
                conclude-success_ok (walk_attributes (length datagram) true datagram 20 new_walk) r
                  (ground (arith, e)) in
              inl (ground arith, done.0, done.1))
        | inr e ↦
            (let done = conclude-error_ok datagram r (ground (arith, e)) in
              inr (ground arith, done.0, done.1))
      ];
    }

build_binding_request-eq :
    (id : List ℕ)
    → length id ≡ 12
    → build_binding_request id ≡ 0 ∷ 1 ∷ 0 ∷ 0 ∷ 33 ∷ 18 ∷ 164 ∷ 66 ∷ id
unfolding build_binding_request write_u16 write_u32
build_binding_request-eq id h =
    let whole : take 12 id ≡ id = subst (λ k. take k id ≡ id) h (take-length id) in
    rw whole (
      copy_to-middle id (replicate 12 0) (0 ∷ 1 ∷ 0 ∷ 0 ∷ 33 ∷ 18 ∷ 164 ∷ 66 ∷ []) [] h
      ∙ ap (◌++◌ (0 ∷ 1 ∷ 0 ∷ 0 ∷ 33 ∷ 18 ∷ 164 ∷ 66 ∷ [])) (append-nil id))

-- A request that the client builds bears its transaction id where `peek_transaction_id` finds it,
-- and the parser, if the request comes back, does not take it for a response.
pub peek-build :
    (id : List ℕ)
    → length id ≡ 12
    → (peek_transaction_id (build_binding_request id) ≡ some id)
      × (length (build_binding_request id) ≡ 20)
      × (parse_binding_response (build_binding_request id) id
          ≡ Parsed.failure StunParseError.unknown_type)
unfolding peek_transaction_id parse_binding_response has_stun_leading_bits has_stun_cookie
    read_transaction_id read_u8 read_u16 read_u32
peek-build id h =
    let whole : take 12 id ≡ id = subst (λ k. take k id ≡ id) h (take-length id) in
    rw (build_binding_request-eq id h, whole, bytes_eq_refl id)
      (ground (arith, whole, bytes_eq_refl id))
