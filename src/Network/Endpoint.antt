-- ===== src/Network/Endpoint.antt =====
-- client/src/network/endpoint.cpp and client/include/sangtachi/network/endpoint.hpp: IPv4 endpoints
-- and their text form. Text is a list of character codes.
use sangtachi.Prelude.{
  ℕ, zero, suc, ◌+◌, ◌-◌, ◌*◌, Bool, not, ◌&&◌, ◌||◌, Option, none, some, List, [], ◌∷◌, ltb, leb,
  ◌==◌, if◌then◌else◌, length, take, drop, get_or, bit_or,
}
use sangtachi.Prelude.Bits.{◌<<<◌, u32}

pub record Endpoint : Type 0 where
  pub address : ℕ
  pub port : ℕ

-- The defaulted `operator==`.
abbrev pub endpoint_eq : Endpoint → Endpoint → Bool
endpoint_eq a b = (a.address == b.address) && (a.port == b.port)

unfoldable pub is_ascii_digit : ℕ → Bool
is_ascii_digit c = leb b'0' c && leb c b'9'

-- `value * 10 + digit` over the characters; `none` at the first that is no digit. The texts have
-- at most five characters, so no step wraps.
abbrev pub digits_value : ℕ → List ℕ → Option ℕ
digits_value value [] = some value
digits_value value (c ∷ text) =
    let rest = digits_value (value * 10 + (c - b'0')) text in
    if not (is_ascii_digit c) then none else rest

abbrev pub at_most : ℕ → Option ℕ → Option ℕ
at_most limit none = none
at_most limit (some value) = if ltb limit value then none else some value

pub parse_octet : List ℕ → Option ℕ
parse_octet text =
    if (length text == 0) || ltb 3 (length text)
    then none
    else if ltb 1 (length text) && (get_or text 0 0 == b'0')
    then none
    else at_most 255 (digits_value 0 text)

-- `text.find(c, start)`, as the distance from `start`, of the text that is left there.
abbrev pub find : ℕ → List ℕ → Option ℕ
find c [] = none
find c (x ∷ text) =
    let rest = find c text in
    if x == c then some 0 else elim rest [ none ↦ none | some n ↦ some (suc n) ]

abbrev pub join_octet : ℕ → Option ℕ → Option ℕ
join_octet address none = none
join_octet address (some value) = some (bit_or (u32 (address <<< 8)) value)

-- The loop over the octets: `left` more follow the one at hand, and `text` begins with it.
pub parse_octets : ℕ → ℕ → List ℕ → Option ℕ
unfolding parse_octet
parse_octets zero address text = elim (find b'.' text) [
  | none ↦ join_octet address (parse_octet text)
  | some dot ↦ none
]
parse_octets (suc left) address text = elim (find b'.' text) [
  | none ↦ none
  | some dot ↦ elim (join_octet address (parse_octet (take dot text))) [
    | none ↦ none
    | some joined ↦ parse_octets left joined (drop (suc dot) text)
  ]
]

pub parse_ipv4 : List ℕ → Option ℕ
parse_ipv4 text = parse_octets 3 0 text

pub parse_port : List ℕ → Option ℕ
parse_port text =
    if (length text == 0) || ltb 5 (length text)
    then none
    else if ltb 1 (length text) && (get_or text 0 0 == b'0')
    then none
    else at_most 65535 (digits_value 0 text)

abbrev pub join_endpoint : Option ℕ → Option ℕ → Option Endpoint
join_endpoint none port = none
join_endpoint (some address) none = none
join_endpoint (some address) (some port) = some (record { address = address; port = port })

-- `Endpoint::parse`.
pub parse : List ℕ → Option Endpoint
parse text = elim (find b':' text) [
  | none ↦ none
  | some colon ↦ join_endpoint (parse_ipv4 (take colon text)) (parse_port (drop (suc colon) text))
]
