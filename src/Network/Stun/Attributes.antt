-- ===== src/Network/Stun/Attributes.antt =====
-- The loop over the attributes of a STUN message, on messages that are written down attribute by
-- attribute, and its fuel.
use sangtachi.Prelude.{
  ℕ, zero, suc, ◌+◌, ◌*◌, ◌/◌, ◌<◌, ◌≤◌, ◌≡◌, refl, sym, ap, ◌∙◌, Bool, List, [], ◌∷◌, ◌++◌, All,
  length, take, drop, get_or, length-append, append_assoc, append-nil, take-append, get_or-append,
  arith,
}
use sangtachi.Prelude.Bits.{◌>>>◌, u8, bit_and-shift, bit_and-low_mask}
use sangtachi.Tunnel.Wire.{read_u8, read_u16, split16}
use sangtachi.Network.Stun.{Parsed, Walk, padded_size, take_attribute, bind_walk, walk_attributes}

-- `~3` clears the two low bits.
pub padded_size_lem : (n : ℕ) → n < 65536 → padded_size n ≡ (n + 3) / 4 * 4
unfolding padded_size
padded_size_lem n h =
    omega
      (arith, bit_and-shift 2 (n + 3) 0x3fff_ffff_ffff_ffff, bit_and-low_mask 62 ((n + 3) >>> 2))

-- An attribute as it stands in a message: its type, its value, and the bytes up to the next word.
pub record Attribute : Type 0 where
  pub type : ℕ
  pub value : List ℕ
  pub padding : List ℕ

abbrev pub IsAttribute : Attribute → Type 0
IsAttribute a =
    (a.type < 65536)
    × (length a.value < 65536)
    × (length a.value + length a.padding ≡ (length a.value + 3) / 4 * 4)

-- A 16-bit word in front of other bytes.
abbrev pub bytes16 : ℕ → List ℕ → List ℕ
bytes16 v rest = u8 (v >>> 8) ∷ u8 v ∷ rest

abbrev pub encode_attribute : Attribute → List ℕ → List ℕ
encode_attribute a rest = bytes16 a.type (bytes16 (length a.value) (a.value ++ (a.padding ++ rest)))

abbrev pub encode_attributes : List Attribute → List ℕ
encode_attributes [] = []
encode_attributes (a ∷ attrs) = encode_attribute a (encode_attributes attrs)

-- The attributes taken one after the other.
abbrev pub take_attributes : Bool → List Attribute → Walk → Parsed Walk
take_attributes is_success [] w = Parsed.ok w
take_attributes is_success (a ∷ attrs) w =
    bind_walk (take_attribute is_success a.type a.value w) (take_attributes is_success attrs)

drop-append_more : (xs ys : List ℕ) (k : ℕ) → drop (length xs + k) (xs ++ ys) ≡ drop k ys
drop-append_more [] ys k = ap (λ n. drop n ys) {x = 0 + k} {y = k} (omega arith)
drop-append_more (x ∷ xs) ys k =
    ap (λ n. drop n (x ∷ (xs ++ ys))) {x = suc (length xs) + k} {y = suc (length xs + k)}
      (omega arith)
    ∙ drop-append_more xs ys k

read_u16-append :
    (pre : List ℕ) (v : ℕ) (post : List ℕ)
    → v < 65536
    → read_u16 (pre ++ bytes16 v post) (length pre) ≡ v
unfolding read_u16 read_u8
read_u16-append pre v post h = ground (
  arith,
  split16 v h,
  get_or-append pre (bytes16 v post) 0 0,
  get_or-append pre (bytes16 v post) 1 0,
  ap (λ k. get_or (pre ++ bytes16 v post) k 0) {x = length pre + 0} {y = length pre} (omega arith),
)

read_u16-append_behind :
    (pre : List ℕ) (x y v : ℕ) (post : List ℕ)
    → v < 65536
    → read_u16 (pre ++ (x ∷ y ∷ bytes16 v post)) (length pre + 2) ≡ v
unfolding read_u16 read_u8
read_u16-append_behind pre x y v post h = ground (
  arith,
  split16 v h,
  get_or-append pre (x ∷ y ∷ bytes16 v post) 2 0,
  get_or-append pre (x ∷ y ∷ bytes16 v post) 3 0,
  ap (λ k. get_or (pre ++ (x ∷ y ∷ bytes16 v post)) k 0) {x = length pre + 2 + 1}
      {y = length pre + 3} (omega arith),
)

attribute_split :
    (a : Attribute) (rest : List ℕ) → encode_attribute a rest ≡ encode_attribute a [] ++ rest
attribute_split a rest =
    ap (λ t. bytes16 a.type (bytes16 (length a.value) t))
      (sym (append_assoc a.value a.padding rest)
        ∙ ap (λ t. (a.value ++ t) ++ rest) (sym (append-nil a.padding)))

-- One round of the loop takes the attribute that begins at the offset.
walk_attributes-step :
    (fuel : ℕ) (is_success : Bool) (pre : List ℕ) (a : Attribute) (rest : List ℕ) (w : Walk)
    → IsAttribute a
    → walk_attributes (suc fuel) is_success (pre ++ encode_attribute a rest) (length pre) w
      ≡ bind_walk (take_attribute is_success a.type a.value w) (
          walk_attributes fuel is_success
            ((pre ++ encode_attribute a []) ++ rest)
            (length (pre ++ encode_attribute a [])))
unfolding walk_attributes
walk_attributes-step fuel is_success pre a rest w h =
    let whole = pre ++ encode_attribute a rest in
    let value_at = length pre + 4 in
    let kind : read_u16 whole (length pre) ≡ a.type =
      read_u16-append pre a.type (bytes16 (length a.value) (a.value ++ (a.padding ++ rest))) h.0 in
    let size : read_u16 whole (length pre + 2) ≡ length a.value =
      read_u16-append_behind pre (u8 (a.type >>> 8)) (u8 a.type) (length a.value)
        (a.value ++ (a.padding ++ rest)) h.1 in
    let padded : padded_size (length a.value) ≡ length a.value + length a.padding =
      padded_size_lem (length a.value) h.1 ∙ sym h.2 in
    let value : take (length a.value) (drop value_at whole) ≡ a.value =
      ap (take (length a.value)) (drop-append_more pre (encode_attribute a rest) 4)
      ∙ take-append a.value (a.padding ++ rest) in
    let total : length whole
        ≡ length pre + (4 + (length a.value + (length a.padding + length rest))) =
      omega (
        arith,
        length-append pre (encode_attribute a rest),
        length-append a.value (a.padding ++ rest),
        length-append a.padding rest,
      ) in
    let moved : length (pre ++ encode_attribute a [])
        ≡ length pre + (4 + (length a.value + length a.padding)) =
      omega (
        arith,
        length-append pre (encode_attribute a []),
        length-append a.value (a.padding ++ []),
        length-append a.padding [],
      ) in
    let same : whole ≡ (pre ++ encode_attribute a []) ++ rest =
      ap (◌++◌ pre) (attribute_split a rest)
      ∙ sym (append_assoc pre (encode_attribute a []) rest) in
    let next_at : length pre + (4 + padded_size (read_u16 whole (length pre + 2)))
        ≡ length pre + (4 + (length a.value + length a.padding)) =
      omega (arith, ap padded_size size, padded) in
    rw (kind, size, padded, value, total, moved, sym same) (ground (arith, next_at))

walk_attributes-end :
    (fuel : ℕ) (is_success : Bool) (datagram : List ℕ) (offset : ℕ) (w : Walk)
    → length datagram ≤ offset
    → walk_attributes fuel is_success datagram offset w ≡ Parsed.ok w
unfolding walk_attributes
walk_attributes-end zero is_success datagram offset w h = refl
walk_attributes-end (suc fuel) is_success datagram offset w h = ground arith

pub walk_attributes-encode :
    (fuel : ℕ) (is_success : Bool) (pre : List ℕ) (attrs : List Attribute) (w : Walk)
    → All IsAttribute attrs
    → length (encode_attributes attrs) ≤ fuel
    → walk_attributes fuel is_success (pre ++ encode_attributes attrs) (length pre) w
      ≡ take_attributes is_success attrs w
unfolding walk_attributes
walk_attributes-encode fuel is_success pre [] w h l =
    walk_attributes-end fuel is_success (pre ++ []) (length pre) w
      (omega (arith, length-append pre []))
walk_attributes-encode zero is_success pre (a ∷ attrs) w h l = absurd (omega arith)
walk_attributes-encode (suc fuel) is_success pre (a ∷ attrs) w h l =
    walk_attributes-step fuel is_success pre a (encode_attributes attrs) w h.0
    ∙ ap (bind_walk (take_attribute is_success a.type a.value w))
        {x = walk_attributes fuel is_success
          ((pre ++ encode_attribute a []) ++ encode_attributes attrs)
          (length (pre ++ encode_attribute a []))}
        {y = take_attributes is_success attrs}
        (λ i v.
          walk_attributes-encode fuel is_success (pre ++ encode_attribute a []) attrs v h.1
            (omega (
              arith,
              length-append a.value (a.padding ++ encode_attributes attrs),
              length-append a.padding (encode_attributes attrs),
            ))
            i)
