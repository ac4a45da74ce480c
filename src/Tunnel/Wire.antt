-- ===== src/Tunnel/Wire.antt =====
-- The byte order helpers of client/src/tunnel/packet.cpp and client/src/network/stun.cpp: a span of
-- bytes is a list of numbers below 256. A read past the end gives 0 and a write past the end changes
-- nothing here; the callers check the length first.
use sangtachi.Prelude.{
  ℕ, ◌+◌, ◌*◌, ◌%◌, ◌<◌, ◌≡◌, refl, ap, ap₂, ◌∙◌, bit_or, List, [], ◌∷◌, ◌++◌, length, get_or, set,
  copy_to, copy_to-middle, get_or-append, arith,
}
use sangtachi.Prelude.Bits.{◌<<<◌, ◌>>>◌, u8, u16, bit_or_fields}

abbrev pub IsByte : ℕ → Type 0
IsByte b = b < 256

unfoldable pub read_u8 : List ℕ → ℕ → ℕ
read_u8 bytes offset = get_or bytes offset 0

unfoldable pub read_u16 : List ℕ → ℕ → ℕ
unfolding read_u8
read_u16 bytes offset = u16 (bit_or (read_u8 bytes offset <<< 8) (read_u8 bytes (offset + 1)))

unfoldable pub read_u32 : List ℕ → ℕ → ℕ
unfolding read_u8
read_u32 bytes offset =
    bit_or
      (bit_or (bit_or (read_u8 bytes offset <<< 24) (read_u8 bytes (offset + 1) <<< 16))
        (read_u8 bytes (offset + 2) <<< 8))
      (read_u8 bytes (offset + 3))

unfoldable pub read_u64 : List ℕ → ℕ → ℕ
unfolding read_u32
read_u64 bytes offset = bit_or (read_u32 bytes offset <<< 32) (read_u32 bytes (offset + 4))

unfoldable pub write_u8 : List ℕ → ℕ → ℕ → List ℕ
write_u8 bytes offset value = set bytes offset value

unfoldable pub write_u16 : List ℕ → ℕ → ℕ → List ℕ
write_u16 bytes offset value = set (set bytes offset (u8 (value >>> 8))) (offset + 1) (u8 value)

unfoldable pub write_u32 : List ℕ → ℕ → ℕ → List ℕ
write_u32 bytes offset value =
    set
      (set (set (set bytes offset (u8 (value >>> 24))) (offset + 1) (u8 (value >>> 16)))
        (offset + 2) (u8 (value >>> 8)))
      (offset + 3) (u8 value)

unfoldable pub write_u64 : List ℕ → ℕ → ℕ → List ℕ
unfolding write_u32
write_u64 bytes offset value =
    write_u32 (write_u32 bytes offset (value >>> 32)) (offset + 4) (value % 0x1_0000_0000)

-- Four bytes in big-endian order make up their sum.
pub join32 :
    (a b c d : ℕ)
    → IsByte b
    → IsByte c
    → IsByte d
    → bit_or (bit_or (bit_or (a <<< 24) (b <<< 16)) (c <<< 8)) d
      ≡ a * 0x100_0000 + b * 0x1_0000 + c * 0x100 + d
join32 a b c d p q r =
    ap (λ t. bit_or (bit_or t (c <<< 8)) d) (bit_or_fields 24 a (b <<< 16) (omega arith))
    ∙ ap (λ t. bit_or (bit_or t (c <<< 8)) d) {x = a <<< 24 + b <<< 16} {y = (a * 256 + b) <<< 16}
        (omega arith)
    ∙ ap (λ t. bit_or t d) (bit_or_fields 16 (a * 256 + b) (c <<< 8) (omega arith))
    ∙ ap (λ t. bit_or t d) {x = (a * 256 + b) <<< 16 + c <<< 8}
        {y = (a * 65536 + b * 256 + c) <<< 8} (omega arith)
    ∙ bit_or_fields 8 (a * 65536 + b * 256 + c) d r
    ∙ omega arith

pub join16 : (a b : ℕ) → IsByte a → IsByte b → u16 (bit_or (a <<< 8) b) ≡ a * 256 + b
join16 a b p q = omega (arith, bit_or_fields 8 a b q)

pub join64 : (a b : ℕ) → b < 0x1_0000_0000 → bit_or (a <<< 32) b ≡ a * 0x1_0000_0000 + b
join64 a b p = bit_or_fields 32 a b p

-- What a write puts down, a read at the same place gives back.
pub split32 :
    (v : ℕ)
    → v < 0x1_0000_0000
    → bit_or
        (bit_or (bit_or (u8 (v >>> 24) <<< 24) (u8 (v >>> 16) <<< 16)) (u8 (v >>> 8) <<< 8))
        (u8 v)
      ≡ v
split32 v h =
    join32 (u8 (v >>> 24)) (u8 (v >>> 16)) (u8 (v >>> 8)) (u8 v) (omega arith) (omega arith)
      (omega arith)
    ∙ omega arith

pub split16 : (v : ℕ) → v < 65536 → u16 (bit_or (u8 (v >>> 8) <<< 8) (u8 v)) ≡ v
split16 v h = join16 (u8 (v >>> 8)) (u8 v) (omega arith) (omega arith) ∙ omega arith

pub split64 :
    (v : ℕ) → v < 0x1_0000_0000_0000_0000 → bit_or ((v >>> 32) <<< 32) (v % 0x1_0000_0000) ≡ v
split64 v h = join64 (v >>> 32) (v % 0x1_0000_0000) (omega arith) ∙ omega arith

-- A word as four bytes in front of others.
abbrev pub bytes32 : ℕ → List ℕ → List ℕ
bytes32 v rest = u8 (v >>> 24) ∷ u8 (v >>> 16) ∷ u8 (v >>> 8) ∷ u8 v ∷ rest

write_u32-eq-copy_to :
    (out : List ℕ) (offset v : ℕ) → write_u32 out offset v ≡ copy_to out offset (bytes32 v [])
unfolding write_u32
write_u32-eq-copy_to out offset v =
    ap₂
      (λ i j.
        set
          (set (set (set out offset (u8 (v >>> 24))) (offset + 1) (u8 (v >>> 16))) i (u8 (v >>> 8)))
          j (u8 v))
      {x = offset + 2} {y = offset + 1 + 1} {u = offset + 3} {v = offset + 1 + 1 + 1} (omega arith)
      (omega arith)

-- A write after a prefix of known length puts the four bytes in the place of four others.
pub write_u32-append :
    (pre : List ℕ) (a b c d v : ℕ) (post : List ℕ)
    → write_u32 (pre ++ (a ∷ b ∷ c ∷ d ∷ post)) (length pre) v ≡ pre ++ bytes32 v post
write_u32-append pre a b c d v post =
    write_u32-eq-copy_to (pre ++ (a ∷ b ∷ c ∷ d ∷ post)) (length pre) v
    ∙ copy_to-middle (bytes32 v []) (a ∷ b ∷ c ∷ d ∷ []) pre post refl

-- And a read there gives the word back.
pub read_u32-append :
    (pre : List ℕ) (v : ℕ) (post : List ℕ)
    → v < 0x1_0000_0000
    → read_u32 (pre ++ bytes32 v post) (length pre) ≡ v
unfolding read_u32
read_u32-append pre v post h = ground (
  arith,
  split32 v h,
  get_or-append pre (bytes32 v post) 0 0,
  get_or-append pre (bytes32 v post) 1 0,
  get_or-append pre (bytes32 v post) 2 0,
  get_or-append pre (bytes32 v post) 3 0,
  ap (λ k. get_or (pre ++ bytes32 v post) k 0) {x = length pre + 0} {y = length pre} (omega arith),
)
