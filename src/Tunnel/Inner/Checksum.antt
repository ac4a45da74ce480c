-- ===== src/Tunnel/Inner/Checksum.antt =====
-- The checksum of the inner header: the fold, and that its fuel is enough.
use sangtachi.Prelude.{
  ℕ, zero, suc, ◌+◌, ◌/◌, ◌%◌, ◌∙◌, ◌-◌, ◌≤◌, ◌<◌, ◌≡◌, refl, ltb, inl, inr, Bool-cases,
  if◌then◌else◌, bit_and, bit_or, arith, ◌*◌, ◌↔◌, List, [], ◌∷◌, All, get_or, ap,
}
use sangtachi.Prelude.Bits.{◌<<<◌, u32, bit_and-low_mask, bit_or_fields}
use sangtachi.Tunnel.Wire.{IsByte, read_u8}
use sangtachi.Tunnel.Inner.{fold_sum, fold_fuel, sum_words}

low_half : (a : ℕ) → bit_and a 0xffff ≡ a % 0x1_0000
low_half a = bit_and-low_mask 16 a

once : ℕ → ℕ
once sum = sum % 0x1_0000 + sum / 0x1_0000

fold_sum_small : (fuel sum : ℕ) → sum < 0x1_0000 → fold_sum fuel sum ≡ sum
unfolding fold_sum
fold_sum_small zero sum h = refl
fold_sum_small (suc fuel) sum h = ground arith

fold_sum_large :
    (fuel sum : ℕ) → 0x1_0000 ≤ sum → fold_sum (suc fuel) sum ≡ fold_sum fuel (once sum)
unfolding fold_sum once
fold_sum_large fuel sum h = rw (low_half sum) (ground arith)

-- Two rounds at most.
abbrev folded : ℕ → ℕ
folded sum =
    if ltb sum 0x1_0000 then sum else if ltb (once sum) 0x1_0000 then once sum else once (once sum)

once_twice : (sum : ℕ) → sum < 0x1_0000_0000 → 0x1_0000 ≤ once sum → once (once sum) < 0x1_0000
unfolding once
once_twice sum h k = omega arith

fold_sum-folded : (fuel sum : ℕ) → sum < 0x1_0000_0000 → fold_sum (suc (suc fuel)) sum ≡ folded sum
fold_sum-folded fuel sum h = elim (Bool-cases (ltb sum 0x1_0000)) [
  | inl e ↦ ground (arith, fold_sum_small (suc (suc fuel)) sum)
  | inr e ↦ elim (Bool-cases (ltb (once sum) 0x1_0000)) [
    | inl f ↦ ground (arith, fold_sum_large (suc fuel) sum, fold_sum_small (suc fuel) (once sum))
    | inr f ↦ ground (
      arith,
      fold_sum_large (suc fuel) sum,
      fold_sum_large fuel (once sum),
      fold_sum_small fuel (once (once sum)) (once_twice sum h (ground arith)),
    )
  ]
]

folded_lem :
    (sum : ℕ) → sum < 0x1_0000_0000 → (folded sum < 0x1_0000) × (folded sum % 0xffff ≡ sum % 0xffff)
unfolding once
folded_lem sum h = ground arith

folded_positive : (sum : ℕ) → 0 < sum → 0 < folded sum
unfolding once
folded_positive sum h = ground arith

-- The loop that folds the sum of any 32-bit words ends within its fuel: more
-- fuel makes no difference, the result has 16 bits, and it differs from the sum by a multiple of
-- 0xffff.
pub fold_sum_fuel :
    (sum extra : ℕ)
    → sum < 0x1_0000_0000
    → (fold_sum fold_fuel sum < 0x1_0000)
      × (fold_sum fold_fuel sum % 0xffff ≡ sum % 0xffff)
      × (fold_sum (extra + fold_fuel) sum ≡ fold_sum fold_fuel sum)
fold_sum_fuel sum extra h =
    ground (arith, folded_lem sum h, fold_sum-folded 2 sum h, fold_sum-folded (extra + 2) sum h)

completed_positive : (sum : ℕ) → sum < 0x1_0000_0000 → 0 < sum + (0xffff - folded sum)
unfolding once
completed_positive sum h = ground arith

-- The complement of the folded sum completes it.
pub fold_sum-complement :
    (sum : ℕ)
    → sum < 0xffff_0000
    → fold_sum fold_fuel (sum + (0xffff - fold_sum fold_fuel sum)) ≡ 0xffff
fold_sum-complement sum h =
    let f = folded sum in
    let whole = sum + (0xffff - f) in
    let before = folded_lem sum (omega arith) in
    let after = folded_lem whole (omega arith) in
    let positive = folded_positive whole (completed_positive sum (omega arith)) in
    let full : folded whole ≡ 0xffff = omega (arith, before, after, positive) in
    rw (fold_sum-folded 2 sum (omega arith)) (fold_sum-folded 2 whole (omega arith) ∙ full)

-- The sum of the big-endian words from offset `i` on, in plain arithmetic.
abbrev pub total : ℕ → ℕ → List ℕ → ℕ
total zero i p = 0
total (suc words) i p = (256 * get_or p i 0 + get_or p (i + 1) 0) + total words (i + 2) p

pub sum_words-total :
    (words i : ℕ) (p : List ℕ) (sum : ℕ)
    → ((i : ℕ) → get_or p i 0 < 256)
    → sum + words * 65536 < 0x1_0000_0000
    → (sum_words words i p sum ≡ sum + total words i p) × (total words i p ≤ words * 65535)
unfolding sum_words read_u8
sum_words-total zero i p sum b h = (omega arith, omega arith)
sum_words-total (suc words) i p sum b h =
    let x = get_or p i 0 in
    let y = get_or p (i + 1) 0 in
    let e : u32 (sum + bit_or (x <<< 8) y) ≡ sum + (256 * x + y) =
      omega (arith, h, b i, b (i + 1), bit_or_fields 8 x y (b (i + 1))) in
    let rest =
      sum_words-total words (i + 2) p (sum + (256 * x + y)) b (omega (arith, h, b i, b (i + 1))) in
    (
      ap (λ s. sum_words words (i + 2) p s) e ∙ omega (arith, rest),
      omega (arith, rest, b i, b (i + 1)),
    )

pub get_or-IsByte : (p : List ℕ) → All IsByte p → (i : ℕ) → get_or p i 0 < 256
get_or-IsByte [] h i = omega arith
get_or-IsByte (x ∷ p) h zero = h.0
get_or-IsByte (x ∷ p) h (suc i) = get_or-IsByte p h.1 i

folded_zero : (sum : ℕ) → sum ≡ 0 → folded sum ≡ 0
folded_zero sum e = ground (arith, e)

-- The folded sum is 0xffff exactly if the sum is a multiple of 0xffff that is not 0.
pub fold_sum_iff :
    (sum : ℕ)
    → sum < 0x1_0000_0000
    → (fold_sum fold_fuel sum ≡ 0xffff) ↔ ((sum % 0xffff ≡ 0) × (0 < sum))
fold_sum_iff sum h =
    let f = folded_lem sum h in
    rw (fold_sum-folded 2 sum h) (ground (arith, f, folded_positive sum, folded_zero sum))

-- The first word is part of the sum.
pub total-first : (words : ℕ) (p : List ℕ) → 1 ≤ words → 256 * get_or p 0 0 ≤ total words 0 p
total-first zero p h = absurd (omega arith)
total-first (suc words) p h = omega arith
