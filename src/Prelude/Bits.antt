-- ===== src/Prelude/Bits.antt =====
-- Bits of unsigned words: shifts, masks and `|` on native numbers, and the laws of single bits.
use Prim.Native.Nat.{
  ℕ, zero, suc, ◌+◌, ◌-◌, ◌*◌, ◌/◌, ◌%◌, ◌^◌, ◌≤◌, ◌<◌, min, max, bit_and, bit_or, digits,
  bit_and-bitwise, bit_or-bitwise,
}
use mathlib.Core.Path.{◌≡◌, refl, ap, ap₂, ◌∙◌}
use mathlib.Core.Logic.{◌≢◌}
use native.Mathlib.Omega.{arith}
use native.Mathlib.Nat.{pow-succ', one-le-pow, div-div-eq-div-mul}

infixl 75 ◌<<<◌ ◌>>>◌
abbrev pub ◌<<<◌ : ℕ → ℕ → ℕ
x <<< k = x * 2 ^ k

abbrev pub ◌>>>◌ : ℕ → ℕ → ℕ
x >>> k = x / 2 ^ k

-- The casts to `uint8_t`, `uint16_t`, `uint32_t` and `uint64_t`.
abbrev pub u8 : ℕ → ℕ
u8 n = n % 256

abbrev pub u16 : ℕ → ℕ
u16 n = n % 65536

abbrev pub u32 : ℕ → ℕ
u32 n = n % 4294967296

abbrev pub u64 : ℕ → ℕ
u64 n = n % 18446744073709551616

-- The digit recursion needs as much fuel as the first number has digits, and no more.
module _ (z : ℕ → ℕ) (f : ℕ → ℕ → ℕ) where
  pub digits-fuel : (b n m a : ℕ) → a ≤ n → a ≤ m → digits z f n a b ≡ digits z f m a b
  digits-fuel b zero zero zero p q = refl
  digits-fuel b zero (suc m) zero p q = refl
  digits-fuel b (suc n) zero zero p q = refl
  digits-fuel b (suc n) (suc m) zero p q = refl
  digits-fuel b zero m (suc a) p q = absurd (omega arith)
  digits-fuel b (suc n) zero (suc a) p q = absurd (omega arith)
  digits-fuel b (suc n) (suc m) (suc a) p q =
      ap (λ d. d * 2 + f (suc a % 2) (b % 2))
        (digits-fuel (b / 2) n m (suc a / 2) (omega arith) (omega arith))

pub bit_or-half : (a b : ℕ) → bit_or a b ≡ bit_or (a / 2) (b / 2) * 2 + max (a % 2) (b % 2)
bit_or-half zero b = omega (arith, bit_or-bitwise 0 b, bit_or-bitwise 0 (b / 2))
bit_or-half (suc a) b = omega (
  arith,
  bit_or-bitwise (suc a) b,
  bit_or-bitwise (suc a / 2) (b / 2),
  digits-fuel (λ y. y) max (b / 2) a (suc a / 2) (suc a / 2) (omega arith) (omega arith),
)

pub bit_and-half : (a b : ℕ) → bit_and a b ≡ bit_and (a / 2) (b / 2) * 2 + min (a % 2) (b % 2)
bit_and-half zero b = omega (arith, bit_and-bitwise 0 b, bit_and-bitwise 0 (b / 2))
bit_and-half (suc a) b = omega (
  arith,
  bit_and-bitwise (suc a) b,
  bit_and-bitwise (suc a / 2) (b / 2),
  digits-fuel (λ y. 0) min (b / 2) a (suc a / 2) (suc a / 2) (omega arith) (omega arith),
)

-- Bit `k` of `a`, as 0 or 1.
abbrev pub bit : ℕ → ℕ → ℕ
bit a zero = a % 2
bit a (suc k) = bit (a / 2) k

pub bit_le_one : (a k : ℕ) → bit a k ≤ 1
bit_le_one a zero = omega arith
bit_le_one a (suc k) = bit_le_one (a / 2) k

pub bit-zero : (k : ℕ) → bit 0 k ≡ 0
bit-zero zero = refl
bit-zero (suc k) = bit-zero k

pub bit-bit_or : (k a b : ℕ) → bit (bit_or a b) k ≡ max (bit a k) (bit b k)
bit-bit_or zero a b = omega (arith, bit_or-half a b)
bit-bit_or (suc k) a b =
    ap (λ t. bit t k) (omega (arith, bit_or-half a b)) ∙ bit-bit_or k (a / 2) (b / 2)

pub two_pow_suc : (k : ℕ) → 2 ^ suc k ≡ 2 * 2 ^ k
two_pow_suc k = pow-succ' 2 k

pub two_pow_pos : (k : ℕ) → 1 ≤ 2 ^ k
two_pow_pos k = one-le-pow k 2 (omega arith)

bit_and-zero : (k : ℕ) (a : ℕ) → a < 2 ^ k → bit_and a 0 ≡ 0
bit_and-zero zero a h = ground (arith, bit_and-half a 0)
bit_and-zero (suc k) a h =
    omega (
      arith,
      two_pow_suc k,
      bit_and-half a 0,
      bit_and-zero k (a / 2) (omega (arith, two_pow_suc k)),
    )

lt_two_pow : (a : ℕ) → a < 2 ^ a
lt_two_pow zero = omega arith
lt_two_pow (suc a) = omega (arith, two_pow_suc a, lt_two_pow a)

half-double : (m : ℕ) → 2 * m / 2 ≡ m
half-double m = omega arith

mul_double : (b m : ℕ) → b * (2 * m) ≡ b * m * 2
mul_double b m = omega arith

-- `a & (1 << k)` is the bit in its place.
pub bit_and-two_pow : (k a : ℕ) → bit_and a (2 ^ k) ≡ bit a k * 2 ^ k
bit_and-two_pow zero a =
    omega (arith, bit_and-half a 1, bit_and-zero (a / 2) (a / 2) (lt_two_pow (a / 2)))
bit_and-two_pow (suc k) a = rw two_pow_suc (
    omega (
      arith,
      bit_and-half a (2 * 2 ^ k),
      ap (bit_and (a / 2)) (half-double (2 ^ k)),
      bit_and-two_pow k (a / 2),
      mul_double (bit (a / 2) k) (2 ^ k),
    ))

pub bit-two_pow_self : (k : ℕ) → bit (2 ^ k) k ≡ 1
bit-two_pow_self zero = refl
bit-two_pow_self (suc k) = ap (λ t. bit t k) (omega (arith, two_pow_suc k)) ∙ bit-two_pow_self k

pub bit-two_pow_ne : (k j : ℕ) → k ≢ j → bit (2 ^ k) j ≡ 0
bit-two_pow_ne zero zero h = absurd (h refl)
bit-two_pow_ne zero (suc j) h = bit-zero j
bit-two_pow_ne (suc k) zero h = omega (arith, two_pow_suc k)
bit-two_pow_ne (suc k) (suc j) h =
    ap (λ t. bit t j) (omega (arith, two_pow_suc k)) ∙ bit-two_pow_ne k j (λ e. h (ap suc e))

shift_suc : (a s : ℕ) → a <<< suc s ≡ 2 * (a <<< s)
shift_suc a s = omega (arith, ap (λ (t : ℕ). a * t) (two_pow_suc s))

half-shift : (a s : ℕ) → (a <<< suc s) / 2 ≡ a <<< s
half-shift a s = omega (arith, shift_suc a s)

pub bit-shift_low : (s a j : ℕ) → j < s → bit (a <<< s) j ≡ 0
bit-shift_low zero a j h = absurd (omega arith)
bit-shift_low (suc s) a zero h = omega (arith, shift_suc a s)
bit-shift_low (suc s) a (suc j) h =
    ap (λ t. bit t j) (half-shift a s) ∙ bit-shift_low s a j (omega arith)

pub bit-shift_high : (s a j : ℕ) → s ≤ j → bit (a <<< s) j ≡ bit a (j - s)
bit-shift_high zero a j h =
    ap₂ bit {x = a <<< 0} {y = a} {u = j} {v = j - 0} (omega arith) (omega arith)
bit-shift_high (suc s) a zero h = absurd (omega arith)
bit-shift_high (suc s) a (suc j) h =
    ap (λ t. bit t j) (half-shift a s)
    ∙ bit-shift_high s a j (omega arith)
    ∙ ap (bit a) {x = j - s} {y = suc j - suc s} (omega arith)

half-mod : (a m : ℕ) → 0 < m → a % (2 * m) / 2 ≡ a / 2 % m
half-mod a m h = grind arith

mod-mod_two : (a m : ℕ) → 0 < m → a % (2 * m) % 2 ≡ a % 2
mod-mod_two a m h = grind arith

pub bit-mod : (n a k : ℕ) → k < n → bit (a % 2 ^ n) k ≡ bit a k
bit-mod zero a k h = absurd (omega arith)
bit-mod (suc n) a zero h = rw two_pow_suc (mod-mod_two a (2 ^ n) (two_pow_pos n))
bit-mod (suc n) a (suc k) h =
    ap (λ t. bit t k) (rw two_pow_suc (half-mod a (2 ^ n) (two_pow_pos n)))
    ∙ bit-mod n (a / 2) k (omega arith)

pub bit_or-lt : (n a b : ℕ) → a < 2 ^ n → b < 2 ^ n → bit_or a b < 2 ^ n
bit_or-lt zero zero zero p q = omega arith
bit_or-lt zero zero (suc b) p q = absurd (omega arith)
bit_or-lt zero (suc a) b p q = absurd (omega arith)
bit_or-lt (suc n) a b p q = omega (
  arith,
  two_pow_suc n,
  bit_or-half a b,
  bit_or-lt n (a / 2) (b / 2) (omega (arith, two_pow_suc n)) (omega (arith, two_pow_suc n)),
)

bit_or-zero : (k : ℕ) (a : ℕ) → a < 2 ^ k → bit_or a 0 ≡ a
bit_or-zero zero a h = ground (arith, bit_or-half a 0)
bit_or-zero (suc k) a h =
    omega
      (arith, two_pow_suc k, bit_or-half a 0, bit_or-zero k (a / 2) (omega (arith, two_pow_suc k)))

bit_or-no_bits : (q r : ℕ) → r < 1 → bit_or (q * 1) r ≡ q * 1 + r
bit_or-no_bits q zero h =
    ap (λ t. bit_or t 0) (omega arith) ∙ bit_or-zero q q (lt_two_pow q) ∙ omega arith
bit_or-no_bits q (suc r) h = absurd (omega arith)

-- `(q << k) | r` is a sum where `r` has at most `k` bits.
pub bit_or_fields : (k q r : ℕ) → r < 2 ^ k → bit_or (q <<< k) r ≡ q <<< k + r
bit_or_fields zero q r h = bit_or-no_bits q r h
bit_or_fields (suc k) q r h = omega (
  arith,
  shift_suc q k,
  ap (λ t. bit_or t (r / 2)) (half-shift q k),
  bit_or-half (q <<< suc k) r,
  bit_or_fields k q (r / 2) (omega (arith, two_pow_suc k)),
)

shift_right-suc : (a k : ℕ) → (a / 2) >>> k ≡ a >>> suc k
shift_right-suc a k = rw two_pow_suc (div-div-eq-div-mul a 2 (2 ^ k))

-- A mask of high bits takes the number apart at its lowest bit.
pub bit_and-shift : (k a m : ℕ) → bit_and a (m <<< k) ≡ bit_and (a >>> k) m <<< k
bit_and-shift zero a m =
    ap₂ bit_and {x = a} {y = a >>> 0} {u = m <<< 0} {v = m} (omega arith) (omega arith)
    ∙ omega arith
bit_and-shift (suc k) a m = omega (
  arith,
  bit_and-half a (m <<< suc k),
  ap (bit_and (a / 2)) (half-shift m k),
  bit_and-shift k (a / 2) m,
  shift_suc m k,
  shift_suc (bit_and (a >>> suc k) m) k,
  ap (λ t. bit_and t m <<< k) {x = (a / 2) >>> k} {y = a >>> suc k} (shift_right-suc a k),
)

-- A mask of `n` low bits is the remainder by 2 ^ n.
pub bit_and-low_mask : (n a : ℕ) → bit_and a (2 ^ n - 1) ≡ a % 2 ^ n
bit_and-low_mask zero a = ground (arith, bit_and-zero a a (lt_two_pow a))
bit_and-low_mask (suc n) a = rw two_pow_suc (
    omega (
      arith,
      bit_and-half a (2 * 2 ^ n - 1),
      two_pow_pos n,
      ap (bit_and (a / 2)) {x = (2 * 2 ^ n - 1) / 2} {y = 2 ^ n - 1} (omega (arith, two_pow_pos n)),
      bit_and-low_mask n (a / 2),
      half-mod a (2 ^ n) (two_pow_pos n),
      mod-mod_two a (2 ^ n) (two_pow_pos n),
    ))

block_pos : (q m : ℕ) → 1 ≤ m → 1 ≤ (q + 1) * m
block_pos q m h = grind arith

-- Filling the `n` low bits with ones gives the last number of the block.
pub bit_or_low_mask : (n a : ℕ) → bit_or a (2 ^ n - 1) ≡ (a / 2 ^ n + 1) * 2 ^ n - 1
bit_or_low_mask zero a = ground (arith, bit_or-zero a a (lt_two_pow a))
bit_or_low_mask (suc n) a = rw two_pow_suc (
    omega (
      arith,
      bit_or-half a (2 * 2 ^ n - 1),
      two_pow_pos n,
      ap (bit_or (a / 2)) {x = (2 * 2 ^ n - 1) / 2} {y = 2 ^ n - 1} (omega (arith, two_pow_pos n)),
      bit_or_low_mask n (a / 2),
      div-div-eq-div-mul a 2 (2 ^ n),
      ap (λ q. (q + 1) * (2 * 2 ^ n)) (div-div-eq-div-mul a 2 (2 ^ n)),
      mul_double (a / 2 / 2 ^ n + 1) (2 ^ n),
      block_pos (a / 2 / 2 ^ n) (2 ^ n) (two_pow_pos n),
    ))

pub two_pow_le : (k n : ℕ) → k ≤ n → 2 ^ k ≤ 2 ^ n
two_pow_le zero n h = two_pow_pos n
two_pow_le (suc k) zero h = absurd (omega arith)
two_pow_le (suc k) (suc n) h =
    omega (arith, two_pow_suc k, two_pow_suc n, two_pow_le k n (omega arith))
