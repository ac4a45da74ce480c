-- ===== src/Prelude/Xor.antt =====
-- `^` on native numbers: the exclusive or with a key undoes itself and keeps the width.
use Prim.Native.Nat.{ℕ, zero, suc, ◌+◌, ◌*◌, ◌/◌, ◌%◌, ◌^◌, ◌<◌, bit_xor, bit_xor-bitwise, differ}
use mathlib.Core.Path.{◌≡◌, refl, ap}
use native.Mathlib.Omega.{arith}
use sangtachi.Prelude.Bits.{digits-fuel, two_pow_suc}

differ_lem : (x y : ℕ) → x < 2 → y < 2 → differ x y ≡ (x + y) % 2
differ_lem zero y p q = omega arith
differ_lem (suc zero) zero p q = refl
differ_lem (suc zero) (suc zero) p q = refl
differ_lem (suc zero) (suc (suc y)) p q = absurd (omega arith)
differ_lem (suc (suc x)) y p q = absurd (omega arith)

pub bit_xor-half : (a b : ℕ) → bit_xor a b ≡ bit_xor (a / 2) (b / 2) * 2 + (a % 2 + b % 2) % 2
bit_xor-half zero b = omega (arith, bit_xor-bitwise 0 b, bit_xor-bitwise 0 (b / 2))
bit_xor-half (suc a) b = omega (
  arith,
  bit_xor-bitwise (suc a) b,
  bit_xor-bitwise (suc a / 2) (b / 2),
  digits-fuel (λ y. y) differ (b / 2) a (suc a / 2) (suc a / 2) (omega arith) (omega arith),
  differ_lem (suc a % 2) (b % 2) (omega arith) (omega arith),
)

pub bit_xor-lt : (n a b : ℕ) → a < 2 ^ n → b < 2 ^ n → bit_xor a b < 2 ^ n
bit_xor-lt zero zero zero p q = omega arith
bit_xor-lt zero zero (suc b) p q = absurd (omega arith)
bit_xor-lt zero (suc a) b p q = absurd (omega arith)
bit_xor-lt (suc n) a b p q = omega (
  arith,
  two_pow_suc n,
  bit_xor-half a b,
  bit_xor-lt n (a / 2) (b / 2) (omega (arith, two_pow_suc n)) (omega (arith, two_pow_suc n)),
)

half-bit_xor : (a b : ℕ) → bit_xor a b / 2 ≡ bit_xor (a / 2) (b / 2)
half-bit_xor a b = omega (arith, bit_xor-half a b)

pub bit_xor_cancel : (n a b : ℕ) → a < 2 ^ n → b < 2 ^ n → bit_xor (bit_xor a b) b ≡ a
bit_xor_cancel zero zero zero p q = refl
bit_xor_cancel zero zero (suc b) p q = absurd (omega arith)
bit_xor_cancel zero (suc a) b p q = absurd (omega arith)
bit_xor_cancel (suc n) a b p q = omega (
  arith,
  two_pow_suc n,
  bit_xor-half a b,
  bit_xor-half (bit_xor a b) b,
  ap (λ t. bit_xor t (b / 2)) (half-bit_xor a b),
  bit_xor_cancel n (a / 2) (b / 2) (omega (arith, two_pow_suc n)) (omega (arith, two_pow_suc n)),
)
