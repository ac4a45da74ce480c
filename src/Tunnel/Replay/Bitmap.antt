-- ===== src/Tunnel/Replay/Bitmap.antt =====
-- The bitmap of the replay window: bit b - 1 stands for the packet `b` places behind the highest.
use sangtachi.Prelude.{
  ℕ, zero, suc, ◌+◌, ◌-◌, ◌*◌, ◌^◌, ◌≤◌, ◌<◌, ◌≡◌, ap, ap₂, ◌∙◌, inl, inr, ltb, ◌==◌, if◌then◌else◌,
  bit_and, bit_or, max, arith, Bool-cases,
}
use sangtachi.Prelude.Bits.{
  ◌<<<◌, u64, bit, bit_le_one, bit-zero, bit-bit_or, bit_and-two_pow, bit-two_pow_self,
  bit-two_pow_ne, bit-shift_low, bit-shift_high, bit-mod, bit_or-lt, two_pow_pos,
}
use sangtachi.Protocol.{replay_window}
use sangtachi.Tunnel.Replay.{bit_for_back, shifted_bits}
use native.Mathlib.Nat.{pow-le-pow_right}

bit_for_back-eq : (b : ℕ) → bit_for_back b ≡ 2 ^ (b - 1)
bit_for_back-eq b = omega arith

suc_mul : (x m : ℕ) → suc x * m ≡ x * m + m
suc_mul x m = omega arith

mul_test : (x m : ℕ) → 1 ≤ m → (x * m == 0) ≡ (x == 0)
mul_test zero m h = ground arith
mul_test (suc x) m h = ground (arith, suc_mul x m)

-- The test of `check` reads the bit for `b`.
pub bit_and-bit_for_back :
    (bits b : ℕ) → (bit_and bits (bit_for_back b) == 0) ≡ (bit bits (b - 1) == 0)
bit_and-bit_for_back bits b =
    rw (bit_for_back-eq, bit_and-two_pow)
      (mul_test (bit bits (b - 1)) (2 ^ (b - 1)) (two_pow_pos (b - 1)))

pub bit-bit_for_back :
    (b j : ℕ) → 1 ≤ b → 1 ≤ j → bit (bit_for_back b) (j - 1) ≡ (if b == j then 1 else 0)
bit-bit_for_back b j p q = elim (Bool-cases (b == j)) [
  | inl e ↦
      rw (e, bit_for_back-eq)
        (ap (λ k. bit (2 ^ (b - 1)) (k - 1)) {x = j} {y = b} (ground arith)
          ∙ bit-two_pow_self (b - 1))
  | inr e ↦ rw (e, bit_for_back-eq) (bit-two_pow_ne (b - 1) (j - 1) (ground arith))
]

pub bit_for_back-lt : (b : ℕ) → b ≤ 64 → bit_for_back b < 2 ^ 64
bit_for_back-lt b h = omega (
  arith,
  bit_for_back-eq b,
  pow-le-pow_right {n = 2} (omega arith) {i = b - 1} {j = 63} (omega arith),
)

pub shifted_bits-lt : (bits s : ℕ) → shifted_bits bits s < 2 ^ 64
unfolding shifted_bits
shifted_bits-lt bits s = ground (
  arith,
  bit_for_back-lt 64 (omega arith),
  bit_for_back-lt s,
  bit_or-lt 64 (u64 (bits <<< s)) (bit_for_back s) (omega arith),
)

-- An advance by less than the window pushes the bits up and marks the old highest.
pushed_bits :
    (bits s j : ℕ)
    → 1 ≤ s
    → 1 ≤ j
    → j ≤ 64
    → bit (bit_or (u64 (bits <<< s)) (bit_for_back s)) (j - 1)
      ≡ (if s == j then 1 else if ltb s j then bit bits (j - s - 1) else 0)
pushed_bits bits s j p q r =
    bit-bit_or (j - 1) (u64 (bits <<< s)) (bit_for_back s)
    ∙ ap₂ max (bit-mod 64 (bits <<< s) (j - 1) (omega arith)) (bit-bit_for_back s j p q)
    ∙ ground (
      arith,
      bit-shift_low s bits (j - 1),
      bit-shift_high s bits (j - 1),
      bit_le_one (bits <<< s) (j - 1),
      ap (bit bits) {x = j - 1 - s} {y = j - s - 1} (omega arith),
    )

-- After an advance by `s` the old entries stand `s` places further back, and the old highest is
-- the entry `s`.
pub bit-shifted_bits :
    (bits s j : ℕ)
    → 1 ≤ s
    → 1 ≤ j
    → j ≤ 64
    → bit (shifted_bits bits s) (j - 1)
      ≡ (if s == j then 1 else if ltb s j then bit bits (j - s - 1) else 0)
unfolding shifted_bits
bit-shifted_bits bits s j p q r = elim (Bool-cases (ltb replay_window s)) [
  | inl far ↦ rw far (ground (arith, bit-zero (j - 1)))
  | inr near ↦ rw near (elim (Bool-cases (s == replay_window)) [
    | inl edge ↦ rw edge (ground (arith, bit-bit_for_back 64 j (omega arith) q))
    | inr inside ↦ rw inside (pushed_bits bits s j p q r)
  ])
]
