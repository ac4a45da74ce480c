-- ===== src/Network/Decimal.antt =====
-- `std::to_string` of an unsigned number, and that it is read back by the loops over digits.
use sangtachi.Prelude.{
  ℕ, zero, suc, ◌+◌, ◌-◌, ◌*◌, ◌/◌, ◌%◌, ◌^◌, ◌<◌, ◌≤◌, ◌≡◌, ◌≢◌, ap, ◌∙◌, inl, inr, some, List, [],
  ◌∷◌, ltb, if◌then◌else◌, length, get_or, arith, Bool-cases,
}
use native.Mathlib.Nat.{pow-succ'}
use sangtachi.Network.Endpoint.{is_ascii_digit, digits_value}

-- The digits of `n` in front of others. A round divides by ten, so a fuel above `n` is enough.
pub write_digits : ℕ → ℕ → List ℕ → List ℕ
write_digits zero n rest = rest
write_digits (suc fuel) n rest =
    let more = write_digits fuel (n / 10) ((b'0' + n % 10) ∷ rest) in
    if ltb n 10 then (b'0' + n) ∷ rest else more

unfoldable pub to_string : ℕ → List ℕ
to_string n = write_digits (suc n) n []

digits_value-write_digits :
    (fuel n : ℕ) (rest : List ℕ)
    → n < fuel
    → digits_value 0 (write_digits fuel n rest) ≡ digits_value n rest
unfolding write_digits is_ascii_digit
digits_value-write_digits zero n rest h = absurd (omega arith)
digits_value-write_digits (suc fuel) n rest h = elim (Bool-cases (ltb n 10)) [
  | inl e ↦ rw e (
      ground
        (arith, ap (λ v. digits_value v rest) {x = 0 + (b'0' + n - b'0')} {y = n} (omega arith)))
  | inr e ↦ rw e (
      digits_value-write_digits fuel (n / 10) ((b'0' + n % 10) ∷ rest) (ground arith)
      ∙ ground (
        arith,
        ap (λ v. digits_value v rest) {x = n / 10 * 10 + (b'0' + n % 10 - b'0')} {y = n}
            (omega arith),
      ))
]

-- A number is read back from its digits.
pub digits_value-to_string : (n : ℕ) → digits_value 0 (to_string n) ≡ some n
unfolding to_string
digits_value-to_string n = digits_value-write_digits (suc n) n [] (omega arith)

length-write_digits :
    (k fuel n : ℕ) (rest : List ℕ)
    → n < fuel
    → n < 10 ^ suc k
    → (suc (length rest) ≤ length (write_digits fuel n rest))
      × (length (write_digits fuel n rest) ≤ suc k + length rest)
unfolding write_digits
length-write_digits k zero n rest h l = absurd (omega arith)
length-write_digits zero (suc fuel) n rest h l = ground arith
length-write_digits (suc k) (suc fuel) n rest h l = elim (Bool-cases (ltb n 10)) [
  | inl e ↦ rw e (omega arith, omega arith)
  | inr e ↦
      let less : n / 10 < 10 ^ suc k = omega (arith, pow-succ' 10 (suc k)) in
      let rest_of =
        length-write_digits k fuel (n / 10) ((b'0' + n % 10) ∷ rest) (ground arith) less in
      rw e (omega (arith, rest_of), omega (arith, rest_of))
]

first-write_digits :
    (fuel n : ℕ) (rest : List ℕ) → n < fuel → 1 ≤ n → get_or (write_digits fuel n rest) 0 0 ≢ b'0'
unfolding write_digits
first-write_digits zero n rest h l = absurd (omega arith)
first-write_digits (suc fuel) n rest h l = elim (Bool-cases (ltb n 10)) [
  | inl e ↦ rw e (λ z. omega arith)
  | inr e ↦
      rw e (first-write_digits fuel (n / 10) ((b'0' + n % 10) ∷ rest) (ground arith) (ground arith))
]

-- A number of at most ten digits is written with one to ten of them, and more than one only without
-- a leading 0.
pub length-to_string :
    (n : ℕ)
    → n < 10_000_000_000
    → (1 ≤ length (to_string n))
      × (length (to_string n) ≤ 10)
      × (1 < length (to_string n) → get_or (to_string n) 0 0 ≢ b'0')
unfolding to_string write_digits
length-to_string zero h = (omega arith, omega arith, (λ l. absurd (omega arith)))
length-to_string (suc n) h =
    let size = length-write_digits 9 (suc (suc n)) (suc n) [] (omega arith) (omega arith) in
    (
      omega (arith, size),
      omega (arith, size),
      (λ l. first-write_digits (suc (suc n)) (suc n) [] (omega arith) (omega arith)),
    )
