-- ===== src/Tunnel/DataSender/Checksum.antt =====
-- The header checksum that the sender fills in.
use sangtachi.Prelude.{
  ℕ, zero, suc, ◌+◌, ◌-◌, ◌*◌, ◌%◌, ◌<◌, ◌≤◌, ◌≡◌, sym, ap, subst, ◌∙◌, List, [], ◌∷◌, All, length,
  set, ltb, false, if◌then◌else◌, bit_and, arith,
}
use sangtachi.Prelude.Bits.{◌>>>◌, u8, u16, bit_and-low_mask}
use sangtachi.Tunnel.Wire.{IsByte}
use sangtachi.Tunnel.Inner.{sum_words, fold_sum, fold_fuel}
use sangtachi.Tunnel.Inner.Checksum.{
  total, sum_words-total, get_or-IsByte, fold_sum_fuel, fold_sum-complement,
}
use sangtachi.Tunnel.DataSender.{fill_ipv4_checksum}

-- The two bytes of the checksum add up to the word that they hold.
total-checksum :
    (p : List ℕ) (x y : ℕ)
    → 12 ≤ length p
    → total 10 0 (set (set (set (set p 10 0) 11 0) 10 x) 11 y)
      ≡ total 10 0 (set (set p 10 0) 11 0) + (256 * x + y)
total-checksum [] x y h = absurd (omega arith)
total-checksum (_ ∷ []) x y h = absurd (omega arith)
total-checksum (_ ∷ _ ∷ []) x y h = absurd (omega arith)
total-checksum (_ ∷ _ ∷ _ ∷ []) x y h = absurd (omega arith)
total-checksum (_ ∷ _ ∷ _ ∷ _ ∷ []) x y h = absurd (omega arith)
total-checksum (_ ∷ _ ∷ _ ∷ _ ∷ _ ∷ []) x y h = absurd (omega arith)
total-checksum (_ ∷ _ ∷ _ ∷ _ ∷ _ ∷ _ ∷ []) x y h = absurd (omega arith)
total-checksum (_ ∷ _ ∷ _ ∷ _ ∷ _ ∷ _ ∷ _ ∷ []) x y h = absurd (omega arith)
total-checksum (_ ∷ _ ∷ _ ∷ _ ∷ _ ∷ _ ∷ _ ∷ _ ∷ []) x y h = absurd (omega arith)
total-checksum (_ ∷ _ ∷ _ ∷ _ ∷ _ ∷ _ ∷ _ ∷ _ ∷ _ ∷ []) x y h = absurd (omega arith)
total-checksum (_ ∷ _ ∷ _ ∷ _ ∷ _ ∷ _ ∷ _ ∷ _ ∷ _ ∷ _ ∷ []) x y h = absurd (omega arith)
total-checksum (_ ∷ _ ∷ _ ∷ _ ∷ _ ∷ _ ∷ _ ∷ _ ∷ _ ∷ _ ∷ _ ∷ []) x y h = absurd (omega arith)
total-checksum (a ∷ b ∷ c ∷ d ∷ e ∷ f ∷ g ∷ i ∷ j ∷ k ∷ _ ∷ _ ∷ p) x y h = omega arith

-- The two bytes that are filled in hold the complement of the sum.
checksum-bytes :
    (f : ℕ)
    → f < 0x1_0000
    → 256 * u8 (u16 (bit_and (0xffff_ffff - f) 0xffff) >>> 8)
        + bit_and (u16 (bit_and (0xffff_ffff - f) 0xffff)) 0xff
      ≡ 0xffff - f
checksum-bytes f h =
    rw
      (
        bit_and-low_mask 16 (0xffff_ffff - f),
        bit_and-low_mask 8 (u16 ((0xffff_ffff - f) % 0x1_0000)),
      )
      (omega arith)

set-IsByte : (p : List ℕ) (k v : ℕ) → v < 256 → All IsByte p → All IsByte (set p k v)
set-IsByte [] k v l h = h
set-IsByte (x ∷ p) zero v l h = (l, h.1)
set-IsByte (x ∷ p) (suc k) v l h = (h.0, set-IsByte p k v l h.1)

sum_words-bytes :
    (p : List ℕ) → All IsByte p → (sum_words 10 0 p 0 ≡ total 10 0 p) × (total 10 0 p ≤ 655350)
sum_words-bytes p h =
    let sum = sum_words-total 10 0 p 0 (get_or-IsByte p h) (omega arith) in
    (omega (arith, sum), omega (arith, sum))

-- The checksum that is filled in makes the header of 20 bytes valid: its words sum up to 0xffff, which
-- is what the receiver checks. The packet has to be at least as long as the header, and made of bytes.
pub fill_ipv4_checksum-sum_words :
    (packet : List ℕ)
    → 20 ≤ length packet
    → All IsByte packet
    → fold_sum fold_fuel (sum_words 10 0 (fill_ipv4_checksum packet) 0) ≡ 0xffff
unfolding fill_ipv4_checksum
fill_ipv4_checksum-sum_words packet l h =
    let cleared = set (set packet 10 0) 11 0 in
    let clear_bytes =
      set-IsByte (set packet 10 0) 11 0 (omega arith) (set-IsByte packet 10 0 (omega arith) h) in
    let clear = sum_words-bytes cleared clear_bytes in
    let sum = sum_words 10 0 cleared 0 in
    let f = fold_sum fold_fuel sum in
    let c = u16 (bit_and (0xffff_ffff - f) 0xffff) in
    let x = u8 (c >>> 8) in
    let y = bit_and c 0xff in
    let small = fold_sum_fuel sum 0 (omega (arith, clear)) in
    let word = checksum-bytes f small.0 in
    let full = set (set cleared 10 x) 11 y in
    let bytes =
      set-IsByte (set cleared 10 x) 11 y (omega (arith, bit_and-low_mask 8 c))
        (set-IsByte cleared 10 x (omega arith) clear_bytes) in
    let filled = sum_words-bytes full bytes in
    let all : sum_words 10 0 full 0 ≡ sum + (0xffff - f) =
      omega (arith, filled.0, total-checksum packet x y (omega arith), word, clear.0) in
    let whole : ltb (length packet) 20 ≡ false = ground arith in
    subst (λ b. fold_sum fold_fuel (sum_words 10 0 (if b then packet else full) 0) ≡ 0xffff)
      (sym whole)
      (ap (λ s. fold_sum fold_fuel s) all ∙ fold_sum-complement sum (omega (arith, clear)))
