-- ===== src/Tunnel/Inner/Accepted.antt =====
-- What `check_inner_ipv4` accepts, in plain arithmetic on the bytes.
use sangtachi.Prelude.{ℕ, ◌+◌, ◌*◌, ◌/◌, ◌%◌, ◌≤◌, ◌≡◌, ◌↔◌, List, All, length, get_or, arith}
use sangtachi.Prelude.Bits.{bit_and-low_mask, bit_or_fields}
use sangtachi.Tunnel.Wire.{IsByte, read_u8, read_u32, join32}
use sangtachi.Tunnel.Inner.{
  InnerError, sum_words, fold_sum, fold_fuel, check_inner_header, check_inner_ipv4,
}
use sangtachi.Tunnel.Inner.Checksum.{
  total, total-first, sum_words-total, get_or-IsByte, fold_sum_iff,
}

-- The four bytes at an offset as a big-endian number.
abbrev pub address_at : List ℕ → ℕ → ℕ
address_at p i =
    get_or p i 0 * 0x100_0000
    + get_or p (i + 1) 0 * 0x1_0000
    + get_or p (i + 2) 0 * 0x100
    + get_or p (i + 3) 0

-- The header length in 32-bit words.
abbrev pub ihl : List ℕ → ℕ
ihl p = get_or p 0 0 % 16

-- An IPv4 packet from one address to another: version 4, a whole header of at least five words whose
-- 16-bit words add up to a multiple of 0xffff, and a total length that is that of the packet.
abbrev pub IsInner : List ℕ → ℕ → ℕ → Type 0
IsInner p src dst =
    (get_or p 0 0 / 16 ≡ 4)
    × (5 ≤ ihl p)
    × (ihl p * 4 ≤ length p)
    × (total (ihl p * 2) 0 p % 0xffff ≡ 0)
    × (256 * get_or p 2 0 + get_or p 3 0 ≡ length p)
    × (address_at p 12 ≡ src)
    × (address_at p 16 ≡ dst)

read_u32-address_at : (p : List ℕ) (i : ℕ) → All IsByte p → read_u32 p i ≡ address_at p i
unfolding read_u32 read_u8
read_u32-address_at p i h =
    join32 (get_or p i 0) (get_or p (i + 1) 0) (get_or p (i + 2) 0) (get_or p (i + 3) 0)
      (get_or-IsByte p h (i + 1)) (get_or-IsByte p h (i + 2)) (get_or-IsByte p h (i + 3))

-- The check of the checksum, with the code's loops.
checksum_iff :
    (p : List ℕ)
    → All IsByte p
    → get_or p 0 0 / 16 ≡ 4
    → 5 ≤ ihl p
    → (fold_sum fold_fuel (sum_words (ihl p * 2) 0 p 0) ≡ 0xffff)
      ↔ (total (ihl p * 2) 0 p % 0xffff ≡ 0)
checksum_iff p h v w =
    let sum = sum_words-total (ihl p * 2) 0 p 0 (get_or-IsByte p h) (omega arith) in
    let first = total-first (ihl p * 2) p (omega arith) in
    let same = fold_sum_iff (sum_words (ihl p * 2) 0 p 0) (omega (arith, sum)) in
    ground (arith, same, sum, first)

-- The guards, one by one.
abbrev IsChecked : List ℕ → ℕ → ℕ → Type 0
IsChecked p src dst =
    (get_or p 0 0 / 16 ≡ 4)
    × (5 ≤ ihl p)
    × (ihl p * 4 ≤ length p)
    × (fold_sum fold_fuel (sum_words (ihl p * 2) 0 p 0) ≡ 0xffff)
    × (256 * get_or p 2 0 + get_or p 3 0 ≡ length p)
    × (address_at p 12 ≡ src)
    × (address_at p 16 ≡ dst)

guards_iff :
    (p : List ℕ) (src dst : ℕ)
    → All IsByte p
    → (check_inner_ipv4 p src dst ≡ InnerError.no_error) ↔ IsChecked p src dst
unfolding check_inner_ipv4 check_inner_header read_u8
guards_iff p src dst h =
    rw (bit_and-low_mask 4 (get_or p 0 0), read_u32-address_at p 12 h, read_u32-address_at p 16 h)
      (ground (arith, bit_or_fields 8 (get_or p 2 0) (get_or p 3 0) (get_or-IsByte p h 3)))

-- The inner checks find no error exactly in a packet of bytes that is IPv4 from the peer to this
-- client: version 4, a whole header of at least five 32-bit words, whose 16-bit words add up to a
-- multiple of 0xffff, a total length that is the length of the packet, and the two addresses.
pub check_inner_ipv4_iff :
    (payload : List ℕ) (peer_virtual_ip local_virtual_ip : ℕ)
    → All IsByte payload
    → (check_inner_ipv4 payload peer_virtual_ip local_virtual_ip ≡ InnerError.no_error)
      ↔ IsInner payload peer_virtual_ip local_virtual_ip
check_inner_ipv4_iff payload src dst h =
    let same = guards_iff payload src dst h in
    (
      (λ e.
          let c = same.0 e in
          (c.0, c.1, c.2, (checksum_iff payload h c.0 c.1).0 c.3, c.4, c.5, c.6)),
      λ c. same.1 (c.0, c.1, c.2, (checksum_iff payload h c.0 c.1).1 c.3, c.4, c.5, c.6),
    )
