-- ===== src/Peer/Candidates/Subnets.antt =====
-- The directed broadcast addresses of the own subnets, and the addresses that are offered.
use sangtachi.Prelude.{
  ℕ, ◌+◌, ◌-◌, ◌*◌, ◌/◌, ◌^◌, ◌<◌, ◌≤◌, ◌≡◌, sym, ap, ◌∙◌, inl, inr, Bool, not, ◌&&◌, ◌||◌, Option,
  List, [], ◌∷◌, ◌++◌, All, arith, leb, ◌==◌, if◌then◌else◌, Bool-cases, append-nil, append_assoc,
  bit_or,
}
use sangtachi.Prelude.Bits.{
  ◌>>>◌, u32, two_pow_pos, bit_and-shift, bit_and-low_mask, bit_or_low_mask, two_pow_le,
}
use sangtachi.Peer.Candidates.{
  OwnSubnet, LocalAddress, InterfaceAddress, InterfaceInfo, is_loopback, is_apipa, fits_own_subnet,
  is_own, is_excluded_if_type, broadcast, is_active, judge_address, judge_addresses, judge_each,
  judge_interfaces,
}

-- The last address of a subnet.
abbrev pub last_address : OwnSubnet → ℕ
last_address s = (s.address / 2 ^ (32 - s.prefix_length) + 1) * 2 ^ (32 - s.prefix_length) - 1

mask_lem : (m : ℕ) → 1 ≤ m → m ≤ 0x8000_0000 → 0xffff_ffff - u32 (0xffff_ffff * m) ≡ m - 1
mask_lem m h k = omega arith

-- `broadcast` is the last address of the subnet.
pub broadcast-last_address : (s : OwnSubnet) → s.prefix_length ≤ 30 → broadcast s ≡ last_address s
unfolding broadcast
broadcast-last_address s p = elim (Bool-cases (s.prefix_length == 0)) [
  | inl e ↦ rw e (
      ap (λ n. bit_or s.address (2 ^ (32 - n) - 1)) {x = 0} {y = s.prefix_length} (ground arith)
      ∙ bit_or_low_mask (32 - s.prefix_length) s.address)
  | inr e ↦ rw e (
      ap (bit_or s.address) (
        mask_lem (2 ^ (32 - s.prefix_length)) (two_pow_pos (32 - s.prefix_length))
          (two_pow_le (32 - s.prefix_length) 31 (ground arith)))
      ∙ bit_or_low_mask (32 - s.prefix_length) s.address)
]

-- A byte mask compares the leading bytes.
pub is_loopback-eq : (a : ℕ) → a < 0x1_0000_0000 → is_loopback a ≡ (a / 0x100_0000 == 127)
unfolding is_loopback
is_loopback-eq a h = ground (arith, bit_and-shift 24 a 0xff, bit_and-low_mask 8 (a >>> 24))

is_apipa-eq : (a : ℕ) → a < 0x1_0000_0000 → is_apipa a ≡ (a / 0x1_0000 == 0xa9fe)
unfolding is_apipa
is_apipa-eq a h = ground (arith, bit_and-shift 16 a 0xffff, bit_and-low_mask 16 (a >>> 16))

-- The list that the loops over the interfaces and their addresses make up, address by address.
abbrev pub flat {ℓ κ} : {A : Type ℓ} {B : Type κ} → (A → List B) → List A → List B
flat f [] = []
flat f (x ∷ xs) = f x ++ flat f xs

flat-append {ℓ κ} :
    {A : Type ℓ} {B : Type κ} (f : A → List B) (x : A) (xs : List A) (out : List B)
    → (out ++ f x) ++ flat f xs ≡ out ++ flat f (x ∷ xs)
flat-append f x xs out = append_assoc out (f x) (flat f xs)

abbrev pub FitsWord : InterfaceInfo → Type 0
FitsWord iface = All (λ (a : InterfaceAddress). a.address < 0x1_0000_0000) iface.addresses

-- What one address of an interface adds to the candidates, and to the subnets.
abbrev pub offered : InterfaceInfo → Bool → InterfaceAddress → List LocalAddress
offered iface excluded addr =
    if is_active iface.oper_status addr.dad_state
      && not (excluded || (addr.address / 0x100_0000 == 127) || (addr.address / 0x1_0000 == 0xa9fe))
    then record { address = addr.address; if_index = iface.if_index } ∷ []
    else []

abbrev pub attached : InterfaceInfo → InterfaceAddress → List OwnSubnet
attached iface addr =
    if is_active iface.oper_status addr.dad_state
      && (not (addr.address / 0x100_0000 == 127) && leb addr.prefix_length 30)
    then record { address = addr.address; prefix_length = addr.prefix_length } ∷ []
    else []

judge_address-eq :
    (iface : InterfaceInfo) (ex : Bool) (addr : InterfaceAddress)
    (out : List LocalAddress × List OwnSubnet)
    → addr.address < 0x1_0000_0000
    → judge_address iface ex addr out
      ≡ (out.0 ++ offered iface ex addr, out.1 ++ attached iface addr)
unfolding fits_own_subnet
judge_address-eq iface ex addr out h =
    rw (is_loopback-eq addr.address h, is_apipa-eq addr.address h)
      (ground (arith, append-nil out.0, append-nil out.1))

-- Adding to both lists what an element adds to each, and then what the others add.
flat-step {ℓ α β} :
    {A : Type ℓ} {B : Type α} {C : Type β} (f : A → List B) (g : A → List C) (x : A) (xs : List A)
    (out : List B × List C)
    → ◌≡◌ {A = List B × List C}
        ((out.0 ++ f x) ++ flat f xs, (out.1 ++ g x) ++ flat g xs)
        (out.0 ++ flat f (x ∷ xs), out.1 ++ flat g (x ∷ xs))
flat-step f g x xs out i =
    (append_assoc out.0 (f x) (flat f xs) i, append_assoc out.1 (g x) (flat g xs) i)

judge_addresses-flat :
    (iface : InterfaceInfo) (ex : Bool) (addresses : List InterfaceAddress)
    (out : List LocalAddress × List OwnSubnet)
    → All (λ (a : InterfaceAddress). a.address < 0x1_0000_0000) addresses
    → judge_addresses iface ex addresses out
      ≡ (out.0 ++ flat (offered iface ex) addresses, out.1 ++ flat (attached iface) addresses)
judge_addresses-flat iface ex [] out h = λ i. (sym (append-nil out.0) i, sym (append-nil out.1) i)
judge_addresses-flat iface ex (addr ∷ addresses) out h =
    ap (judge_addresses iface ex addresses) (judge_address-eq iface ex addr out h.0)
    ∙ judge_addresses-flat iface ex addresses
        (out.0 ++ offered iface ex addr, out.1 ++ attached iface addr) h.1
    ∙ flat-step (offered iface ex) (attached iface) addr addresses out

abbrev is_excluded : Option (List ℕ) → InterfaceInfo → Bool
is_excluded own_wintun iface = is_own own_wintun iface.guid || is_excluded_if_type iface.if_type

-- What an interface adds to the candidates, and to the subnets.
abbrev pub offers : Option (List ℕ) → InterfaceInfo → List LocalAddress
offers own_wintun iface = flat (offered iface (is_excluded own_wintun iface)) iface.addresses

abbrev pub attaches : InterfaceInfo → List OwnSubnet
attaches iface = flat (attached iface) iface.addresses

pub judge_each-flat :
    (own_wintun : Option (List ℕ)) (interfaces : List InterfaceInfo)
    (out : List LocalAddress × List OwnSubnet)
    → All FitsWord interfaces
    → judge_each own_wintun interfaces out
      ≡ (out.0 ++ flat (offers own_wintun) interfaces, out.1 ++ flat attaches interfaces)
judge_each-flat own_wintun [] out h = λ i. (sym (append-nil out.0) i, sym (append-nil out.1) i)
judge_each-flat own_wintun (iface ∷ interfaces) out h =
    ap (judge_each own_wintun interfaces)
      (judge_addresses-flat iface (is_excluded own_wintun iface) iface.addresses out h.0)
    ∙ judge_each-flat own_wintun interfaces
        (out.0 ++ offers own_wintun iface, out.1 ++ attaches iface) h.1
    ∙ flat-step (offers own_wintun) attaches iface interfaces out

-- The candidates are, interface by interface and address by address, the active addresses that are
-- not in 127.0.0.0/8 or 169.254.0.0/16, of the interfaces that are neither the own one nor of an
-- excluded type.
pub judge_interfaces-candidates :
    (own_wintun : Option (List ℕ)) (interfaces : List InterfaceInfo)
    → All FitsWord interfaces
    → (judge_interfaces interfaces own_wintun).candidates ≡ flat (offers own_wintun) interfaces
unfolding judge_interfaces
judge_interfaces-candidates own_wintun interfaces h =
    ap (λ p. p.0) (judge_each-flat own_wintun interfaces ([], []) h)
