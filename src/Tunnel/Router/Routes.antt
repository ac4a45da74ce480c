-- ===== src/Tunnel/Router/Routes.antt =====
-- What the routing table promises: five addresses, each with one slot.
use sangtachi.Prelude.{
  ℕ, zero, suc, ◌+◌, ◌*◌, ◌%◌, ◌/◌, ◌≤◌, ◌<◌, ◌≡◌, ◌↔◌, ◌⊎◌, refl, ap, ◌∙◌, inl, inr, true, false,
  none, some, List, [], ◌∷◌, ◌==◌, if◌then◌else◌, bit_and, get_or, set, length, get_or-set_self,
  get_or-set_ne, length-set, arith, Option-cases,
}
use sangtachi.Prelude.Bits.{bit_and-shift, bit_and-low_mask}
use sangtachi.Protocol.{max_peers}
use sangtachi.Tunnel.Router.{
  is_not_unicast, route_index, SessionRef, Router, same_session, assign, release_slots, release,
  lookup,
}

low_octet : (a : ℕ) → bit_and a 0xff ≡ a % 256
low_octet a = bit_and-low_mask 8 a

high_octets : (a : ℕ) → a < 0x1_0000_0000 → bit_and a 0xffff_ff00 ≡ a / 256 * 256
high_octets a h =
    bit_and-shift 8 a 0xff_ffff ∙ ap (λ t. t * 256) (bit_and-low_mask 24 (a / 256) ∙ omega arith)

-- The addresses with a slot are 10.100.0.1 to 10.100.0.5, and the slot is the last octet.
pub route_index_iff :
    (ip n : ℕ)
    → ip < 0x1_0000_0000
    → (route_index ip ≡ some n) ↔ ((1 ≤ n) × (n ≤ max_peers) × (ip ≡ 0x0a64_0000 + n))
unfolding route_index
route_index_iff ip n h = ground (arith, low_octet ip, high_octets ip h)

high_nibble : (a : ℕ) → a < 0x1_0000_0000 → bit_and a 0xf000_0000 ≡ a / 0x1000_0000 * 0x1000_0000
high_nibble a h =
    bit_and-shift 28 a 15
    ∙ ap (λ t. t * 0x1000_0000) (bit_and-low_mask 4 (a / 0x1000_0000) ∙ omega arith)

-- 224.0.0.0/4, the limited broadcast and the broadcast of the virtual network.
abbrev pub IsReserved : ℕ → Type 0
IsReserved ip = ((0xe000_0000 ≤ ip) × (ip < 0xf000_0000)) ⊎ (ip ≡ 0xffff_ffff) ⊎ (ip ≡ 0x0a64_00ff)

-- `is_not_unicast` holds exactly of the addresses from 224.0.0.0 up to, not including, 240.0.0.0,
-- of 255.255.255.255 and of 10.100.0.255.
pub is_not_unicast_iff : (ip : ℕ) → ip < 0x1_0000_0000 → (is_not_unicast ip ≡ true) ↔ IsReserved ip
unfolding is_not_unicast
is_not_unicast_iff ip h = ground (arith, high_nibble ip h)

-- The table has its six slots.
abbrev pub IsTable : Router → Type 0
IsTable r = length r.slots ≡ max_peers + 1

route_index-injective :
    (a b n : ℕ)
    → a < 0x1_0000_0000
    → b < 0x1_0000_0000
    → route_index a ≡ some n
    → route_index b ≡ some n
    → a ≡ b
route_index-injective a b n p q e f =
    omega (arith, ((route_index_iff a n p).0 e).2, ((route_index_iff b n q).0 f).2)

module _ (r : Router) (ip session n : ℕ) (e : route_index ip ≡ some n) where
  assign_routed :
      (assign r ip session).0 ≡ true
      → (assign r ip session ≡ (true, record { slots = set r.slots n (some session) }))
        × (get_or r.slots n none ≡ none)
  unfolding assign
  assign_routed h = ground (arith, e, h)

lookup_routed :
    (ip n : ℕ) → route_index ip ≡ some n → (r : Router) → lookup r ip ≡ get_or r.slots n none
unfolding lookup
lookup_routed ip n e r = ground (arith, e)

lookup_unrouted : (r : Router) (ip : ℕ) → route_index ip ≡ none → lookup r ip ≡ none
unfolding lookup
lookup_unrouted r ip e = ground (arith, e)

assign_unrouted :
    (r : Router) (ip session : ℕ) → route_index ip ≡ none → (assign r ip session).0 ≡ false
unfolding assign
assign_unrouted r ip session e = ground (arith, e)

-- A lookup in the table where slot `n`, that of address `ip`, was set.
lookup-set :
    (r : Router) (ip other session n : ℕ)
    → IsTable r
    → ip < 0x1_0000_0000
    → other < 0x1_0000_0000
    → route_index ip ≡ some n
    → lookup (record { slots = set r.slots n (some session) }) other
      ≡ (if other == ip then some session else lookup r other)
lookup-set r ip other session n t p q e = elim (Option-cases (route_index other)) [
  | inl u ↦ ground (
    arith,
    u,
    e,
    lookup_unrouted r other u,
    lookup_unrouted (record { slots = set r.slots n (some session) }) other u,
  )
  | inr (m, f) ↦ ground (
    arith,
    e,
    f,
    t,
    (route_index_iff ip n p).0 e,
    route_index-injective ip other n p q e,
    lookup_routed other m f r,
    lookup_routed other m f (record { slots = set r.slots n (some session) }),
    get_or-set_self r.slots n (some session) none,
    get_or-set_ne r.slots n m (some session) none,
  )
]

-- After a successful assignment the address, which was free, leads to the session, and every other
-- address leads where it led.
pub lookup-assign :
    (r : Router) (ip other session : ℕ)
    → IsTable r
    → ip < 0x1_0000_0000
    → other < 0x1_0000_0000
    → (assign r ip session).0 ≡ true
    → (lookup (assign r ip session).1 other
        ≡ (if other == ip then some session else lookup r other))
      × (lookup r ip ≡ none)
      × IsTable (assign r ip session).1
lookup-assign r ip other session t p q h = elim (Option-cases (route_index ip)) [
  | inl u ↦ absurd (ground (arith, assign_unrouted r ip session u, h))
  | inr (n, e) ↦
      let k = assign_routed r ip session n e h in
      rw (k.0) (
        lookup-set r ip other session n t p q e,
        lookup_routed ip n e r ∙ k.1,
        length-set r.slots n (some session) ∙ t,
      )
]

get_or-release_slots :
    (session : ℕ) (slots : List SessionRef) (i : ℕ)
    → get_or (release_slots session slots) i none
      ≡ (if same_session (get_or slots i none) session then none else get_or slots i none)
get_or-release_slots session [] i = refl
get_or-release_slots session (s ∷ slots) zero = refl
get_or-release_slots session (s ∷ slots) (suc i) = get_or-release_slots session slots i

-- A released session is behind no address, and the other sessions stay where they are.
pub lookup-release :
    (r : Router) (session ip : ℕ)
    → lookup (release r session) ip
      ≡ (if same_session (lookup r ip) session then none else lookup r ip)
lookup-release r session ip = elim (Option-cases (route_index ip)) [
  | inl u ↦ rw (lookup_unrouted (release r session) ip u, lookup_unrouted r ip u)
  | inr (n, e) ↦
      rw (lookup_routed ip n e (release r session), lookup_routed ip n e r)
        (unfold release in get_or-release_slots session r.slots n)
]
