-- ===== src/Peer/Candidates/Broadcasts.antt =====
-- Which addresses are blocked as directed broadcasts, and a collection whose query fails.
use sangtachi.Prelude.{
  ℕ, ◌/◌, ◌<◌, ◌≡◌, refl, ap, ap₂, ◌∙◌, inl, inr, Bool, false, not, ◌&&◌, ◌||◌, Option, none, List,
  [], ◌∷◌, ◌++◌, map, All, any, take, arith, leb, ◌==◌, if◌then◌else◌, Bool-cases, append-nil,
}
use sangtachi.Network.Endpoint.{Endpoint}
use sangtachi.Peer.Candidates.{
  OwnSubnet, InterfaceAddress, InterfaceInfo, InterfaceQuery, RouteQuery, CandidateKind,
  fits_own_subnet, blocks_broadcast, own_subnets_of, is_active, judge_interfaces,
  default_route_interface, collect,
}
use sangtachi.Peer.Candidates.Registration.{firsts, registration_list-firsts}
use sangtachi.Peer.Candidates.Subnets.{
  last_address, broadcast-last_address, is_loopback-eq, flat, FitsWord, attached, attaches,
  judge_each-flat,
}

-- Whether an address is the last one of the subnet of an active address.
abbrev pub closes : ℕ → InterfaceInfo → InterfaceAddress → Bool
closes address iface addr =
    is_active iface.oper_status addr.dad_state
    && (not (addr.address / 0x100_0000 == 127) && leb addr.prefix_length 30)
    && (last_address (record { address = addr.address; prefix_length = addr.prefix_length })
        == address)

blocks-append :
    (xs ys : List OwnSubnet) (address : ℕ)
    → blocks_broadcast (own_subnets_of (xs ++ ys)) address ≡ (
        blocks_broadcast (own_subnets_of xs) address
        || blocks_broadcast (own_subnets_of ys) address)
unfolding blocks_broadcast
blocks-append [] ys address = refl
blocks-append (x ∷ xs) ys address = ground (arith, blocks-append xs ys address)

blocks-attached :
    (iface : InterfaceInfo) (address : ℕ) (addr : InterfaceAddress)
    → addr.address < 0x1_0000_0000
    → blocks_broadcast (own_subnets_of (attached iface addr)) address ≡ closes address iface addr
unfolding blocks_broadcast fits_own_subnet
blocks-attached iface address addr h = elim (Bool-cases (leb addr.prefix_length 30)) [
  | inl e ↦ ground (
    arith,
    is_loopback-eq addr.address h,
    broadcast-last_address (record { address = addr.address; prefix_length = addr.prefix_length })
        (ground arith),
  )
  | inr e ↦ ground (arith, is_loopback-eq addr.address h)
]

blocks-each :
    (iface : InterfaceInfo) (address : ℕ) (addresses : List InterfaceAddress)
    → All (λ (a : InterfaceAddress). a.address < 0x1_0000_0000) addresses
    → blocks_broadcast (own_subnets_of (flat (attached iface) addresses)) address
      ≡ any (closes address iface) addresses
unfolding blocks_broadcast
blocks-each iface address [] h = refl
blocks-each iface address (addr ∷ addresses) h =
    blocks-append (attached iface addr) (flat (attached iface) addresses) address
    ∙ ap₂ (◌||◌) (blocks-attached iface address addr h.0) (blocks-each iface address addresses h.1)

blocks-flat :
    (address : ℕ) (interfaces : List InterfaceInfo)
    → All FitsWord interfaces
    → blocks_broadcast (own_subnets_of (flat attaches interfaces)) address
      ≡ any (λ iface. any (closes address iface) iface.addresses) interfaces
unfolding blocks_broadcast
blocks-flat address [] h = refl
blocks-flat address (iface ∷ interfaces) h =
    blocks-append (attaches iface) (flat attaches interfaces) address
    ∙ ap₂ (◌||◌) (blocks-each iface address iface.addresses h.0)
        (blocks-flat address interfaces h.1)

-- After a judgement an address is blocked as a broadcast exactly if it is the last one of the subnet,
-- with a prefix of at most 30 bits, of an active address outside 127.0.0.0/8, of whatever interface.
pub blocks-judge_interfaces :
    (own_wintun : Option (List ℕ)) (interfaces : List InterfaceInfo) (address : ℕ)
    → All FitsWord interfaces
    → blocks_broadcast (judge_interfaces interfaces own_wintun).own_subnets address
      ≡ any (λ iface. any (closes address iface) iface.addresses) interfaces
unfolding judge_interfaces
blocks-judge_interfaces own_wintun interfaces address h =
    ap (λ p. blocks_broadcast (own_subnets_of p.1) address)
      (judge_each-flat own_wintun interfaces ([], []) h)
    ∙ blocks-flat address interfaces h

-- When the query of the interfaces fails, the subnets stay as they were and only the observed
-- endpoints are registered.
pub collect_failed :
    (endpoints : List Endpoint) (port : ℕ) (interfaces : InterfaceQuery) (routes : RouteQuery)
    (own_wintun : Option (List ℕ)) (previous : List OwnSubnet)
    → interfaces.ok ≡ false
    → ((collect endpoints port interfaces routes own_wintun previous).own_subnets ≡ previous)
      × ((collect endpoints port interfaces routes own_wintun previous).registration
          ≡ take 8 (
              firsts
                (map (λ r. record { endpoint = r; kind = CandidateKind.reflexive }) endpoints)))
unfolding collect
collect_failed endpoints port interfaces routes own_wintun previous h =
    let default_if = if routes.ok then default_route_interface routes.routes else none in
    rw h (
      refl,
      registration_list-firsts endpoints [] default_if port
          ∙ ap (λ l. take 8 (firsts l))
              (append-nil
                (map (λ r. record { endpoint = r; kind = CandidateKind.reflexive }) endpoints)),
    )
