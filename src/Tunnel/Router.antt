-- ===== src/Tunnel/Router.antt =====
-- client/src/tunnel/router.cpp and client/include/sangtachi/tunnel/router.hpp: the routing table of
-- the virtual network. A session pointer is a number, a null pointer `none`.
pub mod Routes
mod Examples
use sangtachi.Prelude.{
  ℕ, ◌+◌, Bool, true, false, not, ◌&&◌, ◌||◌, Option, none, some, List, [], ◌∷◌, map, ltb, ◌==◌,
  if◌then◌else◌, bit_and, get_or, set, replicate,
}
use sangtachi.Protocol.{max_peers}

unfoldable pub is_not_unicast : ℕ → Bool
is_not_unicast destination =
    (bit_and destination 0xf000_0000 == 0xe000_0000)
    || (destination == 0xffff_ffff)
    || (destination == 0x0a64_00ff)

unfoldable pub route_index : ℕ → Option ℕ
route_index virtual_ip =
    let octet = bit_and virtual_ip 0xff in
    if not (bit_and virtual_ip 0xffff_ff00 == 0x0a64_0000)
    then none
    else if ltb octet 1 || ltb max_peers octet
    then none
    else some octet

abbrev pub SessionRef : Type 0
SessionRef = Option ℕ

-- `slots_`, of `max_peers + 1` entries.
pub record Router : Type 0 where
  pub slots : List SessionRef

abbrev pub empty_router : Router
empty_router = record { slots = replicate (max_peers + 1) none }

abbrev pub is_null : SessionRef → Bool
is_null none = true
is_null (some _) = false

-- `slot == session` on pointers.
abbrev pub same_session : SessionRef → ℕ → Bool
same_session none s = false
same_session (some t) s = t == s

unfoldable pub assign : Router → ℕ → ℕ → Bool × Router
assign r virtual_ip session = elim (route_index virtual_ip) [
  | none ↦ (false, r)
  | some slot ↦
      if not (is_null (get_or r.slots slot none))
      then (false, r)
      else (true, record { slots = set r.slots slot (some session) })
]

abbrev pub release_slots : ℕ → List SessionRef → List SessionRef
release_slots session [] = []
release_slots session (slot ∷ slots) =
    (if same_session slot session then none else slot) ∷ release_slots session slots

unfoldable pub release : Router → ℕ → Router
release r session = record { slots = release_slots session r.slots }

unfoldable pub lookup : Router → ℕ → SessionRef
lookup r virtual_ip = elim (route_index virtual_ip) [
  | none ↦ none
  | some slot ↦ get_or r.slots slot none
]
