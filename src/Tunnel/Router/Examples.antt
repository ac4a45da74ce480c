-- ===== src/Tunnel/Router/Examples.antt =====
-- Tests of the routing table, and its theorems at concrete addresses.
use sangtachi.Prelude.{◌≡◌, refl, none, some, if◌then◌else◌, ◌==◌, arith}
use sangtachi.Tunnel.Router.{route_index, empty_router, assign, lookup}
use sangtachi.Tunnel.Router.Routes.{IsTable, lookup-assign}

outside : (route_index 0x0a64_0006 ≡ none) × (route_index 0x0a65_0001 ≡ none)
unfolding route_index
outside = (refl, refl)

assign_twice :
    (assign (assign empty_router 0x0a64_0002 7).1 0x0a64_0002 8).0 ≡ (assign empty_router 0 7).0
unfolding assign route_index
assign_twice = refl

lookup-assign_example :
    (lookup (assign empty_router 0x0a64_0002 7).1 0x0a64_0003
      ≡ (if 0x0a64_0003 == 0x0a64_0002 then some 7 else lookup empty_router 0x0a64_0003))
    × (lookup empty_router 0x0a64_0002 ≡ none)
    × IsTable (assign empty_router 0x0a64_0002 7).1
unfolding assign route_index
lookup-assign_example =
    lookup-assign empty_router 0x0a64_0002 0x0a64_0003 7 refl (omega arith) (omega arith) refl
