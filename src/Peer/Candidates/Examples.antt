-- ===== src/Peer/Candidates/Examples.antt =====
-- Tests of the candidates, and the theorems at concrete interfaces and routes.
use sangtachi.Prelude.{
  ◌≡◌, refl, true, false, none, some, List, [], ◌∷◌, All, any, map, take, arith,
}
use sangtachi.Network.Endpoint.{Endpoint}
use sangtachi.Peer.Candidates.{
  OperStatus, DadState, InterfaceInfo, InterfaceQuery, RouteQuery, Ipv4Route, LocalAddress,
  blocks_broadcast, judge_interfaces, default_route_interface, registration_list, push_unique,
}
use sangtachi.Peer.Candidates.Registration.{firsts, preferred_order, registration_list-firsts}
use sangtachi.Peer.Candidates.Selection.{
  IsDefaultInterface, default_route_interface-IsDefaultInterface,
}
use sangtachi.Peer.Candidates.Subnets.{FitsWord}
use sangtachi.Peer.Candidates.Broadcasts.{closes, blocks-judge_interfaces}

abbrev seen : List Endpoint
seen =
    record { address = 0xcb00_7105; port = 6000 }
    ∷ record { address = 0xcb00_7105; port = 6000 }
    ∷ []

abbrev locals : List LocalAddress
locals =
    record { address = 0xc0a8_0002; if_index = 3 }
    ∷ record { address = 0x0a00_0009; if_index = 7 }
    ∷ []

-- 192.168.0.2/24 on a network card, and the loopback.
abbrev cards : List InterfaceInfo
cards =
    record {
      if_index = 3;
      if_type = 6;
      oper_status = OperStatus.up;
      guid = 1 ∷ [];
      addresses =
          record { address = 0xc0a8_0002; prefix_length = 24; dad_state = DadState.preferred } ∷ [];
    }
    ∷ record {
      if_index = 1;
      if_type = 24;
      oper_status = OperStatus.up;
      guid = 2 ∷ [];
      addresses =
          record { address = 0x7f00_0001; prefix_length = 8; dad_state = DadState.preferred } ∷ [];
    }
    ∷ []

cards-FitsWord : All FitsWord cards
cards-FitsWord = ground arith

abbrev routes : List Ipv4Route
routes =
    record {
      destination = 0;
      prefix_length = 0;
      if_index = 3;
      route_metric = 25;
      interface_metric = 10;
    }
    ∷ record {
      destination = 0;
      prefix_length = 0;
      if_index = 7;
      route_metric = 5;
      interface_metric = 10;
    }
    ∷ []

default_is_seven : default_route_interface routes ≡ some 7
unfolding default_route_interface
default_is_seven = refl

-- The observed endpoint once, then the address on interface 7.
registered :
    map (λ c. c.endpoint.address) (registration_list seen locals (some 7) 5000)
    ≡ 0xcb00_7105 ∷ 0x0a00_0009 ∷ 0xc0a8_0002 ∷ []
unfolding registration_list push_unique
registered = refl

registration_list-firsts_example :
    registration_list seen locals (some 7) 5000
    ≡ take 8 (firsts (preferred_order seen locals (some 7) 5000))
registration_list-firsts_example = registration_list-firsts seen locals (some 7) 5000

default_route_interface-IsDefaultInterface_example :
    IsDefaultInterface routes (default_route_interface routes)
default_route_interface-IsDefaultInterface_example =
    default_route_interface-IsDefaultInterface routes

blocks-judge_interfaces_example :
    blocks_broadcast (judge_interfaces cards none).own_subnets 0xc0a8_00ff
    ≡ any (λ iface. any (closes 0xc0a8_00ff iface) iface.addresses) cards
blocks-judge_interfaces_example = blocks-judge_interfaces none cards 0xc0a8_00ff cards-FitsWord

abbrev no_interfaces : InterfaceQuery
no_interfaces = record { ok = false; error = 5; interfaces = cards }

abbrev some_routes : RouteQuery
some_routes = record { ok = true; error = 0; routes = routes }
