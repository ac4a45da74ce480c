-- ===== src/Peer/Candidates.antt =====
-- client/src/peer/candidates.cpp and client/include/sangtachi/peer/candidates.hpp, with the data of
-- client/include/sangtachi/platform/interfaces.hpp and the candidates of control/ops.hpp: which local
-- addresses are offered to the peers, and in which order. What the operating system answers to the
-- two queries is an argument.
pub mod Registration
pub mod Selection
pub mod Subnets
pub mod Broadcasts
pub mod Distinct
mod Examples
use sangtachi.Prelude.{
  ℕ, zero, suc, ◌+◌, ◌-◌, Bool, true, false, not, ◌&&◌, ◌||◌, Option, none, some, List, [], ◌∷◌,
  ◌++◌, ltb, leb, ◌==◌, if◌then◌else◌, length, take, any, bit_and, bit_or, bytes_eq,
}
use sangtachi.Prelude.Bits.{◌<<<◌, u32}
use sangtachi.Protocol.{max_candidates}
use sangtachi.Network.Endpoint.{Endpoint, endpoint_eq}

pub data OperStatus : Type 0 where
  up down testing unknown dormant not_present lower_layer_down : OperStatus

pub data DadState : Type 0 where
  invalid tentative duplicate deprecated preferred : DadState

pub record InterfaceAddress : Type 0 where
  pub address : ℕ
  pub prefix_length : ℕ
  pub dad_state : DadState

pub record InterfaceInfo : Type 0 where
  pub if_index : ℕ
  pub if_type : ℕ
  pub oper_status : OperStatus
  pub guid : List ℕ
  pub addresses : List InterfaceAddress

pub record Ipv4Route : Type 0 where
  pub destination : ℕ
  pub prefix_length : ℕ
  pub if_index : ℕ
  pub route_metric : ℕ
  pub interface_metric : ℕ

pub record InterfaceQuery : Type 0 where
  pub ok : Bool
  pub error : ℕ
  pub interfaces : List InterfaceInfo

pub record RouteQuery : Type 0 where
  pub ok : Bool
  pub error : ℕ
  pub routes : List Ipv4Route

pub data CandidateKind : Type 0 where
  local reflexive : CandidateKind

pub record Candidate : Type 0 where
  pub endpoint : Endpoint
  pub kind : CandidateKind

pub record OwnSubnet : Type 0 where
  pub address : ℕ
  pub prefix_length : ℕ

pub record LocalAddress : Type 0 where
  pub address : ℕ
  pub if_index : ℕ

pub record InterfaceJudgement : Type 0 where
  pub candidates : List LocalAddress
  pub own_subnets : List OwnSubnet

abbrev pub max_broadcast_prefix : ℕ
max_broadcast_prefix = 30

unfoldable pub is_loopback : ℕ → Bool
is_loopback address = bit_and address 0xff00_0000 == 0x7f00_0000

unfoldable pub is_apipa : ℕ → Bool
is_apipa address = bit_and address 0xffff_0000 == 0xa9fe_0000

abbrev pub is_active : OperStatus → DadState → Bool
is_active OperStatus.up DadState.preferred = true
is_active status dad = false

-- PPP, the software loopback, proprietary virtual interfaces and tunnels.
unfoldable pub is_excluded_if_type : ℕ → Bool
is_excluded_if_type if_type =
    (if_type == 24) || (if_type == 53) || (if_type == 131) || (if_type == 23)

unfoldable pub fits_own_subnet : ℕ → ℕ → Bool
fits_own_subnet address prefix_length =
    not (is_loopback address) && leb prefix_length max_broadcast_prefix

unfoldable pub push_unique : List Candidate → Candidate → List Candidate
push_unique out c =
    if any (λ kept. endpoint_eq kept.endpoint c.endpoint) out then out else out ++ (c ∷ [])

-- `OwnSubnet::broadcast`. The complement of a mask of 32 bits is its distance from 0xffffffff.
unfoldable pub broadcast : OwnSubnet → ℕ
broadcast s =
    let mask = if s.prefix_length == 0 then 0 else u32 (0xffff_ffff <<< (32 - s.prefix_length)) in
    bit_or s.address (0xffff_ffff - mask)

-- The constructor of `OwnSubnets`: a set of subnets is the list of its entries.
abbrev pub own_subnets_of : List OwnSubnet → List OwnSubnet
own_subnets_of [] = []
own_subnets_of (e ∷ entries) =
    let rest = own_subnets_of entries in
    if fits_own_subnet e.address e.prefix_length then e ∷ rest else rest

unfoldable pub blocks_broadcast : List OwnSubnet → ℕ → Bool
blocks_broadcast entries address = any (λ e. broadcast e == address) entries

abbrev pub is_own : Option (List ℕ) → List ℕ → Bool
is_own none guid = false
is_own (some own) guid = bytes_eq guid own

-- One address of an interface, with the lists so far.
abbrev pub judge_address :
    InterfaceInfo
    → Bool
    → InterfaceAddress
    → List LocalAddress × List OwnSubnet
    → List LocalAddress × List OwnSubnet
judge_address iface excluded addr out =
    let subnets =
      if fits_own_subnet addr.address addr.prefix_length
      then out.1 ++ (record { address = addr.address; prefix_length = addr.prefix_length } ∷ [])
      else out.1 in
    let candidates =
      if excluded || is_loopback addr.address || is_apipa addr.address
      then out.0
      else out.0 ++ (record { address = addr.address; if_index = iface.if_index } ∷ []) in
    if not (is_active iface.oper_status addr.dad_state) then out else (candidates, subnets)

abbrev pub judge_addresses :
    InterfaceInfo
    → Bool
    → List InterfaceAddress
    → List LocalAddress × List OwnSubnet
    → List LocalAddress × List OwnSubnet
judge_addresses iface excluded [] out = out
judge_addresses iface excluded (addr ∷ addresses) out =
    judge_addresses iface excluded addresses (judge_address iface excluded addr out)

abbrev pub judge_each :
    Option (List ℕ)
    → List InterfaceInfo
    → List LocalAddress × List OwnSubnet
    → List LocalAddress × List OwnSubnet
judge_each own_wintun [] out = out
judge_each own_wintun (iface ∷ interfaces) out = judge_each own_wintun interfaces (
    judge_addresses iface (is_own own_wintun iface.guid || is_excluded_if_type iface.if_type)
      iface.addresses out)

unfoldable pub judge_interfaces : List InterfaceInfo → Option (List ℕ) → InterfaceJudgement
judge_interfaces interfaces own_wintun =
    let out = judge_each own_wintun interfaces ([], []) in
    record { candidates = out.0; own_subnets = own_subnets_of out.1 }

-- Whether the interface of a route with this sum of metrics takes the place of the best so far.
abbrev pub is_better : ℕ → Option (ℕ × ℕ) → Bool
is_better sum none = true
is_better sum (some best) = ltb sum best.1

-- One round of the loop, with the best interface so far and its sum of metrics; the sum of two words
-- fits 64 bits.
abbrev pub take_route : Ipv4Route → Option (ℕ × ℕ) → Option (ℕ × ℕ)
take_route r best =
    let sum = r.route_metric + r.interface_metric in
    if not (r.destination == 0) || not (r.prefix_length == 0)
    then best
    else if is_better sum best
    then some (r.if_index, sum)
    else best

abbrev pub best_route : List Ipv4Route → Option (ℕ × ℕ) → Option (ℕ × ℕ)
best_route [] best = best
best_route (r ∷ routes) best = best_route routes (take_route r best)

unfoldable pub default_route_interface : List Ipv4Route → Option ℕ
default_route_interface routes = elim (best_route routes none) [
  | none ↦ none
  | some best ↦ some best.0
]

abbrev pub push_reflexive : List Candidate → List Endpoint → List Candidate
push_reflexive out [] = out
push_reflexive out (r ∷ rest) =
    push_reflexive (push_unique out (record { endpoint = r; kind = CandidateKind.reflexive })) rest

abbrev pub local_candidate : ℕ → LocalAddress → Candidate
local_candidate local_port l = record {
  endpoint = record { address = l.address; port = local_port };
  kind = CandidateKind.local;
}

-- `default_if && l.if_index == *default_if`.
abbrev pub is_default : Option ℕ → LocalAddress → Bool
is_default none l = false
is_default (some i) l = l.if_index == i

-- One of the two loops over the local addresses: those on the default interface, or the others.
abbrev pub push_locals : Option ℕ → Bool → ℕ → List Candidate → List LocalAddress → List Candidate
push_locals default_if wanted local_port out [] = out
push_locals default_if wanted local_port out (l ∷ locals) =
    push_locals default_if wanted local_port
      (if (if wanted then is_default default_if l else not (is_default default_if l))
        then push_unique out (local_candidate local_port l)
        else out)
      locals

unfoldable pub registration_list : List Endpoint → List LocalAddress → Option ℕ → ℕ → List Candidate
registration_list endpoints locals default_if local_port =
    let out = push_reflexive [] endpoints in
    let out = push_locals default_if true local_port out locals in
    take max_candidates (push_locals default_if false local_port out locals)

pub record Collection : Type 0 where
  pub registration : List Candidate
  pub own_subnets : List OwnSubnet
  pub enumerate_failed : Bool
  pub enumerate_error : ℕ
  pub route_failed : Bool
  pub route_error : ℕ

unfoldable pub collect :
    List Endpoint → ℕ → InterfaceQuery → RouteQuery → Option (List ℕ) → List OwnSubnet → Collection
collect endpoints local_port interfaces routes own_wintun previous =
    let judged = judge_interfaces interfaces.interfaces own_wintun in
    let locals = if interfaces.ok then judged.candidates else [] in
    let default_if = if routes.ok then default_route_interface routes.routes else none in
    record {
      registration = registration_list endpoints locals default_if local_port;
      own_subnets = if interfaces.ok then judged.own_subnets else previous;
      enumerate_failed = not interfaces.ok;
      enumerate_error = if interfaces.ok then 0 else interfaces.error;
      route_failed = not routes.ok;
      route_error = if routes.ok then 0 else routes.error;
    }
