-- ===== src/Network/StunClient.antt =====
-- client/src/network/stun_client.cpp and client/include/sangtachi/network/stun_client.hpp: the state
-- machine that asks the servers for the endpoint, two at a time. The set of timers and the counters
-- that the class borrows are fields here; `sent` is what it hands to the socket, the latest first,
-- whose answer it ignores. The answer of the n-th draw of a transaction id is an argument. Log lines
-- are left out.
pub mod Names
pub mod Queries
pub mod Valid
pub mod Slots
pub mod Steps
pub mod Settled
pub mod Events
pub mod Arrivals
pub mod Runs
pub mod Progress
pub mod Ending
mod Examples
use sangtachi.Prelude.{
  ℕ, zero, suc, ◌+◌, ◌-◌, ◌*◌, ◌/◌, Bool, true, false, not, ◌&&◌, ◌||◌, Option, none, some, List,
  [], ◌∷◌, ◌++◌, ltb, leb, ◌==◌, if◌then◌else◌, length, get_or, set, any, take, drop, bytes_eq,
}
use sangtachi.Counters.{Counter, Counters, add}
use sangtachi.Timer.{TimerSet, add_once, cancel}
use sangtachi.Network.Decimal.{to_string}
use sangtachi.Network.Endpoint.{Endpoint, endpoint_eq, digits_value}
use sangtachi.Network.Stun.{
  StunMessageType, Parsed, StunResponse, build_binding_request, peek_transaction_id,
  parse_binding_response,
}

abbrev pub stun_deadline_ms : ℕ
stun_deadline_ms = 5000

abbrev pub stun_concurrency : ℕ
stun_concurrency = 2

abbrev pub stun_required_responses : ℕ
stun_required_responses = 2

-- `kStunRetryIntervalsMs`.
abbrev pub retry_intervals : List ℕ
retry_intervals = 500 ∷ 1000 ∷ 2000 ∷ []

-- "stun.retry." and "stun.deadline.".
abbrev pub retry_prefix : List ℕ
retry_prefix = b's' ∷ b't' ∷ b'u' ∷ b'n' ∷ b'.' ∷ b'r' ∷ b'e' ∷ b't' ∷ b'r' ∷ b'y' ∷ b'.' ∷ []

abbrev pub deadline_prefix : List ℕ
deadline_prefix =
    b's' ∷ b't' ∷ b'u' ∷ b'n' ∷ b'.' ∷ b'd' ∷ b'e' ∷ b'a' ∷ b'd' ∷ b'l' ∷ b'i' ∷ b'n' ∷ b'e' ∷ b'.'
    ∷ []

abbrev pub max_index_digits : ℕ
max_index_digits = 10

abbrev pub starts_with : List ℕ → List ℕ → Bool
starts_with text prefix =
    leb (length prefix) (length text) && bytes_eq (take (length prefix) text) prefix

-- The number behind the prefix, of the form that `to_string` writes.
unfoldable pub tail_index : List ℕ → List ℕ → Option ℕ
tail_index name prefix =
    let tail = drop (length prefix) name in
    if not (starts_with name prefix)
    then none
    else if (length tail == 0) || ltb max_index_digits (length tail)
    then none
    else if ltb 1 (length tail) && (get_or tail 0 0 == b'0')
    then none
    else digits_value 0 tail

unfoldable pub retry_timer : ℕ → List ℕ
retry_timer server_index = retry_prefix ++ to_string server_index

unfoldable pub deadline_timer : ℕ → List ℕ
deadline_timer server_index = deadline_prefix ++ to_string server_index

abbrev pub has_value : Option ℕ → Bool
has_value none = false
has_value (some n) = true

unfoldable pub owns_timer : List ℕ → Bool
owns_timer name =
    has_value (tail_index name retry_prefix) || has_value (tail_index name deadline_prefix)

pub record StunServerName : Type 0 where
  pub host : List ℕ
  pub port : ℕ

pub record StunServer : Type 0 where
  pub label : List ℕ
  pub endpoint : Endpoint

-- Whether there is a server with the endpoint already.
abbrev pub has_server : List StunServer → Endpoint → Bool
has_server servers endpoint = any (λ s. endpoint_eq s.endpoint endpoint) servers

-- The loop over the names, with the servers so far; `resolve` is the resolver.
abbrev pub resolve_each :
    (List ℕ → ℕ → Option Endpoint) → List StunServerName → List StunServer → List StunServer
resolve_each resolve [] out = out
resolve_each resolve (entry ∷ list) out =
    resolve_each resolve list (elim (resolve entry.host entry.port) [
      | none ↦ out
      | some endpoint ↦
          if has_server out endpoint
          then out
          else out
            ++ (record { label = entry.host ++ (b':' ∷ to_string entry.port); endpoint = endpoint }
                ∷ [])
    ])

unfoldable pub resolve_stun_servers :
    List StunServerName → (List ℕ → ℕ → Option Endpoint) → List StunServer
resolve_stun_servers list resolve = resolve_each resolve list []

unfoldable pub stun_stage_cap_ms : ℕ → ℕ
stun_stage_cap_ms server_count =
    stun_deadline_ms * ((server_count + stun_concurrency - 1) / stun_concurrency)

pub record StunMapping : Type 0 where
  pub server : List ℕ
  pub mapped : Endpoint

pub data StunPhase : Type 0 where
  idle running succeeded failed : StunPhase

pub record Slot : Type 0 where
  pub active : Bool
  pub server_index : ℕ
  pub transaction : List ℕ
  pub sent : ℕ

abbrev pub empty_slot : Slot
empty_slot = record { active = false; server_index = 0; transaction = []; sent = 0 }

pub record StunClient : Type 0 where
  pub servers : List StunServer
  pub slots : List Slot
  pub next_server : ℕ
  pub mappings : List StunMapping
  pub resolved : List (List ℕ)
  pub phase : StunPhase
  pub timers : TimerSet
  pub counters : Counters
  pub sent : List (Endpoint × List ℕ)
  pub draws : ℕ

abbrev pub new_stun_client : List StunServer → TimerSet → Counters → StunClient
new_stun_client servers timers counters = record {
  servers = servers;
  slots = empty_slot ∷ empty_slot ∷ [];
  next_server = 0;
  mappings = [];
  resolved = [];
  phase = StunPhase.idle;
  timers = timers;
  counters = counters;
  sent = [];
  draws = 0;
}

abbrev pub is_done : StunPhase → Bool
is_done StunPhase.idle = false
is_done StunPhase.running = false
is_done StunPhase.succeeded = true
is_done StunPhase.failed = true

abbrev pub count_active : List Slot → ℕ
count_active [] = 0
count_active (s ∷ slots) = if s.active then suc (count_active slots) else count_active slots

abbrev pub in_flight : StunClient → ℕ
in_flight c = count_active c.slots

-- The place of the first slot that the test is true of.
abbrev pub place_of : (Slot → Bool) → List Slot → Option ℕ
place_of p [] = none
place_of p (s ∷ slots) =
    let rest = place_of p slots in
    if p s then some 0 else elim rest [ none ↦ none | some i ↦ some (suc i) ]

abbrev pub asks : ℕ → Slot → Bool
asks server_index s = s.active && (s.server_index == server_index)

abbrev pub is_free : Slot → Bool
is_free s = not s.active

abbrev pub awaits : List ℕ → Slot → Bool
awaits transaction s = s.active && bytes_eq s.transaction transaction

abbrev pub find_slot : StunClient → ℕ → Option ℕ
find_slot c server_index = place_of (asks server_index) c.slots

abbrev pub free_slot : StunClient → Option ℕ
free_slot c = place_of is_free c.slots

abbrev pub slot_at : StunClient → ℕ → Slot
slot_at c i = get_or c.slots i empty_slot

abbrev pub server_at : StunClient → ℕ → StunServer
server_at c i =
    get_or c.servers i (record { label = []; endpoint = record { address = 0; port = 0 } })

abbrev pub send_request : Slot → StunClient → StunClient
send_request slot c = record c {
  sent =
      ((server_at c slot.server_index).endpoint, build_binding_request slot.transaction) ∷ c.sent;
}
