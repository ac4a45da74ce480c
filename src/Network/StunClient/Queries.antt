-- ===== src/Network/StunClient/Queries.antt =====
-- The operations of the STUN client: a query begins and ends, the slots are filled again, and what a
-- timer and a datagram do. `random n` is the answer of the n-th draw of a transaction id.
use sangtachi.Prelude.{
  ℕ, zero, suc, ◌+◌, ◌-◌, Bool, true, false, not, ◌&&◌, Option, none, some, List, [], ◌∷◌, ◌++◌,
  ltb, leb, ◌==◌, if◌then◌else◌, length, get_or, set, any, bytes_eq,
}
use sangtachi.Counters.{Counter, add}
use sangtachi.Timer.{add_once, cancel}
use sangtachi.Network.Endpoint.{Endpoint}
use sangtachi.Network.Stun.{
  StunMessageType, Parsed, StunResponse, peek_transaction_id, parse_binding_response,
}
use sangtachi.Network.StunClient.{
  StunClient, StunPhase, Slot, stun_deadline_ms, stun_concurrency, stun_required_responses,
  retry_intervals, retry_prefix, deadline_prefix, tail_index, retry_timer, deadline_timer, is_done,
  in_flight, free_slot, find_slot, place_of, awaits, slot_at, server_at, send_request,
}

abbrev pub write_slot : ℕ → Slot → StunClient → StunClient
write_slot i slot c = record c { slots = set c.slots i slot }

-- `timers_.add_once`; a name that is taken only leaves a line in the log.
abbrev pub arm_once : List ℕ → ℕ → ℕ → StunClient → StunClient
arm_once name delay now c = record c { timers = (add_once c.timers name delay now).1 }

abbrev pub disarm : List ℕ → StunClient → StunClient
disarm name c = record c { timers = (cancel c.timers name).1 }

-- A query of the server begins in the slot at place `i`.
unfoldable pub start_query : ℕ → ℕ → ℕ → List ℕ → StunClient → StunClient
start_query i server_index now transaction c =
    let slot : Slot = record {
      active = true;
      server_index = server_index;
      transaction = transaction;
      sent = 1;
    } in
    arm_once (deadline_timer server_index) stun_deadline_ms now (
      arm_once (retry_timer server_index) (get_or retry_intervals 0 0) now
        (send_request slot (write_slot i slot c)))

-- `begin_query`, with the transaction id that was drawn, if there was one: whether the query began, and
-- the client.
abbrev pub query_with : ℕ → ℕ → ℕ → StunClient → Option (List ℕ) → Bool × StunClient
query_with i server_index now c none = (false, c)
query_with i server_index now c (some transaction) =
    (true, start_query i server_index now transaction c)

unfoldable pub begin_query : (ℕ → Option (List ℕ)) → ℕ → ℕ → ℕ → StunClient → Bool × StunClient
begin_query random i server_index now c =
    query_with i server_index now (record c { draws = c.draws + 1 }) (random c.draws)

-- The query in the slot at place `i` ends.
unfoldable pub release : ℕ → StunClient → StunClient
release i c =
    let slot = slot_at c i in
    let c = disarm (deadline_timer slot.server_index) (disarm (retry_timer slot.server_index) c) in
    record (write_slot i (record slot { active = false; sent = 0 }) c) {
      resolved = c.resolved ++ (slot.transaction ∷ []);
    }

-- The loop over the slots from place `i` that releases the active ones.
abbrev pub release_from : ℕ → ℕ → StunClient → StunClient
release_from zero i c = c
release_from (suc left) i c =
    release_from left (suc i) (if (slot_at c i).active then release i c else c)

unfoldable pub release_all : StunClient → StunClient
release_all c = release_from (length c.slots) 0 c

unfoldable pub fail : StunClient → StunClient
fail c = record (release_all c) { phase = StunPhase.failed }

-- The condition of the loop that fills the slots.
abbrev pub wants_query : StunClient → Bool
wants_query c =
    ltb (length c.mappings) stun_required_responses
    && ltb (in_flight c) stun_concurrency
    && ltb c.next_server (length c.servers)

-- One round of that loop, with the free slot if there is one; `again` are the other rounds.
abbrev pub fill_slot :
    (ℕ → Option (List ℕ))
    → ℕ
    → (StunClient → Bool × StunClient)
    → StunClient
    → Option ℕ
    → Bool × StunClient
fill_slot random now again c none = (true, c)
fill_slot random now again c (some i) =
    let begun =
      begin_query random i c.next_server now (record c { next_server = c.next_server + 1 }) in
    if not begun.0 then begun else again begun.1

-- That loop, with the servers that are left as fuel; whether every transaction id was drawn.
unfoldable pub fill : (ℕ → Option (List ℕ)) → ℕ → ℕ → StunClient → Bool × StunClient
fill random now zero c = (true, c)
fill random now (suc fuel) c =
    if not (wants_query c)
    then (true, c)
    else fill_slot random now (fill random now fuel) c (free_slot c)

-- What `refill` does behind the loop.
unfoldable pub settle : StunClient → StunClient
settle c =
    if leb stun_required_responses (length c.mappings)
    then release_all (record c { phase = StunPhase.succeeded })
    else if in_flight c == 0
    then fail c
    else record c { phase = StunPhase.running }

unfoldable pub refill : (ℕ → Option (List ℕ)) → ℕ → StunClient → StunClient
refill random now c =
    let filled = fill random now (length c.servers - c.next_server) c in
    if is_done c.phase then c else if not filled.0 then fail filled.1 else settle filled.1

abbrev pub is_running : StunPhase → Bool
is_running StunPhase.running = true
is_running phase = false

abbrev pub is_idle : StunPhase → Bool
is_idle StunPhase.idle = true
is_idle phase = false

-- `start`; it gives back whether the phase is then RUNNING.
unfoldable pub start : (ℕ → Option (List ℕ)) → ℕ → StunClient → StunClient
start random now c =
    if not (is_idle c.phase)
    then c
    else if ltb (length c.servers) stun_required_responses
    then fail c
    else refill random now c

-- A retry of the query in the slot at place `i`.
unfoldable pub retry : ℕ → ℕ → ℕ → StunClient → StunClient
retry index i now c =
    let slot = slot_at c i in
    let sent = slot.sent + 1 in
    let c1 = write_slot i (record slot { sent = sent }) (send_request slot c) in
    if leb (length retry_intervals + 1) slot.sent
    then c
    else if ltb sent (length retry_intervals + 1)
    then arm_once (retry_timer index) (get_or retry_intervals (sent - 1) 0) now c1
    else c1

-- `on_timer`: the deadline of the query at a place, if there is such a query.
abbrev pub deadline_at : (ℕ → Option (List ℕ)) → ℕ → StunClient → Option ℕ → StunClient
deadline_at random now c none = c
deadline_at random now c (some i) = refill random now (release i c)

abbrev pub deadline_of : (ℕ → Option (List ℕ)) → ℕ → StunClient → Option ℕ → StunClient
deadline_of random now c none = c
deadline_of random now c (some index) = deadline_at random now c (find_slot c index)

-- And the retry of the query at a place.
abbrev pub retry_at : ℕ → ℕ → StunClient → Option ℕ → StunClient
retry_at index now c none = c
retry_at index now c (some i) = retry index i now c

abbrev pub retry_of : (ℕ → Option (List ℕ)) → List ℕ → ℕ → StunClient → Option ℕ → StunClient
retry_of random name now c none = deadline_of random now c (tail_index name deadline_prefix)
retry_of random name now c (some index) = retry_at index now c (find_slot c index)

unfoldable pub on_timer : (ℕ → Option (List ℕ)) → List ℕ → ℕ → StunClient → StunClient
on_timer random name now c =
    if is_done c.phase then c else retry_of random name now c (tail_index name retry_prefix)

abbrev pub count_parse : StunClient → StunClient
count_parse c = record c { counters = add c.counters Counter.drop_stun_parse 1 }

abbrev pub is_error : StunMessageType → Bool
is_error StunMessageType.binding_error_response = true
is_error type = false

abbrev pub keep_mapped : List ℕ → StunClient → Option Endpoint → StunClient
keep_mapped label c none = c
keep_mapped label c (some mapped) = record c {
  mappings = c.mappings ++ (record { server = label; mapped = mapped } ∷ []);
}

-- The endpoint of a success response is kept; it always has one.
abbrev pub take_mapped : List ℕ → StunResponse → StunClient → StunClient
take_mapped label r c = if is_error r.type then c else keep_mapped label c r.mapped

-- What the parser made of a datagram for the query in the slot at place `i`.
abbrev pub on_parsed : (ℕ → Option (List ℕ)) → ℕ → ℕ → StunClient → Parsed StunResponse → StunClient
on_parsed random i now c (Parsed.failure e) = count_parse c
on_parsed random i now c (Parsed.ok r) =
    refill random now (release i (take_mapped (server_at c (slot_at c i).server_index).label r c))

-- A datagram for the query at a place, if there is such a query.
abbrev pub datagram_at : (ℕ → Option (List ℕ)) → List ℕ → ℕ → StunClient → Option ℕ → StunClient
datagram_at random payload now c none = count_parse c
datagram_at random payload now c (some i) =
    on_parsed random i now c (parse_binding_response payload (slot_at c i).transaction)

abbrev pub datagram_of :
    (ℕ → Option (List ℕ)) → List ℕ → ℕ → StunClient → Option (List ℕ) → StunClient
datagram_of random payload now c none = count_parse c
datagram_of random payload now c (some id) =
    if any (bytes_eq id) c.resolved
    then c
    else datagram_at random payload now c (place_of (awaits id) c.slots)

unfoldable pub on_datagram : (ℕ → Option (List ℕ)) → List ℕ → ℕ → StunClient → StunClient
on_datagram random payload now c = datagram_of random payload now c (peek_transaction_id payload)
