-- ===== src/Tunnel/DataSender.antt =====
-- client/src/tunnel/data_sender.cpp: the console's `send` command, its arguments, the packets it makes
-- and the job that sends them. `clock n` is what the clock shows when packet n is made; the tunnel that
-- the class borrows is handed in and back. Log lines are left out.
pub mod Work
pub mod Arguments
pub mod Checksum
mod Examples
use sangtachi.Prelude.{
  ℕ, zero, suc, ◌+◌, ◌-◌, ◌*◌, Bool, true, false, not, ◌&&◌, ◌||◌, Option, none, some, List, [],
  ◌∷◌, ◌++◌, ltb, leb, ◌==◌, if◌then◌else◌, length, get_or, set, replicate, bit_and,
}
use sangtachi.Prelude.Bits.{◌>>>◌, u8, u16, u32}
use sangtachi.Protocol.{max_inner}
use sangtachi.Network.Endpoint.{digits_value, at_most, find, parse_ipv4}
use sangtachi.Peer.Session.State.{Session}
use sangtachi.Tunnel.Inner.{sum_words, fold_sum, fold_fuel}
use sangtachi.Tunnel.Table.{
  Entry, Tunnel, TxOutcome, find_entry, is_connected, routed_entry, send_data,
}

abbrev pub synthetic_size : ℕ
synthetic_size = 100

abbrev pub synthetic_min_size : ℕ
synthetic_min_size = 20

abbrev pub send_max_count : ℕ
send_max_count = 1000

abbrev pub synthetic_port : ℕ
synthetic_port = 25565

abbrev pub marker_request : ℕ
marker_request = 0xa5

-- The bytes of the value in big-endian order; what lies behind the end of the packet is left out.
unfoldable pub put : List ℕ → ℕ → ℕ → ℕ → List ℕ
put p at value zero = p
put p at value (suc width) =
    put (if ltb at (length p) then set p at (u8 (value >>> (8 * width))) else p) (at + 1) value
      width

unfoldable pub fill_ipv4_checksum : List ℕ → List ℕ
fill_ipv4_checksum packet =
    let cleared = set (set packet 10 0) 11 0 in
    let sum = fold_sum fold_fuel (sum_words 10 0 cleared 0) in
    let checksum = u16 (bit_and (0xffff_ffff - sum) 0xffff) in
    if ltb (length packet) 20
    then packet
    else set (set cleared 10 (u8 (checksum >>> 8))) 11 (bit_and checksum 0xff)

-- The addresses, ports, number and time, behind the fields that are always the same.
unfoldable pub make_synthetic : ℕ → ℕ → ℕ → ℕ → ℕ → List ℕ
make_synthetic size src dst number sent_ms =
    let p = put (replicate size marker_request) 0 0x45 1 in
    let p = put (put (put p 1 0 1) 2 size 2) 4 0 2 in
    let p = put (put (put (put p 6 0 2) 8 64 1) 9 17 1) 10 0 2 in
    let p = put (put p 12 src 4) 16 dst 4 in
    let p = put (put p 20 synthetic_port 2) 22 synthetic_port 2 in
    let p = put (put p 24 (size - 20) 2) 26 0 2 in
    fill_ipv4_checksum (put (put p 28 number 4) 32 sent_ms 8)

-- `parse_number` of a type whose greatest number is the limit.
unfoldable pub parse_number : ℕ → List ℕ → Option ℕ
parse_number limit text = if length text == 0 then none else at_most limit (digits_value 0 text)

abbrev pub push_word : List ℕ → List (List ℕ) → List (List ℕ)
push_word [] words = words
push_word (c ∷ word) words = (c ∷ word) ∷ words

-- The words between spaces, with the characters of the word at hand.
abbrev pub words_of : List ℕ → List ℕ → List (List ℕ)
words_of word [] = push_word word []
words_of word (c ∷ rest) =
    let ended = push_word word (words_of [] rest) in
    let longer = words_of (word ++ (c ∷ [])) rest in if c == b' ' then ended else longer

pub record SendArgs : Type 0 where
  pub count : ℕ
  pub size : ℕ
  pub to : Option ℕ

abbrev pub in_range : ℕ → ℕ → Option ℕ → Option ℕ
in_range low high none = none
in_range low high (some n) = if ltb n low || ltb high n then none else some n

abbrev pub has_dot : List ℕ → Bool
has_dot word = elim (find b'.' word) [ none ↦ false | some n ↦ true ]

abbrev pub with_to : ℕ → ℕ → Option ℕ → Option SendArgs
with_to count size none = none
with_to count size (some to) = some (record { count = count; size = size; to = some to })

-- The words behind the size.
unfoldable pub parse_to : ℕ → ℕ → List (List ℕ) → Option SendArgs
parse_to count size [] = some (record { count = count; size = size; to = none })
parse_to count size (word ∷ words) =
    if length words == 0 then with_to count size (parse_ipv4 word) else none

abbrev pub with_size : ℕ → List (List ℕ) → Option ℕ → Option SendArgs
with_size count words none = none
with_size count words (some size) = parse_to count size words

-- The words behind the count.
unfoldable pub parse_size : ℕ → List (List ℕ) → Option SendArgs
parse_size count [] = parse_to count synthetic_size []
parse_size count (word ∷ words) =
    if not (has_dot word)
    then with_size count words
        (in_range synthetic_min_size max_inner (parse_number 0xffff_ffff_ffff_ffff word))
    else parse_to count synthetic_size (word ∷ words)

abbrev pub with_count : List (List ℕ) → Option ℕ → Option SendArgs
with_count words none = none
with_count words (some count) = parse_size count words

unfoldable pub parse_words : List (List ℕ) → Option SendArgs
parse_words [] = none
parse_words (word ∷ words) =
    if ltb 3 (length (word ∷ words))
    then none
    else with_count words (in_range 1 send_max_count (parse_number 0xffff_ffff word))

abbrev pub parse_send_args : List ℕ → Option SendArgs
parse_send_args rest = parse_words (words_of [] rest)

pub record Job : Type 0 where
  pub args : SendArgs
  pub to : ℕ
  pub next : ℕ
  pub sent : ℕ

pub record DataSender : Type 0 where
  pub job : Option Job
  pub queued : List (List ℕ)

abbrev pub new_data_sender : DataSender
new_data_sender = record { job = none; queued = [] }

abbrev pub has_job : DataSender → Bool
has_job s = elim s.job [ none ↦ false | some j ↦ true ]

unfoldable pub busy : DataSender → Bool
busy s = has_job s || not (length s.queued == 0)

abbrev pub connected_ip : Option Entry → List ℕ
connected_ip none = []
connected_ip (some e) = if is_connected e.session then e.session.config.peer_virtual_ip ∷ [] else []

-- `connected_peers`: the addresses of the connected sessions, in the order of the routing slots.
abbrev pub connected_peers : Tunnel → List (Option ℕ) → List ℕ
connected_peers t [] = []
connected_peers t (none ∷ slots) = connected_peers t slots
connected_peers t (some id ∷ slots) =
    connected_ip (find_entry id t.sessions) ++ connected_peers t slots

abbrev pub refuses : Option Entry → Bool
refuses none = false
refuses (some e) = not (is_connected e.session)

abbrev pub only_peer : List ℕ → Option ℕ
only_peer [] = none
only_peer (ip ∷ []) = some ip
only_peer (ip ∷ jp ∷ ips) = none

-- The destination of a command, if it is not rejected.
unfoldable pub send_destination : Tunnel → Option ℕ → Option ℕ
send_destination t (some to) = if refuses (routed_entry t to) then none else some to
send_destination t none = only_peer (connected_peers t t.routes.slots)

abbrev pub begin_job : SendArgs → Option ℕ → DataSender → DataSender
begin_job args none s = s
begin_job args (some to) s = record s {
  job = some (record { args = args; to = to; next = 0; sent = 0 });
}

abbrev pub on_args : Tunnel → Option SendArgs → DataSender → DataSender
on_args t none s = s
on_args t (some args) s = if has_job s then s else begin_job args (send_destination t args.to) s

unfoldable pub on_command : List ℕ → Tunnel → DataSender → DataSender
on_command rest t s = on_args t (parse_send_args rest) s

abbrev pub enqueue : List ℕ → DataSender → DataSender
enqueue inner s = record s { queued = s.queued ++ (inner ∷ []) }

-- The packets that wait are sent first: what is left of the budget and of them, and the tunnel.
unfoldable pub drain : ℕ → List (List ℕ) → Tunnel → ℕ × List (List ℕ) × Tunnel
drain zero queued t = (0, queued, t)
drain (suc budget) [] t = (suc budget, [], t)
drain (suc budget) (inner ∷ queued) t = drain budget queued (send_data inner t).1

abbrev pub finished : Job → Option Job
finished j = if j.next == j.args.count then none else some j

-- The job behind the answer of the tunnel for one of its packets.
unfoldable pub after_answer : Job → TxOutcome → Option Job
after_answer j TxOutcome.send_failed = none
after_answer j TxOutcome.sent =
    finished (record j { next = u32 (j.next + 1); sent = u32 (j.sent + 1) })
after_answer j TxOutcome.dropped = finished (record j { next = u32 (j.next + 1) })

abbrev pub value_or_zero : Option ℕ → ℕ
value_or_zero none = 0
value_or_zero (some n) = n

unfoldable pub job_packet : (ℕ → ℕ) → Job → Tunnel → List ℕ
job_packet clock j t =
    make_synthetic j.args.size (value_or_zero t.local_vip) j.to j.next (clock j.next)

unfoldable pub pump_job : (ℕ → ℕ) → ℕ → Option Job → Tunnel → Option Job × Tunnel
pump_job clock zero job t = (job, t)
pump_job clock (suc budget) none t = (none, t)
pump_job clock (suc budget) (some j) t =
    let r = send_data (job_packet clock j t) t in pump_job clock budget (after_answer j r.0) r.1

-- `pump`; it gives back whether the sender is then busy.
unfoldable pub pump : (ℕ → ℕ) → ℕ → DataSender → Tunnel → DataSender × Tunnel
pump clock budget s t =
    let d = drain budget s.queued t in
    let r = pump_job clock d.0 s.job d.2 in (record { job = r.0; queued = d.1 }, r.1)
