-- ===== src/Tunnel/DataSender/Examples.antt =====
-- The sender on concrete input.
use sangtachi.Prelude.{arith, ℕ, ◌-◌, ◌≤◌, ◌≡◌, refl, none, some, List, [], ◌∷◌, ltb}
use sangtachi.Network.Endpoint.{is_ascii_digit}
use sangtachi.Tunnel.Inner.{
  InnerError, sum_words, fold_sum, fold_fuel, check_inner_ipv4, check_inner_header,
}
use sangtachi.Tunnel.Wire.{read_u8, read_u32}
use sangtachi.Tunnel.Table.Runs.{empty_tunnel}
use sangtachi.Tunnel.DataSender.{
  DataSender, put, fill_ipv4_checksum, make_synthetic, parse_number, parse_to, parse_size,
  parse_words, parse_send_args, new_data_sender, on_command, enqueue, pump, busy,
}
use sangtachi.Tunnel.DataSender.Checksum.{fill_ipv4_checksum-sum_words}
use sangtachi.Tunnel.DataSender.Work.{IsReachable, created, commanded, queued, work, pump-work}

-- "5 28"
abbrev text : List ℕ
text = b'5' ∷ b' ' ∷ b'2' ∷ b'8' ∷ []

text_lem : parse_send_args text ≡ some (record { count = 5; size = 28; to = none })
unfolding parse_words parse_size parse_to parse_number is_ascii_digit
text_lem = refl

-- A packet that is cut behind its UDP header passes the inner checks of the peer.
synthetic-no_error :
    check_inner_ipv4 (make_synthetic 28 0x0a64_0001 0x0a64_0002 0 0) 0x0a64_0001 0x0a64_0002
    ≡ InnerError.no_error
unfolding make_synthetic put fill_ipv4_checksum check_inner_ipv4 check_inner_header sum_words
    fold_sum read_u8 read_u32
synthetic-no_error = refl

-- A command without a connected session, and a packet that waits.
abbrev sender : DataSender
sender = enqueue (1 ∷ 2 ∷ []) (on_command text empty_tunnel new_data_sender)

sender-IsReachable : IsReachable sender
sender-IsReachable = queued (1 ∷ 2 ∷ []) (commanded text empty_tunnel created)

pump-work_example :
    (work (pump (λ n. 0) 3 sender empty_tunnel).0 ≤ work sender - 3)
    × (busy (pump (λ n. 0) 3 sender empty_tunnel).0
        ≡ ltb 0 (work (pump (λ n. 0) 3 sender empty_tunnel).0))
pump-work_example = pump-work (λ n. 0) 3 sender empty_tunnel sender-IsReachable

-- A header without its checksum.
abbrev header : List ℕ
header =
    0x45 ∷ 0 ∷ 0 ∷ 20 ∷ 0 ∷ 0 ∷ 0 ∷ 0 ∷ 64 ∷ 17 ∷ 7 ∷ 7 ∷ 10 ∷ 100 ∷ 0 ∷ 1 ∷ 10 ∷ 100 ∷ 0 ∷ 2 ∷ []

fill_ipv4_checksum-sum_words_example :
    fold_sum fold_fuel (sum_words 10 0 (fill_ipv4_checksum header) 0) ≡ 0xffff
fill_ipv4_checksum-sum_words_example =
    fill_ipv4_checksum-sum_words header (omega arith) (ground arith)
