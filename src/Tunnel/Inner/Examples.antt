-- ===== src/Tunnel/Inner/Examples.antt =====
-- The inner checks at a concrete packet.
use sangtachi.Prelude.{ℕ, ◌≡◌, ◌↔◌, refl, List, [], ◌∷◌, arith}
use sangtachi.Tunnel.Wire.{read_u8, read_u32}
use sangtachi.Tunnel.Inner.{InnerError, sum_words, fold_sum, check_inner_header, check_inner_ipv4}
use sangtachi.Tunnel.Inner.Accepted.{IsInner, check_inner_ipv4_iff}

abbrev empty_datagram : List ℕ
empty_datagram =
    0x45 ∷ 0 ∷ 0 ∷ 20 ∷ 0 ∷ 0 ∷ 0 ∷ 0 ∷ 0x40 ∷ 0x11 ∷ 0x66 ∷ 0x0f ∷ 0x0a ∷ 0x64 ∷ 0 ∷ 2 ∷ 0x0a
    ∷ 0x64 ∷ 0 ∷ 1 ∷ []

accepts_it : check_inner_ipv4 empty_datagram 0x0a64_0002 0x0a64_0001 ≡ InnerError.no_error
unfolding check_inner_ipv4 check_inner_header fold_sum sum_words read_u8 read_u32
accepts_it = refl

refuses_swapped : check_inner_ipv4 empty_datagram 0x0a64_0001 0x0a64_0002 ≡ InnerError.src
unfolding check_inner_ipv4 check_inner_header fold_sum sum_words read_u8 read_u32
refuses_swapped = refl

check_inner_ipv4_iff_example :
    (check_inner_ipv4 empty_datagram 0x0a64_0002 0x0a64_0001 ≡ InnerError.no_error)
    ↔ IsInner empty_datagram 0x0a64_0002 0x0a64_0001
check_inner_ipv4_iff_example =
    check_inner_ipv4_iff empty_datagram 0x0a64_0002 0x0a64_0001 (ground arith)
