-- ===== src/Tunnel/Packet/Payloads.antt =====
-- Round trips of the HELLO, PING and CLOSE payloads.
use sangtachi.Prelude.{
  ℕ, ◌%◌, ◌<◌, ◌≡◌, ◌↔◌, refl, ◌∙◌, List, [], ◌∷◌, ◌++◌, length, take, replicate, copy_to,
  copy_to-prefix, arith, take-length, take-append, length-append, subst,
}
use sangtachi.Prelude.Bits.{◌>>>◌}
use sangtachi.Tunnel.Wire.{
  read_u8, read_u32, read_u64, write_u32, write_u64, split32, split64, bytes32, write_u32-append,
  read_u32-append,
}
use sangtachi.Tunnel.Packet.{
  PacketError, payload_length_ok, HelloPayload, encode_hello, decode_hello, encode_ping,
  decode_ping, CloseReason, encode_close, decode_close,
}

-- A PING payload with a 64-bit id is decoded to what was encoded.
pub decode-encode_ping :
    (id : ℕ)
    → id < 0x1_0000_0000_0000_0000
    → decode_ping (encode_ping id) ≡ record { error = PacketError.no_error; ping_id = id }
unfolding decode_ping encode_ping payload_length_ok read_u8 read_u32 read_u64 write_u64 write_u32
decode-encode_ping id h = ground (
  arith,
  split32 (id >>> 32) (omega arith),
  split32 (id % 0x1_0000_0000) (omega arith),
  split64 id h,
)

pub decode-encode_close :
    (r : CloseReason)
    → decode_close (encode_close r) ≡ record { error = PacketError.no_error; reason = r }
unfolding decode_close encode_close payload_length_ok read_u8
decode-encode_close r = ground arith

-- A CLOSE payload is read exactly if it is one byte that names a reason.
pub decode_close_iff :
    (p : List ℕ) (r : CloseReason)
    → ((decode_close p ≡ record { error = PacketError.no_error; reason = r })
        ↔ (p ≡ encode_close r))
unfolding decode_close encode_close payload_length_ok read_u8
decode_close_iff [] r = ground arith
decode_close_iff (x ∷ []) r = ground arith
decode_close_iff (x ∷ y ∷ p) r = ground arith

-- The bytes of a HELLO payload.
encode_hello-eq :
    (p : HelloPayload) → length p.nonce ≡ 16 → encode_hello p ≡ p.nonce ++ bytes32 p.virtual_ip []
unfolding encode_hello
encode_hello-eq p n =
    let whole : take 16 p.nonce ≡ p.nonce =
      subst (λ k. take k p.nonce ≡ p.nonce) n (take-length p.nonce) in
    let filled : copy_to (replicate 20 0) 0 p.nonce ≡ p.nonce ++ (0 ∷ 0 ∷ 0 ∷ 0 ∷ []) =
      copy_to-prefix p.nonce (replicate 20 0) (omega (arith, n)) ∙ rw n refl in
    rw (whole, filled)
      (subst
        (λ k.
          write_u32 (p.nonce ++ (0 ∷ 0 ∷ 0 ∷ 0 ∷ [])) k p.virtual_ip
          ≡ p.nonce ++ bytes32 p.virtual_ip [])
        n (write_u32-append p.nonce 0 0 0 0 p.virtual_ip []))

-- A HELLO payload with a nonce of 16 bytes and a 32-bit address is decoded to what was encoded.
pub decode-encode_hello :
    (p : HelloPayload)
    → length p.nonce ≡ 16
    → p.virtual_ip < 0x1_0000_0000
    → decode_hello (encode_hello p) ≡ record { error = PacketError.no_error; value = p }
unfolding decode_hello payload_length_ok
decode-encode_hello p n h = rw (encode_hello-eq p n) (
    ground (
      arith,
      length-append p.nonce (bytes32 p.virtual_ip []),
      n,
      subst (λ k. take k (p.nonce ++ bytes32 p.virtual_ip []) ≡ p.nonce) n
          (take-append p.nonce (bytes32 p.virtual_ip [])),
      subst (λ k. read_u32 (p.nonce ++ bytes32 p.virtual_ip []) k ≡ p.virtual_ip) n
          (read_u32-append p.nonce p.virtual_ip [] h),
    ))
