-- ===== src/Tunnel/Packet/HeaderCodec.antt =====
-- The header codec: reading undoes writing, and writing undoes reading.
use sangtachi.Prelude.{ℕ, ◌<◌, ◌≡◌, refl, some, List, [], ◌∷◌, length, arith}
use sangtachi.Prelude.Bits.{◌>>>◌, u8}
use sangtachi.Protocol.{header_size}
use sangtachi.Tunnel.Wire.{read_u8, read_u16, read_u32, bytes32, split32, split16}
use sangtachi.Tunnel.Packet.{Header, serialize_header, deserialize_header}

-- Each field within the width of its type.
pub record IsHeader (h : Header) : Type 0 where
  pub magic : h.magic < 0x1_0000_0000
  pub version : h.version < 256
  pub type : h.type < 256
  pub payload_length : h.payload_length < 65536
  pub peer_id : h.peer_id < 0x1_0000_0000
  pub session_epoch : h.session_epoch < 0x1_0000_0000
  pub sequence : h.sequence < 0x1_0000_0000

abbrev pub header_bytes : Header → List ℕ → List ℕ
header_bytes h rest = bytes32 h.magic (
    h.version
    ∷ h.type
    ∷ u8 (h.payload_length >>> 8)
    ∷ u8 h.payload_length
    ∷ bytes32 h.peer_id (bytes32 h.session_epoch (bytes32 h.sequence rest)))

pub serialize_header-eq : (h : Header) → serialize_header h ≡ header_bytes h []
unfolding serialize_header
serialize_header-eq h = refl

-- Reading a datagram that begins with the bytes of a header gives the header back.
pub deserialize-header_bytes :
    (h : Header) (rest : List ℕ) → IsHeader h → deserialize_header (header_bytes h rest) ≡ some h
unfolding deserialize_header read_u8 read_u16 read_u32
deserialize-header_bytes h rest v = ground (
  arith,
  split32 h.magic v.magic,
  split16 h.payload_length v.payload_length,
  split32 h.peer_id v.peer_id,
  split32 h.session_epoch v.session_epoch,
  split32 h.sequence v.sequence,
)

-- A header whose fields fit their widths is read back from its serialization, which has the size of
-- a header.
pub deserialize-serialize :
    (h : Header)
    → IsHeader h
    → (deserialize_header (serialize_header h) ≡ some h)
      × (length (serialize_header h) ≡ header_size)
deserialize-serialize h v = rw serialize_header-eq (deserialize-header_bytes h [] v, refl)
