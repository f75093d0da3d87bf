-- ===== src/Rtp/Packetizer.antt =====
-- src/rtp/packetizer.hpp and packetizer.cpp: the 12 bytes of an RTP header.
pub mod Decode
use veda_rtsp.Base.{
  ℕ, ◌%◌, Bool, if◌then◌else◌, List, [], ◌∷◌, ◌++◌, Bytes, bit_and, bit_or, shr, u8,
}

pub record Header : Type 0 where
  pub payload_type : ℕ  -- uint8_t
  pub sequence : ℕ  -- uint16_t
  pub timestamp : ℕ  -- uint32_t
  pub ssrc : ℕ  -- uint32_t
  pub marker : Bool

-- `static_cast<uint8_t>((x >> k) & 0xFF)`
unfoldable pub byte_at : ℕ → ℕ → ℕ
byte_at k x = u8 (bit_and (shr x k) 0xFF)

unfoldable pub low_byte : ℕ → ℕ
low_byte x = u8 (bit_and x 0xFF)

-- Byte 1: the marker bit over the payload type.
unfoldable pub marker_byte : Bool → ℕ → ℕ
marker_byte marker payload_type =
    u8 (bit_or (if marker then 0x80 else 0x00) (bit_and payload_type 0x7F))

-- `out[0]` to `out[11]`, in order.
unfoldable pub write_header : Header → Bytes
write_header h =
    0x80
    ∷ marker_byte h.marker h.payload_type
    ∷ byte_at 8 h.sequence
    ∷ low_byte h.sequence
    ∷ byte_at 24 h.timestamp
    ∷ byte_at 16 h.timestamp
    ∷ byte_at 8 h.timestamp
    ∷ low_byte h.timestamp
    ∷ byte_at 24 h.ssrc
    ∷ byte_at 16 h.ssrc
    ∷ byte_at 8 h.ssrc
    ∷ low_byte h.ssrc
    ∷ []

-- The packet's first 12 bytes are the header's; the payload is copied behind them.
unfoldable pub build_packet : Header → Bytes → Bytes
build_packet h payload = write_header h ++ payload
