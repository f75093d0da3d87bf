-- ===== src/Rtp/Packetizer/Decode.antt =====
-- A receiver's view of an RTP packet (RFC 3550 section 5.1), and the round trip through it.
use veda_rtsp.Base.{
  ℕ, ◌+◌, ◌*◌, ◌/◌, ◌%◌, ◌^◌, ◌<◌, ◌≡◌, refl, Bool, true, false, if◌then◌else◌, ◌==◌, Option, none,
  some, [], ◌∷◌, Bytes, bit_and, bit_and_mask, bit_or_fields, arith, length,
}
use veda_rtsp.Rtp.Packetizer.{Header, byte_at, low_byte, marker_byte, write_header, build_packet}

-- The fields fit their widths in the header.
pub record IsHeader (h : Header) : Type 0 where
  pub payload_type_fits : h.payload_type < 2 ^ 7
  pub sequence_fits : h.sequence < 2 ^ 16
  pub timestamp_fits : h.timestamp < 2 ^ 32
  pub ssrc_fits : h.ssrc < 2 ^ 32

abbrev big_endian32 : ℕ → ℕ → ℕ → ℕ → ℕ
big_endian32 a b c d = ((a * 256 + b) * 256 + c) * 256 + d

-- Version 2, no padding, no extension, no CSRC; then the fields in network order.
unfoldable pub decode_packet : Bytes → Option (Header × Bytes)
decode_packet (v ∷ m ∷ s1 ∷ s0 ∷ t3 ∷ t2 ∷ t1 ∷ t0 ∷ c3 ∷ c2 ∷ c1 ∷ c0 ∷ payload) =
    if v == 128
    then some (
      record {
        payload_type = m % 128;
        sequence = s1 * 256 + s0;
        timestamp = big_endian32 t3 t2 t1 t0;
        ssrc = big_endian32 c3 c2 c1 c0;
        marker = m / 128 == 1;
      },
      payload,
    )
    else none
decode_packet _ = none

marker_byte_lem : (m : Bool) (pt : ℕ) → marker_byte m pt ≡ (if m then 128 else 0) + pt % 128
unfolding marker_byte
marker_byte_lem true pt = omega (arith, bit_and_mask 7 pt, bit_or_fields 7 1 (bit_and pt 0x7F))
marker_byte_lem false pt = omega (arith, bit_and_mask 7 pt, bit_or_fields 7 0 (bit_and pt 0x7F))

byte_at_lem : (k x : ℕ) → byte_at k x ≡ x / 2 ^ k % 256
unfolding byte_at
byte_at_lem k x = omega (arith, bit_and_mask 8 (x / 2 ^ k))

low_byte_lem : (x : ℕ) → low_byte x ≡ x % 256
unfolding low_byte
low_byte_lem x = omega (arith, bit_and_mask 8 x)

pub length-write_header : (h : Header) → length (write_header h) ≡ 12
unfolding write_header
length-write_header h = refl

-- The bytes of the header as quotients and remainders of the fields.
header_bytes : Header → Bytes
header_bytes h =
    128
    ∷ ((if h.marker then 128 else 0) + h.payload_type % 128)
    ∷ (h.sequence / 2 ^ 8 % 256)
    ∷ (h.sequence % 256)
    ∷ (h.timestamp / 2 ^ 24 % 256)
    ∷ (h.timestamp / 2 ^ 16 % 256)
    ∷ (h.timestamp / 2 ^ 8 % 256)
    ∷ (h.timestamp % 256)
    ∷ (h.ssrc / 2 ^ 24 % 256)
    ∷ (h.ssrc / 2 ^ 16 % 256)
    ∷ (h.ssrc / 2 ^ 8 % 256)
    ∷ (h.ssrc % 256)
    ∷ []

write_header-header_bytes : (h : Header) → write_header h ≡ header_bytes h
unfolding write_header header_bytes
write_header-header_bytes h = simp (marker_byte_lem, byte_at_lem, low_byte_lem)

-- A packet decodes to the header and the payload it was built from, when the fields fit their
-- widths.
pub decode_packet-build_packet :
    (h : Header) (payload : Bytes)
    → IsHeader h
    → decode_packet (build_packet h payload) ≡ some (h, payload)
unfolding decode_packet build_packet header_bytes
decode_packet-build_packet h payload v = rw (write_header-header_bytes h) (ground arith)
