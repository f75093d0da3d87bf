-- ===== src/Rtp/H264Fua.antt =====
-- src/rtp/h264_fua.hpp and h264_fua.cpp: cutting a NAL into RTP payloads (RFC 6184, FU-A).
pub mod Reassembly
pub mod Bounds
use veda_rtsp.Base.{
  ℕ, zero, suc, ◌+◌, ◌-◌, ◌%◌, ◌^◌, min, Bool, true, false, if◌then◌else◌, leb, Option, none, some,
  ◌>>=◌, List, [], ◌∷◌, ◌++◌, Bytes, bit_and, bit_or, length, take, drop, u64,
}

-- kDefaultMtu
abbrev pub default_mtu : ℕ
default_mtu = 1400

-- `fnri | 28`, from the header byte of the NAL.
unfoldable pub fu_indicator : ℕ → ℕ
fu_indicator nal_header = bit_or (bit_and nal_header 0xE0) 28

-- `nal_type`, then `|= 0x80` on the first fragment and `|= 0x40` on the last.
unfoldable pub fu_header : ℕ → Bool → Bool → ℕ
fu_header nal_header is_first is_last =
    let nal_type = bit_and nal_header 0x1F in
    let started = if is_first then bit_or nal_type 0x80 else nal_type in
    if is_last then bit_or started 0x40 else started

-- `while (offset < payload_len)`. The list is the payload from `offset` on; `none` means that the
-- fuel ran out.
unfoldable pub fragment_loop : ℕ → ℕ → ℕ → Bool → Bytes → Option (List Bytes)
fragment_loop fuel max_payload nal_header is_first [] = some []
fragment_loop zero max_payload nal_header is_first (b ∷ bs) = none
fragment_loop (suc fuel) max_payload nal_header is_first (b ∷ bs) = do
  let payload = b ∷ bs
  let chunk_size = min max_payload (length payload)
  let is_last = leb (length payload) chunk_size
  let header = fu_header nal_header is_first is_last
  rest ← fragment_loop fuel max_payload nal_header false (drop chunk_size payload)
  some ((fu_indicator nal_header ∷ header ∷ take chunk_size payload) ∷ rest)

-- `mtu - 2` in std::size_t.
abbrev pub max_payload_per_fragment : ℕ → ℕ
max_payload_per_fragment mtu = u64 (mtu + 2 ^ 64 - 2)

-- A null pointer is the empty range. Each round takes a byte at least, unless `mtu` is 2.
unfoldable pub fragment_nal : Bytes → ℕ → Option (List Bytes)
fragment_nal [] mtu = some []
fragment_nal (nal_header ∷ payload) mtu =
    if leb (length (nal_header ∷ payload)) mtu
    then some ((nal_header ∷ payload) ∷ [])
    else fragment_loop (length payload) (max_payload_per_fragment mtu) nal_header true payload
