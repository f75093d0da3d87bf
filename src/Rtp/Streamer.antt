-- ===== src/Rtp/Streamer.antt =====
-- src/rtp/streamer.hpp and streamer.cpp: the RTP session of one client.
pub mod Packets
pub mod Delivery
pub mod Receive
pub mod Packed
use veda_rtsp.Base.{
  ℕ, suc, ◌+◌, Bool, true, false, not, ◌||◌, if◌then◌else◌, Option, none, some, ◌>>=◌, List, [],
  ◌∷◌, Bytes, u16, u32,
}
use veda_rtsp.Rtp.Packetizer.{Header, build_packet}
use veda_rtsp.Rtp.H264Fua.{default_mtu, fragment_nal}

-- The socket itself is the system's; `connected` says that it has a default destination.
pub record Streamer : Type 0 where
  pub connected : Bool
  pub sequence : ℕ  -- uint16_t
  pub timestamp : ℕ  -- uint32_t
  pub ssrc : ℕ  -- uint32_t
  pub payload_type : ℕ  -- uint8_t

-- The constructor; the two numbers are what the random generator gives.
unfoldable pub make_streamer : ℕ → ℕ → Streamer
make_streamer random_ssrc random_sequence = record {
  connected = false;
  sequence = u16 random_sequence;
  timestamp = 0;
  ssrc = u32 random_ssrc;
  payload_type = 96;
}

-- `socket_.connect_to` is the system's: its answer is an argument.
unfoldable pub connect : Bool → Streamer → Streamer × Bool
connect answered s = if answered then (record s { connected = true }, true) else (s, false)

-- `hdr` for one fragment, before `sequence_++`.
abbrev pub header_for : Streamer → Bool → Header
header_for s is_last = record {
  payload_type = s.payload_type;
  sequence = s.sequence;
  timestamp = s.timestamp;
  ssrc = s.ssrc;
  marker = is_last;
}

abbrev pub bump : Streamer → Streamer
bump s = record s { sequence = u16 (s.sequence + 1) }

abbrev pub is_end : List Bytes → Bool
is_end [] = true
is_end (p ∷ ps) = false

-- The loop over the fragments. The i-th call of `send` succeeds if `sends i`. The result is the
-- new state, the packets handed to the socket, and the value returned.
unfoldable pub send_loop : (ℕ → Bool) → ℕ → Streamer → List Bytes → Streamer × List Bytes × Bool
send_loop sends i s [] = (s, [], true)
send_loop sends i s (payload ∷ rest) =
    let packet = build_packet (header_for s (is_end rest)) payload in
    let (s', packets, sent) = send_loop sends (suc i) (bump s) rest in
    if sends i then (s', packet ∷ packets, sent) else (bump s, packet ∷ [], false)

-- `fragments.empty()` cannot hold behind the guard on the length, but the code asks.
abbrev pub send_fragments : (ℕ → Bool) → Streamer → List Bytes → Streamer × List Bytes × Bool
send_fragments sends s [] = (s, [], false)
send_fragments sends s (p ∷ ps) = send_loop sends 0 s (p ∷ ps)

abbrev pub is_empty : Bytes → Bool
is_empty [] = true
is_empty (b ∷ bs) = false

-- `none` would mean that the cutting does not end.
unfoldable pub send_nal : (ℕ → Bool) → Streamer → Bytes → Option (Streamer × List Bytes × Bool)
send_nal sends s nal =
    if not s.connected || is_empty nal
    then some (s, [], false)
    else (fragment_nal nal default_mtu >>= λ fragments. some (send_fragments sends s fragments))

unfoldable pub advance_timestamp : ℕ → Streamer → Streamer
advance_timestamp increment s = record s { timestamp = u32 (s.timestamp + increment) }

unfoldable pub set_ssrc : ℕ → Streamer → Streamer
set_ssrc ssrc s = record s { ssrc = ssrc }
