-- ===== src/Tests/Streaming.antt =====
-- NAL units, packets and clients that exercise the theorems on streaming.
use veda_rtsp.Base.{
  ℕ, ◌≡◌, refl, ◌>>=◌, Bool, true, false, none, some, List, [], ◌∷◌, ◌++◌, Bytes, arith, All,
}
use veda_rtsp.Base64.{base64_encode}
use veda_rtsp.Base64.RoundTrip.{base64_decode, base64_decode-base64_encode}
use veda_rtsp.Rtp.Packetizer.{Header, build_packet}
use veda_rtsp.Rtp.Packetizer.Decode.{IsHeader, decode_packet, decode_packet-build_packet}
use veda_rtsp.Rtp.H264Fua.{fragment_nal, fragment_loop, max_payload_per_fragment}
use veda_rtsp.Rtp.H264Fua.Reassembly.{IsNalHeader, idle, reassemble, reassemble-fragment_nal}
use veda_rtsp.Rtp.H264Fua.Bounds.{AllWithin, fragment_nal-AllWithin, fragment_loop_diverges}
use veda_rtsp.Rtp.Streamer.{Streamer, send_nal}
use veda_rtsp.Rtp.Streamer.Packets.{IsSession}
use veda_rtsp.Rtp.Streamer.Delivery.{Delivered, send_nal-Delivered}
use veda_rtsp.Rtp.Streamer.Packed.{IsPacket, send_nal-IsPacket}
use veda_rtsp.Media.Hub.{Subscriber, Hub, on_nal}
use veda_rtsp.Media.AnnexB.{Stream, read_nal}
use veda_rtsp.Media.AnnexB.Chunks.{IsSame, concat, read_nal-IsSame}
use veda_rtsp.Media.Hub.Broadcast.{Served, IsLive, on_nal-Served}

-- An IDR slice of eight bytes.
abbrev idr_payload : Bytes
idr_payload = 1 ∷ 2 ∷ 3 ∷ 4 ∷ 5 ∷ 6 ∷ 7 ∷ []

idr-IsNalHeader : IsNalHeader 0x65
idr-IsNalHeader = record { header_byte = omega arith; not_fu = omega arith }

-- A client at the last sequence number.
abbrev client : Streamer
client = record {
  connected = true;
  sequence = 65535;
  timestamp = 3000;
  ssrc = 7;
  payload_type = 96;
}

client-IsSession : IsSession client
client-IsSession = record {
  payload_type_fits = omega arith;
  sequence_fits = omega arith;
  timestamp_fits = omega arith;
  ssrc_fits = omega arith;
}

abbrev always : ℕ → Bool
always i = true

abbrev never : ℕ → Bool
never i = false

abbrev two_payloads : List Bytes
two_payloads = (1 ∷ []) ∷ (2 ∷ 3 ∷ []) ∷ []

abbrev last_header : Header
last_header = record {
  payload_type = 96;
  sequence = 65535;
  timestamp = 3000;
  ssrc = 7;
  marker = true;
}

last_header-IsHeader : IsHeader last_header
last_header-IsHeader = record {
  payload_type_fits = omega arith;
  sequence_fits = omega arith;
  timestamp_fits = omega arith;
  ssrc_fits = omega arith;
}

abbrev viewer : Subscriber
viewer = record { id = 4; streamer = client }

abbrev hub : Hub
hub = record { subscribers = viewer ∷ []; running = true; sps = []; pps = []; ts_increment = 3000 }

viewer-IsLive : IsLive viewer
viewer-IsLive = record { session = client-IsSession; connected = refl }

reassemble-fragment_nal_example :
    (frags : List Bytes) × (fragment_nal (0x65 ∷ idr_payload) 4 ≡ some frags)
    × ((later : List Bytes)
        → reassemble idle (frags ++ later)
          ≡ (reassemble idle later >>= λ nals. some ((0x65 ∷ idr_payload) ∷ nals)))
reassemble-fragment_nal_example =
    reassemble-fragment_nal 0x65 idr_payload 4 idr-IsNalHeader (omega arith) (omega arith)

fragment_nal-AllWithin_example : AllWithin 4 (fragment_nal (0x65 ∷ idr_payload) 4)
fragment_nal-AllWithin_example =
    fragment_nal-AllWithin (0x65 ∷ idr_payload) 4 (omega arith) (omega arith)

fragment_loop_diverges_example :
    fragment_loop 1000 (max_payload_per_fragment 2) 0x65 true idr_payload ≡ none
fragment_loop_diverges_example =
    fragment_loop_diverges 1000 0x65 true 1 (2 ∷ 3 ∷ 4 ∷ 5 ∷ 6 ∷ 7 ∷ [])

decode_packet-build_packet_example :
    decode_packet (build_packet last_header idr_payload) ≡ some (last_header, idr_payload)
decode_packet-build_packet_example =
    decode_packet-build_packet last_header idr_payload last_header-IsHeader

send_nal-Delivered_example :
    (r : Streamer × List Bytes × Bool) × (send_nal always client (0x65 ∷ idr_payload) ≡ some r)
    × Delivered client (0x65 ∷ idr_payload) r
send_nal-Delivered_example =
    send_nal-Delivered always client 0x65 idr_payload (λ i. refl) client-IsSession refl
      idr-IsNalHeader

base64_decode-base64_encode_example :
    base64_decode (base64_encode (77 ∷ 97 ∷ [])) ≡ some (77 ∷ 97 ∷ [])
base64_decode-base64_encode_example =
    base64_decode-base64_encode (77 ∷ 97 ∷ []) (omega arith, (omega arith, tt))

on_nal-Served_example :
    (h' : Hub) × (sent : List (ℕ × List Bytes)) × (on_nal (λ id. always) (0x65 ∷ idr_payload) hub
      ≡ some (h', sent))
    × Served 0x65 idr_payload 3000 (viewer ∷ []) h'.subscribers sent
on_nal-Served_example =
    on_nal-Served (λ id. always) (λ id i. refl) 0x65 idr_payload idr-IsNalHeader hub
      (viewer-IsLive, tt)

-- Two NAL units; the reads cut the second start code.
abbrev reads : Stream
reads = (0 ∷ 0 ∷ 1 ∷ 103 ∷ 66 ∷ 0 ∷ []) ∷ (0 ∷ 0 ∷ []) ∷ (1 ∷ 104 ∷ []) ∷ []

read_nal-IsSame_example : IsSame (read_nal [] reads) (read_nal (concat reads) [])
read_nal-IsSame_example = read_nal-IsSame [] reads

send_nal-IsPacket_example :
    (r : Streamer × List Bytes × Bool) × (send_nal never client (0x65 ∷ 255 ∷ []) ≡ some r)
    × All IsPacket r.1
send_nal-IsPacket_example =
    send_nal-IsPacket never client (0x65 ∷ 255 ∷ []) (omega arith, (omega arith, tt))
