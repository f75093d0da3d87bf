-- ===== src/Tests/Sources.antt =====
-- Streams, files and connections that exercise the theorems on sources and sockets.
use veda_rtsp.Base.{
  ℕ, ◌≡◌, ◌≢◌, ◌⊎◌, inr, refl, true, false, some, List, [], ◌∷◌, ◌++◌, Bytes, ℤ, pos, negsuc, arith,
  ◌+◌, ◌*◌, ◌/◌,
}
use veda_rtsp.Media.AnnexB.{Stream}
use veda_rtsp.Media.AnnexB.Units.{NalUnit, IsNalUnit, read_all, read_all-annexb}
use veda_rtsp.Media.FileSource.{FileSource}
use veda_rtsp.Media.FileSource.Laws.{file_source}
use veda_rtsp.Media.Hub.{Subscriber, Hub, subscribe, unsubscribe}
use veda_rtsp.Media.Hub.Broadcast.{IsLive}
use veda_rtsp.Media.Hub.Pump.{Pumped, pump, on_nals}
use veda_rtsp.Media.Hub.Pump.Repeats.{AllSendable}
use veda_rtsp.Rtp.Streamer.Receive.{received}
use veda_rtsp.Media.Hub.Pump.Visits.{visitor_receives}
use veda_rtsp.Media.Hub.Pump.Received.{all_to, EachReceives, file_received}
use veda_rtsp.Media.FileSource.Pacing.{play, frames, play_clock}
use veda_rtsp.Media.FileSource.Repeat.{IsAt}
use veda_rtsp.Net.Tcp.{WriteAnswer, took, write_interrupted, write_failed, write}
use veda_rtsp.Net.Tcp.Transfer.{fails, write_delivers}

abbrev sps : NalUnit
sps = record { long = true; nal = 103 ∷ 66 ∷ [] }

abbrev idr : NalUnit
idr = record { long = false; nal = 101 ∷ 136 ∷ [] }

sps-IsNalUnit : IsNalUnit sps
sps-IsNalUnit = record { clean = omega arith; ne_nil = λ e. cc }

idr-IsNalUnit : IsNalUnit idr
idr-IsNalUnit = record { clean = omega arith; ne_nil = λ e. cc }

-- The reads cut both start codes.
abbrev pieces : Stream
pieces = (0 ∷ 0 ∷ []) ∷ (0 ∷ 1 ∷ 103 ∷ 66 ∷ 0 ∷ []) ∷ (0 ∷ 1 ∷ 101 ∷ 136 ∷ []) ∷ []

read_all-annexb_example : read_all 2 [] pieces ≡ (103 ∷ 66 ∷ []) ∷ (101 ∷ 136 ∷ []) ∷ []
read_all-annexb_example =
    read_all-annexb sps (idr ∷ []) [] pieces (sps-IsNalUnit, (idr-IsNalUnit, tt)) refl 1
      (omega arith)

-- The file of both units, opened in loop mode.
abbrev movie : Stream
movie = (0 ∷ 0 ∷ 0 ∷ 1 ∷ 103 ∷ 66 ∷ 0 ∷ 0 ∷ []) ∷ (1 ∷ 101 ∷ 136 ∷ []) ∷ []

abbrev player : FileSource
player = record { fps = 30; looping = true; file = some movie; reader = []; next_frame_time = 500 }

player-IsAt : IsAt (sps ∷ idr ∷ []) player
player-IsAt = record { looping = refl; rest = movie; open_file = refl; unread = refl }

abbrev viewer : Subscriber
viewer = record {
  id = 4;
  streamer = record {
    connected = true;
    sequence = 65535;
    timestamp = 3000;
    ssrc = 7;
    payload_type = 96;
  };
}

viewer-IsLive : IsLive viewer
viewer-IsLive = record {
  session = record {
    payload_type_fits = omega arith;
    sequence_fits = omega arith;
    timestamp_fits = omega arith;
    ssrc_fits = omega arith;
  };
  connected = refl;
}

abbrev hub : Hub
hub = record { subscribers = viewer ∷ []; running = true; sps = []; pps = []; ts_increment = 3000 }

sendable : AllSendable (sps ∷ idr ∷ [])
sendable = (
  record { header_byte = omega arith; not_fu = omega arith },
  (record { header_byte = omega arith; not_fu = omega arith }, tt),
)

file_received_example :
    (p : Pumped FileSource) × (pump (λ id i. true) file_source movie 3 player hub ≡ some p)
    × (p.ended ≡ false)
    × EachReceives
        ((103 ∷ 66 ∷ [])
          ∷ (101 ∷ 136 ∷ [])
          ∷ (103 ∷ 66 ∷ [])
          ∷ (101 ∷ 136 ∷ [])
          ∷ (103 ∷ 66 ∷ [])
          ∷ [])
        p.sent
        (viewer ∷ [])
file_received_example =
    file_received (λ id i. true) (λ id i. refl) movie sps idr [] refl
      (sps-IsNalUnit, (idr-IsNalUnit, tt)) sendable 3 sps (idr ∷ []) player hub refl
      (viewer-IsLive, tt) (refl, tt) (sps-IsNalUnit, (idr-IsNalUnit, tt)) sendable player-IsAt

-- The system takes one byte, is interrupted, and fails.
abbrev failing : List WriteAnswer
failing = took 1 ∷ write_interrupted ∷ write_failed ∷ []

write_delivers_example :
    (sent : Bytes) × (result : ℤ) × (write failing (82 ∷ 84 ∷ 80 ∷ []) ≡ some (sent, result))
    × (((result ≡ pos 3) × (sent ≡ 82 ∷ 84 ∷ 80 ∷ []))
        ⊎ ((result ≡ negsuc 0)
            × (fails failing ≡ true)
            × ((rest : Bytes) × (82 ∷ 84 ∷ 80 ∷ [] ≡ sent ++ rest) × (rest ≢ []))))
write_delivers_example = write_delivers failing (82 ∷ 84 ∷ 80 ∷ []) (inr refl)

-- A second client, that sees the SPS and not the IDR slice.
abbrev visitor : Subscriber
visitor = record viewer { id = 5 }

visitor_receives_example :
    ((subscribe true (some visitor) hub).1 ≡ true)
    × (h2 h3 : Hub) × (early late : List (List (ℕ × List Bytes))) × (on_nals
          (λ id i. true)
          ((103 ∷ 66 ∷ []) ∷ [])
          (subscribe true (some visitor) hub).0
        ≡ some (h2, early))
    × (on_nals (λ id i. true) ((101 ∷ 136 ∷ []) ∷ []) (unsubscribe 5 h2) ≡ some (h3, late))
    × (received 65535 (all_to 5 (early ++ late)) ≡ some ((103 ∷ 66 ∷ []) ∷ []))
    × EachReceives ((103 ∷ 66 ∷ []) ∷ (101 ∷ 136 ∷ []) ∷ []) (early ++ late) (viewer ∷ [])
visitor_receives_example =
    visitor_receives (λ id i. true) (λ id i. refl) true visitor hub ((103 ∷ 66 ∷ []) ∷ [])
      ((101 ∷ 136 ∷ []) ∷ []) refl (viewer-IsLive, tt) (refl, tt)
      (record { session = viewer-IsLive.session; connected = refl }) refl (sendable.0, tt)
      sendable.1

play_clock_example :
    (play 3 movie player).source.next_frame_time ≡ 500 + frames 3 movie player * (1_000_000 / 30)
play_clock_example = play_clock 3 movie player
