-- ===== src/Tests/Watching.antt =====
-- A server with one viewer, to which a second client sends its PLAY.
use veda_rtsp.Base.{
  ℕ, ◌≡◌, refl, true, some, List, [], ◌∷◌, Bytes, codes, pos, bytes_eq, print_int, print_nat, none,
  arith,
}
use veda_rtsp.Rtp.Streamer.{Streamer}
use veda_rtsp.Rtp.Streamer.Receive.{received}
use veda_rtsp.Media.Hub.{Hub, Subscriber}
use veda_rtsp.Media.Hub.Broadcast.{IsLive}
use veda_rtsp.Media.Hub.Pump.{on_nals}
use veda_rtsp.Media.Hub.Pump.Received.{all_to, EachReceives}
use veda_rtsp.Rtsp.Parser
use veda_rtsp.Rtsp.Parser.{Method, Headers, header, trim, lookup, assign, string_to_method}
use veda_rtsp.Rtsp.Parser.RoundTrip.{print_request, IsHeader, assign_all}
use veda_rtsp.Rtsp.Parser.Sequence.{IsWellFormed}
use veda_rtsp.Rtsp.Session.Handlers.{ready, Session, Answers}
use veda_rtsp.Rtsp.Session.Feed.Joining.{played}
use veda_rtsp.Rtsp.Server.{System, readable, find_client, on_event}
use veda_rtsp.Rtsp.Server.Watches.{play_is_served}

abbrev in_order : Headers → Headers
in_order hs = hs

abbrev world : ℕ → Answers
world i = record { draw = 255; streamer_made = 5; connects = true; subscribes = true; sprop = [] }

abbrev made : ℕ → Streamer
made id = record {
  connected = true;
  sequence = 65535;
  timestamp = 3000;
  ssrc = 7;
  payload_type = 96;
}

abbrev viewer : Subscriber
viewer = record { id = 4; streamer = made 4 }

live : (id : ℕ) → IsLive (record { id = id; streamer = made id })
live id = record {
  session = record {
    payload_type_fits = omega arith;
    sequence_fits = omega arith;
    timestamp_fits = omega arith;
    ssrc_fits = omega arith;
  };
  connected = refl;
}

abbrev settled : Session
settled = record {
  client_ip = codes "10.0.0.2";
  has_hub = true;
  rx_buffer = [];
  state = ready;
  session_id = codes "000000FF";
  ports = record { rtp = pos 5000; rtcp = pos 5001 };
  streamer = none;
}

abbrev system : System
system = record {
  clients = record { fd = 7; session = settled } ∷ [];
  hub = record {
    subscribers = viewer ∷ [];
    running = true;
    sps = [];
    pps = [];
    ts_increment = 3000;
  };
  alive = true;
}

abbrev headers : Headers
headers = (codes "CSeq", codes "12") ∷ (codes "Session", codes "000000FF") ∷ []

first_IsHeader : IsHeader (codes "CSeq", codes "12")
unfolding trim
first_IsHeader = record {
  name_no_colon = ground arith;
  name_no_cr = ground arith;
  value_no_cr = ground arith;
  name_trimmed = refl;
  value_trimmed = refl;
}

second_IsHeader : IsHeader (codes "Session", codes "000000FF")
unfolding trim
second_IsHeader = record {
  name_no_colon = ground arith;
  name_no_cr = ground arith;
  value_no_cr = ground arith;
  name_trimmed = refl;
  value_trimmed = refl;
}

form : IsWellFormed (codes "PLAY") (codes "s") headers
form = record {
  method_ne_nil = λ e. cc;
  method_no_space = ground arith;
  method_no_cr = ground arith;
  uri_no_space = ground arith;
  uri_no_cr = ground arith;
  header_lines = (first_IsHeader, (second_IsHeader, tt));
}

is_play : string_to_method (codes "PLAY") ≡ Method.play
unfolding string_to_method
is_play = refl

number_cseq : lookup (codes "CSeq") (assign_all headers []) ≡ some (print_int (pos 12))
unfolding lookup assign bytes_eq print_int print_nat
number_cseq = refl

names_it :
    header in_order
      (record {
        method = Method.play;
        uri = codes "s";
        cseq = pos 12;
        headers = assign_all headers [];
      })
      (codes "Session")
    ≡ some (codes "000000FF")
unfolding Parser.header Parser.scan_for Parser.iequals assign bytes_eq
names_it = refl

holds_it : find_client 7 system.clients ≡ some settled
unfolding find_client
holds_it = refl

abbrev nals : List Bytes
nals = (103 ∷ 66 ∷ []) ∷ (101 ∷ 136 ∷ []) ∷ []

play_is_served_example :
    let t =
      on_event made in_order world
        (readable 7 (print_request (codes "PLAY") (codes "s") headers []))
        system in
    (find_client 7 t.clients ≡ some (played 5 settled))
    × (t.hub.running ≡ true)
    × (h : Hub) × (sent : List (List (ℕ × List Bytes))) × (on_nals (λ id i. true) nals t.hub
        ≡ some (h, sent))
    × (received 65535 (all_to 5 sent) ≡ some nals)
    × EachReceives nals sent (viewer ∷ [])
play_is_served_example =
    play_is_served made in_order world 7 system settled (λ id i. true) nals (codes "PLAY")
      (codes "s") headers (pos 12) 5000 holds_it refl refl refl refl (ground arith) form is_play
      number_cseq (omega arith) (omega arith) names_it refl refl (λ id i. refl)
      (
        record { header_byte = omega arith; not_fu = omega arith },
        (record { header_byte = omega arith; not_fu = omega arith }, tt),
      )
      (live 4, tt) (refl, tt) (live 5) refl
