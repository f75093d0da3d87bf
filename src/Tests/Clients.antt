-- ===== src/Tests/Clients.antt =====
-- Clients on the wire that exercise the theorems on a client's way from DESCRIBE to PLAY.
use veda_rtsp.Base.{
  ℕ, ◌≡◌, refl, true, false, none, some, List, [], ◌∷◌, ◌++◌, Bytes, codes, find, find_char,
  bytes_eq, stoi, starts_with, pos, print_int, print_nat, arith, inl,
}
use veda_rtsp.Media.AnnexB.{Stream}
use veda_rtsp.Media.AnnexB.Units.{NalUnit, IsNalUnit}
use veda_rtsp.Media.Hub.{default_config, open_hub, cache_all, sprop_parameter_sets}
use veda_rtsp.Rtsp.Parser
use veda_rtsp.Rtsp.Parser.{Method, Headers, Request, header, trim, lookup, assign, string_to_method}
use veda_rtsp.Rtsp.Parser.RoundTrip.{print_request, IsHeader}
use veda_rtsp.Rtsp.Parser.Sequence.{IsWellFormed}
use veda_rtsp.Rtsp.Response
use veda_rtsp.Rtsp.Response.Fields.{client_field, client_session, client_transport}
use veda_rtsp.Rtsp.Session.Transport
use veda_rtsp.Rtsp.Session.Transport.Asked.{asked_front, pair}
use veda_rtsp.Rtsp.Session.Handlers
use veda_rtsp.Rtsp.Session.Handlers.{
  connect, send, subscribe, Session, make_session, Answers, handle, method_allowed,
}
use veda_rtsp.Rtsp.Session.Feed.{feed}
use veda_rtsp.Rtsp.Session.Feed.Answered.{sent_by}
use veda_rtsp.Rtsp.Session.Feed.Described.{client_describe}
use veda_rtsp.Rtsp.Session.Feed.Playing.{wire, agreed, setup_then_play, refused_setup_then_play}
use veda_rtsp.Rtsp.Session.Feed.Joining.{played}
use veda_rtsp.Rtsp.Session.Feed.Announced.{file_announced}

abbrev in_order : Headers → Headers
in_order hs = hs

abbrev answers : Answers
answers = record { draw = 255; streamer_made = 4; connects = true; subscribes = true; sprop = [] }

abbrev fresh : Session
fresh = record {
  client_ip = codes "10.0.0.2";
  has_hub = true;
  rx_buffer = [];
  state = Handlers.init;
  session_id = [];
  ports = record { rtp = pos 0; rtcp = pos 0 };
  streamer = none;
}

abbrev setup_request : Request
setup_request = record {
  method = Method.setup;
  uri = codes "rtsp://h/s";
  cseq = pos 3;
  headers = (codes "Transport", asked_front ++ (pair 5000 5001 ++ codes ";mode=play")) ∷ [];
}

abbrev play_request : Request
play_request = record {
  method = Method.play;
  uri = codes "rtsp://h/s";
  cseq = pos 4;
  headers = (codes "Session", codes "000000FF") ∷ [];
}

asks :
    header in_order setup_request (codes "Transport")
    ≡ some (asked_front ++ (pair 5000 5001 ++ codes ";mode=play"))
unfolding Parser.header Parser.scan_for Parser.iequals
asks = refl

knows :
    header in_order play_request (codes "Session")
    ≡ client_session (wire (handle in_order answers fresh setup_request))
unfolding Parser.header Parser.scan_for Handlers.handle Transport.parse_transport
    Transport.generate_session_id Response.setup client_field find find_char stoi starts_with
    print_int print_nat Parser.iequals
knows = refl

setup_then_play_example :
    (client_transport (wire (handle in_order answers fresh setup_request))
      ≡ some (agreed 5000 5001))
    × (id : Bytes) × (client_session (wire (handle in_order answers fresh setup_request)) ≡ some id)
    × (handle in_order answers (handle in_order answers fresh setup_request).session play_request
        ≡ record {
          session = played 4 (handle in_order answers fresh setup_request).session;
          actions =
              connect 4 (codes "10.0.0.2") 5000 true
              ∷ send (Response.play (pos 4) id)
              ∷ subscribe 4 true
              ∷ [];
          response = [];
        })
unfolding method_allowed
setup_then_play_example =
    setup_then_play in_order answers answers fresh setup_request play_request 5000 5001
      (codes ";mode=play") refl refl refl refl (tt, tt) asks (omega arith) (omega arith)
      (omega arith) (inl refl) knows refl refl

-- A session that is READY, and a port that is none.
abbrev settled : Session
settled = record fresh {
  state = Handlers.ready;
  session_id = codes "000000FF";
  ports = record { rtp = pos 5000; rtcp = pos 5001 };
}

abbrev wrong_request : Request
wrong_request = record setup_request {
  headers = (codes "Transport", asked_front ++ (pair 70000 70001 ++ [])) ∷ [];
}

asks_wrong :
    header in_order wrong_request (codes "Transport")
    ≡ some (asked_front ++ (pair 70000 70001 ++ []))
unfolding Parser.header Parser.scan_for Parser.iequals
asks_wrong = refl

names_it : header in_order play_request (codes "Session") ≡ some (codes "000000FF")
unfolding Parser.header Parser.scan_for Parser.iequals
names_it = refl

refused_setup_then_play_example :
    ((handle in_order answers settled wrong_request).response
      ≡ Response.error (pos 3) (pos 461) (codes "Unsupported Transport"))
    × ((handle in_order answers settled wrong_request).session.state ≡ Handlers.ready)
    × ((handle in_order answers
          (handle in_order answers settled wrong_request).session
          play_request).actions
        ≡ connect 4 (codes "10.0.0.2") 4464 true
          ∷ send (Response.play (pos 4) (codes "000000FF"))
          ∷ subscribe 4 true
          ∷ [])
refused_setup_then_play_example =
    refused_setup_then_play in_order answers answers settled wrong_request play_request 70000 70001
      [] refl refl refl refl (ground arith) asks_wrong (omega arith) (omega arith) (omega arith) tt
      names_it refl refl

-- An SPS and a PPS, each behind a start code.
abbrev sps : NalUnit
sps = record { long = true; nal = 103 ∷ 66 ∷ [] }

abbrev pps : NalUnit
pps = record { long = false; nal = 104 ∷ 206 ∷ [] }

sps-IsNalUnit : IsNalUnit sps
sps-IsNalUnit = record { clean = omega arith; ne_nil = λ e. cc }

pps-IsNalUnit : IsNalUnit pps
pps-IsNalUnit = record { clean = omega arith; ne_nil = λ e. cc }

abbrev movie : Stream
movie = (0 ∷ 0 ∷ 0 ∷ 1 ∷ 103 ∷ 66 ∷ 0 ∷ 0 ∷ []) ∷ (1 ∷ 104 ∷ 206 ∷ []) ∷ []

-- The SPS of another picture size, that the hub sees when it has one.
abbrev later_sps : List Bytes
later_sps = (103 ∷ 77 ∷ []) ∷ []

abbrev described : ℕ → Answers
described i = record {
  draw = 255;
  streamer_made = 4;
  connects = true;
  subscribes = true;
  sprop =
      sprop_parameter_sets
        (cache_all later_sps (open_hub (default_config (codes "a.264")) (some movie)));
}

abbrev with_number : Headers
with_number = (codes "CSeq", codes "12") ∷ []

with_number-IsHeader : IsHeader (codes "CSeq", codes "12")
unfolding trim
with_number-IsHeader = record {
  name_no_colon = ground arith;
  name_no_cr = ground arith;
  value_no_cr = ground arith;
  name_trimmed = refl;
  value_trimmed = refl;
}

form : IsWellFormed (codes "DESCRIBE") (codes "s") with_number
form = record {
  method_ne_nil = λ e. cc;
  method_no_space = ground arith;
  method_no_cr = ground arith;
  uri_no_space = ground arith;
  uri_no_cr = ground arith;
  header_lines = (with_number-IsHeader, tt);
}

is_describe : string_to_method (codes "DESCRIBE") ≡ Method.describe
unfolding string_to_method
is_describe = refl

number_cseq : lookup (codes "CSeq") with_number ≡ some (print_int (pos 12))
unfolding lookup bytes_eq print_int print_nat
number_cseq = refl

is_file : bytes_eq (codes "a.264") (codes "camera") ≡ false
unfolding bytes_eq
is_file = refl

file_announced_example :
    (text : Bytes) × (sent_by
        (feed in_order described 0 fresh
          (print_request (codes "DESCRIBE") (codes "s") with_number [])).actions
      ≡ text ∷ [])
    × ((later : Bytes)
        → client_describe (text ++ later) ≡ some (some (103 ∷ 66 ∷ [], 104 ∷ 206 ∷ []), later))
unfolding assign
file_announced_example =
    file_announced in_order described 0 fresh (codes "DESCRIBE") (codes "s") with_number (pos 12)
      (default_config (codes "a.264")) sps (pps ∷ []) movie later_sps is_file
      (sps-IsNalUnit, (pps-IsNalUnit, tt))
      ((omega arith, (omega arith, tt)), ((omega arith, (omega arith, tt)), tt)) refl
      ((λ e. cc), tt) ((omega arith, (omega arith, tt)), tt) (omega arith) refl refl refl form
      is_describe number_cseq (omega arith) (omega arith)
