-- ===== src/Tests/Parsing.antt =====
-- Requests that exercise the theorems on the parser.
use veda_rtsp.Base.{
  ℕ, true, false, ◌≡◌, refl, none, some, [], ◌∷◌, codes, Bytes, arith, All, pos, bytes_eq,
  print_int, print_nat, stoi,
}
use veda_rtsp.Rtsp.Session.Handlers.{Answers, make_session, handle}
use veda_rtsp.Rtsp.Session.Feed.{feed, bad_request, keeps_open}
use veda_rtsp.Rtsp.Session.Feed.Refused.{one_space, bad_text, feed_refuses}
use veda_rtsp.Rtsp.Session.Feed.Requests.{handled_once, feed_handles}
use veda_rtsp.Rtp.Streamer.{Streamer}
use veda_rtsp.Rtsp.Server.{System, readable, find_client, after_feed}
use veda_rtsp.Rtsp.Server.Loop.{woken, round, terminated, run_loop}
use veda_rtsp.Rtsp.Server.Thrown.{bad_cseq_terminates}
use veda_rtsp.Rtsp.Parser.{Headers, trim, string_to_method, assign, lookup, parsed, parse_request}
use veda_rtsp.Rtsp.Parser.RoundTrip.{print_request, IsHeader, assign_all}
use veda_rtsp.Rtsp.Parser.Sequence.{IsWellFormed, parse_request_reads}

abbrev in_order : Headers → Headers
in_order hs = hs

-- "PLAY s RTSP/1.0" with a sequence number, and with one that is none.
abbrev with_number : Headers
with_number = (codes "CSeq", codes "12") ∷ []

abbrev with_word : Headers
with_word = (codes "CSeq", codes "abc") ∷ []

with_number-IsHeader : IsHeader (codes "CSeq", codes "12")
unfolding trim
with_number-IsHeader = record {
  name_no_colon = ground arith;
  name_no_cr = ground arith;
  value_no_cr = ground arith;
  name_trimmed = refl;
  value_trimmed = refl;
}

with_word-IsHeader : IsHeader (codes "CSeq", codes "abc")
unfolding trim
with_word-IsHeader = record {
  name_no_colon = ground arith;
  name_no_cr = ground arith;
  value_no_cr = ground arith;
  name_trimmed = refl;
  value_trimmed = refl;
}

form : (hs : Headers) → All IsHeader hs → IsWellFormed (codes "PLAY") (codes "s") hs
form hs lines = record {
  method_ne_nil = λ e. cc;
  method_no_space = ground arith;
  method_no_cr = ground arith;
  uri_no_space = ground arith;
  uri_no_cr = ground arith;
  header_lines = lines;
}

number_cseq : lookup (codes "CSeq") (assign_all with_number []) ≡ some (print_int (pos 12))
unfolding lookup assign bytes_eq print_int print_nat
number_cseq = refl

word_cseq : lookup (codes "CSeq") (assign_all with_word []) ≡ some (codes "abc")
unfolding lookup assign bytes_eq
word_cseq = refl

abc_refused : stoi (codes "abc") ≡ none
unfolding stoi
abc_refused = refl

parse_request_reads_example :
    parse_request in_order (print_request (codes "PLAY") (codes "s") with_number (codes "next"))
    ≡ parsed (record {
      method = string_to_method (codes "PLAY");
      uri = codes "s";
      cseq = pos 12;
      headers = assign_all with_number [];
    })
parse_request_reads_example =
    parse_request_reads in_order (codes "PLAY") (codes "s") with_number (codes "next")
      (form with_number (with_number-IsHeader, tt)) (pos 12) number_cseq (omega arith)

abbrev world : ℕ → Answers
world i = record { draw = 255; streamer_made = 4; connects = true; subscribes = true; sprop = [] }

feed_handles_example :
    feed in_order world 0
      (make_session (codes "10.0.0.2") true)
      (print_request (codes "PLAY") (codes "s") with_number [])
    ≡ handled_once in_order world 0 (
        handle in_order (world 0) (make_session (codes "10.0.0.2") true) (record {
          method = string_to_method (codes "PLAY");
          uri = codes "s";
          cseq = pos 12;
          headers = assign_all with_number [];
        }))
unfolding make_session
feed_handles_example =
    feed_handles in_order world 0 (make_session (codes "10.0.0.2") true) (codes "PLAY") (codes "s")
      with_number (pos 12) (form with_number (with_number-IsHeader, tt)) number_cseq (omega arith)
      refl (omega arith)

-- A line with one space.
abbrev bad_line : Bytes
bad_line = codes "PLAY s"

feed_refuses_example :
    feed in_order world 0 (make_session (codes "10.0.0.2") true) (bad_text bad_line with_number)
    ≡ record {
      session = make_session (codes "10.0.0.2") true;
      actions = bad_request;
      handled = 1;
      ending = keeps_open;
    }
unfolding make_session
feed_refuses_example =
    feed_refuses in_order world 0 (make_session (codes "10.0.0.2") true) bad_line with_number
      (λ e. cc) (one_space (codes "PLAY") (codes "s") (ground arith) (ground arith)) (ground arith)
      (with_number-IsHeader, tt) refl (omega arith)

abbrev made : ℕ → Streamer
made id = record { connected = true; sequence = 0; timestamp = 0; ssrc = 7; payload_type = 96 }

-- Two clients; the first one sends the word.
abbrev system : System
system = record {
  clients =
      record { fd = 7; session = make_session (codes "10.0.0.2") true }
      ∷ record { fd = 8; session = make_session (codes "10.0.0.3") true }
      ∷ [];
  hub = record { subscribers = []; running = false; sps = []; pps = []; ts_increment = 3000 };
  alive = true;
}

holds_it : find_client 7 system.clients ≡ some (make_session (codes "10.0.0.2") true)
unfolding find_client
holds_it = refl

bad_cseq_terminates_example :
    let text = print_request (codes "PLAY") (codes "s") with_word [] in
    run_loop made in_order (round true (woken ((world, readable 7 text) ∷ [])) ∷ []) system
    ≡ some (
        terminated (
          after_feed made 7
            (feed in_order world 0 (make_session (codes "10.0.0.2") true) text)
            system))
unfolding make_session
bad_cseq_terminates_example =
    bad_cseq_terminates made in_order world 7 system (make_session (codes "10.0.0.2") true)
      (codes "PLAY") (codes "s") with_word (codes "abc") [] [] holds_it refl
      (form with_word (with_word-IsHeader, tt)) word_cseq abc_refused (omega arith) refl
