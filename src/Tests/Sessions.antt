-- ===== src/Tests/Sessions.antt =====
-- Sessions and requests that exercise the theorems on the state machine.
use veda_rtsp.Base.{
  false, ℕ, ◌≡◌, ◌≢◌, ◌↔◌, ◌⊎◌, refl, true, none, some, [], ◌∷◌, ◌++◌, Bytes, codes, pos, find,
  arith, List, length, OneLine,
}
use veda_rtsp.Rtsp.Parser.{Method, Headers, Request}
use veda_rtsp.Rtsp.Session.Handlers.{
  ready, playing, Session, make_session, Answers, handle, on_disconnect, session_header_matches,
}
use veda_rtsp.Rtsp.Session.Handlers.Machine.{Transition, handle-Transition, play_reaches_playing}
use veda_rtsp.Rtsp.Session.Handlers.Subscription.{subscribed}
use veda_rtsp.Rtsp.Session.Feed.Chunks.{feed-append}
use veda_rtsp.Media.Hub.{Hub, sprop_parameter_sets}
use veda_rtsp.Rtsp.Response.Frame.{client_messages}
use veda_rtsp.Rtsp.Session.Feed.Messages.{joined, feed_readable}
use veda_rtsp.Rtsp.Session.Feed.Described.{client_describe, describe_announces}
use veda_rtsp.Rtsp.Session.Feed.{done_by, keeps_open, after, feed_loop, endless, feed}
use veda_rtsp.Rtsp.Session.Feed.Answered.{cseqs, sent_by, handle-cseqs}
use veda_rtsp.Rtsp.Session.Feed.Ends.{feed_total, feed_disconnect-subscribed}

abbrev in_order : Headers → Headers
in_order hs = hs

abbrev answers : Answers
answers = record { draw = 255; streamer_made = 4; connects = true; subscribes = true; sprop = [] }

abbrev world : ℕ → Answers
world i = answers

abbrev client_ip : Bytes
client_ip = codes "10.0.0.2"

abbrev session : Session
session = record {
  client_ip = client_ip;
  has_hub = true;
  rx_buffer = [];
  state = ready;
  session_id = codes "000000FF";
  ports = record { rtp = pos 5000; rtcp = pos 5001 };
  streamer = none;
}

abbrev play_request : Request
play_request = record {
  method = Method.play;
  uri = codes "rtsp://h/s";
  cseq = pos 4;
  headers = (codes "Session", codes "000000FF") ∷ [];
}

handle-Transition_example :
    Transition Method.play ready (handle in_order answers session play_request).session.state
handle-Transition_example = handle-Transition in_order answers session play_request

play_reaches_playing_example :
    ((handle in_order answers session play_request).session.state ≡ playing) ↔ (
      (ready ≡ playing)
      ⊎ ((ready ≡ ready)
          × (session_header_matches in_order session play_request ≡ true)
          × (true ≡ true)
          × (true ≡ true)
          × (true ≡ true)))
play_reaches_playing_example = play_reaches_playing in_order answers session play_request refl

feed_total_example :
    (feed in_order world 0 session (codes "PLAY s RTSP/1.0\r\n\r\n")).ending ≢ endless
feed_total_example = feed_total in_order world 0 session (codes "PLAY s RTSP/1.0\r\n\r\n")

feed_disconnect-subscribed_example :
    let f =
      feed in_order world 0 (make_session client_ip true) (codes "OPTIONS * RTSP/1.0\r\n\r\n") in
    subscribed [] (f.actions ++ (on_disconnect f.session).1) ≡ []
feed_disconnect-subscribed_example =
    feed_disconnect-subscribed in_order world client_ip (codes "OPTIONS * RTSP/1.0\r\n\r\n") true 0

-- The two reads that a request arrives in.
abbrev early : Bytes
early = codes "PLAY s RTSP/1.0\r"

abbrev late : Bytes
late = codes "\n\r\n"

early_keeps_open : (feed in_order world 0 session early).ending ≡ keeps_open
unfolding feed feed_loop find
early_keeps_open = refl

feed-append_example :
    feed in_order world 0 session (early ++ late)
    ≡ after (feed in_order world 0 session early).actions (
        feed in_order world
          (feed in_order world 0 session early).handled
          (feed in_order world 0 session early).session
          late)
feed-append_example = feed-append in_order world 0 session early late (omega arith) early_keeps_open

handle-cseqs_example : cseqs (handle in_order answers session play_request) ≡ some (pos 4) ∷ []
handle-cseqs_example = handle-cseqs in_order answers play_request (omega arith) session

-- Two requests in one read: one that the session answers, and one that does not parse.
abbrev requests : Bytes
requests = codes "OPTIONS * RTSP/1.0\r\nCSeq: 1\r\n\r\nOPTIONS\r\n\r\n"

feed_readable_example :
    let f = feed in_order world 0 session requests in
    (bodies : List Bytes) × (client_messages
        (length (sent_by f.actions))
        (joined (sent_by f.actions))
      ≡ some bodies)
    × (length bodies ≡ length (sent_by f.actions))
    × OneLine f.session.session_id
feed_readable_example =
    feed_readable in_order world (λ i. omega arith) 0 session requests (ground arith)

-- The hub has seen an SPS and a PPS.
abbrev media : Hub
media = record {
  subscribers = [];
  running = false;
  sps = 103 ∷ 66 ∷ 0 ∷ 30 ∷ [];
  pps = 104 ∷ 206 ∷ [];
  ts_increment = 3000;
}

abbrev describe_request : Request
describe_request = record {
  method = Method.describe;
  uri = codes "rtsp://h/s";
  cseq = pos 2;
  headers = (codes "CSeq", codes "2") ∷ [];
}

abbrev described : Answers
described = record {
  draw = 255;
  streamer_made = 4;
  connects = true;
  subscribes = true;
  sprop = sprop_parameter_sets media;
}

describe_announces_example :
    (text : Bytes) × (sent_by (done_by (handle in_order described session describe_request))
      ≡ text ∷ [])
    × ((later : Bytes)
        → client_describe (text ++ later) ≡ some (some (media.sps, media.pps), later))
describe_announces_example =
    describe_announces in_order described session describe_request media refl refl refl
      (ground arith) (omega arith, (omega arith, (omega arith, (omega arith, tt))))
      (omega arith, (omega arith, tt)) (omega arith)
