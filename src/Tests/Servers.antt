-- ===== src/Tests/Servers.antt =====
-- A server with one viewer, from the connection to the end of its source and the shutdown.
use veda_rtsp.Base.{
  ℕ, ◌≡◌, ◌⊎◌, refl, true, false, none, some, [], ◌∷◌, ◌++◌, Bytes, codes, length, List, ◌≢◌, ◌↔◌,
  bytes_eq, find, find_char, stoi, print_int, pos, arith,
}
use veda_rtsp.Rtp.Streamer.{Streamer}
use veda_rtsp.Media.Hub
use veda_rtsp.Media.Hub.{pump_ends}
use veda_rtsp.Rtsp.Parser
use veda_rtsp.Rtsp.Parser.{Headers, crlf}
use veda_rtsp.Rtsp.Session.Transport
use veda_rtsp.Rtsp.Session.Handlers
use veda_rtsp.Rtsp.Session.Handlers.{Answers}
use veda_rtsp.Rtsp.Response
use veda_rtsp.Rtsp.Session.Feed
use veda_rtsp.Rtsp.Server
use veda_rtsp.Rtsp.Server.{System, accepted, readable, on_event, shut_down}
use veda_rtsp.Rtsp.Server.Runs
use veda_rtsp.Rtsp.Server.Replay
use veda_rtsp.Rtsp.Server.Replay.{ids_at, IsAnswered}
use veda_rtsp.Rtsp.Server.Consistent.{IsServed}
use veda_rtsp.Rtsp.Server.Runs.{Reach, here, next, served, source_ends, begin}
use veda_rtsp.Net.Tcp.{FdCall, Setup}
use veda_rtsp.Rtsp.Server.Room.{Course, room_of, watching}
use veda_rtsp.Rtsp.Server.Refines.{Reach-Course}
use veda_rtsp.Rtsp.Server.Loop.{
  Moment, round, pumps, ends, woken, wait_interrupted, Exit, not_started, run_loop,
}
use veda_rtsp.Rtsp.Server.Returns
use veda_rtsp.Rtsp.Server.Returns.{RoundsServed, Left, Starts}
use veda_rtsp.Cli.{main, main_returns}

abbrev in_order : Headers → Headers
in_order hs = hs

abbrev world : ℕ → Answers
world i = record { draw = 255; streamer_made = 4; connects = true; subscribes = true; sprop = [] }

abbrev made : ℕ → Streamer
made id = record {
  connected = true;
  sequence = 65535;
  timestamp = 3000;
  ssrc = 7;
  payload_type = 96;
}

-- SETUP and PLAY in one read.
abbrev setup_request : Bytes
setup_request =
    codes "SETUP * RTSP/1.0\r\nCSeq: 1\r\nTransport: RTP/AVP;unicast;client_port=5000-5001\r\n\r\n"

abbrev play_request : Bytes
play_request = codes "PLAY * RTSP/1.0\r\nCSeq: 2\r\nSession: 000000FF\r\n\r\n"

abbrev connected : System
connected =
    on_event made in_order world (accepted 7 (codes "10.0.0.2") true) (begin (codes "camera") none)

abbrev viewing : System
viewing = on_event made in_order world (readable 7 (setup_request ++ play_request)) connected

begin_alive : (begin (codes "camera") none).alive ≡ true
unfolding Runs.begin
begin_alive = refl

abbrev ended : System
ended = record viewing { hub = pump_ends viewing.hub }

viewing_answered :
    (IsServed made in_order world (readable 7 (setup_request ++ play_request)) connected)
    × (viewing.hub.running ≡ true)
    × (ids_at viewing.hub ≡ 4 ∷ [])
    × (viewing.alive ≡ true)
unfolding bytes_eq find find_char stoi Parser.trim Parser.next_line Parser.assign Parser.lookup
    Parser.scan_for Parser.add_header Parser.header_loop Parser.parse_request_line Parser.finish
    Parser.parse_headers Parser.parse_request Parser.header Transport.generate_session_id
    Transport.parse_transport Transport.session_id_of Handlers.make_session
    Handlers.session_header_matches Handlers.handle Feed.process Feed.feed_loop Runs.begin
    Server.on_event Hub.make_hub Hub.open_hub Response.setup Replay.IsAnswered
viewing_answered = ((refl, refl, tt), refl, refl, refl)

connected_alive : connected.alive ≡ true
unfolding Runs.begin Server.on_event
connected_alive = refl

run_here : Reach made in_order (begin (codes "camera") none) ended
run_here =
    next
      (next (next here (served world (accepted 7 (codes "10.0.0.2") true) begin_alive tt refl)) (
        served world (readable 7 (setup_request ++ play_request)) connected_alive viewing_answered.0
          refl))
      (source_ends viewing_answered.1 refl)

Reach-Course_example :
    Course [] (room_of ended.clients)
    × (length ended.hub.subscribers ≡ watching (room_of ended.clients))
Reach-Course_example = Reach-Course (codes "camera") none run_here

abbrev listening : Setup
listening = record { socket = some 3; reuses = true; binds = true; listens = true }

-- Both events in one round, a parameter set, the end of the source, and Ctrl+C.
abbrev moments : List Moment
moments =
    round true (
      woken (
        (world, accepted 7 (codes "10.0.0.2") true)
        ∷ (world, readable 7 (setup_request ++ play_request))
        ∷ []))
    ∷ pumps (λ id i. true) (103 ∷ 66 ∷ [])
    ∷ ends
    ∷ round false wait_interrupted
    ∷ []

moments_served : RoundsServed made in_order moments (begin (codes "camera") none)
unfolding Returns.RoundsServed
moments_served = ((λ up. (tt, λ up'. (viewing_answered.0, tt))), tt)

main_returns_example :
    (calls : List FdCall) × (e : Exit) × (main made in_order
        (codes "--port" ∷ print_int (pos 554) ∷ codes "--source" ∷ codes "camera" ∷ [])
        (λ port. listening)
        (some 4)
        true
        (λ path. none)
        moments
      ≡ some (calls, e))
    × Left calls e
    × ((e ≡ not_started) ⊎ (run_loop made in_order moments (begin (codes "camera") none) ≡ some e))
    × ((e ≢ not_started) ↔ Starts listening (some 4) true)
main_returns_example =
    main_returns made in_order 554 (codes "camera") (λ port. listening) (some 4) true (λ path. none)
      moments (omega arith) moments_served refl
