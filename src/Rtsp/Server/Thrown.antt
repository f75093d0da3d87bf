-- ===== src/Rtsp/Server/Thrown.antt =====
-- src/rtsp/server.cpp: an exception of the parser, from the bytes of one client to the end of `run`.
use veda_rtsp.Base.{
  ℕ, ◌+◌, ◌≤◌, ◌≡◌, ◌∙◌, ap, refl, Bool, true, false, if◌then◌else◌, none, some, List, [], ◌∷◌,
  Bytes, codes, stoi, length, take, take_all, arith,
}
use veda_rtsp.Rtp.Streamer.{Streamer}
use veda_rtsp.Rtsp.Parser.{Headers, lookup, thrown, parse_request}
use veda_rtsp.Rtsp.Parser.RoundTrip.{print_request, assign_all, append-ne-nil}
use veda_rtsp.Rtsp.Parser.Sequence.{IsWellFormed, parse_request_throws}
use veda_rtsp.Rtsp.Session.Handlers.{Session, Answers}
use veda_rtsp.Rtsp.Session.Feed.{max_rx_buffer, throws, Fed, process, feed}
use veda_rtsp.Rtsp.Session.Feed.Runs.{run_request}
use veda_rtsp.Rtsp.Session.Feed.Requests.{print_request-EndsThere, feed_lem}
use veda_rtsp.Rtsp.Server.{System, Event, readable, find_client, after_feed}
use veda_rtsp.Rtsp.Server.Loop.{woken, Moment, round, terminated, on_events, run_loop}
use veda_rtsp.Rtsp.Server.Watches.{on_event_readable}

if_true {ℓ} : {A : Type ℓ} (b : Bool) (x y : A) → b ≡ true → (if b then x else y) ≡ x
if_true true x y h = refl
if_true false x y h = cc

module _ (made : ℕ → Streamer) (scan : Headers → Headers) (world : ℕ → Answers) (fd : ℕ)
    (sys : System) (s : Session) (m uri : Bytes) (hs : Headers) (value : Bytes) where
  feed_throws :
      IsWellFormed m uri hs
      → lookup (codes "CSeq") (assign_all hs []) ≡ some value
      → stoi value ≡ none
      → s.rx_buffer ≡ []
      → length (print_request m uri hs []) ≤ max_rx_buffer
      → (feed scan world 0 s (print_request m uri hs [])).ending ≡ throws
  unfolding process
  feed_throws form given no_number idle small =
      let text : Bytes = print_request m uri hs [] in
      let (at, found, long) = print_request-EndsThere m uri hs form in
      let cut : take (at + 4) text ≡ text = take_all (at + 4) text (omega (arith, long)) in
      let fails : parse_request scan text ≡ thrown =
        parse_request_throws scan m uri hs [] form value given no_number in
      ap (λ (f : Fed). f.ending)
        (feed_lem scan world 0 s text idle small
          ∙ run_request scan world 0 (record s { rx_buffer = text }) at found)
      ∙ rw (cut, fails) refl

  after_feed_throws : (f : Fed) → f.ending ≡ throws → (after_feed made fd f sys).alive ≡ false
  unfolding after_feed
  after_feed_throws f e = rw (e, after_feed) refl

  -- Nothing comes behind an exception.
  on_events_dead :
      (t : System) (rest : List ((ℕ → Answers) × Event))
      → t.alive ≡ false
      → on_events made scan rest t ≡ t
  unfolding on_events
  on_events_dead t [] dead = refl
  on_events_dead t ((w, e) ∷ rest) dead = rw dead refl

  terminates :
      (es : List ((ℕ → Answers) × Event)) {t : System} (later : List Moment)
      → on_events made scan es sys ≡ t
      → t.alive ≡ false
      → run_loop made scan (round true (woken es) ∷ later) sys ≡ some (terminated t)
  unfolding run_loop
  terminates es later done dead = rw (done, dead) refl

  -- The bytes of a well-formed request whose CSeq header is no number in the range of int, of at
  -- most 64 KiB, that arrive on the connection of a client with nothing in its buffer end the
  -- program by an exception, in the round of the loop in which they come: neither the events
  -- behind them nor any later round is handled, whoever else is connected.
  pub bad_cseq_terminates :
      (rest : List ((ℕ → Answers) × Event)) (later : List Moment)
      → find_client fd sys.clients ≡ some s
      → s.rx_buffer ≡ []
      → IsWellFormed m uri hs
      → lookup (codes "CSeq") (assign_all hs []) ≡ some value
      → stoi value ≡ none
      → length (print_request m uri hs []) ≤ max_rx_buffer
      → sys.alive ≡ true
      → run_loop made scan
          (round true (woken ((world, readable fd (print_request m uri hs [])) ∷ rest)) ∷ later)
          sys
        ≡ some
            (terminated (after_feed made fd (feed scan world 0 s (print_request m uri hs [])) sys))
  unfolding run_loop on_events
  bad_cseq_terminates rest later found idle form given no_number small up =
      let text : Bytes = print_request m uri hs [] in
      let fed : Fed = feed scan world 0 s text in
      let t : System = after_feed made fd fed sys in
      let left = on_event_readable made scan world fd sys s text (append-ne-nil m _) found in
      let dead = after_feed_throws fed (feed_throws form given no_number idle small) in
      let all_done : on_events made scan ((world, readable fd text) ∷ rest) sys ≡ t =
        if_true sys.alive _ sys up ∙ rw left (on_events_dead t rest dead) in
      terminates ((world, readable fd text) ∷ rest) later all_done dead
