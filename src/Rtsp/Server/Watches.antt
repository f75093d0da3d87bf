-- ===== src/Rtsp/Server/Watches.antt =====
-- src/rtsp/server.cpp: from the bytes of a PLAY on a connection to the packets of its client.
use veda_rtsp.Base.{
  ℕ, ◌%◌, ◌^◌, ◌≤◌, ◌≡◌, ◌≢◌, ◌∙◌, ap, refl, Bool, true, false, some, List, [], ◌∷◌, ◌++◌, All,
  All-append, Lacks, Bytes, codes, length, ℤ, pos, IsInt, print_int, arith, ◌||◌,
}
use veda_rtsp.Rtp.Streamer.{Streamer}
use veda_rtsp.Rtp.Streamer.Receive.{received}
use veda_rtsp.Media.Hub
use veda_rtsp.Media.Hub.{Hub, Subscriber}
use veda_rtsp.Media.Hub.Broadcast.{IsLive}
use veda_rtsp.Media.Hub.Pump.{on_nals}
use veda_rtsp.Media.Hub.Pump.Streams.{IsSendable}
use veda_rtsp.Media.Hub.Pump.Received.{all_to, has, Distinct, EachReceives, stream_received}
use veda_rtsp.Media.Hub.Pump.Visits.{append-Distinct, others_and_visitor}
use veda_rtsp.Rtsp.Response
use veda_rtsp.Rtsp.Parser.{Headers, Method, Request, header, lookup, string_to_method}
use veda_rtsp.Rtsp.Parser.RoundTrip.{print_request, assign_all, append-ne-nil}
use veda_rtsp.Rtsp.Parser.Sequence.{IsWellFormed}
use veda_rtsp.Rtsp.Session.Handlers.{ready, Session, Answers, connect, send, subscribe}
use veda_rtsp.Rtsp.Session.Feed.{max_rx_buffer, keeps_open, Fed, feed}
use veda_rtsp.Rtsp.Session.Feed.Joining.{played, handle-play}
use veda_rtsp.Rtsp.Session.Feed.Requests.{feed_handles}
use veda_rtsp.Rtsp.Server.{
  System, readable, find_client, store, subscriber, perform, perform_all, after_feed, on_event,
}
use veda_rtsp.Rtsp.Server.Clients.{find_client-store}

module _ (made : ℕ → Streamer) (scan : Headers → Headers) (world : ℕ → Answers) (fd : ℕ)
    (sys : System) (s : Session) where
  pub on_event_readable :
      (text : Bytes)
      → text ≢ []
      → find_client fd sys.clients ≡ some s
      → on_event made scan world (readable fd text) sys
        ≡ after_feed made fd (feed scan world 0 s text) sys
  unfolding on_event
  on_event_readable [] ne found = absurd (ne refl)
  on_event_readable (c ∷ cs) ne found = rw (found, on_event) refl

  -- What a PLAY that succeeds leaves, at the server.
  abbrev pub watched : System
  watched = record sys {
    clients = store fd (played (world 0).streamer_made s) sys.clients;
    hub = (Hub.subscribe true (some (subscriber made (world 0).streamer_made)) sys.hub).0;
  }

  on_event-play :
      (m uri : Bytes) (hs : Headers) (z : ℤ) (x : ℕ)
      → find_client fd sys.clients ≡ some s
      → s.state ≡ ready
      → s.has_hub ≡ true
      → s.rx_buffer ≡ []
      → s.ports.rtp ≡ pos x
      → Lacks b';' s.session_id
      → IsWellFormed m uri hs
      → string_to_method m ≡ Method.play
      → lookup (codes "CSeq") (assign_all hs []) ≡ some (print_int z)
      → IsInt z
      → length (print_request m uri hs []) ≤ max_rx_buffer
      → header scan
          (record { method = Method.play; uri = uri; cseq = z; headers = assign_all hs [] })
          (codes "Session")
        ≡ some s.session_id
      → (world 0).connects ≡ true
      → (world 0).subscribes ≡ true
      → on_event made scan world (readable fd (print_request m uri hs [])) sys ≡ watched
  unfolding after_feed perform_all perform
  on_event-play m uri hs z x found is hub idle port whole form is_play number fits small named
        connects takes =
      let req : Request = record {
        method = Method.play;
        uri = uri;
        cseq = z;
        headers = assign_all hs [];
      } in
      let plays = handle-play scan (world 0) s req x refl is hub port named whole connects takes in
      let fed =
        rw is_play at (feed_handles scan world 0 s m uri hs z form number fits idle small) in
      let done : Fed = record {
        session = played (world 0).streamer_made s;
        actions =
            connect (world 0).streamer_made s.client_ip (x % 2 ^ 16) true
            ∷ send (Response.play z s.session_id)
            ∷ subscribe (world 0).streamer_made true
            ∷ [];
        handled = 1;
        ending = keeps_open;
      } in
      let ends_so : feed scan world 0 s (print_request m uri hs []) ≡ done = fed ∙ rw plays refl in
      on_event_readable (print_request m uri hs []) (append-ne-nil m _) found
      ∙ ap (λ (f : Fed). after_feed made fd f sys) ends_so

  -- The bytes of a well-formed PLAY with a CSeq that is an int, of at most 64 KiB, that arrive on
  -- the connection of a READY session with a hub, a client port and nothing in its buffer, and
  -- whose Session header names the session by an id with no semicolon, make the server store the
  -- session as PLAYING with the new streamer, and the hub serve it: its source runs, and of the
  -- NAL units that the hub is given from then on the new client receives every one in its order
  -- without a gap, as everyone does who was there before, when the UDP socket connects and the hub
  -- takes the streamer, every streamer is connected with fields that fit their widths, the
  -- streamers are distinct and the new one is not among them, no NAL unit is of type 28 and every
  -- socket sends.
  pub play_is_served :
      (sends : ℕ → ℕ → Bool) (nals : List Bytes) (m uri : Bytes) (hs : Headers) (z : ℤ) (x : ℕ)
      → find_client fd sys.clients ≡ some s
      → s.state ≡ ready
      → s.has_hub ≡ true
      → s.rx_buffer ≡ []
      → s.ports.rtp ≡ pos x
      → Lacks b';' s.session_id
      → IsWellFormed m uri hs
      → string_to_method m ≡ Method.play
      → lookup (codes "CSeq") (assign_all hs []) ≡ some (print_int z)
      → IsInt z
      → length (print_request m uri hs []) ≤ max_rx_buffer
      → header scan
          (record { method = Method.play; uri = uri; cseq = z; headers = assign_all hs [] })
          (codes "Session")
        ≡ some s.session_id
      → (world 0).connects ≡ true
      → (world 0).subscribes ≡ true
      → ((id i : ℕ) → sends id i ≡ true)
      → All IsSendable nals
      → All IsLive sys.hub.subscribers
      → Distinct sys.hub.subscribers
      → IsLive (subscriber made (world 0).streamer_made)
      → has (world 0).streamer_made sys.hub.subscribers ≡ false
      → let t = on_event made scan world (readable fd (print_request m uri hs [])) sys in
        let id = (world 0).streamer_made in
        (find_client fd t.clients ≡ some (played id s))
        × (t.hub.running ≡ true)
        × (h : Hub) × (sent : List (List (ℕ × List Bytes))) × (on_nals sends nals t.hub
            ≡ some (h, sent))
        × (received (made id).sequence (all_to id sent) ≡ some nals)
        × EachReceives nals sent sys.hub.subscribers
  unfolding Hub.subscribe
  play_is_served sends nals m uri hs z x found is hub idle port whole form is_play number fits small
        named connects takes all sendable live distinct live_too fresh =
      let id : ℕ = (world 0).streamer_made in
      let new : Subscriber = subscriber made id in
      let runs : (sys.hub.running || true) ≡ true = ground arith in
      let leaves =
        on_event-play m uri hs z x found is hub idle port whole form is_play number fits small named
          connects takes in
      let came : Hub = record (sys.hub) {
        subscribers = sys.hub.subscribers ++ new ∷ [];
        running = true;
      } in
      let (h, sent, gives, each) =
        stream_received sends nals came all sendable
          (All-append IsLive sys.hub.subscribers (new ∷ []) live (live_too, tt))
          (append-Distinct sys.hub.subscribers new distinct fresh) in
      let (others, own) =
        others_and_visitor (λ k. nals) nals sent sys.hub.subscribers new fresh (λ k e. refl) each in
      (
        rw leaves (find_client-store fd s (played id s) sys.clients found),
        rw (leaves, runs) refl,
        h,
        sent,
        rw (leaves, runs) gives,
        own,
        others,
      )
