-- ===== src/Rtsp/Session/Feed/Playing.antt =====
-- session.cpp: a client's way from SETUP to PLAY, by what it reads of the responses.
use veda_rtsp.Base.{
  ℕ, ◌<◌, ◌^◌, ◌%◌, ◌≡◌, refl, true, some, [], ◌∷◌, ◌++◌, append_assoc, append-nil, ◌∙◌, drop,
  Bytes, codes, ℤ, pos, Lacks, arith, print_int, print_nat, digits_fuel,
}
use veda_rtsp.Rtsp.Response
use veda_rtsp.Rtsp.Response.Framed.{transport_of}
use veda_rtsp.Rtsp.Response.Fields.{
  client_session, client_transport, client_session-setup, client_transport-setup,
}
use veda_rtsp.Rtsp.Parser.{Headers, Method, Request, header}
use veda_rtsp.Rtsp.Session.Transport.Asked.{IsEnd, asked_front, pair}
use veda_rtsp.Rtsp.Session.Handlers.{
  ready, Session, connect, send, subscribe, Answers, Reply, answer, handle, method_allowed,
}
use veda_rtsp.Rtsp.Session.Feed.{done_by}
use veda_rtsp.Rtsp.Session.Feed.Answered.{sent_by}
use veda_rtsp.Rtsp.Session.Feed.Messages.{joined}
use veda_rtsp.Rtsp.Session.Feed.Joining.{
  IsName, played, named, set_up, named-IsName, handle-setup, handle-setup_refused, handle-play,
}

-- The bytes of a reply on the connection.
abbrev pub wire : Reply → Bytes
wire r = joined (sent_by (done_by r))

-- A text that is not empty, as the connection carries it.
wire-setup :
    (s : Session) (cseq a b c d : ℤ) (id : Bytes)
    → wire (answer s (Response.setup cseq id a b c d)) ≡ Response.setup cseq id a b c d
unfolding Response.setup
wire-setup s cseq a b c d id = append-nil (Response.setup cseq id a b c d)

-- What the server says of the ports: the client's own, and the server's.
abbrev pub agreed : ℕ → ℕ → Bytes
agreed x y = asked_front ++ (pair x y ++ codes ";server_port=6970-6971")

server_ports : (print_nat 6970 ≡ codes "6970") × (print_nat 6971 ≡ codes "6971")
unfolding print_nat digits_fuel
server_ports = (refl, refl)

transport_of-agreed :
    (x y : ℕ) → drop 11 (transport_of (pos x) (pos y) (pos 6970) (pos 6971)) ≡ agreed x y
unfolding print_int
transport_of-agreed x y = rw (server_ports.0, server_ports.1, append_assoc (print_nat x)) refl

module _ (scan : Headers → Headers) (w1 w2 : Answers) (s : Session) (setup play : Request) (x y : ℕ)
    (rest : Bytes) where
  -- A client of a session with a hub, whose SETUP comes in a state that allows it and asks for two
  -- ports, X from 1 to 65535 and Y within int, as RTP/AVP;unicast;client_port=X-Y with nothing, a
  -- semicolon or a comma behind it, and that puts the Session header that it reads in the response
  -- into its PLAY makes the session PLAYING with the new streamer: the response to the SETUP names
  -- the client's ports, and the PLAY connects the streamer to the client's address and exactly X,
  -- answers with the same id, and subscribes the streamer, in this order, when the UDP socket
  -- connects and the hub takes the streamer. An id that the session had before has no CR LF and no
  -- semicolon.
  pub setup_then_play :
      setup.method ≡ Method.setup
      → play.method ≡ Method.play
      → method_allowed s.state Method.setup ≡ true
      → s.has_hub ≡ true
      → IsName s.session_id
      → header scan setup (codes "Transport") ≡ some (asked_front ++ (pair x y ++ rest))
      → 0 < x
      → x < 65536
      → y < 2 ^ 31
      → IsEnd rest
      → header scan play (codes "Session") ≡ client_session (wire (handle scan w1 s setup))
      → w2.connects ≡ true
      → w2.subscribes ≡ true
      → (client_transport (wire (handle scan w1 s setup)) ≡ some (agreed x y))
        × (id : Bytes) × (client_session (wire (handle scan w1 s setup)) ≡ some id)
        × (handle scan w2 (handle scan w1 s setup).session play ≡ record {
          session = played w2.streamer_made (handle scan w1 s setup).session;
          actions =
              connect w2.streamer_made s.client_ip x true
              ∷ send (Response.play play.cseq id)
              ∷ subscribe w2.streamer_made true
              ∷ [];
          response = [];
        })
  setup_then_play m1 m2 ok hub name asked low high fits ends given connects takes =
      let id : Bytes = named scan w1 s in
      let text : Bytes = Response.setup setup.cseq id (pos x) (pos y) (pos 6970) (pos 6971) in
      let own : IsName id = named-IsName scan w1 s name in
      let after = handle-setup scan w1 s setup x y rest m1 ok asked low high fits ends in
      let sent : wire (handle scan w1 s setup) ≡ text = rw after (
        wire-setup (set_up scan w1 s (pos x) (pos y)) setup.cseq (pos x) (pos y) (pos 6970)
          (pos 6971) id) in
      let read : client_session text ≡ some id =
        rw (append-nil text) at
          (client_session-setup setup.cseq id own.0 (pos x) (pos y) (pos 6970) (pos 6971) []) in
      let ports : client_transport text ≡ some (agreed x y) =
        rw (append-nil text, transport_of-agreed x y) at
          (client_transport-setup setup.cseq id own.0 (pos x) (pos y) (pos 6970) (pos 6971) []) in
      let small : x % 2 ^ 16 ≡ x = omega arith in
      let named_so : header scan play (codes "Session") ≡ some id = given ∙ rw sent read in
      let plays = rw small at (
        handle-play scan w2 (set_up scan w1 s (pos x) (pos y)) play x m2 refl hub refl named_so
          own.1 connects takes) in
      (rw sent ports, id, rw sent read, rw after plays)

  -- A second SETUP of a READY session with a hub, that asks for a port X from 65536 up as
  -- RTP/AVP;unicast;client_port=X-Y, X and Y within int, with nothing, a semicolon or a comma
  -- behind it, is refused with 461 and the session stays READY, yet the PLAY behind it connects
  -- the streamer to port X modulo 2^16 of the client and goes on, when the Session header names
  -- the session, whose id has no semicolon, the UDP socket connects and the hub takes the
  -- streamer.
  pub refused_setup_then_play :
      setup.method ≡ Method.setup
      → play.method ≡ Method.play
      → s.state ≡ ready
      → s.has_hub ≡ true
      → Lacks b';' s.session_id
      → header scan setup (codes "Transport") ≡ some (asked_front ++ (pair x y ++ rest))
      → 65535 < x
      → x < 2 ^ 31
      → y < 2 ^ 31
      → IsEnd rest
      → header scan play (codes "Session") ≡ some s.session_id
      → w2.connects ≡ true
      → w2.subscribes ≡ true
      → ((handle scan w1 s setup).response
          ≡ Response.error setup.cseq (pos 461) (codes "Unsupported Transport"))
        × ((handle scan w1 s setup).session.state ≡ ready)
        × ((handle scan w2 (handle scan w1 s setup).session play).actions
            ≡ connect w2.streamer_made s.client_ip (x % 2 ^ 16) true
              ∷ send (Response.play play.cseq s.session_id)
              ∷ subscribe w2.streamer_made true
              ∷ [])
  unfolding method_allowed
  refused_setup_then_play m1 m2 is hub whole asked high fits fits_too ends given connects takes =
      let allowed : method_allowed s.state Method.setup ≡ true = rw is refl in
      let after =
        handle-setup_refused scan w1 s setup x y rest m1 allowed asked high fits fits_too ends in
      let moved : Session = record s { ports = record { rtp = pos x; rtcp = pos y } } in
      let plays = handle-play scan w2 moved play x m2 is hub refl given whole connects takes in
      (rw after refl, rw after is, rw after (rw plays refl))
