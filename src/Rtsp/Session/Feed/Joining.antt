-- ===== src/Rtsp/Session/Feed/Joining.antt =====
-- session.cpp: a SETUP and a PLAY of a client that asks for two ports.
use veda_rtsp.Base.{
  ℕ, ◌<◌, ◌^◌, ◌%◌, ◌≡◌, refl, true, false, some, Bool-cases, inl, inr, [], ◌∷◌, ◌++◌, Bytes, codes,
  ℤ, pos, Lacks, OneLine, arith, print_int, find_char-Lacks, bytes_eq, bytes_eq_iff, if◌then◌else◌,
}
use veda_rtsp.Rtsp.Response
use veda_rtsp.Rtsp.Parser.{Headers, Method, Request, header}
use veda_rtsp.Rtsp.Session.Transport.{generate_session_id, in_port_range, session_id_of, port_of}
use veda_rtsp.Rtsp.Session.Transport.Asked.{IsEnd, asked_front, pair, parse_transport-pair}
use veda_rtsp.Rtsp.Session.Handlers.{
  ready, playing, Session, connect, send, subscribe, Answers, answer, handle, dispatch,
  method_allowed, handle_setup, setup_ports, handle_play, start_streaming, is_empty,
  session_header_matches,
}
use veda_rtsp.Rtsp.Session.Feed.Texts.{generate_session_id-OneLine, generate_session_id-Lacks}

-- A name that comes back whole in a Session header.
abbrev pub IsName : Bytes → Type 0
IsName id = OneLine id × Lacks b';' id

-- A session with its new streamer.
abbrev pub played : ℕ → Session → Session
played id s = record s { streamer = some id; state = playing }

module _ (scan : Headers → Headers) (w : Answers) (s : Session) where
  -- The id that a SETUP leaves.
  abbrev pub named : Bytes
  named = if is_empty s.session_id then generate_session_id w.draw else s.session_id

  pub named-IsName : IsName s.session_id → IsName named
  named-IsName h = elim (Bool-cases (is_empty s.session_id)) [
    | inl fresh ↦ rw fresh (
      generate_session_id-OneLine w.draw,
      generate_session_id-Lacks b';' w.draw (inr (omega arith, omega arith)),
    )
    | inr old ↦ rw old h
  ]

  abbrev pub set_up : ℤ → ℤ → Session
  set_up a b = record s { ports = record { rtp = a; rtcp = b }; state = ready; session_id = named }

  pub handle-setup :
      (req : Request) (x y : ℕ) (rest : Bytes)
      → req.method ≡ Method.setup
      → method_allowed s.state Method.setup ≡ true
      → header scan req (codes "Transport") ≡ some (asked_front ++ (pair x y ++ rest))
      → 0 < x
      → x < 65536
      → y < 2 ^ 31
      → IsEnd rest
      → handle scan w s req
        ≡ answer
            (set_up (pos x) (pos y))
            (Response.setup req.cseq named (pos x) (pos y) (pos 6970) (pos 6971))
  unfolding handle dispatch handle_setup setup_ports header generate_session_id Response.setup
  handle-setup req x y rest m ok asked low high fits ends =
      let good : in_port_range (pos x) ≡ true = ground arith in
      rw
        (
          m,
          ok,
          asked,
          handle_setup,
          parse_transport-pair x s.ports rest (omega arith) ends y fits,
          good,
        )
        refl

  -- A SETUP that asks for a port out of the range.
  pub handle-setup_refused :
      (req : Request) (x y : ℕ) (rest : Bytes)
      → req.method ≡ Method.setup
      → method_allowed s.state Method.setup ≡ true
      → header scan req (codes "Transport") ≡ some (asked_front ++ (pair x y ++ rest))
      → 65535 < x
      → x < 2 ^ 31
      → y < 2 ^ 31
      → IsEnd rest
      → handle scan w s req
        ≡ answer
            (record s { ports = record { rtp = pos x; rtcp = pos y } })
            (Response.error req.cseq (pos 461) (codes "Unsupported Transport"))
  unfolding handle dispatch handle_setup setup_ports header Response.error
  handle-setup_refused req x y rest m ok asked high fits fits_too ends =
      let bad : in_port_range (pos x) ≡ false = ground arith in
      rw (m, ok, asked, handle_setup, parse_transport-pair x s.ports rest fits ends y fits_too, bad)
        refl

  -- A request whose Session header is the session's name.
  matches_name :
      (req : Request)
      → header scan req (codes "Session") ≡ some s.session_id
      → Lacks b';' s.session_id
      → session_header_matches scan s req ≡ true
  unfolding session_header_matches session_id_of
  matches_name req given whole =
      let same : bytes_eq s.session_id s.session_id ≡ true =
        (bytes_eq_iff s.session_id s.session_id).1 refl in
      rw (given, session_header_matches, find_char-Lacks b';' s.session_id whole, session_id_of)
        same

  -- A PLAY of a session that is READY, whose name the client knows.
  pub handle-play :
      (req : Request) (x : ℕ)
      → req.method ≡ Method.play
      → s.state ≡ ready
      → s.has_hub ≡ true
      → s.ports.rtp ≡ pos x
      → header scan req (codes "Session") ≡ some s.session_id
      → Lacks b';' s.session_id
      → w.connects ≡ true
      → w.subscribes ≡ true
      → handle scan w s req ≡ record {
        session = played w.streamer_made s;
        actions =
            connect w.streamer_made s.client_ip (x % 2 ^ 16) true
            ∷ send (Response.play req.cseq s.session_id)
            ∷ subscribe w.streamer_made true
            ∷ [];
        response = [];
      }
  unfolding handle dispatch method_allowed handle_play start_streaming port_of
      session_header_matches Response.play header print_int
  handle-play req x m is hub port given whole connects takes =
      rw (m, is, connects, matches_name req given whole, handle_play, hub, takes, port) refl
