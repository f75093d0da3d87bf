-- ===== src/Rtsp/Session/Handlers/Frame.antt =====
-- session.cpp, `handle`: the buffer and the connection of the session.
use veda_rtsp.Base.{◌≡◌, ◌≢◌, refl, Bytes, [], arith, Bool-cases, inl, inr}
use veda_rtsp.Rtsp.Parser.{Headers, Method, Request}
use veda_rtsp.Rtsp.Session.Handlers.{
  Session, Answers, Reply, handle, dispatch, method_allowed, is_unknown, session_header_matches,
}
use veda_rtsp.Rtsp.Session.Handlers.Machine.{handle_cases}

abbrev pub with_buffer : Bytes → Reply → Reply
with_buffer x r = record r { session = record (r.session) { rx_buffer = x } }

matches-with_buffer :
    (scan : Headers → Headers) (x : Bytes) (s : Session) (req : Request)
    → session_header_matches scan (record s { rx_buffer = x }) req
      ≡ session_header_matches scan s req
unfolding session_header_matches
matches-with_buffer scan x s req = refl

module _ (scan : Headers → Headers) (w : Answers) where
  dispatch-with_buffer :
      (x : Bytes) (m : Method) (s : Session) (req : Request)
      → dispatch scan m w (record s { rx_buffer = x }) req ≡ with_buffer x (dispatch scan m w s req)
  unfolding dispatch
  dispatch-with_buffer x Method.setup s req = ground arith
  dispatch-with_buffer x Method.play s req = ground (arith, matches-with_buffer scan x s req)
  dispatch-with_buffer x Method.pause s req = ground (arith, matches-with_buffer scan x s req)
  dispatch-with_buffer x Method.teardown s req = ground (arith, matches-with_buffer scan x s req)
  dispatch-with_buffer x _ s req = ground arith

  -- The bytes in the receive buffer have no part in the handling of a request, which leaves them
  -- as they are.
  pub handle-with_buffer :
      (x : Bytes) (s : Session) (req : Request)
      → handle scan w (record s { rx_buffer = x }) req ≡ with_buffer x (handle scan w s req)
  unfolding handle
  handle-with_buffer x s req = elim (Bool-cases (is_unknown scan req.method)) [
    | inl unknown ↦ rw unknown refl
    | inr known ↦ elim (Bool-cases (method_allowed s.state req.method)) [
      | inl ok ↦ rw (known, ok) (dispatch-with_buffer x req.method s req)
      | inr bad ↦ rw (known, bad) refl
    ]
  ]

  dispatch-rx_buffer :
      (m : Method) (s : Session) (req : Request)
      → (dispatch scan m w s req).session.rx_buffer ≡ s.rx_buffer
  unfolding dispatch
  dispatch-rx_buffer Method.setup s req = ground arith
  dispatch-rx_buffer _ s req = ground arith

  pub handle-rx_buffer :
      (s : Session) (req : Request) → (handle scan w s req).session.rx_buffer ≡ s.rx_buffer
  handle-rx_buffer s req =
      handle_cases scan w (λ r. r.session.rx_buffer ≡ s.rx_buffer) s req (λ response. refl)
        (λ ok. dispatch-rx_buffer req.method s req)

  dispatch-session_id :
      (m : Method) (s : Session) (req : Request)
      → s.session_id ≢ []
      → (dispatch scan m w s req).session.session_id ≡ s.session_id
  unfolding dispatch
  dispatch-session_id Method.setup s req h = ground arith
  dispatch-session_id _ s req h = ground arith

  -- A session id that has been issued stays, a second SETUP included.
  pub handle-session_id :
      (s : Session) (req : Request)
      → s.session_id ≢ []
      → (handle scan w s req).session.session_id ≡ s.session_id
  handle-session_id s req h =
      handle_cases scan w (λ r. r.session.session_id ≡ s.session_id) s req (λ response. refl)
        (λ ok. dispatch-session_id req.method s req h)
