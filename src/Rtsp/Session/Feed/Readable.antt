-- ===== src/Rtsp/Session/Feed/Readable.antt =====
-- session.cpp, `handle`: what it sends, as messages of a client.
use veda_rtsp.Base.{
  ℕ, ◌<◌, ◌^◌, Bool, true, false, Bool-cases, Option-cases, if◌then◌else◌, inl, inr, [], ◌++◌,
  OneLine, OneLine-snoc, Bytes, pos, codes, length, arith,
}
use veda_rtsp.Sdp.{build}
use veda_rtsp.Sdp.Sprop.{h264_info, length-h264_info}
use veda_rtsp.Rtsp.Parser.{Headers, Method, Request, header}
use veda_rtsp.Rtsp.Response
use veda_rtsp.Rtsp.Response.Framed.{
  ok-IsFramed, ok_session-IsFramed, options-IsFramed, describe-IsFramed, setup-IsFramed,
  play-IsFramed, teardown-IsFramed,
}
use veda_rtsp.Rtsp.Session.Transport.{generate_session_id}
use veda_rtsp.Rtsp.Session.Handlers.{
  State, session_header_matches, is_empty, Session, connect, Answers, answer, handle, dispatch,
  method_allowed, is_unknown, handle_setup, setup_ports, handle_play, start_streaming, handle_pause,
  handle_teardown, handle_get_parameter, handle_describe, stop_streaming,
}
use veda_rtsp.Rtsp.Session.Feed.{deliver}
use veda_rtsp.Rtsp.Session.Feed.Texts.{
  IsMessage, AllMessages, generate_session_id-OneLine, AllMessages-append, deliver-AllMessages,
  refusal_lem, IsReadable, answer_lem,
}

module _ (scan : Headers → Headers) (w : Answers) (req : Request) (fits : length w.sprop < 2 ^ 30)
    (uri : OneLine req.uri) where
  handle_describe-IsReadable :
      (s : Session) → OneLine s.session_id → IsReadable (handle_describe w s req)
  unfolding handle_describe
  handle_describe-IsReadable s id = elim (Bool-cases s.has_hub) [
    | inl hub ↦ rw hub (
        answer_lem s _ id (
          _,
          describe-IsFramed req.cseq (build (h264_info w.sprop)) (req.uri ++ codes "/")
              (OneLine-snoc req.uri b'/' (omega arith) uri) (length-h264_info w.sprop fits),
        ))
    | inr alone ↦ rw alone (
        answer_lem s _ id (
          _,
          describe-IsFramed req.cseq (build (h264_info [])) (req.uri ++ codes "/")
              (OneLine-snoc req.uri b'/' (omega arith) uri) (length-h264_info [] (omega arith)),
        ))
  ]

  setup_ports-IsReadable :
      (s : Session) (accepted : Bool)
      → OneLine s.session_id
      → IsReadable (setup_ports scan w s req accepted)
  unfolding setup_ports
  setup_ports-IsReadable s false id =
      answer_lem s _ id
        (refusal_lem req.cseq (pos 461) (codes "Unsupported Transport") (ground arith))
  setup_ports-IsReadable s true id =
      named (if is_empty s.session_id then generate_session_id w.draw else s.session_id)
        (ground (arith, generate_session_id-OneLine w.draw))
    where
      named :
          (name : Bytes)
          → OneLine name
          → IsReadable (
              answer
                (record s { state = State.ready; session_id = name })
                (Response.setup req.cseq name s.ports.rtp s.ports.rtcp (pos 6970) (pos 6971)))
      named name h =
          answer_lem (record s { state = State.ready; session_id = name }) _ h
            ([], setup-IsFramed req.cseq name h s.ports.rtp s.ports.rtcp (pos 6970) (pos 6971))

  handle_setup-IsReadable :
      (s : Session) → OneLine s.session_id → IsReadable (handle_setup scan w s req)
  unfolding handle_setup
  handle_setup-IsReadable s id = elim (Option-cases (header scan req (codes "Transport"))) [
    | inl missing ↦
        rw (missing, handle_setup)
          (answer_lem s _ id
            (refusal_lem req.cseq (pos 400) (codes "Bad Request - No Transport") (ground arith)))
    | inr (transport, found) ↦ rw (found, handle_setup) (setup_ports-IsReadable _ _ id)
  ]

  not_found_lem :
      (s : Session)
      → OneLine s.session_id
      → IsReadable (answer s (Response.error req.cseq (pos 454) (codes "Session Not Found")))
  not_found_lem s id =
      answer_lem s _ id (refusal_lem req.cseq (pos 454) (codes "Session Not Found") (ground arith))

  start_streaming-IsReadable :
      (s : Session) (ip : Bytes) (port n : ℕ) (ok : Bool)
      → OneLine s.session_id
      → IsReadable (start_streaming scan w s req (connect n ip port ok))
  unfolding start_streaming
  start_streaming-IsReadable s ip port n ok id =
      let message : IsMessage (Response.play req.cseq s.session_id) =
        ([], play-IsFramed req.cseq s.session_id id) in
      elim (Bool-cases s.has_hub) [
        | inr alone ↦ rw alone ((message, tt), id)
        | inl hub ↦ elim (Bool-cases w.subscribes) [
          | inl taken ↦ rw (hub, taken) ((message, tt), id)
          | inr left ↦ rw (hub, left) ((message, tt), id)
        ]
      ]

  handle_play-IsReadable :
      (s : Session) → OneLine s.session_id → IsReadable (handle_play scan w s req)
  unfolding handle_play
  handle_play-IsReadable s id = elim (Bool-cases (session_header_matches scan s req)) [
    | inr other ↦ rw other (not_found_lem s id)
    | inl own ↦ elim (Bool-cases w.connects) [
      | inl up ↦ rw (own, up) (start_streaming-IsReadable s _ _ _ true id)
      | inr down ↦
          rw (own, down)
            (
              deliver-AllMessages _
                  (refusal_lem req.cseq (pos 500) (codes "Internal Server Error") (ground arith)),
              id,
            )
    ]
  ]

  stop_streaming-IsReadable :
      (s : Session)
      → OneLine s.session_id
      → AllMessages (stop_streaming s).1 × OneLine (stop_streaming s).0.session_id
  unfolding stop_streaming
  stop_streaming-IsReadable s id = elim (Option-cases s.streamer) [
    | inl nothing ↦ rw (nothing, stop_streaming) (tt, id)
    | inr (n, held) ↦ elim (Bool-cases s.has_hub) [
      | inl hub ↦ rw (held, stop_streaming, hub) (tt, id)
      | inr alone ↦ rw (held, stop_streaming, alone) (tt, id)
    ]
  ]

  handle_pause-IsReadable :
      (s : Session) → OneLine s.session_id → IsReadable (handle_pause scan s req)
  unfolding handle_pause
  handle_pause-IsReadable s id = elim (Bool-cases (session_header_matches scan s req)) [
    | inr other ↦ rw other (not_found_lem s id)
    | inl own ↦
        let (done, id') = stop_streaming-IsReadable s id in
        let text : Bytes = Response.ok_session req.cseq (stop_streaming s).0.session_id in
        rw own (
          AllMessages-append (stop_streaming s).1 (deliver text) done
              (deliver-AllMessages text ([], ok_session-IsFramed req.cseq _ id')),
          id',
        )
  ]

  handle_teardown-IsReadable :
      (s : Session) → OneLine s.session_id → IsReadable (handle_teardown scan s req)
  unfolding handle_teardown
  handle_teardown-IsReadable s id = elim (Bool-cases (session_header_matches scan s req)) [
    | inr other ↦ rw other (not_found_lem s id)
    | inl own ↦
        let (done, id') = stop_streaming-IsReadable s id in
        let text : Bytes = Response.teardown req.cseq (stop_streaming s).0.session_id in
        rw own (
          AllMessages-append (stop_streaming s).1 (deliver text) done
              (deliver-AllMessages text ([], teardown-IsFramed req.cseq _ id')),
          id',
        )
  ]

  handle_get_parameter-IsReadable :
      (s : Session) → OneLine s.session_id → IsReadable (handle_get_parameter scan s req)
  unfolding handle_get_parameter
  handle_get_parameter-IsReadable s id = elim (Bool-cases (is_empty s.session_id)) [
    | inl fresh ↦ rw fresh (answer_lem s _ id ([], ok-IsFramed req.cseq))
    | inr named ↦ rw named (answer_lem s _ id ([], ok_session-IsFramed req.cseq s.session_id id))
  ]

  dispatch-IsReadable :
      (m : Method) (s : Session) → OneLine s.session_id → IsReadable (dispatch scan m w s req)
  unfolding dispatch
  dispatch-IsReadable Method.options s id = answer_lem s _ id ([], options-IsFramed req.cseq)
  dispatch-IsReadable Method.describe s id = handle_describe-IsReadable s id
  dispatch-IsReadable Method.setup s id = handle_setup-IsReadable s id
  dispatch-IsReadable Method.play s id = handle_play-IsReadable s id
  dispatch-IsReadable Method.pause s id = handle_pause-IsReadable s id
  dispatch-IsReadable Method.teardown s id = handle_teardown-IsReadable s id
  dispatch-IsReadable Method.get_parameter s id = handle_get_parameter-IsReadable s id
  dispatch-IsReadable Method.unknown s id =
      answer_lem s _ id
        (refusal_lem req.cseq (pos 500) (codes "Internal Server Error") (ground arith))

  -- Every text that a request is answered with is one message, and the session id stays a line.
  pub handle-IsReadable : (s : Session) → OneLine s.session_id → IsReadable (handle scan w s req)
  unfolding handle
  handle-IsReadable s id = elim (Bool-cases (is_unknown scan req.method)) [
    | inl unknown ↦ rw unknown (
        answer_lem s _ id (refusal_lem req.cseq (pos 501) (codes "Not Implemented") (ground arith)))
    | inr known ↦ elim (Bool-cases (method_allowed s.state req.method)) [
      | inl ok ↦ rw (known, ok) (dispatch-IsReadable req.method s id)
      | inr bad ↦
          rw (known, bad)
            (answer_lem s _ id (
              refusal_lem req.cseq (pos 455) (codes "Method Not Valid in This State")
                (ground arith)))
    ]
  ]
