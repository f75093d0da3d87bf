-- ===== src/Rtsp/Session/Feed/Answered.antt =====
-- What a client gets for a request.
use veda_rtsp.Base.{
  ◌≡◌, refl, Bool, true, false, Bool-cases, Option-cases, inl, inr, Option, some, List, [], ◌∷◌,
  Bytes, ℤ, IsInt, codes, map, arith,
}
use veda_rtsp.Rtsp.Parser.{Headers, Method, Request, header}
use veda_rtsp.Rtsp.Response.Cseq.{
  client_cseq, client_cseq-ok, client_cseq-ok_session, client_cseq-options, client_cseq-describe,
  client_cseq-setup, client_cseq-play, client_cseq-teardown, client_cseq-error,
}
use veda_rtsp.Rtsp.Session.Handlers.{
  Session, Action, send, connect, subscribe, unsubscribe, Answers, Reply, answer, handle, dispatch,
  method_allowed, is_unknown, handle_setup, setup_ports, handle_play, start_streaming, handle_pause,
  handle_teardown, handle_get_parameter, handle_describe, stop_streaming,
}
use veda_rtsp.Rtsp.Session.Feed.{deliver, done_by}

-- The texts that go out to the client.
abbrev pub sent_by : List Action → List Bytes
sent_by [] = []
sent_by (send text ∷ rest) = text ∷ sent_by rest
sent_by (connect id ip port connected ∷ rest) = sent_by rest
sent_by (subscribe id answered ∷ rest) = sent_by rest
sent_by (unsubscribe id ∷ rest) = sent_by rest

-- The CSeq of each text that `feed` sends for a reply.
abbrev pub cseqs : Reply → List (Option ℤ)
cseqs r = map client_cseq (sent_by (done_by r))

sent_by-deliver :
    (text : Bytes) (z : ℤ)
    → client_cseq text ≡ some z
    → map client_cseq (sent_by (deliver text)) ≡ some z ∷ []
unfolding client_cseq
sent_by-deliver [] z e = cc
sent_by-deliver (c ∷ cs) z e = rw e refl

module _ (scan : Headers → Headers) (w : Answers) (req : Request) (fits : IsInt req.cseq) where
  answer-cseqs :
      (s : Session) (text : Bytes)
      → client_cseq text ≡ some req.cseq
      → cseqs (answer s text) ≡ some req.cseq ∷ []
  answer-cseqs s text e = sent_by-deliver text req.cseq e

  setup_ports-cseqs :
      (s : Session) (accepted : Bool)
      → cseqs (setup_ports scan w s req accepted) ≡ some req.cseq ∷ []
  unfolding setup_ports
  setup_ports-cseqs s true = sent_by-deliver _ req.cseq (client_cseq-setup req.cseq fits _ _ _ _ _)
  setup_ports-cseqs s false =
      let (e501, (e455, (e400, (e461, rest)))) = client_cseq-error req.cseq fits in
      sent_by-deliver _ req.cseq e461

  handle_setup-cseqs : (s : Session) → cseqs (handle_setup scan w s req) ≡ some req.cseq ∷ []
  unfolding handle_setup
  handle_setup-cseqs s = elim (Option-cases (header scan req (codes "Transport"))) [
    | inl missing ↦
        let (e501, (e455, (e400, rest))) = client_cseq-error req.cseq fits in
        rw (missing, handle_setup) (sent_by-deliver _ req.cseq e400)
    | inr (transport, found) ↦ rw (found, handle_setup) (setup_ports-cseqs _ _)
  ]

  handle_play-cseqs : (s : Session) → cseqs (handle_play scan w s req) ≡ some req.cseq ∷ []
  unfolding handle_play start_streaming
  handle_play-cseqs s =
      let (e501, (e455, (e400, (e461, (e454, (e500, rest)))))) = client_cseq-error req.cseq fits in
      ground (
        arith,
        sent_by-deliver _ req.cseq e454,
        sent_by-deliver _ req.cseq e500,
        client_cseq-play req.cseq fits s.session_id,
      )

  handle_pause-cseqs : (s : Session) → cseqs (handle_pause scan s req) ≡ some req.cseq ∷ []
  unfolding handle_pause stop_streaming
  handle_pause-cseqs s =
      let (e501, (e455, (e400, (e461, (e454, rest))))) = client_cseq-error req.cseq fits in
      ground (
        arith,
        sent_by-deliver _ req.cseq e454,
        sent_by-deliver _ req.cseq (client_cseq-ok_session req.cseq fits s.session_id),
      )

  handle_teardown-cseqs : (s : Session) → cseqs (handle_teardown scan s req) ≡ some req.cseq ∷ []
  unfolding handle_teardown stop_streaming
  handle_teardown-cseqs s =
      let (e501, (e455, (e400, (e461, (e454, rest))))) = client_cseq-error req.cseq fits in
      ground (
        arith,
        sent_by-deliver _ req.cseq e454,
        sent_by-deliver _ req.cseq (client_cseq-teardown req.cseq fits s.session_id),
      )

  handle_get_parameter-cseqs :
      (s : Session) → cseqs (handle_get_parameter scan s req) ≡ some req.cseq ∷ []
  unfolding handle_get_parameter
  handle_get_parameter-cseqs s = ground (
    arith,
    sent_by-deliver _ req.cseq (client_cseq-ok req.cseq fits),
    sent_by-deliver _ req.cseq (client_cseq-ok_session req.cseq fits s.session_id),
  )

  dispatch-cseqs : (m : Method) (s : Session) → cseqs (dispatch scan m w s req) ≡ some req.cseq ∷ []
  unfolding dispatch handle_describe
  dispatch-cseqs Method.options s = sent_by-deliver _ req.cseq (client_cseq-options req.cseq fits)
  dispatch-cseqs Method.describe s =
      sent_by-deliver _ req.cseq (client_cseq-describe req.cseq fits _ _)
  dispatch-cseqs Method.setup s = handle_setup-cseqs s
  dispatch-cseqs Method.play s = handle_play-cseqs s
  dispatch-cseqs Method.pause s = handle_pause-cseqs s
  dispatch-cseqs Method.teardown s = handle_teardown-cseqs s
  dispatch-cseqs Method.get_parameter s = handle_get_parameter-cseqs s
  dispatch-cseqs Method.unknown s =
      let (e501, (e455, (e400, (e461, (e454, (e500, rest)))))) = client_cseq-error req.cseq fits in
      sent_by-deliver _ req.cseq e500

  -- Every request whose CSeq is an int is answered with exactly one text, from which a client that
  -- looks for the CSeq behind the status line reads the request's own number: a success, a refusal
  -- or an error alike.
  pub handle-cseqs : (s : Session) → cseqs (handle scan w s req) ≡ some req.cseq ∷ []
  unfolding handle
  handle-cseqs s =
      let (e501, (e455, rest)) = client_cseq-error req.cseq fits in
      elim (Bool-cases (is_unknown scan req.method)) [
        | inl unknown ↦ rw unknown (sent_by-deliver _ req.cseq e501)
        | inr known ↦ elim (Bool-cases (method_allowed s.state req.method)) [
          | inl ok ↦ rw (known, ok) (dispatch-cseqs req.method s)
          | inr bad ↦ rw (known, bad) (sent_by-deliver _ req.cseq e455)
        ]
      ]
