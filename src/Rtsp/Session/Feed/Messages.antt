-- ===== src/Rtsp/Session/Feed/Messages.antt =====
-- session.cpp, `feed`: what it sends, as a client reads it off the connection.
use veda_rtsp.Base.{
  ℕ, zero, suc, ◌+◌, ◌<◌, ◌^◌, ◌≡◌, refl, Bool-cases, Option-cases, ltb, inl, inr, some, List, [],
  ◌∷◌, ◌++◌, All, OneLine, Bytes, pos, codes, length, take, find, arith,
}
use veda_rtsp.Rtsp.Parser.{Headers, Request, Outcome, parsed, refused, thrown, stuck, parse_request}
use veda_rtsp.Rtsp.Parser.Uri.{parse_request-OneLine}
use veda_rtsp.Rtsp.Response.Frame.{client_messages}
use veda_rtsp.Rtsp.Session.Handlers.{Session, Answers, Reply, handle}
use veda_rtsp.Rtsp.Session.Feed.{
  max_rx_buffer, empty_line, Fed, consume, is_closed, done_by, after_reply, process, feed_loop,
  feed,
}
use veda_rtsp.Rtsp.Session.Feed.Answered.{sent_by}
use veda_rtsp.Rtsp.Session.Feed.Readable.{handle-IsReadable}
use veda_rtsp.Rtsp.Session.Feed.Texts.{
  IsMessage, AllMessages, AllMessages-append, IsReadable, refusal_lem,
}

-- The texts as the connection carries them.
abbrev pub joined : List Bytes → Bytes
joined [] = []
joined (text ∷ texts) = text ++ joined texts

-- Messages one behind the other are read one by one.
client_messages-joined :
    (texts : List Bytes)
    → All IsMessage texts
    → (bodies : List Bytes) × (client_messages (length texts) (joined texts) ≡ some bodies)
      × (length bodies ≡ length texts)
unfolding client_messages
client_messages-joined [] h = ([], refl, refl)
client_messages-joined (text ∷ texts) ((body, framed), h) =
    let (bodies, e, long) = client_messages-joined texts h in
    (body ∷ bodies, rw (framed (joined texts), e) refl, rw long refl)

-- What holds behind `feed`: every text is one message, and the session id is still a line.
abbrev IsClear : Fed → Type 0
IsClear f = AllMessages f.actions × OneLine f.session.session_id

module _ (scan : Headers → Headers) (world : ℕ → Answers)
    (fits : (i : ℕ) → length (world i).sprop < 2 ^ 30) where
  after_reply-IsClear :
      (again : Session → Fed) (i : ℕ) (r : Reply)
      → IsReadable r
      → IsClear (again r.session)
      → IsClear (after_reply scan world again i r)
  unfolding after_reply
  after_reply-IsClear again i r v more = elim (Bool-cases (is_closed r.session.state)) [
    | inl shut ↦ rw shut (AllMessages-append (done_by r) [] v.0 tt, v.1)
    | inr open_still ↦
        rw open_still (AllMessages-append (done_by r) (again r.session).actions v.0 more.0, more.1)
  ]

  process-IsClear :
      (again : Session → Fed) (i : ℕ) (s : Session) (out : Outcome)
      → OneLine s.session_id
      → ((req : Request) → out ≡ parsed req → OneLine req.uri)
      → ((t : Session) → OneLine t.session_id → IsClear (again t))
      → IsClear (process scan world again i s out)
  unfolding process
  process-IsClear again i s (parsed req) id uri more =
      let v = handle-IsReadable scan (world i) req (fits i) (uri req refl) s id in
      after_reply-IsClear again i (handle scan (world i) s req) v (more _ v.1)
  process-IsClear again i s refused id uri more =
      let (later, id') = more s id in
      ((refusal_lem (pos 0) (pos 400) (codes "Bad Request") (ground arith), later), id')
  process-IsClear again i s thrown id uri more = (tt, id)
  process-IsClear again i s stuck id uri more = (tt, id)

  feed_loop-IsClear :
      (fuel i : ℕ) (s : Session) → OneLine s.session_id → IsClear (feed_loop scan world fuel i s)
  unfolding feed_loop
  feed_loop-IsClear zero i s id = (tt, id)
  feed_loop-IsClear (suc fuel) i s id = elim (Option-cases (find empty_line s.rx_buffer)) [
    | inl nothing ↦ rw (nothing, feed_loop) (tt, id)
    | inr (at, found) ↦
        rw (found, feed_loop)
          (process-IsClear (feed_loop scan world fuel (suc i)) i (consume at s)
            (parse_request scan (take (at + 4) s.rx_buffer)) id
            (parse_request-OneLine scan (take (at + 4) s.rx_buffer))
            (feed_loop-IsClear fuel (suc i)))
  ]

  feed-IsClear :
      (i : ℕ) (s : Session) (received : Bytes)
      → OneLine s.session_id
      → IsClear (feed scan world i s received)
  unfolding feed
  feed-IsClear i s received id =
      elim (Bool-cases (ltb max_rx_buffer (length (s.rx_buffer ++ received)))) [
        | inl full ↦ rw full (tt, id)
        | inr small ↦ rw small (
            feed_loop-IsClear (suc (length (s.rx_buffer ++ received))) i
              (record s { rx_buffer = s.rx_buffer ++ received }) id)
      ]

  -- Whatever bytes arrive at a session whose id has no CR LF, a client that reads what `feed`
  -- sends, text behind text on one connection, by header lines and Content-Length, finds exactly
  -- as many messages as there are texts and nothing else, and the session's id still has no CR LF;
  -- the hub's answers to DESCRIBE are shorter than 2^30.
  pub feed_readable :
      (i : ℕ) (s : Session) (received : Bytes)
      → OneLine s.session_id
      → let f = feed scan world i s received in
        (bodies : List Bytes) × (client_messages
            (length (sent_by f.actions))
            (joined (sent_by f.actions))
          ≡ some bodies)
        × (length bodies ≡ length (sent_by f.actions))
        × OneLine f.session.session_id
  feed_readable i s received id =
      let (clear, id') = feed-IsClear i s received id in
      let (bodies, e, long) = client_messages-joined _ clear in (bodies, e, long, id')
