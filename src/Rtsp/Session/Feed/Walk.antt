-- ===== src/Rtsp/Session/Feed/Walk.antt =====
-- `feed` against the state diagram of docs/state-machine.md.
use veda_rtsp.Base.{
  ℕ, zero, suc, ◌+◌, Bool-cases, ltb, Option-cases, inl, inr, ◌++◌, Bytes, length, find, take,
}
use veda_rtsp.Rtsp.Parser.{Headers, Outcome, parsed, refused, thrown, stuck, parse_request, Method}
use veda_rtsp.Rtsp.Session.Handlers.{Session, Answers, Reply, handle, State}
use veda_rtsp.Rtsp.Session.Handlers.Machine.{Transition, handle-Transition}
use veda_rtsp.Rtsp.Session.Feed.{
  max_rx_buffer, empty_line, Fed, is_closed, after_reply, consume, process, feed_loop, feed,
}

-- A way through the diagram.
pub data Walk : State → State → Type 0 where
  stays : {a : State} → Walk a a
  goes : {a b c : State} → (m : Method) → Transition m a b → Walk b c → Walk a c

module _ (scan : Headers → Headers) (world : ℕ → Answers) where
  after_reply-Walk :
      (again : Session → Fed) (i : ℕ) (r : Reply) (m : Method) (a : State)
      → Transition m a r.session.state
      → Walk r.session.state (again r.session).session.state
      → Walk a (after_reply scan world again i r).session.state
  unfolding after_reply
  after_reply-Walk again i r m a t more = elim (Bool-cases (is_closed r.session.state)) [
    | inl shut ↦ rw shut (goes m t stays)
    | inr open_still ↦ rw open_still (goes m t more)
  ]

  process-Walk :
      (again : Session → Fed) (i : ℕ) (s : Session) (out : Outcome)
      → ((t : Session) → Walk t.state (again t).session.state)
      → Walk s.state (process scan world again i s out).session.state
  unfolding process
  process-Walk again i s (parsed req) more =
      after_reply-Walk again i (handle scan (world i) s req) req.method s.state
        (handle-Transition scan (world i) s req) (more _)
  process-Walk again i s refused more = more s
  process-Walk again i s thrown more = stays
  process-Walk again i s stuck more = stays

  feed_loop-Walk :
      (fuel i : ℕ) (s : Session) → Walk s.state (feed_loop scan world fuel i s).session.state
  unfolding feed_loop
  feed_loop-Walk zero i s = stays
  feed_loop-Walk (suc fuel) i s = elim (Option-cases (find empty_line s.rx_buffer)) [
    | inl nothing ↦ rw (nothing, feed_loop) stays
    | inr (at, found) ↦
        rw (found, feed_loop)
          (process-Walk (feed_loop scan world fuel (suc i)) i (consume at s)
            (parse_request scan (take (at + 4) s.rx_buffer)) (feed_loop-Walk fuel (suc i)))
  ]

  -- Whatever bytes arrive, the state goes along the diagram.
  pub feed-Walk :
      (i : ℕ) (s : Session) (received : Bytes)
      → Walk s.state (feed scan world i s received).session.state
  unfolding feed
  feed-Walk i s received =
      elim (Bool-cases (ltb max_rx_buffer (length (s.rx_buffer ++ received)))) [
        | inl full ↦ rw full stays
        | inr fits ↦ rw fits (
            feed_loop-Walk (suc (length (s.rx_buffer ++ received))) i
              (record s { rx_buffer = s.rx_buffer ++ received }))
      ]
