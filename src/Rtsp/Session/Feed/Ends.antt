-- ===== src/Rtsp/Session/Feed/Ends.antt =====
-- session.cpp, `feed`: its loop, and the session behind it.
use veda_rtsp.Base.{
  ℕ, zero, suc, ◌+◌, ◌<◌, ◌≡◌, ◌≢◌, ◌∙◌, refl, Bool, Bool-cases, ltb, Option-cases, inl, inr, List,
  [], ◌∷◌, ◌++◌, Bytes, length, length-drop, take, find, find-le, arith,
}
use veda_rtsp.Rtsp.Parser.{Headers, Outcome, parsed, refused, thrown, stuck, parse_request}
use veda_rtsp.Rtsp.Parser.Total.{parse_request_total}
use veda_rtsp.Rtsp.Session.Handlers.{
  Session, Answers, Reply, Action, handle, on_disconnect, make_session,
}
use veda_rtsp.Rtsp.Session.Handlers.Machine.{IsSound, handle-IsSound, make_session-IsSound}
use veda_rtsp.Rtsp.Session.Handlers.Subscription.{
  subscribed, held, IsProper, IsProper-append, handle-IsProper, handle-subscribed,
  on_disconnect-subscribed, subscribed-append,
}
use veda_rtsp.Rtsp.Session.Handlers.Frame.{handle-rx_buffer}
use veda_rtsp.Rtsp.Session.Feed.{
  max_rx_buffer, empty_line, End, keeps_open, closes, throws, endless, Fed, after, stop_with,
  deliver, bad_request, consume, is_closed, done_by, after_reply, process, feed_loop, feed,
}

deliver-subscribed : (response : Bytes) (ids : List ℕ) → subscribed ids (deliver response) ≡ ids
unfolding subscribed
deliver-subscribed [] ids = refl
deliver-subscribed (c ∷ cs) ids = refl

deliver-IsProper : (response : Bytes) (ids : List ℕ) → IsProper ids (deliver response)
unfolding IsProper
deliver-IsProper [] ids = tt
deliver-IsProper (c ∷ cs) ids = tt

-- What a run of `feed` keeps: the invariant of the session, and the hub's view of its streamer,
-- when it began with the subscriptions `ids`.
pub record IsKept (ids : List ℕ) (f : Fed) : Type 0 where
  pub sound : IsSound f.session
  pub hub_view : subscribed ids f.actions ≡ held f.session
  pub proper : IsProper ids f.actions

-- To stop keeps everything as it is.
stop_with-IsKept : (s : Session) (i : ℕ) (e : End) → IsSound s → IsKept (held s) (stop_with s i e)
unfolding subscribed IsProper
stop_with-IsKept s i e v = record { sound = v; hub_view = refl; proper = tt }

-- What was done first, and then the rest.
after-IsKept :
    (ids : List ℕ) (first : List Action) (f : Fed)
    → IsProper ids first
    → IsKept (subscribed ids first) f
    → IsKept ids (after first f)
after-IsKept ids first f p k = record {
  sound = k.sound;
  hub_view = subscribed-append first f.actions ids ∙ k.hub_view;
  proper = IsProper-append first f.actions ids p k.proper;
}

module _ (scan : Headers → Headers) (world : ℕ → Answers) where
  after_reply_ends :
      (again : Session → Fed) (i : ℕ) (r : Reply)
      → (again r.session).ending ≢ endless
      → (after_reply scan world again i r).ending ≢ endless
  unfolding after_reply
  after_reply_ends again i r h = elim (Bool-cases (is_closed r.session.state)) [
    | inl shut ↦ rw shut (λ e. cc)
    | inr stays ↦ rw stays h
  ]

  process_ends :
      (again : Session → Fed) (i : ℕ) (s : Session) (out : Outcome)
      → out ≢ stuck
      → ((t : Session) → t.rx_buffer ≡ s.rx_buffer → (again t).ending ≢ endless)
      → (process scan world again i s out).ending ≢ endless
  unfolding process
  process_ends again i s (parsed req) h more =
      after_reply_ends again i (handle scan (world i) s req)
        (more _ (handle-rx_buffer scan (world i) s req))
  process_ends again i s refused h more = more s refl
  process_ends again i s thrown h more = λ e. cc
  process_ends again i s stuck h more = absurd (h refl)

  feed_loop_ends :
      (fuel i : ℕ) (s : Session)
      → length s.rx_buffer < fuel
      → (feed_loop scan world fuel i s).ending ≢ endless
  unfolding feed_loop
  feed_loop_ends zero i s h = absurd (omega arith)
  feed_loop_ends (suc fuel) i s h = elim (Option-cases (find empty_line s.rx_buffer)) [
    | inl nothing ↦ rw (nothing, feed_loop) (λ e. cc)
    | inr (at, found) ↦
        rw (found, feed_loop)
          (process_ends (feed_loop scan world fuel (suc i)) i (consume at s)
            (parse_request scan (take (at + 4) s.rx_buffer))
            (parse_request_total scan (take (at + 4) s.rx_buffer))
            (λ t e. feed_loop_ends fuel (suc i) t (
              rw e (
                omega (
                  arith,
                  length-drop (at + 4) s.rx_buffer,
                  find-le empty_line s.rx_buffer found,
                )))))
  ]

  -- `feed` ends on every input: it keeps the connection, closes it, or lets an exception of the
  -- parser through.
  pub feed_total :
      (i : ℕ) (s : Session) (received : Bytes) → (feed scan world i s received).ending ≢ endless
  unfolding feed
  feed_total i s received =
      elim (Bool-cases (ltb max_rx_buffer (length (s.rx_buffer ++ received)))) [
        | inl full ↦ rw full (λ e. cc)
        | inr fits ↦ rw fits (
            feed_loop_ends (suc (length (s.rx_buffer ++ received))) i
              (record s { rx_buffer = s.rx_buffer ++ received }) (omega arith))
      ]

  after_reply-IsKept :
      (again : Session → Fed) (i : ℕ) (s : Session) (r : Reply)
      → IsSound r.session
      → subscribed (held s) r.actions ≡ held r.session
      → IsProper (held s) r.actions
      → IsKept (held r.session) (again r.session)
      → IsKept (held s) (after_reply scan world again i r)
  unfolding after_reply
  after_reply-IsKept again i s r v h p more =
      let so_far : subscribed (held s) (done_by r) ≡ held r.session =
        subscribed-append r.actions (deliver r.response) (held s)
        ∙ rw (deliver-subscribed r.response (subscribed (held s) r.actions)) h in
      after-IsKept (held s) (done_by r) _
        (IsProper-append r.actions (deliver r.response) (held s) p
          (deliver-IsProper r.response (subscribed (held s) r.actions)))
        (rw so_far (elim (Bool-cases (is_closed r.session.state)) [
          | inl shut ↦ rw shut (stop_with-IsKept r.session (suc i) closes v)
          | inr stays ↦ rw stays more
        ]))

  process-IsKept :
      (again : Session → Fed) (i : ℕ) (s : Session) (out : Outcome)
      → IsSound s
      → ((t : Session) → IsSound t → IsKept (held t) (again t))
      → IsKept (held s) (process scan world again i s out)
  unfolding process
  process-IsKept again i s (parsed req) v more =
      let v' = handle-IsSound scan (world i) s req v in
      after_reply-IsKept again i s (handle scan (world i) s req) v'
        (handle-subscribed scan (world i) s req v) (handle-IsProper scan (world i) s req v)
        (more _ v')
  process-IsKept again i s refused v more =
      after-IsKept (held s) bad_request (again s) (unfold IsProper in tt)
        (unfold subscribed in more s v)
  process-IsKept again i s thrown v more = stop_with-IsKept s i throws v
  process-IsKept again i s stuck v more = stop_with-IsKept s i endless v

  feed_loop-IsKept :
      (fuel i : ℕ) (s : Session) → IsSound s → IsKept (held s) (feed_loop scan world fuel i s)
  unfolding feed_loop
  feed_loop-IsKept zero i s v = stop_with-IsKept s i endless v
  feed_loop-IsKept (suc fuel) i s v = elim (Option-cases (find empty_line s.rx_buffer)) [
    | inl nothing ↦ rw (nothing, feed_loop) (stop_with-IsKept s i keeps_open v)
    | inr (at, found) ↦
        rw (found, feed_loop)
          (process-IsKept (feed_loop scan world fuel (suc i)) i (consume at s)
            (parse_request scan (take (at + 4) s.rx_buffer)) v (feed_loop-IsKept fuel (suc i)))
  ]

  pub feed-IsKept :
      (i : ℕ) (s : Session) (received : Bytes)
      → IsSound s
      → IsKept (held s) (feed scan world i s received)
  unfolding feed
  feed-IsKept i s received v =
      elim (Bool-cases (ltb max_rx_buffer (length (s.rx_buffer ++ received)))) [
        | inl full ↦
            rw full (stop_with-IsKept (record s { rx_buffer = s.rx_buffer ++ received }) i closes v)
        | inr fits ↦ rw fits (
            feed_loop-IsKept (suc (length (s.rx_buffer ++ received))) i
              (record s { rx_buffer = s.rx_buffer ++ received }) v)
      ]

  -- A session that begins, receives any bytes in one call of `feed` and is disconnected leaves
  -- none of its streamers at the hub, whatever the socket and the hub answer.
  pub feed_disconnect-subscribed :
      (ip received : Bytes) (hub : Bool) (i : ℕ)
      → let f = feed scan world i (make_session ip hub) received in
        subscribed [] (f.actions ++ (on_disconnect f.session).1) ≡ []
  unfolding make_session
  feed_disconnect-subscribed ip received hub i =
      let kept = feed-IsKept i (make_session ip hub) received (make_session-IsSound ip hub) in
      subscribed-append (feed scan world i (make_session ip hub) received).actions
        (on_disconnect (feed scan world i (make_session ip hub) received).session).1 []
      ∙ rw (kept.hub_view) (on_disconnect-subscribed _ kept.sound)
