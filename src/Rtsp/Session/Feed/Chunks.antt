-- ===== src/Rtsp/Session/Feed/Chunks.antt =====
-- `feed` against the way the bytes are cut into reads.
use veda_rtsp.Base.{
  ℕ, zero, suc, ◌+◌, ◌≤◌, ◌≡◌, ◌∙◌, ap, refl, sym, Bool-cases, ltb, Option-cases, inl, inr, List,
  ◌++◌, append_assoc, Bytes, length, length-append, take-append, drop-append, take, find, find-le,
  find-append_mono, arith,
}
use veda_rtsp.Rtsp.Parser.{Headers, Outcome, parsed, refused, thrown, stuck, parse_request}
use veda_rtsp.Rtsp.Session.Handlers.{Session, Action, Answers, Reply, handle}
use veda_rtsp.Rtsp.Session.Handlers.Frame.{handle-rx_buffer, handle-with_buffer, with_buffer}
use veda_rtsp.Rtsp.Session.Feed.{
  max_rx_buffer, bad_request, empty_line, End, keeps_open, closes, Fed, after, consume, is_closed,
  done_by, after_reply, process, feed,
}
use veda_rtsp.Rtsp.Session.Feed.Runs.{run, run_done, run_request, run_shrinks, consume_shortens}

-- The session with more bytes behind those it has.
abbrev grow : Bytes → Session → Session
grow more s = record s { rx_buffer = s.rx_buffer ++ more }

after-after : (xs ys : List Action) (f : Fed) → after xs (after ys f) ≡ after (xs ++ ys) f
after-after xs ys f =
    ap (λ (a : List Action). record f { actions = a }) (sym (append_assoc xs ys f.actions))

module _ (scan : Headers → Headers) (world : ℕ → Answers) where
  -- A run scan world goes on behind `f`, with more bytes.
  abbrev goes_on : Bytes → Fed → Fed
  goes_on more f = after f.actions (run scan world f.handled (grow more f.session))

  after_reply_grows :
      (more : Bytes) (f g : Session → Fed) (i : ℕ) (r : Reply)
      → (after_reply scan world f i r).ending ≡ keeps_open
      → ((f r.session).ending ≡ keeps_open → g (grow more r.session) ≡ goes_on more (f r.session))
      → after_reply scan world g i (with_buffer (r.session.rx_buffer ++ more) r)
        ≡ goes_on more (after_reply scan world f i r)
  unfolding after_reply
  after_reply_grows more f g i r h same = elim (Bool-cases (is_closed r.session.state)) [
    | inl shut ↦ absurd (ending-ne (rw shut at h))
    | inr stays ↦ rw stays (
        ap (after (done_by r)) (same (rw stays at h))
        ∙ after-after (done_by r) (f r.session).actions
            (run scan world (f r.session).handled (grow more (f r.session).session)))
  ]
    where
      ending-ne : ◌≡◌ {A = End} closes keeps_open → ⊥
      ending-ne e = cc

  process_grows :
      (more : Bytes) (f g : Session → Fed) (i : ℕ) (s : Session) (out : Outcome)
      → (process scan world f i s out).ending ≡ keeps_open
      → ((t : Session)
          → t.rx_buffer ≡ s.rx_buffer
          → (f t).ending ≡ keeps_open
          → g (grow more t) ≡ goes_on more (f t))
      → process scan world g i (grow more s) out ≡ goes_on more (process scan world f i s out)
  unfolding process
  process_grows more f g i s (parsed req) h same =
      let e = handle-rx_buffer scan (world i) s req in
      let grown : handle scan (world i) (grow more s) req
          ≡ with_buffer ((handle scan (world i) s req).session.rx_buffer ++ more)
              (handle scan (world i) s req) =
        handle-with_buffer scan (world i) (s.rx_buffer ++ more) s req
        ∙ ap (λ (b : Bytes). with_buffer (b ++ more) (handle scan (world i) s req)) (sym e) in
      ap (after_reply scan world g i) grown
      ∙ after_reply_grows more f g i (handle scan (world i) s req) h (same _ e)
  process_grows more f g i s refused h same =
      let sent = bad_request in
      ap (after sent) (same s refl h)
      ∙ after-after sent (f s).actions (run scan world (f s).handled (grow more (f s).session))
  process_grows more f g i s thrown h same = cc
  process_grows more f g i s stuck h same = cc

  run_grows :
      (more : Bytes) (n i : ℕ) (s : Session)
      → length s.rx_buffer ≤ n
      → (run scan world i s).ending ≡ keeps_open
      → run scan world i (grow more s) ≡ goes_on more (run scan world i s)
  run_grows more zero i s h open_end = elim (Option-cases (find empty_line s.rx_buffer)) [
    | inl nothing ↦ rw (run_done scan world i s nothing) refl
    | inr (at, found) ↦ absurd (omega (arith, consume_shortens scan world s at found))
  ]
  run_grows more (suc n) i s h open_end = elim (Option-cases (find empty_line s.rx_buffer)) [
    | inl nothing ↦ rw (run_done scan world i s nothing) refl
    | inr (at, found) ↦
        let shorter = consume_shortens scan world s at found in
        let within : at + 4 ≤ length s.rx_buffer =
          omega (arith, find-le empty_line s.rx_buffer found) in
        rw
          (
            run_request scan world i (grow more s) at
                (find-append_mono empty_line s.rx_buffer more at found),
            take-append (at + 4) s.rx_buffer more within,
            drop-append (at + 4) s.rx_buffer more within,
            run_request scan world i s at found,
          )
          (process_grows more (run scan world (suc i)) (run scan world (suc i)) i (consume at s)
            (parse_request scan (take (at + 4) s.rx_buffer))
            (rw (run_request scan world i s at found) at open_end)
            (λ t e. run_grows more n (suc i) t (rw e (omega (arith, shorter)))))
  ]

  feed_fits :
      (i : ℕ) (s : Session) (received : Bytes)
      → length (s.rx_buffer ++ received) ≤ max_rx_buffer
      → feed scan world i s received ≡ run scan world i (grow received s)
  unfolding feed
  feed_fits i s received fits =
      elim (Bool-cases (ltb max_rx_buffer (length (s.rx_buffer ++ received)))) [
        | inl full ↦ absurd (ground (arith, full))
        | inr room ↦ rw room refl
      ]

  -- Bytes that arrive in two reads are handled as if they had arrived in one, when the first read
  -- leaves the connection open and all of them fit the buffer: the same actions in the same order,
  -- the same session, and the same end.
  pub feed-append :
      (i : ℕ) (s : Session) (a b : Bytes)
      → length (s.rx_buffer ++ (a ++ b)) ≤ max_rx_buffer
      → (feed scan world i s a).ending ≡ keeps_open
      → feed scan world i s (a ++ b)
        ≡ after
            (feed scan world i s a).actions
            (feed scan world (feed scan world i s a).handled (feed scan world i s a).session b)
  feed-append i s a b fits stays =
      let whole : s.rx_buffer ++ (a ++ b) ≡ (s.rx_buffer ++ a) ++ b =
        sym (append_assoc s.rx_buffer a b) in
      let first : feed scan world i s a ≡ run scan world i (grow a s) =
        feed_fits i s a (omega (arith, length-append (s.rx_buffer ++ a) b, ap length whole)) in
      let short : length (run scan world i (grow a s)).session.rx_buffer
          ≤ length (s.rx_buffer ++ a) =
        run_shrinks scan world (length (s.rx_buffer ++ a)) i (grow a s) (omega arith) in
      let second : feed scan world (run scan world i (grow a s)).handled
            (run scan world i (grow a s)).session b
          ≡ run scan world (run scan world i (grow a s)).handled
              (grow b (run scan world i (grow a s)).session) =
        feed_fits (run scan world i (grow a s)).handled (run scan world i (grow a s)).session b (
          omega (
            arith,
            short,
            length-append (run scan world i (grow a s)).session.rx_buffer b,
            length-append (s.rx_buffer ++ a) b,
            ap length whole,
          )) in
      feed_fits i s (a ++ b) fits
      ∙ ap (λ (x : Bytes). run scan world i (record s { rx_buffer = x })) whole
      ∙ run_grows b (length (s.rx_buffer ++ a)) i (grow a s) (omega arith) (rw first at stays)
      ∙ ap (after (run scan world i (grow a s)).actions) (sym second)
      ∙ ap (λ (f : Fed). after f.actions (feed scan world f.handled f.session b)) (sym first)
