-- ===== src/Rtsp/Session/Feed/Runs.antt =====
-- session.cpp, `feed`: its loop, one request at a time, and its fuel.
use veda_rtsp.Base.{
  ℕ, zero, suc, ◌+◌, ◌≤◌, ◌<◌, ◌≡◌, ap, refl, Bool-cases, Option-cases, inl, inr, none, some,
  length, length-drop, take, find, find-le, arith,
}
use veda_rtsp.Rtsp.Parser.{Headers, Outcome, parsed, refused, thrown, stuck, parse_request}
use veda_rtsp.Rtsp.Session.Handlers.{Session, Answers, Reply, handle}
use veda_rtsp.Rtsp.Session.Handlers.Frame.{handle-rx_buffer}
use veda_rtsp.Rtsp.Session.Feed.{
  bad_request, empty_line, keeps_open, Fed, after, stop_with, consume, is_closed, done_by,
  after_reply, process, feed_loop,
}

module _ (scan : Headers → Headers) (world : ℕ → Answers) where
  -- The loop with the fuel that `feed` gives it.
  abbrev pub run : ℕ → Session → Fed
  run i s = feed_loop scan world (suc (length s.rx_buffer)) i s

  after_reply_again :
      (f g : Session → Fed) (i : ℕ) (r : Reply)
      → f r.session ≡ g r.session
      → after_reply scan world f i r ≡ after_reply scan world g i r
  unfolding after_reply
  after_reply_again f g i r same = elim (Bool-cases (is_closed r.session.state)) [
    | inl shut ↦ rw shut refl
    | inr stays ↦ rw stays (ap (after (done_by r)) same)
  ]

  process_again :
      (f g : Session → Fed) (i : ℕ) (s : Session) (out : Outcome)
      → ((t : Session) → t.rx_buffer ≡ s.rx_buffer → f t ≡ g t)
      → process scan world f i s out ≡ process scan world g i s out
  unfolding process
  process_again f g i s (parsed req) same =
      after_reply_again f g i (handle scan (world i) s req)
        (same (handle scan (world i) s req).session (handle-rx_buffer scan (world i) s req))
  process_again f g i s refused same = ap (after bad_request) (same s refl)
  process_again f g i s thrown same = refl
  process_again f g i s stuck same = refl

  pub consume_shortens :
      (s : Session) (at : ℕ)
      → find empty_line s.rx_buffer ≡ some at
      → length (consume at s).rx_buffer < length s.rx_buffer
  consume_shortens s at found =
      omega (arith, length-drop (at + 4) s.rx_buffer, find-le empty_line s.rx_buffer found)

  -- Any fuel above the length of the buffer gives the same run.
  feed_loop_fuel :
      (m n i : ℕ) (s : Session)
      → length s.rx_buffer < m
      → length s.rx_buffer < n
      → feed_loop scan world m i s ≡ feed_loop scan world n i s
  unfolding feed_loop
  feed_loop_fuel zero n i s hm hn = absurd (omega arith)
  feed_loop_fuel (suc m) zero i s hm hn = absurd (omega arith)
  feed_loop_fuel (suc m) (suc n) i s hm hn = elim (Option-cases (find empty_line s.rx_buffer)) [
    | inl nothing ↦ rw (nothing, feed_loop) refl
    | inr (at, found) ↦
        let shorter = consume_shortens s at found in
        rw (found, feed_loop)
          (process_again (feed_loop scan world m (suc i)) (feed_loop scan world n (suc i)) i
            (consume at s) (parse_request scan (take (at + 4) s.rx_buffer))
            (λ t e.
              feed_loop_fuel m n (suc i) t (rw e (omega (arith, shorter)))
                (rw e (omega (arith, shorter)))))
  ]

  pub run_done :
      (i : ℕ) (s : Session)
      → find empty_line s.rx_buffer ≡ none
      → run i s ≡ stop_with s i keeps_open
  unfolding feed_loop
  run_done i s nothing = rw (nothing, feed_loop) refl

  pub run_request :
      (i : ℕ) (s : Session) (at : ℕ)
      → find empty_line s.rx_buffer ≡ some at
      → run i s
        ≡ process scan world
            (run (suc i))
            i
            (consume at s)
            (parse_request scan (take (at + 4) s.rx_buffer))
  unfolding feed_loop
  run_request i s at found =
      rw (found, feed_loop)
        (process_again (feed_loop scan world (length s.rx_buffer) (suc i)) (run (suc i)) i
          (consume at s) (parse_request scan (take (at + 4) s.rx_buffer))
          (λ t e.
            feed_loop_fuel (length s.rx_buffer) (suc (length t.rx_buffer)) (suc i) t
              (rw e (consume_shortens s at found)) (omega arith)))

  after_reply_shrinks :
      (f : Session → Fed) (i n : ℕ) (r : Reply)
      → length r.session.rx_buffer ≤ n
      → length (f r.session).session.rx_buffer ≤ n
      → length (after_reply scan world f i r).session.rx_buffer ≤ n
  unfolding after_reply
  after_reply_shrinks f i n r here later = elim (Bool-cases (is_closed r.session.state)) [
    | inl shut ↦ rw shut here
    | inr stays ↦ rw stays later
  ]

  process_shrinks :
      (f : Session → Fed) (i n : ℕ) (s : Session) (out : Outcome)
      → length s.rx_buffer ≤ n
      → ((t : Session) → t.rx_buffer ≡ s.rx_buffer → length (f t).session.rx_buffer ≤ n)
      → length (process scan world f i s out).session.rx_buffer ≤ n
  unfolding process
  process_shrinks f i n s (parsed req) here later =
      let e = handle-rx_buffer scan (world i) s req in
      after_reply_shrinks f i n (handle scan (world i) s req) (rw e here) (later _ e)
  process_shrinks f i n s refused here later = later s refl
  process_shrinks f i n s thrown here later = here
  process_shrinks f i n s stuck here later = here

  pub run_shrinks :
      (n i : ℕ) (s : Session) → length s.rx_buffer ≤ n → length (run i s).session.rx_buffer ≤ n
  run_shrinks zero i s h = elim (Option-cases (find empty_line s.rx_buffer)) [
    | inl nothing ↦ rw (run_done i s nothing) h
    | inr (at, found) ↦ absurd (omega (arith, consume_shortens s at found))
  ]
  run_shrinks (suc n) i s h = elim (Option-cases (find empty_line s.rx_buffer)) [
    | inl nothing ↦ rw (run_done i s nothing) h
    | inr (at, found) ↦
        let shorter = consume_shortens s at found in
        rw (run_request i s at found) (
          process_shrinks (run (suc i)) i (suc n) (consume at s)
            (parse_request scan (take (at + 4) s.rx_buffer)) (omega (arith, shorter))
            (λ t e. omega (arith, run_shrinks n (suc i) t (rw e (omega (arith, shorter))))))
  ]
