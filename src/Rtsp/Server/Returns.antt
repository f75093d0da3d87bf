-- ===== src/Rtsp/Server/Returns.antt =====
-- src/rtsp/server.cpp, `Server::run`: its ends, and what is left behind each.
use veda_rtsp.Base.{
  ℕ, ◌≡◌, ◌⊎◌, ◌≢◌, ◌↔◌, refl, if_cases, Bool, true, false, ◌||◌, Bool-cases, Option-cases, inl,
  inr, Option, none, some, List, [], ◌∷◌, arith, Bytes,
}
use veda_rtsp.Rtp.Streamer.{Streamer}
use veda_rtsp.Media.AnnexB.{Stream}
use veda_rtsp.Media.Hub.{on_nal}
use veda_rtsp.Net.Tcp.{FdCall, opens, closes, Setup, make_listener, destroy}
use veda_rtsp.Net.Tcp.Lifetime.{open_after}
use veda_rtsp.Rtsp.Parser.{Headers}
use veda_rtsp.Rtsp.Session.Handlers.{Answers}
use veda_rtsp.Rtsp.Server.{System, Event, on_event, shut_down}
use veda_rtsp.Rtsp.Server.Consistent.{IsServed}
use veda_rtsp.Rtsp.Server.Runs.{
  served, broadcasts, source_ends, Reach, here, next, begin, shut_down_empties,
}
use veda_rtsp.Rtsp.Server.Loop.{
  woken, wait_interrupted, wait_failed, Moment, round, pumps, ends, Exit, not_started, stopped,
  terminated, pump_moment, on_events, run_loop, run,
}

-- Some round sees that `g_running` is false, or that `epoll_wait` fails.
abbrev pub is_stopping : Moment → Bool
is_stopping (round false w) = true
is_stopping (round true wait_failed) = true
is_stopping _ = false

abbrev pub stops : List Moment → Bool
stops [] = false
stops (m ∷ rest) = is_stopping m || stops rest

-- A loop that has ended: by a return, with nobody at the hub and no client, or by an exception.
abbrev pub Ended : Exit → Type 0
Ended not_started = ⊥
Ended (stopped t) = (t.clients ≡ []) × (t.hub.subscribers ≡ []) × (t.hub.running ≡ false)
Ended (terminated t) = t.alive ≡ false

module _ (made : ℕ → Streamer) (scan : Headers → Headers) where
  -- The hub's answers to the sessions are the hub's, at each event that is handled.
  abbrev pub AllServed : List ((ℕ → Answers) × Event) → System → Type 0
  AllServed [] sys = Unit
  AllServed ((world, e) ∷ rest) sys =
      sys.alive ≡ true
      → IsServed made scan world e sys × AllServed rest (on_event made scan world e sys)

  unfoldable pub RoundsServed : List Moment → System → Type 0
  unfolding on_events
  RoundsServed [] sys = Unit
  RoundsServed (round true (woken es) ∷ rest) sys =
      AllServed es sys × RoundsServed rest (on_events made scan es sys)
  RoundsServed (m ∷ rest) sys = RoundsServed rest (pump_moment m sys)

module _ {made : ℕ → Streamer} {scan : Headers → Headers} (source : Bytes)
    (file : Option Stream) where
  on_events-Reach :
      (es : List ((ℕ → Answers) × Event)) (sys : System)
      → Reach made scan (begin source file) sys
      → AllServed made scan es sys
      → Reach made scan (begin source file) (on_events made scan es sys)
  unfolding on_events
  on_events-Reach [] sys r v = r
  on_events-Reach ((world, e) ∷ rest) sys r v =
      if_cases (Reach made scan (begin source file)) sys.alive
        (λ up.
          on_events-Reach rest (on_event made scan world e sys)
            (next r (served world e up (v up).0 refl)) (v up).1)
        (λ down. r)

  pump_moment-Reach :
      (m : Moment) (sys : System)
      → Reach made scan (begin source file) sys
      → Reach made scan (begin source file) (pump_moment m sys)
  unfolding pump_moment
  pump_moment-Reach (round flag w) sys r = r
  pump_moment-Reach (pumps sends nal) sys r =
      if_cases (Reach made scan (begin source file)) sys.hub.running
        (λ on. elim (Option-cases (on_nal sends nal sys.hub)) [
          | inl nothing ↦ rw nothing r
          | inr ((h, sent), runs) ↦ rw runs (next r (broadcasts sends nal h sent on runs refl))
        ])
        (λ off. r)
  pump_moment-Reach ends sys r =
      if_cases (Reach made scan (begin source file)) sys.hub.running
        (λ on. next r (source_ends on refl)) (λ off. r)

  stopped_lem :
      (sys : System)
      → Reach made scan (begin source file) sys
      → Ended (stopped (shut_down made sys))
  unfolding shut_down
  stopped_lem sys r =
      (refl, (shut_down_empties source file r).0, (shut_down_empties source file r).1)

  run_loop_returns :
      (moments : List Moment) (sys : System)
      → Reach made scan (begin source file) sys
      → RoundsServed made scan moments sys
      → stops moments ≡ true
      → (e : Exit) × (run_loop made scan moments sys ≡ some e) × Ended e
  unfolding run_loop RoundsServed
  run_loop_returns [] sys r v h = cc
  run_loop_returns (round false w ∷ rest) sys r v h =
      (stopped (shut_down made sys), refl, stopped_lem sys r)
  run_loop_returns (round true wait_failed ∷ rest) sys r v h =
      (stopped (shut_down made sys), refl, stopped_lem sys r)
  run_loop_returns (round true wait_interrupted ∷ rest) sys r v h = run_loop_returns rest sys r v h
  run_loop_returns (round true (woken es) ∷ rest) sys r v h =
      let t = on_events made scan es sys in
      elim (Bool-cases t.alive) [
        | inl up ↦ rw up (run_loop_returns rest t (on_events-Reach es sys r v.0) v.1 h)
        | inr down ↦ rw down (terminated t, refl, down)
      ]
  run_loop_returns (pumps sends nal ∷ rest) sys r v h =
      run_loop_returns rest (pump_moment (pumps sends nal) sys)
        (pump_moment-Reach (pumps sends nal) sys r) v h
  run_loop_returns (ends ∷ rest) sys r v h =
      run_loop_returns rest (pump_moment ends sys) (pump_moment-Reach ends sys r) v h

-- The listener is made, and epoll takes it.
abbrev pub Starts : Setup → Option ℕ → Bool → Type 0
Starts answers epoll registers =
    (answers.socket ≢ none)
    × (answers.reuses ≡ true)
    × (answers.binds ≡ true)
    × (answers.listens ≡ true)
    × (epoll ≢ none)
    × (registers ≡ true)

-- What a run leaves behind a return: no descriptor of the listener or of epoll, each having been
-- open when it was closed. An exception ends the process.
abbrev pub Left : List FdCall → Exit → Type 0
Left calls not_started = open_after [] calls ≡ some []
Left calls (stopped t) = (open_after [] calls ≡ some []) × Ended (stopped t)
Left calls (terminated t) = Ended (terminated t)

module _ (made : ℕ → Streamer) (scan : Headers → Headers) (source : Bytes)
    (file : Option Stream) where
  abbrev Returns : List Moment → Setup → Option ℕ → Bool → Type 0
  Returns moments answers epoll registers =
      (calls : List FdCall) × (e : Exit) × (run made scan answers epoll registers source file
          moments
        ≡ some (calls, e))
      × Left calls e
      × ((e ≡ not_started) ⊎ (run_loop made scan moments (begin source file) ≡ some e))
      × ((e ≢ not_started) ↔ Starts answers epoll registers)

  run_cases :
      (moments : List Moment)
      → (e : Exit) × (run_loop made scan moments (begin source file) ≡ some e) × Ended e
      → (socket : Option ℕ) (reuses binds listens : Bool) (epoll : Option ℕ) (registers : Bool)
      → Returns moments
          (record { socket = socket; reuses = reuses; binds = binds; listens = listens })
          epoll
          registers
  unfolding run make_listener destroy
  run_cases moments loop none reuses binds listens epoll registers =
      ([], not_started, refl, refl, inl refl, ((λ h. absurd (h refl)), λ h. absurd (h.0 refl)))
  run_cases moments loop (some fd) false binds listens epoll registers = (
    opens fd ∷ closes fd ∷ [],
    not_started,
    refl,
    ground arith,
    inl refl,
    ((λ h. absurd (h refl)), λ h. cc),
  )
  run_cases moments loop (some fd) true false listens epoll registers = (
    opens fd ∷ closes fd ∷ [],
    not_started,
    refl,
    ground arith,
    inl refl,
    ((λ h. absurd (h refl)), λ h. cc),
  )
  run_cases moments loop (some fd) true true false epoll registers = (
    opens fd ∷ closes fd ∷ [],
    not_started,
    refl,
    ground arith,
    inl refl,
    ((λ h. absurd (h refl)), λ h. cc),
  )
  run_cases moments loop (some fd) true true true none registers = (
    opens fd ∷ closes fd ∷ [],
    not_started,
    refl,
    ground arith,
    inl refl,
    ((λ h. absurd (h refl)), λ h. absurd (h.4 refl)),
  )
  run_cases moments loop (some fd) true true true (some epoll) false = (
    opens fd ∷ opens epoll ∷ closes epoll ∷ closes fd ∷ [],
    not_started,
    refl,
    ground arith,
    inl refl,
    ((λ h. absurd (h refl)), λ h. cc),
  )
  run_cases moments (not_started, runs, done) (some fd) true true true (some epoll) true =
      absurd done
  run_cases moments (stopped t, runs, done) (some fd) true true true (some epoll) true = (
    opens fd ∷ opens epoll ∷ closes epoll ∷ closes fd ∷ [],
    stopped t,
    rw runs refl,
    (ground arith, done),
    inr runs,
    ((λ h. ((λ e. cc), refl, refl, refl, (λ e. cc), refl)), λ h e. cc),
  )
  run_cases moments (terminated t, runs, done) (some fd) true true true (some epoll) true = (
    opens fd ∷ opens epoll ∷ [],
    terminated t,
    rw runs refl,
    done,
    inr runs,
    ((λ h. ((λ e. cc), refl, refl, refl, (λ e. cc), refl)), λ h e. cc),
  )

  -- When some round of the loop sees that g_running is false or that epoll_wait fails, `run` ends,
  -- by a return or by an exception. It has gone past its start exactly when each call that makes
  -- the listener and epoll succeeds, and its end is then the loop's on this source. Behind a return
  -- no descriptor of the listener or of epoll is open, and each was open when it was closed; when
  -- the loop has returned there is no client, and the hub has no subscriber and no source that
  -- runs. Each event that is handled takes the hub's answers to the session as the hub gives them.
  pub run_returns :
      (moments : List Moment) (answers : Setup) (epoll : Option ℕ) (registers : Bool)
      → RoundsServed made scan moments (begin source file)
      → stops moments ≡ true
      → (calls : List FdCall) × (e : Exit) × (run made scan answers epoll registers source file
            moments
          ≡ some (calls, e))
        × Left calls e
        × ((e ≡ not_started) ⊎ (run_loop made scan moments (begin source file) ≡ some e))
        × ((e ≢ not_started) ↔ Starts answers epoll registers)
  run_returns moments answers epoll registers v h =
      run_cases moments
        (run_loop_returns {made = made} {scan = scan} source file moments (begin source file) here v
          h)
        answers.socket answers.reuses answers.binds answers.listens epoll registers
