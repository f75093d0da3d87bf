-- ===== src/Rtsp/Server/Loop.antt =====
-- src/rtsp/server.cpp: `Server::run`, from the listener to the return, with what the pump thread
-- does at the hub in between.
use veda_rtsp.Base.{
  ℕ, Bool, true, false, if◌then◌else◌, Option, none, some, List, [], ◌∷◌, ◌++◌, Bytes,
}
use veda_rtsp.Rtp.Streamer.{Streamer}
use veda_rtsp.Media.AnnexB.{Stream}
use veda_rtsp.Media.Hub.{on_nal, pump_ends}
use veda_rtsp.Net.Tcp.{FdCall, opens, closes, Setup, make_listener, destroy}
use veda_rtsp.Rtsp.Parser.{Headers}
use veda_rtsp.Rtsp.Session.Handlers.{Answers}
use veda_rtsp.Rtsp.Server.{System, Event, on_event, shut_down}
use veda_rtsp.Rtsp.Server.Runs.{begin}

-- What `epoll_wait` answers: events, each with the answers to the session that takes it, EINTR, or
-- another error.
pub data Wait : Type 0 where
  woken : List ((ℕ → Answers) × Event) → Wait
  wait_interrupted : Wait
  wait_failed : Wait

-- A round of the loop, with what `g_running` is then; or the pump thread in between, with a NAL unit
-- or at the end of its source.
pub data Moment : Type 0 where
  round : Bool → Wait → Moment
  pumps : (ℕ → ℕ → Bool) → Bytes → Moment
  ends : Moment

-- How `run` ends: with 1 before the loop, with 0 behind it, or by an exception.
pub data Exit : Type 0 where
  not_started : Exit
  stopped : System → Exit
  terminated : System → Exit

-- The pump's part; a pump that does not run does nothing.
unfoldable pub pump_moment : Moment → System → System
pump_moment (round flag w) sys = sys
pump_moment (pumps sends nal) sys =
    if sys.hub.running
    then elim (on_nal sends nal sys.hub) [ none ↦ sys | some (h, sent) ↦ record sys { hub = h } ]
    else sys
pump_moment ends sys = if sys.hub.running then record sys { hub = pump_ends sys.hub } else sys

module _ (made : ℕ → Streamer) (scan : Headers → Headers) where
  -- `for (int i = 0; i < n; ++i)`; nothing comes behind an exception.
  unfoldable pub on_events : List ((ℕ → Answers) × Event) → System → System
  unfolding on_event
  on_events [] sys = sys
  on_events ((world, e) ∷ rest) sys =
      let later = on_events rest (on_event made scan world e sys) in
      if sys.alive then later else sys

  -- `while (g_running)`; `none` is a loop that goes on behind the moments given.
  unfoldable pub run_loop : List Moment → System → Option Exit
  unfolding on_events shut_down pump_moment
  run_loop [] sys = none
  run_loop (round false w ∷ rest) sys = some (stopped (shut_down made sys))
  run_loop (round true wait_failed ∷ rest) sys = some (stopped (shut_down made sys))
  run_loop (round true wait_interrupted ∷ rest) sys = run_loop rest sys
  run_loop (round true (woken es) ∷ rest) sys =
      let later = run_loop rest (on_events es sys) in
      if (on_events es sys).alive then later else some (terminated (on_events es sys))
  run_loop (pumps sends nal ∷ rest) sys = run_loop rest (pump_moment (pumps sends nal) sys)
  run_loop (ends ∷ rest) sys = run_loop rest (pump_moment ends sys)

  -- The calls of the system that make or free a descriptor, and how it ends: `answers` are those to
  -- the listener, `epoll` is what `epoll_create1` gives, `registers` whether the listener could be
  -- added to it, `source` is `source_path_`, and `file`
  -- what `fopen` gives for it.
  unfoldable pub run :
      Setup → Option ℕ → Bool → Bytes → Option Stream → List Moment → Option (List FdCall × Exit)
  unfolding make_listener destroy run_loop begin
  run answers epoll registers source file moments =
      let (listener, calls) = make_listener answers in
      elim listener [
        | none ↦ some (calls, not_started)
        | some fd ↦ elim epoll [
          | none ↦ some (calls ++ destroy (some fd), not_started)
          | some epoll_fd ↦
              let opened = calls ++ opens epoll_fd ∷ [] in
              let cleaned = opened ++ (closes epoll_fd ∷ destroy (some fd)) in
              if registers
              then elim (run_loop moments (begin source file)) [
                | none ↦ none
                | some not_started ↦ some (cleaned, not_started)
                | some (stopped t) ↦ some (cleaned, stopped t)
                | some (terminated t) ↦ some (opened, terminated t)
              ]
              else some (cleaned, not_started)
        ]
      ]
