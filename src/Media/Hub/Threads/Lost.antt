-- ===== src/Media/Hub/Threads/Lost.antt =====
-- src/media/hub.cpp: a subscription that comes between the end of the source and `running_ = false`.
use veda_rtsp.Base.{ℕ, ◌≡◌, ◌⊎◌, inl, inr, refl, true, false, List, [], ◌∷◌}
use veda_rtsp.Media.Hub.Threads
use veda_rtsp.Media.Hub.Threads.{
  Lock, free, Pump, ended, clearing, Server, outside, Threads, start, ServerMove, ServerCan,
  server_moves, PumpMove, PumpCan, pump_moves, Step, by_server_thread, by_pump_thread, Reach, here,
  next,
}

-- A subscribe, from the outside of the hub to the outside, that starts the source.
first_subscribed :
    (a : ℕ) → Reach (record start { subscribers = a ∷ []; running = true; pump = Pump.testing })
first_subscribed a =
    let r0 = next here (by_server_thread (Threads.calls_subscribe a) refl) in
    let r1 = next r0 (by_server_thread (Threads.sub_locks a) (refl, refl)) in
    let r2 = next r1 (by_server_thread (Threads.sub_not_joinable a) (refl, refl, refl)) in
    let r3 = next r2 (by_server_thread (Threads.sub_starts a) refl) in
    let r4 = next r3 (by_server_thread (Threads.sub_spawns a) refl) in
    next r4 (by_server_thread (Threads.sub_pushes a) refl)

-- The source ends, and the pump stands between `stop` and `running_ = false`.
source_over :
    (a : ℕ) → Reach (record start { subscribers = a ∷ []; running = true; pump = clearing })
source_over a =
    let r0 = next (first_subscribed a) (by_pump_thread Threads.pump_goes_on (refl, refl)) in
    let r1 = next r0 (by_pump_thread (Threads.pump_reads 0 false) refl) in
    let r2 = next r1 (by_pump_thread Threads.pump_fails refl) in
    next r2 (by_pump_thread Threads.pump_stops refl)

-- A pump that has returned makes no move.
ended_stays : (m : PumpMove) (t : Threads) → t.pump ≡ ended → ¬ PumpCan m t
ended_stays Threads.pump_goes_on t e h = cc
ended_stays Threads.pump_leaves t e h = cc
ended_stays (Threads.pump_reads n ok) t e h = cc
ended_stays (Threads.pump_locks n ok) t e h = cc
ended_stays (Threads.pump_gives id todo n ok) t e h = cc
ended_stays (Threads.pump_unlocks n ok) t e h = cc
ended_stays Threads.pump_returns t e h = cc
ended_stays Threads.pump_fails t e h = cc
ended_stays Threads.pump_stops t e h = cc
ended_stays Threads.pump_clears t e h = cc

-- One thread or the other makes each of the moves, in this order, where it can.
abbrev pub Follows : Threads → List (ServerMove ⊎ PumpMove) → Threads → Type 0
Follows s [] t = t ≡ s
Follows s (inl m ∷ moves) t = ServerCan m s × Follows (server_moves m s) moves t
Follows s (inr m ∷ moves) t = PumpCan m s × Follows (pump_moves m s) moves t

-- For any two streamers, the threads reach a state in which the first is subscribed, the source
-- has ended and been stopped, and the pump has not yet cleared the flag, from which a subscribe of
-- the second, called only then, runs to its end by the branch that takes the source for running
-- and subscribes the streamer; then the pump clears the flag, and both are subscribed, no source
-- runs, and the pump has no move left.
pub subscriber_lost :
    (a b : ℕ)
    → (s t : Threads) × Reach s
      × (s.server ≡ outside)
      × (s.subscribers ≡ a ∷ [])
      × (s.running ≡ true)
      × (s.pump ≡ clearing)
      × Follows s
          (inl (Threads.calls_subscribe b)
            ∷ inl (Threads.sub_locks b)
            ∷ inl (Threads.sub_runs b)
            ∷ inl (Threads.sub_pushes b)
            ∷ inr Threads.pump_clears
            ∷ [])
          t
      × (t.server ≡ outside)
      × (t.subscribers ≡ a ∷ b ∷ [])
      × (t.running ≡ false)
      × (t.pump ≡ ended)
      × ((m : PumpMove) → ¬ PumpCan m t)
subscriber_lost a b = (
  record start { subscribers = a ∷ []; running = true; pump = clearing },
  record start { subscribers = a ∷ b ∷ []; pump = ended },
  source_over a,
  refl,
  refl,
  refl,
  refl,
  (refl, ((refl, refl), ((refl, refl), (refl, (refl, refl))))),
  refl,
  refl,
  refl,
  refl,
  λ m. ended_stays m _ refl,
)
