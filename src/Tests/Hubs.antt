-- ===== src/Tests/Hubs.antt =====
-- A run of the hub's two threads: a client comes, the pump reads a NAL unit, and the client goes while
-- the pump waits for the lock.
use veda_rtsp.Base.{ℕ, ◌≡◌, ◌⊎◌, inl, inr, refl, true, false, [], ◌∷◌, pos}
use veda_rtsp.Media.Hub.Threads
use veda_rtsp.Media.Hub.Threads.{
  free, testing, waiting, clearing, ended, outside, unsub_lock, unsub_join, Threads, start,
  ServerMove, ServerCan, server_moves, PumpMove, PumpCan, pump_moves, by_server_thread,
  by_pump_thread, Reach, here, next,
}
use veda_rtsp.Media.Hub.Threads.Progress.{hub_call_goes_on}
use veda_rtsp.Media.Hub.Threads.Joins.{Returns, join_returns}
use veda_rtsp.Media.Hub.Threads.Leaves.{contains, todo_of, Without, stays, goes, left_alone}
use veda_rtsp.Media.Hub.Threads.Refines.{View, subscribes, unsubscribes, run_ops, view, Reach-taken}
use veda_rtsp.Media.Hub.{make_hub, subscribe, unsubscribe}
use veda_rtsp.Rtp.Streamer.{Streamer, make_streamer}
use veda_rtsp.Media.Hub.Threads.Lost.{Follows, subscriber_lost}

-- The client's `unsubscribe` is about to lock.
abbrev leaving : Threads
leaving = record {
  subscribers = 1 ∷ [];
  running = true;
  lock = free;
  pump = waiting 1 true;
  server = unsub_lock 1;
}

abbrev leaving_reached : Reach leaving
leaving_reached =
    let r0 = next here (by_server_thread (Threads.calls_subscribe 1) refl) in
    let r1 = next r0 (by_server_thread (Threads.sub_locks 1) (refl, refl)) in
    let r2 = next r1 (by_server_thread (Threads.sub_not_joinable 1) (refl, refl, refl)) in
    let r3 = next r2 (by_server_thread (Threads.sub_starts 1) refl) in
    let r4 = next r3 (by_server_thread (Threads.sub_spawns 1) refl) in
    let r5 = next r4 (by_server_thread (Threads.sub_pushes 1) refl) in
    let r6 = next r5 (by_pump_thread Threads.pump_goes_on (refl, refl)) in
    let r7 = next r6 (by_pump_thread (Threads.pump_reads 1 true) refl) in
    next r7 (by_server_thread (Threads.calls_unsubscribe 1) refl)

-- It has told the pump to stop, and joins it.
abbrev joining : Threads
joining = record {
  subscribers = [];
  running = false;
  lock = free;
  pump = waiting 1 true;
  server = unsub_join;
}

joining-Without : Without 1 (server_moves (Threads.unsub_locks 1) leaving) joining
joining-Without =
    goes (goes stays (by_server_thread Threads.unsub_last (refl, refl, refl)) refl)
      (by_server_thread Threads.unsub_stops refl) refl

abbrev joining_reached : Reach joining
joining_reached =
    let r0 = next leaving_reached (by_server_thread (Threads.unsub_locks 1) (refl, refl)) in
    let r1 = next r0 (by_server_thread Threads.unsub_last (refl, refl, refl)) in
    next r1 (by_server_thread Threads.unsub_stops refl)

hub_call_goes_on_example :
    ((m : ServerMove) × ServerCan m joining) ⊎ ((m : PumpMove) × PumpCan m joining)
hub_call_goes_on_example = hub_call_goes_on joining_reached (λ e. cc) (λ e. cc)

join_returns_example : Returns joining
join_returns_example = join_returns joining_reached refl (λ e. cc)

left_alone_example :
    (contains 1 joining.subscribers ≡ false) × (contains 1 (todo_of joining.pump) ≡ false)
left_alone_example = left_alone 1 leaving_reached (refl, refl) joining-Without

subscriber_lost_example :
    (s t : Threads) × Reach s
    × (s.server ≡ outside)
    × (s.subscribers ≡ 1 ∷ [])
    × (s.running ≡ true)
    × (s.pump ≡ clearing)
    × Follows s
        (inl (Threads.calls_subscribe 2)
          ∷ inl (Threads.sub_locks 2)
          ∷ inl (Threads.sub_runs 2)
          ∷ inl (Threads.sub_pushes 2)
          ∷ inr Threads.pump_clears
          ∷ [])
        t
    × (t.server ≡ outside)
    × (t.subscribers ≡ 1 ∷ 2 ∷ [])
    × (t.running ≡ false)
    × (t.pump ≡ ended)
    × ((m : PumpMove) → ¬ PumpCan m t)
subscriber_lost_example = subscriber_lost 1 2

abbrev streamers : ℕ → Streamer
streamers id = make_streamer id 0

Reach-taken_example :
    ◌≡◌ {A = View}
      (view (run_ops streamers (subscribes 1 ∷ unsubscribes 1 ∷ []) (make_hub (pos 30))))
      (record { ids = []; on = false })
unfolding subscribe unsubscribe
Reach-taken_example = Reach-taken streamers (pos 30) joining_reached
