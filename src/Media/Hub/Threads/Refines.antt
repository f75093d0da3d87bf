-- ===== src/Media/Hub/Threads/Refines.antt =====
-- src/media/hub.cpp: the two threads against the hub whose operations are not cut: `subscribe` takes effect where it sees
-- that the pump runs or starts it, `unsubscribe` where it erases the streamer.
use veda_rtsp.Base.{
  ℕ, ◌≡◌, ap, sym, ◌∙◌, refl, inl, inr, Bool, true, false, if◌then◌else◌, ◌==◌, some, List, [], ◌∷◌,
  ◌++◌, append-nil, map, ℤ, arith, Bool-cases,
}
use veda_rtsp.Rtp.Streamer.{Streamer}
use veda_rtsp.Media.Hub.{
  Subscriber, Hub, make_hub, subscribe, unsubscribe, without, nobody, pump_ends, destroy,
}
use veda_rtsp.Media.Hub.Threads
use veda_rtsp.Media.Hub.Threads.{
  Pump, Server, sub_spawn, sub_push, unsub_test, unsub_stop, Threads, start, leave, ServerMove,
  ServerCan, server_moves, PumpMove, PumpCan, pump_moves, Step, by_server_thread, by_pump_thread,
  Reach, here, next,
}
use veda_rtsp.Media.Hub.Threads.Safe.{IsSafe, Reach-IsSafe}

-- Who is subscribed, and whether the source runs.
pub record View : Type 0 where
  pub ids : List ℕ
  pub on : Bool

abbrev pub is_nil : List ℕ → Bool
is_nil [] = true
is_nil (x ∷ xs) = false

abbrev pub view : Hub → View
view h = record { ids = map (λ (m : Subscriber). m.id) h.subscribers; on = h.running }

-- A streamer that `subscribe` has taken and not pushed yet.
abbrev pending : Server → List ℕ
pending (sub_spawn id) = id ∷ []
pending (sub_push id) = id ∷ []
pending _ = []

-- Behind the erasure of the last one the source is as good as stopped.
abbrev still_on : Server → List ℕ → Bool → Bool
still_on unsub_test [] running = false
still_on unsub_stop ids running = false
still_on _ ids running = running

abbrev pub seen : Threads → View
seen s = record {
  ids = s.subscribers ++ pending s.server;
  on = still_on s.server s.subscribers s.running;
}

abbrev added : ℕ → View → View
added id v = record { ids = v.ids ++ id ∷ []; on = true }

abbrev removed : ℕ → View → View
removed id v = record { ids = leave id v.ids; on = if is_nil (leave id v.ids) then false else v.on }

-- The operations of the hub as a whole.
pub data Op : Type 0 where
  subscribes : ℕ → Op
  unsubscribes : ℕ → Op
  pump_stops : Op
  destroys : Op

-- Where an operation takes effect.
abbrev pub server_takes : ServerMove → List Op
server_takes (Threads.sub_runs id) = subscribes id ∷ []
server_takes (Threads.sub_starts id) = subscribes id ∷ []
server_takes (Threads.unsub_locks id) = unsubscribes id ∷ []
server_takes Threads.destroy_clears = destroys ∷ []
server_takes _ = []

abbrev pub pump_takes : PumpMove → List Op
pump_takes Threads.pump_clears = pump_stops ∷ []
pump_takes _ = []

-- The operations of a run, in the order in which they take effect.
abbrev pub taken : {s : Threads} → Reach s → List Op
taken here = []
taken (next r (by_server_thread m can)) = taken r ++ server_takes m
taken (next r (by_pump_thread m can)) = taken r ++ pump_takes m

-- On the hub whose operations are not cut; the source starts for a `subscribe` that succeeds.
abbrev pub run_op : (ℕ → Streamer) → Op → Hub → Hub
run_op streamer_of (subscribes id) h =
    (subscribe true (some (record { id = id; streamer = streamer_of id })) h).0
run_op streamer_of (unsubscribes id) h = unsubscribe id h
run_op streamer_of pump_stops h = pump_ends h
run_op streamer_of destroys h = destroy h

abbrev pub run_ops : (ℕ → Streamer) → List Op → Hub → Hub
run_ops streamer_of [] h = h
run_ops streamer_of (op ∷ ops) h = run_ops streamer_of ops (run_op streamer_of op h)

-- What they do to the view.
abbrev change : Op → View → View
change (subscribes id) v = added id v
change (unsubscribes id) v = removed id v
change pump_stops v = record v { on = false }
change destroys v = record v { on = false }

abbrev change_all : List Op → View → View
change_all [] v = v
change_all (op ∷ ops) v = change_all ops (change op v)

still_on_test :
    (ids : List ℕ) (running : Bool)
    → still_on unsub_test ids running ≡ (if is_nil ids then false else running)
still_on_test [] running = refl
still_on_test (x ∷ xs) running = refl

server_moves-seen :
    (m : ServerMove) (s : Threads)
    → ServerCan m s
    → IsSafe s
    → seen (server_moves m s) ≡ change_all (server_takes m) (seen s)
server_moves-seen (Threads.unsub_locks id) s h v = ground (
  arith,
  append-nil s.subscribers,
  append-nil (leave id s.subscribers),
  still_on_test (leave id s.subscribers) s.running,
)
server_moves-seen (Threads.sub_runs id) s h v = ground (arith, append-nil s.subscribers)
server_moves-seen (Threads.sub_starts id) s h v = ground (arith, append-nil s.subscribers)
server_moves-seen (Threads.sub_pushes id) s h v =
    ground (arith, append-nil (s.subscribers ++ id ∷ []))
server_moves-seen Threads.destroy_clears s h v = ground arith
server_moves-seen _ s h v = ground (arith, v.off)

pump_moves-seen :
    (m : PumpMove) (s : Threads)
    → PumpCan m s
    → seen (pump_moves m s) ≡ change_all (pump_takes m) (seen s)
pump_moves-seen Threads.pump_clears s h = ground arith
pump_moves-seen _ s h = ground arith

map-without :
    (id : ℕ) (ms : List Subscriber)
    → map (λ (m : Subscriber). m.id) (without id ms) ≡ leave id (map (λ (m : Subscriber). m.id) ms)
unfolding without
map-without id [] = refl
map-without id (m ∷ ms) = elim (Bool-cases (m.id == id)) [
  | inl same ↦ rw same (map-without id ms)
  | inr other ↦ rw other (ap (◌∷◌ m.id) (map-without id ms))
]

map-append_one :
    (ms : List Subscriber) (m : Subscriber)
    → map (λ (m : Subscriber). m.id) (ms ++ m ∷ []) ≡ map (λ (m : Subscriber). m.id) ms ++ m.id ∷ []
map-append_one [] m = refl
map-append_one (x ∷ ms) m = ap (◌∷◌ x.id) (map-append_one ms m)

nobody_lem : (ms : List Subscriber) → nobody ms ≡ is_nil (map (λ (m : Subscriber). m.id) ms)
nobody_lem [] = refl
nobody_lem (m ∷ ms) = refl

view-subscribe :
    (m : Subscriber) (h : Hub) → view (subscribe true (some m) h).0 ≡ added m.id (view h)
unfolding subscribe
view-subscribe m h = ground (arith, map-append_one h.subscribers m)

view-unsubscribe : (id : ℕ) (h : Hub) → view (unsubscribe id h) ≡ removed id (view h)
unfolding unsubscribe
view-unsubscribe id h =
    ground (arith, map-without id h.subscribers, nobody_lem (without id h.subscribers))

module _ (streamer_of : ℕ → Streamer) where
  view-run_op : (op : Op) (h : Hub) → view (run_op streamer_of op h) ≡ change op (view h)
  unfolding pump_ends destroy
  view-run_op (subscribes id) h = view-subscribe (record { id = id; streamer = streamer_of id }) h
  view-run_op (unsubscribes id) h = view-unsubscribe id h
  view-run_op pump_stops h = refl
  view-run_op destroys h = refl

  view-run_ops :
      (before ops : List Op) (h : Hub)
      → view (run_ops streamer_of (before ++ ops) h)
        ≡ change_all ops (view (run_ops streamer_of before h))
  view-run_ops (op ∷ before) ops h = view-run_ops before ops (run_op streamer_of op h)
  view-run_ops [] [] h = refl
  view-run_ops [] (op ∷ ops) h =
      view-run_ops [] ops (run_op streamer_of op h) ∙ ap (change_all ops) (view-run_op op h)

  -- The two threads implement the hub whose operations are not cut: in every state that they
  -- reach, who is subscribed and whether the source runs is what the hub has when its operations
  -- are done one after the other, a `subscribe` in the order in which it sees that the pump runs
  -- or starts it, an `unsubscribe` in that in which it erases the streamer, the pump's end and the
  -- destructor in that in which they write `running_`; a streamer counts as subscribed from then
  -- on, and the source as stopped from the erasure of the last one.
  pub Reach-taken :
      {s : Threads} (fps : ℤ) (r : Reach s)
      → view (run_ops streamer_of (taken r) (make_hub fps)) ≡ seen s
  unfolding make_hub
  Reach-taken fps here = refl
  Reach-taken fps (next r (by_server_thread m can)) =
      view-run_ops (taken r) (server_takes m) (make_hub fps)
      ∙ ap (change_all (server_takes m)) (Reach-taken fps r)
      ∙ sym (server_moves-seen m _ can (Reach-IsSafe r))
  Reach-taken fps (next r (by_pump_thread m can)) =
      view-run_ops (taken r) (pump_takes m) (make_hub fps)
      ∙ ap (change_all (pump_takes m)) (Reach-taken fps r)
      ∙ sym (pump_moves-seen m _ can)
