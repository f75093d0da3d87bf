-- ===== src/Media/Hub/Threads/Progress.antt =====
-- src/media/hub.cpp: which of the two threads has a move.
use veda_rtsp.Base.{
  ℕ, zero, suc, ◌≡◌, ◌≢◌, ◌⊎◌, inl, inr, refl, Bool, true, false, Bool-cases, List, [], ◌∷◌, arith,
}
use veda_rtsp.Media.Hub.Threads
use veda_rtsp.Media.Hub.Threads.{
  Lock, free, by_server, by_pump, Pump, absent, testing, reading, stopping, clearing, ended,
  waiting, giving, Server, outside, sub_lock, sub_test, sub_join, sub_open, sub_spawn, sub_push,
  unsub_lock, unsub_test, unsub_stop, unsub_join, destroy_clear, destroy_join, gone, Threads,
  ServerMove, ServerCan, PumpMove, PumpCan, pump_moves, Reach,
}
use veda_rtsp.Media.Hub.Threads.Safe.{
  IsSafe, Reach-IsSafe, is_alive, server_holds, is_server, is_pump,
}

-- A pump that gives a NAL unit can go on.
abbrev giver : List ℕ → ℕ → Bool → PumpMove
giver [] n ok = Threads.pump_unlocks n ok
giver (id ∷ todo) n ok = Threads.pump_gives id todo n ok

giver_can :
    (todo : List ℕ) (n : ℕ) (ok : Bool) (s : Threads)
    → s.pump ≡ giving todo n ok
    → PumpCan (giver todo n ok) s
giver_can [] n ok s e = e
giver_can (id ∷ todo) n ok s e = e

pub lock_free : (l : Lock) → is_server l ≡ false → is_pump l ≡ false → l ≡ free
lock_free free h k = refl
lock_free by_server h k = cc
lock_free by_pump h k = cc

-- A pump that has not returned goes on, unless it waits for the server to let the lock go.
pump_goes :
    (s : Threads)
    → IsSafe s
    → server_holds s.server ≡ false
    → is_alive s.pump ≡ true
    → (m : PumpMove) × PumpCan m s
pump_goes s v h alive = at s.pump refl
  where
    at : (p : Pump) → s.pump ≡ p → (m : PumpMove) × PumpCan m s
    at absent e = absurd (ground arith)
    at ended e = absurd (ground arith)
    at testing e = elim (Bool-cases s.running) [
      | inl on ↦ (Threads.pump_goes_on, (e, on))
      | inr off ↦ (Threads.pump_leaves, (e, off))
    ]
    at reading e = (Threads.pump_reads 0 true, e)
    at stopping e = (Threads.pump_stops, e)
    at clearing e = (Threads.pump_clears, e)
    at (waiting zero true) e = (Threads.pump_returns, e)
    at (waiting zero false) e = (Threads.pump_fails, e)
    at (waiting (suc n) ok) e = (
      Threads.pump_locks n ok,
      (e, lock_free s.lock (ground (arith, v.server_lock)) (ground (arith, v.pump_lock))),
    )
    at (giving todo n ok) e = (giver todo n ok, giver_can todo n ok s e)

-- The lock is free, or the pump has it and goes on.
lock_or_pump :
    (s : Threads)
    → IsSafe s
    → server_holds s.server ≡ false
    → (s.lock ≡ free) ⊎ ((m : PumpMove) × PumpCan m s)
lock_or_pump s v h = at s.lock refl
  where
    at : (l : Lock) → s.lock ≡ l → (s.lock ≡ free) ⊎ ((m : PumpMove) × PumpCan m s)
    at free e = inl e
    at by_server e = absurd (ground (arith, v.server_lock))
    at by_pump e = inr (pump_goes s v h (ground (arith, v.pump_lock)))

-- The pump has returned, or its thread object is empty, or it goes on.
join_or_pump :
    (s : Threads)
    → IsSafe s
    → server_holds s.server ≡ false
    → (s.pump ≡ ended) ⊎ ((s.pump ≡ absent) ⊎ ((m : PumpMove) × PumpCan m s))
join_or_pump s v h = elim (Bool-cases (is_alive s.pump)) [
  | inl alive ↦ inr (inr (pump_goes s v h alive))
  | inr over ↦ at s.pump refl over
]
  where
    at :
        (p : Pump)
        → s.pump ≡ p
        → is_alive p ≡ false
        → (s.pump ≡ ended) ⊎ ((s.pump ≡ absent) ⊎ ((m : PumpMove) × PumpCan m s))
    at ended e o = inl e
    at absent e o = inr (inl e)
    at _ e o = cc

absent_cases : (p : Pump) → (p ≡ absent) ⊎ (p ≢ absent)
absent_cases absent = inl refl
absent_cases _ = inr (λ e. cc)

nil_cases : (ids : List ℕ) → (ids ≡ []) ⊎ (ids ≢ [])
nil_cases [] = inl refl
nil_cases (id ∷ ids) = inr (λ e. cc)

ended_lem : (p : Pump) → is_alive p ≡ false → p ≢ absent → p ≡ ended
ended_lem ended h k = refl
ended_lem absent h k = absurd (k refl)
ended_lem _ h k = cc

never_stuck :
    (s : Threads)
    → IsSafe s
    → s.server ≢ outside
    → s.server ≢ gone
    → ((m : ServerMove) × ServerCan m s) ⊎ ((m : PumpMove) × PumpCan m s)
never_stuck s v inside not_gone = at s.server refl
  where
    at :
        (p : Server)
        → s.server ≡ p
        → ((m : ServerMove) × ServerCan m s) ⊎ ((m : PumpMove) × PumpCan m s)
    at outside e = absurd (inside e)
    at gone e = absurd (not_gone e)
    at (sub_lock id) e = elim (lock_or_pump s v (rw e refl)) [
      | inl open_lock ↦ inl (Threads.sub_locks id, (e, open_lock))
      | inr goes ↦ inr goes
    ]
    at (unsub_lock id) e = elim (lock_or_pump s v (rw e refl)) [
      | inl open_lock ↦ inl (Threads.unsub_locks id, (e, open_lock))
      | inr goes ↦ inr goes
    ]
    at (sub_test id) e = elim (Bool-cases s.running) [
      | inl on ↦ inl (Threads.sub_runs id, (e, on))
      | inr off ↦ elim (absent_cases s.pump) [
        | inl no_thread ↦ inl (Threads.sub_not_joinable id, (e, off, no_thread))
        | inr thread ↦ inl (Threads.sub_joinable id, (e, off, thread))
      ]
    ]
    at (sub_join id) e = inl (
      Threads.sub_joins id,
      (e, ended_lem s.pump (ground (arith, v.off, v.idle)) (v.joining (rw e refl))),
    )
    at (sub_open id) e = inl (Threads.sub_starts id, e)
    at (sub_spawn id) e = inl (Threads.sub_spawns id, e)
    at (sub_push id) e = inl (Threads.sub_pushes id, e)
    at unsub_test e = elim (nil_cases s.subscribers) [
      | inr some_left ↦ inl (Threads.unsub_stays, (e, some_left))
      | inl none_left ↦ elim (Bool-cases s.running) [
        | inl on ↦ inl (Threads.unsub_last, (e, none_left, on))
        | inr off ↦ inl (Threads.unsub_idle, (e, off))
      ]
    ]
    at unsub_stop e = inl (Threads.unsub_stops, e)
    at unsub_join e = elim (join_or_pump s v (rw e refl)) [
      | inl back ↦ inl (Threads.unsub_joins, (e, back))
      | inr (inl none_there) ↦ inl (Threads.unsub_no_thread, (e, none_there))
      | inr (inr goes) ↦ inr goes
    ]
    at destroy_clear e = inl (Threads.destroy_clears, e)
    at destroy_join e = elim (join_or_pump s v (rw e refl)) [
      | inl back ↦ inl (Threads.destroy_joins, (e, back))
      | inr (inl none_there) ↦ inl (Threads.destroy_no_thread, (e, none_there))
      | inr (inr goes) ↦ inr goes
    ]

-- The hub and its pump do not deadlock: in every state that the two threads reach, while the
-- server's thread is in `subscribe`, `unsubscribe` or the destructor, it or the pump has a move.
pub hub_call_goes_on :
    {s : Threads}
    → Reach s
    → s.server ≢ outside
    → s.server ≢ gone
    → ((m : ServerMove) × ServerCan m s) ⊎ ((m : PumpMove) × PumpCan m s)
hub_call_goes_on {s} r inside not_gone = never_stuck s (Reach-IsSafe r) inside not_gone
