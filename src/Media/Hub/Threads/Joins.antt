-- ===== src/Media/Hub/Threads/Joins.antt =====
-- src/media/hub.cpp: the joins of the pump thread in `subscribe`, `unsubscribe` and the destructor.
use veda_rtsp.Base.{ℕ, zero, suc, ◌≡◌, ◌≢◌, refl, Bool, true, false, List, [], ◌∷◌, arith}
use veda_rtsp.Media.Hub.Threads
use veda_rtsp.Media.Hub.Threads.{
  Lock, free, Pump, absent, testing, reading, stopping, clearing, ended, waiting, giving, Server,
  sub_join, unsub_join, destroy_join, Threads, PumpMove, PumpCan, pump_moves, Reach,
}
use veda_rtsp.Media.Hub.Threads.Safe.{IsSafe, Reach-IsSafe, is_alive, pump_holds}
use veda_rtsp.Media.Hub.Threads.Progress.{lock_free}

-- The server's thread is in a join of the pump: in `subscribe`, in `unsubscribe`, or in the destructor.
abbrev pub waits_for_pump : Server → Bool
waits_for_pump (sub_join id) = true
waits_for_pump unsub_join = true
waits_for_pump destroy_join = true
waits_for_pump _ = false

-- Whatever the pump does, it comes to its end: it has returned, or it can go on and does so from
-- wherever it goes.
pub data Returns : Threads → Type 0 where
  back : {s : Threads} → s.pump ≡ ended → Returns s
  later :
      {s : Threads} (m : PumpMove)
      → PumpCan m s
      → ((k : PumpMove) → PumpCan k s → Returns (pump_moves k s))
      → Returns s

clearing-Returns : (s : Threads) → s.pump ≡ clearing → Returns s
clearing-Returns s e = later Threads.pump_clears e only
  where
    only : (k : PumpMove) → PumpCan k s → Returns (pump_moves k s)
    only Threads.pump_clears can = back refl
    only _ can = absurd (ground arith)

stopping-Returns : (s : Threads) → s.pump ≡ stopping → Returns s
stopping-Returns s e = later Threads.pump_stops e only
  where
    only : (k : PumpMove) → PumpCan k s → Returns (pump_moves k s)
    only Threads.pump_stops can = clearing-Returns _ refl
    only _ can = absurd (ground arith)

testing-Returns : (s : Threads) → s.running ≡ false → s.pump ≡ testing → Returns s
testing-Returns s off e = later Threads.pump_leaves (e, off) only
  where
    only : (k : PumpMove) → PumpCan k s → Returns (pump_moves k s)
    only Threads.pump_leaves can = stopping-Returns _ refl
    only _ can = absurd (ground arith)

-- The lock is free and the pump has been told to stop, with some NAL units left to give.
Left : ℕ → Bool → Threads → Type 0
Left n ok s = (s.pump ≡ waiting n ok) × (s.lock ≡ free) × (s.running ≡ false)

giving-Returns :
    (todo : List ℕ) (n : ℕ) (ok : Bool) (s : Threads)
    → s.pump ≡ giving todo n ok
    → s.running ≡ false
    → ((l : Threads) → Left n ok l → Returns l)
    → Returns s
unfolding Left
giving-Returns [] n ok s e off after = later (Threads.pump_unlocks n ok) e only
  where
    only : (k : PumpMove) → PumpCan k s → Returns (pump_moves k s)
    only (Threads.pump_unlocks n' ok') can = after _ (ground arith)
    only _ can = absurd (ground arith)
giving-Returns (id ∷ todo) n ok s e off after =
    later (Threads.pump_gives id todo n ok) e
      (only (λ l at off'. giving-Returns todo n ok l at off' after))
  where
    only :
        ((l : Threads) → l.pump ≡ giving todo n ok → l.running ≡ false → Returns l)
        → (k : PumpMove) → PumpCan k s
        → Returns (pump_moves k s)
    only rest (Threads.pump_gives id' todo' n' ok') can = rest _ (ground arith) off
    only rest _ can = absurd (ground arith)

waiting-Returns : (n : ℕ) (ok : Bool) (s : Threads) → Left n ok s → Returns s
unfolding Left
waiting-Returns zero true s (e, lock, off) = later Threads.pump_returns e only
  where
    only : (k : PumpMove) → PumpCan k s → Returns (pump_moves k s)
    only Threads.pump_returns can = testing-Returns _ off refl
    only _ can = absurd (ground arith)
waiting-Returns zero false s (e, lock, off) = later Threads.pump_fails e only
  where
    only : (k : PumpMove) → PumpCan k s → Returns (pump_moves k s)
    only Threads.pump_fails can = stopping-Returns _ refl
    only _ can = absurd (ground arith)
waiting-Returns (suc n) ok s (e, lock, off) =
    later (Threads.pump_locks n ok) (e, lock) (only (waiting-Returns n ok))
  where
    only :
        ((l : Threads) → Left n ok l → Returns l)
        → (k : PumpMove) → PumpCan k s
        → Returns (pump_moves k s)
    only rest (Threads.pump_locks n' ok') can =
        giving-Returns s.subscribers n ok _ (ground arith) off rest
    only rest _ can = absurd (ground arith)

reading-Returns : (s : Threads) → s.pump ≡ reading → s.lock ≡ free → s.running ≡ false → Returns s
unfolding Left
reading-Returns s e lock off = later (Threads.pump_reads 0 true) e only
  where
    only : (k : PumpMove) → PumpCan k s → Returns (pump_moves k s)
    only (Threads.pump_reads n ok) can = waiting-Returns n ok _ (refl, lock, off)
    only _ can = absurd (ground arith)

-- Whenever the server's thread joins the pump, in `subscribe`, `unsubscribe` or the destructor,
-- and there is a thread to join, the pump has returned, or it can go on and returns within
-- finitely many of its moves whichever it makes: it gives what it has read, which wants the lock,
-- and sees `running_`; a read of the source is taken to return.
pub join_returns :
    {s : Threads} → Reach s → waits_for_pump s.server ≡ true → s.pump ≢ absent → Returns s
unfolding Left
join_returns {s} r h there = at s.pump refl
  where
    v : IsSafe s
    v = Reach-IsSafe r

    off : s.running ≡ false
    off = ground (arith, v.off)

    lock : is_alive s.pump ≡ true → pump_holds s.pump ≡ false → s.lock ≡ free
    lock alive idle =
        lock_free s.lock (ground (arith, v.server_lock, v.idle, off)) (ground (arith, v.pump_lock))

    at : (p : Pump) → s.pump ≡ p → Returns s
    at absent e = absurd (there e)
    at ended e = back e
    at testing e = testing-Returns s off e
    at reading e = reading-Returns s e (lock (rw e refl) (rw e refl)) off
    at stopping e = stopping-Returns s e
    at clearing e = clearing-Returns s e
    at (waiting n ok) e = waiting-Returns n ok s (e, lock (rw e refl) (rw e refl), off)
    at (giving todo n ok) e = giving-Returns todo n ok s e off (waiting-Returns n ok)
