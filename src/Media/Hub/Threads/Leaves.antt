-- ===== src/Media/Hub/Threads/Leaves.antt =====
-- src/media/hub.cpp: which streamers the pump touches.
use veda_rtsp.Base.{
  ℕ, ◌≡◌, refl, Bool-cases, inl, inr, ==_iff, Bool, true, false, ◌==◌, ◌||◌, List, [], ◌∷◌, ◌++◌,
  All, arith,
}
use veda_rtsp.Media.Hub.Threads
use veda_rtsp.Media.Hub.Threads.{
  Pump, giving, absent, testing, reading, stopping, clearing, ended, waiting, Threads, start, leave,
  ServerMove, ServerCan, server_moves, PumpMove, PumpCan, pump_moves, Step, by_server_thread,
  by_pump_thread, Reach, here, next,
}
use veda_rtsp.Media.Hub.Threads.Safe.{IsSafe, Reach-IsSafe, pump_holds}

abbrev pub contains : ℕ → List ℕ → Bool
contains id [] = false
contains id (x ∷ xs) = x == id || contains id xs

abbrev pub todo_of : Pump → List ℕ
todo_of (giving todo n ok) = todo
todo_of _ = []

-- The move ends a `subscribe` of that streamer with success.
abbrev pub pushes : ℕ → ServerMove → Bool
pushes id (Threads.sub_pushes other) = other == id
pushes id _ = false

abbrev pub is_push : ℕ → {s t : Threads} → Step s t → Bool
is_push id (by_server_thread m can) = pushes id m
is_push id (by_pump_thread m can) = false

-- What the pump has still to send a NAL unit to is subscribed.
abbrev AllSubscribed : List ℕ → List ℕ → Type 0
AllSubscribed subscribers = All (λ id. contains id subscribers ≡ true)

contains-leave : (id : ℕ) (xs : List ℕ) → contains id (leave id xs) ≡ false
contains-leave id [] = refl
contains-leave id (x ∷ xs) = ground (arith, contains-leave id xs)

contains-leave_other :
    (id other : ℕ) (xs : List ℕ) → contains id xs ≡ false → contains id (leave other xs) ≡ false
contains-leave_other id other [] h = refl
contains-leave_other id other (x ∷ xs) h = ground (arith, contains-leave_other id other xs)

contains-append :
    (id other : ℕ) (xs : List ℕ) → contains id (xs ++ other ∷ []) ≡ (contains id xs || other == id)
contains-append id other [] = ground arith
contains-append id other (x ∷ xs) = ground (arith, contains-append id other xs)

All-cons : (x : ℕ) (xs todo : List ℕ) → AllSubscribed xs todo → AllSubscribed (x ∷ xs) todo
All-cons x xs [] v = tt
All-cons x xs (id ∷ todo) v = (ground arith, All-cons x xs todo v.1)

subscribers-AllSubscribed : (xs : List ℕ) → AllSubscribed xs xs
subscribers-AllSubscribed [] = tt
subscribers-AllSubscribed (x ∷ xs) = (ground arith, All-cons x xs xs (subscribers-AllSubscribed xs))

-- While the pump gives a NAL unit, the server's thread does not change who is subscribed.
server_moves-subscribers :
    (m : ServerMove) (s : Threads)
    → ServerCan m s
    → IsSafe s
    → pump_holds s.pump ≡ true
    → ((server_moves m s).subscribers ≡ s.subscribers) × ((server_moves m s).pump ≡ s.pump)
server_moves-subscribers (Threads.calls_subscribe id) s h v g = (refl, refl)
server_moves-subscribers _ s h v g =
    ground (arith, v.off, v.idle, v.up, v.spawning, v.joining, v.opening, v.over)

server_moves-pump_holds :
    (m : ServerMove) (s : Threads)
    → pump_holds s.pump ≡ false
    → pump_holds (server_moves m s).pump ≡ false
server_moves-pump_holds (Threads.sub_joins id) s h = refl
server_moves-pump_holds _ s h = ground arith

todo_of_idle : (xs : List ℕ) (p : Pump) → pump_holds p ≡ false → AllSubscribed xs (todo_of p)
todo_of_idle xs (giving todo n ok) h = cc
todo_of_idle xs _ h = tt

server_moves-AllSubscribed :
    (m : ServerMove) (s : Threads)
    → ServerCan m s
    → IsSafe s
    → AllSubscribed s.subscribers (todo_of s.pump)
    → AllSubscribed (server_moves m s).subscribers (todo_of (server_moves m s).pump)
server_moves-AllSubscribed m s h v a = elim (Bool-cases (pump_holds s.pump)) [
  | inl gives ↦
      let (subscribers, pump) = server_moves-subscribers m s h v gives in rw (subscribers, pump) a
  | inr idle ↦
      todo_of_idle (server_moves m s).subscribers (server_moves m s).pump
        (server_moves-pump_holds m s idle)
]

pump_moves-AllSubscribed :
    (m : PumpMove) (s : Threads)
    → PumpCan m s
    → AllSubscribed s.subscribers (todo_of s.pump)
    → AllSubscribed (pump_moves m s).subscribers (todo_of (pump_moves m s).pump)
pump_moves-AllSubscribed (Threads.pump_locks n ok) s h a = subscribers-AllSubscribed s.subscribers
pump_moves-AllSubscribed (Threads.pump_gives id todo n ok) s h a = (rw h at a).1
pump_moves-AllSubscribed _ s h a = tt

Reach-AllSubscribed : {s : Threads} → Reach s → AllSubscribed s.subscribers (todo_of s.pump)
Reach-AllSubscribed here = tt
Reach-AllSubscribed (next r (by_server_thread m can)) =
    server_moves-AllSubscribed m _ can (Reach-IsSafe r) (Reach-AllSubscribed r)
Reach-AllSubscribed (next r (by_pump_thread m can)) =
    pump_moves-AllSubscribed m _ can (Reach-AllSubscribed r)

-- A run in which the streamer `id` is not subscribed (again).
pub data Without (id : ℕ) (s : Threads) : Threads → Type 0 where
  stays : Without id s s
  goes : {t u : Threads} → Without id s t → (st : Step t u) → is_push id st ≡ false → Without id s u

server_moves_without :
    (id : ℕ) (m : ServerMove) (s : Threads)
    → pushes id m ≡ false
    → contains id s.subscribers ≡ false
    → contains id (server_moves m s).subscribers ≡ false
server_moves_without id (Threads.sub_pushes other) s h out =
    rw (contains-append id other s.subscribers, out) h
server_moves_without id (Threads.unsub_locks other) s h out =
    contains-leave_other id other s.subscribers out
server_moves_without id _ s h out = out

pump_moves_without :
    (id : ℕ) (m : PumpMove) (s : Threads)
    → contains id s.subscribers ≡ false
    → contains id (pump_moves m s).subscribers ≡ false
pump_moves_without id Threads.pump_goes_on s out = out
pump_moves_without id _ s out = out

not_in_todo :
    (id : ℕ) (xs todo : List ℕ)
    → contains id xs ≡ false
    → AllSubscribed xs todo
    → contains id todo ≡ false
not_in_todo id xs [] out a = refl
not_in_todo id xs (x ∷ todo) out a = elim (Bool-cases (x == id)) [
  | inl same ↦ let e : x ≡ id = (==_iff x id).0 same in absurd (ground (arith, rw e at a.0))
  | inr other ↦ rw other (not_in_todo id xs todo out a.1)
]

Without-Reach : {id : ℕ} {s t : Threads} → Without id s t → Reach s → Reach t
Without-Reach stays r = r
Without-Reach (goes w st h) r = next (Without-Reach w r) st

Without-contains :
    {id : ℕ} {s t : Threads}
    → Without id s t
    → contains id s.subscribers ≡ false
    → contains id t.subscribers ≡ false
Without-contains stays out = out
Without-contains {id} (goes w (by_server_thread m can) h) out =
    server_moves_without id m _ h (Without-contains w out)
Without-contains {id} (goes w (by_pump_thread m can) h) out =
    pump_moves_without id m _ (Without-contains w out)

-- In every interleaving of the server's thread and the pump thread, one access at a time: from the
-- moment that `unsubscribe` has taken a streamer out under the lock, the pump does not have it
-- among the subscribers nor among those that it still has to send a NAL unit to, until a
-- `subscribe` of it succeeds.
pub left_alone :
    {s t : Threads} (id : ℕ)
    → Reach s
    → ServerCan (Threads.unsub_locks id) s
    → Without id (server_moves (Threads.unsub_locks id) s) t
    → (contains id t.subscribers ≡ false) × (contains id (todo_of t.pump) ≡ false)
left_alone {s} {t} id r can w =
    let out = Without-contains w (contains-leave id s.subscribers) in
    let r' : Reach (server_moves (Threads.unsub_locks id) s) =
      next r (by_server_thread (Threads.unsub_locks id) can) in
    (
      out,
      not_in_todo id t.subscribers (todo_of t.pump) out (Reach-AllSubscribed (Without-Reach w r')),
    )
