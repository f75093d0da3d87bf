-- ===== src/Media/Hub/Threads.antt =====
-- src/media/hub.cpp: the thread of the server and the pump thread, one access to what they share at
-- a time. Of the hub it keeps who is subscribed, `running_`, the mutex and the pump's thread object.
pub mod Safe
pub mod Progress
pub mod Joins
pub mod Leaves
pub mod Lost
pub mod Refines
use veda_rtsp.Base.{
  ℕ, zero, suc, ◌≡◌, ◌≢◌, Bool, true, false, List, [], ◌∷◌, ◌++◌, ◌==◌, if◌then◌else◌,
}

-- `mu_`
pub data Lock : Type 0 where
  free by_server by_pump : Lock

-- Where the pump thread stands in `pump` and in `on_nal`. `waiting n ok` has `n` NAL units of a read
-- to give, that will return `ok`; `giving todo n ok` has the streamers `todo` to send one of them to.
-- `absent` is a thread object with no thread, `ended` a thread that has returned.
pub data Pump : Type 0 where
  absent testing reading stopping clearing ended : Pump
  waiting : ℕ → Bool → Pump
  giving : List ℕ → ℕ → Bool → Pump

-- Where the server's thread stands in `subscribe`, `unsubscribe` and the destructor.
pub data Server : Type 0 where
  outside : Server
  sub_lock sub_test sub_join sub_open sub_spawn sub_push : ℕ → Server
  unsub_lock : ℕ → Server
  unsub_test unsub_stop unsub_join : Server
  destroy_clear destroy_join gone : Server

pub record Threads : Type 0 where
  pub subscribers : List ℕ
  pub running : Bool
  pub lock : Lock
  pub pump : Pump
  pub server : Server

abbrev pub start : Threads
start = record { subscribers = []; running = false; lock = free; pump = absent; server = outside }

-- `std::remove` and `erase`
abbrev pub leave : ℕ → List ℕ → List ℕ
leave id [] = []
leave id (x ∷ xs) = if x == id then leave id xs else x ∷ leave id xs

-- What the server's thread does next in `subscribe`, `unsubscribe` and the destructor.
pub data ServerMove : Type 0 where
  calls_subscribe : ℕ → ServerMove
  sub_locks : ℕ → ServerMove
  sub_runs : ℕ → ServerMove
  sub_joinable : ℕ → ServerMove
  sub_not_joinable : ℕ → ServerMove
  sub_joins : ℕ → ServerMove
  sub_fails : ℕ → ServerMove
  sub_starts : ℕ → ServerMove
  sub_spawns : ℕ → ServerMove
  sub_pushes : ℕ → ServerMove
  calls_unsubscribe : ℕ → ServerMove
  unsub_locks : ℕ → ServerMove
  unsub_stays : ServerMove
  unsub_idle : ServerMove
  unsub_last : ServerMove
  unsub_stops : ServerMove
  unsub_joins : ServerMove
  unsub_no_thread : ServerMove
  calls_destroy : ServerMove
  destroy_clears : ServerMove
  destroy_joins : ServerMove
  destroy_no_thread : ServerMove

-- When it does it.
abbrev pub ServerCan : ServerMove → Threads → Type 0
ServerCan (calls_subscribe id) s = s.server ≡ outside
ServerCan (sub_locks id) s = (s.server ≡ sub_lock id) × (s.lock ≡ free)
ServerCan (sub_runs id) s = (s.server ≡ sub_test id) × (s.running ≡ true)
ServerCan (sub_joinable id) s = (s.server ≡ sub_test id) × (s.running ≡ false) × (s.pump ≢ absent)
ServerCan (sub_not_joinable id) s =
    (s.server ≡ sub_test id) × (s.running ≡ false) × (s.pump ≡ absent)
ServerCan (sub_joins id) s = (s.server ≡ sub_join id) × (s.pump ≡ ended)
ServerCan (sub_fails id) s = s.server ≡ sub_open id
ServerCan (sub_starts id) s = s.server ≡ sub_open id
ServerCan (sub_spawns id) s = s.server ≡ sub_spawn id
ServerCan (sub_pushes id) s = s.server ≡ sub_push id
ServerCan (calls_unsubscribe id) s = s.server ≡ outside
ServerCan (unsub_locks id) s = (s.server ≡ unsub_lock id) × (s.lock ≡ free)
ServerCan unsub_stays s = (s.server ≡ unsub_test) × (s.subscribers ≢ [])
ServerCan unsub_idle s = (s.server ≡ unsub_test) × (s.running ≡ false)
ServerCan unsub_last s = (s.server ≡ unsub_test) × (s.subscribers ≡ []) × (s.running ≡ true)
ServerCan unsub_stops s = s.server ≡ unsub_stop
ServerCan unsub_joins s = (s.server ≡ unsub_join) × (s.pump ≡ ended)
ServerCan unsub_no_thread s = (s.server ≡ unsub_join) × (s.pump ≡ absent)
ServerCan calls_destroy s = s.server ≡ outside
ServerCan destroy_clears s = s.server ≡ destroy_clear
ServerCan destroy_joins s = (s.server ≡ destroy_join) × (s.pump ≡ ended)
ServerCan destroy_no_thread s = (s.server ≡ destroy_join) × (s.pump ≡ absent)

-- What it changes.
abbrev pub server_moves : ServerMove → Threads → Threads
server_moves (calls_subscribe id) s = record s { server = sub_lock id }
server_moves (sub_locks id) s = record s { lock = by_server; server = sub_test id }
server_moves (sub_runs id) s = record s { server = sub_push id }
server_moves (sub_joinable id) s = record s { server = sub_join id }
server_moves (sub_not_joinable id) s = record s { server = sub_open id }
server_moves (sub_joins id) s = record s { pump = absent; server = sub_open id }
server_moves (sub_fails id) s = record s { lock = free; server = outside }
server_moves (sub_starts id) s = record s { running = true; server = sub_spawn id }
server_moves (sub_spawns id) s = record s { pump = testing; server = sub_push id }
server_moves (sub_pushes id) s = record s {
  subscribers = s.subscribers ++ id ∷ [];
  lock = free;
  server = outside;
}
server_moves (calls_unsubscribe id) s = record s { server = unsub_lock id }
server_moves (unsub_locks id) s = record s {
  subscribers = leave id s.subscribers;
  lock = by_server;
  server = unsub_test;
}
server_moves unsub_stays s = record s { lock = free; server = outside }
server_moves unsub_idle s = record s { lock = free; server = outside }
server_moves unsub_last s = record s { server = unsub_stop }
server_moves unsub_stops s = record s { running = false; lock = free; server = unsub_join }
server_moves unsub_joins s = record s { pump = absent; server = outside }
server_moves unsub_no_thread s = record s { server = outside }
server_moves calls_destroy s = record s { server = destroy_clear }
server_moves destroy_clears s = record s { running = false; server = destroy_join }
server_moves destroy_joins s = record s { pump = absent; server = gone }
server_moves destroy_no_thread s = record s { server = gone }

-- What the pump thread does next. How many NAL units a read gives, and what it returns, is open.
pub data PumpMove : Type 0 where
  pump_goes_on : PumpMove
  pump_leaves : PumpMove
  pump_reads : ℕ → Bool → PumpMove
  pump_locks : ℕ → Bool → PumpMove
  pump_gives : ℕ → List ℕ → ℕ → Bool → PumpMove
  pump_unlocks : ℕ → Bool → PumpMove
  pump_returns : PumpMove
  pump_fails : PumpMove
  pump_stops : PumpMove
  pump_clears : PumpMove

abbrev pub PumpCan : PumpMove → Threads → Type 0
PumpCan pump_goes_on s = (s.pump ≡ testing) × (s.running ≡ true)
PumpCan pump_leaves s = (s.pump ≡ testing) × (s.running ≡ false)
PumpCan (pump_reads n ok) s = s.pump ≡ reading
PumpCan (pump_locks n ok) s = (s.pump ≡ waiting (suc n) ok) × (s.lock ≡ free)
PumpCan (pump_gives id todo n ok) s = s.pump ≡ giving (id ∷ todo) n ok
PumpCan (pump_unlocks n ok) s = s.pump ≡ giving [] n ok
PumpCan pump_returns s = s.pump ≡ waiting zero true
PumpCan pump_fails s = s.pump ≡ waiting zero false
PumpCan pump_stops s = s.pump ≡ stopping
PumpCan pump_clears s = s.pump ≡ clearing

abbrev pub pump_moves : PumpMove → Threads → Threads
pump_moves pump_goes_on s = record s { pump = reading }
pump_moves pump_leaves s = record s { pump = stopping }
pump_moves (pump_reads n ok) s = record s { pump = waiting n ok }
pump_moves (pump_locks n ok) s = record s { lock = by_pump; pump = giving s.subscribers n ok }
pump_moves (pump_gives id todo n ok) s = record s { pump = giving todo n ok }
pump_moves (pump_unlocks n ok) s = record s { lock = free; pump = waiting n ok }
pump_moves pump_returns s = record s { pump = testing }
pump_moves pump_fails s = record s { pump = stopping }
pump_moves pump_stops s = record s { pump = clearing }
pump_moves pump_clears s = record s { running = false; pump = ended }

pub data Step (s : Threads) : Threads → Type 0 where
  by_server_thread : (m : ServerMove) → ServerCan m s → Step s (server_moves m s)
  by_pump_thread : (m : PumpMove) → PumpCan m s → Step s (pump_moves m s)

pub data Reach : Threads → Type 0 where
  here : Reach start
  next : {s t : Threads} → Reach s → Step s t → Reach t
