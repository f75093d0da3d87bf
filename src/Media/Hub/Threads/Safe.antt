-- ===== src/Media/Hub/Threads/Safe.antt =====
-- src/media/hub.cpp: the lock, the flag and the thread object in the states of the two threads.
use veda_rtsp.Base.{◌≡◌, ◌≢◌, ◌⊎◌, Bool, true, false, arith}
use veda_rtsp.Media.Hub.Threads.{
  Lock, by_server, by_pump, Pump, absent, ended, giving, Server, sub_test, sub_join, sub_open,
  sub_spawn, sub_push, unsub_test, unsub_stop, unsub_join, destroy_join, gone, Threads, start,
  ServerMove, calls_subscribe, ServerCan, server_moves, PumpMove, pump_goes_on, PumpCan, pump_moves,
  by_server_thread, by_pump_thread, Reach, here, next,
}

abbrev pub server_holds : Server → Bool
server_holds (sub_test id) = true
server_holds (sub_join id) = true
server_holds (sub_open id) = true
server_holds (sub_spawn id) = true
server_holds (sub_push id) = true
server_holds unsub_test = true
server_holds unsub_stop = true
server_holds _ = false

abbrev pub pump_holds : Pump → Bool
pump_holds (giving todo n ok) = true
pump_holds _ = false

abbrev pub is_server : Lock → Bool
is_server by_server = true
is_server _ = false

abbrev pub is_pump : Lock → Bool
is_pump by_pump = true
is_pump _ = false

-- The thread has not returned.
abbrev pub is_alive : Pump → Bool
is_alive absent = false
is_alive ended = false
is_alive _ = true

-- The server's thread has told the pump to stop.
abbrev has_stopped : Server → Bool
has_stopped unsub_join = true
has_stopped destroy_join = true
has_stopped gone = true
has_stopped _ = false

-- No thread is in the thread object, and `running_` is false or has just been set.
abbrev is_opening : Server → Bool
is_opening (sub_open id) = true
is_opening (sub_spawn id) = true
is_opening _ = false

abbrev is_spawning : Server → Bool
is_spawning (sub_spawn id) = true
is_spawning _ = false

abbrev is_joining : Server → Bool
is_joining (sub_join id) = true
is_joining _ = false

-- `running_` is false there.
abbrev is_off : Server → Bool
is_off (sub_join id) = true
is_off (sub_open id) = true
is_off unsub_join = true
is_off destroy_join = true
is_off gone = true
is_off _ = false

pub record IsSafe (s : Threads) : Type 0 where
  pub server_lock : server_holds s.server ≡ is_server s.lock
  pub pump_lock : pump_holds s.pump ≡ is_pump s.lock
  pub off : is_off s.server ≡ true → s.running ≡ false
  pub idle : s.running ≡ false → (is_alive s.pump ≡ false) ⊎ (has_stopped s.server ≡ true)
  pub up : s.running ≡ true → (is_alive s.pump ≡ true) ⊎ (is_spawning s.server ≡ true)
  pub spawning : is_spawning s.server ≡ true → s.running ≡ true
  pub joining : is_joining s.server ≡ true → s.pump ≢ absent
  pub opening : is_opening s.server ≡ true → s.pump ≡ absent
  pub over : s.server ≡ gone → s.pump ≡ absent

pub server_moves-IsSafe :
    (m : ServerMove) (s : Threads) → ServerCan m s → IsSafe s → IsSafe (server_moves m s)
server_moves-IsSafe (calls_subscribe id) s h v =
    ground (arith, v.off, v.idle, v.up, v.spawning, v.joining, v.opening, v.over)
server_moves-IsSafe _ s h v =
    ground (arith, v.off, v.idle, v.up, v.spawning, v.joining, v.opening, v.over)

pub pump_moves-IsSafe :
    (m : PumpMove) (s : Threads) → PumpCan m s → IsSafe s → IsSafe (pump_moves m s)
pump_moves-IsSafe pump_goes_on s h v =
    ground (arith, v.off, v.idle, v.up, v.spawning, v.joining, v.opening, v.over)
pump_moves-IsSafe _ s h v =
    ground (arith, v.off, v.idle, v.up, v.spawning, v.joining, v.opening, v.over)

start-IsSafe : IsSafe start
start-IsSafe = ground arith

pub Reach-IsSafe : {s : Threads} → Reach s → IsSafe s
Reach-IsSafe here = start-IsSafe
Reach-IsSafe (next r (by_server_thread m can)) = server_moves-IsSafe m _ can (Reach-IsSafe r)
Reach-IsSafe (next r (by_pump_thread m can)) = pump_moves-IsSafe m _ can (Reach-IsSafe r)
