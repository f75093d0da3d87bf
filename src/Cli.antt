-- ===== src/Cli.antt =====
-- src/main.cpp: the options of the command line, and the start of the server.
use veda_rtsp.Base.{
  ℕ, ◌<◌, ◌%◌, ◌∙◌, ◌^◌, ◌≡◌, refl, if◌then◌else◌, none, some, List, [], ◌∷◌, Bytes, codes,
  bytes_eq, ℤ, pos, stoi, print_int, stoi-print_int, arith, Option, Bool, true, ◌≢◌, ◌⊎◌, ◌↔◌,
}
use veda_rtsp.Rtsp.Session.Transport.{port_of}
use veda_rtsp.Rtp.Streamer.{Streamer}
use veda_rtsp.Media.AnnexB.{Stream}
use veda_rtsp.Net.Tcp.{FdCall, Setup}
use veda_rtsp.Rtsp.Parser.{Headers}
use veda_rtsp.Rtsp.Server.Runs.{begin}
use veda_rtsp.Rtsp.Server.Loop.{Moment, Exit, not_started, run_loop, run}
use veda_rtsp.Rtsp.Server.Returns.{RoundsServed, stops, Left, Starts, run_returns}

pub record CliArgs : Type 0 where
  pub port : ℕ
  pub source : Bytes

abbrev default_args : CliArgs
default_args = record { port = 8554; source = codes "camera" }

-- std::atoi: 0 where there is no number. Out of the range of int it is undefined, and 0 here.
unfoldable atoi : Bytes → ℤ
atoi text = elim (stoi text) [ none ↦ pos 0 | some n ↦ n ]

-- `for (int i = 1; i < argc; ++i)`, on the arguments that are left. An option in the last place
-- has no value and is skipped like an unknown one.
unfoldable parse_loop : List Bytes → CliArgs → CliArgs
unfolding atoi port_of
parse_loop [] a = a
parse_loop (k ∷ []) a = a
parse_loop (k ∷ value ∷ rest) a =
    let as_port = parse_loop rest (record a { port = port_of (atoi value) }) in
    let as_source = parse_loop rest (record a { source = value }) in
    let skipped = parse_loop (value ∷ rest) a in
    if bytes_eq k (codes "--port")
    then as_port
    else if bytes_eq k (codes "--source")
    then as_source
    else skipped

-- The arguments behind the name of the program.
unfoldable pub parse_args : List Bytes → CliArgs
unfolding parse_loop
parse_args arguments = parse_loop arguments default_args

-- `main`, on what the system answers while the server runs and what `fopen` gives for the source's
-- path; the port is the number that the listener asks the system for.
unfoldable pub main :
    (ℕ → Streamer)
    → (Headers → Headers)
    → List Bytes
    → (ℕ → Setup)
    → Option ℕ
    → Bool
    → (Bytes → Option Stream)
    → List Moment
    → Option (List FdCall × Exit)
unfolding parse_args
main made scan arguments answers epoll registers opened moments =
    let args = parse_args arguments in
    run made scan (answers args.port) epoll registers args.source (opened args.source) moments

atoi-print_int : (n : ℕ) → n < 2 ^ 31 → atoi (print_int (pos n)) ≡ pos n
unfolding atoi
atoi-print_int n h = rw (stoi-print_int (pos n) h, atoi) refl

parse_loop_port :
    (value : Bytes) (rest : List Bytes) (a : CliArgs)
    → parse_loop (codes "--port" ∷ value ∷ rest) a
      ≡ parse_loop rest (record a { port = port_of (atoi value) })
unfolding parse_loop bytes_eq
parse_loop_port value rest a = refl

parse_loop_source :
    (value : Bytes) (rest : List Bytes) (a : CliArgs)
    → parse_loop (codes "--source" ∷ value ∷ rest) a ≡ parse_loop rest (record a { source = value })
unfolding parse_loop bytes_eq
parse_loop_source value rest a = refl

-- Both options with their values are read, for every port of 16 bits and every source.
parse_args_lem :
    (port : ℕ) (source : Bytes)
    → port < 2 ^ 16
    → parse_args (codes "--port" ∷ print_int (pos port) ∷ codes "--source" ∷ source ∷ [])
      ≡ record { port = port; source = source }
unfolding parse_args parse_loop port_of
parse_args_lem port source h =
    let kept : port % 2 ^ 16 ≡ port = omega arith in
    parse_loop_port (print_int (pos port)) (codes "--source" ∷ source ∷ []) default_args
    ∙ (parse_loop_source source []
          (record default_args { port = port_of (atoi (print_int (pos port))) })
        ∙ rw (atoi-print_int port (omega arith), kept) refl)

-- For a command line that gives a port of 16 bits and a source, when some round of the loop sees
-- that g_running is false or that epoll_wait fails, the program ends, by a return or by an
-- exception. It has gone past the start of `run` exactly when each call that makes the listener on
-- this port and epoll succeeds, and its end is then that of the loop which begins with this
-- source, as the system opens it. Behind a return no descriptor of the listener or of epoll is
-- open, and each was open when it was closed; when the loop has returned there is no client, and
-- the hub has no subscriber and no source that runs. Each event that is handled takes the hub's
-- answers to the session as the hub gives them.
pub main_returns :
    (made : ℕ → Streamer) (scan : Headers → Headers) (port : ℕ) (source : Bytes)
    (answers : ℕ → Setup) (epoll : Option ℕ) (registers : Bool) (opened : Bytes → Option Stream)
    (moments : List Moment)
    → port < 2 ^ 16
    → RoundsServed made scan moments (begin source (opened source))
    → stops moments ≡ true
    → (calls : List FdCall) × (e : Exit) × (main made scan
          (codes "--port" ∷ print_int (pos port) ∷ codes "--source" ∷ source ∷ [])
          answers
          epoll
          registers
          opened
          moments
        ≡ some (calls, e))
      × Left calls e
      × ((e ≡ not_started) ⊎ (run_loop made scan moments (begin source (opened source)) ≡ some e))
      × ((e ≢ not_started) ↔ Starts (answers port) epoll registers)
unfolding main
main_returns made scan port source answers epoll registers opened moments small served stops_once =
    rw (parse_args_lem port source small) (
      run_returns made scan source (opened source) moments (answers port) epoll registers served
        stops_once)
