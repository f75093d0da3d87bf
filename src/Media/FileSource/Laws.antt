-- ===== src/Media/FileSource/Laws.antt =====
-- src/media/file_source.cpp: a file source against the laws of NalSource.
use veda_rtsp.Base.{ℕ, ◌≡◌, [], Bool, true, false, Option, none, some, arith}
use veda_rtsp.Media.AnnexB.{Stream}
use veda_rtsp.Media.NalSource.{NalSource}
use veda_rtsp.Media.FileSource.{FileSource, start, stop, read_nal}

abbrev is_open : Option Stream → Bool
is_open none = false
is_open (some file) = true

pub start_again_lem :
    (file : Option Stream) (now : ℕ) (s : FileSource)
    → is_open s.file ≡ true
    → start file now s ≡ (s, true)
unfolding start
start_again_lem file now s h = ground arith

pub start_fails_lem :
    (now : ℕ) (s : FileSource) → is_open s.file ≡ false → start none now s ≡ (s, false)
unfolding start
start_fails_lem now s h = ground arith

pub start_opens_lem :
    (file : Stream) (now : ℕ) (s : FileSource)
    → is_open s.file ≡ false
    → (is_open (start (some file) now s).0.file ≡ true) × ((start (some file) now s).1 ≡ true)
unfolding start
start_opens_lem file now s h = ground arith

pub stop_closes_lem : (s : FileSource) → is_open (stop s).file ≡ false
unfolding stop
stop_closes_lem s = ground arith

pub stop-stop_lem : (s : FileSource) → stop (stop s) ≡ stop s
unfolding stop
stop-stop_lem s = ground arith

pub read_closed_lem :
    (front : Stream) (s : FileSource)
    → is_open s.file ≡ false
    → read_nal front s ≡ record { source = s; nals = []; ok = false }
unfolding read_nal
read_closed_lem front s h = ground arith

-- A file source with its operations, as an instance of NalSource.
unfoldable pub file_source : NalSource FileSource
file_source = record {
  start = start;
  stop = stop;
  read_nal = read_nal;
  is_open = λ s. is_open s.file;
  start_again = start_again_lem;
  start_fails = start_fails_lem;
  start_opens = start_opens_lem;
  stop_closes = stop_closes_lem;
  stop-stop = stop-stop_lem;
  read_closed = read_closed_lem;
}
