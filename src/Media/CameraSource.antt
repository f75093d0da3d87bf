-- ===== src/Media/CameraSource.antt =====
-- src/camera/source.hpp and source.cpp: the camera, read through the pipe of libcamera-vid.
use veda_rtsp.Base.{
  Bool, true, false, Option, none, some, [], ◌++◌, Bytes, codes, ℤ, print_int, arith,
}
use veda_rtsp.Media.AnnexB
use veda_rtsp.Media.AnnexB.{Stream}
use veda_rtsp.Media.NalSource.{NalSource, Read}

-- `pipe` is what is left to read of the running process.
pub record CameraSource : Type 0 where
  pub width : ℤ
  pub height : ℤ
  pub fps : ℤ
  pub pipe : Option Stream
  pub reader : Bytes  -- the buffer of `reader_`

unfoldable pub make_camera_source : ℤ → ℤ → ℤ → CameraSource
make_camera_source width height fps = record {
  width = width;
  height = height;
  fps = fps;
  pipe = none;
  reader = [];
}

-- The text that `popen` is given.
unfoldable pub command : CameraSource → Bytes
command s =
    codes "libcamera-vid -t 0 --width "
    ++ (print_int s.width
        ++ (codes " --height "
            ++ (print_int s.height
                ++ (codes " --framerate "
                    ++ (print_int s.fps ++ codes " --codec h264 --inline -o - 2>/dev/null")))))

-- The first argument is what `popen` gives.
unfoldable pub start : Option Stream → CameraSource → CameraSource × Bool
start opened s = elim s.pipe [
  | some pipe ↦ (s, true)
  | none ↦ elim opened [
    | none ↦ (s, false)
    | some pipe ↦ (record s { pipe = some pipe; reader = [] }, true)
  ]
]

unfoldable pub stop : CameraSource → CameraSource
stop s = elim s.pipe [ none ↦ s | some pipe ↦ record s { pipe = none; reader = [] } ]

-- The destructor.
unfoldable destroy : CameraSource → CameraSource
unfolding stop
destroy s = stop s

unfoldable pub read_nal : CameraSource → Read CameraSource
unfolding AnnexB.read_nal
read_nal s = elim s.pipe [
  | none ↦ record { source = s; nals = []; ok = false }
  | some pipe ↦
      let r = AnnexB.read_nal s.reader pipe in
      record {
        source = record s { pipe = some r.rest; reader = r.buffer };
        nals = r.nals;
        ok = r.more;
      }
]

abbrev is_running : Option Stream → Bool
is_running none = false
is_running (some pipe) = true

-- The camera with its operations, as an instance of NalSource.
pub camera_source : NalSource CameraSource
unfolding start stop read_nal
camera_source = record {
  start = λ opened now s. start opened s;
  stop = stop;
  read_nal = λ front s. read_nal s;
  is_open = λ s. is_running s.pipe;
  start_again = λ opened now s h. ground arith;
  start_fails = λ now s h. ground arith;
  start_opens = λ pipe now s h. ground arith;
  stop_closes = λ s. ground arith;
  stop-stop = λ s. ground arith;
  read_closed = λ front s h. ground arith;
}
