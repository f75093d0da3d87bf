-- ===== src/Media/FileSource.antt =====
-- src/media/file_source.hpp and file_source.cpp: a file that is played at its frame rate.
pub mod Laws
pub mod Pacing
pub mod Repeat
use veda_rtsp.Base.{
  ℕ, zero, suc, ◌+◌, ◌/◌, ◌||◌, Bool, true, false, if◌then◌else◌, ◌==◌, Option, none, some, List,
  [], ◌∷◌, ◌++◌, Bytes, ℤ, pos, negsuc, bit_and, get_or,
}
use veda_rtsp.Media.AnnexB
use veda_rtsp.Media.AnnexB.{Stream, ReadNal}
use veda_rtsp.Media.NalSource.{Read}

-- `file` is what is left to read of the opened file. Times are in microseconds.
pub record FileSource : Type 0 where
  pub fps : ℕ
  pub looping : Bool
  pub file : Option Stream
  pub reader : Bytes  -- the buffer of `reader_`
  pub next_frame_time : ℕ

-- `fps > 0 ? fps : 30`
abbrev pub frames_per_second : ℤ → ℕ
frames_per_second (pos zero) = 30
frames_per_second (pos (suc n)) = suc n
frames_per_second (negsuc n) = 30

unfoldable pub make_file_source : ℤ → Bool → FileSource
make_file_source fps looping = record {
  fps = frames_per_second fps;
  looping = looping;
  file = none;
  reader = [];
  next_frame_time = 0;
}

-- `AnnexBReader::reset`
abbrev pub reset : Bytes → Bytes
reset buffer = []

-- The first argument is what `fopen` gives, the second the time.
unfoldable pub start : Option Stream → ℕ → FileSource → FileSource × Bool
start opened now s = elim s.file [
  | some file ↦ (s, true)
  | none ↦ elim opened [
    | none ↦ (s, false)
    | some file ↦
        (record s { file = some file; reader = reset s.reader; next_frame_time = now }, true)
  ]
]

unfoldable pub stop : FileSource → FileSource
stop s = elim s.file [ none ↦ s | some file ↦ record s { file = none; reader = reset s.reader } ]

-- The destructor.
unfoldable destroy : FileSource → FileSource
unfolding stop
destroy s = stop s

-- The callback sees a slice: a NAL unit of type 1 or 5.
unfoldable pub is_frame : Bytes → Bool
is_frame nal = bit_and (get_or nal 0 0) 0x1F == 1 || bit_and (get_or nal 0 0) 0x1F == 5

abbrev pub frame_boundary : List Bytes → Bool
frame_boundary [] = false
frame_boundary (nal ∷ nals) = is_frame nal || frame_boundary nals

-- `next_frame_time_ += microseconds(1000000 / fps_)`; the sleep until then is the system's.
unfoldable pub pace : Bool → FileSource → FileSource
pace true s = record s { next_frame_time = s.next_frame_time + 1_000_000 / s.fps }
pace false s = s

-- Behind a read that went well.
unfoldable pub paced : FileSource → List Bytes → Read FileSource
unfolding pace is_frame
paced s nals = record { source = pace (frame_boundary nals) s; nals = nals; ok = true }

-- What the reader has left in the source.
abbrev pub behind : FileSource → ReadNal → FileSource
behind s r = record s { file = some r.rest; reader = r.buffer }

-- The second attempt, on the rewound file; `early` are the NAL units of the first.
unfoldable pub read_rewound : List Bytes → Stream → FileSource → Read FileSource
unfolding paced AnnexB.read_nal
read_rewound early front s =
    let r = AnnexB.read_nal (reset s.reader) front in
    if r.more
    then paced (behind s r) (early ++ r.nals)
    else record { source = behind s r; nals = early ++ r.nals; ok = false }

-- `front` is the file as it is read after `rewind`.
unfoldable pub read_nal : Stream → FileSource → Read FileSource
unfolding read_rewound
read_nal front s = elim s.file [
  | none ↦ record { source = s; nals = []; ok = false }
  | some file ↦
      let r = AnnexB.read_nal s.reader file in
      if r.more
      then paced (behind s r) r.nals
      else if s.looping
      then read_rewound r.nals front (behind s r)
      else record { source = behind s r; nals = r.nals; ok = false }
]
