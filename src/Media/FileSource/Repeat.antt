-- ===== src/Media/FileSource/Repeat.antt =====
-- A file source in loop mode: the NAL units of the file, over and over.
use veda_rtsp.Base.{
  ℕ, zero, suc, ◌≡◌, ◌∙◌, refl, sym, ap₂, true, Bool-cases, inl, inr, some, List, [], ◌∷◌, ◌++◌,
  Bytes, All, append-nil,
}
use veda_rtsp.Media.AnnexB
use veda_rtsp.Media.AnnexB.{Stream}
use veda_rtsp.Media.AnnexB.Chunks.{concat}
use veda_rtsp.Media.AnnexB.Units.{NalUnit, IsNalUnit, annexb, read_unit}
use veda_rtsp.Media.FileSource.{FileSource, read_nal, frame_boundary, paced, read_rewound, behind}
use veda_rtsp.Media.FileSource.Pacing.{play}

-- An open source in loop mode that has still to read the units `left`.
pub record IsAt (left : List NalUnit) (s : FileSource) : Type 0 where
  pub looping : s.looping ≡ true
  pub rest : Stream
  pub open_file : s.file ≡ some rest
  pub unread : s.reader ++ concat rest ≡ annexb left

-- What `n` calls give, on a file with the units `a`, `b` and `more`: each call gives one unit, but
-- the one that meets the end of the file gives the first unit as well.
abbrev pub looped : NalUnit → NalUnit → List NalUnit → ℕ → NalUnit → List NalUnit → List Bytes
looped a b more zero u left = []
looped a b more (suc n) u [] = u.nal ∷ a.nal ∷ looped a b more n b more
looped a b more (suc n) u (w ∷ left) = u.nal ∷ looped a b more n w left

paced-IsAt :
    (left : List NalUnit) (s : FileSource) (nals : List Bytes)
    → IsAt left s
    → ((paced s nals).ok ≡ true) × ((paced s nals).nals ≡ nals) × IsAt left (paced s nals).source
unfolding paced
paced-IsAt left s nals v = elim (Bool-cases (frame_boundary nals)) [
  | inl frame ↦ rw frame (
    refl,
    refl,
    record { looping = v.looping; rest = v.rest; open_file = v.open_file; unread = v.unread },
  )
  | inr no_frame ↦ rw no_frame (refl, refl, v)
]

module _ (a b : NalUnit) (more : List NalUnit) (front : Stream)
    (file : concat front ≡ annexb (a ∷ b ∷ more)) (units : All IsNalUnit (a ∷ b ∷ more)) where
  -- One call in the middle of the file.
  pub read_next :
      (u w : NalUnit) (left : List NalUnit) (s : FileSource)
      → IsNalUnit u
      → IsAt (u ∷ w ∷ left) s
      → ((read_nal front s).ok ≡ true)
        × ((read_nal front s).nals ≡ u.nal ∷ [])
        × IsAt (w ∷ left) (read_nal front s).source
  unfolding read_nal
  read_next u w left s clean v =
      let same = read_unit u (w ∷ left) s.reader v.rest clean v.unread in
      let r = AnnexB.read_nal s.reader v.rest in
      rw (v.open_file, read_nal, same.more, sym same.nals)
        (paced-IsAt (w ∷ left) (behind s r) r.nals (record {
          looping = v.looping;
          rest = r.rest;
          open_file = refl;
          unread = same.left ∙ append-nil (annexb (w ∷ left));
        }))

  -- The call that meets the end.
  pub read_wrap :
      (u : NalUnit) (s : FileSource)
      → IsNalUnit u
      → IsAt (u ∷ []) s
      → ((read_nal front s).ok ≡ true)
        × ((read_nal front s).nals ≡ u.nal ∷ a.nal ∷ [])
        × IsAt (b ∷ more) (read_nal front s).source
  unfolding read_nal
  read_wrap u s clean v =
      let same = read_unit u [] s.reader v.rest clean v.unread in
      let again = read_unit a (b ∷ more) [] front units.0 file in
      let r = AnnexB.read_nal s.reader v.rest in
      let r' = AnnexB.read_nal [] front in
      let rewound : FileSource = behind (behind (record s { looping = true }) r) r' in
      let (ok, nals, there) = paced-IsAt (b ∷ more) rewound (r.nals ++ r'.nals) (record {
        looping = refl;
        rest = r'.rest;
        open_file = refl;
        unread = again.left ∙ append-nil (annexb (b ∷ more));
      }) in
      rw (v.open_file, read_nal, same.more, v.looping, read_rewound, again.more)
        (ok, nals ∙ ap₂ (◌++◌ {A = Bytes}) same.nals again.nals, there)

  -- A looping source on a file of two NAL units at least, that are clean and stand each behind a
  -- start code of three bytes or of four, never ends from any place in the file, and gives the NAL
  -- units that are left and then the file's NAL units over and over, in their order.
  pub play_repeats :
      (n : ℕ) (u : NalUnit) (left : List NalUnit) (s : FileSource)
      → All IsNalUnit (u ∷ left)
      → IsAt (u ∷ left) s
      → ((play n front s).ok ≡ true) × ((play n front s).nals ≡ looped a b more n u left)
  play_repeats zero u left s clean v = (refl, refl)
  play_repeats (suc n) u [] s clean v =
      let (ok, nals, there) = read_wrap u s clean.0 v in
      let (later, rest) = play_repeats n b more (read_nal front s).source units.1 there in
      rw (ok, later, nals, rest) (refl, refl)
  play_repeats (suc n) u (w ∷ left) s clean v =
      let (ok, nals, there) = read_next u w left s clean.0 v in
      let (later, rest) = play_repeats n w left (read_nal front s).source clean.1 there in
      rw (ok, later, nals, rest) (refl, refl)
