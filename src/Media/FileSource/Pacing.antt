-- ===== src/Media/FileSource/Pacing.antt =====
-- src/media/file_source.cpp: a file source over many calls, and the clock that paces it.
use veda_rtsp.Base.{
  ℕ, zero, suc, ◌+◌, ◌*◌, ◌/◌, ◌≡◌, refl, Bool, true, false, ◌&&◌, ◌||◌, ◌==◌, ◌%◌, ◌∷◌, bit_and,
  bit_and_mask, if◌then◌else◌, Bool-cases, inl, inr, List, [], ◌++◌, Bytes, arith, ap,
}
use veda_rtsp.Media.AnnexB.{Stream}
use veda_rtsp.Media.NalSource.{Read}
use veda_rtsp.Media.FileSource.{FileSource, frame_boundary, is_frame, read_nal, paced, pace}

paced_clock :
    (s : FileSource) (nals : List Bytes)
    → (paced s nals).source.next_frame_time
      ≡ s.next_frame_time + (if frame_boundary nals then 1_000_000 / s.fps else 0)
unfolding paced
paced_clock s nals = elim (Bool-cases (frame_boundary nals)) [
  | inl frame ↦ rw frame refl
  | inr none_shown ↦ rw none_shown (omega arith)
]

-- A NAL unit of the types 1 and 5 of H.264: a slice, and a slice of an IDR picture.
abbrev slice : Bytes → Bool
slice [] = false
slice (header ∷ payload) = header % 32 == 1 || header % 32 == 5

abbrev pub any_slice : List Bytes → Bool
any_slice [] = false
any_slice (nal ∷ nals) = slice nal || any_slice nals

is_frame-slice : (nal : Bytes) → is_frame nal ≡ slice nal
unfolding is_frame
is_frame-slice [] = refl
is_frame-slice (header ∷ payload) =
    let e : bit_and header 0x1F ≡ header % 32 = bit_and_mask 5 header in rw e refl

frame_boundary-any_slice : (nals : List Bytes) → frame_boundary nals ≡ any_slice nals
frame_boundary-any_slice [] = refl
frame_boundary-any_slice (nal ∷ nals) = rw (is_frame-slice nal, frame_boundary-any_slice nals) refl

read_nal_paces :
    (front : Stream) (s : FileSource)
    → (read_nal front s).source.next_frame_time
      ≡ s.next_frame_time
        + (if (read_nal front s).ok && frame_boundary (read_nal front s).nals
            then 1_000_000 / s.fps
            else 0)
unfolding read_nal pace
read_nal_paces front s = ground arith

-- The clock moves by one frame's time exactly when a call succeeds and has given a slice.
read_nal_clock :
    (front : Stream) (s : FileSource)
    → (read_nal front s).source.next_frame_time
      ≡ s.next_frame_time
        + (if (read_nal front s).ok && any_slice (read_nal front s).nals
            then 1_000_000 / s.fps
            else 0)
read_nal_clock front s =
    rw (frame_boundary-any_slice (read_nal front s).nals) at (read_nal_paces front s)

-- The calls that the pump makes, one behind the other, as long as they succeed.
abbrev pub play : ℕ → Stream → FileSource → Read FileSource
play zero front s = record { source = s; nals = []; ok = true }
play (suc n) front s =
    let r = read_nal front s in
    let later = play n front r.source in
    record {
      source = if r.ok then later.source else r.source;
      nals = if r.ok then r.nals ++ later.nals else r.nals;
      ok = r.ok && later.ok;
    }

-- How many of the first `n` calls have given a slice, each having succeeded with all before it.
abbrev pub frames : ℕ → Stream → FileSource → ℕ
frames zero front s = 0
frames (suc n) front s =
    let r = read_nal front s in
    let later = frames n front r.source in
    if r.ok then (if any_slice r.nals then suc later else later) else 0

read_nal_fps : (front : Stream) (s : FileSource) → (read_nal front s).source.fps ≡ s.fps
unfolding read_nal pace
read_nal_fps front s = ground arith

-- Behind any number of calls of `read_nal` the clock of a file source stands at its start and one
-- frame's time for each call that has succeeded, with all before it, and has given a NAL unit of
-- type 1 or 5, the types of a slice.
pub play_clock :
    (n : ℕ) (front : Stream) (s : FileSource)
    → (play n front s).source.next_frame_time
      ≡ s.next_frame_time + frames n front s * (1_000_000 / s.fps)
play_clock zero front s = omega arith
play_clock (suc n) front s =
    let r = read_nal front s in
    elim (Bool-cases r.ok) [
      | inl ok ↦ elim (Bool-cases (any_slice r.nals)) [
        | inl frame ↦
            rw (ok, frame)
              (omega (
                arith,
                play_clock n front r.source,
                (rw (ok, frame) at (read_nal_clock front s)),
                ap (λ (f : ℕ). frames n front r.source * (1_000_000 / f)) (read_nal_fps front s),
              ))
        | inr no_frame ↦
            rw (ok, no_frame)
              (omega (
                arith,
                play_clock n front r.source,
                (rw (ok, no_frame) at (read_nal_clock front s)),
                ap (λ (f : ℕ). frames n front r.source * (1_000_000 / f)) (read_nal_fps front s),
              ))
      ]
      | inr failed ↦ rw failed (omega (arith, (rw failed at (read_nal_clock front s))))
    ]
