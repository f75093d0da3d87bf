-- ===== src/Media/Hub/Pump/Repeats.antt =====
-- The pump on a file in loop mode.
use veda_rtsp.Base.{
  ℕ, zero, suc, ◌≡◌, ◌∙◌, refl, Bool, true, false, some, List, [], ◌∷◌, ◌++◌, Bytes, All,
}
use veda_rtsp.Media.AnnexB.{Stream}
use veda_rtsp.Media.AnnexB.Chunks.{concat}
use veda_rtsp.Media.AnnexB.Units.{NalUnit, IsNalUnit, annexb}
use veda_rtsp.Media.FileSource.{FileSource, read_nal}
use veda_rtsp.Media.FileSource.Laws.{file_source}
use veda_rtsp.Media.FileSource.Repeat.{IsAt, looped, read_next, read_wrap}
use veda_rtsp.Media.Hub.{Hub}
use veda_rtsp.Media.Hub.Broadcast.{IsLive}
use veda_rtsp.Media.Hub.Pump.{Pumped, pump}
use veda_rtsp.Media.Hub.Pump.Streams.{IsSendable, silent, Gives, Gives-append, on_nals-Gives}

-- What the pump has done in some rounds that have not ended it.
pub record GoesOn (h : Hub) (nals : List Bytes) (p : Pumped FileSource) : Type 0 where
  pub on : p.ended ≡ false
  pub gives : Gives h nals p.hub p.sent

abbrev pub AllSendable : List NalUnit → Type 0
AllSendable = All (λ u. IsSendable u.nal)

module _ (sends : ℕ → ℕ → Bool) (all : (id i : ℕ) → sends id i ≡ true) (front : Stream) where
  -- One round, and then the rest.
  pump_round :
      (n : ℕ) (s : FileSource) (h : Hub) (nals later : List Bytes)
      → h.running ≡ true
      → All IsLive h.subscribers
      → All IsSendable nals
      → (read_nal front s).ok ≡ true
      → (read_nal front s).nals ≡ nals
      → ((h1 : Hub)
          → h1.running ≡ true
          → All IsLive h1.subscribers
          → (p : Pumped FileSource) × (pump sends file_source front n (read_nal front s).source h1
              ≡ some p)
            × GoesOn h1 later p)
      → (p : Pumped FileSource) × (pump sends file_source front (suc n) s h ≡ some p)
        × GoesOn h (nals ++ later) p
  unfolding pump file_source
  pump_round n s h nals later on live form ok same rest =
      let (h1, sent, runs, given) = on_nals-Gives sends all nals h form live in
      let (p, goes, v) = rest h1 (given.running ∙ on) given.live in
      (
        record p { sent = sent ++ p.sent },
        simp on (rw (ok, same, runs, goes) refl),
        record { on = v.on; gives = Gives-append given v.gives },
      )

  module _ (a b : NalUnit) (more : List NalUnit) (file : concat front ≡ annexb (a ∷ b ∷ more))
      (units : All IsNalUnit (a ∷ b ∷ more)) (forms : AllSendable (a ∷ b ∷ more)) where
    -- On a looping file of two clean NAL units at least, none of them of type 28, a pump that runs
    -- goes on for any number of rounds from any place in the file, and gives every subscriber, in
    -- turn and as its own RTP session, the NAL units that are left and then the file's NAL units
    -- over and over, when each subscriber is connected with fields that fit their widths and every
    -- socket sends.
    pub pump_repeats :
        (n : ℕ) (u : NalUnit) (left : List NalUnit) (s : FileSource) (h : Hub)
        → h.running ≡ true
        → All IsLive h.subscribers
        → All IsNalUnit (u ∷ left)
        → AllSendable (u ∷ left)
        → IsAt (u ∷ left) s
        → (p : Pumped FileSource) × (pump sends file_source front n s h ≡ some p)
          × GoesOn h (looped a b more n u left) p
    unfolding pump file_source
    pump_repeats zero u left s h on live clean form v = (
      record { source = s; hub = h; sent = []; ended = false },
      refl,
      record {
        on = refl;
        gives = record { streamed = silent; live = live; running = refl; increment = refl };
      },
    )
    pump_repeats (suc n) u [] s h on live clean form v =
        let (ok, nals, there) = read_wrap a b more front file units u s clean.0 v in
        pump_round n s h (u.nal ∷ a.nal ∷ []) (looped a b more n b more) on live
          (form.0, (forms.0, tt)) ok nals
          (λ h1 on' live'.
            pump_repeats n b more (read_nal front s).source h1 on' live' units.1 forms.1 there)
    pump_repeats (suc n) u (w ∷ left) s h on live clean form v =
        let (ok, nals, there) = read_next a b more front file units u w left s clean.0 v in
        pump_round n s h (u.nal ∷ []) (looped a b more n w left) on live (form.0, tt) ok nals
          (λ h1 on' live'.
            pump_repeats n w left (read_nal front s).source h1 on' live' clean.1 form.1 there)
