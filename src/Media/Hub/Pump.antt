-- ===== src/Media/Hub/Pump.antt =====
-- src/media/hub.cpp: the pump thread, from its source to the hub, and the choice of the source.
pub mod Streams
pub mod Repeats
pub mod Received
pub mod Visits
use veda_rtsp.Base.{
  ℕ, zero, suc, Bool, true, false, if◌then◌else◌, Option, none, some, ◌>>=◌, List, [], ◌∷◌, ◌++◌,
  Bytes, codes, bytes_eq, ℤ, pos,
}
use veda_rtsp.Media.AnnexB.{Stream}
use veda_rtsp.Media.NalSource.{NalSource, Read}
use veda_rtsp.Media.FileSource.{FileSource, make_file_source}
use veda_rtsp.Media.CameraSource.{CameraSource, make_camera_source}
use veda_rtsp.Media.Hub.{Hub, on_nal, pump_ends, SourceConfig}

pub data Source : Type 0 where
  camera : CameraSource → Source
  file : FileSource → Source

unfoldable pub make_source : SourceConfig → Source
make_source cfg =
    if bytes_eq cfg.source (codes "camera")
    then camera (make_camera_source cfg.width cfg.height cfg.fps)
    else file (make_file_source cfg.fps true)

-- The callback, on each NAL unit of one read: the packets of each in turn.
unfoldable pub on_nals :
    (ℕ → ℕ → Bool) → List Bytes → Hub → Option (Hub × List (List (ℕ × List Bytes)))
unfolding on_nal
on_nals sends [] h = some (h, [])
on_nals sends (nal ∷ nals) h =
    (on_nal sends nal h >>= λ r. (on_nals sends nals r.0 >>= λ rest. some (rest.0, r.1 ∷ rest.1)))

-- What the thread has done; `ended` says whether it has returned.
pub record Pumped (S : Type 0) : Type 0 where
  pub source : S
  pub hub : Hub
  pub sent : List (List (ℕ × List Bytes))
  pub ended : Bool

-- `source_->stop(); running_ = false`
abbrev pub wind_up : {S : Type 0} → NalSource S → S → Hub → List (List (ℕ × List Bytes)) → Pumped S
wind_up nal_source s h sent = record {
  source = nal_source.stop s;
  hub = pump_ends h;
  sent = sent;
  ended = true;
}

-- `while (running_)`, for at most `fuel` rounds.
unfoldable pub pump :
    {S : Type 0} → (ℕ → ℕ → Bool) → NalSource S → Stream → ℕ → S → Hub → Option (Pumped S)
unfolding on_nals pump_ends
pump sends nal_source front zero s h =
    some (record { source = s; hub = h; sent = []; ended = false })
pump sends nal_source front (suc fuel) s h =
    let r = nal_source.read_nal front s in
    let given = on_nals sends r.nals h in
    let round =
      (given >>= λ g.
      (pump sends nal_source front fuel r.source g.0 >>= λ later.
      some (record later { sent = g.1 ++ later.sent }))) in
    let last = (given >>= λ g. some (wind_up nal_source r.source g.0 g.1)) in
    if h.running then if r.ok then round else last else some (wind_up nal_source s h [])
