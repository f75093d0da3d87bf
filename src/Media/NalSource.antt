-- ===== src/Media/NalSource.antt =====
-- src/media/nal_source.hpp: what the hub knows of a source, with laws on opening, on closing and on
-- reading when closed. That a call gives one NAL unit is not among them.
use veda_rtsp.Base.{ℕ, ◌≡◌, Bool, true, false, Option, none, some, List, [], Bytes}
use veda_rtsp.Media.AnnexB.{Stream}

-- What one call of `read_nal` gives: the source behind it, the NAL units that the callback got, and
-- the value returned.
pub record Read (S : Type 0) : Type 0 where
  pub source : S
  pub nals : List Bytes
  pub ok : Bool

-- `start` is given what opening the stream answers, and the time. `read_nal` is given the stream
-- from its front, for a source that goes back to it.
pub record NalSource (S : Type 0) : Type 0 where
  pub start : Option Stream → ℕ → S → S × Bool
  pub stop : S → S
  pub read_nal : Stream → S → Read S
  pub is_open : S → Bool
  pub start_again :
      (file : Option Stream) (now : ℕ) (s : S) → is_open s ≡ true → start file now s ≡ (s, true)
  pub start_fails : (now : ℕ) (s : S) → is_open s ≡ false → start none now s ≡ (s, false)
  pub start_opens :
      (file : Stream) (now : ℕ) (s : S)
      → is_open s ≡ false
      → (is_open (start (some file) now s).0 ≡ true) × ((start (some file) now s).1 ≡ true)
  pub stop_closes : (s : S) → is_open (stop s) ≡ false
  pub stop-stop : (s : S) → stop (stop s) ≡ stop s
  pub read_closed :
      (front : Stream) (s : S)
      → is_open s ≡ false
      → read_nal front s ≡ record { source = s; nals = []; ok = false }
