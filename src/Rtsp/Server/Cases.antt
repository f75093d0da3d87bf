-- ===== src/Rtsp/Server/Cases.antt =====
-- What holds behind `feed` in the loop of the server, by the way it ends.
use veda_rtsp.Base.{ℕ, Bool, false}
use veda_rtsp.Rtp.Streamer.{Streamer}
use veda_rtsp.Rtsp.Session.Feed.{Fed, End, keeps_open, closes, throws, endless}
use veda_rtsp.Rtsp.Server.{System, store, perform_all, drop_client, after_feed}

module _ (made : ℕ → Streamer) (fd : ℕ) (f : Fed) (sys : System) where
  -- The session in its new state, and what it has done at the hub.
  abbrev pub fed : Bool → System
  fed alive = record {
    clients = store fd f.session sys.clients;
    hub = perform_all made f.actions sys.hub;
    alive = alive;
  }

  -- What holds of that, and outlives a drop of the client, holds behind the event.
  pub after_feed_cases :
      (P : System → Type 0)
      → ((alive : Bool) → P (fed alive))
      → ((t : System) → P t → P (drop_client made fd t))
      → P (after_feed made fd f sys)
  unfolding after_feed
  after_feed_cases P k drops = by_ending f.ending
    where
      by_ending :
          (e : End)
          → P (elim e [
            | keeps_open ↦ fed sys.alive
            | closes ↦ drop_client made fd (fed sys.alive)
            | throws ↦ fed false
            | endless ↦ fed false
          ])
      by_ending keeps_open = k sys.alive
      by_ending closes = drops (fed sys.alive) (k sys.alive)
      by_ending throws = k false
      by_ending endless = k false
