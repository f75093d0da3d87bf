-- ===== src/Rtsp/Server/Refines.antt =====
-- src/rtsp/server.cpp and hub.cpp: the server with the hub against the room of clients.
use veda_rtsp.Base.{◌≡◌, length, map, List, [], Option, arith, refl, ◌∷◌, ℕ, Bytes}
use veda_rtsp.Rtp.Streamer.{Streamer}
use veda_rtsp.Media.AnnexB.{Stream}
use veda_rtsp.Media.Hub.{Subscriber}
use veda_rtsp.Rtsp.Parser.{Headers}
use veda_rtsp.Rtsp.Server.{System}
use veda_rtsp.Rtsp.Server.Room.{
  Guest, Course, opens, room_of, watching, length-held_by, on_event-Course,
}
use veda_rtsp.Rtsp.Server.Runs.{
  Step, served, broadcasts, source_ends, Reach, here, next, begin, reachable,
}

length-ids_at : (ms : List Subscriber) → length (map (λ (m : Subscriber). m.id) ms) ≡ length ms
length-ids_at [] = refl
length-ids_at (m ∷ ms) = omega (arith, length-ids_at ms)

module _ {made : ℕ → Streamer} {scan : Headers → Headers} where
  Step-Course :
      {r : List Guest} {s t : System}
      → Step made scan s t
      → Course r (room_of s.clients)
      → Course r (room_of t.clients)
  Step-Course {s = s} (served world e up fits after) v =
      rw after (on_event-Course made scan world e s v)
  Step-Course (broadcasts sends nal h sent on e after) v = rw after v
  Step-Course (source_ends on after) v = rw after v

  -- What the server and the pump thread reach is a course of the room of clients, in which a
  -- client joins in INIT under a descriptor that is free, goes along the state diagram, or leaves;
  -- and the hub serves as many streamers as clients are PLAYING. The steps take the hub's answers
  -- to a session as the hub gives them.
  pub Reach-Course :
      (source : Bytes) (file : Option Stream) {t : System}
      → Reach made scan (begin source file) t
      → Course [] (room_of t.clients) × (length t.hub.subscribers ≡ watching (room_of t.clients))
  unfolding begin
  Reach-Course source file {t} r =
      let v = reachable source file r in
      (
        go r,
        omega (
          arith,
          length-ids_at t.hub.subscribers,
          v.shared.size,
          length-held_by t.clients v.sound,
        ),
      )
    where
      go : {t : System} → Reach made scan (begin source file) t → Course [] (room_of t.clients)
      go here = opens
      go (next before st) = Step-Course st (go before)
