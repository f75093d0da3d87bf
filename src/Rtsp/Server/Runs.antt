-- ===== src/Rtsp/Server/Runs.antt =====
-- The server and the hub's pump thread together: the states that they reach. A step
-- is one event of the server, or what the pump does at the hub with one NAL unit or at its end.
use veda_rtsp.Base.{
  ℕ, ◌+◌, ◌≡◌, refl, sym, ap, ◌∙◌, Bool, true, false, some, List, [], ◌∷◌, Bytes, count,
  count-append, length, length-append, map, arith, Option,
}
use veda_rtsp.Rtp.Streamer.{Streamer}
use veda_rtsp.Media.AnnexB.{Stream}
use veda_rtsp.Media.Hub.{Hub, Subscriber, open_hub, default_config, on_nal, pump_ends}
use veda_rtsp.Media.Hub.Members.{IsIdleAlone}
use veda_rtsp.Media.Hub.Broadcast.{on_nal_keeps}
use veda_rtsp.Media.Hub.Members.{open_hub_idle}
use veda_rtsp.Rtsp.Parser.{Headers}
use veda_rtsp.Rtsp.Session.Handlers.{Answers}
use veda_rtsp.Rtsp.Session.Handlers.Subscription.{held}
use veda_rtsp.Rtsp.Server.{
  Client, System, Event, destroy, perform_all, on_event, destroy_all, shut_down,
}
use veda_rtsp.Rtsp.Server.Clients.{held_by, AllSound}
use veda_rtsp.Rtsp.Server.Replay.{ids_at, IsShared, perform_all-IsShared, perform_all-IsIdleAlone}
use veda_rtsp.Rtsp.Server.Consistent.{
  IsConsistent, IsServed, regroup, destroy_lem, destroy-IsAnswered, on_event-IsConsistent,
}

module _ (made : ℕ → Streamer) (scan : Headers → Headers) where
  -- `t` is the state behind one step from `s`.
  pub data Step (s : System) (t : System) : Type 0 where
    served :
        (world : ℕ → Answers) (e : Event)
        → s.alive ≡ true
        → IsServed made scan world e s
        → t ≡ on_event made scan world e s
        → Step s t
    broadcasts :
        (sends : ℕ → ℕ → Bool) (nal : Bytes) (h : Hub) (sent : List (ℕ × List Bytes))
        → s.hub.running ≡ true
        → on_nal sends nal s.hub ≡ some (h, sent)
        → t ≡ record s { hub = h }
        → Step s t
    source_ends : s.hub.running ≡ true → t ≡ record s { hub = pump_ends s.hub } → Step s t

  pub data Reach (s : System) : System → Type 0 where
    here : Reach s s
    next : {t u : System} → Reach s t → Step t u → Reach s u

-- The server as `run` begins its loop, on the path of its source and what `fopen` gives for it.
unfoldable pub begin : Bytes → Option Stream → System
begin source file = record {
  clients = [];
  hub = open_hub (default_config source) file;
  alive = true;
}

begins_idle :
    (source : Bytes) (file : Option Stream)
    → ((begin source file).hub.subscribers ≡ []) × ((begin source file).hub.running ≡ false)
unfolding begin
begins_idle source file = open_hub_idle (default_config source) file

begin-IsConsistent : (source : Bytes) (file : Option Stream) → IsConsistent (begin source file)
unfolding begin
begin-IsConsistent source file = record {
  sound = tt;
  shared =
      let served = (begins_idle source file).0 in
      record {
        split = λ n. rw served refl;
        once = λ n. rw served (omega arith);
        size = rw served refl;
      };
  idle = record { idle = λ e. (begins_idle source file).1 };
}

nil_of_ids : (ms : List Subscriber) → map (λ (m : Subscriber). m.id) ms ≡ [] → ms ≡ []
nil_of_ids [] e = refl
nil_of_ids (m ∷ ms) e = cc

nil_of_count :
    (ms : List Subscriber)
    → ((n : ℕ) → count n (map (λ (m : Subscriber). m.id) ms) ≡ 0 + 0)
    → ms ≡ []
nil_of_count [] h = refl
nil_of_count (m ∷ ms) h = absurd (ground (arith, h m.id))

on_nal-IsConsistent :
    (sends : ℕ → ℕ → Bool) (nal : Bytes) (sys : System) (h : Hub) (sent : List (ℕ × List Bytes))
    → on_nal sends nal sys.hub ≡ some (h, sent)
    → sys.hub.running ≡ true
    → IsConsistent sys
    → IsConsistent (record sys { hub = h })
on_nal-IsConsistent sends nal sys h sent e on v =
    let (same, running) = on_nal_keeps sends nal sys.hub h sent e in
    record {
      sound = v.sound;
      shared = record {
        split = λ n. ap (count n) same ∙ v.shared.split n;
        once = λ n. rw same (v.shared.once n);
        size = ap length same ∙ v.shared.size;
      };
      idle = record { idle = λ none_left. absurd (still_served none_left same) };
    }
  where
    still_served : h.subscribers ≡ [] → ids_at h ≡ ids_at sys.hub → ⊥
    still_served none_left same =
        let nobody : sys.hub.subscribers ≡ [] =
          nil_of_ids sys.hub.subscribers
            (sym same ∙ ap (map (λ (m : Subscriber). m.id)) none_left) in
        let off : sys.hub.running ≡ false = v.idle.idle nobody in cc

module _ {made : ℕ → Streamer} {scan : Headers → Headers} where
  Step-IsConsistent : {s t : System} → Step made scan s t → IsConsistent s → IsConsistent t
  unfolding pump_ends
  Step-IsConsistent {s} (served world e up fits after) v =
      rw after (on_event-IsConsistent made scan world e s fits v)
  Step-IsConsistent {s} (broadcasts sends nal h sent on e after) v =
      rw after (on_nal-IsConsistent sends nal s h sent e on v)
  Step-IsConsistent {s} (source_ends on after) v = rw after (record {
    sound = v.sound;
    shared = record { split = v.shared.split; once = v.shared.once; size = v.shared.size };
    idle = record { idle = λ e. refl };
  })

  pub reachable :
      (source : Bytes) (file : Option Stream) {t : System}
      → Reach made scan (begin source file) t
      → IsConsistent t
  reachable source file here = begin-IsConsistent source file
  reachable source file (next r st) = Step-IsConsistent st (reachable source file r)

destroy_all-IsShared :
    (made : ℕ → Streamer) (cs : List Client) (h : Hub)
    → AllSound cs
    → IsShared h (held_by cs) []
    → IsIdleAlone h
    → IsShared (destroy_all made cs h) [] [] × IsIdleAlone (destroy_all made cs h)
destroy_all-IsShared made [] h sound v idle = (v, idle)
destroy_all-IsShared made (c ∷ cs) h sound v idle =
    let (proper, clean) = destroy_lem c.session sound.0 in
    let own : IsShared h (held c.session) (held_by cs) =
      regroup h (held_by (c ∷ cs)) [] (held c.session) (held_by cs)
        (λ n. omega (arith, count-append n (held c.session) (held_by cs)))
        (omega (arith, length-append (held c.session) (held_by cs))) v in
    let left : IsShared (perform_all made (destroy c.session) h) [] (held_by cs) = rw clean at (
      perform_all-IsShared made (destroy c.session) h (held c.session) (held_by cs)
        (destroy-IsAnswered made c.session h) proper own) in
    destroy_all-IsShared made cs (perform_all made (destroy c.session) h) sound.1
      (regroup _ [] (held_by cs) (held_by cs) [] (λ n. omega arith) (omega arith) left)
      (perform_all-IsIdleAlone made (destroy c.session) h idle)

-- From every state that is reached, shutting down leaves the hub with no subscriber and no source
-- that runs.
pub shut_down_empties :
    {made : ℕ → Streamer} {scan : Headers → Headers} (source : Bytes) (file : Option Stream)
    {t : System}
    → Reach made scan (begin source file) t
    → ((shut_down made t).hub.subscribers ≡ []) × ((shut_down made t).hub.running ≡ false)
unfolding shut_down
shut_down_empties {made} source file {t} r =
    let v = reachable source file r in
    let (left, idle) = destroy_all-IsShared made t.clients t.hub v.sound v.shared v.idle in
    let nobody = nil_of_count (destroy_all made t.clients t.hub).subscribers left.split in
    (nobody, idle.idle nobody)
