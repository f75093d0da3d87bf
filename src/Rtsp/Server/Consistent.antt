-- ===== src/Rtsp/Server/Consistent.antt =====
-- src/rtsp/server.cpp: the table, the sessions and the hub, and how they agree.
use veda_rtsp.Base.{
  ℕ, ◌+◌, ◌≡◌, ◌∙◌, ap, Bool, true, false, none, some, List, [], ◌∷◌, count, length, arith,
  Option-cases, inl, inr,
}
use veda_rtsp.Rtp.Streamer.{Streamer}
use veda_rtsp.Media.Hub.{Hub}
use veda_rtsp.Media.Hub.Members.{IsIdleAlone}
use veda_rtsp.Rtsp.Parser.{Headers}
use veda_rtsp.Rtsp.Session.Handlers.{Session, Answers}
use veda_rtsp.Rtsp.Session.Handlers.Machine.{IsSound}
use veda_rtsp.Rtsp.Session.Handlers.Subscription.{held, subscribed, IsProper}
use veda_rtsp.Rtsp.Session.Feed.{Fed, feed}
use veda_rtsp.Rtsp.Session.Feed.Ends.{IsKept, feed-IsKept}
use veda_rtsp.Rtsp.Server.{
  Client, System, Event, accepted, not_accepted, hung_up, readable, find_client, erase, store,
  destroy, dropped, perform_all, drop_client, after_feed, on_event,
}
use veda_rtsp.Rtsp.Server.Cases.{fed, after_feed_cases}
use veda_rtsp.Rtsp.Server.Clients.{
  held_by, AllSound, count-held_by-erase, length-held_by-erase, erase-store, find_client-store,
  held_by-emplace, find_client-IsSound, erase-AllSound, store-AllSound, emplace-AllSound,
}
use veda_rtsp.Rtsp.Server.Replay.{
  IsAnswered, IsShared, perform_all-IsShared, perform_all-IsIdleAlone,
}

-- The hub serves exactly the streamers that the sessions hold, each once; every session is sound;
-- and no source runs for nobody.
pub record IsConsistent (sys : System) : Type 0 where
  pub sound : AllSound sys.clients
  pub shared : IsShared sys.hub (held_by sys.clients) []
  pub idle : IsIdleAlone sys.hub

pub regroup :
    (h : Hub) (a b own others : List ℕ)
    → ((n : ℕ) → count n a + count n b ≡ count n own + count n others)
    → length a + length b ≡ length own + length others
    → IsShared h a b
    → IsShared h own others
regroup h a b own others same sizes v = record {
  split = λ n. omega (arith, same n, v.split n);
  once = v.once;
  size = v.size ∙ sizes;
}

dropped_lem :
    (s : Session)
    → IsSound s
    → IsProper (held s) (dropped s) × (subscribed (held s) (dropped s) ≡ [])
unfolding dropped IsProper subscribed
dropped_lem s v = ground arith

pub destroy_lem :
    (s : Session)
    → IsSound s
    → IsProper (held s) (destroy s) × (subscribed (held s) (destroy s) ≡ [])
unfolding destroy IsProper subscribed
destroy_lem s v = ground arith

-- `subscribe` is no part of a clean-up.
dropped-IsAnswered : (made : ℕ → Streamer) (s : Session) (h : Hub) → IsAnswered made h (dropped s)
unfolding dropped IsAnswered
dropped-IsAnswered made s h = ground arith

pub destroy-IsAnswered :
    (made : ℕ → Streamer) (s : Session) (h : Hub) → IsAnswered made h (destroy s)
unfolding destroy IsAnswered
destroy-IsAnswered made s h = ground arith

module _ (made : ℕ → Streamer) where
  drop_client-IsConsistent :
      (fd : ℕ) (sys : System) → IsConsistent sys → IsConsistent (drop_client made fd sys)
  unfolding drop_client
  drop_client-IsConsistent fd sys v = elim (Option-cases (find_client fd sys.clients)) [
    | inl unknown ↦ rw (unknown, drop_client) v
    | inr (s, found) ↦
        let sound = find_client-IsSound fd s sys.clients v.sound found in
        let (proper, clean) = dropped_lem s sound in
        let own : IsShared sys.hub (held s) (held_by (erase fd sys.clients)) =
          regroup sys.hub (held_by sys.clients) [] (held s) (held_by (erase fd sys.clients))
            (λ n. omega (arith, count-held_by-erase n fd s sys.clients found))
            (omega (arith, length-held_by-erase fd s sys.clients found)) v.shared in
        let left : IsShared (perform_all made (dropped s) sys.hub) []
            (held_by (erase fd sys.clients)) =
          rw clean at (
            perform_all-IsShared made (dropped s) sys.hub (held s) (held_by (erase fd sys.clients))
              (dropped-IsAnswered made s sys.hub) proper own) in
        rw (found, drop_client)
          (record {
            sound = erase-AllSound fd sys.clients v.sound;
            shared =
                regroup _ [] (held_by (erase fd sys.clients)) (held_by (erase fd sys.clients)) []
                  (λ n. omega arith) (omega arith) left;
            idle = perform_all-IsIdleAlone made (dropped s) sys.hub v.idle;
          })
  ]

  -- The session and the hub behind `feed`.
  fed-IsConsistent :
      (fd : ℕ) (s : Session) (f : Fed) (sys : System) (alive : Bool)
      → find_client fd sys.clients ≡ some s
      → IsAnswered made sys.hub f.actions
      → IsKept (held s) f
      → IsConsistent sys
      → IsConsistent (fed made fd f sys alive)
  fed-IsConsistent fd s f sys alive found answered kept v =
      let own : IsShared sys.hub (held s) (held_by (erase fd sys.clients)) =
        regroup sys.hub (held_by sys.clients) [] (held s) (held_by (erase fd sys.clients))
          (λ n. omega (arith, count-held_by-erase n fd s sys.clients found))
          (omega (arith, length-held_by-erase fd s sys.clients found)) v.shared in
      let left : IsShared (perform_all made f.actions sys.hub) (held f.session)
          (held_by (erase fd sys.clients)) =
        rw kept.hub_view at (
          perform_all-IsShared made f.actions sys.hub (held s) (held_by (erase fd sys.clients))
            answered kept.proper own) in
      record {
        sound = store-AllSound fd f.session sys.clients kept.sound v.sound;
        shared =
            regroup _ (held f.session) (held_by (erase fd sys.clients))
              (held_by (store fd f.session sys.clients)) []
              (λ n. omega (
                arith,
                count-held_by-erase n fd f.session (store fd f.session sys.clients)
                    (find_client-store fd s f.session sys.clients found),
                ap (λ (cs : List Client). count n (held_by cs))
                    (erase-store fd f.session sys.clients),
              ))
              (omega (
                arith,
                length-held_by-erase fd f.session (store fd f.session sys.clients)
                    (find_client-store fd s f.session sys.clients found),
                ap (λ (cs : List Client). length (held_by cs))
                    (erase-store fd f.session sys.clients),
              ))
              left;
        idle = perform_all-IsIdleAlone made f.actions sys.hub v.idle;
      }

  after_feed-IsConsistent :
      (fd : ℕ) (s : Session) (f : Fed) (sys : System)
      → find_client fd sys.clients ≡ some s
      → IsAnswered made sys.hub f.actions
      → IsKept (held s) f
      → IsConsistent sys
      → IsConsistent (after_feed made fd f sys)
  after_feed-IsConsistent fd s f sys found answered kept v =
      after_feed_cases made fd f sys IsConsistent
        (λ alive. fed-IsConsistent fd s f sys alive found answered kept v)
        (drop_client-IsConsistent fd)

  -- The hub's answers to a session are the hub's.
  abbrev pub IsServed : (Headers → Headers) → (ℕ → Answers) → Event → System → Type 0
  IsServed scan world (readable fd bytes) sys = elim (find_client fd sys.clients) [
    | none ↦ Unit
    | some s ↦ IsAnswered made sys.hub (feed scan world 0 s bytes).actions
  ]
  IsServed scan world _ sys = Unit

  pub on_event-IsConsistent :
      (scan : Headers → Headers) (world : ℕ → Answers) (e : Event) (sys : System)
      → IsServed scan world e sys
      → IsConsistent sys
      → IsConsistent (on_event made scan world e sys)
  unfolding on_event
  on_event-IsConsistent scan world (accepted fd ip true) sys h v = record {
    sound = emplace-AllSound fd ip sys.clients v.sound;
    shared = rw (held_by-emplace fd ip sys.clients) v.shared;
    idle = v.idle;
  }
  on_event-IsConsistent scan world (accepted fd ip false) sys h v = v
  on_event-IsConsistent scan world not_accepted sys h v = v
  on_event-IsConsistent scan world (hung_up fd) sys h v = drop_client-IsConsistent fd sys v
  on_event-IsConsistent scan world (readable fd []) sys h v = drop_client-IsConsistent fd sys v
  on_event-IsConsistent scan world (readable fd (c ∷ cs)) sys h v =
      elim (Option-cases (find_client fd sys.clients)) [
        | inl unknown ↦ rw (unknown, on_event) v
        | inr (s, found) ↦
            rw (found, on_event)
              (after_feed-IsConsistent fd s (feed scan world 0 s (c ∷ cs)) sys found
                (rw (found, IsServed) at h)
                (feed-IsKept scan world 0 s (c ∷ cs)
                  (find_client-IsSound fd s sys.clients v.sound found))
                v)
      ]
