-- ===== src/Rtsp/Server/Room.antt =====
-- What the server is to its clients, as a specification: a room of clients, each with its place in the state diagram of
-- docs/state-machine.md, and one stream for each client that is PLAYING. Nothing of it knows of
-- buffers, requests or the hub.
use veda_rtsp.Base.{
  ℕ, ◌+◌, ◌≡◌, refl, true, false, ◌==◌, if◌then◌else◌, Option-cases, inl, inr, Option, none, some,
  List, [], ◌∷◌, map, length, length-append, arith,
}
use veda_rtsp.Rtp.Streamer.{Streamer}
use veda_rtsp.Rtsp.Parser.{Headers}
use veda_rtsp.Rtsp.Session.Handlers.{State, init, playing, Session, make_session, Answers}
use veda_rtsp.Rtsp.Session.Handlers.Machine.{IsSound}
use veda_rtsp.Rtsp.Session.Handlers.Subscription.{held}
use veda_rtsp.Rtsp.Session.Feed.{Fed, feed}
use veda_rtsp.Rtsp.Session.Feed.Walk.{Walk, feed-Walk}
use veda_rtsp.Rtsp.Server.{
  Client, System, Event, accepted, not_accepted, hung_up, readable, find_client, erase, store,
  emplace, drop_client, after_feed, on_event,
}
use veda_rtsp.Rtsp.Server.Cases.{after_feed_cases}
use veda_rtsp.Rtsp.Server.Clients.{held_by, AllSound}

-- A client in the room: its descriptor and its state.
pub record Guest : Type 0 where
  pub fd : ℕ
  pub state : State

abbrev pub present : ℕ → List Guest → Option State
present fd [] = none
present fd (g ∷ gs) = if g.fd == fd then some g.state else present fd gs

abbrev pub leave : ℕ → List Guest → List Guest
leave fd [] = []
leave fd (g ∷ gs) = if g.fd == fd then gs else g ∷ leave fd gs

abbrev pub move : ℕ → State → List Guest → List Guest
move fd b [] = []
move fd b (g ∷ gs) = if g.fd == fd then record g { state = b } ∷ gs else g ∷ move fd b gs

-- One turn in the room.
pub data Turn (r : List Guest) : List Guest → Type 0 where
  joins : (fd : ℕ) → present fd r ≡ none → Turn r (record { fd = fd; state = init } ∷ r)
  moves : (fd : ℕ) {a b : State} → present fd r ≡ some a → Walk a b → Turn r (move fd b r)
  leaves : (fd : ℕ) → Turn r (leave fd r)

pub data Course (r : List Guest) : List Guest → Type 0 where
  opens : Course r r
  then_turns : {s t : List Guest} → Course r s → Turn s t → Course r t

abbrev streams : State → ℕ
streams playing = 1
streams _ = 0

-- How many streams the room is owed.
abbrev pub watching : List Guest → ℕ
watching [] = 0
watching (g ∷ gs) = streams g.state + watching gs

-- What the room sees of the clients.
abbrev pub room_of : List Client → List Guest
room_of = map (λ c. record { fd = c.fd; state = c.session.state })

present-room_of :
    (fd : ℕ) (cs : List Client) (s : Session)
    → find_client fd cs ≡ some s
    → present fd (room_of cs) ≡ some s.state
unfolding find_client
present-room_of fd [] s e = cc
present-room_of fd (c ∷ cs) s e = ground (arith, present-room_of fd cs s)

absent-room_of :
    (fd : ℕ) (cs : List Client) → find_client fd cs ≡ none → present fd (room_of cs) ≡ none
unfolding find_client
absent-room_of fd [] e = refl
absent-room_of fd (c ∷ cs) e = ground (arith, absent-room_of fd cs)

leave-room_of : (fd : ℕ) (cs : List Client) → leave fd (room_of cs) ≡ room_of (erase fd cs)
unfolding erase
leave-room_of fd [] = refl
leave-room_of fd (c ∷ cs) = ground (arith, leave-room_of fd cs)

move-room_of :
    (fd : ℕ) (s : Session) (cs : List Client)
    → move fd s.state (room_of cs) ≡ room_of (store fd s cs)
unfolding store
move-room_of fd s [] = refl
move-room_of fd s (c ∷ cs) = ground (arith, move-room_of fd s cs)

length-held : (s : Session) → IsSound s → length (held s) ≡ streams s.state
length-held s v = ground arith

-- Each client that is PLAYING holds one streamer, and no other client holds any.
pub length-held_by : (cs : List Client) → AllSound cs → length (held_by cs) ≡ watching (room_of cs)
length-held_by [] v = refl
length-held_by (c ∷ cs) v = omega (
  arith,
  length-append (held c.session) (held_by cs),
  length-held c.session v.0,
  length-held_by cs v.1,
)

module _ (made : ℕ → Streamer) {r : List Guest} where
  drop_client-Course :
      (fd : ℕ) (sys : System)
      → Course r (room_of sys.clients)
      → Course r (room_of (drop_client made fd sys).clients)
  unfolding drop_client
  drop_client-Course fd sys v = elim (Option-cases (find_client fd sys.clients)) [
    | inl unknown ↦ rw (unknown, drop_client) v
    | inr (s, found) ↦
        rw (found, drop_client) (rw (leave-room_of fd sys.clients) at (then_turns v (leaves fd)))
  ]

  after_feed-Course :
      (fd : ℕ) (s : Session) (f : Fed) (sys : System)
      → find_client fd sys.clients ≡ some s
      → Walk s.state f.session.state
      → Course r (room_of sys.clients)
      → Course r (room_of (after_feed made fd f sys).clients)
  after_feed-Course fd s f sys found walk v =
      after_feed_cases made fd f sys (λ t. Course r (room_of t.clients)) (λ alive. moved)
        (drop_client-Course fd)
    where
      moved : Course r (room_of (store fd f.session sys.clients))
      moved =
          rw (move-room_of fd f.session sys.clients) at
            (then_turns v (moves fd (present-room_of fd sys.clients s found) walk))

  -- One event of the server is a few turns in the room.
  pub on_event-Course :
      (scan : Headers → Headers) (world : ℕ → Answers) (e : Event) (sys : System)
      → Course r (room_of sys.clients)
      → Course r (room_of (on_event made scan world e sys).clients)
  unfolding on_event make_session
  on_event-Course scan world (accepted fd ip true) sys v =
      elim (Option-cases (find_client fd sys.clients)) [
        | inl free ↦
            rw (free, emplace) (then_turns v (joins fd (absent-room_of fd sys.clients free)))
        | inr (old, taken) ↦ rw (taken, emplace) v
      ]
  on_event-Course scan world (accepted fd ip false) sys v = v
  on_event-Course scan world not_accepted sys v = v
  on_event-Course scan world (hung_up fd) sys v = drop_client-Course fd sys v
  on_event-Course scan world (readable fd []) sys v = drop_client-Course fd sys v
  on_event-Course scan world (readable fd (c ∷ cs)) sys v =
      elim (Option-cases (find_client fd sys.clients)) [
        | inl unknown ↦ rw (unknown, on_event) v
        | inr (s, found) ↦
            rw (found, on_event)
              (after_feed-Course fd s (feed scan world 0 s (c ∷ cs)) sys found
                (feed-Walk scan world 0 s (c ∷ cs)) v)
      ]
