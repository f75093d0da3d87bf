-- ===== src/Rtsp/Server.antt =====
-- src/rtsp/server.cpp: the table of clients, one event of epoll at a time, with the media hub.
pub mod Clients
pub mod Replay
pub mod Cases
pub mod Consistent
pub mod Room
pub mod Loop
pub mod Refines
pub mod Returns
pub mod Watches
pub mod Thrown
pub mod Runs
use veda_rtsp.Base.{
  ℕ, Bool, true, false, if◌then◌else◌, ◌==◌, Option, none, some, List, [], ◌∷◌, ◌++◌, Bytes,
}
use veda_rtsp.Rtp.Streamer.{Streamer}
use veda_rtsp.Media.Hub.{Hub, Subscriber}
use veda_rtsp.Media.Hub
use veda_rtsp.Rtsp.Parser.{Headers}
use veda_rtsp.Rtsp.Session.Handlers.{
  Session, make_session, Action, send, connect, subscribe, unsubscribe, Answers, stop_streaming,
  on_disconnect,
}
use veda_rtsp.Rtsp.Session.Feed.{End, keeps_open, closes, throws, endless, Fed, feed}

-- `Server::Client`: the connection, by its descriptor, and the session.
pub record Client : Type 0 where
  pub fd : ℕ
  pub session : Session

-- `clients.find(fd)`
unfoldable pub find_client : ℕ → List Client → Option Session
find_client fd [] = none
find_client fd (c ∷ cs) = if c.fd == fd then some c.session else find_client fd cs

-- `clients.erase(it)`: the map has one entry at most for a descriptor.
unfoldable pub erase : ℕ → List Client → List Client
erase fd [] = []
erase fd (c ∷ cs) = if c.fd == fd then cs else c ∷ erase fd cs

-- A session that has changed in its place.
unfoldable pub store : ℕ → Session → List Client → List Client
store fd s [] = []
store fd s (c ∷ cs) = if c.fd == fd then record c { session = s } ∷ cs else c ∷ store fd s cs

-- `clients.emplace`: a descriptor that is there already stays.
unfoldable pub emplace : ℕ → Session → List Client → List Client
unfolding find_client
emplace fd s cs = elim (find_client fd cs) [
  | none ↦ record { fd = fd; session = s } ∷ cs
  | some old ↦ cs
]

-- The clients and the hub that they share. `alive` is false behind an exception, which nothing
-- in `run` or `main` catches.
pub record System : Type 0 where
  pub clients : List Client
  pub hub : Hub
  pub alive : Bool

-- What epoll reports: a connection, with its descriptor, its peer, and whether it could be added
-- to epoll; one of the hang-up flags; or bytes to read, none where `read` returns 0 or -1.
pub data Event : Type 0 where
  accepted : ℕ → Bytes → Bool → Event
  not_accepted : Event
  hung_up : ℕ → Event
  readable : ℕ → Bytes → Event

-- The destructor of `Session`.
unfoldable pub destroy : Session → List Action
unfolding stop_streaming
destroy s = (stop_streaming s).1

-- `drop_client` on a client that is in the map: disconnect, then destroy.
unfoldable pub dropped : Session → List Action
unfolding on_disconnect destroy
dropped s = (on_disconnect s).1 ++ destroy (on_disconnect s).0

-- `made id` is the streamer behind an identity, as it was when its session connected it.
module _ (made : ℕ → Streamer) where
  abbrev pub subscriber : ℕ → Subscriber
  subscriber id = record { id = id; streamer = made id }

  -- What the calls of a session do at the hub.
  unfoldable pub perform : Action → Hub → Hub
  unfolding Hub.subscribe Hub.unsubscribe
  perform (send response) h = h
  perform (connect id ip port answered) h = h
  perform (subscribe id answered) h = (Hub.subscribe answered (some (subscriber id)) h).0
  perform (unsubscribe id) h = Hub.unsubscribe id h

  unfoldable pub perform_all : List Action → Hub → Hub
  unfolding perform
  perform_all [] h = h
  perform_all (a ∷ rest) h = perform_all rest (perform a h)

  -- `drop_client`, and the erasure; an unknown descriptor is left alone.
  unfoldable pub drop_client : ℕ → System → System
  unfolding find_client erase dropped perform_all
  drop_client fd sys = elim (find_client fd sys.clients) [
    | none ↦ sys
    | some s ↦ record sys { clients = erase fd sys.clients; hub = perform_all (dropped s) sys.hub }
  ]

  -- Behind `feed`: the session in its new state, what it has done, and the drop on `false`.
  unfoldable pub after_feed : ℕ → Fed → System → System
  unfolding store drop_client perform_all
  after_feed fd f sys =
      let fed = record sys {
        clients = store fd f.session sys.clients;
        hub = perform_all f.actions sys.hub;
      } in
      elim f.ending [
        | keeps_open ↦ fed
        | closes ↦ drop_client fd fed
        | throws ↦ record fed { alive = false }
        | endless ↦ record fed { alive = false }
      ]

  -- The body of the loop over the events. `scan` is the order of the header maps; the answers are
  -- those to the requests of this event.
  unfoldable pub on_event : (Headers → Headers) → (ℕ → Answers) → Event → System → System
  unfolding emplace drop_client after_feed feed
  on_event scan world (accepted fd ip true) sys = record sys {
    clients = emplace fd (make_session ip true) sys.clients;
  }
  on_event scan world (accepted fd ip false) sys = sys
  on_event scan world not_accepted sys = sys
  on_event scan world (hung_up fd) sys = drop_client fd sys
  on_event scan world (readable fd []) sys = drop_client fd sys
  on_event scan world (readable fd (c ∷ cs)) sys = elim (find_client fd sys.clients) [
    | none ↦ sys
    | some s ↦ after_feed fd (feed scan world 0 s (c ∷ cs)) sys
  ]

  abbrev pub destroy_all : List Client → Hub → Hub
  destroy_all [] h = h
  destroy_all (c ∷ cs) h = destroy_all cs (perform_all (destroy c.session) h)

  -- `clients.clear()` behind the loop.
  unfoldable pub shut_down : System → System
  unfolding perform_all destroy
  shut_down sys = record sys { clients = []; hub = destroy_all sys.clients sys.hub }
