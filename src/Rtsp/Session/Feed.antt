-- ===== src/Rtsp/Session/Feed.antt =====
-- session.cpp, `feed`: bytes from the connection, cut into requests at the empty lines.
pub mod Ends
pub mod Walk
pub mod Answered
pub mod Runs
pub mod Chunks
pub mod Texts
pub mod Readable
pub mod Messages
pub mod Described
pub mod Requests
pub mod Announced
pub mod Refused
pub mod Joining
pub mod Playing
use veda_rtsp.Base.{
  ℕ, zero, suc, ◌+◌, ◌*◌, Bool, true, false, if◌then◌else◌, ltb, Option, none, some, List, [], ◌∷◌,
  ◌++◌, Bytes, codes, length, take, drop, find, ℤ, pos,
}
use veda_rtsp.Rtsp.Response
use veda_rtsp.Rtsp.Parser.{Headers, Outcome, parsed, refused, thrown, stuck, Request, parse_request}
use veda_rtsp.Rtsp.Session.Handlers.{
  State, init, ready, playing, closed, Session, Action, send, Answers, Reply, handle,
}

-- kMaxRxBuffer
abbrev pub max_rx_buffer : ℕ
max_rx_buffer = 64 * 1024

-- "\r\n\r\n"
abbrev pub empty_line : Bytes
empty_line = 13 ∷ 10 ∷ 13 ∷ 10 ∷ []

-- `return true`, `return false`, an exception of `parse_request`, or a loop out of fuel.
pub data End : Type 0 where
  keeps_open closes throws endless : End

-- The session, all that was done, the number of requests handled so far, and how `feed` ended.
pub record Fed : Type 0 where
  pub session : Session
  pub actions : List Action
  pub handled : ℕ
  pub ending : End

abbrev pub after : List Action → Fed → Fed
after done f = record f { actions = done ++ f.actions }

abbrev pub stop_with : Session → ℕ → End → Fed
stop_with s i e = record { session = s; actions = []; handled = i; ending = e }

-- `if (!response.empty()) sending(response)`
abbrev pub deliver : Bytes → List Action
deliver [] = []
deliver (c ∷ cs) = send (c ∷ cs) ∷ []

-- The answer to a request that does not parse.
abbrev pub bad_request : List Action
bad_request = send (Response.error (pos 0) (pos 400) (codes "Bad Request")) ∷ []

-- `buffer.erase(0, endingpos + 4)`
abbrev pub consume : ℕ → Session → Session
consume at s = record s { rx_buffer = drop (at + 4) s.rx_buffer }

abbrev pub is_closed : State → Bool
is_closed closed = true
is_closed _ = false

abbrev pub done_by : Reply → List Action
done_by r = r.actions ++ deliver r.response

-- `scan` is the order of the header maps, and `world i` answers the i-th request of the connection.
module _ (scan : Headers → Headers) (world : ℕ → Answers) where
  -- Behind `handle`: stop when the session is closed.
  unfoldable pub after_reply : (Session → Fed) → ℕ → Reply → Fed
  after_reply again i r = after (done_by r) (elim (is_closed r.session.state) [
    | true ↦ stop_with r.session (suc i) closes
    | false ↦ again r.session
  ])

  -- One request that has been cut off the buffer.
  unfoldable pub process : (Session → Fed) → ℕ → Session → Outcome → Fed
  unfolding after_reply
  process again i s (parsed req) = after_reply again i (handle scan (world i) s req)
  process again i s refused = after bad_request (again s)
  process again i s thrown = stop_with s i throws
  process again i s stuck = stop_with s i endless

  -- `for (;;)`
  unfoldable pub feed_loop : ℕ → ℕ → Session → Fed
  feed_loop zero i s = stop_with s i endless
  feed_loop (suc fuel) i s = elim (find empty_line s.rx_buffer) [
    | none ↦ stop_with s i keeps_open
    | some at ↦
        process (feed_loop fuel (suc i)) i (consume at s)
          (parse_request scan (take (at + 4) s.rx_buffer))
  ]

  -- Each round takes four bytes at least from the buffer.
  unfoldable pub feed : ℕ → Session → Bytes → Fed
  feed i s received =
      let grown = s.rx_buffer ++ received in
      let s' = record s { rx_buffer = grown } in
      if ltb max_rx_buffer (length grown)
      then stop_with s' i closes
      else feed_loop (suc (length grown)) i s'
