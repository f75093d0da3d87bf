-- ===== src/Rtsp/Session/Handlers/Machine.antt =====
-- The session as a state machine: the transitions that the handlers make, and the invariant.
use veda_rtsp.Base.{
  ℕ, ◌≡◌, ◌≢◌, refl, Bool, true, Option, none, [], Bytes, arith, Bool-cases, inl, inr, ◌↔◌, ◌⊎◌,
}
use veda_rtsp.Rtsp.Parser.{Headers, Method, Request}
use veda_rtsp.Rtsp.Session.Transport.{generate_session_id}
use veda_rtsp.Rtsp.Session.Handlers.{
  State, init, ready, playing, closed, Session, make_session, Answers, Reply, handle, on_disconnect,
  session_header_matches, handle_play, dispatch, method_allowed, answer, is_unknown,
}

-- The transitions of docs/state-machine.md that change the state.
abbrev pub Moves : Method → State → State → Type 0
Moves Method.setup a b = (a ≡ init) × (b ≡ ready)
Moves Method.play a b = (a ≡ ready) × (b ≡ playing)
Moves Method.pause a b = (a ≡ playing) × (b ≡ ready)
Moves Method.teardown a b = ((a ≡ ready) ⊎ (a ≡ playing)) × (b ≡ closed)
Moves _ a b = ⊥

abbrev pub Transition : Method → State → State → Type 0
Transition m a b = (b ≡ a) ⊎ Moves m a b

-- PLAYING holds a streamer, no other state does; INIT has no session id, READY and PLAYING have
-- one; only a session with a hub plays.
abbrev Holds : State → Bytes → Option ℕ → Bool → Type 0
Holds init id streamer hub = (id ≡ []) × (streamer ≡ none)
Holds ready id streamer hub = (id ≢ []) × (streamer ≡ none)
Holds playing id streamer hub = (id ≢ []) × (streamer ≢ none) × (hub ≡ true)
Holds closed id streamer hub = streamer ≡ none

abbrev pub IsSound : Session → Type 0
IsSound s = Holds s.state s.session_id s.streamer s.has_hub

generate_session_id-ne-nil : (n : ℕ) → generate_session_id n ≢ []
unfolding generate_session_id
generate_session_id-ne-nil n e = cc

pub make_session-IsSound : (ip : Bytes) (hub : Bool) → IsSound (make_session ip hub)
unfolding make_session
make_session-IsSound ip hub = (refl, refl)

module _ (scan : Headers → Headers) (w : Answers) where
  dispatch-IsSound :
      (m : Method) (s : Session) (req : Request)
      → method_allowed s.state m ≡ true
      → IsSound s
      → IsSound (dispatch scan m w s req).session
  unfolding dispatch method_allowed
  dispatch-IsSound Method.setup s req ok v = ground (arith, generate_session_id-ne-nil w.draw)
  dispatch-IsSound _ s req ok v = ground arith

  -- A request is refused with the session as it was, or it is allowed and dispatched.
  pub handle_cases {ℓ} :
      (P : Reply → Type ℓ) (s : Session) (req : Request)
      → ((response : Bytes) → P (answer s response))
      → (method_allowed s.state req.method ≡ true → P (dispatch scan req.method w s req))
      → P (handle scan w s req)
  unfolding handle
  handle_cases P s req refused allowed = elim (Bool-cases (is_unknown scan req.method)) [
    | inl unknown ↦ rw unknown (refused _)
    | inr known ↦ elim (Bool-cases (method_allowed s.state req.method)) [
      | inl ok ↦ rw (known, ok) (allowed ok)
      | inr bad ↦ rw (known, bad) (refused _)
    ]
  ]

  -- Every request keeps the session's invariant: PLAYING holds a streamer and no other state does,
  -- INIT has no session id, READY and PLAYING have one, and only a session with a hub plays.
  pub handle-IsSound :
      (s : Session) (req : Request) → IsSound s → IsSound (handle scan w s req).session
  handle-IsSound s req v =
      handle_cases (λ r. IsSound r.session) s req (λ response. v)
        (λ ok. dispatch-IsSound req.method s req ok v)

  dispatch-Transition :
      (m : Method) (s : Session) (req : Request)
      → method_allowed s.state m ≡ true
      → Transition m s.state (dispatch scan m w s req).session.state
  unfolding dispatch method_allowed
  dispatch-Transition Method.setup s req ok = ground arith
  dispatch-Transition _ s req ok = ground arith

  -- Every request makes a transition of the state diagram or leaves the state as it is.
  pub handle-Transition :
      (s : Session) (req : Request)
      → Transition req.method s.state (handle scan w s req).session.state
  handle-Transition s req =
      handle_cases (λ r. Transition req.method s.state r.session.state) s req (λ response. inl refl)
        (dispatch-Transition req.method s req)

  -- A PLAY leaves the session PLAYING exactly if it was PLAYING, or it was READY, the Session
  -- header names the session, the UDP socket connects, and there is a hub that takes the streamer.
  pub play_reaches_playing :
      (s : Session) (req : Request)
      → req.method ≡ Method.play
      → ((handle scan w s req).session.state ≡ playing) ↔ (
          (s.state ≡ playing)
          ⊎ ((s.state ≡ ready)
              × (session_header_matches scan s req ≡ true)
              × (w.connects ≡ true)
              × (s.has_hub ≡ true)
              × (w.subscribes ≡ true)))
  unfolding handle handle_play
  play_reaches_playing s req m = (ground arith, ground arith)

-- A disconnect closes the session and lets the streamer go.
pub on_disconnect-IsSound :
    (s : Session) → IsSound (on_disconnect s).0 × ((on_disconnect s).0.state ≡ closed)
unfolding on_disconnect
on_disconnect-IsSound s = ground arith
