-- ===== src/Rtsp/Session/Handlers/Subscription.antt =====
-- The subscriptions at the hub against the streamer that the session holds.
use veda_rtsp.Base.{
  ℕ, ◌≤◌, count, ◌≡◌, refl, true, false, if◌then◌else◌, ◌==◌, Option, none, some, List, [], ◌∷◌,
  ◌++◌, arith,
}
use veda_rtsp.Rtsp.Parser.{Headers, Method, Request}
use veda_rtsp.Rtsp.Session.Handlers.{
  Session, Action, send, connect, subscribe, unsubscribe, Answers, handle, on_disconnect, dispatch,
  method_allowed,
}
use veda_rtsp.Rtsp.Session.Handlers.Machine.{IsSound, handle_cases}

-- `std::remove` of every entry that is the streamer.
unfoldable pub without : ℕ → List ℕ → List ℕ
without id [] = []
without id (x ∷ xs) = if x == id then without id xs else x ∷ without id xs

-- The hub's view of one session: the streamers it has been given and not yet been asked to drop.
unfoldable pub subscribed : List ℕ → List Action → List ℕ
unfolding without
subscribed ids [] = ids
subscribed ids (subscribe id true ∷ rest) = subscribed (id ∷ ids) rest
subscribed ids (unsubscribe id ∷ rest) = subscribed (without id ids) rest
subscribed ids (_ ∷ rest) = subscribed ids rest

abbrev pub ids_of : Option ℕ → List ℕ
ids_of none = []
ids_of (some id) = id ∷ []

abbrev pub held : Session → List ℕ
held s = ids_of s.streamer

-- The hub is only ever asked to drop a streamer that it has been given.
unfoldable pub IsProper : List ℕ → List Action → Type 0
unfolding without
IsProper ids [] = Unit
IsProper ids (subscribe id true ∷ rest) = IsProper (id ∷ ids) rest
IsProper ids (unsubscribe id ∷ rest) = (1 ≤ count id ids) × IsProper (without id ids) rest
IsProper ids (_ ∷ rest) = IsProper ids rest

pub IsProper-append :
    (xs ys : List Action) (ids : List ℕ)
    → IsProper ids xs
    → IsProper (subscribed ids xs) ys
    → IsProper ids (xs ++ ys)
unfolding IsProper subscribed
IsProper-append [] ys ids h k = k
IsProper-append (subscribe id true ∷ xs) ys ids h k = IsProper-append xs ys (id ∷ ids) h k
IsProper-append (subscribe id false ∷ xs) ys ids h k = IsProper-append xs ys ids h k
IsProper-append (unsubscribe id ∷ xs) ys ids h k =
    (h.0, IsProper-append xs ys (without id ids) h.1 k)
IsProper-append (send r ∷ xs) ys ids h k = IsProper-append xs ys ids h k
IsProper-append (connect i ip port b ∷ xs) ys ids h k = IsProper-append xs ys ids h k

module _ (scan : Headers → Headers) (w : Answers) where
  dispatch-IsProper :
      (m : Method) (s : Session) (req : Request)
      → method_allowed s.state m ≡ true
      → IsSound s
      → IsProper (held s) (dispatch scan m w s req).actions
  unfolding dispatch method_allowed IsProper
  dispatch-IsProper Method.setup s req ok v = ground arith
  dispatch-IsProper _ s req ok v = ground arith

  pub handle-IsProper :
      (s : Session) (req : Request) → IsSound s → IsProper (held s) (handle scan w s req).actions
  handle-IsProper s req v =
      handle_cases scan w (λ r. IsProper (held s) r.actions) s req
        (λ response. unfold IsProper in tt) (λ ok. dispatch-IsProper req.method s req ok v)

  dispatch-subscribed :
      (m : Method) (s : Session) (req : Request)
      → method_allowed s.state m ≡ true
      → IsSound s
      → subscribed (held s) (dispatch scan m w s req).actions
        ≡ held (dispatch scan m w s req).session
  unfolding dispatch method_allowed subscribed
  dispatch-subscribed Method.setup s req ok v = ground arith
  dispatch-subscribed _ s req ok v = ground arith

  pub handle-subscribed :
      (s : Session) (req : Request)
      → IsSound s
      → subscribed (held s) (handle scan w s req).actions ≡ held (handle scan w s req).session
  handle-subscribed s req v =
      handle_cases scan w (λ r. subscribed (held s) r.actions ≡ held r.session) s req
        (λ response. unfold subscribed in refl) (λ ok. dispatch-subscribed req.method s req ok v)

-- A disconnect, with no TEARDOWN before it, leaves no streamer of the session at the hub.
pub on_disconnect-subscribed :
    (s : Session) → IsSound s → subscribed (held s) (on_disconnect s).1 ≡ []
unfolding on_disconnect subscribed
on_disconnect-subscribed s v = ground arith

pub subscribed-append :
    (xs ys : List Action) (ids : List ℕ)
    → subscribed ids (xs ++ ys) ≡ subscribed (subscribed ids xs) ys
unfolding subscribed
subscribed-append [] ys ids = refl
subscribed-append (subscribe id true ∷ xs) ys ids = subscribed-append xs ys (id ∷ ids)
subscribed-append (subscribe id false ∷ xs) ys ids = subscribed-append xs ys ids
subscribed-append (unsubscribe id ∷ xs) ys ids = subscribed-append xs ys (without id ids)
subscribed-append (send r ∷ xs) ys ids = subscribed-append xs ys ids
subscribed-append (connect i ip port b ∷ xs) ys ids = subscribed-append xs ys ids
