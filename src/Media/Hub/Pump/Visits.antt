-- ===== src/Media/Hub/Pump/Visits.antt =====
-- src/media/hub.cpp: a client that comes to a stream and leaves it, and those who stay.
use veda_rtsp.Base.{
  ℕ, ◌≡◌, ◌∙◌, refl, Bool, true, false, Bool-cases, inl, inr, some, List, [], ◌∷◌, ◌++◌, append-nil,
  Bytes, All, All-append, arith, ◌==◌, ◌||◌, if◌then◌else◌,
}
use veda_rtsp.Rtp.Streamer.Receive.{received}
use veda_rtsp.Media.Hub.{Subscriber, Hub, subscribe, unsubscribe, without}
use veda_rtsp.Media.Hub.Broadcast.{IsLive}
use veda_rtsp.Media.Hub.Pump.{on_nals}
use veda_rtsp.Media.Hub.Pump.Streams.{IsSendable, Streamed, silent, then_nal, on_nals-Gives}
use veda_rtsp.Media.Hub.Pump.Received.{
  all_to, has, Distinct, ReceivesBy, EachReceives, Served-has, Served-Distinct, Served-other,
  Streamed-ReceivesBy, Streamed-EachReceives,
}

module _ {increment : ℕ} where
  Streamed-Distinct :
      {ms ms' : List Subscriber} {nals : List Bytes} {sent : List (List (ℕ × List Bytes))}
      → Streamed increment ms nals ms' sent
      → Distinct ms
      → Distinct ms'
  Streamed-Distinct silent h = h
  Streamed-Distinct (then_nal served rest) h = Streamed-Distinct rest (Served-Distinct served h)

  -- Who is not at the hub is sent nothing.
  Streamed-other :
      {ms ms' : List Subscriber} {nals : List Bytes} {sent : List (List (ℕ × List Bytes))} (id : ℕ)
      → Streamed increment ms nals ms' sent
      → has id ms ≡ false
      → all_to id sent ≡ []
  Streamed-other id silent h = refl
  Streamed-other id (then_nal served rest) h =
      rw (Served-other id served h) (Streamed-other id rest (Served-has id served ∙ h))

has-without : (id : ℕ) (ms : List Subscriber) → has id (without id ms) ≡ false
unfolding without
has-without id [] = refl
has-without id (m ∷ ms) = ground (arith, has-without id ms)

without-has :
    (id other : ℕ) (ms : List Subscriber) → has other ms ≡ false → has other (without id ms) ≡ false
unfolding without
without-has id other [] h = refl
without-has id other (m ∷ ms) h = ground (arith, without-has id other ms)

without-Distinct : (id : ℕ) (ms : List Subscriber) → Distinct ms → Distinct (without id ms)
unfolding without
without-Distinct id [] h = tt
without-Distinct id (m ∷ ms) h = elim (Bool-cases (m.id == id)) [
  | inl is ↦ rw is (without-Distinct id ms h.1)
  | inr other ↦ rw other (without-has id m.id ms h.0, without-Distinct id ms h.1)
]

without-IsLive : (id : ℕ) (ms : List Subscriber) → All IsLive ms → All IsLive (without id ms)
unfolding without
without-IsLive id [] h = tt
without-IsLive id (m ∷ ms) h = elim (Bool-cases (m.id == id)) [
  | inl is ↦ rw is (without-IsLive id ms h.1)
  | inr other ↦ rw other (h.0, without-IsLive id ms h.1)
]

has-append :
    (id : ℕ) (ms : List Subscriber) (m : Subscriber)
    → has id (ms ++ m ∷ []) ≡ has id ms || (m.id == id)
has-append id [] m = ground arith
has-append id (k ∷ ms) m = ground (arith, has-append id ms m)

pub append-Distinct :
    (ms : List Subscriber) (m : Subscriber)
    → Distinct ms
    → has m.id ms ≡ false
    → Distinct (ms ++ m ∷ [])
append-Distinct [] m h fresh = (refl, tt)
append-Distinct (k ∷ ms) m h fresh =
    (ground (arith, has-append k.id ms m, h.0), append-Distinct ms m h.1 (ground arith))

-- What is for each one, when one of them has left.
abbrev left_for : ℕ → List Bytes → ℕ → List Bytes
left_for gone missed id = if id == gone then [] else missed

ReceivesBy-without :
    (gone : ℕ) (missed : List Bytes) (late : List (List (ℕ × List Bytes))) (ms : List Subscriber)
    → all_to gone late ≡ []
    → EachReceives missed late (without gone ms)
    → ReceivesBy (left_for gone missed) late ms
unfolding without received
ReceivesBy-without gone missed late [] none_sent v = tt
ReceivesBy-without gone missed late (m ∷ ms) none_sent v = elim (Bool-cases (m.id == gone)) [
  | inl is ↦
      let same : m.id ≡ gone = ground arith in
      (rw (is, same, none_sent) refl, ReceivesBy-without gone missed late ms none_sent (rw is at v))
  | inr other ↦
      let both = rw other at v in
      (rw other both.0, ReceivesBy-without gone missed late ms none_sent both.1)
]

-- Among clients with other names, the visitor last.
pub others_and_visitor :
    (f : ℕ → List Bytes) (missed : List Bytes) (sent : List (List (ℕ × List Bytes)))
    (ms : List Subscriber) (m : Subscriber)
    → has m.id ms ≡ false
    → ((id : ℕ) → (id == m.id) ≡ false → f id ≡ missed)
    → ReceivesBy f sent (ms ++ m ∷ [])
    → EachReceives missed sent ms
      × (received m.streamer.sequence (all_to m.id sent) ≡ some (f m.id))
others_and_visitor f missed sent [] m fresh same v = (tt, v.0)
others_and_visitor f missed sent (k ∷ ms) m fresh same v =
    let (others, visitor) = others_and_visitor f missed sent ms m (ground arith) same v.1 in
    ((rw (same k.id (ground arith)) at v.0, others), visitor)

module _ (sends : ℕ → ℕ → Bool) (all : (id i : ℕ) → sends id i ≡ true) (starts : Bool)
    (m : Subscriber) (h : Hub) (seen missed : List Bytes) where
  -- A client that subscribes to a hub whose source runs or starts, sees some NAL units and
  -- unsubscribes is sent exactly these, in its own unbroken sequence of packets, and nothing of
  -- the NAL units that come later, while everyone who stays receives both, in their order and
  -- without a gap, when the streamers are distinct and this one is new among them, every streamer
  -- is connected with fields that fit their widths, no NAL unit is of type 28 and every socket
  -- sends.
  pub visitor_receives :
      (h.running || starts) ≡ true
      → All IsLive h.subscribers
      → Distinct h.subscribers
      → IsLive m
      → has m.id h.subscribers ≡ false
      → All IsSendable seen
      → All IsSendable missed
      → ((subscribe starts (some m) h).1 ≡ true)
        × (h2 h3 : Hub) × (early late : List (List (ℕ × List Bytes))) × (on_nals sends seen
              (subscribe starts (some m) h).0
            ≡ some (h2, early))
        × (on_nals sends missed (unsubscribe m.id h2) ≡ some (h3, late))
        × (received m.streamer.sequence (all_to m.id (early ++ late)) ≡ some seen)
        × EachReceives (seen ++ missed) (early ++ late) h.subscribers
  unfolding subscribe unsubscribe
  visitor_receives on live distinct m_live fresh form form' =
      let came : Hub = record h { subscribers = h.subscribers ++ m ∷ []; running = true } in
      let all_live : All IsLive came.subscribers =
        All-append IsLive h.subscribers (m ∷ []) live (m_live, tt) in
      let all_distinct : Distinct came.subscribers =
        append-Distinct h.subscribers m distinct fresh in
      let (h2, early, runs, gives) = on_nals-Gives sends all seen came form all_live in
      let left : List Subscriber = without m.id h2.subscribers in
      let left_distinct : Distinct left =
        without-Distinct m.id h2.subscribers (Streamed-Distinct gives.streamed all_distinct) in
      let left_live : All IsLive left = without-IsLive m.id h2.subscribers gives.live in
      let (h3, late, goes_on, later) =
        on_nals-Gives sends all missed (unsubscribe m.id h2) form' left_live in
      let nothing : all_to m.id late ≡ [] =
        Streamed-other m.id later.streamed (has-without m.id h2.subscribers) in
      let for_each : ℕ → List Bytes = λ id. seen ++ left_for m.id missed id in
      let by =
        Streamed-ReceivesBy (left_for m.id missed) late gives.streamed all_live all_distinct (
          ReceivesBy-without m.id missed late h2.subscribers nothing
            (Streamed-EachReceives later.streamed left_live left_distinct)) in
      let (others, visitor) =
        others_and_visitor for_each (seen ++ missed) (early ++ late) h.subscribers m fresh
          (λ id e. rw e refl) by in
      let itself : (m.id == m.id) ≡ true = ground arith in
      (
        rw on refl,
        h2,
        h3,
        early,
        late,
        rw on runs,
        goes_on,
        rw (itself, append-nil seen) at visitor,
        others,
      )
