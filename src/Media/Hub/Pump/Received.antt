-- ===== src/Media/Hub/Pump/Received.antt =====
-- src/media/hub.cpp, `pump`: what a client gets of a stream, when it takes the packets that are sent to it, one after the other.
use veda_rtsp.Base.{
  ℕ, ◌≡◌, ◌∙◌, ap, refl, Bool, true, false, some, List, [], ◌∷◌, ◌++◌, append-nil, Bytes, All,
  arith, ◌==◌, ◌||◌, if◌then◌else◌,
}
use veda_rtsp.Rtp.Streamer.Receive.{received, received-Delivered}
use veda_rtsp.Media.Hub.{Subscriber, Hub}
use veda_rtsp.Media.Hub.Broadcast.{Served, nobody, next, IsLive}
use veda_rtsp.Media.AnnexB.{Stream}
use veda_rtsp.Media.AnnexB.Chunks.{concat}
use veda_rtsp.Media.AnnexB.Units.{NalUnit, IsNalUnit, annexb}
use veda_rtsp.Media.FileSource.{FileSource}
use veda_rtsp.Media.FileSource.Laws.{file_source}
use veda_rtsp.Media.FileSource.Repeat.{IsAt, looped}
use veda_rtsp.Media.Hub.Pump.{Pumped, pump, on_nals}
use veda_rtsp.Media.Hub.Pump.Repeats.{AllSendable, pump_repeats}
use veda_rtsp.Media.Hub.Pump.Streams.{
  IsSendable, Streamed, silent, then_nal, Served-IsLive, on_nals-Gives,
}

-- The packets of one NAL unit that go to a client, and those of many.
abbrev pub sent_to : ℕ → List (ℕ × List Bytes) → List Bytes
sent_to id [] = []
sent_to id ((other, packets) ∷ rest) =
    if other == id then packets ++ sent_to id rest else sent_to id rest

abbrev pub all_to : ℕ → List (List (ℕ × List Bytes)) → List Bytes
all_to id [] = []
all_to id (sent ∷ later) = sent_to id sent ++ all_to id later

abbrev pub has : ℕ → List Subscriber → Bool
has id [] = false
has id (m ∷ ms) = m.id == id || has id ms

-- No streamer is at the hub twice.
abbrev pub Distinct : List Subscriber → Type 0
Distinct [] = Unit {0}
Distinct (m ∷ ms) = (has m.id ms ≡ false) × Distinct ms

-- Every client receives exactly the NAL units that are for it.
abbrev pub ReceivesBy : (ℕ → List Bytes) → List (List (ℕ × List Bytes)) → List Subscriber → Type 0
ReceivesBy nals sent = All (λ m. received m.streamer.sequence (all_to m.id sent) ≡ some (nals m.id))

-- Every client receives exactly these NAL units.
abbrev pub EachReceives : List Bytes → List (List (ℕ × List Bytes)) → List Subscriber → Type 0
EachReceives nals = ReceivesBy (λ id. nals)

-- What is sent to somebody else does not count.
module _ (id : ℕ) (packets : List Bytes) (sent : List (ℕ × List Bytes))
    (Q : Subscriber → List Bytes → Type 0) where
  for_the_others :
      (ms : List Subscriber)
      → has id ms ≡ false
      → All (λ m. Q m (sent_to m.id sent)) ms
      → All (λ m. Q m (sent_to m.id ((id, packets) ∷ sent))) ms
  for_the_others [] h v = tt
  for_the_others (m ∷ ms) h v =
      let other : (id == m.id) ≡ false = ground arith in
      (rw other v.0, for_the_others ms (ground arith) v.1)

module _ {header increment : ℕ} {payload : Bytes} where
  pub Served-has :
      {ms ms' : List Subscriber} {sent : List (ℕ × List Bytes)} (id : ℕ)
      → Served header payload increment ms ms' sent
      → has id ms' ≡ has id ms
  Served-has id nobody = refl
  Served-has id (next {m = m} r d rest) = ap (◌||◌ (m.id == id)) (Served-has id rest)

  pub Served-Distinct :
      {ms ms' : List Subscriber} {sent : List (ℕ × List Bytes)}
      → Served header payload increment ms ms' sent
      → Distinct ms
      → Distinct ms'
  Served-Distinct nobody h = tt
  Served-Distinct (next {m = m} r d rest) h =
      (rw (Served-has m.id rest) h.0, Served-Distinct rest h.1)

  pub Served-other :
      {ms ms' : List Subscriber} {sent : List (ℕ × List Bytes)} (id : ℕ)
      → Served header payload increment ms ms' sent
      → has id ms ≡ false
      → sent_to id sent ≡ []
  Served-other id nobody h = refl
  Served-other id (next {m = m} r d rest) h = ground (arith, Served-other id rest)

  Served-ReceivesBy :
      {ms ms' : List Subscriber} {sent : List (ℕ × List Bytes)} (nals : ℕ → List Bytes)
      (later : List (List (ℕ × List Bytes)))
      → Served header payload increment ms ms' sent
      → All IsLive ms
      → Distinct ms
      → ReceivesBy nals later ms'
      → All
          (λ m.
            received m.streamer.sequence (sent_to m.id sent ++ all_to m.id later)
            ≡ some ((header ∷ payload) ∷ nals m.id))
          ms
  Served-ReceivesBy nals later nobody live h v = tt
  Served-ReceivesBy nals later (next {m = m} {ms = ms} {sent = sent} r d rest) live h v = (
    (let itself : (m.id == m.id) ≡ true = ground arith in
        rw (itself, Served-other m.id rest h.0, append-nil r.1)
          (received-Delivered m.streamer (header ∷ payload) r (all_to m.id later) live.0.session d
            ∙ rw v.0 refl)),
    for_the_others m.id r.1 sent
        (λ k packets.
          received k.streamer.sequence (packets ++ all_to k.id later)
          ≡ some ((header ∷ payload) ∷ nals k.id))
        ms h.0 (Served-ReceivesBy nals later rest live.1 h.1 v.1),
  )

nothing_received : (ms : List Subscriber) → EachReceives [] [] ms
unfolding received
nothing_received [] = tt
nothing_received (m ∷ ms) = (refl, nothing_received ms)

-- NAL units for all, and then what each one gets later.
pub Streamed-ReceivesBy :
    {increment : ℕ} {ms ms' : List Subscriber} {nals : List Bytes}
    {sent : List (List (ℕ × List Bytes))} (more : ℕ → List Bytes)
    (later : List (List (ℕ × List Bytes)))
    → Streamed increment ms nals ms' sent
    → All IsLive ms
    → Distinct ms
    → ReceivesBy more later ms'
    → ReceivesBy (λ id. nals ++ more id) (sent ++ later) ms
Streamed-ReceivesBy more later silent live h v = v
Streamed-ReceivesBy more later (then_nal {nals = nals} {later = soon} served rest) live h v =
    Served-ReceivesBy (λ id. nals ++ more id) (soon ++ later) served live h
      (Streamed-ReceivesBy more later rest (Served-IsLive served live) (Served-Distinct served h) v)

pub Streamed-EachReceives :
    {increment : ℕ} {ms ms' : List Subscriber} {nals : List Bytes}
    {sent : List (List (ℕ × List Bytes))}
    → Streamed increment ms nals ms' sent
    → All IsLive ms
    → Distinct ms
    → EachReceives nals sent ms
Streamed-EachReceives {ms' = ms'} {nals = nals} {sent = sent} streamed live h =
    rw (append-nil nals, append-nil sent) at
      (Streamed-ReceivesBy (λ id. []) [] streamed live h (nothing_received ms'))

-- When every socket sends, NAL units that are not of type 28, given one after the other to a hub
-- whose subscribers are distinct and connected with fields that fit their widths, are received by
-- every client as exactly those NAL units in their order: its packets' sequence numbers follow one
-- another modulo 2^16 across all the NAL units, with none missing.
pub stream_received :
    (sends : ℕ → ℕ → Bool) (nals : List Bytes) (h : Hub)
    → ((id i : ℕ) → sends id i ≡ true)
    → All IsSendable nals
    → All IsLive h.subscribers
    → Distinct h.subscribers
    → (h' : Hub) × (sent : List (List (ℕ × List Bytes))) × (on_nals sends nals h ≡ some (h', sent))
      × EachReceives nals sent h.subscribers
stream_received sends nals h all form live distinct =
    let (h', sent, runs, gives) = on_nals-Gives sends all nals h form live in
    (h', sent, runs, Streamed-EachReceives gives.streamed live distinct)

module _ (sends : ℕ → ℕ → Bool) (all : (id i : ℕ) → sends id i ≡ true) (front : Stream)
    (a b : NalUnit) (more : List NalUnit) (file : concat front ≡ annexb (a ∷ b ∷ more))
    (units : All IsNalUnit (a ∷ b ∷ more)) (forms : AllSendable (a ∷ b ∷ more)) where
  -- On a looping file of two clean NAL units at least, none of them of type 28, a pump that runs
  -- goes on for any number of rounds from any place in the file, and every client, taking its
  -- packets in turn, receives exactly the NAL units that are left and then the file's NAL units
  -- over and over, when the subscribers are distinct and connected with fields that fit their
  -- widths and every socket sends: the sequence numbers of its packets follow one another modulo
  -- 2^16, with none missing.
  pub file_received :
      (n : ℕ) (u : NalUnit) (left : List NalUnit) (s : FileSource) (h : Hub)
      → h.running ≡ true
      → All IsLive h.subscribers
      → Distinct h.subscribers
      → All IsNalUnit (u ∷ left)
      → AllSendable (u ∷ left)
      → IsAt (u ∷ left) s
      → (p : Pumped FileSource) × (pump sends file_source front n s h ≡ some p)
        × (p.ended ≡ false)
        × EachReceives (looped a b more n u left) p.sent h.subscribers
  file_received n u left s h on live distinct clean form v =
      let (p, runs, goes) =
        pump_repeats sends all front a b more file units forms n u left s h on live clean form v in
      (p, runs, goes.on, Streamed-EachReceives goes.gives.streamed live distinct)
