-- ===== src/Media/Hub/Pump/Streams.antt =====
-- From the file to the receivers.
use veda_rtsp.Base.{ℕ, ◌≡◌, ◌∙◌, refl, Bool, true, some, List, [], ◌∷◌, ◌++◌, Bytes, All, arith}
use veda_rtsp.Rtp.H264Fua.Reassembly.{IsNalHeader}
use veda_rtsp.Rtp.Streamer.{Streamer}
use veda_rtsp.Rtp.Streamer.Delivery.{Delivered}
use veda_rtsp.Media.Hub.{Subscriber, Hub, on_nal, cache_parameter_set}
use veda_rtsp.Media.Hub.Broadcast.{Served, nobody, next, IsLive, clock, on_nal-Served, on_nal_keeps}
use veda_rtsp.Media.Hub.Pump.{on_nals}

-- A NAL unit that can be sent: not one of type 28, which RFC 6184 keeps for FU-A.
abbrev pub IsSendable : Bytes → Type 0
IsSendable [] = ⊥
IsSendable (header ∷ payload) = IsNalHeader header

-- NAL units in a row, each of them served to every subscriber.
pub data Streamed (increment : ℕ)
    : List Subscriber → List Bytes → List Subscriber → List (List (ℕ × List Bytes)) → Type 0 where
  silent : {ms : List Subscriber} → Streamed increment ms [] ms []
  then_nal :
      {ms ms' ms'' : List Subscriber} {header : ℕ} {payload : Bytes} {nals : List Bytes}
      {sent : List (ℕ × List Bytes)} {later : List (List (ℕ × List Bytes))}
      → Served header payload increment ms ms' sent
      → Streamed increment ms' nals ms'' later
      → Streamed increment ms ((header ∷ payload) ∷ nals) ms'' (sent ∷ later)

Streamed-append :
    {increment : ℕ} {ms ms' ms'' : List Subscriber} {nals more : List Bytes}
    {sent later : List (List (ℕ × List Bytes))}
    → Streamed increment ms nals ms' sent
    → Streamed increment ms' more ms'' later
    → Streamed increment ms (nals ++ more) ms'' (sent ++ later)
Streamed-append silent v = v
Streamed-append (then_nal served rest) v = then_nal served (Streamed-append rest v)

-- A subscriber that has been served can be served again.
clock-IsLive :
    (header increment : ℕ) (nal : Bytes) (m : Subscriber) (r : Streamer × List Bytes × Bool)
    → IsLive m
    → Delivered m.streamer nal r
    → IsLive (record m { streamer = clock header increment r.0 })
clock-IsLive header increment nal m r live d = rw d.after (record {
  session = record {
    payload_type_fits = live.session.payload_type_fits;
    sequence_fits = omega arith;
    timestamp_fits = ground (arith, live.session.timestamp_fits);
    ssrc_fits = live.session.ssrc_fits;
  };
  connected = live.connected;
})

pub Served-IsLive :
    {header increment : ℕ} {payload : Bytes} {ms ms' : List Subscriber}
    {sent : List (ℕ × List Bytes)}
    → Served header payload increment ms ms' sent
    → All IsLive ms
    → All IsLive ms'
Served-IsLive nobody live = tt
Served-IsLive {header} {increment} {payload} (next {m = m} r d rest) live =
    (clock-IsLive header increment (header ∷ payload) m r live.0 d, Served-IsLive rest live.1)

on_nal_increment :
    (sends : ℕ → ℕ → Bool) (nal : Bytes) (h h' : Hub) (sent : List (ℕ × List Bytes))
    → on_nal sends nal h ≡ some (h', sent)
    → h'.ts_increment ≡ h.ts_increment
unfolding on_nal cache_parameter_set
on_nal_increment sends [] h h' sent e = ground arith
on_nal_increment sends (c ∷ cs) h h' sent e = ground arith

-- A hub that has given some NAL units to all its subscribers and can go on.
pub record Gives (h : Hub) (nals : List Bytes) (h' : Hub) (sent : List (List (ℕ × List Bytes)))
    : Type 0 where
  pub streamed : Streamed h.ts_increment h.subscribers nals h'.subscribers sent
  pub live : All IsLive h'.subscribers
  pub running : h'.running ≡ h.running
  pub increment : h'.ts_increment ≡ h.ts_increment

pub Gives-append :
    {h h1 h2 : Hub} {nals more : List Bytes} {sent later : List (List (ℕ × List Bytes))}
    → Gives h nals h1 sent
    → Gives h1 more h2 later
    → Gives h (nals ++ more) h2 (sent ++ later)
Gives-append g g' = record {
  streamed = Streamed-append g.streamed (rw g.increment at g'.streamed);
  live = g'.live;
  running = g'.running ∙ g.running;
  increment = g'.increment ∙ g.increment;
}

module _ (sends : ℕ → ℕ → Bool) (all : (id i : ℕ) → sends id i ≡ true) where
  pub on_nals-Gives :
      (nals : List Bytes) (h : Hub)
      → All IsSendable nals
      → All IsLive h.subscribers
      → (h' : Hub) × (sent : List (List (ℕ × List Bytes))) × (on_nals sends nals h
          ≡ some (h', sent))
        × Gives h nals h' sent
  unfolding on_nals
  on_nals-Gives [] h form live =
      (h, [], refl, record { streamed = silent; live = live; running = refl; increment = refl })
  on_nals-Gives ([] ∷ nals) h form live = absurd form.0
  on_nals-Gives ((header ∷ payload) ∷ nals) h form live =
      let (h1, sent, runs, served) = on_nal-Served sends all header payload form.0 h live in
      let (h', later, go_on, rest) = on_nals-Gives nals h1 form.1 (Served-IsLive served live) in
      let same = on_nal_increment sends (header ∷ payload) h h1 sent runs in
      (
        h',
        sent ∷ later,
        rw (runs, go_on) refl,
        record {
          streamed = then_nal served (rw same at rest.streamed);
          live = rest.live;
          running = rest.running ∙ (on_nal_keeps sends (header ∷ payload) h h1 sent runs).1;
          increment = rest.increment ∙ same;
        },
      )
