-- ===== src/Media/Hub/Broadcast.antt =====
-- src/media/hub.cpp, `on_nal`: a NAL unit on its way through the hub to the clients.
use veda_rtsp.Base.{
  ℕ, ◌≡◌, ◌≢◌, refl, Bool, true, none, some, List, [], ◌∷◌, Bytes, Option-cases, map, All, arith,
  ◌+◌, ◌%◌, ◌^◌, ◌||◌, ◌==◌, if◌then◌else◌, bit_and, bit_and_mask, Bool-cases, inl, inr,
}
use veda_rtsp.Rtp.H264Fua.Reassembly.{IsNalHeader}
use veda_rtsp.Rtp.Streamer.{Streamer, advance_timestamp}
use veda_rtsp.Rtp.Streamer.Packets.{IsSession}
use veda_rtsp.Rtp.Streamer.Delivery.{Delivered, send_nal-Delivered, send_nal_total}
use veda_rtsp.Media.Hub.{
  Subscriber, Hub, next_frame, ends_frame, nal_type_of, broadcast, on_nal, cache_parameter_set,
}

-- The NAL unit types of a slice (1) and of a slice of an IDR picture (5). The hub takes each for a
-- whole frame.
abbrev pub is_slice : ℕ → Bool
is_slice header = header % 32 == 1 || header % 32 == 5

-- The 90 kHz clock of a streamer behind a NAL unit.
abbrev pub clock : ℕ → ℕ → Streamer → Streamer
clock header increment s = record s {
  timestamp = if is_slice header then (s.timestamp + increment) % 2 ^ 32 else s.timestamp;
}

next_frame_lem :
    (header increment : ℕ) (payload : Bytes) (s : Streamer)
    → next_frame (ends_frame (header ∷ payload)) increment s ≡ clock header increment s
unfolding ends_frame nal_type_of advance_timestamp
next_frame_lem header increment payload s =
    let e : bit_and header 0x1F ≡ header % 32 = bit_and_mask 5 header in
    elim (Bool-cases (is_slice header)) [
      | inl slice ↦ rw (e, slice) refl
      | inr other ↦ rw (e, other) refl
    ]

-- Every subscriber, in turn, has been sent the NAL unit as its own RTP session, and has its
-- timestamp moved on when the NAL unit is a slice.
pub data Served (header : ℕ) (payload : Bytes) (increment : ℕ)
    : List Subscriber → List Subscriber → List (ℕ × List Bytes) → Type 0 where
  nobody : Served header payload increment [] [] []
  next :
      {m : Subscriber} {ms ms' : List Subscriber} {sent : List (ℕ × List Bytes)}
      (r : Streamer × List Bytes × Bool)
      → Delivered m.streamer (header ∷ payload) r
      → Served header payload increment ms ms' sent
      → Served header payload increment
          (m ∷ ms)
          (record m { streamer = clock header increment r.0 } ∷ ms')
          ((m.id, r.1) ∷ sent)

-- A subscriber that can be served: an RTP session on a connected socket.
pub record IsLive (m : Subscriber) : Type 0 where
  pub session : IsSession m.streamer
  pub connected : m.streamer.connected ≡ true

module _ (sends : ℕ → ℕ → Bool) (all : (id i : ℕ) → sends id i ≡ true) (header : ℕ)
    (payload : Bytes) (form : IsNalHeader header) where
  broadcast-Served :
      (increment : ℕ) (ms : List Subscriber)
      → All IsLive ms
      → (ms' : List Subscriber) × (sent : List (ℕ × List Bytes)) × (broadcast sends increment
            (header ∷ payload)
            ms
          ≡ some (ms', sent))
        × Served header payload increment ms ms' sent
  unfolding broadcast
  broadcast-Served increment [] live = ([], [], refl, nobody)
  broadcast-Served increment (m ∷ ms) live =
      let (r, returns, delivered) =
        send_nal-Delivered (sends m.id) m.streamer header payload (all m.id) live.0.session
          live.0.connected form in
      let (ms', sent, rest, served) = broadcast-Served increment ms live.1 in
      (
        record m { streamer = clock header increment r.0 } ∷ ms',
        (m.id, r.1) ∷ sent,
        rw (returns, rest, next_frame_lem header increment payload r.0) refl,
        next r delivered served,
      )

  -- A NAL unit given to the hub, whose header byte has a type other than 28, reaches every
  -- subscriber in the order of subscription when each one is connected with fields that fit their
  -- widths and every socket sends: each one's packets carry the whole NAL unit in its own
  -- numbering, and its timestamp moves on exactly when the NAL unit is of type 1 or 5, the types
  -- of a slice: each slice is taken for a whole frame.
  pub on_nal-Served :
      (h : Hub)
      → All IsLive h.subscribers
      → (h' : Hub) × (sent : List (ℕ × List Bytes)) × (on_nal sends (header ∷ payload) h
          ≡ some (h', sent))
        × Served header payload h.ts_increment h.subscribers h'.subscribers sent
  unfolding on_nal
  on_nal-Served h live =
      let (ms', sent, runs, served) = broadcast-Served h.ts_increment h.subscribers live in
      (
        record (cache_parameter_set (header ∷ payload) h) { subscribers = ms' },
        sent,
        rw runs refl,
        served,
      )

broadcast_total :
    (sends : ℕ → ℕ → Bool) (increment : ℕ) (nal : Bytes) (ms : List Subscriber)
    → broadcast sends increment nal ms ≢ none
unfolding broadcast
broadcast_total sends increment nal [] = λ e. cc
broadcast_total sends increment nal (m ∷ ms) =
    let (r, returns) = send_nal_total (sends m.id) m.streamer nal in
    ground (arith, returns, broadcast_total sends increment nal ms)

-- The broadcast of a NAL unit ends, on every hub and whatever the sockets answer.
pub on_nal_total : (sends : ℕ → ℕ → Bool) (nal : Bytes) (h : Hub) → on_nal sends nal h ≢ none
unfolding on_nal
on_nal_total sends [] h = λ e. cc
on_nal_total sends (c ∷ cs) h =
    ground (arith, broadcast_total sends h.ts_increment (c ∷ cs) h.subscribers)

broadcast_ids :
    (sends : ℕ → ℕ → Bool) (increment : ℕ) (nal : Bytes) (ms ms' : List Subscriber)
    (sent : List (ℕ × List Bytes))
    → broadcast sends increment nal ms ≡ some (ms', sent)
    → map (λ (m : Subscriber). m.id) ms' ≡ map (λ (m : Subscriber). m.id) ms
unfolding broadcast
broadcast_ids sends increment nal [] ms' sent e = ground arith
broadcast_ids sends increment nal (m ∷ ms) ms' sent e =
    let (r, returns) = send_nal_total (sends m.id) m.streamer nal in
    elim (Option-cases (broadcast sends increment nal ms)) [
      | inl nothing ↦ absurd (broadcast_total sends increment nal ms nothing)
      | inr ((rest, others), runs) ↦
          ground (arith, returns, runs, broadcast_ids sends increment nal ms rest others runs)
    ]

-- A broadcast changes neither who is at the hub nor whether the source runs.
pub on_nal_keeps :
    (sends : ℕ → ℕ → Bool) (nal : Bytes) (h h' : Hub) (sent : List (ℕ × List Bytes))
    → on_nal sends nal h ≡ some (h', sent)
    → (map (λ (m : Subscriber). m.id) h'.subscribers ≡ map (λ (m : Subscriber). m.id) h.subscribers)
      × (h'.running ≡ h.running)
unfolding on_nal cache_parameter_set
on_nal_keeps sends [] h h' sent e = ground arith
on_nal_keeps sends (c ∷ cs) h h' sent e =
    elim (Option-cases (broadcast sends h.ts_increment (c ∷ cs) h.subscribers)) [
      | inl nothing ↦ absurd (broadcast_total sends h.ts_increment (c ∷ cs) h.subscribers nothing)
      | inr ((rest, others), runs) ↦
          ground (
            arith,
            runs,
            broadcast_ids sends h.ts_increment (c ∷ cs) h.subscribers rest others runs,
          )
    ]
