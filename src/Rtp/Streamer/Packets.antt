-- ===== src/Rtp/Streamer/Packets.antt =====
-- The packets of one NAL: their headers, in order, and the state they leave.
use veda_rtsp.Base.{
  ℕ, suc, ◌+◌, ◌^◌, ◌≤◌, ◌<◌, ◌≡◌, refl, ap, ◌∙◌, Bool, true, false, Option, some, ◌>>=◌, List, [],
  ◌∷◌, Bytes, u16, length, arith, Bool-cases, inl, inr,
}
use veda_rtsp.Rtp.Packetizer.{Header}
use veda_rtsp.Rtp.Packetizer.Decode.{IsHeader, decode_packet, decode_packet-build_packet}
use veda_rtsp.Rtp.Streamer.{
  Streamer, make_streamer, header_for, bump, is_end, send_loop, advance_timestamp, set_ssrc,
}

-- The fields of a streamer fit the widths of the RTP header.
pub record IsSession (s : Streamer) : Type 0 where
  pub payload_type_fits : s.payload_type < 2 ^ 7
  pub sequence_fits : s.sequence < 2 ^ 16
  pub timestamp_fits : s.timestamp < 2 ^ 32
  pub ssrc_fits : s.ssrc < 2 ^ 32

pub make_streamer-IsSession : (ssrc sequence : ℕ) → IsSession (make_streamer ssrc sequence)
unfolding make_streamer
make_streamer-IsSession ssrc sequence = omega arith

pub bump-IsSession : {s : Streamer} → IsSession s → IsSession (bump s)
bump-IsSession v = omega arith

pub advance_timestamp-IsSession :
    (increment : ℕ) {s : Streamer} → IsSession s → IsSession (advance_timestamp increment s)
unfolding advance_timestamp
advance_timestamp-IsSession increment v = omega arith

-- The argument is an uint32_t.
set_ssrc-IsSession :
    (ssrc : ℕ) {s : Streamer} → ssrc < 2 ^ 32 → IsSession s → IsSession (set_ssrc ssrc s)
unfolding set_ssrc
set_ssrc-IsSession ssrc fits v =
    omega (arith, v.payload_type_fits, v.sequence_fits, v.timestamp_fits)

pub send_loop-IsSession :
    (sends : ℕ → Bool) (i : ℕ) (s : Streamer) (ps : List Bytes)
    → IsSession s
    → IsSession (send_loop sends i s ps).0
unfolding send_loop
send_loop-IsSession sends i s [] v = v
send_loop-IsSession sends i s (p ∷ ps) v = elim (Bool-cases (sends i)) [
  | inl ok ↦ rw ok (send_loop-IsSession sends (suc i) (bump s) ps (bump-IsSession v))
  | inr failed ↦ rw failed (bump-IsSession v)
]

-- What RFC 3550 asks of the packets of one access unit: the k-th has the k-th next sequence number
-- modulo 2^16, all share time and source, and the last one alone is marked.
unfoldable pub numbered : Streamer → ℕ → List Bytes → List (Header × Bytes)
numbered s k [] = []
numbered s k (p ∷ ps) =
    (
      record {
        payload_type = s.payload_type;
        sequence = u16 (s.sequence + k);
        timestamp = s.timestamp;
        ssrc = s.ssrc;
        marker = is_end ps;
      },
      p,
    )
    ∷ numbered s (suc k) ps

unfoldable pub decode_all : List Bytes → Option (List (Header × Bytes))
decode_all [] = some []
decode_all (p ∷ ps) = do packet ← decode_packet p; rest ← decode_all ps; some (packet ∷ rest)

abbrev pub AllSent : (ℕ → Bool) → Type 0
AllSent sends = (i : ℕ) → sends i ≡ true

numbered-bump :
    (s : Streamer) (k : ℕ) (ps : List Bytes) → numbered (bump s) k ps ≡ numbered s (suc k) ps
unfolding numbered
numbered-bump s k [] = refl
numbered-bump s k (p ∷ ps) =
    let next : u16 (u16 (s.sequence + 1) + k) ≡ u16 (s.sequence + suc k) = omega arith in
    rw (next, numbered-bump s (suc k) ps) refl

numbered-first :
    (s : Streamer) (p : Bytes) (ps : List Bytes)
    → IsSession s
    → numbered s 0 (p ∷ ps) ≡ (header_for s (is_end ps), p) ∷ numbered s 1 ps
unfolding numbered
numbered-first s p ps v = let same : u16 (s.sequence + 0) ≡ s.sequence = omega arith in rw same refl

header_for-IsHeader : (s : Streamer) (m : Bool) → IsSession s → IsHeader (header_for s m)
header_for-IsHeader s m v = omega arith

-- When every call of `send` succeeds, and the streamer's fields fit their widths, the packets of
-- the loop decode to the payloads in order, with consecutive sequence numbers modulo 2^16, one
-- timestamp, and the marker on the last alone; the loop returns true.
pub decode_all-send_loop :
    (sends : ℕ → Bool) (i : ℕ) (s : Streamer) (ps : List Bytes)
    → AllSent sends
    → IsSession s
    → (decode_all (send_loop sends i s ps).1 ≡ some (numbered s 0 ps))
      × ((send_loop sends i s ps).2 ≡ true)
unfolding send_loop decode_all
decode_all-send_loop sends i s [] all v = (unfold numbered in refl, refl)
decode_all-send_loop sends i s (p ∷ ps) all v =
    let (reads, sent) = decode_all-send_loop sends (suc i) (bump s) ps all (bump-IsSession v) in
    rw (all i) (
      rw
          (
            decode_packet-build_packet (header_for s (is_end ps)) p
                (header_for-IsHeader s (is_end ps) v),
            reads,
            numbered-bump s 0 ps,
            numbered-first s p ps v,
          )
          refl,
      sent,
    )

-- The loop moves the sequence number by one per packet handed over, the failed one included,
-- modulo 2^16, and changes nothing else, when the streamer's fields fit their widths.
pub send_loop_state :
    (sends : ℕ → Bool) (i : ℕ) (s : Streamer) (ps : List Bytes)
    → IsSession s
    → (send_loop sends i s ps).0
      ≡ record s { sequence = u16 (s.sequence + length (send_loop sends i s ps).1) }
unfolding send_loop
send_loop_state sends i s [] v = ground arith
send_loop_state sends i s (p ∷ ps) v = elim (Bool-cases (sends i)) [
  | inl ok ↦
      let moved : u16 (u16 (s.sequence + 1) + length (send_loop sends (suc i) (bump s) ps).1)
          ≡ u16 (s.sequence + suc (length (send_loop sends (suc i) (bump s) ps).1)) =
        omega arith in
      rw ok (
        send_loop_state sends (suc i) (bump s) ps (bump-IsSession v)
        ∙ ap (λ (q : ℕ). record s { sequence = q }) moved)
  | inr failed ↦ rw failed refl
]

-- `n` packets handed over of `total`: all of them, or a run whose last packet is one that failed.
abbrev pub Handed : (ℕ → Bool) → ℕ → ℕ → ℕ → Bool → Type 0
Handed sends i total n true = n ≡ total
Handed sends i total n false = (k : ℕ) × (n ≡ suc k) × (n ≤ total) × (sends (i + k) ≡ false)

-- The loop hands over every payload and returns true, or stops behind a `send` that failed and
-- returns false.
pub send_loop-Handed :
    (sends : ℕ → Bool) (i : ℕ) (s : Streamer) (ps : List Bytes)
    → Handed sends i (length ps) (length (send_loop sends i s ps).1) (send_loop sends i s ps).2
unfolding send_loop
send_loop-Handed sends i s [] = refl
send_loop-Handed sends i s (p ∷ ps) = elim (Bool-cases (sends i)) [
  | inl ok ↦ rw ok (later _ _ (send_loop-Handed sends (suc i) (bump s) ps))
  | inr failed ↦ rw failed (0, refl, omega arith, ground (arith, failed))
]
  where
    later :
        (n : ℕ) (b : Bool)
        → Handed sends (suc i) (length ps) n b
        → Handed sends i (suc (length ps)) (suc n) b
    later n true h = ap suc h
    later n false (k, e, le, f) = (suc k, ap suc e, omega arith, rw (← suc-shift) f)
      where
        suc-shift : suc i + k ≡ i + suc k
        suc-shift = omega arith
