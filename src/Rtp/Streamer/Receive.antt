-- ===== src/Rtp/Streamer/Receive.antt =====
-- src/rtp/streamer.cpp: a receiver that takes packets one after the other, over any number of NAL units: it wants each
-- sequence number to follow the last one modulo 2^16 (RFC 3550), and puts the NAL units together
-- (RFC 6184).
use veda_rtsp.Base.{
  ℕ, suc, ◌+◌, ◌≡◌, refl, ap, Bool, if◌then◌else◌, ◌==◌, Option, none, some, ◌>>=◌, List, [], ◌∷◌,
  ◌++◌, append_assoc, Bytes, u16, length, arith, Option-cases, inl, inr, sym, >>=-some,
}
use veda_rtsp.Rtp.Packetizer.{Header}
use veda_rtsp.Rtp.Packetizer.Decode.{decode_packet}
use veda_rtsp.Rtp.H264Fua.Reassembly.{Assembly, idle, partial, receive_payload, reassemble}
use veda_rtsp.Rtp.Streamer.{Streamer}
use veda_rtsp.Rtp.Streamer.Packets.{IsSession, numbered, decode_all}
use veda_rtsp.Rtp.Streamer.Delivery.{Delivered}

-- The payloads, when no packet is missing, doubled or out of order.
unfoldable pub in_order : ℕ → List Bytes → Option (List Bytes)
unfolding decode_packet
in_order expected [] = some []
in_order expected (p ∷ ps) = do
  packet ← decode_packet p
  rest ← in_order (u16 (expected + 1)) ps
  if packet.0.sequence == expected then some (packet.1 ∷ rest) else none

-- The NAL units of a stream whose first packet has the number `expected`.
unfoldable pub received : ℕ → List Bytes → Option (List Bytes)
unfolding in_order reassemble
received expected packets = in_order expected packets >>= λ payloads. reassemble idle payloads

-- A payload in front of those that the others give.
first_in_front :
    (m : Option (List Bytes)) (n : ℕ) (f : Bytes) (fs : List Bytes)
    → (m >>= (λ rest. some (fs ++ rest)) >>= λ rest. if n == n then some (f ∷ rest) else none)
      ≡ (m >>= λ rest. some (f ∷ (fs ++ rest)))
first_in_front none n f fs = refl
first_in_front (some rest) n f fs = ground arith

append_in_front :
    (m : Option (List Bytes)) (a b : List Bytes)
    → (m >>= (λ more. some (b ++ more)) >>= λ more. some (a ++ more))
      ≡ (m >>= λ more. some ((a ++ b) ++ more))
append_in_front none a b = refl
append_in_front (some more) a b = rw (append_assoc a) refl

in_order-numbered :
    (s : Streamer) (k : ℕ) (fragments packets later : List Bytes)
    → decode_all packets ≡ some (numbered s k fragments)
    → in_order (u16 (s.sequence + k)) (packets ++ later) ≡ (
        in_order (u16 (s.sequence + (k + length fragments))) later >>= λ rest.
        some (fragments ++ rest))
unfolding in_order decode_all numbered
in_order-numbered s k [] [] later e =
    let same : k + 0 ≡ k = omega arith in
    rw same (sym (>>=-some (in_order (u16 (s.sequence + k)) later)))
in_order-numbered s k (f ∷ fs) [] later e = cc
in_order-numbered s k [] (p ∷ ps) later e = absurd (ground (arith, e))
in_order-numbered s k (f ∷ fs) (p ∷ ps) later e = elim (Option-cases (decode_packet p)) [
  | inl nothing ↦ absurd (ground (arith, nothing))
  | inr (packet, reads) ↦ elim (Option-cases (decode_all ps)) [
    | inl nothing ↦ absurd (ground (arith, reads, nothing))
    | inr (others, rest) ↦
        let number : packet.0.sequence ≡ u16 (s.sequence + k) = ground (arith, reads, rest) in
        let payload : packet.1 ≡ f = ground (arith, reads, rest) in
        let same : others ≡ numbered s (suc k) fs = ground (arith, reads, rest) in
        let next : u16 (u16 (s.sequence + k) + 1) ≡ u16 (s.sequence + suc k) = omega arith in
        let count : k + suc (length fs) ≡ suc k + length fs = omega arith in
        rw
          (
            reads,
            next,
            count,
            in_order-numbered s (suc k) fs ps later
                (rw rest (ap (λ (l : List (Header × Bytes)). some l) same)),
            number,
            payload,
          )
          (first_in_front (in_order (u16 (s.sequence + (suc k + length fs))) later)
            (u16 (s.sequence + k)) f fs)
  ]
]

-- Payloads that are put together completely leave the receiver ready for the next ones.
reassemble-append :
    (st : Assembly) (ps rest nals : List Bytes)
    → reassemble st ps ≡ some nals
    → reassemble st (ps ++ rest) ≡ (reassemble idle rest >>= λ more. some (nals ++ more))
unfolding reassemble
reassemble-append idle [] rest nals e =
    let none_yet : nals ≡ [] = ground (arith, e) in
    rw none_yet (sym (>>=-some (reassemble idle rest)))
reassemble-append (partial acc) [] rest nals e = cc
reassemble-append st (p ∷ ps) rest nals e = elim (Option-cases (receive_payload st p)) [
  | inl nothing ↦ absurd (ground (arith, nothing))
  | inr (r, taken) ↦ elim (Option-cases (reassemble r.0 ps)) [
    | inl nothing ↦ absurd (ground (arith, taken, nothing))
    | inr (others, rest_of) ↦
        let joined : r.1 ++ others ≡ nals = ground (arith, taken, rest_of) in
        rw (taken, reassemble-append r.0 ps rest others rest_of, ← joined)
          (append_in_front (reassemble idle rest) r.1 others)
  ]
]

-- What a NAL unit that has been delivered adds to what the receiver gets later.
pub received-Delivered :
    (s : Streamer) (nal : Bytes) (r : Streamer × List Bytes × Bool) (later : List Bytes)
    → IsSession s
    → Delivered s nal r
    → received s.sequence (r.1 ++ later)
      ≡ (received r.0.sequence later >>= λ nals. some (nal ∷ nals))
unfolding received
received-Delivered s nal r later v d =
    let begins : u16 (s.sequence + 0) ≡ s.sequence = omega (arith, v.sequence_fits) in
    let number : r.0.sequence ≡ u16 (s.sequence + (0 + length d.fragments)) =
      rw d.after (ap (λ (n : ℕ). u16 (s.sequence + n)) (omega arith)) in
    let run : in_order (u16 (s.sequence + 0)) (r.1 ++ later) ≡ (
        in_order (u16 (s.sequence + (0 + length d.fragments))) later >>= λ rest.
        some (d.fragments ++ rest)) =
      in_order-numbered s 0 d.fragments r.1 later d.numbering in
    let ordered : in_order s.sequence (r.1 ++ later)
        ≡ (in_order r.0.sequence later >>= λ rest. some (d.fragments ++ rest)) =
      rw number (rw begins at run) in
    rw ordered (whole (in_order r.0.sequence later))
  where
    whole :
        (m : Option (List Bytes))
        → (m >>= (λ rest. some (d.fragments ++ rest)) >>= λ payloads. reassemble idle payloads)
          ≡ (m >>= (λ payloads. reassemble idle payloads) >>= λ nals. some (nal ∷ nals))
    whole none = refl
    whole (some rest) = reassemble-append idle d.fragments rest (nal ∷ []) d.carried
