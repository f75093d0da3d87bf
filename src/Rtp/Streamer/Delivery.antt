-- ===== src/Rtp/Streamer/Delivery.antt =====
-- One NAL from `send_nal` to a receiver that follows RFC 3550 and RFC 6184.
use veda_rtsp.Base.{
  ℕ, suc, ◌+◌, ◌≡◌, ◌∙◌, ap, refl, Bool, true, false, some, List, [], ◌∷◌, ◌++◌, Bytes, u16, length,
  arith, map, append-nil, subst, not, ◌||◌, Bool-cases, inl, inr,
}
use veda_rtsp.Rtp.Packetizer.{Header}
use veda_rtsp.Rtp.H264Fua.{default_mtu}
use veda_rtsp.Rtp.H264Fua.Reassembly.{IsNalHeader, idle, reassemble, reassemble-fragment_nal}
use veda_rtsp.Rtp.H264Fua.Bounds.{fragment_nal_total}
use veda_rtsp.Rtp.Streamer.{Streamer, send_nal, send_fragments, send_loop, is_empty}
use veda_rtsp.Rtp.Streamer.Packets.{
  IsSession, numbered, decode_all, decode_all-send_loop, send_loop_state, send_loop-Handed, Handed,
}

abbrev payloads : List (Header × Bytes) → List Bytes
payloads = map (λ packet. packet.1)

payloads-numbered : (s : Streamer) (k : ℕ) (ps : List Bytes) → payloads (numbered s k ps) ≡ ps
unfolding numbered
payloads-numbered s k [] = refl
payloads-numbered s k (p ∷ ps) = ap (◌∷◌ p) (payloads-numbered s (suc k) ps)

-- What `send_nal` has done when it returns `r`, for fragments that carry `nal`.
pub record Delivered (s : Streamer) (nal : Bytes) (r : Streamer × List Bytes × Bool) : Type 0 where
  pub fragments : List Bytes
  pub returned : r.2 ≡ true
  pub numbering : decode_all r.1 ≡ some (numbered s 0 fragments)
  pub carried : reassemble idle fragments ≡ some (nal ∷ [])
  pub after : r.0 ≡ record s { sequence = u16 (s.sequence + length fragments) }

module _ (sends : ℕ → Bool) (s : Streamer) (all : (i : ℕ) → sends i ≡ true) (v : IsSession s) where
  length-sent : (ps : List Bytes) → length (send_loop sends 0 s ps).1 ≡ length ps
  length-sent ps =
      subst (λ b. Handed sends 0 (length ps) (length (send_loop sends 0 s ps).1) b)
        (decode_all-send_loop sends 0 s ps all v).1 (send_loop-Handed sends 0 s ps)

  send_fragments-Delivered :
      (nal : Bytes) (ps : List Bytes)
      → reassemble idle ps ≡ some (nal ∷ [])
      → Delivered s nal (send_fragments sends s ps)
  unfolding reassemble
  send_fragments-Delivered nal [] e = cc
  send_fragments-Delivered nal (p ∷ ps) e =
      let (reads, sent) = decode_all-send_loop sends 0 s (p ∷ ps) all v in
      record {
        fragments = p ∷ ps;
        returned = sent;
        numbering = reads;
        carried = e;
        after =
            send_loop_state sends 0 s (p ∷ ps) v
            ∙ ap (λ (n : ℕ). record s { sequence = u16 (s.sequence + n) }) (length-sent (p ∷ ps));
      }

-- On a connected streamer whose fields fit their widths and whose socket sends every packet,
-- `send_nal` of a NAL unit whose header byte has a type other than 28 returns true, and a receiver
-- that follows RFC 3550 and RFC 6184 decodes its packets to consecutive sequence numbers with the
-- marker on the last packet of the NAL unit alone, whether or not the NAL unit ends a frame,
-- reassembles them to exactly the NAL unit given, and the streamer's next sequence number follows
-- the last one modulo 2^16.
pub send_nal-Delivered :
    (sends : ℕ → Bool) (s : Streamer) (h : ℕ) (payload : Bytes)
    → ((i : ℕ) → sends i ≡ true)
    → IsSession s
    → s.connected ≡ true
    → IsNalHeader h
    → (r : Streamer × List Bytes × Bool) × (send_nal sends s (h ∷ payload) ≡ some r)
      × Delivered s (h ∷ payload) r
unfolding send_nal
send_nal-Delivered sends s h payload all v up nal =
    let (frags, cuts, completes) =
      reassemble-fragment_nal h payload default_mtu nal (omega arith) (omega arith) in
    let alone : reassemble idle (frags ++ []) ≡ some ((h ∷ payload) ∷ []) =
      unfold reassemble in completes [] in
    let whole : reassemble idle frags ≡ some ((h ∷ payload) ∷ []) = rw append-nil at alone in
    (
      send_fragments sends s frags,
      rw (up, cuts) refl,
      send_fragments-Delivered sends s all v (h ∷ payload) frags whole,
    )

-- `send_nal` returns on every NAL unit and whatever the socket answers.
pub send_nal_total :
    (sends : ℕ → Bool) (s : Streamer) (nal : Bytes)
    → (r : Streamer × List Bytes × Bool) × (send_nal sends s nal ≡ some r)
unfolding send_nal
send_nal_total sends s nal =
    let (frags, cuts) = fragment_nal_total nal default_mtu (omega arith) (omega arith) in
    elim (Bool-cases (not s.connected || is_empty nal)) [
      | inl refused ↦ ((s, [], false), rw refused refl)
      | inr sendable ↦ (send_fragments sends s frags, rw (sendable, cuts) refl)
    ]
