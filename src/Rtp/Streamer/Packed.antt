-- ===== src/Rtp/Streamer/Packed.antt =====
-- src/rtp: the size and the bytes of what goes to the socket.
use veda_rtsp.Base.{
  ℕ, zero, suc, ◌≤◌, ◌≡◌, refl, min, Bool, true, false, not, ◌||◌, Option, none, some, ◌>>=◌, List,
  [], ◌∷◌, Bytes, length, length-append, drop, All, All-append, All-take, All-drop, IsByte,
  Bool-cases, inl, inr, arith, leb,
}
use veda_rtsp.Rtp.Packetizer.{Header, byte_at, low_byte, marker_byte, write_header, build_packet}
use veda_rtsp.Rtp.H264Fua.{
  default_mtu, fu_indicator, fu_header, fragment_loop, fragment_nal, max_payload_per_fragment,
}
use veda_rtsp.Rtp.H264Fua.Reassembly.{fu_indicator_lem, fu_header_lem}
use veda_rtsp.Rtp.H264Fua.Bounds.{AllWithin, fragment_nal-AllWithin, fragment_nal_total}
use veda_rtsp.Rtp.Streamer.{
  Streamer, header_for, bump, is_end, is_empty, send_loop, send_fragments, send_nal,
}

-- A packet: a header of 12 bytes and at most 1400 behind it, each element a byte.
abbrev pub IsPacket : Bytes → Type 0
IsPacket p = (12 ≤ length p) × (length p ≤ 1412) × All IsByte p

-- A payload for one packet.
abbrev IsPayload : Bytes → Type 0
IsPayload p = (length p ≤ default_mtu) × All IsByte p

write_header-IsByte : (h : Header) → All IsByte (write_header h)
unfolding write_header byte_at low_byte marker_byte
write_header-IsByte h = omega arith

length-write_header : (h : Header) → length (write_header h) ≡ 12
unfolding write_header
length-write_header h = refl

build_packet-IsPacket : (h : Header) (p : Bytes) → IsPayload p → IsPacket (build_packet h p)
unfolding build_packet
build_packet-IsPacket h p v = (
  omega (arith, length-append (write_header h) p, length-write_header h),
  omega (arith, length-append (write_header h) p, length-write_header h, v.0),
  All-append IsByte (write_header h) p (write_header-IsByte h) v.1,
)

send_loop-IsPacket :
    (sends : ℕ → Bool) (i : ℕ) (s : Streamer) (ps : List Bytes)
    → All IsPayload ps
    → All IsPacket (send_loop sends i s ps).1
unfolding send_loop
send_loop-IsPacket sends i s [] v = tt
send_loop-IsPacket sends i s (p ∷ ps) v =
    let first = build_packet-IsPacket (header_for s (is_end ps)) p v.0 in
    elim (Bool-cases (sends i)) [
      | inl ok ↦ rw ok (first, send_loop-IsPacket sends (suc i) (bump s) ps v.1)
      | inr failed ↦ rw failed (first, tt)
    ]

fu_indicator-IsByte : (h : ℕ) → IsByte h → IsByte (fu_indicator h)
fu_indicator-IsByte h b = omega (arith, fu_indicator_lem h b)

fu_header-IsByte : (h : ℕ) (first last : Bool) → IsByte h → IsByte (fu_header h first last)
fu_header-IsByte h first last b = ground (arith, fu_header_lem h first last b)

-- What the cutting returns is made of bytes.
abbrev AllBytes : Option (List Bytes) → Type 0
AllBytes none = Unit {0}
AllBytes (some frags) = All (All IsByte) frags

AllBytes-cons :
    (p : Bytes) (r : Option (List Bytes))
    → All IsByte p
    → AllBytes r
    → AllBytes (r >>= λ rest. some (p ∷ rest))
AllBytes-cons p none h hs = tt
AllBytes-cons p (some rest) h hs = (h, hs)

fragment_loop-AllBytes :
    (fuel max h : ℕ) (first : Bool) (ps : Bytes)
    → IsByte h
    → All IsByte ps
    → AllBytes (fragment_loop fuel max h first ps)
unfolding fragment_loop
fragment_loop-AllBytes zero max h first [] b bs = tt
fragment_loop-AllBytes (suc fuel) max h first [] b bs = tt
fragment_loop-AllBytes zero max h first (p ∷ ps) b bs = tt
fragment_loop-AllBytes (suc fuel) max h first (p ∷ ps) b bs =
    let size : ℕ = min max (length (p ∷ ps)) in
    AllBytes-cons _ _
      (
        fu_indicator-IsByte h b,
        (fu_header-IsByte h first (leb (length (p ∷ ps)) size) b, All-take IsByte size (p ∷ ps) bs),
      )
      (fragment_loop-AllBytes fuel max h false (drop size (p ∷ ps)) b
        (All-drop IsByte size (p ∷ ps) bs))

fragment_nal-AllBytes : (nal : Bytes) (mtu : ℕ) → All IsByte nal → AllBytes (fragment_nal nal mtu)
unfolding fragment_nal
fragment_nal-AllBytes [] mtu b = tt
fragment_nal-AllBytes (h ∷ payload) mtu b = elim (Bool-cases (leb (length (h ∷ payload)) mtu)) [
  | inl fits ↦ rw fits (b, tt)
  | inr over ↦ rw over (
      fragment_loop-AllBytes (length payload) (max_payload_per_fragment mtu) h true payload b.0 b.1)
]

payloads_lem :
    (frags : List Bytes)
    → All (λ p. length p ≤ default_mtu) frags
    → All (All IsByte) frags
    → All IsPayload frags
payloads_lem [] short bytes = tt
payloads_lem (p ∷ ps) short bytes = ((short.0, bytes.0), payloads_lem ps short.1 bytes.1)

send_fragments-IsPacket :
    (sends : ℕ → Bool) (s : Streamer) (ps : List Bytes)
    → All IsPayload ps
    → All IsPacket (send_fragments sends s ps).1
send_fragments-IsPacket sends s [] v = tt
send_fragments-IsPacket sends s (p ∷ ps) v = send_loop-IsPacket sends 0 s (p ∷ ps) v

-- `send_nal` returns on every NAL unit of bytes, whatever the socket answers and whatever state
-- the streamer is in, and every packet that it has handed to the socket is a text of bytes, each
-- below 256, of 12 bytes at least and 1412 at most.
pub send_nal-IsPacket :
    (sends : ℕ → Bool) (s : Streamer) (nal : Bytes)
    → All IsByte nal
    → (r : Streamer × List Bytes × Bool) × (send_nal sends s nal ≡ some r) × All IsPacket r.1
unfolding send_nal
send_nal-IsPacket sends s nal bytes =
    let (frags, cuts) = fragment_nal_total nal default_mtu (omega arith) (omega arith) in
    let short : AllWithin default_mtu (some frags) =
      rw cuts at (fragment_nal-AllWithin nal default_mtu (omega arith) (omega arith)) in
    let made : AllBytes (some frags) = rw cuts at (fragment_nal-AllBytes nal default_mtu bytes) in
    elim (Bool-cases (not s.connected || is_empty nal)) [
      | inl refused ↦ ((s, [], false), rw refused refl, tt)
      | inr sendable ↦ (
        send_fragments sends s frags,
        rw (sendable, cuts) refl,
        send_fragments-IsPacket sends s frags (payloads_lem frags short made),
      )
    ]
