-- ===== src/Rtp/H264Fua/Reassembly.antt =====
-- The receiving side of RFC 6184 for single NAL units and FU-A, and the round trip through it.
use veda_rtsp.Base.{
  ℕ, zero, suc, ◌+◌, ◌*◌, ◌/◌, ◌%◌, ◌^◌, ◌≤◌, ◌<◌, ◌≡◌, ◌≢◌, refl, ap, ◌∙◌, Bool, true, false,
  if◌then◌else◌, ◌==◌, Option, none, some, ◌>>=◌, List, [], ◌∷◌, ◌++◌, Bytes, IsByte, eq_below,
  agree, arith, length, take, drop, append_assoc, length-drop, take_all, drop_all, le→leb, lt→leb,
  le_or_lt, min, take-append-drop, inl, inr, >>=-some,
}
use veda_rtsp.Rtp.H264Fua.{
  fu_indicator, fu_header, fragment_loop, fragment_nal, max_payload_per_fragment,
}

-- The NAL under assembly; the bytes come with the header that was split over two bytes.
pub data Assembly : Type 0 where
  idle : Assembly
  partial : Bytes → Assembly

-- One FU-A payload: start and end bit of the FU header decide what is added and what is emitted.
unfoldable pub receive_fu : Assembly → ℕ → ℕ → Bytes → Option (Assembly × List Bytes)
receive_fu idle indicator header chunk =
    let nal = (indicator / 32 * 32 + header % 32) ∷ chunk in
    if header / 128 == 1
    then some (if header / 64 % 2 == 1 then (idle, nal ∷ []) else (partial nal, []))
    else none
receive_fu (partial acc) indicator header chunk =
    if header / 128 == 1
    then none
    else some
        (if header / 64 % 2 == 1 then (idle, (acc ++ chunk) ∷ []) else (partial (acc ++ chunk), []))

-- A payload whose type is 28 is a fragment; any other is a NAL of its own.
unfoldable pub receive_payload : Assembly → Bytes → Option (Assembly × List Bytes)
receive_payload st [] = none
receive_payload idle (h ∷ []) = if h % 32 == 28 then none else some (idle, (h ∷ []) ∷ [])
receive_payload (partial acc) (h ∷ []) = none
receive_payload idle (h ∷ f ∷ chunk) =
    if h % 32 == 28 then receive_fu idle h f chunk else some (idle, (h ∷ f ∷ chunk) ∷ [])
receive_payload (partial acc) (h ∷ f ∷ chunk) =
    if h % 32 == 28 then receive_fu (partial acc) h f chunk else none

-- The NALs that a sequence of payloads carries; `none` if the last one is incomplete.
unfoldable pub reassemble : Assembly → List Bytes → Option (List Bytes)
reassemble idle [] = some []
reassemble (partial acc) [] = none
reassemble st (p ∷ ps) = do
  (st', nals) ← receive_payload st p
  later ← reassemble st' ps
  some (nals ++ later)

-- The header byte of a NAL of H.264, of a type that RFC 6184 does not take for its fragments.
pub record IsNalHeader (h : ℕ) : Type 0 where
  pub header_byte : IsByte h
  pub not_fu : h % 32 ≢ 28

pub reassemble-cons :
    (st : Assembly) (p : Bytes) (ps : List Bytes)
    → reassemble st (p ∷ ps)
      ≡ (receive_payload st p >>= λ r. reassemble r.0 ps >>= λ later. some (r.1 ++ later))
unfolding reassemble
reassemble-cons idle p ps = ground arith
reassemble-cons (partial acc) p ps = ground arith

pub fu_indicator_lem : (h : ℕ) → IsByte h → fu_indicator h ≡ h / 32 * 32 + 28
unfolding fu_indicator agree
fu_indicator_lem = eq_below _ _ 256 refl

pub fu_header_lem :
    (h : ℕ) (first last : Bool)
    → IsByte h
    → fu_header h first last ≡ h % 32 + (if first then 128 else 0) + (if last then 64 else 0)
unfolding fu_header agree
fu_header_lem h true true =
    eq_below (λ h. fu_header h true true) (λ h. h % 32 + 128 + 64) 256 refl h
fu_header_lem h true false =
    eq_below (λ h. fu_header h true false) (λ h. h % 32 + 128 + 0) 256 refl h
fu_header_lem h false true =
    eq_below (λ h. fu_header h false true) (λ h. h % 32 + 0 + 64) 256 refl h
fu_header_lem h false false =
    eq_below (λ h. fu_header h false false) (λ h. h % 32 + 0 + 0) 256 refl h

module _ (h : ℕ) (byte : IsByte h) (chunk : Bytes) where
  receive_start :
      receive_payload idle (fu_indicator h ∷ fu_header h true false ∷ chunk)
      ≡ some (partial (h ∷ chunk), [])
  unfolding receive_payload receive_fu
  receive_start = rw (fu_indicator_lem h byte, fu_header_lem h true false byte) (ground arith)

  receive_middle :
      (acc : Bytes)
      → receive_payload (partial acc) (fu_indicator h ∷ fu_header h false false ∷ chunk)
        ≡ some (partial (acc ++ chunk), [])
  unfolding receive_payload receive_fu
  receive_middle acc = rw (fu_indicator_lem h byte, fu_header_lem h false false byte) (ground arith)

  receive_end :
      (acc : Bytes)
      → receive_payload (partial acc) (fu_indicator h ∷ fu_header h false true ∷ chunk)
        ≡ some (idle, (acc ++ chunk) ∷ [])
  unfolding receive_payload receive_fu
  receive_end acc = rw (fu_indicator_lem h byte, fu_header_lem h false true byte) (ground arith)

-- What a receiver makes of fragments that complete the NAL, whatever comes behind them.
abbrev Completes : Assembly → List Bytes → Bytes → Type 0
Completes st frags nal =
    (later : List Bytes)
    → reassemble st (frags ++ later) ≡ (reassemble idle later >>= λ nals. some (nal ∷ nals))

-- The round that takes all that is left.
pub fragment_loop_last :
    (fuel max h : ℕ) (first : Bool) (b : ℕ) (bs : Bytes)
    → length (b ∷ bs) ≤ max
    → fragment_loop (suc fuel) max h first (b ∷ bs)
      ≡ some ((fu_indicator h ∷ fu_header h first true ∷ b ∷ bs) ∷ [])
unfolding fragment_loop
fragment_loop_last fuel max h first b bs fits =
    let whole : min max (length (b ∷ bs)) ≡ length (b ∷ bs) = omega arith in
    rw (
      whole,
      le→leb (length (b ∷ bs)) (length (b ∷ bs)) (omega arith),
      take_all (length bs) bs (omega arith),
      drop_all (length bs) bs (omega arith),
    )

-- The round that leaves something.
pub fragment_loop_more :
    (fuel max h : ℕ) (first : Bool) (b : ℕ) (bs : Bytes)
    → max < length (b ∷ bs)
    → fragment_loop (suc fuel) max h first (b ∷ bs) ≡ (
        fragment_loop fuel max h false (drop max (b ∷ bs)) >>= λ rest.
        some ((fu_indicator h ∷ fu_header h first false ∷ take max (b ∷ bs)) ∷ rest))
unfolding fragment_loop
fragment_loop_more fuel max h first b bs over =
    let part : min max (length (b ∷ bs)) ≡ max = omega arith in
    rw (part, lt→leb (length (b ∷ bs)) max over)

fragment_loop-Completes :
    (fuel max h : ℕ) (acc ps : Bytes)
    → 0 < max
    → IsByte h
    → 0 < length ps
    → length ps ≤ fuel
    → (frags : List Bytes) × (fragment_loop fuel max h false ps ≡ some frags)
      × Completes (partial acc) frags (acc ++ ps)
fragment_loop-Completes fuel max h acc [] pos byte more fits = absurd (omega arith)
fragment_loop-Completes zero max h acc (b ∷ bs) pos byte more fits = absurd (omega arith)
fragment_loop-Completes (suc fuel) max h acc (b ∷ bs) pos byte more fits =
    elim (le_or_lt (length (b ∷ bs)) max) [
      | inl ends ↦
          let final : Bytes = fu_indicator h ∷ fu_header h false true ∷ b ∷ bs in
          (
            final ∷ [],
            fragment_loop_last fuel max h false b bs ends,
            λ later.
                reassemble-cons (partial acc) final later
                ∙ rw (receive_end h byte (b ∷ bs) acc) refl,
          )
      | inr over ↦
          let chunk : Bytes = take max (b ∷ bs) in
          let left : Bytes = drop max (b ∷ bs) in
          let middle : Bytes = fu_indicator h ∷ fu_header h false false ∷ chunk in
          let (frags, runs, done) =
            fragment_loop-Completes fuel max h (acc ++ chunk) left pos byte
              (omega (arith, length-drop max (b ∷ bs))) (omega (arith, length-drop max (b ∷ bs))) in
          let whole : (acc ++ chunk) ++ left ≡ acc ++ (b ∷ bs) =
            append_assoc acc chunk left ∙ ap (◌++◌ acc) (take-append-drop max (b ∷ bs)) in
          (
            middle ∷ frags,
            fragment_loop_more fuel max h false b bs over ∙ rw runs refl,
            λ later.
                reassemble-cons (partial acc) middle (frags ++ later)
                ∙ rw (receive_middle h byte chunk acc, done later, whole) (>>=-some _),
          )
    ]

receive_single :
    (h : ℕ) (payload : Bytes)
    → IsNalHeader h
    → receive_payload idle (h ∷ payload) ≡ some (idle, (h ∷ payload) ∷ [])
unfolding receive_payload
receive_single h [] v = ground arith
receive_single h (b ∷ bs) v = ground arith

-- The bytes behind the header, cut from the first fragment on.
fragment_first-Completes :
    (fuel max h : ℕ) (ps : Bytes)
    → 0 < max
    → IsByte h
    → max < length ps
    → length ps ≤ fuel
    → (frags : List Bytes) × (fragment_loop fuel max h true ps ≡ some frags)
      × Completes idle frags (h ∷ ps)
fragment_first-Completes fuel max h [] pos byte more fits = absurd (omega arith)
fragment_first-Completes zero max h (b ∷ bs) pos byte more fits = absurd (omega arith)
fragment_first-Completes (suc fuel) max h (b ∷ bs) pos byte more fits =
    let chunk : Bytes = take max (b ∷ bs) in
    let left : Bytes = drop max (b ∷ bs) in
    let first : Bytes = fu_indicator h ∷ fu_header h true false ∷ chunk in
    let (frags, runs, done) =
      fragment_loop-Completes fuel max h (h ∷ chunk) left pos byte
        (omega (arith, length-drop max (b ∷ bs))) (omega (arith, length-drop max (b ∷ bs))) in
    let whole : chunk ++ left ≡ b ∷ bs = take-append-drop max (b ∷ bs) in
    (
      first ∷ frags,
      fragment_loop_more fuel max h true b bs more ∙ rw runs refl,
      λ later.
          reassemble-cons idle first (frags ++ later)
          ∙ rw (receive_start h byte chunk, done later, whole) (>>=-some _),
    )

-- For every MTU from 3 up that fits std::size_t and every NAL unit whose header byte has a type
-- other than 28, `fragment_nal` returns fragments that an RFC 6184 receiver reassembles to exactly
-- the NAL unit, and that leave it ready for whatever comes later.
pub reassemble-fragment_nal :
    (h : ℕ) (payload : Bytes) (mtu : ℕ)
    → IsNalHeader h
    → 3 ≤ mtu
    → mtu < 2 ^ 64
    → (frags : List Bytes) × (fragment_nal (h ∷ payload) mtu ≡ some frags)
      × ((later : List Bytes)
          → reassemble idle (frags ++ later)
            ≡ (reassemble idle later >>= λ nals. some ((h ∷ payload) ∷ nals)))
unfolding fragment_nal
reassemble-fragment_nal h payload mtu v lo hi = elim (le_or_lt (length (h ∷ payload)) mtu) [
  | inl fits ↦ (
    (h ∷ payload) ∷ [],
    rw (le→leb (length (h ∷ payload)) mtu fits) refl,
    λ later. reassemble-cons idle (h ∷ payload) later ∙ rw (receive_single h payload v) refl,
  )
  | inr over ↦
      let (frags, runs, done) =
        fragment_first-Completes (length payload) (max_payload_per_fragment mtu) h payload
          (omega arith) v.header_byte (omega arith) (omega arith) in
      (frags, rw (lt→leb (length (h ∷ payload)) mtu over) runs, done)
]
