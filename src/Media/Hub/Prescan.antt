-- ===== src/Media/Hub/Prescan.antt =====
-- src/media/hub.cpp, `prescan_parameter_sets`, and the cache of parameter sets behind it.
use veda_rtsp.Base.{
  ℕ, zero, suc, ◌%◌, ◌≡◌, ◌≢◌, ◌∙◌, ap, sym, refl, false, if◌then◌else◌, ◌==◌, Bool-cases, inl, inr,
  List, [], ◌∷◌, ◌++◌, append-nil, Bytes, All, All-take, take, get_or, bit_and, bit_and_mask, ◌||◌,
  arith, bytes_eq, codes, some,
}
use veda_rtsp.Media.AnnexB.{Stream, read_nal}
use veda_rtsp.Media.AnnexB.Chunks.{concat}
use veda_rtsp.Media.AnnexB.Units.{NalUnit, IsNalUnit, annexb, nals_of, read_unit}
use veda_rtsp.Media.Hub.{
  Hub, is_unset, nal_type_of, cache_parameter_set, cache_all, prescan, make_hub, SourceConfig,
  prescan_parameter_sets, open_hub,
}

-- The first NAL unit of a type, the empty text when there is none.
abbrev pub first_of : ℕ → List Bytes → Bytes
first_of t [] = []
first_of t (nal ∷ nals) = if get_or nal 0 0 % 32 == t then nal else first_of t nals

-- A NAL unit with its header byte.
abbrev pub NonEmpty : Bytes → Type 0
NonEmpty nal = nal ≢ []

-- What is cached is kept.
abbrev keep : Bytes → Bytes → Bytes
keep [] new = new
keep (c ∷ cs) new = c ∷ cs

-- The hub has cached what it had, or else the first NAL units of the two types.
abbrev Caches : Hub → List Bytes → Hub → Type 0
Caches h nals h' = (h'.sps ≡ keep h.sps (first_of 7 nals)) × (h'.pps ≡ keep h.pps (first_of 8 nals))

keep-nil : (s : Bytes) → keep s [] ≡ s
keep-nil [] = refl
keep-nil (c ∷ cs) = refl

keep-keep :
    (s : Bytes) (t : ℕ) (nal : Bytes) (nals : List Bytes)
    → nal ≢ []
    → keep (keep s (first_of t (nal ∷ []))) (first_of t nals) ≡ keep s (first_of t (nal ∷ nals))
keep-keep (c ∷ cs) t nal nals ne = refl
keep-keep [] t [] nals ne = absurd (ne refl)
keep-keep [] t (x ∷ nal) nals ne = elim (Bool-cases (x % 32 == t)) [
  | inl is ↦ rw is refl
  | inr other ↦ rw other refl
]

cache-Caches : (nal : Bytes) (h : Hub) → nal ≢ [] → Caches h (nal ∷ []) (cache_parameter_set nal h)
unfolding cache_parameter_set nal_type_of
cache-Caches nal h ne =
    let type : bit_and (get_or nal 0 0) 0x1F ≡ get_or nal 0 0 % 32 =
      bit_and_mask 5 (get_or nal 0 0) in
    ground (arith, type, keep-nil h.sps, keep-nil h.pps)

take_nil : (n : ℕ) → take {A = Bytes} n [] ≡ []
take_nil zero = refl
take_nil (suc n) = refl

keep_set : (s new : Bytes) → is_unset s ≡ false → s ≡ keep s new
keep_set [] new h = cc
keep_set (c ∷ cs) new h = refl

-- One NAL unit, and then others.
Caches-cons :
    (nal : Bytes) (nals : List Bytes) (h h1 h2 : Hub)
    → nal ≢ []
    → Caches h (nal ∷ []) h1
    → Caches h1 nals h2
    → Caches h (nal ∷ nals) h2
Caches-cons nal nals h h1 h2 ne (sps, pps) (sps', pps') = (
  sps' ∙ ap (λ (s : Bytes). keep s (first_of 7 nals)) sps ∙ keep-keep h.sps 7 nal nals ne,
  pps' ∙ ap (λ (s : Bytes). keep s (first_of 8 nals)) pps ∙ keep-keep h.pps 8 nal nals ne,
)

prescan-Caches :
    (fuel : ℕ) (u : NalUnit) (us : List NalUnit) (buffer : Bytes) (file : Stream) (h : Hub)
    → All IsNalUnit (u ∷ us)
    → buffer ++ concat file ≡ annexb (u ∷ us)
    → Caches h (take fuel (nals_of (u ∷ us))) (prescan fuel buffer file h)
unfolding prescan
prescan-Caches zero u us buffer file h v e = (sym (keep-nil h.sps), sym (keep-nil h.pps))
prescan-Caches (suc fuel) u us buffer file h v e =
    elim (Bool-cases (is_unset h.sps || is_unset h.pps)) [
      | inr set ↦ rw set (keep_set h.sps _ (ground arith), keep_set h.pps _ (ground arith))
      | inl unset ↦ rw unset (reads (prescan-Caches fuel) us v e)
    ]
  where
    reads :
        ((w : NalUnit) (ws : List NalUnit) (left : Bytes) (rest : Stream) (h1 : Hub)
          → All IsNalUnit (w ∷ ws)
          → left ++ concat rest ≡ annexb (w ∷ ws)
          → Caches h1 (take fuel (nals_of (w ∷ ws))) (prescan fuel left rest h1))
        → (us : List NalUnit) → All IsNalUnit (u ∷ us)
        → buffer ++ concat file ≡ annexb (u ∷ us)
        → let r = read_nal buffer file in
          let cached = cache_all r.nals h in
          Caches h
            (take (suc fuel) (nals_of (u ∷ us)))
            (if r.more then prescan fuel r.buffer r.rest cached else cached)
    reads again [] v e =
        let same = read_unit u [] buffer file v.0 e in
        rw (same.nals, same.more, take_nil fuel) (cache-Caches u.nal h v.0.ne_nil)
    reads again (w ∷ us) v e =
        let same = read_unit u (w ∷ us) buffer file v.0 e in
        let r = read_nal buffer file in
        let h1 = cache_parameter_set u.nal h in
        rw (same.nals, same.more)
          (Caches-cons u.nal (take fuel (nals_of (w ∷ us))) h h1 (prescan fuel r.buffer r.rest h1)
            v.0.ne_nil (cache-Caches u.nal h v.0.ne_nil)
            (again w us r.buffer r.rest h1 v.1 (same.left ∙ append-nil (annexb (w ∷ us)))))

-- The hub of a file of clean NAL units, each behind a start code, begins with the first SPS and
-- the first PPS among the first 64 NAL units, and with none of a kind that is not there, however
-- the file is cut into reads.
pub prescan_finds :
    (cfg : SourceConfig) (u : NalUnit) (us : List NalUnit) (file : Stream)
    → bytes_eq cfg.source (codes "camera") ≡ false
    → All IsNalUnit (u ∷ us)
    → concat file ≡ annexb (u ∷ us)
    → ((open_hub cfg (some file)).sps ≡ first_of 7 (take 64 (nals_of (u ∷ us))))
      × ((open_hub cfg (some file)).pps ≡ first_of 8 (take 64 (nals_of (u ∷ us))))
unfolding open_hub prescan_parameter_sets make_hub
prescan_finds cfg u us file is v e =
    rw (is, open_hub) (prescan-Caches 64 u us [] file (make_hub cfg.fps) v e)

IsUnits-nonempty : (us : List NalUnit) → All IsNalUnit us → All NonEmpty (nals_of us)
IsUnits-nonempty [] v = tt
IsUnits-nonempty (u ∷ us) v = (v.0.ne_nil, IsUnits-nonempty us v.1)

cache_all-Caches :
    (seen : List Bytes) (h : Hub) → All NonEmpty seen → Caches h seen (cache_all seen h)
cache_all-Caches [] h ne = (sym (keep-nil h.sps), sym (keep-nil h.pps))
cache_all-Caches (nal ∷ seen) h ne =
    let h1 = cache_parameter_set nal h in
    Caches-cons nal seen h h1 (cache_all seen h1) ne.0 (cache-Caches nal h ne.0)
      (cache_all-Caches seen h1 ne.1)

keep-first_of :
    (t : ℕ) (nals seen : List Bytes)
    → All NonEmpty nals
    → keep (first_of t nals) (first_of t seen) ≡ first_of t (nals ++ seen)
keep-first_of t [] seen ne = refl
keep-first_of t ([] ∷ nals) seen ne = absurd (ne.0 refl)
keep-first_of t ((x ∷ nal) ∷ nals) seen ne = elim (Bool-cases (x % 32 == t)) [
  | inl is ↦ rw is refl
  | inr other ↦ rw other (keep-first_of t nals seen ne.1)
]

-- The hub of a file of clean NAL units that has then cached the sets of others, as `on_nal` does
-- with each, has the first SPS and the first PPS among the first 64 NAL units of the file and then
-- the others, and none of a kind that is not there.
pub prescan_then_caches :
    (cfg : SourceConfig) (u : NalUnit) (us : List NalUnit) (file : Stream) (seen : List Bytes)
    → bytes_eq cfg.source (codes "camera") ≡ false
    → All IsNalUnit (u ∷ us)
    → concat file ≡ annexb (u ∷ us)
    → All NonEmpty seen
    → ((cache_all seen (open_hub cfg (some file))).sps
        ≡ first_of 7 (take 64 (nals_of (u ∷ us)) ++ seen))
      × ((cache_all seen (open_hub cfg (some file))).pps
          ≡ first_of 8 (take 64 (nals_of (u ∷ us)) ++ seen))
prescan_then_caches cfg u us file seen is v e ne =
    let h = open_hub cfg (some file) in
    let (sps, pps) = prescan_finds cfg u us file is v e in
    let (sps', pps') = cache_all-Caches seen h ne in
    let first = All-take NonEmpty 64 (nals_of (u ∷ us)) (IsUnits-nonempty (u ∷ us) v) in
    (
      sps'
          ∙ (ap (λ (s : Bytes). keep s (first_of 7 seen)) sps
              ∙ keep-first_of 7 (take 64 (nals_of (u ∷ us))) seen first),
      pps'
          ∙ (ap (λ (s : Bytes). keep s (first_of 8 seen)) pps
              ∙ keep-first_of 8 (take 64 (nals_of (u ∷ us))) seen first),
    )
