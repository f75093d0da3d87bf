-- ===== src/Rtsp/Session/Feed/Announced.antt =====
-- session.cpp and hub.cpp: from a file of NAL units, by a DESCRIBE on the wire, to the client's decoder.
use veda_rtsp.Base.{
  ℕ, ◌+◌, ◌≤◌, ◌<◌, ◌^◌, ◌≡◌, refl, ◌%◌, ◌==◌, ◌||◌, if◌then◌else◌, true, Bool-cases, inl, inr,
  Option, none, some, List, [], ◌∷◌, ◌++◌, All, All-take, All-append, IsByte, Lacks-OneLine, Bytes,
  codes, length, take, get_or, ℤ, IsInt, print_int, bytes_eq, false,
}
use veda_rtsp.Media.AnnexB.{Stream}
use veda_rtsp.Media.AnnexB.Chunks.{concat}
use veda_rtsp.Media.AnnexB.Units.{NalUnit, IsNalUnit, annexb, nals_of}
use veda_rtsp.Media.Hub.{Hub, is_unset, SourceConfig, open_hub, sprop_parameter_sets, cache_all}
use veda_rtsp.Media.Hub.Prescan.{first_of, NonEmpty, prescan_then_caches}
use veda_rtsp.Rtsp.Parser.{Headers, Method, Request, lookup, string_to_method}
use veda_rtsp.Rtsp.Parser.RoundTrip.{print_request, assign_all}
use veda_rtsp.Rtsp.Parser.Sequence.{IsWellFormed}
use veda_rtsp.Rtsp.Session.Handlers.{Session, Answers, handle}
use veda_rtsp.Rtsp.Session.Feed.{max_rx_buffer, done_by, feed}
use veda_rtsp.Rtsp.Session.Feed.Answered.{sent_by}
use veda_rtsp.Rtsp.Session.Feed.Described.{client_describe, describe_announces}
use veda_rtsp.Rtsp.Session.Feed.Requests.{feed_handles}

-- The first SPS and the first PPS, when there are both.
abbrev pub announced : List Bytes → Option (Bytes × Bytes)
announced nals =
    let sps = first_of 7 nals in
    let pps = first_of 8 nals in if is_unset sps || is_unset pps then none else some (sps, pps)

first_of-IsByte : (t : ℕ) (nals : List Bytes) → All (All IsByte) nals → All IsByte (first_of t nals)
first_of-IsByte t [] h = tt
first_of-IsByte t (nal ∷ nals) h = elim (Bool-cases (get_or nal 0 0 % 32 == t)) [
  | inl is ↦ rw is h.0
  | inr other ↦ rw other (first_of-IsByte t nals h.1)
]

module _ (scan : Headers → Headers) (world : ℕ → Answers) (i : ℕ) (s : Session) (m uri : Bytes)
    (hs : Headers) (z : ℤ) where
  -- What a request on the wire makes `feed` send is what it makes `handle` send.
  sent_by-feed :
      IsWellFormed m uri hs
      → lookup (codes "CSeq") (assign_all hs []) ≡ some (print_int z)
      → IsInt z
      → s.rx_buffer ≡ []
      → length (print_request m uri hs []) ≤ max_rx_buffer
      → sent_by (feed scan world i s (print_request m uri hs [])).actions
        ≡ sent_by (
            done_by (
              handle scan (world i) s (record {
                method = string_to_method m;
                uri = uri;
                cseq = z;
                headers = assign_all hs [];
              })))
  sent_by-feed form number fits idle small =
      rw (feed_handles scan world i s m uri hs z form number fits idle small) refl

  module _ (cfg : SourceConfig) (u : NalUnit) (us : List NalUnit) (file : Stream)
      (seen : List Bytes) where
    -- The hub of a file has been opened, and has then cached the parameter sets of the NAL units
    -- that it has seen since, as `on_nal` does with each: the bytes of a well-formed DESCRIBE with
    -- a CSeq that is an int, of at most 64 KiB, that arrive at a session with this hub and nothing
    -- in its buffer make `feed` send one text, from which a client takes exactly the first SPS and
    -- the first PPS among the first 64 NAL units of the file and then those seen since, when there
    -- are both, and none otherwise, and is left with what comes behind the message: for a file of
    -- clean NAL units of bytes, each behind a start code, however it is cut into reads, that is
    -- not named as the camera, NAL units since that are not empty, and parameter sets together
    -- shorter than 2^29.
    pub file_announced :
        bytes_eq cfg.source (codes "camera") ≡ false
        → All IsNalUnit (u ∷ us)
        → All (All IsByte) (nals_of (u ∷ us))
        → concat file ≡ annexb (u ∷ us)
        → All NonEmpty seen
        → All (All IsByte) seen
        → length (first_of 7 (take 64 (nals_of (u ∷ us)) ++ seen))
            + length (first_of 8 (take 64 (nals_of (u ∷ us)) ++ seen))
          < 2 ^ 29
        → (world i).sprop ≡ sprop_parameter_sets (cache_all seen (open_hub cfg (some file)))
        → s.has_hub ≡ true
        → s.rx_buffer ≡ []
        → IsWellFormed m uri hs
        → string_to_method m ≡ Method.describe
        → lookup (codes "CSeq") (assign_all hs []) ≡ some (print_int z)
        → IsInt z
        → length (print_request m uri hs []) ≤ max_rx_buffer
        → (text : Bytes) × (sent_by (feed scan world i s (print_request m uri hs [])).actions
            ≡ text ∷ [])
          × ((later : Bytes)
              → client_describe (text ++ later)
                ≡ some (announced (take 64 (nals_of (u ∷ us)) ++ seen), later))
    file_announced from_file clean bytes cut ne more small asked hub idle form is number fits
          short =
        let req : Request = record {
          method = string_to_method m;
          uri = uri;
          cseq = z;
          headers = assign_all hs [];
        } in
        let h : Hub = cache_all seen (open_hub cfg (some file)) in
        let nals : List Bytes = take 64 (nals_of (u ∷ us)) ++ seen in
        let (sps, pps) = prescan_then_caches cfg u us file seen from_file clean cut ne in
        let first : All (All IsByte) nals =
          All-append (All IsByte) (take 64 (nals_of (u ∷ us))) seen
            (All-take (All IsByte) 64 (nals_of (u ∷ us)) bytes) more in
        let (text, sent, read) =
          describe_announces scan (world i) s req h is hub asked (Lacks-OneLine uri form.uri_no_cr)
            (rw sps (first_of-IsByte 7 nals first)) (rw pps (first_of-IsByte 8 nals first))
            (rw (sps, pps) small) in
        (text, rw (sent_by-feed form number fits idle short) sent, rw (sps, pps) at read)
