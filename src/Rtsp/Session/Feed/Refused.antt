-- ===== src/Rtsp/Session/Feed/Refused.antt =====
-- session.cpp, `feed`: a text whose first line is no request line.
use veda_rtsp.Base.{
  ℕ, suc, ◌+◌, ◌≤◌, ◌≡◌, ◌≢◌, ◌∙◌, refl, false, none, [], ◌∷◌, ◌++◌, All, Lacks, Bytes, bytes_eq,
  codes, length, take, drop, drop-length-suc, take_all, drop_all, find, find_char-append,
  find_char-Lacks, arith,
}
use veda_rtsp.Rtsp.Parser.{Headers, refused, parse_request_line, parse_headers, parse_request}
use veda_rtsp.Rtsp.Parser.RoundTrip.{print_headers, IsHeader, parse_request_line_first}
use veda_rtsp.Rtsp.Session.Handlers.{Session, Answers}
use veda_rtsp.Rtsp.Session.Feed.{max_rx_buffer, empty_line, keeps_open, bad_request, process, feed}
use veda_rtsp.Rtsp.Session.Feed.Runs.{run_done, run_request}
use veda_rtsp.Rtsp.Session.Feed.Requests.{lines_EndsThere, feed_lem}

-- What a line lacks of `method SP uri SP RTSP/...`.
pub data IsBadLine : Bytes → Type 0 where
  no_space : {line : Bytes} → Lacks b' ' line → IsBadLine line
  one_space : (m uri : Bytes) → Lacks b' ' m → Lacks b' ' uri → IsBadLine (m ++ b' ' ∷ uri)
  no_rtsp :
      (m uri version : Bytes)
      → Lacks b' ' m
      → Lacks b' ' uri
      → bytes_eq (take 5 version) (codes "RTSP/") ≡ false
      → IsBadLine (m ++ b' ' ∷ (uri ++ b' ' ∷ version))

parse_request_line-IsBadLine :
    (line : Bytes) → line ≢ [] → IsBadLine line → parse_request_line line ≡ none
unfolding parse_request_line
parse_request_line-IsBadLine [] ne bad = absurd (ne refl)
parse_request_line-IsBadLine (c ∷ cs) ne bad = go bad refl
  where
    go : {line : Bytes} → IsBadLine line → c ∷ cs ≡ line → parse_request_line (c ∷ cs) ≡ none
    go (no_space {line = rest} h) e = rw (e, find_char-Lacks b' ' rest h) refl
    go (one_space m uri h k) e =
        rw
          (e, find_char-append b' ' m uri h, drop-length-suc m b' ' uri, find_char-Lacks b' ' uri k)
          refl
    go (no_rtsp m uri version h k other) e =
        rw
          (
            e,
            find_char-append b' ' m (uri ++ b' ' ∷ version) h,
            drop-length-suc m b' ' (uri ++ b' ' ∷ version),
            find_char-append b' ' uri version k,
            drop-length-suc uri b' ' version,
            other,
          )
          refl

-- The line with header lines behind it.
abbrev pub bad_text : Bytes → Headers → Bytes
bad_text line hs = line ++ 13 ∷ 10 ∷ print_headers hs []

module _ (scan : Headers → Headers) (world : ℕ → Answers) (i : ℕ) (s : Session) (line : Bytes)
    (hs : Headers) where
  -- A text whose first line is not empty, has no CR and is no request line (it has no space, or
  -- one, or what stands behind the second space does not begin with RTSP/), with well-formed
  -- header lines and the empty line behind it, of at most 64 KiB, that arrives at a session with
  -- nothing in its buffer is answered with the one 400 that has the CSeq 0; the session stays
  -- exactly as it was and the connection open.
  pub feed_refuses :
      line ≢ []
      → IsBadLine line
      → Lacks 13 line
      → All IsHeader hs
      → s.rx_buffer ≡ []
      → length (bad_text line hs) ≤ max_rx_buffer
      → feed scan world i s (bad_text line hs)
        ≡ record { session = s; actions = bad_request; handled = suc i; ending = keeps_open }
  unfolding process parse_headers
  feed_refuses ne bad no_cr headers idle small =
      let text : Bytes = bad_text line hs in
      let (at, found, long) = lines_EndsThere hs line headers no_cr in
      let cut : take (at + 4) (bad_text line hs) ≡ (bad_text line hs) =
        take_all (at + 4) (bad_text line hs) (omega (arith, long)) in
      let left : drop (at + 4) text ≡ [] = drop_all (at + 4) text (omega (arith, long)) in
      let refuses : parse_request scan text ≡ refused =
        parse_request_line_first scan line (print_headers hs []) ne no_cr
        ∙ rw (parse_request_line-IsBadLine line ne bad) refl in
      let emptied : Session = record s { rx_buffer = [] } in
      let same : emptied ≡ s = rw (← idle) refl in
      let nothing : find empty_line [] ≡ none = unfold find in refl in
      feed_lem scan world i s text idle small
      ∙ run_request scan world i (record s { rx_buffer = text }) at found
      ∙ rw (cut, left, refuses, run_done scan world (suc i) emptied nothing, same) refl
