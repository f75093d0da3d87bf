-- ===== src/Rtsp/Session/Feed/Requests.antt =====
-- session.cpp, `feed`: a request off the wire: where `feed` cuts it, and what it does with it.
use veda_rtsp.Base.{
  ℕ, suc, ◌+◌, ◌≤◌, ◌≡◌, ◌≢◌, ◌∙◌, ap, refl, false, if◌then◌else◌, ltb, Bool-cases, inl, inr, none,
  some, [], ◌∷◌, ◌++◌, append_assoc, append-nil, All, All-append, Lacks, Bytes, codes, length,
  length-append, take, drop, take_all, drop_all, find, starts_with, ℤ, IsInt, print_int, arith,
}
use veda_rtsp.Rtsp.Parser.{Headers, Request, lookup, string_to_method, parsed, parse_request}
use veda_rtsp.Rtsp.Parser.RoundTrip.{print_headers, print_request, IsHeader, assign_all}
use veda_rtsp.Rtsp.Parser.Sequence.{IsWellFormed, parse_request_reads}
use veda_rtsp.Rtsp.Session.Handlers.{Session, Answers, Reply, handle}
use veda_rtsp.Rtsp.Session.Handlers.Frame.{handle-rx_buffer}
use veda_rtsp.Rtsp.Session.Feed.{
  max_rx_buffer, empty_line, keeps_open, closes, Fed, is_closed, done_by, after_reply, process,
  feed,
}
use veda_rtsp.Rtsp.Session.Feed.Runs.{run, run_done, run_request}

skip_line :
    (line s : Bytes) (i : ℕ)
    → Lacks 13 line
    → find empty_line s ≡ some i
    → find empty_line (line ++ s) ≡ some (length line + i)
unfolding find starts_with
skip_line [] s i h e = rw e (ap (λ (n : ℕ). some n) (omega arith))
skip_line (c ∷ line) s i h e = ground (arith, skip_line line s i h.1 e)

-- A line that another one follows.
skip_crlf :
    (c : ℕ) (s : Bytes) (i : ℕ)
    → c ≢ 13
    → find empty_line (c ∷ s) ≡ some i
    → find empty_line (13 ∷ 10 ∷ c ∷ s) ≡ some (2 + i)
unfolding find starts_with
skip_crlf c s i ne e = ground (arith, e)

find_at_once : (rest : Bytes) → find empty_line (13 ∷ 10 ∷ 13 ∷ 10 ∷ rest) ≡ some 0
unfolding find starts_with
find_at_once rest = refl

-- The empty line is found at the end of the text.
abbrev pub EndsThere : Bytes → Type 0
EndsThere text = (at : ℕ) × (find empty_line text ≡ some at) × (at + 4 ≡ length text)

header_front :
    (k s : Bytes) → Lacks 13 k → (c : ℕ) × (cs : Bytes) × (k ++ b':' ∷ s ≡ c ∷ cs) × (c ≢ 13)
header_front [] s h = (b':', s, refl, omega arith)
header_front (c ∷ k) s h = (c, k ++ b':' ∷ s, refl, h.0)

pub lines_EndsThere :
    (hs : Headers) (line : Bytes)
    → All IsHeader hs
    → Lacks 13 line
    → EndsThere (line ++ 13 ∷ 10 ∷ print_headers hs [])
lines_EndsThere [] line v h = (
  length line + 0,
  skip_line line (13 ∷ 10 ∷ 13 ∷ 10 ∷ []) 0 h (find_at_once []),
  omega (arith, length-append line (13 ∷ 10 ∷ 13 ∷ 10 ∷ [])),
)
lines_EndsThere ((k, value) ∷ hs) line v h =
    let later : Bytes = print_headers hs [] in
    let next_line : Bytes = k ++ b':' ∷ b' ' ∷ value in
    let no_cr : Lacks 13 next_line =
      All-append _ k (b':' ∷ b' ' ∷ value) v.0.name_no_cr
        (omega arith, (omega arith, v.0.value_no_cr)) in
    let (at, found, long) = lines_EndsThere hs next_line v.1 no_cr in
    let joined : next_line ++ 13 ∷ 10 ∷ later ≡ k ++ b':' ∷ b' ' ∷ (value ++ 13 ∷ 10 ∷ later) =
      append_assoc k (b':' ∷ b' ' ∷ value) (13 ∷ 10 ∷ later) in
    let (c, cs, front, ne) = header_front k (b' ' ∷ (value ++ 13 ∷ 10 ∷ later)) v.0.name_no_cr in
    let text : Bytes = k ++ b':' ∷ b' ' ∷ (value ++ 13 ∷ 10 ∷ later) in
    let here : find empty_line text ≡ some at = rw joined at found in
    let behind : find empty_line (13 ∷ 10 ∷ text) ≡ some (2 + at) =
      rw front (skip_crlf c cs at ne (rw front at here)) in
    (
      length line + (2 + at),
      skip_line line (13 ∷ 10 ∷ text) (2 + at) h behind,
      omega (arith, length-append line (13 ∷ 10 ∷ text), rw joined at long),
    )

pub print_request-EndsThere :
    (m uri : Bytes) (hs : Headers) → IsWellFormed m uri hs → EndsThere (print_request m uri hs [])
print_request-EndsThere m uri hs form =
    let line : Bytes = m ++ b' ' ∷ (uri ++ b' ' ∷ codes "RTSP/1.0") in
    let no_cr : Lacks 13 line =
      All-append _ m (b' ' ∷ (uri ++ b' ' ∷ codes "RTSP/1.0")) form.method_no_cr
        (omega arith, All-append _ uri (b' ' ∷ codes "RTSP/1.0") form.uri_no_cr (ground arith)) in
    rw (append_assoc m, append_assoc uri) at (lines_EndsThere hs line form.header_lines no_cr)

module _ (scan : Headers → Headers) (world : ℕ → Answers) where
  -- What is left of `feed` when one request is handled and nothing else is in the buffer.
  abbrev pub handled_once : ℕ → Reply → Fed
  handled_once i r = record {
    session = r.session;
    actions = done_by r;
    handled = suc i;
    ending = if is_closed r.session.state then closes else keeps_open;
  }

  after_reply_empty :
      (i : ℕ) (r : Reply)
      → r.session.rx_buffer ≡ []
      → after_reply scan world (run scan world (suc i)) i r ≡ handled_once i r
  unfolding after_reply
  after_reply_empty i r e = elim (Bool-cases (is_closed r.session.state)) [
    | inl shut ↦ rw (shut, append-nil (done_by r)) refl
    | inr open_still ↦
        let nothing : find empty_line r.session.rx_buffer ≡ none = rw e (unfold find in refl) in
        rw (open_still, run_done scan world (suc i) r.session nothing, append-nil (done_by r)) refl
  ]

  request_once :
      (i at : ℕ) (s : Session) (req : Request)
      → find empty_line s.rx_buffer ≡ some at
      → at + 4 ≡ length s.rx_buffer
      → parse_request scan s.rx_buffer ≡ parsed req
      → run scan world i s
        ≡ handled_once i (handle scan (world i) (record s { rx_buffer = [] }) req)
  unfolding process
  request_once i at s req found long parses =
      let cut : take (at + 4) s.rx_buffer ≡ s.rx_buffer =
        take_all (at + 4) s.rx_buffer (omega (arith, long)) in
      let left : drop (at + 4) s.rx_buffer ≡ [] =
        drop_all (at + 4) s.rx_buffer (omega (arith, long)) in
      run_request scan world i s at found
      ∙ rw (cut, left, parses)
          (after_reply_empty i (handle scan (world i) (record s { rx_buffer = [] }) req)
            (handle-rx_buffer scan (world i) (record s { rx_buffer = [] }) req))

  pub feed_lem :
      (i : ℕ) (s : Session) (text : Bytes)
      → s.rx_buffer ≡ []
      → length text ≤ max_rx_buffer
      → feed scan world i s text ≡ run scan world i (record s { rx_buffer = text })
  unfolding feed
  feed_lem i s text idle small =
      let fits_in : ltb max_rx_buffer (length text) ≡ false = ground arith in
      rw (idle, fits_in) refl

  -- A well-formed request whose CSeq header is the text of an int, of at most 64 KiB, that arrives
  -- at a session with nothing in its buffer makes `feed` do exactly what `handle` does with its
  -- method, its URI, that int and its headers, once: the same session and the same actions with
  -- the response behind them, and the connection is closed exactly if the session then is.
  pub feed_handles :
      (i : ℕ) (s : Session) (m uri : Bytes) (hs : Headers) (z : ℤ)
      → IsWellFormed m uri hs
      → lookup (codes "CSeq") (assign_all hs []) ≡ some (print_int z)
      → IsInt z
      → s.rx_buffer ≡ []
      → length (print_request m uri hs []) ≤ max_rx_buffer
      → feed scan world i s (print_request m uri hs [])
        ≡ handled_once i (
            handle scan (world i) s (record {
              method = string_to_method m;
              uri = uri;
              cseq = z;
              headers = assign_all hs [];
            }))
  feed_handles i s m uri hs z form number fits idle small =
      let req : Request = record {
        method = string_to_method m;
        uri = uri;
        cseq = z;
        headers = assign_all hs [];
      } in
      let text : Bytes = print_request m uri hs [] in
      let (at, found, long) = print_request-EndsThere m uri hs form in
      let same : record s { rx_buffer = [] } ≡ s = rw (← idle) refl in
      feed_lem i s text idle small
      ∙ request_once i at (record s { rx_buffer = text }) req found long
          (parse_request_reads scan m uri hs [] form z number fits)
      ∙ ap (λ (t : Session). handled_once i (handle scan (world i) t req)) same
