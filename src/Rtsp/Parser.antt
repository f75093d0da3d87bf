-- ===== src/Rtsp/Parser.antt =====
-- src/rtsp/parser.hpp and parser.cpp: one request, from its bytes.
pub mod Text
pub mod Headers
pub mod RoundTrip
pub mod Total
pub mod Sequence
pub mod Uri
use mathlib.Core.List.{reverse}
use veda_rtsp.Base.{
  ℕ, zero, suc, ◌+◌, Bool, true, false, ◌&&◌, not, if◌then◌else◌, leb, ◌==◌, Option, none, some,
  ◌>>=◌, List, [], ◌∷◌, Bytes, codes, length, take, drop, find, find_char, bytes_eq, ℤ, pos,
  is_space, stoi,
}

pub data Method : Type 0 where
  options describe setup play pause teardown get_parameter unknown : Method

abbrev pub Headers : Type 0
Headers = List (Bytes × Bytes)

pub record Request : Type 0 where
  pub method : Method
  pub uri : Bytes
  pub cseq : ℤ
  pub headers : Headers

unfoldable pub trim_front : Bytes → Bytes
trim_front [] = []
trim_front (c ∷ cs) = if is_space c then trim_front cs else c ∷ cs

-- The second loop removes white space from the back.
unfoldable pub trim : Bytes → Bytes
unfolding trim_front
trim sv = reverse (trim_front (reverse (trim_front sv)))

-- std::tolower in the "C" locale.
unfoldable pub to_lower : ℕ → ℕ
to_lower c = if leb b'A' c && leb c b'Z' then c + 32 else c

-- The loop of `iequals`, on texts of one length.
unfoldable pub same_letters : Bytes → Bytes → Bool
unfolding to_lower
same_letters (x ∷ a) (y ∷ b) =
    let rest = same_letters a b in if to_lower x == to_lower y then rest else false
same_letters _ _ = true

unfoldable pub iequals : Bytes → Bytes → Bool
unfolding same_letters
iequals a b = if length a == length b then same_letters a b else false

unfoldable pub string_to_method : Bytes → Method
unfolding iequals
string_to_method s =
    if iequals s (codes "OPTIONS")
    then options
    else if iequals s (codes "DESCRIBE")
    then describe
    else if iequals s (codes "SETUP")
    then setup
    else if iequals s (codes "PLAY")
    then play
    else if iequals s (codes "PAUSE")
    then pause
    else if iequals s (codes "TEARDOWN")
    then teardown
    else if iequals s (codes "GET_PARAMETER")
    then get_parameter
    else unknown

abbrev pub crlf : Bytes
crlf = 13 ∷ 10 ∷ []

-- The line, and the text that is left.
unfoldable pub next_line : Bytes → Bytes × Bytes
next_line text = elim (find crlf text) [
  | none ↦ (text, [])
  | some at ↦ (take at text, drop (at + 2) text)
]

-- `headers[key] = value`. The list has each key once, in no order that the program relies on.
unfoldable pub assign : Bytes → Bytes → Headers → Headers
assign key value [] = (key, value) ∷ []
assign key value ((k, v) ∷ hs) =
    if bytes_eq k key then (k, value) ∷ hs else (k, v) ∷ assign key value hs

-- `headers.find(key)`
unfoldable pub lookup : Bytes → Headers → Option Bytes
lookup key [] = none
lookup key ((k, v) ∷ hs) = if bytes_eq k key then some v else lookup key hs

-- The first header, in the order of the scan, whose name is `name` but for letter case.
unfoldable pub scan_for : Bytes → Headers → Option Bytes
scan_for name [] = none
scan_for name ((k, v) ∷ hs) = if iequals k name then some v else scan_for name hs

-- One line of the header part: with no colon it is ignored.
unfoldable pub add_header : Bytes → Headers → Headers
add_header line hs = elim (find_char b':' line) [
  | none ↦ hs
  | some colon ↦ assign (trim (take colon line)) (trim (drop (colon + 1) line)) hs
]

-- `while (!raw.empty())`; `none` means that the fuel ran out.
unfoldable pub header_loop : ℕ → Bytes → Headers → Option Headers
header_loop fuel [] hs = some hs
header_loop zero (c ∷ cs) hs = none
header_loop (suc fuel) (c ∷ cs) hs =
    let (line, raw) = next_line (c ∷ cs) in
    elim line [ [] ↦ some hs | x ∷ xs ↦ header_loop fuel raw (add_header (x ∷ xs) hs) ]

-- A request, std::nullopt, an exception of `std::stoi`, or a loop that is out of fuel.
pub data Outcome : Type 0 where
  parsed : Request → Outcome
  refused : Outcome
  thrown : Outcome
  stuck : Outcome

-- The rules of the request line: two spaces, and a version that begins with "RTSP/".
unfoldable pub parse_request_line : Bytes → Option (Method × Bytes)
unfolding string_to_method
parse_request_line [] = none
parse_request_line (c ∷ cs) = do
  let line = c ∷ cs
  space1 ← find_char b' ' line
  let rest = drop (space1 + 1) line
  space2 ← find_char b' ' rest
  let version = drop (space2 + 1) rest
  if bytes_eq (take 5 version) (codes "RTSP/")
      then some (string_to_method (take space1 line), take space2 rest)
      else none

-- The order in which an unordered_map is walked is the library's: `scan` gives it.
module _ (scan : Headers → Headers) where
  -- `CSeq` exactly, else the first name that differs in letter case alone, else 0.
  unfoldable pub cseq_of : Headers → Option ℤ
  cseq_of hs = elim (lookup (codes "CSeq") hs) [
    | some v ↦ stoi v
    | none ↦ elim (scan_for (codes "CSeq") (scan hs)) [ some v ↦ stoi v | none ↦ some (pos 0) ]
  ]

  unfoldable pub finish : Method → Bytes → Headers → Outcome
  unfolding cseq_of
  finish method uri hs = elim (cseq_of hs) [
    | none ↦ thrown
    | some n ↦ parsed (record { method = method; uri = uri; cseq = n; headers = hs })
  ]

  -- Behind the request line; each line that is read takes a byte at least.
  unfoldable pub parse_headers : Option (Method × Bytes) → Bytes → Outcome
  parse_headers none raw = refused
  parse_headers (some (method, uri)) raw = elim (header_loop (length raw) raw []) [
    | none ↦ stuck
    | some hs ↦ finish method uri hs
  ]

  unfoldable pub parse_request : Bytes → Outcome
  parse_request [] = refused
  parse_request (c ∷ cs) =
      let (line, raw) = next_line (c ∷ cs) in parse_headers (parse_request_line line) raw

  -- `header(req, name)`
  unfoldable pub header : Request → Bytes → Option Bytes
  header req name = scan_for name (scan req.headers)
