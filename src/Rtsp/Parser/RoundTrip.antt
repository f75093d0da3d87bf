-- ===== src/Rtsp/Parser/RoundTrip.antt =====
-- A client's text of a request, and what the parser makes of it.
use native.Mathlib.Nat.{le_refl}
use veda_rtsp.Base.{
  ℕ, zero, suc, ◌≤◌, ◌≡◌, ◌≢◌, refl, sym, ap, ap₂, ◌∙◌, some, [], ◌∷◌, ◌++◌, append_assoc, Bytes,
  codes, length, All, Lacks, find_char-append, bytes_eq, arith, length-append, take-length-append,
  drop-length-suc, All-append,
}
use veda_rtsp.Rtsp.Parser.{
  Headers, trim, assign, add_header, header_loop, parse_request_line, string_to_method, finish,
  parse_headers, parse_request,
}
use veda_rtsp.Rtsp.Parser.Text.{next_line-append, line-append, rest-append}

-- "Name: value" and CR LF for each header, and the empty line.
abbrev pub print_headers : Headers → Bytes → Bytes
print_headers [] rest = 13 ∷ 10 ∷ rest
print_headers ((k, v) ∷ hs) rest = k ++ b':' ∷ b' ' ∷ (v ++ 13 ∷ 10 ∷ print_headers hs rest)

-- The request line, the headers, and whatever follows the empty line.
abbrev pub print_request : Bytes → Bytes → Headers → Bytes → Bytes
print_request method uri hs rest =
    method ++ b' ' ∷ (uri ++ b' ' ∷ (codes "RTSP/1.0" ++ 13 ∷ 10 ∷ print_headers hs rest))

-- A header that can stand on a line of its own, with no white space to trim.
pub record IsHeader (h : Bytes × Bytes) : Type 0 where
  pub name_no_colon : Lacks b':' h.0
  pub name_no_cr : Lacks 13 h.0
  pub value_no_cr : Lacks 13 h.1
  pub name_trimmed : trim h.0 ≡ h.0
  pub value_trimmed : trim h.1 ≡ h.1

-- The map that the assignments leave, in turn.
abbrev pub assign_all : Headers → Headers → Headers
assign_all [] acc = acc
assign_all ((k, v) ∷ hs) acc = assign_all hs (assign k v acc)

add_header-print :
    (k v : Bytes) (acc : Headers)
    → IsHeader (k, v)
    → add_header (k ++ b':' ∷ b' ' ∷ v) acc ≡ assign k v acc
unfolding add_header trim
add_header-print k v acc h =
    rw (find_char-append b':' k (b' ' ∷ v) h.name_no_colon, add_header)
      (ap₂ (λ (a b : Bytes). assign a b acc)
        (ap trim (take-length-append k (b':' ∷ b' ' ∷ v)) ∙ h.name_trimmed)
        (ap trim (drop-length-suc k b':' (b' ' ∷ v)) ∙ h.value_trimmed))

-- A line that is not empty is added, and the loop goes on behind it.
header_loop_line :
    (fuel : ℕ) (line raw : Bytes) (acc : Headers)
    → line ≢ []
    → Lacks 13 line
    → header_loop (suc fuel) (line ++ 13 ∷ 10 ∷ raw) acc
      ≡ header_loop fuel raw (add_header line acc)
unfolding header_loop
header_loop_line fuel [] raw acc ne h = absurd (ne refl)
header_loop_line fuel (x ∷ xs) raw acc ne h =
    rw (line-append (x ∷ xs) raw h, rest-append (x ∷ xs) raw h, header_loop) refl

header_loop_end :
    (fuel : ℕ) (raw : Bytes) (acc : Headers) → header_loop (suc fuel) (13 ∷ 10 ∷ raw) acc ≡ some acc
unfolding header_loop
header_loop_end fuel raw acc = rw (line-append [] raw tt, header_loop) refl

pub append-ne-nil : (k v : Bytes) → k ++ b' ' ∷ v ≢ []
append-ne-nil [] v e = cc
append-ne-nil (c ∷ k) v e = cc

line-ne-nil : (k v : Bytes) → k ++ b':' ∷ b' ' ∷ v ≢ []
line-ne-nil [] v e = cc
line-ne-nil (c ∷ k) v e = cc

line-no-cr : (k v : Bytes) → IsHeader (k, v) → Lacks 13 (k ++ b':' ∷ b' ' ∷ v)
line-no-cr k v h =
    All-append _ k (b':' ∷ b' ' ∷ v) h.name_no_cr (omega arith, (omega arith, h.value_no_cr))

header_loop-print :
    (fuel : ℕ) (hs acc : Headers) (rest : Bytes)
    → All IsHeader hs
    → length (print_headers hs rest) ≤ fuel
    → header_loop fuel (print_headers hs rest) acc ≡ some (assign_all hs acc)
header_loop-print zero [] acc rest h fits = absurd (omega arith)
header_loop-print (suc fuel) [] acc rest h fits = header_loop_end fuel rest acc
header_loop-print zero ((k, v) ∷ hs) acc rest h fits =
    absurd (omega (arith, length-append k (b':' ∷ b' ' ∷ (v ++ 13 ∷ 10 ∷ print_headers hs rest))))
header_loop-print (suc fuel) ((k, v) ∷ hs) acc rest h fits =
    let raw : Bytes = print_headers hs rest in
    let line : Bytes = k ++ b':' ∷ b' ' ∷ v in
    let whole : print_headers ((k, v) ∷ hs) rest ≡ line ++ 13 ∷ 10 ∷ raw =
      sym (append_assoc k (b':' ∷ b' ' ∷ v) (13 ∷ 10 ∷ raw)) in
    let shorter : length raw ≤ fuel =
      omega (arith, fits, ap length whole, length-append line (13 ∷ 10 ∷ raw)) in
    rw whole (
      header_loop_line fuel line raw acc (line-ne-nil k v) (line-no-cr k v h.0)
      ∙ ap (header_loop fuel raw) (add_header-print k v acc h.0)
      ∙ header_loop-print fuel hs (assign k v acc) rest h.1 shorter)

parse_request_line-print :
    (m uri : Bytes)
    → m ≢ []
    → Lacks b' ' m
    → Lacks b' ' uri
    → parse_request_line (m ++ b' ' ∷ (uri ++ b' ' ∷ codes "RTSP/1.0"))
      ≡ some (string_to_method m, uri)
unfolding parse_request_line bytes_eq
parse_request_line-print [] uri ne sm su = absurd (ne refl)
parse_request_line-print (c ∷ cs) uri ne sm su =
    let version : Bytes = codes "RTSP/1.0" in
    rw
      (
        find_char-append b' ' (c ∷ cs) (uri ++ b' ' ∷ version) sm,
        parse_request_line,
        drop-length-suc (c ∷ cs) b' ' (uri ++ b' ' ∷ version),
        find_char-append b' ' uri version su,
        drop-length-suc uri b' ' version,
        take-length-append uri (b' ' ∷ version),
        take-length-append cs (b' ' ∷ (uri ++ b' ' ∷ version)),
      )
      refl

-- The request line is read up to the first CR LF, and the headers behind it.
pub parse_request_line_first :
    (scan : Headers → Headers) (line raw : Bytes)
    → line ≢ []
    → Lacks 13 line
    → parse_request scan (line ++ 13 ∷ 10 ∷ raw) ≡ parse_headers scan (parse_request_line line) raw
unfolding parse_request
parse_request_line_first scan [] raw ne h = absurd (ne refl)
parse_request_line_first scan (c ∷ cs) raw ne h =
    ap (λ (p : Bytes × Bytes). parse_headers scan (parse_request_line p.0) p.1)
      (next_line-append (c ∷ cs) raw h)

-- A well-formed text is read as its method, its URI and its headers, each name once with the last
-- value given to it; what is left is the sequence number, which may throw.
pub parse_request-print_request :
    (scan : Headers → Headers) (m uri : Bytes) (hs : Headers) (rest : Bytes)
    → m ≢ []
    → Lacks b' ' m
    → Lacks 13 m
    → Lacks b' ' uri
    → Lacks 13 uri
    → All IsHeader hs
    → parse_request scan (print_request m uri hs rest)
      ≡ finish scan (string_to_method m) uri (assign_all hs [])
unfolding parse_headers
parse_request-print_request scan m uri hs rest ne sm cm su cu h =
    let raw : Bytes = print_headers hs rest in
    let version : Bytes = codes "RTSP/1.0" in
    let line : Bytes = m ++ b' ' ∷ (uri ++ b' ' ∷ version) in
    let whole : print_request m uri hs rest ≡ line ++ 13 ∷ 10 ∷ raw = simp append_assoc in
    let version-no-cr : Lacks 13 (b' ' ∷ version) = omega arith in
    let no_cr : Lacks 13 line =
      All-append _ m (b' ' ∷ (uri ++ b' ' ∷ version)) cm
        (omega arith, All-append _ uri (b' ' ∷ version) cu version-no-cr) in
    rw whole (
      parse_request_line_first scan line raw (append-ne-nil m (uri ++ b' ' ∷ version)) no_cr
      ∙ rw
          (
            parse_request_line-print m uri ne sm su,
            header_loop-print (length raw) hs [] rest h (le_refl (length raw)),
            parse_headers,
          )
          refl)
