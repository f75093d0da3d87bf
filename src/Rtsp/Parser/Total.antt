-- ===== src/Rtsp/Parser/Total.antt =====
-- src/rtsp/parser.cpp: the loops of the parser, and their fuel.
use veda_rtsp.Base.{
  ℕ, zero, suc, ◌+◌, ◌≤◌, ◌≢◌, Option, none, some, Option-cases, inl, inr, [], ◌∷◌, Bytes, length,
  length-drop, find, find-le, arith, Option-cases,
}
use native.Mathlib.Nat.{le_refl}
use veda_rtsp.Rtsp.Parser.{
  Method, Headers, crlf, next_line, add_header, header_loop, stuck, finish, parse_headers,
  parse_request, parse_request_line,
}

-- A line that is read leaves a shorter text.
pub next_line_shortens : (c : ℕ) (cs : Bytes) → length (next_line (c ∷ cs)).1 ≤ length cs
unfolding next_line
next_line_shortens c cs = elim (Option-cases (find crlf (c ∷ cs))) [
  | inl nothing ↦ rw (nothing, next_line) (omega arith)
  | inr (at, found) ↦
      rw (found, next_line)
        (omega (arith, length-drop (at + 2) (c ∷ cs), find-le crlf (c ∷ cs) found))
]

header_loop_total :
    (fuel : ℕ) (raw : Bytes) (hs : Headers) → length raw ≤ fuel → header_loop fuel raw hs ≢ none
unfolding header_loop
header_loop_total zero [] hs h = λ e. cc
header_loop_total (suc fuel) [] hs h = λ e. cc
header_loop_total zero (c ∷ cs) hs h = absurd (omega arith)
header_loop_total (suc fuel) (c ∷ cs) hs h = line_total (next_line (c ∷ cs)).0 (
    header_loop_total fuel (next_line (c ∷ cs)).1 (add_header (next_line (c ∷ cs)).0 hs)
      (omega (arith, next_line_shortens c cs)))
  where
    line_total :
        (line : Bytes)
        → header_loop fuel (next_line (c ∷ cs)).1 (add_header line hs) ≢ none
        → ◌≢◌ {A = Option Headers}
            (elim line [
              | [] ↦ some hs
              | x ∷ xs ↦ header_loop fuel (next_line (c ∷ cs)).1 (add_header (x ∷ xs) hs)
            ])
            none
    line_total [] later = λ e. cc
    line_total (x ∷ xs) later = later

module _ (scan : Headers → Headers) where
  finish-ne-stuck : (m : Method) (uri : Bytes) (hs : Headers) → finish scan m uri hs ≢ stuck
  unfolding finish
  finish-ne-stuck m uri hs = ground arith

  parse_headers-ne-stuck :
      (first : Option (Method × Bytes)) (raw : Bytes) → parse_headers scan first raw ≢ stuck
  unfolding parse_headers
  parse_headers-ne-stuck none raw = λ e. cc
  parse_headers-ne-stuck (some (m, uri)) raw =
      elim (Option-cases (header_loop (length raw) raw [])) [
        | inl endless ↦
            absurd (header_loop_total (length raw) raw [] (le_refl (length raw)) endless)
        | inr (hs, ends) ↦ rw (ends, parse_headers) (finish-ne-stuck m uri hs)
      ]

  -- The parser ends on every input: with a request, a refusal or an exception.
  pub parse_request_total : (raw : Bytes) → parse_request scan raw ≢ stuck
  unfolding parse_request
  parse_request_total [] = λ e. cc
  parse_request_total (c ∷ cs) =
      parse_headers-ne-stuck (parse_request_line (next_line (c ∷ cs)).0) (next_line (c ∷ cs)).1
