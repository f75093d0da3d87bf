-- ===== src/Rtsp/Parser/Uri.antt =====
-- src/rtsp/parser.cpp: the URI of a request, as a part of a line.
use veda_rtsp.Base.{
  ◌+◌, ◌≡◌, refl, Option-cases, inl, inr, Option, none, some, [], ◌∷◌, Bytes, length, take, drop,
  find, find_char, OneLine, OneLine-take, OneLine-drop, none-OneLine, some-OneLine, arith,
}
use veda_rtsp.Rtsp.Parser.{
  Method, Headers, Request, crlf, next_line, header_loop, parsed, finish, parse_headers,
  parse_request, parse_request_line,
}

next_line-OneLine : (text : Bytes) → OneLine (next_line text).0
unfolding next_line
next_line-OneLine text = elim (Option-cases (find crlf text)) [
  | inl nothing ↦ rw (nothing, next_line) (none-OneLine text nothing)
  | inr (at, found) ↦ rw (found, next_line) (some-OneLine text at found)
]

parse_request_line-OneLine :
    (line : Bytes) (m : Method) (uri : Bytes)
    → OneLine line
    → parse_request_line line ≡ some (m, uri)
    → OneLine uri
unfolding parse_request_line
parse_request_line-OneLine [] m uri h e = cc
parse_request_line-OneLine (c ∷ cs) m uri h e = elim (Option-cases (find_char b' ' (c ∷ cs))) [
  | inl nothing ↦ cc
  | inr (i, first) ↦ elim (Option-cases (find_char b' ' (drop (i + 1) (c ∷ cs)))) [
    | inl nothing ↦ absurd (ground (arith, first, nothing))
    | inr (j, second) ↦
        let same : uri ≡ take j (drop (i + 1) (c ∷ cs)) = ground (arith, first, second) in
        rw same (OneLine-take j _ (OneLine-drop (i + 1) (c ∷ cs) h))
  ]
]

module _ (scan : Headers → Headers) where
  finish-uri :
      (m : Method) (uri : Bytes) (hs : Headers) (req : Request)
      → finish scan m uri hs ≡ parsed req
      → req.uri ≡ uri
  unfolding finish
  finish-uri m uri hs req e = ground arith

  parse_headers-OneLine :
      (first : Option (Method × Bytes)) (raw : Bytes) (req : Request)
      → ((m : Method) (uri : Bytes) → first ≡ some (m, uri) → OneLine uri)
      → parse_headers scan first raw ≡ parsed req
      → OneLine req.uri
  unfolding parse_headers
  parse_headers-OneLine none raw req h e = cc
  parse_headers-OneLine (some (m, uri)) raw req h e =
      elim (Option-cases (header_loop (length raw) raw [])) [
        | inl endless ↦ absurd (ground (arith, endless))
        | inr (hs, ends) ↦
            rw (finish-uri m uri hs req (rw (ends, parse_headers) at e)) (h m uri refl)
      ]

  -- The URI of a request that the parser returns has no CR LF, whatever the bytes are.
  pub parse_request-OneLine :
      (raw : Bytes) (req : Request) → parse_request scan raw ≡ parsed req → OneLine req.uri
  unfolding parse_request
  parse_request-OneLine [] req e = cc
  parse_request-OneLine (c ∷ cs) req e =
      parse_headers-OneLine (parse_request_line (next_line (c ∷ cs)).0) (next_line (c ∷ cs)).1 req
        (λ m uri found.
          parse_request_line-OneLine (next_line (c ∷ cs)).0 m uri (next_line-OneLine (c ∷ cs))
            found)
        e
