-- ===== src/Rtsp/Parser/Sequence.antt =====
-- src/rtsp/parser.cpp: the CSeq header of a well-formed request.
use veda_rtsp.Base.{
  ◌≡◌, ◌≢◌, ◌∙◌, none, some, [], Bytes, codes, All, Lacks, ℤ, IsInt, print_int, stoi,
}
use veda_rtsp.Rtsp.Parser.{Headers, lookup, string_to_method, parsed, thrown, parse_request}
use veda_rtsp.Rtsp.Parser.Headers.{finish_reads, finish_throws}
use veda_rtsp.Rtsp.Parser.RoundTrip.{
  print_request, IsHeader, assign_all, parse_request-print_request,
}

-- What a client has to keep to when it writes a request.
pub record IsWellFormed (m uri : Bytes) (hs : Headers) : Type 0 where
  pub method_ne_nil : m ≢ []
  pub method_no_space : Lacks b' ' m
  pub method_no_cr : Lacks 13 m
  pub uri_no_space : Lacks b' ' uri
  pub uri_no_cr : Lacks 13 uri
  pub header_lines : All IsHeader hs

module _ (scan : Headers → Headers) (m uri : Bytes) (hs : Headers) (rest : Bytes)
    (form : IsWellFormed m uri hs) where
  -- A well-formed request whose CSeq header is the text of an int is parsed to its method, its
  -- URI, that int and its headers, whatever bytes follow the empty line.
  pub parse_request_reads :
      (z : ℤ)
      → lookup (codes "CSeq") (assign_all hs []) ≡ some (print_int z)
      → IsInt z
      → parse_request scan (print_request m uri hs rest)
        ≡ parsed (record {
          method = string_to_method m;
          uri = uri;
          cseq = z;
          headers = assign_all hs [];
        })
  parse_request_reads z e h =
      parse_request-print_request scan m uri hs rest form.method_ne_nil form.method_no_space
        form.method_no_cr form.uri_no_space form.uri_no_cr form.header_lines
      ∙ finish_reads scan (string_to_method m) uri z (assign_all hs []) e h

  -- A well-formed request whose CSeq header is no number in the range of int makes the parser
  -- throw.
  pub parse_request_throws :
      (v : Bytes)
      → lookup (codes "CSeq") (assign_all hs []) ≡ some v
      → stoi v ≡ none
      → parse_request scan (print_request m uri hs rest) ≡ thrown
  parse_request_throws v e bad =
      parse_request-print_request scan m uri hs rest form.method_ne_nil form.method_no_space
        form.method_no_cr form.uri_no_space form.uri_no_cr form.header_lines
      ∙ finish_throws scan (string_to_method m) uri v (assign_all hs []) e bad
