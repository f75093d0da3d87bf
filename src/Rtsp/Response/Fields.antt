-- ===== src/Rtsp/Response/Fields.antt =====
-- A client's reading of a header of a response, by its name, against the response to a SETUP.
use veda_rtsp.Base.{
  ℕ, zero, suc, ◌+◌, ◌<◌, ◌≡◌, refl, if◌then◌else◌, Option, none, some, ◌>>=◌, List, [], ◌∷◌, ◌++◌,
  All, Bytes, codes, find, find_break, starts_with, length, take, drop, take-length-append, OneLine,
  ℤ, arith,
}
use veda_rtsp.Rtsp.Response.{setup}
use veda_rtsp.Rtsp.Response.Frame.{is_blank, message, IsLine, drop_line}
use veda_rtsp.Rtsp.Response.Framed.{transport_of, setup_lines, setup-message, setup_lines-IsLine}

-- The first line above the empty one that begins with the name, behind the name; a line a round.
unfoldable pub client_field : ℕ → Bytes → Bytes → Option Bytes
unfolding find starts_with
client_field zero name text = none
client_field (suc fuel) name text = find (codes "\r\n") text >>= λ at.
    let line = take at text in
    let more = client_field fuel name (drop (at + 2) text) in
    if is_blank line
    then none
    else if starts_with name line
    then some (drop (length name) line)
    else more

abbrev field_of : Bytes → List Bytes → Option Bytes
field_of name [] = none
field_of name (line ∷ lines) =
    let more = field_of name lines in
    if starts_with name line then some (drop (length name) line) else more

client_field-message :
    (fuel : ℕ) (name : Bytes) (lines : List Bytes) (body : Bytes)
    → All IsLine lines
    → length lines < fuel
    → client_field fuel name (message lines body) ≡ field_of name lines
unfolding client_field find starts_with
client_field-message zero name lines body h lt = absurd (omega arith)
client_field-message (suc fuel) name [] body h lt = refl
client_field-message (suc fuel) name (line ∷ lines) body h lt =
    let rest : Bytes = message lines body in
    rw
      (
        find_break line rest h.0.1,
        take-length-append line (13 ∷ 10 ∷ rest),
        drop_line line rest,
        h.0.0,
      )
      (rw (client_field-message fuel name lines body h.1 (omega arith)) refl)

-- What a client does with the response to its SETUP: it keeps the Session header, and reads the
-- Transport header.
abbrev pub client_session : Bytes → Option Bytes
client_session = client_field 64 (codes "Session: ")

abbrev pub client_transport : Bytes → Option Bytes
client_transport = client_field 64 (codes "Transport: ")

module _ (cseq : ℤ) (id : Bytes) (h : OneLine id) (a b c d : ℤ) (later : Bytes) where
  pub client_session-setup : client_session (setup cseq id a b c d ++ later) ≡ some id
  unfolding starts_with
  client_session-setup = rw (setup-message cseq id h a b c d later) (
      client_field-message 64 (codes "Session: ") (setup_lines cseq id h a b c d) later
        (setup_lines-IsLine cseq id h a b c d) (omega arith))

  pub client_transport-setup :
      client_transport (setup cseq id a b c d ++ later) ≡ some (drop 11 (transport_of a b c d))
  unfolding starts_with
  client_transport-setup = rw (setup-message cseq id h a b c d later) (
      client_field-message 64 (codes "Transport: ") (setup_lines cseq id h a b c d) later
        (setup_lines-IsLine cseq id h a b c d) (omega arith))
