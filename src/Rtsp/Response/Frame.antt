-- ===== src/Rtsp/Response/Frame.antt =====
-- A client's reading of one response off the connection (RFC 2326 sections 4.4 and 12.14): the header
-- lines up to an empty one, and as many bytes as Content-Length says.
use veda_rtsp.Base.{
  ℕ, zero, suc, ◌+◌, ◌<◌, ◌≡◌, refl, Bool, true, false, if◌then◌else◌, leb, Option, none, some,
  ◌>>=◌, List, [], ◌∷◌, ◌++◌, All, OneLine, find_break, Bytes, codes, find, starts_with, length,
  take, drop, take-length-append, drop-length-append, length-append, stoi, ℤ, pos, negsuc, arith,
}

abbrev pub is_blank : Bytes → Bool
is_blank [] = true
is_blank (c ∷ cs) = false

-- The length a text says, `n` where it says none.
abbrev said : ℕ → Option ℤ → ℕ
said n none = n
said n (some (pos m)) = m
said n (some (negsuc m)) = n

-- What a header line says of the length of the body.
unfoldable pub content_length : ℕ → Bytes → ℕ
unfolding starts_with stoi
content_length n line =
    if starts_with (codes "Content-Length: ") line then said n (stoi (drop 16 line)) else n

-- The length of the body, and what is behind the empty line; a line a round.
unfoldable pub client_headers : ℕ → ℕ → Bytes → Option (ℕ × Bytes)
unfolding find content_length
client_headers zero n text = none
client_headers (suc fuel) n text = find (codes "\r\n") text >>= λ at.
    let line = take at text in
    let later = drop (at + 2) text in
    let more = client_headers fuel (content_length n line) later in
    if is_blank line then some (n, later) else more

-- The body and what is behind it, for a client that takes up to 64 header lines.
unfoldable pub client_message : Bytes → Option (Bytes × Bytes)
unfolding client_headers
client_message text = client_headers 64 0 text >>= λ read.
    if leb (read.0) (length (read.1))
    then some (take (read.0) (read.1), drop (read.0) (read.1))
    else none

-- Header lines, the empty line, and the body.
abbrev pub message : List Bytes → Bytes → Bytes
message [] body = 13 ∷ 10 ∷ body
message (line ∷ lines) body = line ++ 13 ∷ 10 ∷ message lines body

-- A header line is not empty and has no CR LF.
abbrev pub IsLine : Bytes → Type 0
IsLine line = (is_blank line ≡ false) × OneLine line

abbrev pub length_said : ℕ → List Bytes → ℕ
length_said n [] = n
length_said n (line ∷ lines) = length_said (content_length n line) lines

pub drop_line : (s rest : Bytes) → drop (length s + 2) (s ++ 13 ∷ 10 ∷ rest) ≡ rest
drop_line [] rest = refl
drop_line (c ∷ s) rest =
    let more : suc (length s) + 2 ≡ suc (length s + 2) = omega arith in rw more (drop_line s rest)

client_headers-message :
    (fuel n : ℕ) (lines : List Bytes) (body : Bytes)
    → All IsLine lines
    → length lines < fuel
    → client_headers fuel n (message lines body) ≡ some (length_said n lines, body)
unfolding client_headers find starts_with
client_headers-message zero n lines body h lt = absurd (omega arith)
client_headers-message (suc fuel) n [] body h lt = refl
client_headers-message (suc fuel) n (line ∷ lines) body h lt =
    let rest : Bytes = message lines body in
    rw
      (
        find_break line rest h.0.1,
        take-length-append line (13 ∷ 10 ∷ rest),
        drop_line line rest,
        h.0.0,
      )
      (client_headers-message fuel (content_length n line) lines body h.1 (omega arith))

-- A message whose lines say the length of its body is read as that body, whatever follows.
pub client_message-message :
    (lines : List Bytes) (body later : Bytes)
    → All IsLine lines
    → length lines < 64
    → length_said 0 lines ≡ length body
    → client_message (message lines (body ++ later)) ≡ some (body, later)
unfolding client_message
client_message-message lines body later h few said_length =
    let long : leb (length body) (length (body ++ later)) ≡ true =
      ground (arith, length-append body later) in
    rw
      (
        client_headers-message 64 0 lines (body ++ later) h few,
        said_length,
        long,
        take-length-append body later,
        drop-length-append body later,
      )
      refl

-- So many messages, one behind the other, and nothing else.
unfoldable pub client_messages : ℕ → Bytes → Option (List Bytes)
unfolding client_message
client_messages zero [] = some []
client_messages zero (c ∷ cs) = none
client_messages (suc n) text = do
  read ← client_message text
  bodies ← client_messages n (read.1)
  some (read.0 ∷ bodies)
