-- ===== src/Rtsp/Response/Framed.antt =====
-- src/rtsp/response.cpp: each response as one message of the client of Frame.
use veda_rtsp.Base.{
  ◌<◌, ◌^◌, ◌≡◌, refl, some, List, [], ◌∷◌, ◌++◌, All, All-append, Lacks, OneLine, OneLine-append,
  Lacks-OneLine, Bytes, codes, length, append_assoc, starts_with, stoi, stoi-print_int, ℤ, pos,
  print_int, print_nat, print_int-Lacks, print_nat-Lacks, arith,
}
use veda_rtsp.Rtsp.Response.{
  cseq_line, session_line, port_pair, ok, ok_session, options, describe, setup, play, teardown,
  error,
}
use veda_rtsp.Rtsp.Response.Frame.{
  content_length, client_message, message, IsLine, length_said, client_message-message,
}

-- A client reads the text as one message with that body, and has left what comes behind it.
abbrev pub IsFramed : Bytes → Bytes → Type 0
IsFramed body text = (later : Bytes) → client_message (text ++ later) ≡ some (body, later)

abbrev pub status : Bytes
status = codes "RTSP/1.0 200 OK"

pub status-IsLine : IsLine status
status-IsLine = (refl, Lacks-OneLine status (ground arith))

-- The lines that are always the same.
abbrev public_line : Bytes
public_line = codes "Public: OPTIONS, DESCRIBE, SETUP, PLAY, PAUSE, TEARDOWN, GET_PARAMETER"

abbrev range_line : Bytes
range_line = codes "Range: npt=0.000-"

abbrev type_line : Bytes
type_line = codes "Content-Type: application/sdp"

public_line-IsLine : IsLine public_line
public_line-IsLine = (refl, Lacks-OneLine public_line (ground arith))

range_line-IsLine : IsLine range_line
range_line-IsLine = (refl, Lacks-OneLine range_line (ground arith))

type_line-IsLine : IsLine type_line
type_line-IsLine = (refl, Lacks-OneLine type_line (ground arith))

-- The lines that carry a number or a session id.
abbrev pub cseq_of : ℤ → Bytes
cseq_of cseq = codes "CSeq: " ++ print_int cseq

abbrev pub session_of : Bytes → Bytes
session_of id = codes "Session: " ++ id

pub cseq_of-IsLine : (cseq : ℤ) → IsLine (cseq_of cseq)
cseq_of-IsLine cseq = (
  refl,
  OneLine-append (codes "CSeq: ") (print_int cseq) (ground arith)
      (Lacks-OneLine _ (print_int-Lacks 13 cseq (omega arith))),
)

pub session_of-IsLine : (id : Bytes) → OneLine id → IsLine (session_of id)
session_of-IsLine id h = (refl, OneLine-append (codes "Session: ") id (ground arith) h)

-- `X-Y`
abbrev pair_of : ℤ → ℤ → Bytes → Bytes
pair_of a b rest = print_int a ++ (b'-' ∷ (print_int b ++ rest))

pair_of-Lacks : (a b : ℤ) (rest : Bytes) → Lacks 13 rest → Lacks 13 (pair_of a b rest)
pair_of-Lacks a b rest h =
    All-append _ (print_int a) (b'-' ∷ (print_int b ++ rest)) (print_int-Lacks 13 a (omega arith))
      (omega arith, All-append _ (print_int b) rest (print_int-Lacks 13 b (omega arith)) h)

abbrev pub transport_of : ℤ → ℤ → ℤ → ℤ → Bytes
transport_of a b c d =
    codes "Transport: RTP/AVP;unicast;client_port="
    ++ pair_of a b (codes ";server_port=" ++ pair_of c d [])

pub transport_of-IsLine : (a b c d : ℤ) → IsLine (transport_of a b c d)
transport_of-IsLine a b c d =
    let server : Lacks 13 (codes ";server_port=" ++ pair_of c d []) =
      All-append _ (codes ";server_port=") (pair_of c d []) (ground arith)
        (pair_of-Lacks c d [] tt) in
    let client : Lacks 13 (pair_of a b (codes ";server_port=" ++ pair_of c d [])) =
      pair_of-Lacks a b _ server in
    (
      refl,
      OneLine-append (codes "Transport: RTP/AVP;unicast;client_port=") _ (ground arith)
          (Lacks-OneLine _ client),
    )

module _ (cseq : ℤ) where
  -- The status line, the CSeq and more lines.
  success_lem :
      (lines : List Bytes) (body later : Bytes)
      → All IsLine lines
      → length lines < 60
      → length_said 0 lines ≡ length body
      → client_message (message (status ∷ cseq_of cseq ∷ lines) (body ++ later))
        ≡ some (body, later)
  unfolding content_length starts_with
  success_lem lines body later h few e =
      client_message-message (status ∷ cseq_of cseq ∷ lines) body later
        (status-IsLine, (cseq_of-IsLine cseq, h)) (omega arith) e

  pub ok-IsFramed : IsFramed [] (ok cseq)
  unfolding ok cseq_line
  ok-IsFramed later =
      rw (append_assoc (print_int cseq)) (success_lem [] [] later tt (omega arith) refl)

  pub options-IsFramed : IsFramed [] (options cseq)
  unfolding options cseq_line content_length starts_with
  options-IsFramed later =
      rw (append_assoc (print_int cseq))
        (success_lem (public_line ∷ []) [] later (public_line-IsLine, tt) (omega arith) refl)

  module _ (id : Bytes) (h : OneLine id) where
    pub ok_session-IsFramed : IsFramed [] (ok_session cseq id)
    unfolding ok_session cseq_line session_line content_length starts_with
    ok_session-IsFramed later =
        rw (append_assoc (print_int cseq), append_assoc id)
          (success_lem (session_of id ∷ []) [] later (session_of-IsLine id h, tt) (omega arith)
            refl)

    pub teardown-IsFramed : IsFramed [] (teardown cseq id)
    unfolding teardown cseq_line session_line content_length starts_with
    teardown-IsFramed later =
        rw (append_assoc (print_int cseq), append_assoc id)
          (success_lem (session_of id ∷ []) [] later (session_of-IsLine id h, tt) (omega arith)
            refl)

    pub play-IsFramed : IsFramed [] (play cseq id)
    unfolding play cseq_line session_line content_length starts_with
    play-IsFramed later =
        rw (append_assoc (print_int cseq), append_assoc id)
          (success_lem (session_of id ∷ range_line ∷ []) [] later
            (session_of-IsLine id h, (range_line-IsLine, tt)) (omega arith) refl)

    -- The response to a SETUP, by its lines.
    abbrev pub setup_lines : ℤ → ℤ → ℤ → ℤ → List Bytes
    setup_lines a b c d = status ∷ cseq_of cseq ∷ session_of id ∷ transport_of a b c d ∷ []

    pub setup-message :
        (a b c d : ℤ) (later : Bytes)
        → setup cseq id a b c d ++ later ≡ message (setup_lines a b c d) later
    unfolding setup cseq_line session_line port_pair
    setup-message a b c d later =
        rw
          (
            append_assoc (print_int cseq),
            append_assoc id,
            append_assoc (print_int a),
            append_assoc (print_int b),
            append_assoc (print_int c),
            append_assoc (print_int d),
            append_assoc (print_int a),
            append_assoc (print_int b),
            append_assoc (print_int c),
            append_assoc (print_int d),
          )
          refl

    pub setup_lines-IsLine : (a b c d : ℤ) → All IsLine (setup_lines a b c d)
    setup_lines-IsLine a b c d = (
      status-IsLine,
      (cseq_of-IsLine cseq, (session_of-IsLine id h, (transport_of-IsLine a b c d, tt))),
    )

    pub setup-IsFramed : (a b c d : ℤ) → IsFramed [] (setup cseq id a b c d)
    unfolding content_length starts_with
    setup-IsFramed a b c d later = rw (setup-message a b c d later) (
        client_message-message (setup_lines a b c d) [] later (setup_lines-IsLine a b c d)
          (omega arith) refl)

  pub describe-IsFramed :
      (sdp base : Bytes)
      → OneLine base
      → length sdp < 2 ^ 31
      → IsFramed sdp (describe cseq sdp base)
  unfolding describe cseq_line content_length starts_with print_int
  describe-IsFramed sdp base h fits later =
      let number : Bytes = print_nat (length sdp) in
      let said_length : stoi number ≡ some (pos (length sdp)) =
        stoi-print_int (pos (length sdp)) fits in
      rw (append_assoc (print_int cseq), append_assoc base, append_assoc number)
        (success_lem
          (type_line ∷ (codes "Content-Base: " ++ base) ∷ (codes "Content-Length: " ++ number) ∷ [])
          sdp later
          (
            type_line-IsLine,
            (
              (refl, OneLine-append (codes "Content-Base: ") base (ground arith) h),
              (
                (
                  refl,
                  OneLine-append (codes "Content-Length: ") number (ground arith)
                      (Lacks-OneLine _ (print_nat-Lacks 13 (length sdp) (omega arith))),
                ),
                tt,
              ),
            ),
          )
          (omega arith) (rw said_length refl))

  abbrev error_status : ℤ → Bytes → Bytes
  error_status status_code reason =
      codes "RTSP/1.0 " ++ (print_int status_code ++ (codes " " ++ reason))

  pub error-IsFramed :
      (status_code : ℤ) (reason : Bytes)
      → Lacks 13 reason
      → IsFramed [] (error cseq status_code reason)
  unfolding error cseq_line content_length starts_with
  error-IsFramed status_code reason h later =
      let line : Lacks 13 (print_int status_code ++ (b' ' ∷ reason)) =
        All-append _ (print_int status_code) (b' ' ∷ reason)
          (print_int-Lacks 13 status_code (omega arith)) (omega arith, h) in
      rw (append_assoc (print_int status_code), append_assoc reason, append_assoc (print_int cseq))
        (rw (append_assoc (print_int status_code)) at (
          client_message-message (error_status status_code reason ∷ cseq_of cseq ∷ []) [] later
            (
              (refl, OneLine-append (codes "RTSP/1.0 ") _ (ground arith) (Lacks-OneLine _ line)),
              (cseq_of-IsLine cseq, tt),
            )
            (omega arith) refl))
