-- ===== src/Rtsp/Response/Cseq.antt =====
-- A client's reading of the CSeq of a response (RFC 2326), against each of the responses.
use veda_rtsp.Base.{
  ◌+◌, ◌≡◌, if◌then◌else◌, Option, none, some, List, [], ◌∷◌, All, Bytes, codes, find, starts_with,
  drop, stoi, ℤ, pos, IsInt, print_int, digits_fuel, print_nat, stoi-print_int_line,
}
use veda_rtsp.Rtsp.Response.{
  cseq_line, ok, ok_session, options, describe, setup, play, teardown, error,
}

-- The header behind the status line, when it is CSeq.
unfoldable pub client_cseq : Bytes → Option ℤ
unfolding find starts_with stoi
client_cseq text = elim (find (codes "\r\n") text) [
  | none ↦ none
  | some at ↦
      let rest = drop (at + 2) text in
      if starts_with (codes "CSeq: ") rest then stoi (drop 6 rest) else none
]

-- The status and the reason of each error that a session answers a request with.
abbrev pub refusals : List (ℤ × Bytes)
refusals =
    (pos 501, codes "Not Implemented")
    ∷ (pos 455, codes "Method Not Valid in This State")
    ∷ (pos 400, codes "Bad Request - No Transport")
    ∷ (pos 461, codes "Unsupported Transport")
    ∷ (pos 454, codes "Session Not Found")
    ∷ (pos 500, codes "Internal Server Error")
    ∷ []

module _ (cseq : ℤ) (fits : IsInt cseq) where
  pub client_cseq-ok : client_cseq (ok cseq) ≡ some cseq
  unfolding client_cseq find starts_with ok cseq_line
  client_cseq-ok = stoi-print_int_line cseq _ fits

  pub client_cseq-ok_session : (id : Bytes) → client_cseq (ok_session cseq id) ≡ some cseq
  unfolding client_cseq find starts_with ok_session cseq_line
  client_cseq-ok_session id = stoi-print_int_line cseq _ fits

  pub client_cseq-options : client_cseq (options cseq) ≡ some cseq
  unfolding client_cseq find starts_with options cseq_line
  client_cseq-options = stoi-print_int_line cseq _ fits

  pub client_cseq-describe : (sdp base : Bytes) → client_cseq (describe cseq sdp base) ≡ some cseq
  unfolding client_cseq find starts_with describe cseq_line
  client_cseq-describe sdp base = stoi-print_int_line cseq _ fits

  pub client_cseq-setup :
      (id : Bytes) (a b c d : ℤ) → client_cseq (setup cseq id a b c d) ≡ some cseq
  unfolding client_cseq find starts_with setup cseq_line
  client_cseq-setup id a b c d = stoi-print_int_line cseq _ fits

  pub client_cseq-play : (id : Bytes) → client_cseq (play cseq id) ≡ some cseq
  unfolding client_cseq find starts_with play cseq_line
  client_cseq-play id = stoi-print_int_line cseq _ fits

  pub client_cseq-teardown : (id : Bytes) → client_cseq (teardown cseq id) ≡ some cseq
  unfolding client_cseq find starts_with teardown cseq_line
  client_cseq-teardown id = stoi-print_int_line cseq _ fits

  -- The errors that a session answers with.
  pub client_cseq-error :
      All (λ refusal. client_cseq (error cseq (refusal.0) (refusal.1)) ≡ some cseq) refusals
  unfolding client_cseq find starts_with error cseq_line print_int print_nat digits_fuel
  client_cseq-error = (
    stoi-print_int_line cseq _ fits,
    (
      stoi-print_int_line cseq _ fits,
      (
        stoi-print_int_line cseq _ fits,
        (
          stoi-print_int_line cseq _ fits,
          (stoi-print_int_line cseq _ fits, (stoi-print_int_line cseq _ fits, tt)),
        ),
      ),
    ),
  )
