-- ===== src/Rtsp/Session/Feed/Described.antt =====
-- session.cpp, `handle_describe`: from the parameter sets that the hub has cached to the client's decoder.
use veda_rtsp.Base.{
  ◌+◌, ◌<◌, ◌^◌, ◌≡◌, refl, true, Bool-cases, inl, inr, Option, none, some, ◌>>=◌, [], ◌∷◌, ◌++◌,
  All, IsByte, OneLine, OneLine-snoc, Bytes, codes, length, length-append, arith, if◌then◌else◌,
  ◌||◌,
}
use veda_rtsp.Base64.{base64_encode}
use veda_rtsp.Base64.RoundTrip.{length-base64_encode}
use veda_rtsp.Sdp.{build}
use veda_rtsp.Sdp.Sprop.{
  h264_info, length-h264_info, client_sprop, client_sprop-offered, client_sprop-none,
}
use veda_rtsp.Media.Hub.{Hub, is_unset, sprop_parameter_sets}
use veda_rtsp.Rtsp.Response
use veda_rtsp.Rtsp.Parser.{Headers, Request, Method}
use veda_rtsp.Rtsp.Response.Frame.{client_message}
use veda_rtsp.Rtsp.Response.Framed.{describe-IsFramed}
use veda_rtsp.Rtsp.Session.Handlers.{
  Session, Answers, handle, dispatch, method_allowed, handle_describe,
}
use veda_rtsp.Rtsp.Session.Feed.{done_by}
use veda_rtsp.Rtsp.Session.Feed.Answered.{sent_by}

-- The parameter sets, when the hub has seen both.
abbrev pub cached : Hub → Option (Bytes × Bytes)
cached h = if is_unset h.sps || is_unset h.pps then none else some (h.sps, h.pps)

-- A client reads a message, and the parameter sets of its body.
abbrev pub client_describe : Bytes → Option (Option (Bytes × Bytes) × Bytes)
client_describe text = client_message text >>= λ read. some (client_sprop (read.0), read.1)

client_sprop-cached :
    (h : Hub)
    → All IsByte h.sps
    → All IsByte h.pps
    → client_sprop (build (h264_info (sprop_parameter_sets h))) ≡ cached h
unfolding sprop_parameter_sets
client_sprop-cached h sps pps = elim (Bool-cases (is_unset h.sps || is_unset h.pps)) [
  | inl unset ↦ rw unset client_sprop-none
  | inr set ↦ rw set (client_sprop-offered h.sps h.pps sps pps)
]

length-sprop_parameter_sets :
    (h : Hub) → length h.sps + length h.pps < 2 ^ 29 → length (sprop_parameter_sets h) < 2 ^ 30
unfolding sprop_parameter_sets
length-sprop_parameter_sets h small = elim (Bool-cases (is_unset h.sps || is_unset h.pps)) [
  | inl unset ↦ rw unset (omega arith)
  | inr set ↦ rw set (
      omega (
        arith,
        length-append (base64_encode h.sps) (b',' ∷ base64_encode h.pps),
        length-base64_encode h.sps,
        length-base64_encode h.pps,
      ))
]

module _ (scan : Headers → Headers) (w : Answers) (s : Session) (req : Request) (h : Hub) where
  abbrev description : Bytes
  description = build (h264_info (sprop_parameter_sets h))

  abbrev reply_text : Bytes
  reply_text = Response.describe req.cseq description (req.uri ++ codes "/")

  reply_text_sent :
      req.method ≡ Method.describe
      → s.has_hub ≡ true
      → w.sprop ≡ sprop_parameter_sets h
      → sent_by (done_by (handle scan w s req)) ≡ reply_text ∷ []
  unfolding handle dispatch method_allowed handle_describe Response.describe
  reply_text_sent m hub asked = rw (m, hub, asked) refl

  reply_text_read :
      OneLine req.uri
      → All IsByte h.sps
      → All IsByte h.pps
      → length description < 2 ^ 31
      → (later : Bytes) → client_describe (reply_text ++ later) ≡ some (cached h, later)
  reply_text_read uri sps pps fits later =
      rw
        (
          describe-IsFramed req.cseq description (req.uri ++ codes "/")
              (OneLine-snoc req.uri b'/' (omega arith) uri) fits later,
          client_sprop-cached h sps pps,
        )
        refl

  -- A session with a hub answers a DESCRIBE, in every state, with one text, from which a client
  -- takes exactly the SPS and the PPS that the hub has cached, byte for byte, when it has both,
  -- and none otherwise, and is left with what comes behind the message: for a URI with no CR LF,
  -- and parameter sets of bytes, together shorter than 2^29.
  pub describe_announces :
      req.method ≡ Method.describe
      → s.has_hub ≡ true
      → w.sprop ≡ sprop_parameter_sets h
      → OneLine req.uri
      → All IsByte h.sps
      → All IsByte h.pps
      → length h.sps + length h.pps < 2 ^ 29
      → (text : Bytes) × (sent_by (done_by (handle scan w s req)) ≡ text ∷ [])
        × ((later : Bytes) → client_describe (text ++ later) ≡ some (cached h, later))
  describe_announces m hub asked uri sps pps small = (
    reply_text,
    reply_text_sent m hub asked,
    reply_text_read uri sps pps
        (length-h264_info (sprop_parameter_sets h) (length-sprop_parameter_sets h small)),
  )
