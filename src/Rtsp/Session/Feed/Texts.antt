-- ===== src/Rtsp/Session/Feed/Texts.antt =====
-- response.cpp and session.cpp: texts that are messages, and the parts that they are made of.
use veda_rtsp.Base.{
  ℕ, zero, suc, ◌%◌, ◌^◌, ◌≡◌, refl, List, [], ◌∷◌, ◌++◌, All, All-append, OneLine, Lacks-OneLine,
  Lacks, Bytes, ℤ, arith, inl, ◌<◌, ◌⊎◌,
}
use veda_rtsp.Rtsp.Response
use veda_rtsp.Rtsp.Response.Framed.{IsFramed, error-IsFramed}
use veda_rtsp.Rtsp.Session.Transport.{generate_session_id, hex_digits, hex_digit}
use veda_rtsp.Rtsp.Session.Handlers.{
  Session, Action, send, connect, subscribe, unsubscribe, Reply, answer,
}
use veda_rtsp.Rtsp.Session.Feed.{deliver, done_by}
use veda_rtsp.Rtsp.Session.Feed.Answered.{sent_by}

-- One message, that ends where the text ends.
abbrev pub IsMessage : Bytes → Type 0
IsMessage text = (body : Bytes) × IsFramed body text

-- Of what has been done, every text for the client is one message.
abbrev pub AllMessages : List Action → Type 0
AllMessages done = All IsMessage (sent_by done)

-- A character that no hexadecimal number has.
abbrev pub IsNoHex : ℕ → Type 0
IsNoHex x = (x < 48) ⊎ ((57 < x) × (x < 65))

hex_digits-Lacks : (x k n : ℕ) → IsNoHex x → Lacks x (hex_digits k n)
unfolding hex_digits hex_digit
hex_digits-Lacks x zero n h = tt
hex_digits-Lacks x (suc k) n h = (ground (arith, h), hex_digits-Lacks x k n h)

pub generate_session_id-Lacks : (x draw : ℕ) → IsNoHex x → Lacks x (generate_session_id draw)
unfolding generate_session_id
generate_session_id-Lacks x draw h = hex_digits-Lacks x 8 (draw % 2 ^ 32) h

pub generate_session_id-OneLine : (draw : ℕ) → OneLine (generate_session_id draw)
generate_session_id-OneLine draw =
    Lacks-OneLine (generate_session_id draw) (generate_session_id-Lacks 13 draw (inl (omega arith)))

pub sent_by-append : (a b : List Action) → sent_by (a ++ b) ≡ sent_by a ++ sent_by b
sent_by-append [] b = refl
sent_by-append (send text ∷ a) b = rw (sent_by-append a b) refl
sent_by-append (connect id ip port connected ∷ a) b = sent_by-append a b
sent_by-append (subscribe id answered ∷ a) b = sent_by-append a b
sent_by-append (unsubscribe id ∷ a) b = sent_by-append a b

pub AllMessages-append : (a b : List Action) → AllMessages a → AllMessages b → AllMessages (a ++ b)
AllMessages-append a b ha hb =
    rw (sent_by-append a b) (All-append IsMessage (sent_by a) (sent_by b) ha hb)

pub deliver-AllMessages : (text : Bytes) → IsMessage text → AllMessages (deliver text)
deliver-AllMessages [] h = tt
deliver-AllMessages (c ∷ cs) h = (h, tt)

-- A refusal, with any of the reasons.
pub refusal_lem :
    (cseq status : ℤ) (reason : Bytes)
    → Lacks 13 reason
    → IsMessage (Response.error cseq status reason)
refusal_lem cseq status reason h = ([], error-IsFramed cseq status reason h)

-- What a reply sends, and the session id that it leaves.
abbrev pub IsReadable : Reply → Type 0
IsReadable r = AllMessages (done_by r) × OneLine r.session.session_id

pub answer_lem :
    (s : Session) (text : Bytes)
    → OneLine s.session_id
    → IsMessage text
    → IsReadable (answer s text)
answer_lem s text id h = (deliver-AllMessages text h, id)
