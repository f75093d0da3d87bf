-- ===== src/Rtsp/Server/Clients.antt =====
-- The table of clients, and the streamers that its sessions hold.
use veda_rtsp.Base.{
  ℕ, ◌+◌, ◌≡◌, refl, Bool-cases, inl, inr, true, ◌==◌, some, List, [], ◌∷◌, ◌++◌, Bytes, subst, All,
  count, count-append, length, length-append, arith, Option-cases,
}
use veda_rtsp.Rtsp.Session.Handlers.{Session, make_session}
use veda_rtsp.Rtsp.Session.Handlers.Machine.{IsSound, make_session-IsSound}
use veda_rtsp.Rtsp.Session.Handlers.Subscription.{held}
use veda_rtsp.Rtsp.Server.{Client, find_client, erase, store, emplace}

abbrev pub held_by : List Client → List ℕ
held_by [] = []
held_by (c ∷ cs) = held c.session ++ held_by cs

abbrev pub AllSound : List Client → Type 0
AllSound = All (λ c. IsSound c.session)

-- A client that is found holds what its session holds; the others hold the rest.
pub count-held_by-erase :
    (n fd : ℕ) (s : Session) (cs : List Client)
    → find_client fd cs ≡ some s
    → count n (held_by cs) ≡ count n (held s) + count n (held_by (erase fd cs))
unfolding find_client erase
count-held_by-erase n fd s [] e = cc
count-held_by-erase n fd s (c ∷ cs) e = elim (Bool-cases (c.fd == fd)) [
  | inl here ↦ ground (arith, here, count-append n (held c.session) (held_by cs))
  | inr other ↦
      let e' : find_client fd cs ≡ some s = rw other at e in
      ground (
        arith,
        other,
        count-append n (held c.session) (held_by cs),
        count-append n (held c.session) (held_by (erase fd cs)),
        count-held_by-erase n fd s cs e',
      )
]

pub length-held_by-erase :
    (fd : ℕ) (s : Session) (cs : List Client)
    → find_client fd cs ≡ some s
    → length (held_by cs) ≡ length (held s) + length (held_by (erase fd cs))
unfolding find_client erase
length-held_by-erase fd s [] e = cc
length-held_by-erase fd s (c ∷ cs) e = elim (Bool-cases (c.fd == fd)) [
  | inl here ↦ ground (arith, here, length-append (held c.session) (held_by cs))
  | inr other ↦
      let e' : find_client fd cs ≡ some s = rw other at e in
      ground (
        arith,
        other,
        length-append (held c.session) (held_by cs),
        length-append (held c.session) (held_by (erase fd cs)),
        length-held_by-erase fd s cs e',
      )
]

pub erase-store : (fd : ℕ) (s : Session) (cs : List Client) → erase fd (store fd s cs) ≡ erase fd cs
unfolding erase store
erase-store fd s [] = refl
erase-store fd s (c ∷ cs) = ground (arith, erase-store fd s cs)

pub find_client-store :
    (fd : ℕ) (s t : Session) (cs : List Client)
    → find_client fd cs ≡ some s
    → find_client fd (store fd t cs) ≡ some t
unfolding find_client store
find_client-store fd s t [] e = cc
find_client-store fd s t (c ∷ cs) e = ground (arith, find_client-store fd s t cs)

pub held_by-emplace :
    (fd : ℕ) (ip : Bytes) (cs : List Client)
    → held_by (emplace fd (make_session ip true) cs) ≡ held_by cs
unfolding emplace make_session
held_by-emplace fd ip cs = ground arith

pub find_client-IsSound :
    (fd : ℕ) (s : Session) (cs : List Client) → AllSound cs → find_client fd cs ≡ some s → IsSound s
unfolding find_client
find_client-IsSound fd s [] v e = cc
find_client-IsSound fd s (c ∷ cs) v e = elim (Bool-cases (c.fd == fd)) [
  | inl here ↦
      let same : some c.session ≡ some s = rw here at e in
      let e' : c.session ≡ s = cc in subst (λ (x : Session). IsSound x) e' v.0
  | inr other ↦ find_client-IsSound fd s cs v.1 (rw other at e)
]

pub erase-AllSound : (fd : ℕ) (cs : List Client) → AllSound cs → AllSound (erase fd cs)
unfolding erase
erase-AllSound fd [] v = tt
erase-AllSound fd (c ∷ cs) v = elim (Bool-cases (c.fd == fd)) [
  | inl here ↦ rw here v.1
  | inr other ↦ rw other (v.0, erase-AllSound fd cs v.1)
]

pub store-AllSound :
    (fd : ℕ) (s : Session) (cs : List Client) → IsSound s → AllSound cs → AllSound (store fd s cs)
unfolding store
store-AllSound fd s [] h v = tt
store-AllSound fd s (c ∷ cs) h v = elim (Bool-cases (c.fd == fd)) [
  | inl here ↦ rw here (h, v.1)
  | inr other ↦ rw other (v.0, store-AllSound fd s cs h v.1)
]

pub emplace-AllSound :
    (fd : ℕ) (ip : Bytes) (cs : List Client)
    → AllSound cs
    → AllSound (emplace fd (make_session ip true) cs)
unfolding emplace
emplace-AllSound fd ip cs v = elim (Option-cases (find_client fd cs)) [
  | inl free ↦ rw (free, emplace) (make_session-IsSound ip true, v)
  | inr (old, taken) ↦ rw (taken, emplace) v
]
