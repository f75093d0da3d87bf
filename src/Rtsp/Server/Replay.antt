-- ===== src/Rtsp/Server/Replay.antt =====
-- The calls of a session at the hub, against the streamers that the session holds.
use veda_rtsp.Base.{
  ℕ, ◌+◌, ◌≤◌, ◌≡◌, refl, ap, ◌∙◌, ==_iff, true, false, ◌==◌, if◌then◌else◌, some, List, [], ◌∷◌,
  ◌++◌, count, count-append, length, length-append, map, arith, Bool-cases, inl, inr,
}
use veda_rtsp.Rtp.Streamer.{Streamer}
use veda_rtsp.Media.Hub.{Hub, Subscriber}
use veda_rtsp.Media.Hub
use veda_rtsp.Media.Hub.Members.{IsIdleAlone, subscribe-IsIdleAlone, unsubscribe-IsIdleAlone}
use veda_rtsp.Rtsp.Session.Handlers.{Action, send, connect, subscribe, unsubscribe}
use veda_rtsp.Rtsp.Session.Handlers.Subscription.{without, subscribed, IsProper}
use veda_rtsp.Rtsp.Server.{subscriber, perform, perform_all}

-- The identities at the hub.
abbrev pub ids_at : Hub → List ℕ
ids_at h = map (λ m. m.id) h.subscribers

module _ (made : ℕ → Streamer) where
  -- Each call of `subscribe` was answered by the hub as it then was, and the streamer that it gave
  -- is no other than those at the hub.
  unfoldable pub IsAnswered : Hub → List Action → Type 0
  unfolding perform
  IsAnswered h [] = Unit
  IsAnswered h (subscribe id answered ∷ rest) =
      ((Hub.subscribe answered (some (subscriber made id)) h).1 ≡ answered)
      × (count id (ids_at h) ≡ 0)
      × IsAnswered (perform made (subscribe id answered) h) rest
  IsAnswered h (a ∷ rest) = IsAnswered (perform made a h) rest

pub count-without :
    (n id : ℕ) (ids : List ℕ) → count n (without id ids) ≡ (if id == n then 0 else count n ids)
unfolding without
count-without n id [] = ground arith
count-without n id (x ∷ xs) = ground (arith, count-without n id xs)

length-without : (id : ℕ) (ids : List ℕ) → length (without id ids) + count id ids ≡ length ids
unfolding without
length-without id [] = refl
length-without id (x ∷ xs) = ground (arith, length-without id xs)

ids_at-without :
    (id : ℕ) (ms : List Subscriber)
    → map (λ (m : Subscriber). m.id) (Hub.without id ms)
      ≡ without id (map (λ (m : Subscriber). m.id) ms)
unfolding without Hub.without
ids_at-without id [] = refl
ids_at-without id (m ∷ ms) = ground (arith, ids_at-without id ms)

-- The hub holds what the session holds and what the others hold, each streamer once.
pub record IsShared (h : Hub) (own others : List ℕ) : Type 0 where
  pub split : (n : ℕ) → count n (ids_at h) ≡ count n own + count n others
  pub once : (n : ℕ) → count n (ids_at h) ≤ 1
  pub size : length (ids_at h) ≡ length own + length others

map-append_id :
    (xs ys : List Subscriber)
    → map (λ (m : Subscriber). m.id) (xs ++ ys)
      ≡ map (λ (m : Subscriber). m.id) xs ++ map (λ (m : Subscriber). m.id) ys
map-append_id [] ys = refl
map-append_id (x ∷ xs) ys = rw (map-append_id xs ys) refl

module _ (made : ℕ → Streamer) where
  ids_at-subscribe :
      (id : ℕ) (h : Hub) → ids_at (perform made (subscribe id true) h) ≡ ids_at h ++ id ∷ []
  unfolding perform Hub.subscribe
  ids_at-subscribe id h = ground (arith, map-append_id h.subscribers (subscriber made id ∷ []))

  ids_at-unsubscribe :
      (id : ℕ) (h : Hub) → ids_at (perform made (unsubscribe id) h) ≡ without id (ids_at h)
  unfolding perform Hub.unsubscribe
  ids_at-unsubscribe id h = ids_at-without id h.subscribers

  count-subscribe :
      (n id : ℕ) (h : Hub)
      → count n (ids_at (perform made (subscribe id true) h))
        ≡ count n (ids_at h) + (if id == n then 1 else 0)
  count-subscribe n id h =
      ap (count n) (ids_at-subscribe id h) ∙ (count-append n (ids_at h) (id ∷ []) ∙ omega arith)

  count-unsubscribe :
      (n id : ℕ) (h : Hub)
      → count n (ids_at (perform made (unsubscribe id) h))
        ≡ (if id == n then 0 else count n (ids_at h))
  count-unsubscribe n id h = ap (count n) (ids_at-unsubscribe id h) ∙ count-without n id (ids_at h)

  perform-refused :
      (id : ℕ) (h : Hub)
      → (Hub.subscribe false (some (subscriber made id)) h).1 ≡ false
      → perform made (subscribe id false) h ≡ h
  unfolding perform Hub.subscribe
  perform-refused id h e = ground arith

  subscribe-IsShared :
      (id : ℕ) (h : Hub) (own others : List ℕ)
      → count id (ids_at h) ≡ 0
      → IsShared h own others
      → IsShared (perform made (subscribe id true) h) (id ∷ own) others
  subscribe-IsShared id h own others fresh v = record {
    split = λ n. omega (arith, count-subscribe n id h, v.split n);
    once = λ n. elim (Bool-cases (id == n)) [
      | inl same ↦
          let e : id ≡ n = (==_iff id n).0 same in
          ground (arith, same, count-subscribe n id h, rw e at fresh)
      | inr other ↦ ground (arith, other, count-subscribe n id h, v.once n)
    ];
    size =
        ap length (ids_at-subscribe id h)
        ∙ omega (arith, length-append (ids_at h) (id ∷ []), v.size);
  }

  unsubscribe-IsShared :
      (id : ℕ) (h : Hub) (own others : List ℕ)
      → 1 ≤ count id own
      → IsShared h own others
      → IsShared (perform made (unsubscribe id) h) (without id own) others
  unsubscribe-IsShared id h own others mine v = record {
    split = λ n. elim (Bool-cases (id == n)) [
      | inl same ↦
          let e : id ≡ n = (==_iff id n).0 same in
          let lone : count n others ≡ 0 = rw (← e) (omega (arith, v.split id, v.once id)) in
          ground (arith, same, count-unsubscribe n id h, count-without n id own, lone)
      | inr other ↦
          ground (arith, other, count-unsubscribe n id h, count-without n id own, v.split n)
    ];
    once = λ n. ground (arith, count-unsubscribe n id h, v.once n);
    size =
        ap length (ids_at-unsubscribe id h)
        ∙ omega (
          arith,
          length-without id (ids_at h),
          length-without id own,
          v.split id,
          v.once id,
          v.size,
          mine,
        );
  }

  -- The calls of a session leave the hub with what the session then holds, and with all that the
  -- others hold.
  pub perform_all-IsShared :
      (acts : List Action) (h : Hub) (own others : List ℕ)
      → IsAnswered made h acts
      → IsProper own acts
      → IsShared h own others
      → IsShared (perform_all made acts h) (subscribed own acts) others
  unfolding perform_all subscribed IsProper IsAnswered
  perform_all-IsShared [] h own others a p v = v
  perform_all-IsShared (subscribe id true ∷ rest) h own others a p v =
      perform_all-IsShared rest _ (id ∷ own) others a.2 p (subscribe-IsShared id h own others a.1 v)
  perform_all-IsShared (subscribe id false ∷ rest) h own others a p v =
      perform_all-IsShared rest (perform made (subscribe id false) h) own others a.2 p
        (rw (perform-refused id h a.0) v)
  perform_all-IsShared (unsubscribe id ∷ rest) h own others a p v =
      perform_all-IsShared rest _ (without id own) others a p.1
        (unsubscribe-IsShared id h own others p.0 v)
  perform_all-IsShared (send r ∷ rest) h own others a p v =
      perform_all-IsShared rest h own others a p v
  perform_all-IsShared (connect i ip port b ∷ rest) h own others a p v =
      perform_all-IsShared rest h own others a p v

  -- A hub with nobody to serve stays idle, or becomes so, whatever a session asks.
  pub perform_all-IsIdleAlone :
      (acts : List Action) (h : Hub) → IsIdleAlone h → IsIdleAlone (perform_all made acts h)
  unfolding perform_all perform
  perform_all-IsIdleAlone [] h v = v
  perform_all-IsIdleAlone (subscribe id answered ∷ rest) h v =
      perform_all-IsIdleAlone rest _
        (subscribe-IsIdleAlone answered (some (subscriber made id)) h v)
  perform_all-IsIdleAlone (unsubscribe id ∷ rest) h v =
      perform_all-IsIdleAlone rest _ (unsubscribe-IsIdleAlone id h v)
  perform_all-IsIdleAlone (send r ∷ rest) h v = perform_all-IsIdleAlone rest h v
  perform_all-IsIdleAlone (connect i ip port b ∷ rest) h v = perform_all-IsIdleAlone rest h v
