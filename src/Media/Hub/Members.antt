-- ===== src/Media/Hub/Members.antt =====
-- Who is at the hub, and when the source runs.
use veda_rtsp.Base.{
  ℕ, ◌≡◌, ◌≢◌, refl, Bool, false, Option, none, some, List, [], ◌∷◌, ◌++◌, arith, All, append-nil,
  zero, suc, Bytes,
}
use veda_rtsp.Media.AnnexB.{Stream, read_nal}
use veda_rtsp.Media.Hub.{
  Subscriber, Hub, subscribe, unsubscribe, without, cache_parameter_set, cache_all, prescan,
  SourceConfig, make_hub, prescan_parameter_sets, open_hub,
}

-- Without a subscriber no source runs.
pub record IsIdleAlone (h : Hub) : Type 0 where
  pub idle : h.subscribers ≡ [] → h.running ≡ false

append-ne-nil : (xs : List Subscriber) (m : Subscriber) → xs ++ m ∷ [] ≢ []
append-ne-nil [] m e = cc
append-ne-nil (x ∷ xs) m e = cc

pub subscribe-IsIdleAlone :
    (starts : Bool) (m : Option Subscriber) (h : Hub)
    → IsIdleAlone h
    → IsIdleAlone (subscribe starts m h).0
unfolding subscribe
subscribe-IsIdleAlone starts none h v = v
subscribe-IsIdleAlone starts (some m) h v = record {
  idle = ground (arith, v.idle, append-ne-nil h.subscribers m);
}

pub unsubscribe-IsIdleAlone : (id : ℕ) (h : Hub) → IsIdleAlone h → IsIdleAlone (unsubscribe id h)
unfolding unsubscribe
unsubscribe-IsIdleAlone id h v = record { idle = ground (arith, v.idle) }

without-All : (id : ℕ) (ms : List Subscriber) → All (λ m. m.id ≢ id) (without id ms)
unfolding without
without-All id [] = tt
without-All id (m ∷ ms) = ground (arith, without-All id ms)

without_absent : (id : ℕ) (ms : List Subscriber) → All (λ m. m.id ≢ id) ms → without id ms ≡ ms
unfolding without
without_absent id [] h = refl
without_absent id (m ∷ ms) h = ground (arith, without_absent id ms h.1)

without-append :
    (id : ℕ) (xs ys : List Subscriber) → without id (xs ++ ys) ≡ without id xs ++ without id ys
unfolding without
without-append id [] ys = refl
without-append id (m ∷ xs) ys = ground (arith, without-append id xs ys)

-- Behind `unsubscribe` the streamer is not served any more, and no source runs if nobody is left.
pub unsubscribe_leaves :
    (id : ℕ) (h : Hub)
    → All (λ m. m.id ≢ id) (unsubscribe id h).subscribers
      × ((unsubscribe id h).subscribers ≡ [] → (unsubscribe id h).running ≡ false)
unfolding unsubscribe
unsubscribe_leaves id h = (without-All id h.subscribers, λ e. rw e refl)

-- A streamer that was not at the hub and comes and goes leaves the others as they were, in their
-- order.
pub unsubscribe-subscribe :
    (starts : Bool) (m : Subscriber) (h : Hub)
    → All (λ other. other.id ≢ m.id) h.subscribers
    → (unsubscribe m.id (subscribe starts (some m) h).0).subscribers ≡ h.subscribers
unfolding unsubscribe subscribe without
unsubscribe-subscribe starts m h fresh = ground (
  arith,
  without-append m.id h.subscribers (m ∷ []),
  without_absent m.id h.subscribers fresh,
  append-nil h.subscribers,
)

cache_all_keeps :
    (nals : List Bytes) (h : Hub)
    → ((cache_all nals h).subscribers ≡ h.subscribers) × ((cache_all nals h).running ≡ h.running)
unfolding cache_parameter_set
cache_all_keeps [] h = (refl, refl)
cache_all_keeps (nal ∷ nals) h = ground (arith, cache_all_keeps nals (cache_parameter_set nal h))

-- The prescan looks for parameter sets alone.
pub prescan_keeps :
    (fuel : ℕ) (buffer : Bytes) (file : Stream) (h : Hub)
    → ((prescan fuel buffer file h).subscribers ≡ h.subscribers)
      × ((prescan fuel buffer file h).running ≡ h.running)
unfolding prescan
prescan_keeps zero buffer file h = (refl, refl)
prescan_keeps (suc fuel) buffer file h =
    let r = read_nal buffer file in
    ground
      (arith, cache_all_keeps r.nals h, prescan_keeps fuel r.buffer r.rest (cache_all r.nals h))

-- A hub begins with no subscriber and no source that runs.
pub open_hub_idle :
    (cfg : SourceConfig) (opened : Option Stream)
    → ((open_hub cfg opened).subscribers ≡ []) × ((open_hub cfg opened).running ≡ false)
unfolding open_hub prescan_parameter_sets make_hub
open_hub_idle cfg none = ground arith
open_hub_idle cfg (some file) = ground (arith, prescan_keeps 64 [] file (make_hub cfg.fps))
