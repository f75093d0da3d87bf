-- ===== src/Rtp/H264Fua/Bounds.antt =====
-- src/rtp/h264_fua.cpp: the size of the payloads that `fragment_nal` makes, and the limit of 2.
use native.Mathlib.Nat.{le_refl}
use veda_rtsp.Base.{
  ℕ, zero, suc, ◌+◌, ◌≤◌, ◌<◌, ◌^◌, ◌≡◌, refl, subst, Bool, Option, none, some, ◌>>=◌, List, [],
  ◌∷◌, Bytes, length, >>=-total, length-take, length-drop, drop, All, arith, min, le_or_lt, le→leb,
  lt→leb, inl, inr,
}
use veda_rtsp.Rtp.H264Fua.{fragment_loop, fragment_nal, max_payload_per_fragment}

abbrev pub AllWithin : ℕ → Option (List Bytes) → Type 0
AllWithin mtu none = Unit {0}
AllWithin mtu (some frags) = All (λ p. length p ≤ mtu) frags

AllWithin-cons :
    (mtu : ℕ) (p : Bytes) (r : Option (List Bytes))
    → length p ≤ mtu
    → AllWithin mtu r
    → AllWithin mtu (r >>= λ rest. some (p ∷ rest))
AllWithin-cons mtu p none h hs = tt
AllWithin-cons mtu p (some rest) h hs = (h, hs)

fragment_loop-AllWithin :
    (fuel max h : ℕ) (first : Bool) (ps : Bytes)
    → AllWithin (max + 2) (fragment_loop fuel max h first ps)
unfolding fragment_loop
fragment_loop-AllWithin zero max h first [] = tt
fragment_loop-AllWithin (suc fuel) max h first [] = tt
fragment_loop-AllWithin zero max h first (b ∷ bs) = tt
fragment_loop-AllWithin (suc fuel) max h first (b ∷ bs) =
    AllWithin-cons (max + 2) _ _ (omega (arith, length-take (min max (length (b ∷ bs))) (b ∷ bs)))
      (fragment_loop-AllWithin fuel max h Bool.false (drop (min max (length (b ∷ bs))) (b ∷ bs)))

-- Every payload that `fragment_nal` returns has at most MTU bytes, for an MTU from 2 up that fits
-- std::size_t.
pub fragment_nal-AllWithin :
    (nal : Bytes) (mtu : ℕ) → 2 ≤ mtu → mtu < 2 ^ 64 → AllWithin mtu (fragment_nal nal mtu)
unfolding fragment_nal
fragment_nal-AllWithin [] mtu lo hi = tt
fragment_nal-AllWithin (h ∷ payload) mtu lo hi = elim (le_or_lt (length (h ∷ payload)) mtu) [
  | inl fits ↦ rw (le→leb (length (h ∷ payload)) mtu fits) (fits, tt)
  | inr over ↦
      let room : max_payload_per_fragment mtu + 2 ≡ mtu = omega arith in
      rw (lt→leb (length (h ∷ payload)) mtu over) (
        subst
          (λ n.
            AllWithin n
              (fragment_loop (length payload) (max_payload_per_fragment mtu) h Bool.true payload))
          room
          (fragment_loop-AllWithin (length payload) (max_payload_per_fragment mtu) h Bool.true
            payload))
]

-- With an MTU of 2 the loop on a payload that is not empty ends within no number of rounds.
pub fragment_loop_diverges :
    (fuel h : ℕ) (first : Bool) (b : ℕ) (bs : Bytes)
    → fragment_loop fuel (max_payload_per_fragment 2) h first (b ∷ bs) ≡ none
unfolding fragment_loop
fragment_loop_diverges zero h first b bs = refl
fragment_loop_diverges (suc fuel) h first b bs =
    let nothing : min 0 (length (b ∷ bs)) ≡ 0 = omega arith in
    rw (nothing, fragment_loop_diverges fuel h Bool.false b bs) refl

fragment_loop_total :
    (fuel max h : ℕ) (first : Bool) (ps : Bytes)
    → 0 < max
    → length ps ≤ fuel
    → (frags : List Bytes) × (fragment_loop fuel max h first ps ≡ some frags)
unfolding fragment_loop
fragment_loop_total zero max h first [] pos fits = ([], refl)
fragment_loop_total (suc fuel) max h first [] pos fits = ([], refl)
fragment_loop_total zero max h first (b ∷ bs) pos fits = absurd (omega arith)
fragment_loop_total (suc fuel) max h first (b ∷ bs) pos fits =
    let size : ℕ = min max (length (b ∷ bs)) in
    let (rest, runs) =
      fragment_loop_total fuel max h Bool.false (drop size (b ∷ bs)) pos
        (omega (arith, length-drop size (b ∷ bs))) in
    >>=-total _ _ runs

-- `fragment_nal` returns for every NAL unit and every MTU from 3 up that fits std::size_t.
pub fragment_nal_total :
    (nal : Bytes) (mtu : ℕ)
    → 3 ≤ mtu
    → mtu < 2 ^ 64
    → (frags : List Bytes) × (fragment_nal nal mtu ≡ some frags)
unfolding fragment_nal
fragment_nal_total [] mtu lo hi = ([], refl)
fragment_nal_total (h ∷ payload) mtu lo hi = elim (le_or_lt (length (h ∷ payload)) mtu) [
  | inl fits ↦ ((h ∷ payload) ∷ [], rw (le→leb (length (h ∷ payload)) mtu fits) refl)
  | inr over ↦
      let (frags, runs) =
        fragment_loop_total (length payload) (max_payload_per_fragment mtu) h Bool.true payload
          (omega arith) (le_refl (length payload)) in
      (frags, rw (lt→leb (length (h ∷ payload)) mtu over) runs)
]
