-- ===== src/Base/Lines.antt =====
-- Text with no CR LF in it.
use Prim.Native.Nat.{ℕ, zero, suc}
use mathlib.Core.Path.{◌≡◌, refl}
use mathlib.Core.Logic.{◌≢◌, inl, inr}
use mathlib.Core.Bool.{Bool, false, ◌&&◌}
use mathlib.Core.Option.{none, some}
use mathlib.Core.List.{[], ◌∷◌, ◌++◌}
use native.Mathlib.Omega.{arith}
use veda_rtsp.Base.Tests.{◌==◌, Option-cases}
use veda_rtsp.Base.Lists.{length, take, drop}
use veda_rtsp.Base.Text.{Bytes, Lacks, find, starts_with}

-- A CR with an LF behind it.
abbrev is_break : ℕ → ℕ → Bool
is_break c d = c == 13 && d == 10

abbrev pub OneLine : Bytes → Type 0
OneLine [] = Unit {0}
OneLine (c ∷ []) = Unit {0}
OneLine (c ∷ d ∷ s) = (is_break c d ≡ false) × OneLine (d ∷ s)

-- A line ends at the first CR LF.
pub find_break :
    (s rest : Bytes) → OneLine s → find (13 ∷ 10 ∷ []) (s ++ 13 ∷ 10 ∷ rest) ≡ some (length s)
unfolding find starts_with
find_break [] rest h = refl
find_break (c ∷ []) rest h = ground (arith, find_break [] rest tt)
find_break (c ∷ d ∷ s) rest h = ground (arith, find_break (d ∷ s) rest h.1)

pub none-OneLine : (s : Bytes) → find (13 ∷ 10 ∷ []) s ≡ none → OneLine s
unfolding find starts_with
none-OneLine [] h = tt
none-OneLine (c ∷ []) h = tt
none-OneLine (c ∷ d ∷ s) h = elim (Option-cases (find (13 ∷ 10 ∷ []) (d ∷ s))) [
  | inl nothing ↦ (ground arith, none-OneLine (d ∷ s) nothing)
  | inr (i, found) ↦ ground arith
]

-- What is in front of the first CR LF.
pub some-OneLine : (s : Bytes) (i : ℕ) → find (13 ∷ 10 ∷ []) s ≡ some i → OneLine (take i s)
unfolding find starts_with
some-OneLine s zero h = tt
some-OneLine [] (suc i) h = tt
some-OneLine (c ∷ s) (suc zero) h = tt
some-OneLine (c ∷ []) (suc (suc i)) h = tt
some-OneLine (c ∷ d ∷ s) (suc (suc i)) h = elim (Option-cases (find (13 ∷ 10 ∷ []) (d ∷ s))) [
  | inl nothing ↦ ground (arith, nothing)
  | inr (j, found) ↦
      let same : j ≡ suc i = ground (arith, found) in
      (ground (arith, found), some-OneLine (d ∷ s) (suc i) (rw same at found))
]

pub OneLine-take : (n : ℕ) (s : Bytes) → OneLine s → OneLine (take n s)
OneLine-take zero s h = tt
OneLine-take (suc n) [] h = tt
OneLine-take (suc zero) (c ∷ s) h = tt
OneLine-take (suc (suc n)) (c ∷ []) h = tt
OneLine-take (suc (suc n)) (c ∷ d ∷ s) h = (h.0, OneLine-take (suc n) (d ∷ s) h.1)

pub OneLine-drop : (n : ℕ) (s : Bytes) → OneLine s → OneLine (drop n s)
OneLine-drop zero s h = h
OneLine-drop (suc n) [] h = tt
OneLine-drop (suc n) (c ∷ []) h = OneLine-drop n [] tt
OneLine-drop (suc n) (c ∷ d ∷ s) h = OneLine-drop n (d ∷ s) h.1

-- Text with no CR at all in front of it.
pub OneLine-append : (a b : Bytes) → Lacks 13 a → OneLine b → OneLine (a ++ b)
OneLine-append [] b h k = k
OneLine-append (c ∷ []) [] h k = tt
OneLine-append (c ∷ []) (d ∷ b) h k = (ground (arith, h.0), k)
OneLine-append (c ∷ d ∷ a) b h k = (ground (arith, h.0), OneLine-append (d ∷ a) b h.1 k)

pub Lacks-OneLine : (a : Bytes) → Lacks 13 a → OneLine a
Lacks-OneLine [] h = tt
Lacks-OneLine (c ∷ []) h = tt
Lacks-OneLine (c ∷ d ∷ a) h = (ground (arith, h.0), Lacks-OneLine (d ∷ a) h.1)

-- A character that is no LF behind it.
pub OneLine-snoc : (a : Bytes) (x : ℕ) → x ≢ 10 → OneLine a → OneLine (a ++ x ∷ [])
OneLine-snoc [] x h k = tt
OneLine-snoc (c ∷ []) x h k = (ground (arith, h), tt)
OneLine-snoc (c ∷ d ∷ a) x h k = (k.0, OneLine-snoc (d ∷ a) x h k.1)
