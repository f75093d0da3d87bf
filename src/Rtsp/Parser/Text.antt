-- ===== src/Rtsp/Parser/Text.antt =====
-- What the parser's text helpers do: white space, letter case, lines.
use mathlib.Core.List.{reverse, reverse-cons, reverse-append, reverse-reverse}
use veda_rtsp.Base.{
  suc, ◌+◌, ◌≡◌, ◌↔◌, refl, sym, ap, ap₂, subst, ◌∙◌, true, false, Bool-cases, [], ◌∷◌, ◌++◌, map,
  Bytes, length, drop, All, All-append, Lacks, find-append, is_space, arith, inl, inr,
  take-length-append,
}
use veda_rtsp.Rtsp.Parser.{trim_front, trim, to_lower, same_letters, iequals, next_line}

abbrev pub Spaces : Bytes → Type 0
Spaces = All (λ c. is_space c ≡ true)

-- Empty, or with a first character that is no white space.
abbrev pub FrontClear : Bytes → Type 0
FrontClear [] = Unit {0}
FrontClear (c ∷ cs) = is_space c ≡ false

trim_front_lem :
    (s : Bytes) → (cut : Bytes) × (s ≡ cut ++ trim_front s) × Spaces cut × FrontClear (trim_front s)
unfolding trim_front
trim_front_lem [] = ([], refl, tt, tt)
trim_front_lem (c ∷ cs) = elim (Bool-cases (is_space c)) [
  | inl blank ↦
      let (cut, e, spaces, clear) = trim_front_lem cs in
      (c ∷ cut, rw blank (ap (◌∷◌ c) e), (blank, spaces), rw blank clear)
  | inr text ↦ ([], rw text refl, tt, rw text text)
]

Spaces-reverse : (s : Bytes) → Spaces s → Spaces (reverse s)
Spaces-reverse [] h = tt
Spaces-reverse (c ∷ cs) h =
    rw (reverse-cons c cs) (All-append _ (reverse cs) (c ∷ []) (Spaces-reverse cs h.1) (h.0, tt))

FrontClear-prefix : (a b : Bytes) → FrontClear (a ++ b) → FrontClear a
FrontClear-prefix [] b h = tt
FrontClear-prefix (c ∷ cs) b h = h

-- `trim` takes white space alone from both ends, and none is left at either end.
pub trim_lem :
    (s : Bytes)
    → (front : Bytes) × (back : Bytes) × (s ≡ front ++ (trim s ++ back))
      × Spaces front
      × Spaces back
      × FrontClear (trim s)
      × FrontClear (reverse (trim s))
unfolding trim
trim_lem s =
    let (front, e, spaces, clear) = trim_front_lem s in
    let (tail, e', spaces', clear') = trim_front_lem (reverse (trim_front s)) in
    let back : Bytes = reverse tail in
    let kept : Bytes = reverse (trim_front (reverse (trim_front s))) in
    let joined : trim_front s ≡ kept ++ back =
      sym (reverse-reverse (trim_front s))
      ∙ ap reverse e'
      ∙ reverse-append tail (trim_front (reverse (trim_front s))) in
    (
      front,
      back,
      e ∙ ap (◌++◌ front) joined,
      spaces,
      Spaces-reverse tail spaces',
      FrontClear-prefix kept back (subst FrontClear joined clear),
      rw reverse-reverse clear',
    )

-- `iequals` says whether two texts are equal in lower case.
pub iequals_iff : (a b : Bytes) → (iequals a b ≡ true) ↔ (map to_lower a ≡ map to_lower b)
unfolding iequals same_letters
iequals_iff [] [] = ground arith
iequals_iff [] (y ∷ b) = ground arith
iequals_iff (x ∷ a) [] = ground arith
iequals_iff (x ∷ a) (y ∷ b) = ground (arith, iequals_iff a b)

behind : (s rest : Bytes) → drop (length s + 2) (s ++ 13 ∷ 10 ∷ rest) ≡ rest
behind [] rest = refl
behind (c ∷ s) rest =
    let more : suc (length s) + 2 ≡ suc (length s + 2) = omega arith in rw more (behind s rest)

-- A line ends at the first CR LF.
pub next_line-append : (s rest : Bytes) → Lacks 13 s → next_line (s ++ 13 ∷ 10 ∷ rest) ≡ (s, rest)
unfolding next_line
next_line-append s rest h =
    rw (find-append 13 (10 ∷ []) s rest h, next_line)
      (ap₂ (λ (a b : Bytes). (a, b)) (take-length-append s (13 ∷ 10 ∷ rest)) (behind s rest))

-- The same for the two parts, where they stand apart.
pub line-append : (s rest : Bytes) → Lacks 13 s → (next_line (s ++ 13 ∷ 10 ∷ rest)).0 ≡ s
line-append s rest h = ap (λ (p : Bytes × Bytes). p.0) (next_line-append s rest h)

pub rest-append : (s rest : Bytes) → Lacks 13 s → (next_line (s ++ 13 ∷ 10 ∷ rest)).1 ≡ rest
rest-append s rest h = ap (λ (p : Bytes × Bytes). p.1) (next_line-append s rest h)
