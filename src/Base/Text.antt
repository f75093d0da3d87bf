-- ===== src/Base/Text.antt =====
-- Text as its bytes, and the std::string searches that the program uses.
use Prim.Native.Char.{code}
use Prim.Native.String.{String}
use Prim.Native.Nat.{ℕ, suc, ◌+◌, ◌≤◌}
use mathlib.Core.Path.{◌≡◌, refl}
use mathlib.Core.Logic.{◌↔◌, ◌≢◌, inl, inr}
use mathlib.Core.Bool.{Bool, true, false, ◌&&◌}
use mathlib.Core.Option.{Option, none, some}
use mathlib.Core.List.{List, [], ◌∷◌, ◌++◌}
use native.Mathlib.Omega.{arith}
use veda_rtsp.Base.Tests.{◌==◌, if◌then◌else◌, Bool-cases, Option-cases}
use veda_rtsp.Base.Lists.{◌>>=◌, length, All}

abbrev pub Bytes : Type 0
Bytes = List ℕ

-- The code points of a text: its bytes, since every literal here is ASCII.
abbrev pub codes : String → Bytes
codes String.[] = []
codes (String.◌∷◌ c s) = code c ∷ codes s

-- operator== of std::string.
unfoldable pub bytes_eq : Bytes → Bytes → Bool
bytes_eq [] [] = true
bytes_eq (x ∷ xs) (y ∷ ys) = x == y && bytes_eq xs ys
bytes_eq _ _ = false

pub bytes_eq_iff : (a b : Bytes) → (bytes_eq a b ≡ true) ↔ (a ≡ b)
unfolding bytes_eq
bytes_eq_iff (x ∷ a) (y ∷ b) = ground (arith, bytes_eq_iff a b)
bytes_eq_iff _ _ = ground arith

-- The pattern stands at the front.
unfoldable pub starts_with : Bytes → Bytes → Bool
starts_with [] s = true
starts_with (p ∷ ps) [] = false
starts_with (p ∷ ps) (c ∷ s) = p == c && starts_with ps s

-- `find` of a text that is not empty: the first position, or `none` for npos.
unfoldable pub find : Bytes → Bytes → Option ℕ
unfolding starts_with
find pat [] = none
find pat (c ∷ s) =
    let later = (find pat s >>= λ i. some (suc i)) in
    if starts_with pat (c ∷ s) then some 0 else later

-- `find` of one character.
unfoldable pub find_char : ℕ → Bytes → Option ℕ
find_char x [] = none
find_char x (c ∷ s) =
    let later = (find_char x s >>= λ i. some (suc i)) in if c == x then some 0 else later

abbrev pub Lacks : ℕ → Bytes → Type 0
Lacks x = All (λ c. c ≢ x)

-- A character is found behind a text that lacks it.
pub find_char-append :
    (x : ℕ) (s rest : Bytes) → Lacks x s → find_char x (s ++ x ∷ rest) ≡ some (length s)
unfolding find_char
find_char-append x [] rest h = ground arith
find_char-append x (c ∷ s) rest h = ground (arith, find_char-append x s rest h.1)

pub find_char-Lacks : (x : ℕ) (s : Bytes) → Lacks x s → find_char x s ≡ none
unfolding find_char
find_char-Lacks x [] h = refl
find_char-Lacks x (c ∷ s) h = ground (arith, find_char-Lacks x s h.1)

pub starts_with_self : (pat rest : Bytes) → starts_with pat (pat ++ rest) ≡ true
unfolding starts_with
starts_with_self [] rest = refl
starts_with_self (p ∷ ps) rest = ground (arith, starts_with_self ps rest)

-- A text is found behind one that lacks its first character.
pub find-append :
    (p : ℕ) (ps s rest : Bytes)
    → Lacks p s
    → find (p ∷ ps) (s ++ p ∷ (ps ++ rest)) ≡ some (length s)
unfolding find
find-append p ps [] rest h = ground (arith, starts_with_self ps rest)
find-append p ps (c ∷ s) rest h = ground (arith, find-append p ps s rest h.1)

starts_with-le : (pat s : Bytes) → starts_with pat s ≡ true → length pat ≤ length s
unfolding starts_with
starts_with-le [] s h = omega arith
starts_with-le (p ∷ ps) [] h = cc
starts_with-le (p ∷ ps) (c ∷ s) h = ground (arith, starts_with-le ps s)

-- What is found lies within the text.
pub find-le : (pat s : Bytes) {i : ℕ} → find pat s ≡ some i → i + length pat ≤ length s
unfolding find
find-le pat [] e = cc
find-le pat (c ∷ s) {i} e = elim (Bool-cases (starts_with pat (c ∷ s))) [
  | inl here ↦ ground (arith, here, starts_with-le pat (c ∷ s) here)
  | inr later ↦ elim (Option-cases (find pat s)) [
    | inl nothing ↦ cc
    | inr (j, found) ↦ ground (arith, later, found, find-le pat s found)
  ]
]

starts_with-append :
    (pat s t : Bytes) → length pat ≤ length s → starts_with pat (s ++ t) ≡ starts_with pat s
unfolding starts_with
starts_with-append [] s t h = refl
starts_with-append (p ∷ ps) [] t h = absurd (omega arith)
starts_with-append (p ∷ ps) (c ∷ s) t h = rw (starts_with-append ps s t (omega arith)) refl

-- More text behind does not change a position that is found.
pub find-append_mono : (pat s t : Bytes) (i : ℕ) → find pat s ≡ some i → find pat (s ++ t) ≡ some i
unfolding find
find-append_mono pat [] t i e = cc
find-append_mono pat (c ∷ s) t i e = elim (Bool-cases (starts_with pat (c ∷ s))) [
  | inl here ↦
      rw (starts_with-append pat (c ∷ s) t (starts_with-le pat (c ∷ s) here), here) (rw here at e)
  | inr later ↦ elim (Option-cases (find pat s)) [
    | inl nothing ↦ ground arith
    | inr (j, found) ↦
        rw
          (
            starts_with-append pat (c ∷ s) t (omega (arith, find-le pat s found)),
            later,
            find-append_mono pat s t j found,
          )
          (rw (later, found) at e)
  ]
]
