-- ===== src/Media/AnnexB/Offsets.antt =====
-- The search from an offset of the buffer.
use veda_rtsp.Base.{
  ℕ, zero, suc, ◌+◌, ◌-◌, ◌≤◌, ◌≡◌, ◌∙◌, refl, sym, ap, Option-cases, if◌then◌else◌, leb, ltb, inl,
  inr, Option, none, some, [], ◌∷◌, ◌++◌, Bytes, length, length-drop, drop-append, drop_all, drop,
  starts_with, arith,
}
use veda_rtsp.Media.AnnexB.{start_code_here, find_start_code, find_from, resume_at}
use veda_rtsp.Media.AnnexB.Search.{find_start_code-append, find_start_code_resume}

drop-drop : (m n : ℕ) (xs : Bytes) → drop m (drop n xs) ≡ drop (m + n) xs
drop-drop m zero xs = let e : m + 0 ≡ m = omega arith in rw e refl
drop-drop m (suc n) [] = drop_all m [] (omega arith) ∙ sym (drop_all (m + suc n) [] (omega arith))
drop-drop m (suc n) (x ∷ xs) =
    let e : m + suc n ≡ suc (m + n) = omega arith in rw e (drop-drop m n xs)

start_code_here-le : (s : Bytes) (len : ℕ) → start_code_here s ≡ some len → len ≤ length s
unfolding start_code_here starts_with
start_code_here-le [] len e = ground arith
start_code_here-le (a ∷ []) len e = ground arith
start_code_here-le (a ∷ b ∷ []) len e = ground arith
start_code_here-le (a ∷ b ∷ c ∷ []) len e = ground arith
start_code_here-le (a ∷ b ∷ c ∷ d ∷ s) len e = ground arith

find_start_code-le :
    (s : Bytes) (at len : ℕ) → find_start_code s ≡ some (at, len) → at + len ≤ length s
unfolding find_start_code
find_start_code-le [] at len e = cc
find_start_code-le (c ∷ s) at len e = elim (Option-cases (start_code_here (c ∷ s))) [
  | inl nothing ↦ elim (Option-cases (find_start_code s)) [
    | inl none_later ↦ absurd (ground (arith, nothing, none_later))
    | inr ((j, l), found) ↦ ground (arith, nothing, found, find_start_code-le s j l found)
  ]
  | inr (l, here) ↦ ground (arith, here, start_code_here-le (c ∷ s) l here)
]

abbrev pub moved : ℕ → Option (ℕ × ℕ) → Option (ℕ × ℕ)
moved n none = none
moved n (some (at, len)) = some (at + n, len)

-- A position found from an offset, as one found from the front of what is left.
find_from-shift : (n k : ℕ) (s : Bytes) → find_from (k + n) s ≡ moved n (find_from k (drop n s))
unfolding find_from
find_from-shift n k s = ground (arith, ap find_start_code (drop-drop k n s))

pub find_from-moved : (n : ℕ) (s : Bytes) → find_from n s ≡ moved n (find_start_code (drop n s))
unfolding find_from
find_from-moved n s = ground arith

-- Where nothing is found behind `n`, the next search may begin at `resume_at n`.
pub resume_lem :
    (n : ℕ) (s more : Bytes)
    → n ≤ length s
    → find_from n s ≡ none
    → find_from (resume_at n s) (s ++ more) ≡ find_from n (s ++ more)
unfolding resume_at
resume_lem n s more h e =
    let nothing : find_start_code (drop n s) ≡ none = ground (arith, find_from-moved n s) in
    let k : (if ltb (if leb 3 (length s) then length s - 3 else n) n
          then n
          else if leb 3 (length s)
          then length s - 3
          else n)
        ≡ length (drop n s) - 3 + n =
      ground (arith, length-drop n s) in
    rw (k, find_from-shift n (length (drop n s) - 3) (s ++ more), drop-append n s more h)
      (ap (moved n) (sym (find_start_code_resume (drop n s) more nothing))
        ∙ (ap (λ (d : Bytes). moved n (find_start_code d)) (sym (drop-append n s more h))
            ∙ sym (find_from-moved n (s ++ more))))

-- What is found stays found, and lies within the buffer.
pub find_from-append :
    (n : ℕ) (s more : Bytes) (at len : ℕ)
    → n ≤ length s
    → find_from n s ≡ some (at, len)
    → find_from n (s ++ more) ≡ some (at, len)
find_from-append n s more at len h e = elim (Option-cases (find_start_code (drop n s))) [
  | inl nothing ↦ absurd (ground (arith, nothing, find_from-moved n s))
  | inr ((j, l), found) ↦
      find_from-moved n (s ++ more)
      ∙ (ap (λ (d : Bytes). moved n (find_start_code d)) (drop-append n s more h)
          ∙ (ap (moved n) (find_start_code-append (drop n s) more j l found)
              ∙ (ap (moved n) (sym found) ∙ (sym (find_from-moved n s) ∙ e))))
]

pub find_from-le :
    (n : ℕ) (s : Bytes) (at len : ℕ)
    → n ≤ length s
    → find_from n s ≡ some (at, len)
    → (n ≤ at) × (at + len ≤ length s)
find_from-le n s at len h e = elim (Option-cases (find_start_code (drop n s))) [
  | inl nothing ↦ absurd (ground (arith, nothing, find_from-moved n s))
  | inr ((j, l), found) ↦
      ground (
        arith,
        found,
        find_from-moved n s,
        length-drop n s,
        find_start_code-le (drop n s) j l found,
      )
]
