-- ===== src/Media/AnnexB/Search.antt =====
-- The search for a start code on a buffer that grows.
use veda_rtsp.Base.{
  ℕ, suc, ◌-◌, ◌≡◌, refl, sym, ap, ◌∙◌, ◌>>=◌, Option-cases, inl, inr, none, some, [], ◌∷◌, ◌++◌,
  Bytes, length, starts_with, arith,
}
use veda_rtsp.Media.AnnexB.{start_code_here, later, find_start_code, find_from}

-- Four bytes settle whether a start code stands at an index.
here-append :
    (a b c d : ℕ) (s more : Bytes)
    → start_code_here (a ∷ b ∷ c ∷ d ∷ s ++ more) ≡ start_code_here (a ∷ b ∷ c ∷ d ∷ s)
unfolding start_code_here starts_with
here-append a b c d s more = refl

-- Three bytes settle it when they are a start code.
here_three :
    (a b c : ℕ) (more : Bytes) (len : ℕ)
    → start_code_here (a ∷ b ∷ c ∷ []) ≡ some len
    → start_code_here (a ∷ b ∷ c ∷ more) ≡ some len
unfolding start_code_here starts_with
here_three a b c more len e = ground (arith, e)

find_here :
    (c : ℕ) (s : Bytes) (len : ℕ)
    → start_code_here (c ∷ s) ≡ some len
    → find_start_code (c ∷ s) ≡ some (0, len)
unfolding find_start_code
find_here c s len e = ground (arith, e)

pub find_later :
    (c : ℕ) (s : Bytes)
    → start_code_here (c ∷ s) ≡ none
    → find_start_code (c ∷ s) ≡ later (find_start_code s)
unfolding find_start_code
find_later c s e = ground (arith, e)

pub find_one : (a : ℕ) → find_start_code (a ∷ []) ≡ none
unfolding find_start_code start_code_here starts_with
find_one a = ground arith

pub find_two : (a b : ℕ) → find_start_code (a ∷ b ∷ []) ≡ none
unfolding find_start_code start_code_here starts_with
find_two a b = ground (arith, find_one b)

find_three :
    (a b c : ℕ)
    → find_start_code (a ∷ b ∷ c ∷ []) ≡ (start_code_here (a ∷ b ∷ c ∷ []) >>= λ len. some (0, len))
unfolding find_start_code
find_three a b c = ground (arith, find_two b c)

-- A start code that is found stays where it is when the buffer grows.
pub find_start_code-append :
    (s more : Bytes) (at len : ℕ)
    → find_start_code s ≡ some (at, len)
    → find_start_code (s ++ more) ≡ some (at, len)
find_start_code-append [] more at len e = unfold find_start_code in cc
find_start_code-append (a ∷ []) more at len e = ground (arith, find_one a)
find_start_code-append (a ∷ b ∷ []) more at len e = ground (arith, find_two a b)
find_start_code-append (a ∷ b ∷ c ∷ []) more at len e =
    elim (Option-cases (start_code_here (a ∷ b ∷ c ∷ []))) [
      | inl nothing ↦ absurd (ground (arith, find_three a b c, nothing))
      | inr (l, here) ↦
          find_here a (b ∷ c ∷ more) l (here_three a b c more l here)
          ∙ (sym (find_here a (b ∷ c ∷ []) l here) ∙ e)
    ]
find_start_code-append (a ∷ b ∷ c ∷ d ∷ s) more at len e =
    let settled = here-append a b c d s more in
    elim (Option-cases (start_code_here (a ∷ b ∷ c ∷ d ∷ s))) [
      | inl nothing ↦ elim (Option-cases (find_start_code (b ∷ c ∷ d ∷ s))) [
        | inl none_later ↦ absurd (ground (arith, find_later a (b ∷ c ∷ d ∷ s) nothing, none_later))
        | inr ((j, l), found) ↦
            find_later a (b ∷ c ∷ d ∷ (s ++ more)) (settled ∙ nothing)
            ∙ (ap later (find_start_code-append (b ∷ c ∷ d ∷ s) more j l found)
                ∙ (sym (ap later found) ∙ (sym (find_later a (b ∷ c ∷ d ∷ s) nothing) ∙ e)))
      ]
      | inr (l, here) ↦
          find_here a (b ∷ c ∷ d ∷ (s ++ more)) l (settled ∙ here)
          ∙ (sym (find_here a (b ∷ c ∷ d ∷ s) l here) ∙ e)
    ]

find_from_zero : (s : Bytes) → find_from 0 s ≡ find_start_code s
unfolding find_from
find_from_zero s = ground arith

find_from-suc : (n a : ℕ) (s : Bytes) → find_from (suc n) (a ∷ s) ≡ later (find_from n s)
unfolding find_from
find_from-suc n a s = ground arith

-- Where no start code is found, the next search can begin three bytes before the end.
pub find_start_code_resume :
    (s more : Bytes)
    → find_start_code s ≡ none
    → find_start_code (s ++ more) ≡ find_from (length s - 3) (s ++ more)
find_start_code_resume [] more e = sym (find_from_zero more)
find_start_code_resume (a ∷ []) more e = sym (find_from_zero (a ∷ more))
find_start_code_resume (a ∷ b ∷ []) more e = sym (find_from_zero (a ∷ b ∷ more))
find_start_code_resume (a ∷ b ∷ c ∷ []) more e = sym (find_from_zero (a ∷ b ∷ c ∷ more))
find_start_code_resume (a ∷ b ∷ c ∷ d ∷ s) more e =
    elim (Option-cases (start_code_here (a ∷ b ∷ c ∷ d ∷ s))) [
      | inl nothing ↦ elim (Option-cases (find_start_code (b ∷ c ∷ d ∷ s))) [
        | inl none_later ↦
            let n : length (a ∷ b ∷ c ∷ d ∷ s) - 3 ≡ suc (length (b ∷ c ∷ d ∷ s) - 3) =
              omega arith in
            find_later a (b ∷ c ∷ d ∷ (s ++ more)) (here-append a b c d s more ∙ nothing)
            ∙ (ap later (find_start_code_resume (b ∷ c ∷ d ∷ s) more none_later)
                ∙ (sym (find_from-suc (length (b ∷ c ∷ d ∷ s) - 3) a (b ∷ c ∷ d ∷ (s ++ more)))
                    ∙ ap (λ (k : ℕ). find_from k (a ∷ b ∷ c ∷ d ∷ (s ++ more))) (sym n)))
        | inr ((j, l), found) ↦ absurd (ground (arith, find_later a (b ∷ c ∷ d ∷ s) nothing, found))
      ]
      | inr (l, here) ↦ absurd (ground (arith, find_here a (b ∷ c ∷ d ∷ s) l here))
    ]
