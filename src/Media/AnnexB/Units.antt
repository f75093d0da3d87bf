-- ===== src/Media/AnnexB/Units.antt =====
-- A stream of NAL units, each behind its start code, and what the reader makes of it.
use veda_rtsp.Base.{
  ℕ, zero, suc, ◌+◌, ◌-◌, ◌≤◌, ◌≡◌, ◌≢◌, ◌∙◌, refl, sym, ap, ap₂, Bool, true, false, if◌then◌else◌,
  none, some, List, [], ◌∷◌, ◌++◌, append-nil, append_assoc, Bytes, All, length, length-append, map,
  drop, take-length-append, drop-length-append, starts_with, arith,
}
use veda_rtsp.Media.AnnexB.{
  three_bytes, four_bytes, start_code_here, later, find_start_code, find_from, Stream, call_back,
  find_end, read_nal,
}
use veda_rtsp.Media.AnnexB.Search.{find_one, find_two, find_later}
use veda_rtsp.Media.AnnexB.Offsets.{moved, find_from-moved}
use veda_rtsp.Media.AnnexB.Chunks.{
  concat, IsSame, read_nal-IsSame, find_end_found, find_end_eof, read_nal_found,
}

-- The bytes of a NAL unit as an encoder leaves them: nowhere 00 00 00 or 00 00 01, and no zero at
-- the end.
abbrev pub IsClean : Bytes → Type 0
IsClean [] = Unit
IsClean (a ∷ []) = a ≢ 0
IsClean (a ∷ b ∷ []) = b ≢ 0
IsClean (a ∷ b ∷ c ∷ s) = (a ≡ 0 → b ≡ 0 → 2 ≤ c) × IsClean (b ∷ c ∷ s)

-- A start code of four bytes, or of three.
abbrev pub start_code : Bool → Bytes
start_code true = four_bytes
start_code false = three_bytes

-- A NAL unit with the kind of its start code.
pub record NalUnit : Type 0 where
  pub long : Bool
  pub nal : Bytes

abbrev pub annexb : List NalUnit → Bytes
annexb [] = []
annexb (u ∷ us) = start_code u.long ++ (u.nal ++ annexb us)

abbrev is_more : List NalUnit → Bool
is_more [] = false
is_more (u ∷ us) = true

find_at_code :
    (b : Bool) (rest : Bytes)
    → find_start_code (start_code b ++ rest) ≡ some (0, length (start_code b))
unfolding find_start_code start_code_here starts_with
find_at_code true rest = refl
find_at_code false rest = refl

not_here_end : (a b : ℕ) (rest : Bytes) → a ≢ 0 → start_code_here (a ∷ b ∷ rest) ≡ none
unfolding start_code_here starts_with
not_here_end a b rest h = ground arith

not_here :
    (a b c : ℕ) (rest : Bytes) → (a ≡ 0 → b ≡ 0 → 2 ≤ c) → start_code_here (a ∷ b ∷ c ∷ rest) ≡ none
unfolding start_code_here starts_with
not_here a b c rest h = ground arith

-- In front of a start code a clean NAL unit hides none.
find_behind :
    (nal : Bytes) (b : Bool) (rest : Bytes)
    → IsClean nal
    → nal ≢ []
    → find_start_code (nal ++ (start_code b ++ rest)) ≡ some (length nal, length (start_code b))
find_behind [] b rest h ne = absurd (ne refl)
find_behind (x ∷ []) true rest h ne =
    find_later x (four_bytes ++ rest) (not_here_end x 0 _ h) ∙ ap later (find_at_code true rest)
find_behind (x ∷ []) false rest h ne =
    find_later x (three_bytes ++ rest) (not_here_end x 0 _ h) ∙ ap later (find_at_code false rest)
find_behind (x ∷ y ∷ []) true rest h ne =
    find_later x (y ∷ (four_bytes ++ rest)) (not_here x y 0 _ (λ zero_x zero_y. absurd (h zero_y)))
    ∙ ap later (find_behind (y ∷ []) true rest h (λ e. cc))
find_behind (x ∷ y ∷ []) false rest h ne =
    find_later x (y ∷ (three_bytes ++ rest)) (not_here x y 0 _ (λ zero_x zero_y. absurd (h zero_y)))
    ∙ ap later (find_behind (y ∷ []) false rest h (λ e. cc))
find_behind (x ∷ y ∷ z ∷ s) b rest h ne =
    find_later x (y ∷ z ∷ (s ++ (start_code b ++ rest))) (not_here x y z _ h.0)
    ∙ ap later (find_behind (y ∷ z ∷ s) b rest h.1 (λ e. cc))

-- At the end of the stream it hides none either.
find_none : (nal : Bytes) → IsClean nal → find_start_code nal ≡ none
find_none [] h = unfold find_start_code in refl
find_none (x ∷ []) h = find_one x
find_none (x ∷ y ∷ []) h = find_two x y
find_none (x ∷ y ∷ z ∷ s) h =
    find_later x (y ∷ z ∷ s) (not_here x y z s h.0) ∙ ap later (find_none (y ∷ z ∷ s) h.1)

call_back_lem : (nal : Bytes) → nal ≢ [] → call_back nal ≡ nal ∷ []
unfolding call_back
call_back_lem [] ne = absurd (ne refl)
call_back_lem (x ∷ s) ne = refl

module _ (b : Bool) (nal : Bytes) (clean : IsClean nal) (ne : nal ≢ []) where
  abbrev code_length : ℕ
  code_length = length (start_code b)

  aligned :
      (rest : Bytes)
      → read_nal (start_code b ++ (nal ++ rest)) []
        ≡ find_end code_length code_length (start_code b ++ (nal ++ rest)) []
  aligned rest = read_nal_found (start_code b ++ (nal ++ rest)) [] 0 code_length (
      find_from-moved 0 (start_code b ++ (nal ++ rest))
      ∙ ap (moved 0) (find_at_code b (nal ++ rest)))

  behind_code : (rest : Bytes) → drop code_length (start_code b ++ (nal ++ rest)) ≡ nal ++ rest
  behind_code rest = drop-length-append (start_code b) (nal ++ rest)

  search_behind :
      (rest : Bytes)
      → find_from code_length (start_code b ++ (nal ++ rest))
        ≡ moved code_length (find_start_code (nal ++ rest))
  search_behind rest =
      find_from-moved code_length (start_code b ++ (nal ++ rest))
      ∙ ap (λ (d : Bytes). moved code_length (find_start_code d)) (behind_code rest)

  read_last :
      read_nal (start_code b ++ (nal ++ [])) []
      ≡ record { buffer = []; rest = []; nals = nal ∷ []; more = false }
  read_last =
      let none_left : find_start_code (nal ++ []) ≡ none = rw append-nil (find_none nal clean) in
      aligned []
      ∙ (find_end_eof code_length code_length (start_code b ++ (nal ++ []))
            (search_behind [] ∙ ap (moved code_length) none_left)
          ∙ ap (λ (d : List Bytes). record { buffer = []; rest = []; nals = d; more = false })
              (ap call_back (behind_code [] ∙ append-nil nal) ∙ call_back_lem nal ne))

  read_first :
      (c : Bool) (rest : Bytes)
      → read_nal (start_code b ++ (nal ++ (start_code c ++ rest))) []
        ≡ record { buffer = start_code c ++ rest; rest = []; nals = nal ∷ []; more = true }
  read_first c rest =
      let behind : Bytes = start_code c ++ rest in
      let buffer : Bytes = start_code b ++ (nal ++ (start_code c ++ rest)) in
      let ends : length nal + code_length ≡ length (start_code b ++ nal) =
        omega (arith, length-append (start_code b) nal) in
      let len : length nal + code_length - code_length ≡ length nal = omega arith in
      aligned behind
      ∙ (find_end_found code_length code_length buffer [] (length nal + code_length)
            (length (start_code c))
            (search_behind behind ∙ ap (moved code_length) (find_behind nal c rest clean ne))
          ∙ ap₂
              (λ (left : Bytes) (got : List Bytes). record {
                buffer = left;
                rest = [];
                nals = got;
                more = true;
              })
              (rw (ends, sym (append_assoc (start_code b) nal behind))
                (drop-length-append (start_code b ++ nal) behind))
              (rw (len, behind_code behind, take-length-append nal behind) (call_back_lem nal ne)))

-- Calls of `read_nal`, one behind the other, as long as it returns true; at most `fuel` of them.
abbrev pub read_all : ℕ → Bytes → Stream → List Bytes
read_all zero buffer chunks = []
read_all (suc fuel) buffer chunks =
    let r = read_nal buffer chunks in
    let later = read_all fuel r.buffer r.rest in r.nals ++ (if r.more then later else [])

-- What an encoder makes: at least one byte, and clean.
pub record IsNalUnit (u : NalUnit) : Type 0 where
  pub clean : IsClean u.nal
  pub ne_nil : u.nal ≢ []

abbrev pub nals_of : List NalUnit → List Bytes
nals_of = map (λ u. u.nal)

read_first_lem :
    (u : NalUnit) (us : List NalUnit)
    → IsNalUnit u
    → read_nal (annexb (u ∷ us)) []
      ≡ record { buffer = annexb us; rest = []; nals = u.nal ∷ []; more = is_more us }
read_first_lem u [] v = read_last u.long u.nal v.clean v.ne_nil
read_first_lem u (w ∷ us) v = read_first u.long u.nal v.clean v.ne_nil w.long (w.nal ++ annexb us)

-- One call on a stream that is cut in any way.
pub read_unit :
    (u : NalUnit) (us : List NalUnit) (buffer : Bytes) (chunks : Stream)
    → IsNalUnit u
    → buffer ++ concat chunks ≡ annexb (u ∷ us)
    → IsSame
        (read_nal buffer chunks)
        (record { buffer = annexb us; rest = []; nals = u.nal ∷ []; more = is_more us })
read_unit u us buffer chunks v e = rw (e, read_first_lem u us v) at (read_nal-IsSame buffer chunks)

-- A stream of clean NAL units, each behind a start code of three bytes or of four, is read back as
-- exactly those NAL units in their order, however it is cut into reads.
pub read_all-annexb :
    (u : NalUnit) (us : List NalUnit) (buffer : Bytes) (chunks : Stream)
    → All IsNalUnit (u ∷ us)
    → buffer ++ concat chunks ≡ annexb (u ∷ us)
    → (fuel : ℕ) → length us ≤ fuel
    → read_all (suc fuel) buffer chunks ≡ u.nal ∷ nals_of us
read_all-annexb u [] buffer chunks v e fuel h =
    let same = read_unit u [] buffer chunks v.0 e in rw (same.nals, same.more) refl
read_all-annexb u (w ∷ us) buffer chunks v e zero h = absurd (omega arith)
read_all-annexb u (w ∷ us) buffer chunks v e (suc fuel) h =
    let same = read_unit u (w ∷ us) buffer chunks v.0 e in
    rw (same.nals, same.more)
      (ap (◌∷◌ u.nal) (
        read_all-annexb w us (read_nal buffer chunks).buffer (read_nal buffer chunks).rest v.1
          (same.left ∙ append-nil (annexb (w ∷ us))) fuel (omega arith)))
