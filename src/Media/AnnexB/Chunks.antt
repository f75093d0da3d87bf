-- ===== src/Media/AnnexB/Chunks.antt =====
-- `read_nal` against the way the file is cut into reads.
use veda_rtsp.Base.{
  ℕ, ◌-◌, ◌≤◌, ◌≡◌, ◌∙◌, refl, sym, ap, true, false, Option-cases, inl, inr, none, some, [], ◌∷◌,
  ◌++◌, append_assoc, append-nil, Bytes, length, length-append, length-drop, drop-append,
  take-append, take, drop, arith,
}
use veda_rtsp.Media.AnnexB.{find_from, Stream, ReadNal, call_back, resume_at, find_end, read_nal}
use veda_rtsp.Media.AnnexB.Offsets.{resume_lem, find_from-append, find_from-le}

abbrev pub concat : Stream → Bytes
concat [] = []
concat (chunk ∷ rest) = chunk ++ concat rest

-- Two calls have given the same NAL units, returned the same, and left the same bytes to be cut.
pub record IsSame (r w : ReadNal) : Type 0 where
  pub nals : r.nals ≡ w.nals
  pub more : r.more ≡ w.more
  pub left : r.buffer ++ concat r.rest ≡ w.buffer ++ concat w.rest

pub find_end_found :
    (n scan : ℕ) (buffer : Bytes) (chunks : Stream) (next len : ℕ)
    → find_from scan buffer ≡ some (next, len)
    → find_end n scan buffer chunks ≡ record {
      buffer = drop next buffer;
      rest = chunks;
      nals = call_back (take (next - n) (drop n buffer));
      more = true;
    }
unfolding find_end
find_end_found n scan buffer [] next len e = rw (e, find_end) refl
find_end_found n scan buffer (chunk ∷ rest) next len e = rw (e, find_end) refl

pub find_end_eof :
    (n scan : ℕ) (buffer : Bytes)
    → find_from scan buffer ≡ none
    → find_end n scan buffer []
      ≡ record { buffer = []; rest = []; nals = call_back (drop n buffer); more = false }
unfolding find_end
find_end_eof n scan buffer e = rw (e, find_end) refl

find_end_retry :
    (n scan : ℕ) (buffer : Bytes) (rest : Stream)
    → find_from scan buffer ≡ none
    → find_end n scan buffer ([] ∷ rest) ≡ find_end n scan buffer rest
unfolding find_end
find_end_retry n scan buffer rest e = rw (e, find_end) refl

find_end_refill :
    (n scan : ℕ) (buffer : Bytes) (c : ℕ) (cs : Bytes) (rest : Stream)
    → find_from scan buffer ≡ none
    → find_end n scan buffer ((c ∷ cs) ∷ rest)
      ≡ find_end n (resume_at n buffer) (buffer ++ (c ∷ cs)) rest
unfolding find_end
find_end_refill n scan buffer c cs rest e = rw (e, find_end) refl

-- Step 2 may begin its search at `scan`: none begins between `n` and `scan`, whatever comes.
abbrev IsResumable : ℕ → ℕ → Bytes → Type 0
IsResumable n scan buffer =
    (more : Bytes) → find_from scan (buffer ++ more) ≡ find_from n (buffer ++ more)

found-IsSame :
    (n scan : ℕ) (buffer : Bytes) (chunks : Stream) (next len : ℕ)
    → n ≤ length buffer
    → find_from scan buffer ≡ some (next, len)
    → find_from n buffer ≡ some (next, len)
    → IsSame (find_end n scan buffer chunks) (find_end n n (buffer ++ concat chunks) [])
found-IsSame n scan buffer chunks next len h found from_n =
    let (after_n, within) = find_from-le n buffer next len h from_n in
    rw
      (
        find_end_found n scan buffer chunks next len found,
        find_end_found n n (buffer ++ concat chunks) [] next len
            (find_from-append n buffer (concat chunks) next len h from_n),
      )
      (record {
        nals = ap call_back (
            sym (
              ap (take (next - n)) (drop-append n buffer (concat chunks) h)
              ∙ take-append (next - n) (drop n buffer) (concat chunks)
                  (omega (arith, length-drop n buffer))));
        more = refl;
        left =
            sym (drop-append next buffer (concat chunks) (omega arith))
            ∙ sym (append-nil (drop next (buffer ++ concat chunks)));
      })

by_search :
    (n scan : ℕ) (buffer : Bytes) (chunks : Stream)
    → n ≤ length buffer
    → IsResumable n scan buffer
    → (find_from scan buffer ≡ none
        → find_from n buffer ≡ none
        → IsSame (find_end n scan buffer chunks) (find_end n n (buffer ++ concat chunks) []))
    → IsSame (find_end n scan buffer chunks) (find_end n n (buffer ++ concat chunks) [])
by_search n scan buffer chunks h resumes missing =
    let here : find_from scan buffer ≡ find_from n buffer =
      ap (find_from scan) (sym (append-nil buffer))
      ∙ (resumes [] ∙ ap (find_from n) (append-nil buffer)) in
    elim (Option-cases (find_from scan buffer)) [
      | inr ((next, len), found) ↦
          found-IsSame n scan buffer chunks next len h found (sym here ∙ found)
      | inl nothing ↦ missing nothing (sym here ∙ nothing)
    ]

-- Steps 2 and 3 give what they give on all the bytes at once.
find_end-IsSame :
    (n scan : ℕ) (buffer : Bytes) (chunks : Stream)
    → n ≤ length buffer
    → IsResumable n scan buffer
    → IsSame (find_end n scan buffer chunks) (find_end n n (buffer ++ concat chunks) [])
find_end-IsSame n scan buffer [] h resumes = by_search n scan buffer [] h resumes (λ nothing from_n.
    rw (append-nil buffer, find_end_eof n scan buffer nothing, find_end_eof n n buffer from_n)
      (record { nals = refl; more = refl; left = refl }))
find_end-IsSame n scan buffer ([] ∷ rest) h resumes =
    by_search n scan buffer ([] ∷ rest) h resumes (λ nothing from_n.
      rw (find_end_retry n scan buffer rest nothing) (find_end-IsSame n scan buffer rest h resumes))
find_end-IsSame n scan buffer ((c ∷ cs) ∷ rest) h resumes =
    by_search n scan buffer ((c ∷ cs) ∷ rest) h resumes (λ nothing from_n.
      let whole : buffer ++ ((c ∷ cs) ++ concat rest) ≡ (buffer ++ (c ∷ cs)) ++ concat rest =
        sym (append_assoc buffer (c ∷ cs) (concat rest)) in
      rw (find_end_refill n scan buffer c cs rest nothing, whole)
        (find_end-IsSame n (resume_at n buffer) (buffer ++ (c ∷ cs)) rest
          (omega (arith, length-append buffer (c ∷ cs), h))
          (λ more.
            ap (find_from (resume_at n buffer)) (append_assoc buffer (c ∷ cs) more)
            ∙ (resume_lem n buffer ((c ∷ cs) ++ more) h from_n
                ∙ ap (find_from n) (sym (append_assoc buffer (c ∷ cs) more))))))

pub read_nal_found :
    (buffer : Bytes) (chunks : Stream) (at len : ℕ)
    → find_from 0 buffer ≡ some (at, len)
    → read_nal buffer chunks ≡ find_end len len (drop at buffer) chunks
unfolding read_nal
read_nal_found buffer [] at len e = rw (e, read_nal) refl
read_nal_found buffer (chunk ∷ rest) at len e = rw (e, read_nal) refl

read_nal_refill :
    (buffer chunk : Bytes) (rest : Stream)
    → find_from 0 buffer ≡ none
    → read_nal buffer (chunk ∷ rest) ≡ read_nal (buffer ++ chunk) rest
unfolding read_nal
read_nal_refill buffer chunk rest e = rw (e, read_nal) refl

read_nal_found-IsSame :
    (buffer : Bytes) (chunks : Stream) (at len : ℕ)
    → find_from 0 buffer ≡ some (at, len)
    → IsSame (read_nal buffer chunks) (read_nal (buffer ++ concat chunks) [])
read_nal_found-IsSame buffer chunks at len e =
    let (after_0, within) = find_from-le 0 buffer at len (omega arith) e in
    rw
      (
        read_nal_found buffer chunks at len e,
        read_nal_found (buffer ++ concat chunks) [] at len
            (find_from-append 0 buffer (concat chunks) at len (omega arith) e),
        drop-append at buffer (concat chunks) (omega arith),
      )
      (find_end-IsSame len len (drop at buffer) chunks (omega (arith, length-drop at buffer))
        (λ more. refl))

-- However the bytes of a file are cut into reads, `read_nal` gives the NAL unit that it gives when
-- they all stand in its buffer, returns the same, and leaves the same bytes to be cut.
pub read_nal-IsSame :
    (buffer : Bytes) (chunks : Stream)
    → IsSame (read_nal buffer chunks) (read_nal (buffer ++ concat chunks) [])
read_nal-IsSame buffer [] =
    rw (append-nil buffer) (record { nals = refl; more = refl; left = refl })
read_nal-IsSame buffer (chunk ∷ rest) = elim (Option-cases (find_from 0 buffer)) [
  | inl nothing ↦
      rw (read_nal_refill buffer chunk rest nothing, sym (append_assoc buffer chunk (concat rest)))
        (read_nal-IsSame (buffer ++ chunk) rest)
  | inr ((at, len), found) ↦ read_nal_found-IsSame buffer (chunk ∷ rest) at len found
]
