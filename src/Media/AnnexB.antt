-- ===== src/Media/AnnexB.antt =====
-- src/media/annexb_reader.cpp: NAL units cut out of a byte stream at its start codes.
pub mod Search
pub mod Offsets
pub mod Chunks
pub mod Units
use veda_rtsp.Base.{
  ℕ, suc, ◌+◌, ◌-◌, Bool, true, false, if◌then◌else◌, ltb, leb, Option, none, some, List, [], ◌∷◌,
  ◌++◌, Bytes, length, take, drop, starts_with,
}

-- The two start codes.
abbrev pub three_bytes : Bytes
three_bytes = 0 ∷ 0 ∷ 1 ∷ []

abbrev pub four_bytes : Bytes
four_bytes = 0 ∷ 0 ∷ 0 ∷ 1 ∷ []

-- The body of the loop at one index.
unfoldable pub start_code_here : Bytes → Option ℕ
unfolding starts_with
start_code_here s =
    if starts_with three_bytes s then some 3 else if starts_with four_bytes s then some 4 else none

abbrev pub later : Option (ℕ × ℕ) → Option (ℕ × ℕ)
later none = none
later (some (at, len)) = some (suc at, len)

-- `find_start_code` on the bytes from the offset on: position and length. An index that has fewer
-- than three bytes behind it matches no start code.
unfoldable pub find_start_code : Bytes → Option (ℕ × ℕ)
unfolding start_code_here
find_start_code [] = none
find_start_code (c ∷ s) =
    let further = later (find_start_code s) in
    elim (start_code_here (c ∷ s)) [ none ↦ further | some len ↦ some (0, len) ]

-- `find_start_code(offset, ...)`; the position counts from the front of the buffer.
unfoldable pub find_from : ℕ → Bytes → Option (ℕ × ℕ)
unfolding find_start_code
find_from offset s = elim (find_start_code (drop offset s)) [
  | none ↦ none
  | some (at, len) ↦ some (at + offset, len)
]

-- The chunks that the coming calls of `fread` deliver; behind the last one the stream has ended.
abbrev pub Stream : Type 0
Stream = List Bytes

-- The buffer, what is left of the stream, the NAL units given to the callback, and the value
-- returned.
pub record ReadNal : Type 0 where
  pub buffer : Bytes
  pub rest : Stream
  pub nals : List Bytes
  pub more : Bool

abbrev is_nil : Bytes → Bool
is_nil [] = true
is_nil (c ∷ cs) = false

-- `if (len > 0) callback(data, len)`
unfoldable pub call_back : Bytes → List Bytes
call_back [] = []
call_back (c ∷ cs) = (c ∷ cs) ∷ []

-- `resume`: three bytes back from the end, but behind the first start code.
unfoldable pub resume_at : ℕ → Bytes → ℕ
resume_at nal_start buffer =
    let resume = if leb 3 (length buffer) then length buffer - 3 else nal_start in
    if ltb resume nal_start then nal_start else resume

-- Steps 2 and 3. A chunk with no bytes is a read that `fill` tries again.
unfoldable pub find_end : ℕ → ℕ → Bytes → Stream → ReadNal
unfolding find_from call_back resume_at
find_end nal_start scan buffer [] = elim (find_from scan buffer) [
  | none ↦ record { buffer = []; rest = []; nals = call_back (drop nal_start buffer); more = false }
  | some (next, len) ↦ record {
    buffer = drop next buffer;
    rest = [];
    nals = call_back (take (next - nal_start) (drop nal_start buffer));
    more = true;
  }
]
find_end nal_start scan buffer (chunk ∷ rest) =
    let again = find_end nal_start scan buffer rest in
    let refilled = find_end nal_start (resume_at nal_start buffer) (buffer ++ chunk) rest in
    elim (find_from scan buffer) [
      | none ↦ if is_nil chunk then again else refilled
      | some (next, len) ↦ record {
        buffer = drop next buffer;
        rest = chunk ∷ rest;
        nals = call_back (take (next - nal_start) (drop nal_start buffer));
        more = true;
      }
    ]

-- The whole of `read_nal`: the first start code is moved to the front.
unfoldable pub read_nal : Bytes → Stream → ReadNal
unfolding find_end
read_nal buffer [] = elim (find_from 0 buffer) [
  | none ↦ record { buffer = buffer; rest = []; nals = []; more = false }
  | some (at, len) ↦ find_end len len (drop at buffer) []
]
read_nal buffer (chunk ∷ rest) =
    let refilled = read_nal (buffer ++ chunk) rest in
    elim (find_from 0 buffer) [
      | none ↦ refilled
      | some (at, len) ↦ find_end len len (drop at buffer) (chunk ∷ rest)
    ]
