-- ===== src/Rtsp/Parser/Headers.antt =====
-- src/rtsp/parser.cpp: looking a header up by name, against letter case and the order of the
-- unordered_map.
use mathlib.Core.List.{Mem, Perm, mem-cons, mem-cons_self, mem-cons_of_mem, not-mem-nil}
use mathlib.Core.List.Perm
use mathlib.Core.Logic.Or
use veda_rtsp.Base.{
  ◌≡◌, refl, ap, subst, true, false, if◌then◌else◌, Bool-cases, Option, none, some, inl, inr, [],
  ◌∷◌, map, Bytes, bytes_eq, bytes_eq_iff, arith, codes, stoi, ℤ, IsInt, print_int, stoi-print_int,
}
use veda_rtsp.Rtsp.Parser.{
  Headers, Request, to_lower, iequals, assign, lookup, scan_for, header, cseq_of, finish, parsed,
  thrown, Method,
}
use veda_rtsp.Rtsp.Parser.Text.{iequals_iff}

abbrev pub SameName : Bytes → Bytes → Type 0
SameName a b = map to_lower a ≡ map to_lower b

-- A name looks up the value assigned to it last, and an assignment changes no other name.
pub lookup-assign :
    (j k v : Bytes) (hs : Headers)
    → lookup j (assign k v hs) ≡ (if bytes_eq k j then some v else lookup j hs)
unfolding lookup assign
lookup-assign j k v [] = refl
lookup-assign j k v ((i, w) ∷ hs) =
    ground (arith, bytes_eq_iff k j, bytes_eq_iff i k, bytes_eq_iff i j, lookup-assign j k v hs)

found_prop : (o : Option Bytes) (v : Bytes) → IsProp (o ≡ some v)
found_prop o v = hlevel

miss_first :
    (k v i w name : Bytes)
    → ◌≡◌ {A = Bytes × Bytes} (k, v) (i, w)
    → SameName k name
    → iequals i name ≡ false
    → ⊥
miss_first k v i w name e same miss =
    let again : iequals i name ≡ true =
      (iequals_iff i name).1
        (subst (λ (x : Bytes). SameName x name) (ap (λ (p : Bytes × Bytes). p.0) e) same) in
    cc

scan_for_miss :
    (name : Bytes) (hs : Headers)
    → ((k v : Bytes) → Mem (k, v) hs → ¬ SameName k name)
    → scan_for name hs ≡ none
unfolding scan_for
scan_for_miss name [] no_name = refl
scan_for_miss name ((i, w) ∷ hs) no_name = elim (Bool-cases (iequals i name)) [
  | inl hit ↦ absurd (no_name i w mem-cons_self ((iequals_iff i name).0 hit))
  | inr miss ↦ rw miss (scan_for_miss name hs (λ k v m. no_name k v (mem-cons_of_mem (i, w) m)))
]

scan_for_hit :
    (name k v : Bytes) (hs : Headers)
    → Mem (k, v) hs
    → SameName k name
    → ((k' v' : Bytes) → Mem (k', v') hs → SameName k' name → v' ≡ v)
    → scan_for name hs ≡ some v
unfolding scan_for
scan_for_hit name k v [] m same only = absurd (not-mem-nil m)
scan_for_hit name k v ((i, w) ∷ hs) m same only = elim (Bool-cases (iequals i name)) [
  | inl hit ↦ rw hit (ap some (only i w mem-cons_self ((iequals_iff i name).0 hit)))
  | inr miss ↦ rw miss (
      Or.elim (found_prop (scan_for name hs) v) (mem-cons.0 m)
        (λ e. absurd (miss_first k v i w name e same miss))
        (λ m'.
          scan_for_hit name k v hs m' same
            (λ k' v' in_hs. only k' v' (mem-cons_of_mem (i, w) in_hs))))
]

-- When every header of that name, whatever its letter case, has the one value `v`, `header` gives
-- `v`, in whatever order the map is walked.
pub header_unique :
    (scan : Headers → Headers) (req : Request) (name k v : Bytes)
    → ((hs : Headers) → Perm (scan hs) hs)
    → Mem (k, v) req.headers
    → SameName k name
    → ((k' v' : Bytes) → Mem (k', v') req.headers → SameName k' name → v' ≡ v)
    → header scan req name ≡ some v
unfolding header
header_unique scan req name k v perm m same only =
    scan_for_hit name k v (scan req.headers) ((Perm.mem_iff (perm req.headers)).1 m) same
      (λ k' v' m'. only k' v' ((Perm.mem_iff (perm req.headers)).0 m'))

-- When no header has that name, `header` gives none.
pub header_absent :
    (scan : Headers → Headers) (req : Request) (name : Bytes)
    → ((hs : Headers) → Perm (scan hs) hs)
    → ((k v : Bytes) → Mem (k, v) req.headers → ¬ SameName k name)
    → header scan req name ≡ none
unfolding header
header_absent scan req name perm no_name =
    scan_for_miss name (scan req.headers)
      (λ k v m. no_name k v ((Perm.mem_iff (perm req.headers)).0 m))

-- A CSeq header, exact in letter case, whose value is no number in the range of int makes the
-- parser throw: `finish` catches nothing.
pub finish_throws :
    (scan : Headers → Headers) (method : Method) (uri v : Bytes) (hs : Headers)
    → lookup (codes "CSeq") hs ≡ some v
    → stoi v ≡ none
    → finish scan method uri hs ≡ thrown
unfolding finish cseq_of
finish_throws scan method uri v hs e bad = rw (e, finish, cseq_of) (rw bad refl)

-- A CSeq header that was printed from an int is read as that int.
pub finish_reads :
    (scan : Headers → Headers) (method : Method) (uri : Bytes) (z : ℤ) (hs : Headers)
    → lookup (codes "CSeq") hs ≡ some (print_int z)
    → IsInt z
    → finish scan method uri hs
      ≡ parsed (record { method = method; uri = uri; cseq = z; headers = hs })
unfolding finish cseq_of
finish_reads scan method uri z hs e h = rw (e, finish, cseq_of) (rw (stoi-print_int z h) refl)
