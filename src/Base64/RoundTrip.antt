-- ===== src/Base64/RoundTrip.antt =====
-- A decoder after RFC 4648 section 4, and the round trip through it.
use veda_rtsp.Base.{
  ℕ, ◌+◌, ◌-◌, ◌*◌, ◌/◌, ◌%◌, ◌^◌, ◌<◌, ◌≡◌, refl, Bool, false, ◌&&◌, ◌||◌, if◌then◌else◌, ◌==◌,
  leb, Option, none, some, ◌>>=◌, [], ◌∷◌, Bytes, IsByte, All, get_or, bit_and_mask, bit_or_fields,
  eq_below, agree, arith, length, u32, shl,
}
use veda_rtsp.Base64.{alphabet, sextet, triple_of, pair_of, base64_encode}

-- The value of a character: A to Z, a to z, 0 to 9, + and /. Any other has 64.
unfoldable pub value_of : ℕ → ℕ
value_of c =
    if leb b'A' c && leb c b'Z'
    then c - b'A'
    else if leb b'a' c && leb c b'z'
    then c - b'a' + 26
    else if leb b'0' c && leb c b'9'
    then c - b'0' + 52
    else if c == b'+'
    then 62
    else if c == b'/'
    then 63
    else 64

abbrev not_value : ℕ → Bool
not_value n = leb 64 n

-- Groups of four characters; the last may end in one or two padding characters.
unfoldable pub base64_decode : Bytes → Option Bytes
base64_decode [] = some []
base64_decode (p ∷ q ∷ r ∷ s ∷ rest) =
    let v = value_of p in
    let w = value_of q in
    let x = value_of r in
    let y = value_of s in
    let later = base64_decode rest in
    if not_value v || not_value w
    then none
    else if r == b'=' && s == b'='
    then some ((v * 4 + w / 16) ∷ [])
    else if not_value x
    then none
    else if s == b'='
    then some ((v * 4 + w / 16) ∷ (w % 16 * 16 + x / 4) ∷ [])
    else if not_value y
    then none
    else (later >>= λ bs. some ((v * 4 + w / 16) ∷ (w % 16 * 16 + x / 4) ∷ (x % 4 * 64 + y) ∷ bs))
base64_decode _ = none

-- A character of the alphabet has its index for a value, and is no padding.
value_of-alphabet : (i : ℕ) → i < 64 → value_of (get_or alphabet i 0) ≡ i
unfolding value_of agree
value_of-alphabet = eq_below (λ i. value_of (get_or alphabet i 0)) (λ i. i) 64 refl

alphabet-ne-pad : (i : ℕ) → i < 64 → (get_or alphabet i 0 == b'=') ≡ false
unfolding agree
alphabet-ne-pad i lt =
    ground
      (arith, eq_below (λ i. if get_or alphabet i 0 == b'=' then 1 else 0) (λ i. 0) 64 refl i lt)

sextet-value : (t k : ℕ) → value_of (sextet t k) ≡ t / 2 ^ k % 64
unfolding sextet
sextet-value t k =
    rw (bit_and_mask 6 (t / 2 ^ k)) (value_of-alphabet (t / 2 ^ k % 64) (omega arith))

sextet-ne-pad : (t k : ℕ) → (sextet t k == b'=') ≡ false
unfolding sextet
sextet-ne-pad t k = rw (bit_and_mask 6 (t / 2 ^ k)) (alphabet-ne-pad (t / 2 ^ k % 64) (omega arith))

high_lem : (a : ℕ) → IsByte a → u32 (shl a 16) ≡ a * 2 ^ 16
high_lem a ha = omega arith

pair_of_lem : (a b : ℕ) → IsByte a → IsByte b → pair_of a b ≡ (a * 256 + b) * 2 ^ 8
unfolding pair_of
pair_of_lem a b ha hb =
    let middle : u32 (shl b 8) ≡ b * 2 ^ 8 = omega arith in
    rw (high_lem a ha, middle, bit_or_fields 16 a (b * 2 ^ 8) (omega arith)) (omega arith)

triple_of_lem :
    (a b c : ℕ) → IsByte a → IsByte b → IsByte c → triple_of a b c ≡ (a * 256 + b) * 2 ^ 8 + c
unfolding triple_of
triple_of_lem a b c ha hb hc = rw (pair_of_lem a b ha hb, bit_or_fields 8 (a * 256 + b) c hc) refl

-- The encoded text of any bytes, each below 256, decodes to those bytes (RFC 4648).
pub base64_decode-base64_encode :
    (bytes : Bytes) → All IsByte bytes → base64_decode (base64_encode bytes) ≡ some bytes
unfolding base64_encode base64_decode
base64_decode-base64_encode [] h = refl
base64_decode-base64_encode (a ∷ []) h =
    let t : ℕ = u32 (shl a 16) in ground (arith, sextet-value t 18, sextet-value t 12)
base64_decode-base64_encode (a ∷ b ∷ []) h =
    let t : ℕ = pair_of a b in
    ground (
      arith,
      sextet-value t 18,
      sextet-value t 12,
      sextet-value t 6,
      sextet-ne-pad t 6,
      pair_of_lem a b h.0 h.1.0,
    )
base64_decode-base64_encode (a ∷ b ∷ c ∷ rest) h =
    let t : ℕ = triple_of a b c in
    rw (base64_decode-base64_encode rest h.1.1.1) (
      ground (
        arith,
        sextet-value t 18,
        sextet-value t 12,
        sextet-value t 6,
        sextet-value t 0,
        sextet-ne-pad t 6,
        sextet-ne-pad t 0,
        triple_of_lem a b c h.0 h.1.0 h.1.1.0,
      ))

-- The encoded text has four characters for every three bytes begun, as its reservation says.
pub length-base64_encode :
    (bytes : Bytes) → length (base64_encode bytes) ≡ (length bytes + 2) / 3 * 4
unfolding base64_encode
length-base64_encode [] = refl
length-base64_encode (a ∷ []) = refl
length-base64_encode (a ∷ b ∷ []) = refl
length-base64_encode (a ∷ b ∷ c ∷ rest) = omega (arith, length-base64_encode rest)
