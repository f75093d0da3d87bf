-- ===== src/Sdp/Sprop.antt =====
-- src/sdp/builder.cpp: what a client reads from the session description: the decoder's parameter sets (RFC 6184 section
-- 8.1).
use veda_rtsp.Base.{
  ℕ, ◌+◌, ◌/◌, ◌%◌, ◌^◌, ◌<◌, ◌≤◌, ◌≡◌, ◌≢◌, ◌∙◌, ap, refl, true, if◌then◌else◌, ◌==◌, Option, none,
  some, ◌>>=◌, [], ◌∷◌, ◌++◌, All, All-append, IsByte, Lacks, Bytes, codes, find, find-append_mono,
  starts_with, find_char, find_char-append, length, length-append, take, drop, take-length-append,
  drop-length-suc, get_or, bit_and_mask, eq_below, agree, pos, print_int, print_nat, digits_fuel,
  arith,
}
use veda_rtsp.Base64.{alphabet, sextet, base64_encode}
use veda_rtsp.Base64.RoundTrip.{base64_decode, base64_decode-base64_encode}
use veda_rtsp.Sdp.{VideoStreamInfo, sprop_part, build}

-- What stands in front of a character, or the whole text.
abbrev up_to : ℕ → Bytes → Bytes
up_to x [] = []
up_to x (c ∷ cs) = let more = c ∷ up_to x cs in if c == x then [] else more

-- The two texts of a parameter with a comma between them, decoded.
unfoldable pub client_pair : Bytes → Option (Bytes × Bytes)
unfolding find_char base64_decode
client_pair value = do
  comma ← find_char b',' value
  sps ← base64_decode (take comma value)
  pps ← base64_decode (drop (comma + 1) value)
  some (sps, pps)

-- The parameter runs to the end of its line.
unfoldable pub client_sprop : Bytes → Option (Bytes × Bytes)
unfolding find client_pair
client_sprop sdp = do
  at ← find (codes ";sprop-parameter-sets=") sdp
  client_pair (up_to 13 (drop (at + 22) sdp))

up_to-append : (x : ℕ) (s rest : Bytes) → Lacks x s → up_to x (s ++ x ∷ rest) ≡ s
up_to-append x [] rest h = ground arith
up_to-append x (c ∷ s) rest h = ground (arith, up_to-append x s rest h.1)

-- A character that is not in the alphabet.
abbrev IsOutside : ℕ → Type 0
IsOutside x = (i : ℕ) → i < 64 → get_or alphabet i 0 ≢ x

sextet-Lacks : (x t k : ℕ) → IsOutside x → sextet t k ≢ x
unfolding sextet
sextet-Lacks x t k h = rw (bit_and_mask 6 (t / 2 ^ k)) (h (t / 2 ^ k % 64) (omega arith))

base64_encode-Lacks :
    (x : ℕ) (bytes : Bytes) → IsOutside x → b'=' ≢ x → Lacks x (base64_encode bytes)
unfolding base64_encode
base64_encode-Lacks x [] h pad = tt
base64_encode-Lacks x (a ∷ []) h pad =
    (sextet-Lacks x _ _ h, (sextet-Lacks x _ _ h, (pad, (pad, tt))))
base64_encode-Lacks x (a ∷ b ∷ []) h pad =
    (sextet-Lacks x _ _ h, (sextet-Lacks x _ _ h, (sextet-Lacks x _ _ h, (pad, tt))))
base64_encode-Lacks x (a ∷ b ∷ c ∷ rest) h pad = (
  sextet-Lacks x _ _ h,
  (
    sextet-Lacks x _ _ h,
    (sextet-Lacks x _ _ h, (sextet-Lacks x _ _ h, base64_encode-Lacks x rest h pad)),
  ),
)

outside_lem :
    (x : ℕ)
    → agree (λ i. if get_or alphabet i 0 == x then 1 else 0) (λ i. 0) 64 ≡ true
    → IsOutside x
outside_lem x same i lt =
    ground (arith, eq_below (λ i. if get_or alphabet i 0 == x then 1 else 0) (λ i. 0) 64 same i lt)

comma-IsOutside : IsOutside b','
unfolding agree
comma-IsOutside = outside_lem b',' refl

cr-IsOutside : IsOutside 13
unfolding agree
cr-IsOutside = outside_lem 13 refl

-- The parameter sets as the hub gives them.
abbrev pub offered : Bytes → Bytes → Bytes
offered sps pps = base64_encode sps ++ b',' ∷ base64_encode pps

client_pair-offered :
    (sps pps : Bytes)
    → All IsByte sps
    → All IsByte pps
    → client_pair (offered sps pps) ≡ some (sps, pps)
unfolding client_pair
client_pair-offered sps pps hs hp =
    rw
      (
        find_char-append b',' (base64_encode sps) (base64_encode pps)
            (base64_encode-Lacks b',' sps comma-IsOutside (omega arith)),
        take-length-append (base64_encode sps) (b',' ∷ base64_encode pps),
        drop-length-suc (base64_encode sps) b',' (base64_encode pps),
        base64_decode-base64_encode sps hs,
        base64_decode-base64_encode pps hp,
      )
      refl

-- The stream that a session describes.
abbrev pub h264_info : Bytes → VideoStreamInfo
h264_info sprop = record {
  payload_type = pos 96;
  clock_rate = pos 90000;
  sprop_parameter_sets = sprop;
}

abbrev front : Bytes
front =
    codes
      "v=0\r\no=- 0 0 IN IP4 0.0.0.0\r\ns=VEDA RTSP Stream\r\nc=IN IP4 0.0.0.0\r\nt=0 0\r\na=control:*\r\nm=video 0 RTP/AVP 96\r\na=rtpmap:96 H264/90000\r\na=fmtp:96 packetization-mode=1"

abbrev back : Bytes
back = codes "\r\na=control:track0\r\n"

build_lem : (sprop : Bytes) → build (h264_info sprop) ≡ front ++ (sprop_part sprop ++ back)
unfolding build print_int print_nat digits_fuel
build_lem sprop = refl

abbrev key : Bytes
key = codes ";sprop-parameter-sets="

-- `sprop_part` when there is something to offer.
sprop_part_full : (s : Bytes) → s ≢ [] → sprop_part s ≡ key ++ s
unfolding sprop_part
sprop_part_full [] h = absurd (h refl)
sprop_part_full (c ∷ cs) h = refl

offered-ne-nil : (a b : Bytes) → a ++ b',' ∷ b ≢ []
offered-ne-nil [] b e = cc
offered-ne-nil (c ∷ a) b e = cc

find-key : (rest : Bytes) → find key (front ++ (key ++ rest)) ≡ some 163
unfolding find starts_with
find-key rest = find-append_mono key (front ++ key) rest 163 refl

client_sprop_at :
    (sdp : Bytes) (i : ℕ)
    → find key sdp ≡ some i
    → client_sprop sdp ≡ client_pair (up_to 13 (drop (i + 22) sdp))
unfolding client_sprop
client_sprop_at sdp i found = rw found refl

client_sprop_text :
    (value : Bytes)
    → Lacks 13 value
    → client_sprop (front ++ (key ++ (value ++ back))) ≡ client_pair value
client_sprop_text value h =
    client_sprop_at (front ++ (key ++ (value ++ back))) 163 (find-key (value ++ back))
    ∙ ap client_pair (up_to-append 13 value (codes "\na=control:track0\r\n") h)

-- The description of a stream whose parameter sets are known gives them to the client, byte for
-- byte.
pub client_sprop-offered :
    (sps pps : Bytes)
    → All IsByte sps
    → All IsByte pps
    → client_sprop (build (h264_info (offered sps pps))) ≡ some (sps, pps)
client_sprop-offered sps pps hs hp =
    let value : Bytes = offered sps pps in
    let no_cr : Lacks 13 value =
      All-append _ (base64_encode sps) (b',' ∷ base64_encode pps)
        (base64_encode-Lacks 13 sps cr-IsOutside (omega arith))
        (omega arith, base64_encode-Lacks 13 pps cr-IsOutside (omega arith)) in
    rw
      (
        build_lem value,
        sprop_part_full value (offered-ne-nil (base64_encode sps) (base64_encode pps)),
      )
      (client_sprop_text value no_cr ∙ client_pair-offered sps pps hs hp)

-- Without them the client finds none.
pub client_sprop-none : client_sprop (build (h264_info [])) ≡ none
unfolding client_sprop find starts_with build sprop_part print_int print_nat digits_fuel
client_sprop-none = refl

sprop_part-le : (s : Bytes) → length (sprop_part s) ≤ length s + 22
unfolding sprop_part
sprop_part-le [] = omega arith
sprop_part-le (c ∷ cs) = omega arith

-- The description is short enough for its length to be an int.
pub length-h264_info :
    (sprop : Bytes) → length sprop < 2 ^ 30 → length (build (h264_info sprop)) < 2 ^ 31
length-h264_info sprop h =
    let fixed : length front ≡ 163 = refl in
    rw build_lem (
      omega (
        arith,
        length-append front (sprop_part sprop ++ back),
        length-append (sprop_part sprop) back,
        sprop_part-le sprop,
        fixed,
      ))
