-- ===== src/Base64.antt =====
-- src/util/base64.hpp and base64.cpp: the encoder of the sprop-parameter-sets.
pub mod RoundTrip
use veda_rtsp.Base.{ℕ, List, [], ◌∷◌, ◌++◌, Bytes, codes, get_or, bit_and, bit_or, shr, shl, u32}

-- kAlphabet
abbrev pub alphabet : Bytes
alphabet = codes "ABCDEFGHIJKLMNOPQRSTUVWXYZabcdefghijklmnopqrstuvwxyz0123456789+/"

-- `kAlphabet[(triple >> k) & 0x3F]`; an index behind the table, which C++ leaves undefined, gives 0 here.
unfoldable pub sextet : ℕ → ℕ → ℕ
sextet triple k = get_or alphabet (bit_and (shr triple k) 0x3F) 0

unfoldable pub pair_of : ℕ → ℕ → ℕ
pair_of a b = bit_or (u32 (shl a 16)) (u32 (shl b 8))

unfoldable pub triple_of : ℕ → ℕ → ℕ → ℕ
triple_of a b c = bit_or (pair_of a b) c

-- The list is `data` from `i` on: three bytes a round, then the tail of one or two.
unfoldable pub base64_encode : Bytes → Bytes
base64_encode [] = []
base64_encode (a ∷ []) =
    let triple = u32 (shl a 16) in sextet triple 18 ∷ sextet triple 12 ∷ b'=' ∷ b'=' ∷ []
base64_encode (a ∷ b ∷ []) =
    let triple = pair_of a b in sextet triple 18 ∷ sextet triple 12 ∷ sextet triple 6 ∷ b'=' ∷ []
base64_encode (a ∷ b ∷ c ∷ rest) =
    let triple = triple_of a b c in
    sextet triple 18 ∷ sextet triple 12 ∷ sextet triple 6 ∷ sextet triple 0 ∷ base64_encode rest
