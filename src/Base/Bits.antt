-- ===== src/Base/Bits.antt =====
-- Machine words: the shifts, and what `&` and `|` do on disjoint fields and low masks.
use Prim.Native.Nat.{
  ℕ, zero, suc, ◌+◌, ◌-◌, ◌*◌, ◌/◌, ◌%◌, ◌^◌, ◌≤◌, ◌<◌, min, max, bit_and, bit_or, digits,
  bit_and-bitwise, bit_or-bitwise,
}
use mathlib.Core.Path.{◌≡◌, refl, ap}
use mathlib.Core.Bool.{Bool, true, false}
use mathlib.Core.Logic.{inl, inr}
use native.Mathlib.Nat.{pow-suc, one-le-pow, le_refl}
use native.Mathlib.Omega.{arith}
use veda_rtsp.Base.Tests.{◌==◌, ==_iff, if◌then◌else◌, Bool-cases, le_or_lt}

-- x >> k, and x << k before the cut to the width.
abbrev pub shr : ℕ → ℕ → ℕ
shr x k = x / 2 ^ k

abbrev pub shl : ℕ → ℕ → ℕ
shl x k = x * 2 ^ k

abbrev pub u8 : ℕ → ℕ
u8 x = x % 2 ^ 8

abbrev pub u16 : ℕ → ℕ
u16 x = x % 2 ^ 16

abbrev pub u32 : ℕ → ℕ
u32 x = x % 2 ^ 32

abbrev pub u64 : ℕ → ℕ
u64 x = x % 2 ^ 64

abbrev pub IsByte : ℕ → Type 0
IsByte b = b < 256

-- Two functions give one value on each argument below a bound, by evaluation.
unfoldable pub agree : (ℕ → ℕ) → (ℕ → ℕ) → ℕ → Bool
agree f g zero = true
agree f g (suc bound) = let below = agree f g bound in if f bound == g bound then below else false

pub eq_below : (f g : ℕ → ℕ) (bound : ℕ) → agree f g bound ≡ true → (x : ℕ) → x < bound → f x ≡ g x
unfolding agree
eq_below f g zero same x lt = absurd (omega arith)
eq_below f g (suc bound) same x lt = elim (Bool-cases (f bound == g bound)) [
  | inl here ↦ elim (le_or_lt bound x) [
    | inl last ↦ let e : x ≡ bound = omega arith in rw e ((==_iff (f bound) (g bound)).0 here)
    | inr below ↦ eq_below f g bound (rw here at same) x below
  ]
  | inr differ ↦ absurd (ground (arith, differ))
]

mul-pow-suc : (q k : ℕ) → q * 2 ^ suc k ≡ q * 2 ^ k * 2
mul-pow-suc q k = omega (arith, ap (λ (t : ℕ). q * t) (pow-suc 2 k))

-- One digit at a time, for every count of digits that is enough.
digits_or : (n k a q r : ℕ) → a ≡ q * 2 ^ k → a ≤ n → r < 2 ^ k → digits (λ y. y) max n a r ≡ a + r
digits_or zero k a q r e h lt = omega arith
digits_or (suc n) k zero q r e h lt = omega arith
digits_or (suc n) zero (suc a) q r e h lt =
    omega (arith, digits_or n 0 (suc a / 2) (suc a / 2) (r / 2) (omega arith))
digits_or (suc n) (suc k) (suc a) q r e h lt = omega (
  arith,
  mul-pow-suc q k,
  pow-suc 2 k,
  digits_or n k (suc a / 2) q (r / 2) (omega (arith, mul-pow-suc q k)),
)

digits_and :
    (n k a q r : ℕ)
    → a ≡ q * 2 ^ k + r
    → a ≤ n
    → r < 2 ^ k
    → digits (λ y. 0) min n a (2 ^ k - 1) ≡ r
digits_and zero k a q r e h lt = omega arith
digits_and (suc n) k zero q r e h lt = omega arith
digits_and (suc n) zero (suc a) q r e h lt =
    omega (arith, digits_and n 0 (suc a / 2) (suc a / 2) 0 (omega arith))
digits_and (suc n) (suc k) (suc a) q r e h lt =
    let mask : (2 ^ suc k - 1) / 2 ≡ 2 ^ k - 1 = omega (arith, pow-suc 2 k, one-le-pow k 2) in
    rw mask (
      omega (
        arith,
        mul-pow-suc q k,
        pow-suc 2 k,
        one-le-pow k 2,
        digits_and n k (suc a / 2) q (r / 2) (omega (arith, mul-pow-suc q k, pow-suc 2 k)),
      ))

-- `|` of a field shifted up by k bits and one that fits k bits.
pub bit_or_fields : (k q r : ℕ) → r < 2 ^ k → bit_or (q * 2 ^ k) r ≡ q * 2 ^ k + r
bit_or_fields k q r lt =
    rw bit_or-bitwise (digits_or (q * 2 ^ k) k (q * 2 ^ k) q r refl (omega arith) lt)

-- `& (2^k - 1)` keeps the k low bits.
pub bit_and_mask : (k x : ℕ) → bit_and x (2 ^ k - 1) ≡ x % 2 ^ k
bit_and_mask k x = rw bit_and-bitwise (
    digits_and x k x (x / 2 ^ k) (x % 2 ^ k) (grind (arith, one-le-pow k 2)) (le_refl x)
      (grind (arith, one-le-pow k 2)))
