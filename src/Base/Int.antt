-- ===== src/Base/Int.antt =====
-- The C++ `int` as an integer, and its decimal text: what `ostream <<` prints and `stoi` reads.
use Prim.Native.Nat.{ℕ, zero, suc, ◌+◌, ◌-◌, ◌*◌, ◌/◌, ◌%◌, ◌^◌, ◌≤◌, ◌<◌}
use mathlib.Core.Path.{◌≡◌, refl, ap, ◌∙◌}
use mathlib.Core.Logic.{inl, inr}
use mathlib.Core.Bool.{Bool, true, false, ◌&&◌, ◌||◌}
use mathlib.Core.Option.{Option, none, some}
use mathlib.Core.List.{[], ◌∷◌, ◌++◌}
use native.Mathlib.Omega.{arith}
use veda_rtsp.Base.Tests.{◌==◌, leb, ltb, ltb→lt, Bool-cases, if◌then◌else◌}
use veda_rtsp.Base.Lists.{◌>>=◌, All}
use veda_rtsp.Base.Text.{Bytes, Lacks}

-- `negsuc n` is -(n + 1).
pub data ℤ : Type 0 where
  pos : ℕ → ℤ
  negsuc : ℕ → ℤ

-- The range of a 32-bit int.
abbrev pub IsInt : ℤ → Type 0
IsInt (pos n) = n < 2 ^ 31
IsInt (negsuc n) = n < 2 ^ 31

abbrev pub is_digit : ℕ → Bool
is_digit c = leb b'0' c && leb c b'9'

-- std::isspace in the "C" locale.
abbrev pub is_space : ℕ → Bool
is_space c = c == b' ' || (leb 9 c && leb c 13)

-- Decimal digits, most significant first; one digit more a round.
unfoldable pub digits_fuel : ℕ → ℕ → Bytes → Bytes
digits_fuel zero n acc = acc
digits_fuel (suc fuel) n acc =
    let more = digits_fuel fuel (n / 10) ((48 + n % 10) ∷ acc) in
    if ltb n 10 then (48 + n) ∷ acc else more

-- `n + 1` rounds are enough: each divides by ten.
unfoldable pub print_nat : ℕ → Bytes
unfolding digits_fuel
print_nat n = digits_fuel (suc n) n []

-- `ostream << int`
unfoldable pub print_int : ℤ → Bytes
print_int (pos n) = print_nat n
print_int (negsuc n) = b'-' ∷ print_nat (suc n)

-- The digits at the front of a text, folded into a number; `some` of it if there is one at least.
unfoldable pub read_digits : Bool → ℕ → Bytes → Option ℕ
read_digits seen acc [] = if seen then some acc else none
read_digits seen acc (c ∷ cs) =
    let more = read_digits true (acc * 10 + (c - 48)) cs in
    if is_digit c then more else if seen then some acc else none

abbrev check_pos : ℕ → Option ℤ
check_pos n = if ltb n (2 ^ 31) then some (pos n) else none

abbrev check_neg : ℕ → Option ℤ
check_neg zero = some (pos 0)
check_neg (suc n) = if ltb n (2 ^ 31) then some (negsuc n) else none

-- An optional sign and digits.
unfoldable pub read_signed : Bytes → Option ℤ
read_signed [] = none
read_signed (c ∷ cs) =
    let plain = (read_digits false 0 (c ∷ cs) >>= λ n. check_pos n) in
    let plus = (read_digits false 0 cs >>= λ n. check_pos n) in
    let minus = (read_digits false 0 cs >>= λ n. check_neg n) in
    if c == b'-' then minus else if c == b'+' then plus else plain

-- std::stoi: leading white space, then the longest number; the rest is ignored. `none` is an
-- exception, invalid_argument or out_of_range.
unfoldable pub stoi : Bytes → Option ℤ
unfolding read_signed read_digits
stoi [] = none
stoi (c ∷ cs) = let rest = stoi cs in if is_space c then rest else read_signed (c ∷ cs)

read_digit :
    (d k : ℕ) (seen : Bool) (acc : Bytes)
    → d < 10
    → read_digits seen k ((48 + d) ∷ acc) ≡ read_digits true (k * 10 + d) acc
unfolding read_digits
read_digit d k seen acc h =
    let value : 48 + d - 48 ≡ d = omega arith in
    let digit : is_digit (48 + d) ≡ true = ground arith in rw (digit, value) refl

-- The digits printed in front of `acc` read as their number.
read_digits-digits_fuel :
    (fuel n : ℕ) (acc : Bytes)
    → n < fuel
    → read_digits false 0 (digits_fuel fuel n acc) ≡ read_digits true n acc
unfolding digits_fuel
read_digits-digits_fuel zero n acc h = absurd (omega arith)
read_digits-digits_fuel (suc fuel) n acc h = elim (Bool-cases (ltb n 10)) [
  | inl one ↦
      let same : 0 * 10 + n ≡ n = omega arith in
      rw one
        (read_digit n 0 false acc (ltb→lt n 10 one) ∙ ap (λ (m : ℕ). read_digits true m acc) same)
  | inr more ↦
      let joined : n / 10 * 10 + n % 10 ≡ n = omega arith in
      rw more (
        read_digits-digits_fuel fuel (n / 10) ((48 + n % 10) ∷ acc) (ground arith)
        ∙ read_digit (n % 10) (n / 10) true acc (omega arith)
        ∙ ap (λ (m : ℕ). read_digits true m acc) joined)
]

read_digits-print_nat : (n : ℕ) → read_digits false 0 (print_nat n) ≡ some n
unfolding print_nat
read_digits-print_nat n =
    read_digits-digits_fuel (suc n) n [] (omega arith) ∙ unfold read_digits in refl

-- The first character printed is a digit, so neither a sign nor white space.
digits_fuel-front :
    (fuel n : ℕ) (acc : Bytes)
    → n < fuel
    → (c : ℕ) × (cs : Bytes) × (digits_fuel fuel n acc ≡ c ∷ cs) × (48 ≤ c) × (c < 58)
unfolding digits_fuel
digits_fuel-front zero n acc h = absurd (omega arith)
digits_fuel-front (suc fuel) n acc h = elim (Bool-cases (ltb n 10)) [
  | inl one ↦ (48 + n, acc, rw one refl, omega arith, omega (arith, ltb→lt n 10 one))
  | inr more ↦
      let (c, cs, e, lo, hi) =
        digits_fuel-front fuel (n / 10) ((48 + n % 10) ∷ acc) (ground arith) in
      (c, cs, rw more e, lo, hi)
]

print_nat-front : (n : ℕ) → (c : ℕ) × (cs : Bytes) × (print_nat n ≡ c ∷ cs) × (48 ≤ c) × (c < 58)
unfolding print_nat
print_nat-front n = digits_fuel-front (suc n) n [] (omega arith)

stoi_plain :
    (c : ℕ) (cs : Bytes)
    → 48 ≤ c
    → c < 58
    → stoi (c ∷ cs) ≡ (read_digits false 0 (c ∷ cs) >>= λ n. check_pos n)
unfolding stoi read_digits
stoi_plain c cs lo hi = ground arith

stoi-print_nat : (n : ℕ) → stoi (print_nat n) ≡ check_pos n
stoi-print_nat n =
    let (c, cs, e, lo, hi) = print_nat-front n in
    rw e (stoi_plain c cs lo hi ∙ rw (← e) (rw (read_digits-print_nat n) refl))

stoi_minus : (cs : Bytes) → stoi (b'-' ∷ cs) ≡ (read_digits false 0 cs >>= λ n. check_neg n)
unfolding stoi
stoi_minus cs = refl

-- `stoi` reads back every int that `ostream <<` has printed.
pub stoi-print_int : (z : ℤ) → IsInt z → stoi (print_int z) ≡ some z
unfolding print_int
stoi-print_int (pos n) h = stoi-print_nat n ∙ ground arith
stoi-print_int (negsuc n) h =
    stoi_minus (print_nat (suc n)) ∙ rw (read_digits-print_nat (suc n)) (ground arith)

digits_fuel-append :
    (fuel n : ℕ) (acc rest : Bytes)
    → digits_fuel fuel n acc ++ rest ≡ digits_fuel fuel n (acc ++ rest)
unfolding digits_fuel
digits_fuel-append zero n acc rest = refl
digits_fuel-append (suc fuel) n acc rest =
    ground (arith, digits_fuel-append fuel (n / 10) ((48 + n % 10) ∷ acc) rest)

-- Digits with a carriage return behind them.
read_digits_line : (n : ℕ) (rest : Bytes) → read_digits false 0 (print_nat n ++ 13 ∷ rest) ≡ some n
unfolding print_nat
read_digits_line n rest =
    ap (read_digits false 0) (digits_fuel-append (suc n) n [] (13 ∷ rest))
    ∙ (read_digits-digits_fuel (suc n) n (13 ∷ rest) (omega arith) ∙ unfold read_digits in refl)

stoi-print_nat_line : (n : ℕ) (rest : Bytes) → stoi (print_nat n ++ 13 ∷ rest) ≡ check_pos n
stoi-print_nat_line n rest =
    let (c, cs, e, lo, hi) = print_nat-front n in
    let read : read_digits false 0 (c ∷ (cs ++ 13 ∷ rest)) ≡ some n =
      rw e at (read_digits_line n rest) in
    rw e (stoi_plain c (cs ++ 13 ∷ rest) lo hi ∙ rw read refl)

-- `stoi` reads an int at the front of a line.
pub stoi-print_int_line :
    (z : ℤ) (rest : Bytes) → IsInt z → stoi (print_int z ++ 13 ∷ rest) ≡ some z
unfolding print_int
stoi-print_int_line (pos n) rest h = stoi-print_nat_line n rest ∙ ground arith
stoi-print_int_line (negsuc n) rest h =
    stoi_minus (print_nat (suc n) ++ 13 ∷ rest) ∙ rw (read_digits_line (suc n) rest) (ground arith)

-- The characters of a decimal number.
abbrev pub IsDigit : ℕ → Type 0
IsDigit c = (48 ≤ c) × (c < 58)

digits_fuel-IsDigit :
    (fuel n : ℕ) (acc : Bytes) → All IsDigit acc → All IsDigit (digits_fuel fuel n acc)
unfolding digits_fuel
digits_fuel-IsDigit zero n acc h = h
digits_fuel-IsDigit (suc fuel) n acc h = elim (Bool-cases (ltb n 10)) [
  | inl one ↦ rw one ((omega arith, omega (arith, ltb→lt n 10 one)), h)
  | inr more ↦
      rw more
        (digits_fuel-IsDigit fuel (n / 10) ((48 + n % 10) ∷ acc) ((omega arith, omega arith), h))
]

pub print_nat-IsDigit : (n : ℕ) → All IsDigit (print_nat n)
unfolding print_nat
print_nat-IsDigit n = digits_fuel-IsDigit (suc n) n [] tt

digits-Lacks : (x : ℕ) (s : Bytes) → x < 48 → All IsDigit s → Lacks x s
digits-Lacks x [] low h = tt
digits-Lacks x (c ∷ s) low h = (omega (arith, h.0.0), digits-Lacks x s low h.1)

pub print_nat-Lacks : (x n : ℕ) → x < 48 → Lacks x (print_nat n)
print_nat-Lacks x n low = digits-Lacks x (print_nat n) low (print_nat-IsDigit n)

-- A number is printed as digits and a sign.
pub print_int-Lacks : (x : ℕ) (z : ℤ) → x < 45 → Lacks x (print_int z)
unfolding print_int
print_int-Lacks x (pos n) low = print_nat-Lacks x n (omega arith)
print_int-Lacks x (negsuc n) low = (ground arith, print_nat-Lacks x (suc n) (omega arith))
