-- ===== src/Rtsp/Session/Transport.antt =====
-- session.cpp, the helpers: the session id and the client's ports.
pub mod Asked
use veda_rtsp.Base.{
  ℕ, zero, suc, ◌+◌, ◌-◌, ◌/◌, ◌%◌, ◌^◌, Bool, true, false, ◌&&◌, if◌then◌else◌, ltb, leb, ◌==◌,
  ◌||◌, Option, none, some, ◌>>=◌, [], ◌∷◌, Bytes, codes, take, drop, find, find_char, ℤ, pos,
  negsuc, stoi,
}

-- `std::hex << std::uppercase`, one digit.
unfoldable pub hex_digit : ℕ → ℕ
hex_digit d = if ltb d 10 then b'0' + d else b'A' + (d - 10)

-- The `k` lowest hexadecimal digits, most significant first.
unfoldable pub hex_digits : ℕ → ℕ → Bytes
unfolding hex_digit
hex_digits zero n = []
hex_digits (suc k) n = hex_digit (n / 16 ^ k % 16) ∷ hex_digits k n

-- The 32 random bits as text: `setw(8)` and `setfill('0')`.
unfoldable pub generate_session_id : ℕ → Bytes
unfolding hex_digits
generate_session_id draw = hex_digits 8 (draw % 2 ^ 32)

-- `find_first_of(";,")`
unfoldable pub find_delimiter : Bytes → Option ℕ
find_delimiter [] = none
find_delimiter (c ∷ cs) =
    let later = (find_delimiter cs >>= λ i. some (suc i)) in
    if c == b';' || c == b',' then some 0 else later

unfoldable pub up_to_delimiter : Bytes → Bytes
unfolding find_delimiter
up_to_delimiter s = elim (find_delimiter s) [ none ↦ s | some at ↦ take at s ]

-- `client_rtp_port + 1`. At the largest int the sum is undefined in C++; here it is 2^31.
abbrev pub add_one : ℤ → ℤ
add_one (pos n) = pos (n + 1)
add_one (negsuc zero) = pos 0
add_one (negsuc (suc n)) = negsuc n

pub record Ports : Type 0 where
  pub rtp : ℤ
  pub rtcp : ℤ

-- The reference arguments are written before the call returns, also when it returns false.
abbrev pub parse_single : Bytes → Ports → Ports × Bool
parse_single ports old = elim (stoi ports) [
  | none ↦ (old, false)
  | some p ↦ (record { rtp = p; rtcp = add_one p }, true)
]

abbrev pub parse_second : Bytes → ℤ → Ports → Ports × Bool
parse_second second p old = elim (stoi second) [
  | none ↦ (record old { rtp = p }, false)
  | some q ↦ (record { rtp = p; rtcp = q }, true)
]

abbrev pub parse_pair : Bytes → Bytes → Ports → Ports × Bool
parse_pair first second old = elim (stoi first) [
  | none ↦ (old, false)
  | some p ↦ parse_second second p old
]

-- The body of the `try`; false stands for the `catch`.
unfoldable pub parse_ports : Bytes → Ports → Ports × Bool
parse_ports ports old = elim (find_char b'-' ports) [
  | none ↦ parse_single ports old
  | some dash ↦ parse_pair (take dash ports) (drop (dash + 1) ports) old
]

abbrev pub in_port_range : ℤ → Bool
in_port_range (pos n) = ltb 0 n && leb n 65535
in_port_range (negsuc n) = false

-- The ports that are left in the session, and the value returned.
unfoldable pub parse_transport : Bytes → Ports → Ports × Bool
unfolding up_to_delimiter parse_ports
parse_transport transport old = elim (find (codes "client_port=") transport) [
  | none ↦ (old, false)
  | some at ↦
      let (ports, read) = parse_ports (up_to_delimiter (drop (at + 12) transport)) old in
      (ports, read && in_port_range ports.rtp)
]

-- Up to the first ';'.
unfoldable pub session_id_of : Bytes → Bytes
session_id_of value = elim (find_char b';' value) [ none ↦ value | some semi ↦ take semi value ]

-- `static_cast<uint16_t>` of an int.
unfoldable pub port_of : ℤ → ℕ
port_of (pos n) = n % 2 ^ 16
port_of (negsuc n) = 2 ^ 16 - 1 - n % 2 ^ 16
