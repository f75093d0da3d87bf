-- ===== src/Rtsp/Session/Transport/Asked.antt =====
-- session.cpp, `parse_transport`: the ports that a client has asked for.
use veda_rtsp.Base.{
  ℕ, ◌+◌, ◌<◌, ◌^◌, ◌≡◌, ◌≢◌, ◌⊎◌, refl, true, none, some, [], ◌∷◌, ◌++◌, All, All-append,
  append-nil, Bytes, codes, length, take-length-append, drop-length-suc, find, starts_with,
  find_char-append, find_char-Lacks, find-append_mono, pos, print_int, print_nat, print_nat-IsDigit,
  print_nat-Lacks, IsDigit, stoi, stoi-print_int, arith,
}
use veda_rtsp.Rtsp.Session.Transport.{
  in_port_range, Ports, find_delimiter, up_to_delimiter, parse_single, parse_second, parse_pair,
  parse_ports, parse_transport,
}

-- What may follow the ports: nothing, another parameter, or another transport.
abbrev pub IsEnd : Bytes → Type 0
IsEnd [] = Unit {0}
IsEnd (c ∷ cs) = (c ≡ b';') ⊎ (c ≡ b',')

abbrev IsPart : ℕ → Type 0
IsPart c = (c ≢ b';') × (c ≢ b',')

find_delimiter-append :
    (s : Bytes) (c : ℕ) (cs : Bytes)
    → All IsPart s
    → IsEnd (c ∷ cs)
    → find_delimiter (s ++ c ∷ cs) ≡ some (length s)
unfolding find_delimiter
find_delimiter-append [] c cs h e = ground (arith, e)
find_delimiter-append (d ∷ s) c cs h e = ground (arith, h.0, find_delimiter-append s c cs h.1 e)

find_delimiter-none : (s : Bytes) → All IsPart s → find_delimiter s ≡ none
unfolding find_delimiter
find_delimiter-none [] h = refl
find_delimiter-none (c ∷ s) h = ground (arith, h.0, find_delimiter-none s h.1)

up_to_delimiter-append :
    (s rest : Bytes) → All IsPart s → IsEnd rest → up_to_delimiter (s ++ rest) ≡ s
unfolding up_to_delimiter
up_to_delimiter-append s [] h e =
    rw (append-nil s, find_delimiter-none s h, up_to_delimiter) (append-nil s)
up_to_delimiter-append s (c ∷ cs) h e =
    rw (find_delimiter-append s c cs h e, up_to_delimiter) (take-length-append s (c ∷ cs))

digits-IsPart : (s : Bytes) → All IsDigit s → All IsPart s
digits-IsPart [] h = tt
digits-IsPart (c ∷ s) h = ((omega (arith, h.0.0), omega (arith, h.0.1)), digits-IsPart s h.1)

-- `X-Y`
abbrev pub pair : ℕ → ℕ → Bytes
pair x y = print_nat x ++ b'-' ∷ print_nat y

pair-IsPart : (x y : ℕ) → All IsPart (pair x y)
pair-IsPart x y =
    All-append _ (print_nat x) (b'-' ∷ print_nat y)
      (digits-IsPart (print_nat x) (print_nat-IsDigit x))
      ((omega arith, omega arith), digits-IsPart (print_nat y) (print_nat-IsDigit y))

stoi-print_nat : (n : ℕ) → n < 2 ^ 31 → stoi (print_nat n) ≡ some (pos n)
unfolding print_int
stoi-print_nat n fits = stoi-print_int (pos n) fits

parse_ports-pair :
    (x y : ℕ) (old : Ports)
    → x < 2 ^ 31
    → y < 2 ^ 31
    → parse_ports (pair x y) old ≡ (record { rtp = pos x; rtcp = pos y }, true)
unfolding parse_ports
parse_ports-pair x y old hx hy =
    rw
      (
        find_char-append b'-' (print_nat x) (print_nat y) (print_nat-Lacks b'-' x (omega arith)),
        parse_ports,
        take-length-append (print_nat x) (b'-' ∷ print_nat y),
        parse_pair,
        stoi-print_nat x hx,
        parse_second,
        drop-length-suc (print_nat x) b'-' (print_nat y),
        stoi-print_nat y hy,
      )
      refl

parse_ports_single :
    (x : ℕ) (old : Ports)
    → x < 2 ^ 31
    → parse_ports (print_nat x) old ≡ (record { rtp = pos x; rtcp = pos (x + 1) }, true)
unfolding parse_ports
parse_ports_single x old hx =
    rw
      (
        find_char-Lacks b'-' (print_nat x) (print_nat-Lacks b'-' x (omega arith)),
        parse_ports,
        parse_single,
        stoi-print_nat x hx,
      )
      refl

-- A Transport header up to the ports, as clients write it.
abbrev pub asked_front : Bytes
asked_front = codes "RTP/AVP;unicast;client_port="

find_client_port : (s : Bytes) → find (codes "client_port=") (asked_front ++ s) ≡ some 16
unfolding find starts_with
find_client_port s = find-append_mono (codes "client_port=") asked_front s 16 refl

-- The ports are written, and the first one is judged.
module _ (x : ℕ) (old : Ports) (rest : Bytes) (fits : x < 2 ^ 31) (ends : IsEnd rest) where
  pub parse_transport-pair :
      (y : ℕ)
      → y < 2 ^ 31
      → parse_transport (asked_front ++ (pair x y ++ rest)) old
        ≡ (record { rtp = pos x; rtcp = pos y }, in_port_range (pos x))
  unfolding parse_transport
  parse_transport-pair y fits_too =
      rw
        (
          find_client_port (pair x y ++ rest),
          parse_transport,
          up_to_delimiter-append (pair x y) rest (pair-IsPart x y) ends,
          parse_ports-pair x y old fits fits_too,
        )
        refl

  -- `client_port=X`, with no second port.
  parse_transport_single :
      parse_transport (asked_front ++ (print_nat x ++ rest)) old
      ≡ (record { rtp = pos x; rtcp = pos (x + 1) }, in_port_range (pos x))
  unfolding parse_transport
  parse_transport_single =
      rw
        (
          find_client_port (print_nat x ++ rest),
          parse_transport,
          up_to_delimiter-append (print_nat x) rest
              (digits-IsPart (print_nat x) (print_nat-IsDigit x)) ends,
          parse_ports_single x old fits,
        )
        refl
