-- ===== src/Net/Address.antt =====
-- The texts of addresses in rc_socket.c. An address is a number below 2 ^ 32, in host order. A C string
-- is the list of its bytes before the NUL; `%u` of sprintf writes the digits of utoa.
pub mod RoundTrip
use racccoon.Base.{
  ℕ, zero, suc, ◌+◌, ◌-◌, ◌*◌, ◌/◌, ◌%◌, ◌^◌, ltb, leb, ◌==◌, ◌&&◌, if◌then◌else◌, true, false,
  Bool, List, [], ◌∷◌, ◌++◌, Option, none, some, length,
}
use racccoon.Posix.Server.{Bytes}
use racccoon.Stdlib.Numbers.{utoa}

abbrev pub decimal : ℕ → Bytes
decimal n = utoa n 10 0

-- fmt_ip
abbrev pub fmt_ip : ℕ → Bytes
fmt_ip ip =
    decimal (ip / 2 ^ 24 % 256)
    ++ (b'.'
        ∷ (decimal (ip / 2 ^ 16 % 256)
            ++ (b'.' ∷ (decimal (ip / 2 ^ 8 % 256) ++ (b'.' ∷ decimal (ip % 256))))))

abbrev pub is_digit : ℕ → Bool
is_digit c = leb b'0' c && leb c b'9'

-- The digits of a number of the quad, which has the value `b` so far; it is 255 at most.
unfoldable pub byte_loop : ℕ → Bytes → Option (ℕ × Bytes)
byte_loop b [] = some (b, [])
byte_loop b (c ∷ p) =
    let b' = b * 10 + (c - b'0') in
    let rest = byte_loop b' p in
    if is_digit c then if ltb 255 b' then none else rest else some (b, c ∷ p)

unfoldable pub parse_byte : Bytes → Option (ℕ × Bytes)
parse_byte [] = none
parse_byte (c ∷ p) = if is_digit c then byte_loop 0 (c ∷ p) else none

-- `if (*p != '.') return -1; p++;`
abbrev pub after_dot : Bytes → Option Bytes
after_dot [] = none
after_dot (c ∷ p) = if c == b'.' then some p else none

-- The numbers behind the first, `k` of them, each behind a dot; the value is `v` so far.
unfoldable pub parse_numbers : ℕ → ℕ → Bytes → Option (ℕ × Bytes)
parse_numbers zero v p = some (v, p)
parse_numbers (suc k) v p = elim (after_dot p) [
  | none ↦ none
  | some q ↦ elim (parse_byte q) [
    | none ↦ none
    | some (b, r) ↦ parse_numbers k ((v * 256 + b) % 2 ^ 32) r
  ]
]

-- parse_quad: the address, and what follows
unfoldable pub parse_quad : Bytes → Option (ℕ × Bytes)
parse_quad s = elim (parse_byte s) [ none ↦ none | some (b, r) ↦ parse_numbers 3 b r ]

unfoldable pub port_loop : ℕ → Bytes → ℕ
port_loop p [] = p
port_loop p (c ∷ s) =
    let rest = port_loop ((p * 10 + (c - b'0')) % 2 ^ 32) s in if is_digit c then rest else p

abbrev pub parse_port : Bytes → Option ℕ
parse_port [] = none
parse_port (c ∷ s) = if is_digit c then some (port_loop 0 (c ∷ s)) else none

abbrev pub after_bang : Bytes → Option ℕ
after_bang [] = none
after_bang (c ∷ s) = if c == b'!' then parse_port s else none

-- parse_hostport
unfoldable pub parse_hostport : Bytes → Option (ℕ × ℕ)
parse_hostport s = elim (parse_quad s) [
  | none ↦ none
  | some (ip, r) ↦ elim (after_bang r) [ none ↦ none | some port ↦ some (ip, port) ]
]

-- htonl, on the little-endian machine
abbrev pub htonl : ℕ → ℕ
htonl v = v % 256 * 2 ^ 24 + v / 2 ^ 8 % 256 * 2 ^ 16 + v / 2 ^ 16 % 256 * 2 ^ 8 + v / 2 ^ 24 % 256

-- inet_aton: the address in network order
abbrev pub whole : Option (ℕ × Bytes) → Option ℕ
whole none = none
whole (some (ip, [])) = some (htonl ip)
whole (some (ip, c ∷ r)) = none

unfoldable pub inet_aton : Bytes → Option ℕ
inet_aton cp = whole (parse_quad cp)

-- inet_ntop with AF_INET: none is ENOSPC
unfoldable pub inet_ntop : ℕ → ℕ → Option Bytes
inet_ntop addr size =
    let text = fmt_ip (htonl addr) in if ltb size (length text + 1) then none else some text
