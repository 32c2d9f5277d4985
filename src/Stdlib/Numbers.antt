-- ===== src/Stdlib/Numbers.antt =====
-- strtoull and rand of lib/racccoon-libc/src/stdlib.c, and utoa of printf.c. A C string is the list
-- of its bytes before the NUL; an `unsigned long long` is a number modulo 2 ^ 64.
pub mod RoundTrip
use racccoon.Base.{
  ℕ, zero, suc, ◌+◌, ◌-◌, ◌*◌, ◌/◌, ◌%◌, ◌^◌, ◌≤◌, ◌<◌, ◌≡◌, ◌≢◌, refl, sym, ap, ◌∙◌, Bool, true,
  false, not, ◌&&◌, ◌||◌, List, [], ◌∷◌, ◌++◌, leb, ltb, ◌==◌, if◌then◌else◌, arith, bit_and,
  get_or, inl, inr, ◌⊎◌, Bool-cases,
}
use racccoon.Stdlib.Characters.{isspace}

abbrev pub Bytes : Type 0
Bytes = List ℕ

-- digit_val
unfoldable pub digit_val : ℕ → ℕ
digit_val c =
    if leb b'0' c && leb c b'9'
    then c - b'0'
    else if leb b'a' c && leb c b'z'
    then c - b'a' + 10
    else if leb b'A' c && leb c b'Z'
    then c - b'A' + 10
    else 99

pub skip_spaces : Bytes → Bytes
unfolding isspace
skip_spaces [] = []
skip_spaces (c ∷ p) = let rest = skip_spaces p in if isspace c then rest else c ∷ p

-- The sign: whether there is a minus, and what follows.
pub sign : Bytes → Bool × Bytes
sign [] = (false, [])
sign (c ∷ p) = if c == b'+' || c == b'-' then (c == b'-', p) else (false, c ∷ p)

-- The prefix: the base that is used, and what follows. The NUL has the digit value 99.
pub base_of : ℕ → Bytes → ℕ × Bytes
unfolding digit_val
base_of base (z ∷ x ∷ d ∷ p) =
    if (base == 0 || base == 16) && z == b'0' && (x == b'x' || x == b'X') && ltb (digit_val d) 16
    then (16, d ∷ p)
    else (if base == 0 then (if z == b'0' then 8 else 10) else base, z ∷ x ∷ d ∷ p)
base_of base (z ∷ p) = (if base == 0 then (if z == b'0' then 8 else 10) else base, z ∷ p)
base_of base [] = (if base == 0 then 10 else base, [])

-- `for (;; p++) { … }`: the value, whether there was a digit, and what follows the digits. The base is
-- at most 99, so the NUL ends the digits.
pub digits : ℕ → ℕ → Bool → Bytes → ℕ × Bool × Bytes
unfolding digit_val
digits base acc any [] = (acc, any, [])
digits base acc any (c ∷ p) =
    let rest = digits base ((acc * base + digit_val c) % 2 ^ 64) true p in
    if leb base (digit_val c) then (acc, any, c ∷ p) else rest

-- strtoull: the value, and the bytes at `*end`.
pub strtoull : Bytes → ℕ → ℕ × Bytes
unfolding skip_spaces sign base_of digits
strtoull s base =
    let (neg, p₁) = sign (skip_spaces s) in
    let (b, p₂) = base_of base p₁ in
    let (acc, any, p₃) = digits b 0 false p₂ in
    (if neg then (2 ^ 64 - acc) % 2 ^ 64 else acc, if any then p₃ else s)

-- utoa, whose buffer is given by the bytes that stand before the NUL: `dig[d]`, of a table of 16
-- characters; behind them stands the NUL, and utoa is called with the bases 8, 10 and 16 alone.
unfoldable pub digit_char : ℕ → ℕ → ℕ
digit_char d upper =
    if ltb d 10
    then b'0' + d
    else if ltb d 16
    then if upper == 0 then b'a' + (d - 10) else b'A' + (d - 10)
    else 0

-- `while (v) { *--p = dig[v % base]; v /= base; }`, with fuel; `v` rounds are enough, for a base
-- of at least 2.
unfoldable pub utoa_loop : ℕ → ℕ → ℕ → ℕ → Bytes → Bytes
unfolding digit_char
utoa_loop zero v base upper p = p
utoa_loop (suc f) v base upper p =
    let rest = utoa_loop f (v / base) base upper (digit_char (v % base) upper ∷ p) in
    if v == 0 then p else rest

unfoldable pub utoa : ℕ → ℕ → ℕ → Bytes
unfolding utoa_loop
utoa v base upper = if v == 0 then b'0' ∷ [] else utoa_loop v v base upper []

-- srand and rand: the state, and the result
pub srand : ℕ → ℕ
srand seed = seed % 2 ^ 32

pub rand : ℕ → ℕ × ℕ
rand state = let next = (state * 1103515245 + 12345) % 2 ^ 64 in (next, next / 2 ^ 16 % 2 ^ 31)
