-- ===== src/Net/Address/RoundTrip.antt =====
-- The texts of addresses read back.
use racccoon.Base.{
  ℕ, zero, suc, ◌+◌, ◌-◌, ◌*◌, ◌/◌, ◌%◌, ◌^◌, ◌≤◌, ◌<◌, ◌≡◌, refl, sym, ap, subst, ◌∙◌, inl, inr,
  ltb, ◌==◌, true, false, Bool-cases, [], ◌∷◌, ◌++◌, some, append_assoc, append-nil, arith,
}
use native.Mathlib.Nat.{div-lt_self}
use racccoon.Posix.Server.{Bytes}
use racccoon.Stdlib.Numbers.{digit_char, utoa_loop, utoa}
use racccoon.Net.Address.{
  decimal, fmt_ip, is_digit, byte_loop, parse_byte, parse_numbers, parse_quad, port_loop,
  parse_port, parse_hostport, htonl, whole, inet_aton, inet_ntop,
}

digit_char-ten : (d : ℕ) → d < 10 → digit_char d 0 ≡ b'0' + d
unfolding digit_char
digit_char-ten d h = ground arith

-- The text does not go on with a digit.
abbrev pub EndsNumber : Bytes → Type 0
EndsNumber [] = Unit
EndsNumber (c ∷ p) = is_digit c ≡ false

utoa_loop-append :
    (f v : ℕ) (p rest : Bytes) → utoa_loop f v 10 0 (p ++ rest) ≡ utoa_loop f v 10 0 p ++ rest
unfolding utoa_loop
utoa_loop-append zero v p rest = refl
utoa_loop-append (suc f) v p rest = elim (Bool-cases (v == 0)) [
  | inl e ↦ rw (utoa_loop, e) refl
  | inr e ↦ rw (utoa_loop, e) (utoa_loop-append f (v / 10) (digit_char (v % 10) 0 ∷ p) rest)
]

-- A digit that the writer puts in front is the next that the reader takes.
byte_loop-step :
    (v : ℕ) (p : Bytes) → v ≤ 255 → byte_loop (v / 10) (digit_char (v % 10) 0 ∷ p) ≡ byte_loop v p
unfolding byte_loop
byte_loop-step v p h =
    let d : digit_char (v % 10) 0 ≡ b'0' + v % 10 = digit_char-ten (v % 10) (omega arith) in
    let digit : is_digit (b'0' + v % 10) ≡ true = ground arith in
    let whole : v / 10 * 10 + (b'0' + v % 10 - b'0') ≡ v = omega arith in
    let small : ltb 255 v ≡ false = ground arith in rw (d, byte_loop, digit, whole, small) refl

byte_loop-utoa_loop :
    (f v : ℕ) (p : Bytes) → v ≤ f → v ≤ 255 → byte_loop 0 (utoa_loop f v 10 0 p) ≡ byte_loop v p
unfolding utoa_loop
byte_loop-utoa_loop zero v p l b = ap (λ u. byte_loop u p) {x = 0} {y = v} (omega arith)
byte_loop-utoa_loop (suc f) v p l b = elim (Bool-cases (v == 0)) [
  | inl e ↦ rw (utoa_loop, e) (ap (λ u. byte_loop u p) {x = 0} {y = v} (ground arith))
  | inr e ↦
      let less : v / 10 < v = div-lt_self (ground arith) (omega arith) in
      rw (utoa_loop, e)
        (byte_loop-utoa_loop f (v / 10) (digit_char (v % 10) 0 ∷ p) (omega arith) (omega arith)
          ∙ byte_loop-step v p b)
]

port_loop-step :
    (v : ℕ) (p : Bytes)
    → v < 2 ^ 32
    → port_loop (v / 10) (digit_char (v % 10) 0 ∷ p) ≡ port_loop v p
unfolding port_loop
port_loop-step v p h =
    let d : digit_char (v % 10) 0 ≡ b'0' + v % 10 = digit_char-ten (v % 10) (omega arith) in
    let digit : is_digit (b'0' + v % 10) ≡ true = ground arith in
    let whole : (v / 10 * 10 + (b'0' + v % 10 - b'0')) % 2 ^ 32 ≡ v = omega arith in
    rw (d, port_loop, digit, whole) refl

port_loop-utoa_loop :
    (f v : ℕ) (p : Bytes) → v ≤ f → v < 2 ^ 32 → port_loop 0 (utoa_loop f v 10 0 p) ≡ port_loop v p
unfolding utoa_loop
port_loop-utoa_loop zero v p l b = ap (λ u. port_loop u p) {x = 0} {y = v} (omega arith)
port_loop-utoa_loop (suc f) v p l b = elim (Bool-cases (v == 0)) [
  | inl e ↦ rw (utoa_loop, e) (ap (λ u. port_loop u p) {x = 0} {y = v} (ground arith))
  | inr e ↦
      let less : v / 10 < v = div-lt_self (ground arith) (omega arith) in
      rw (utoa_loop, e)
        (port_loop-utoa_loop f (v / 10) (digit_char (v % 10) 0 ∷ p) (omega arith) (omega arith)
          ∙ port_loop-step v p b)
]

-- A number starts with a digit.
abbrev StartsNumber : Bytes → Type 0
StartsNumber [] = ⊥
StartsNumber (c ∷ p) = is_digit c ≡ true

utoa_loop-StartsNumber :
    (f v : ℕ) (p : Bytes) → StartsNumber p → StartsNumber (utoa_loop f v 10 0 p)
unfolding utoa_loop
utoa_loop-StartsNumber zero v p h = h
utoa_loop-StartsNumber (suc f) v p h = elim (Bool-cases (v == 0)) [
  | inl e ↦ rw (utoa_loop, e) h
  | inr e ↦
      rw (utoa_loop, e)
        (utoa_loop-StartsNumber f (v / 10) (digit_char (v % 10) 0 ∷ p)
          (rw (digit_char-ten (v % 10) (omega arith)) (ground arith)))
]

-- The text of a number, before more text, as the loop of utoa leaves it.
decimal-text : (v : ℕ) (rest : Bytes) → 0 < v → decimal v ++ rest ≡ utoa_loop v v 10 0 rest
unfolding utoa
decimal-text v rest h =
    let e : (v == 0) ≡ false = ground arith in rw (utoa, e) (sym (utoa_loop-append v v [] rest))

byte_loop-ends : (v : ℕ) (rest : Bytes) → EndsNumber rest → byte_loop v rest ≡ some (v, rest)
unfolding byte_loop
byte_loop-ends v [] h = refl
byte_loop-ends v (c ∷ rest) h = rw (byte_loop, h) refl

parse_byte-starts : (s : Bytes) → StartsNumber s → parse_byte s ≡ byte_loop 0 s
unfolding parse_byte
parse_byte-starts [] h = absurd h
parse_byte-starts (c ∷ p) h = rw (parse_byte, h) refl

decimal-StartsNumber : (v : ℕ) (rest : Bytes) → StartsNumber (decimal v ++ rest)
unfolding utoa
decimal-StartsNumber zero rest = ground arith
decimal-StartsNumber (suc v) rest =
    let n = suc v in
    let e : (n == 0) ≡ false = ground arith in
    subst StartsNumber (sym (decimal-text n rest (omega arith))) (
      rw (utoa_loop, e)
        (utoa_loop-StartsNumber v (n / 10) (digit_char (n % 10) 0 ∷ rest)
          (rw (digit_char-ten (n % 10) (omega arith)) (ground arith))))

byte_loop-decimal :
    (v : ℕ) (rest : Bytes)
    → v ≤ 255
    → EndsNumber rest
    → byte_loop 0 (decimal v ++ rest) ≡ some (v, rest)
unfolding utoa byte_loop
byte_loop-decimal zero rest h e = byte_loop-ends 0 rest e
byte_loop-decimal (suc v) rest h e =
    ap (byte_loop 0) (decimal-text (suc v) rest (omega arith))
    ∙ byte_loop-utoa_loop (suc v) (suc v) rest (omega arith) h
    ∙ byte_loop-ends (suc v) rest e

parse_byte-decimal :
    (v : ℕ) (rest : Bytes)
    → v ≤ 255
    → EndsNumber rest
    → parse_byte (decimal v ++ rest) ≡ some (v, rest)
parse_byte-decimal v rest h e =
    parse_byte-starts (decimal v ++ rest) (decimal-StartsNumber v rest)
    ∙ byte_loop-decimal v rest h e

parse_numbers-dot :
    (k v b : ℕ) (rest : Bytes)
    → b ≤ 255
    → EndsNumber rest
    → parse_numbers (suc k) v (b'.' ∷ (decimal b ++ rest))
      ≡ parse_numbers k ((v * 256 + b) % 2 ^ 32) rest
unfolding parse_numbers
parse_numbers-dot k v b rest h e = rw (parse_numbers, parse_byte-decimal b rest h e) refl

dotted :
    (a b c d : ℕ) (rest : Bytes)
    → (decimal a ++ (b'.' ∷ (decimal b ++ (b'.' ∷ (decimal c ++ (b'.' ∷ decimal d)))))) ++ rest
      ≡ decimal a ++ (b'.' ∷ (decimal b ++ (b'.' ∷ (decimal c ++ (b'.' ∷ (decimal d ++ rest))))))
dotted a b c d rest =
    append_assoc (decimal a) _ rest
    ∙ ap (λ u. decimal a ++ (b'.' ∷ u))
        (append_assoc (decimal b) _ rest
          ∙ ap (λ u. decimal b ++ (b'.' ∷ u)) (append_assoc (decimal c) _ rest))

-- parse_quad reads back every address that fmt_ip writes, and stops behind it, where the text does not
-- go on with a digit.
pub parse_quad-fmt_ip :
    (ip : ℕ) (rest : Bytes)
    → ip < 2 ^ 32
    → EndsNumber rest
    → parse_quad (fmt_ip ip ++ rest) ≡ some (ip, rest)
unfolding parse_quad parse_numbers
parse_quad-fmt_ip ip rest h e =
    let a = ip / 2 ^ 24 % 256 in
    let b = ip / 2 ^ 16 % 256 in
    let c = ip / 2 ^ 8 % 256 in
    let d = ip % 256 in
    let first : parse_byte (fmt_ip ip ++ rest)
        ≡ some (a, b'.' ∷ (decimal b ++ (b'.' ∷ (decimal c ++ (b'.' ∷ (decimal d ++ rest)))))) =
      ap parse_byte (dotted a b c d rest) ∙ parse_byte-decimal a _ (omega arith) refl in
    rw (parse_quad, first)
      (parse_numbers-dot 2 a b _ (omega arith) refl
        ∙ parse_numbers-dot 1 ((a * 256 + b) % 2 ^ 32) c _ (omega arith) refl
        ∙ parse_numbers-dot 0 (((a * 256 + b) % 2 ^ 32 * 256 + c) % 2 ^ 32) d rest (omega arith) e
        ∙ ap (λ v. some (v, rest)) (omega arith))

port_loop-decimal : (v : ℕ) → v < 2 ^ 32 → port_loop 0 (decimal v) ≡ v
unfolding utoa port_loop
port_loop-decimal zero h = refl
port_loop-decimal (suc v) h =
    ap (port_loop 0) (sym (append-nil (decimal (suc v))) ∙ decimal-text (suc v) [] (omega arith))
    ∙ port_loop-utoa_loop (suc v) (suc v) [] (omega arith) h

parse_port-starts : (s : Bytes) → StartsNumber s → parse_port s ≡ some (port_loop 0 s)
parse_port-starts [] h = absurd h
parse_port-starts (c ∷ s) h = rw h refl

parse_port-decimal : (v : ℕ) → v < 2 ^ 32 → parse_port (decimal v) ≡ some v
parse_port-decimal v h =
    parse_port-starts (decimal v)
      (subst StartsNumber (append-nil (decimal v)) (decimal-StartsNumber v []))
    ∙ ap (λ p. some p) (port_loop-decimal v h)

-- parse_hostport reads back the address and the port that connect writes with a `!` between them.
pub parse_hostport-fmt_ip :
    (ip port : ℕ)
    → ip < 2 ^ 32
    → port < 2 ^ 32
    → parse_hostport (fmt_ip ip ++ (b'!' ∷ decimal port)) ≡ some (ip, port)
unfolding parse_hostport
parse_hostport-fmt_ip ip port h g =
    rw
      (parse_hostport, parse_quad-fmt_ip ip (b'!' ∷ decimal port) h refl, parse_port-decimal port g)
      refl

htonl-htonl : (v : ℕ) → v < 2 ^ 32 → htonl (htonl v) ≡ v
htonl-htonl v h = omega arith

-- inet_aton reads back the address that inet_ntop has written, both in network order.
pub inet_aton-inet_ntop :
    (addr size : ℕ) (text : Bytes)
    → addr < 2 ^ 32
    → inet_ntop addr size ≡ some text
    → inet_aton text ≡ some addr
unfolding inet_aton inet_ntop
inet_aton-inet_ntop addr size text h e =
    let same : fmt_ip (htonl addr) ≡ text = ground (arith, e) in
    let order : htonl addr < 2 ^ 32 = omega arith in
    let read : parse_quad (fmt_ip (htonl addr)) ≡ some (htonl addr, []) =
      ap parse_quad (sym (append-nil (fmt_ip (htonl addr))))
      ∙ parse_quad-fmt_ip (htonl addr) [] order tt in
    ap (λ t. whole (parse_quad t)) (sym same)
    ∙ ap whole read
    ∙ ap (λ a. some a) (htonl-htonl addr h)
