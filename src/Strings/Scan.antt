-- ===== src/Strings/Scan.antt =====
-- The scans of lib/racccoon-libc/src/string.c: strlen, strnlen, strchr, strrchr, strspn, strcspn,
-- strpbrk, memchr and memrchr. A scan that only a NUL byte stops takes fuel, a bound on its
-- rounds, and is `none` where that ran out; one byte more than the string has is enough.
pub mod Found
use racccoon.Base.{
  ℕ, zero, suc, ◌+◌, ◌-◌, ◌%◌, Option, none, some, Bool, true, false, not, ◌==◌, if◌then◌else◌,
  Memory,
}

infixl 5 ◌>>=◌
abbrev pub ◌>>=◌ {ℓ κ} : {A : Type ℓ} {B : Type κ} → Option A → (A → Option B) → Option B
none >>= f = none
some a >>= f = f a

abbrev pub is_some {ℓ} : {A : Type ℓ} → Option A → Bool
is_some none = false
is_some (some a) = true

-- `while (*p) p++;`: where `p` ends
pub skip_to_nul : ℕ → Memory → ℕ → Option ℕ
skip_to_nul zero m p = none
skip_to_nul (suc f) m p = let rest = skip_to_nul f m (p + 1) in if m p == 0 then some p else rest

pub strlen : ℕ → Memory → ℕ → Option ℕ
unfolding skip_to_nul
strlen f m s = do p ← skip_to_nul f m s; some (p - s)

-- `while (n < max && s[n]) n++;`, recursion on the rounds that `max` leaves
strnlen_from : Memory → ℕ → ℕ → ℕ → ℕ
strnlen_from m s n zero = n
strnlen_from m s n (suc k) =
    let rest = strnlen_from m s (n + 1) k in if m (s + n) == 0 then n else rest

pub strnlen : Memory → ℕ → ℕ → ℕ
unfolding strnlen_from
strnlen m s max = strnlen_from m s 0 max

-- The outer option is the fuel, the inner one the pointer or `NULL`.
strchr_from : ℕ → Memory → ℕ → ℕ → Option (Option ℕ)
strchr_from zero m s ch = none
strchr_from (suc f) m s ch =
    let rest = strchr_from f m (s + 1) ch in
    if m s == ch then some (some s) else if m s == 0 then some none else rest

-- `c` is an `int`, given by its value modulo 2 ^ 32; `char` is a byte.
pub strchr : ℕ → Memory → ℕ → ℕ → Option (Option ℕ)
unfolding strchr_from
strchr f m s c = strchr_from f m s (c % 256)

strrchr_from : ℕ → Memory → ℕ → ℕ → Option ℕ → Option (Option ℕ)
strrchr_from zero m s ch last = none
strrchr_from (suc f) m s ch last =
    let found = if m s == ch then some s else last in
    let rest = strrchr_from f m (s + 1) ch found in if m s == 0 then some found else rest

pub strrchr : ℕ → Memory → ℕ → ℕ → Option (Option ℕ)
unfolding strrchr_from
strrchr f m s c = strrchr_from f m s (c % 256) none

-- The loop of strspn (`want` is true) and of strcspn (`want` is false): it goes on over the bytes
-- whose membership in `set` is `want`. Each test is a strchr, with fuel `g`.
span_from : Bool → ℕ → ℕ → Memory → ℕ → ℕ → ℕ → Option ℕ
span_from want g zero m s set n = none
span_from want g (suc f) m s set n =
    let rest = span_from want g f m s set (n + 1) in
    if m (s + n) == 0
    then some n
    else strchr g m set (m (s + n)) >>= λ r.
        if is_some r then (if want then rest else some n) else (if want then some n else rest)

pub strspn : ℕ → Memory → ℕ → ℕ → Option ℕ
unfolding span_from
strspn f m s set = span_from true f f m s set 0

pub strcspn : ℕ → Memory → ℕ → ℕ → Option ℕ
unfolding span_from
strcspn f m s set = span_from false f f m s set 0

strpbrk_from : ℕ → ℕ → Memory → ℕ → ℕ → Option (Option ℕ)
strpbrk_from g zero m s set = none
strpbrk_from g (suc f) m s set =
    let rest = strpbrk_from g f m (s + 1) set in
    if m s == 0
    then some none
    else strchr g m set (m s) >>= λ r. if is_some r then some (some s) else rest

pub strpbrk : ℕ → Memory → ℕ → ℕ → Option (Option ℕ)
unfolding strpbrk_from
strpbrk f m s set = strpbrk_from f f m s set

-- `for (i = 0; i < n; i++)` with `p` moved along
memchr_from : Memory → ℕ → ℕ → ℕ → Option ℕ
memchr_from m p b zero = none
memchr_from m p b (suc n) =
    let rest = memchr_from m (p + 1) b n in if m p == b then some p else rest

pub memchr : Memory → ℕ → ℕ → ℕ → Option ℕ
unfolding memchr_from
memchr m s c n = memchr_from m s (c % 256) n

-- `while (n--) if (*--p == c) …` from `p = s + n`
memrchr_from : Memory → ℕ → ℕ → ℕ → Option ℕ
memrchr_from m s b zero = none
memrchr_from m s b (suc n) =
    let rest = memrchr_from m s b n in if m (s + n) == b then some (s + n) else rest

pub memrchr : Memory → ℕ → ℕ → ℕ → Option ℕ
unfolding memrchr_from
memrchr m s c n = memrchr_from m s (c % 256) n
