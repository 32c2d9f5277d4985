-- ===== src/Wide.antt =====
-- The wide strings of lib/racccoon-libc/src/wchar.c, over a memory of `wchar_t` cells: an address
-- counts cells, and a `wchar_t` is given by its value modulo 2 ^ 32. As for the strings of bytes, a
-- loop that only a NUL stops takes fuel.
use racccoon.Base.{
  ℕ, zero, suc, ◌+◌, ◌-◌, ◌%◌, ◌^◌, Option, none, some, Bool, true, false, not, ◌&&◌, ltb, ◌==◌,
  if◌then◌else◌, Memory, update,
}
use racccoon.Base.Int.{ℤ, pos, negsuc}

infixl 5 ◌>>=◌
abbrev ◌>>=◌ {ℓ κ} : {A : Type ℓ} {B : Type κ} → Option A → (A → Option B) → Option B
none >>= f = none
some a >>= f = f a

abbrev is_some : Option ℕ → Bool
is_some none = false
is_some (some a) = true

-- `a < b`, of two `int`s
abbrev signed_lt : ℕ → ℕ → Bool
signed_lt a b = ltb ((a + 2 ^ 31) % 2 ^ 32) ((b + 2 ^ 31) % 2 ^ 32)

wcslen_from : ℕ → Memory → ℕ → Option ℕ
wcslen_from zero m p = none
wcslen_from (suc f) m p = let rest = wcslen_from f m (p + 1) in if m p == 0 then some p else rest

pub wcslen : ℕ → Memory → ℕ → Option ℕ
unfolding wcslen_from
wcslen f m s = do p ← wcslen_from f m s; some (p - s)

pub wcscpy : ℕ → Memory → ℕ → ℕ → Option Memory
wcscpy zero m d s = none
wcscpy (suc f) m d s =
    let rest = wcscpy f (update m d (m s)) (d + 1) (s + 1) in
    if m s == 0 then some (update m d 0) else rest

zero_cells : Memory → ℕ → ℕ → Memory
zero_cells m d zero = m
zero_cells m d (suc n) = zero_cells (update m d 0) (d + 1) n

pub wcsncpy : Memory → ℕ → ℕ → ℕ → Memory
unfolding zero_cells
wcsncpy m d s zero = m
wcsncpy m d s (suc n) =
    let rest = wcsncpy (update m d (m s)) (d + 1) (s + 1) n in
    if m s == 0 then zero_cells m d (suc n) else rest

pub wcscat : ℕ → Memory → ℕ → ℕ → Option Memory
unfolding wcscpy
wcscat f m d s = do n ← wcslen f m d; wcscpy f m (d + n) s

append_cells : Memory → ℕ → ℕ → ℕ → Memory
append_cells m d s zero = update m d 0
append_cells m d s (suc n) =
    let rest = append_cells (update m d (m s)) (d + 1) (s + 1) n in
    if m s == 0 then update m d 0 else rest

pub wcsncat : ℕ → Memory → ℕ → ℕ → ℕ → Option Memory
unfolding append_cells
wcsncat f m d s n = do l ← wcslen f m d; some (append_cells m (d + l) s n)

abbrev sign_of : ℕ → ℕ → ℤ
sign_of a b = if signed_lt a b then negsuc 0 else if signed_lt b a then pos 1 else pos 0

pub wcscmp : ℕ → Memory → ℕ → ℕ → Option ℤ
wcscmp zero m a b = none
wcscmp (suc f) m a b =
    let rest = wcscmp f m (a + 1) (b + 1) in
    if not (m a == 0) && m a == m b then rest else some (sign_of (m a) (m b))

abbrev order_of : ℕ → ℕ → ℤ
order_of a b = if signed_lt a b then negsuc 0 else pos 1

pub wcsncmp : Memory → ℕ → ℕ → ℕ → ℤ
wcsncmp m a b zero = pos 0
wcsncmp m a b (suc n) =
    let rest = wcsncmp m (a + 1) (b + 1) n in
    if not (m a == m b) then order_of (m a) (m b) else if m a == 0 then pos 0 else rest

pub wcscoll : ℕ → Memory → ℕ → ℕ → Option ℤ
unfolding wcscmp
wcscoll f m a b = wcscmp f m a b

pub wcsxfrm : ℕ → Memory → ℕ → ℕ → ℕ → Option (Memory × ℕ)
unfolding wcsncpy
wcsxfrm f m d s n = do
  len ← wcslen f m s
  some (if n == 0 then m else wcsncpy m d s (if ltb len n then len + 1 else n), len)

pub wcschr : ℕ → Memory → ℕ → ℕ → Option (Option ℕ)
wcschr zero m s c = none
wcschr (suc f) m s c =
    let rest = wcschr f m (s + 1) c in
    if m s == c then some (some s) else if m s == 0 then some none else rest

wcsrchr_from : ℕ → Memory → ℕ → ℕ → Option ℕ → Option (Option ℕ)
wcsrchr_from zero m s c r = none
wcsrchr_from (suc f) m s c r =
    let found = if m s == c then some s else r in
    let rest = wcsrchr_from f m (s + 1) c found in if m s == 0 then some found else rest

pub wcsrchr : ℕ → Memory → ℕ → ℕ → Option (Option ℕ)
unfolding wcsrchr_from
wcsrchr f m s c = wcsrchr_from f m s c none

-- The loop of wcsspn (`want` is true) and of wcscspn (`want` is false).
wide_span_from : Bool → ℕ → ℕ → Memory → ℕ → ℕ → ℕ → Option ℕ
wide_span_from want g zero m s set n = none
wide_span_from want g (suc f) m s set n =
    let rest = wide_span_from want g f m s set (n + 1) in
    if m (s + n) == 0
    then some n
    else wcschr g m set (m (s + n)) >>= λ r.
        if is_some r then (if want then rest else some n) else (if want then some n else rest)

pub wcsspn : ℕ → Memory → ℕ → ℕ → Option ℕ
unfolding wide_span_from
wcsspn f m s accept = wide_span_from true f f m s accept 0

pub wcscspn : ℕ → Memory → ℕ → ℕ → Option ℕ
unfolding wide_span_from
wcscspn f m s reject = wide_span_from false f f m s reject 0

pub wcspbrk : ℕ → Memory → ℕ → ℕ → Option (Option ℕ)
wcspbrk f m s accept =
    wcscspn f m s accept >>= λ n. some (if m (s + n) == 0 then none else some (s + n))

abbrev is_zero : ℤ → Bool
is_zero (pos zero) = true
is_zero (pos (suc n)) = false
is_zero (negsuc n) = false

wcsstr_from : ℕ → Memory → ℕ → ℕ → ℕ → Option (Option ℕ)
wcsstr_from zero m h n nl = none
wcsstr_from (suc f) m h n nl =
    let rest = wcsstr_from f m (h + 1) n nl in
    if m h == 0
    then some none
    else if m h == m n && is_zero (wcsncmp m h n nl)
    then some (some h)
    else rest

pub wcsstr : ℕ → Memory → ℕ → ℕ → Option (Option ℕ)
unfolding wcsstr_from
wcsstr f m h n = wcslen f m n >>= λ nl. if nl == 0 then some (some h) else wcsstr_from f m h n nl

-- `if (!s) s = *save;`
abbrev start_of : Option ℕ → ℕ → ℕ
start_of none save = save
start_of (some s) save = s

-- wcstok: the memory, the token and the new saved pointer, which is never NULL
pub wcstok : ℕ → Memory → Option ℕ → ℕ → ℕ → Option (Memory × Option ℕ × ℕ)
wcstok f m s₀ delim save = wcsspn f m (start_of s₀ save) delim >>= λ skipped.
    let s = start_of s₀ save + skipped in
    if m s == 0
    then some (m, none, s)
    else wcscspn f m s delim >>= λ n.
        if m (s + n) == 0
        then some (m, some s, s + n)
        else some (update m (s + n) 0, some s, s + n + 1)

pub wmemchr : Memory → ℕ → ℕ → ℕ → Option ℕ
wmemchr m s c zero = none
wmemchr m s c (suc n) = let rest = wmemchr m (s + 1) c n in if m s == c then some s else rest

pub wmemcmp : Memory → ℕ → ℕ → ℕ → ℤ
wmemcmp m a b zero = pos 0
wmemcmp m a b (suc n) =
    let rest = wmemcmp m (a + 1) (b + 1) n in if m a == m b then rest else order_of (m a) (m b)

pub wmemset : Memory → ℕ → ℕ → ℕ → Memory
wmemset m d c zero = m
wmemset m d c (suc n) = wmemset (update m d c) (d + 1) c n

-- btowc and wctob, of an `int` that is -1 or a byte; none is WEOF and EOF
pub btowc : ℤ → Option ℕ
btowc (pos c) = some (c % 256)
btowc (negsuc zero) = none
btowc (negsuc (suc n)) = some ((256 - (n + 2) % 256) % 256)

pub wctob : ℤ → Option ℕ
wctob (pos c) = if ltb 255 c then none else some c
wctob (negsuc n) = none
