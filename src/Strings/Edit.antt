-- ===== src/Strings/Edit.antt =====
-- The functions of lib/racccoon-libc/src/string.c that build strings or cut them up: strcpy, strncpy,
-- strcat, strncat, strstr, memmem, strtok_r, strsep, strdup, strndup, ffs and strxfrm. As in `Scan`, a
-- loop that only a NUL byte stops takes fuel.
pub mod Copying
use racccoon.Base.{
  ℕ, zero, suc, ◌+◌, ◌-◌, ◌*◌, ◌/◌, ◌%◌, Option, none, some, Bool, true, false, not, ◌&&◌, leb, ltb,
  ◌==◌, if◌then◌else◌, Memory, update,
}
use racccoon.Base.Int.{ℤ, pos, negsuc}
use racccoon.Strings.Move.{memcpy}
use racccoon.Strings.Scan.{◌>>=◌, strlen, strnlen, strspn, strcspn}
use racccoon.Strings.Compare.{strncmp, memcmp}

-- `while ((*d++ = *src++)) { }`
pub strcpy : ℕ → Memory → ℕ → ℕ → Option Memory
strcpy zero m d s = none
strcpy (suc f) m d s =
    let rest = strcpy f (update m d (m s)) (d + 1) (s + 1) in
    if m s == 0 then some (update m d 0) else rest

-- `for (; i < n; i++) dst[i] = 0;`
pub zero_fill : Memory → ℕ → ℕ → Memory
zero_fill m d zero = m
zero_fill m d (suc n) = zero_fill (update m d 0) (d + 1) n

-- `n` counts the rounds that are left.
pub strncpy : Memory → ℕ → ℕ → ℕ → Memory
unfolding zero_fill
strncpy m d s zero = m
strncpy m d s (suc n) =
    let rest = strncpy (update m d (m s)) (d + 1) (s + 1) n in
    if m s == 0 then zero_fill m d (suc n) else rest

pub strcat : ℕ → Memory → ℕ → ℕ → Option Memory
unfolding strcpy
strcat f m d s = do n ← strlen f m d; strcpy f m (d + n) s

-- The loop of strncat, with the NUL behind it.
pub append_upto : Memory → ℕ → ℕ → ℕ → Memory
append_upto m d s zero = update m d 0
append_upto m d s (suc n) =
    let rest = append_upto (update m d (m s)) (d + 1) (s + 1) n in
    if m s == 0 then update m d 0 else rest

pub strncat : ℕ → Memory → ℕ → ℕ → ℕ → Option Memory
unfolding append_upto
strncat f m d s n = do l ← strlen f m d; some (append_upto m (d + l) s n)

abbrev is_zero : ℤ → Bool
is_zero (pos zero) = true
is_zero (pos (suc n)) = false
is_zero (negsuc n) = false

-- `for (; *hay; hay++) …`, with the length `nl` of the needle
pub strstr_from : ℕ → Memory → ℕ → ℕ → ℕ → Option (Option ℕ)
strstr_from zero m hay needle nl = none
strstr_from (suc f) m hay needle nl =
    let rest = strstr_from f m (hay + 1) needle nl in
    if m hay == 0
    then some none
    else if m hay == m needle && is_zero (strncmp m hay needle nl)
    then some (some hay)
    else rest

pub strstr : ℕ → Memory → ℕ → ℕ → Option (Option ℕ)
unfolding strstr_from
strstr f m hay needle =
    if m needle == 0
    then some (some hay)
    else strlen f m needle >>= λ nl. strstr_from f m hay needle nl

-- `for (size_t i = 0; i + nn <= hn; i++) …`, with `k` rounds left
pub memmem_from : ℕ → Memory → ℕ → ℕ → ℕ → Option ℕ
memmem_from zero m h needle nn = none
memmem_from (suc k) m h needle nn =
    let rest = memmem_from k m (h + 1) needle nn in
    if m h == m needle && is_zero (memcmp m h needle nn) then some h else rest

pub memmem : Memory → ℕ → ℕ → ℕ → ℕ → Option ℕ
unfolding memmem_from
memmem m hay hn needle nn =
    if nn == 0
    then some hay
    else if ltb hn nn
    then none
    else memmem_from (hn - nn + 1) m hay needle nn

-- What a tokenizer returns: the memory, the token, and where to go on.
pub record Token : Type 0 where
  pub mem : Memory
  pub token : Option ℕ
  pub save : Option ℕ

-- `if (*end) { *end = 0; … = end + 1; } else … = NULL;`, for the token at `s`
abbrev pub cut : Memory → ℕ → ℕ → Token
cut m s end =
    if m end == 0
    then record { mem = m; token = some s; save = none }
    else record { mem = update m end 0; token = some s; save = some (end + 1) }

abbrev strtok_at : ℕ → Memory → ℕ → ℕ → Option Token
strtok_at f m s₀ sep = strspn f m s₀ sep >>= λ skipped.
    let s = s₀ + skipped in
    if m s == 0
    then some (record { mem = m; token = none; save = none })
    else strcspn f m s sep >>= λ n. some (cut m s (s + n))

-- strtok_r: the string or NULL, the separators, and the saved pointer. A NULL saved pointer stays.
pub strtok_r : ℕ → Memory → Option ℕ → ℕ → Option ℕ → Option Token
strtok_r f m (some s) sep save = strtok_at f m s sep
strtok_r f m none sep (some s) = strtok_at f m s sep
strtok_r f m none sep none = some (record { mem = m; token = none; save = none })

pub strsep : ℕ → Memory → Option ℕ → ℕ → Option Token
strsep f m none sep = some (record { mem = m; token = none; save = none })
strsep f m (some s) sep = do n ← strcspn f m s sep; some (cut m s (s + n))

-- strdup and strndup; `new` is what malloc returns, for the size that it is asked for.
pub strdup : ℕ → (ℕ → Option ℕ) → Memory → ℕ → Option (Memory × Option ℕ)
strdup f new m s = do
  n ← strlen f m s
  elim (new (n + 1)) [ none ↦ some (m, none) | some p ↦ some (memcpy m p s (n + 1), some p) ]

pub strndup : (ℕ → Option ℕ) → Memory → ℕ → ℕ → Memory × Option ℕ
strndup new m s max =
    let n = strnlen m s max in
    elim (new (n + 1)) [ none ↦ (m, none) | some p ↦ (update (memcpy m p s n) (p + n) 0, some p) ]

-- `while (!(v & 1)) { v >>= 1; i++; }`, of the value of an `int` modulo 2 ^ 32, which has no more than
-- 32 bits
pub ffs_loop : ℕ → ℕ → ℕ → ℕ
ffs_loop zero v i = i
ffs_loop (suc f) v i = let rest = ffs_loop f (v / 2) (i + 1) in if v % 2 == 0 then rest else i

pub ffs : ℕ → ℕ
unfolding ffs_loop
ffs v = if v == 0 then 0 else ffs_loop 32 v 1

-- strxfrm: the memory, and the length
pub strxfrm : ℕ → Memory → ℕ → ℕ → ℕ → Option (Memory × ℕ)
strxfrm f m d s n = do
  len ← strlen f m s
  some (if n == 0 then m else memcpy m d s (if ltb len n then len + 1 else n), len)
