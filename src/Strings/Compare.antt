-- ===== src/Strings/Compare.antt =====
-- The comparisons of lib/racccoon-libc/src/string.c. Results are C's `int`.
pub mod Order
use racccoon.Base.{
  ℕ, zero, suc, ◌+◌, Bool, true, not, ◌&&◌, Option, none, some, leb, ◌==◌, if◌then◌else◌, Memory,
}
use racccoon.Base.Int.{ℤ, pos, sub_ℕ}

-- `for (i = 0; i < n; i++)` with the pointers moved along
pub memcmp : Memory → ℕ → ℕ → ℕ → ℤ
memcmp m a b zero = pos 0
memcmp m a b (suc n) =
    let rest = memcmp m (a + 1) (b + 1) n in if not (m a == m b) then sub_ℕ (m a) (m b) else rest

pub strcmp : ℕ → Memory → ℕ → ℕ → Option ℤ
strcmp zero m a b = none
strcmp (suc f) m a b =
    let rest = strcmp f m (a + 1) (b + 1) in
    if not (m a == 0) && m a == m b then rest else some (sub_ℕ (m a) (m b))

pub strncmp : Memory → ℕ → ℕ → ℕ → ℤ
strncmp m a b zero = pos 0
strncmp m a b (suc n) =
    let rest = strncmp m (a + 1) (b + 1) n in
    if not (m a == m b) then sub_ℕ (m a) (m b) else if m a == 0 then pos 0 else rest

-- `static int lc(int c)`, called with a byte
pub lc : ℕ → ℕ
lc c = if leb b'A' c && leb c b'Z' then c + 32 else c

pub strcasecmp : ℕ → Memory → ℕ → ℕ → Option ℤ
unfolding lc
strcasecmp zero m a b = none
strcasecmp (suc f) m a b =
    let rest = strcasecmp f m (a + 1) (b + 1) in
    if not (m a == 0) && lc (m a) == lc (m b) then rest else some (sub_ℕ (lc (m a)) (lc (m b)))

pub strncasecmp : Memory → ℕ → ℕ → ℕ → ℤ
unfolding lc
strncasecmp m a b zero = pos 0
strncasecmp m a b (suc n) =
    let rest = strncasecmp m (a + 1) (b + 1) n in
    if not (m a == 0) && lc (m a) == lc (m b) then rest else sub_ℕ (lc (m a)) (lc (m b))

-- The C locale collates by byte value.
pub strcoll : ℕ → Memory → ℕ → ℕ → Option ℤ
unfolding strcmp
strcoll f m a b = strcmp f m a b
