-- ===== src/Strings/Move.antt =====
-- memcpy, memmove and memset of lib/racccoon-libc/src/string.c.
pub mod Copied
pub mod Filled
use racccoon.Base.{
  ℕ, zero, suc, ◌+◌, ◌-◌, ◌*◌, ◌/◌, ◌%◌, ◌^◌, ◌||◌, List, [], ◌∷◌, leb, ltb, ◌==◌, if◌then◌else◌,
  Memory, update, load, store,
}

-- The variables of the loops: the memory, `d`, `s` and `n`.
pub record Copy : Type 0 where
  pub mem : Memory
  pub dst : ℕ
  pub src : ℕ
  pub left : ℕ

-- `while (n && ((unsigned long)d & 7)) { *d++ = *s++; n--; }`; `d & 7` is `d % 8`.
pub align_copy : Memory → ℕ → ℕ → ℕ → Copy
align_copy m d s zero = record { mem = m; dst = d; src = s; left = 0 }
align_copy m d s (suc n) =
    let rest = align_copy (update m d (m s)) (d + 1) (s + 1) n in
    if d % 8 == 0 then record { mem = m; dst = d; src = s; left = suc n } else rest

-- `while (n >= 8) { *(unsigned long *)d = *(const unsigned long *)s; … }`: an `unsigned long` is
-- eight bytes. The fuel is the number of rounds allowed; `n` rounds are always enough.
pub word_copy : ℕ → Copy → Copy
word_copy zero c = c
word_copy (suc f) c =
    let rest = word_copy f (record {
      mem = store c.mem c.dst (load c.mem c.src 8);
      dst = c.dst + 8;
      src = c.src + 8;
      left = c.left - 8;
    }) in
    if leb 8 c.left then rest else c

-- `while (n--) *d++ = *s++;`
pub byte_copy : Memory → ℕ → ℕ → ℕ → Memory
byte_copy m d s zero = m
byte_copy m d s (suc n) = byte_copy (update m d (m s)) (d + 1) (s + 1) n

pub memcpy : Memory → ℕ → ℕ → ℕ → Memory
unfolding align_copy word_copy byte_copy
memcpy m d s n =
    let a = align_copy m d s n in
    let c = if a.src % 8 == 0 then word_copy a.left a else a in byte_copy c.mem c.dst c.src c.left

-- `d += n; s += n; while (n--) *--d = *--s;`
pub back_copy : Memory → ℕ → ℕ → ℕ → Memory
back_copy m d s zero = m
back_copy m d s (suc n) = back_copy (update m (d + n) (m (s + n))) d s n

pub memmove : Memory → ℕ → ℕ → ℕ → Memory
unfolding memcpy back_copy
memmove m d s n =
    if d == s || n == 0 then m else if ltb d s then memcpy m d s n else back_copy m d s n

-- The bytes of an `unsigned long` in memory, on the little-endian machine.
pub word_bytes : ℕ → List ℕ
word_bytes w =
    w % 256
    ∷ w / 2 ^ 8 % 256
    ∷ w / 2 ^ 16 % 256
    ∷ w / 2 ^ 24 % 256
    ∷ w / 2 ^ 32 % 256
    ∷ w / 2 ^ 40 % 256
    ∷ w / 2 ^ 48 % 256
    ∷ w / 2 ^ 56 % 256
    ∷ []

-- `while (n && ((unsigned long)p & 7)) { *p++ = b; n--; }`
pub align_fill : Memory → ℕ → ℕ → ℕ → Memory × ℕ × ℕ
align_fill m p b zero = (m, p, 0)
align_fill m p b (suc n) =
    let rest = align_fill (update m p b) (p + 1) b n in if p % 8 == 0 then (m, p, suc n) else rest

-- `while (n >= 8) { *(unsigned long *)p = w; p += 8; n -= 8; }`, with fuel.
pub word_fill : ℕ → Memory → ℕ → ℕ → ℕ → Memory × ℕ × ℕ
unfolding word_bytes
word_fill zero m p w n = (m, p, n)
word_fill (suc f) m p w n =
    let rest = word_fill f (store m p (word_bytes w)) (p + 8) w (n - 8) in
    if leb 8 n then rest else (m, p, n)

-- `while (n--) *p++ = b;`
pub byte_fill : Memory → ℕ → ℕ → ℕ → Memory
byte_fill m p b zero = m
byte_fill m p b (suc n) = byte_fill (update m p b) (p + 1) b n

-- `c` is an `int`, given by its value modulo 2 ^ 32.
pub memset : Memory → ℕ → ℕ → ℕ → Memory
unfolding align_fill word_fill byte_fill
memset m s c n =
    let b = c % 256 in
    let (m₁, p₁, n₁) = align_fill m s b n in
    let w = 0x0101_0101_0101_0101 * b % 2 ^ 64 in
    let (m₂, p₂, n₂) = word_fill n₁ m₁ p₁ w n₁ in byte_fill m₂ p₂ b n₂
