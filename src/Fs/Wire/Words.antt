-- ===== src/Fs/Wire/Words.antt =====
-- Words of 32 bits in a message, `*(unsigned *)(req + p)`, on the little-endian machine.
use racccoon.Base.{
  ℕ, ◌+◌, ◌-◌, ◌*◌, ◌/◌, ◌%◌, ◌^◌, ◌≤◌, ◌<◌, ◌≡◌, ◌⊎◌, [], ◌∷◌, List, ltb, if◌then◌else◌, arith,
  Memory, store,
}
use racccoon.Base.Int.{ℤ, pos, negsuc}

abbrev pub bytes32 : ℕ → List ℕ
bytes32 v = v % 256 ∷ v / 2 ^ 8 % 256 ∷ v / 2 ^ 16 % 256 ∷ v / 2 ^ 24 % 256 ∷ []

pub put32 : Memory → ℕ → ℕ → Memory
put32 m p v = store m p (bytes32 v)

pub get32 : Memory → ℕ → ℕ
get32 m p = m p + 2 ^ 8 * m (p + 1) + 2 ^ 16 * m (p + 2) + 2 ^ 24 * m (p + 3)

-- `*(int *)req`
pub signed32 : ℕ → ℤ
signed32 v = if ltb v (2 ^ 31) then pos v else negsuc (2 ^ 32 - v - 1)

pub signed32-small : (v : ℕ) → v < 2 ^ 31 → signed32 v ≡ pos v
unfolding signed32
signed32-small v h = ground arith

-- A word reads back as what was stored, modulo 2 ^ 32.
pub get32-put32 : (m : Memory) (p v : ℕ) → get32 (put32 m p v) p ≡ v % 2 ^ 32
unfolding get32 put32
get32-put32 m p v = ground arith

pub put32-outside : (m : Memory) (p v a : ℕ) → (a < p) ⊎ (p + 4 ≤ a) → put32 m p v a ≡ m a
unfolding put32
put32-outside m p v a h = ground arith

pub get32-same :
    (m m' : Memory) (p : ℕ) → ((a : ℕ) → p ≤ a → a < p + 4 → m' a ≡ m a) → get32 m' p ≡ get32 m p
unfolding get32
get32-same m m' p h = omega (
  arith,
  h p (omega arith) (omega arith),
  h (p + 1) (omega arith) (omega arith),
  h (p + 2) (omega arith) (omega arith),
  h (p + 3) (omega arith) (omega arith),
)
