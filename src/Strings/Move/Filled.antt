-- ===== src/Strings/Move/Filled.antt =====
-- memset fills: the loops of `Move` against the effect of a fill at once.
use racccoon.Base.{
  ℕ, zero, suc, ◌+◌, ◌-◌, ◌*◌, ◌%◌, ◌^◌, ◌<◌, ◌≡◌, refl, ◌∙◌, ap, fun_ext, inl, inr, ◌&&◌,
  replicate, arith, leb, ltb, ◌==◌, if◌then◌else◌, Bool-cases, Memory, update, store,
}
use racccoon.Strings.Move.{word_bytes, align_fill, word_fill, byte_fill, memset}

-- The memory once the `n` bytes at `p` have been set to `b`.
abbrev pub filled : Memory → ℕ → ℕ → ℕ → Memory
filled m p b n a = if leb p a && ltb a (p + n) then b else m a

filled-filled :
    (m : Memory) (p b k j : ℕ) → filled (filled m p b k) (p + k) b j ≡ filled m p b (k + j)
filled-filled m p b k j = fun_ext λ a. ground arith

update-filled : (m : Memory) (p b : ℕ) → update m p b ≡ filled m p b 1
update-filled m p b = fun_ext λ a. ground arith

store-replicate : (k : ℕ) (m : Memory) (p b : ℕ) → store m p (replicate k b) ≡ filled m p b k
store-replicate zero m p b = fun_ext λ a. ground arith
store-replicate (suc k) m p b =
    store-replicate k (update m p b) (p + 1) b
    ∙ ap (λ w. filled w (p + 1) b k) (update-filled m p b)
    ∙ filled-filled m p b 1 k
    ∙ ap (filled m p b) (omega arith)

repeated : (b : ℕ) → b < 256 → 0x0101_0101_0101_0101 * b % 2 ^ 64 ≡ 0x0101_0101_0101_0101 * b
repeated b h = omega arith

-- Each byte of the repeated word is the byte that it repeats.
word_bytes_repeated :
    (b : ℕ) → b < 256 → word_bytes (0x0101_0101_0101_0101 * b % 2 ^ 64) ≡ replicate 8 b
unfolding word_bytes
word_bytes_repeated b h = rw (repeated b h) (ground arith)

byte_fill-filled : (n : ℕ) (m : Memory) (p b : ℕ) → byte_fill m p b n ≡ filled m p b n
unfolding byte_fill
byte_fill-filled zero m p b = fun_ext λ a. ground arith
byte_fill-filled (suc n) m p b =
    byte_fill-filled n (update m p b) (p + 1) b
    ∙ ap (λ w. filled w (p + 1) b n) (update-filled m p b)
    ∙ filled-filled m p b 1 n
    ∙ ap (filled m p b) (omega arith)

-- What the three loops have in common: `n` bytes were asked for, and the fill of the first ones is
-- complete where the fill of the `left` bytes at `q` completes all.
align_fill-filled :
    (n : ℕ) (m : Memory) (p b : ℕ)
    → let (m', q, left) = align_fill m p b n in filled m' q b left ≡ filled m p b n
unfolding align_fill
align_fill-filled zero m p b = refl
align_fill-filled (suc n) m p b = elim (Bool-cases (p % 8 == 0)) [
  | inl e ↦ rw e refl
  | inr e ↦ rw e (
      align_fill-filled n (update m p b) (p + 1) b
      ∙ ap (λ w. filled w (p + 1) b n) (update-filled m p b)
      ∙ filled-filled m p b 1 n
      ∙ ap (filled m p b) (omega arith))
]

word_fill-filled :
    (f : ℕ) (m : Memory) (p b n : ℕ)
    → b < 256
    → let (m', q, left) = word_fill f m p (0x0101_0101_0101_0101 * b % 2 ^ 64) n in
      filled m' q b left ≡ filled m p b n
unfolding word_fill
word_fill-filled zero m p b n h = refl
word_fill-filled (suc f) m p b n h = elim (Bool-cases (leb 8 n)) [
  | inl e ↦ rw e (
      word_fill-filled f _ (p + 8) b (n - 8) h
      ∙ ap (λ w. filled w (p + 8) b (n - 8))
          (ap (store m p) (word_bytes_repeated b h) ∙ store-replicate 8 m p b)
      ∙ filled-filled m p b 8 (n - 8)
      ∙ ap (filled m p b) (ground arith))
  | inr e ↦ rw e refl
]

-- memset sets the `n` bytes at `s` to the low byte of `c`, and leaves every other byte as it was.
pub memset-filled : (m : Memory) (s c n : ℕ) → memset m s c n ≡ filled m s (c % 256) n
unfolding memset
memset-filled m s c n =
    let b = c % 256 in
    let (m₁, p₁, n₁) = align_fill m s b n in
    let (m₂, p₂, n₂) = word_fill n₁ m₁ p₁ (0x0101_0101_0101_0101 * b % 2 ^ 64) n₁ in
    byte_fill-filled n₂ m₂ p₂ b
    ∙ word_fill-filled n₁ m₁ p₁ b n₁ (omega arith)
    ∙ align_fill-filled n m s b
