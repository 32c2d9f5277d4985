-- ===== src/Strings/Move/Copied.antt =====
-- memcpy and memmove copy: the loops of `Move` against the effect of a copy at once.
use racccoon.Base.{
  ℕ, zero, suc, ◌+◌, ◌-◌, ◌%◌, ◌≤◌, ◌≡◌, refl, sym, ◌∙◌, ap, fun_ext, ◌⊎◌, inl, inr, ◌&&◌, ◌||◌,
  arith, leb, ltb, ◌==◌, if◌then◌else◌, Bool-cases, ==_iff, Memory, update, load, store,
}
use racccoon.Strings.Move.{Copy, align_copy, word_copy, byte_copy, memcpy, back_copy, memmove}

-- The memory once the `n` bytes that stood at `s` have been copied to `d`.
abbrev pub copied : Memory → ℕ → ℕ → ℕ → Memory
copied m d s n a = if leb d a && ltb a (d + n) then m (s + (a - d)) else m a

copied-zero : (m : Memory) (d s : ℕ) → copied m d s 0 ≡ m
copied-zero m d s = fun_ext λ a. ground arith

-- A copy of `k` bytes followed by a copy of `j` more.
copied-copied :
    (m : Memory) (d s k j : ℕ)
    → (d ≤ s) ⊎ (s + (k + j) ≤ d)
    → copied (copied m d s k) (d + k) (s + k) j ≡ copied m d s (k + j)
copied-copied m d s k j h = fun_ext λ a. ground arith

-- Storing what was loaded is a copy, whatever the overlap.
store-load :
    (m m' : Memory) (d s k a : ℕ)
    → store m' d (load m s k) a ≡ (if leb d a && ltb a (d + k) then m (s + (a - d)) else m' a)
store-load m m' d s zero a = ground arith
store-load m m' d s (suc k) a = elim (Bool-cases (d == a)) [
  | inl e ↦ ground (arith, store-load m (update m' d (m s)) (d + 1) (s + 1) k a)
  | inr e ↦ ground (arith, store-load m (update m' d (m s)) (d + 1) (s + 1) k a)
]

store-load-copied : (m : Memory) (d s k : ℕ) → store m d (load m s k) ≡ copied m d s k
store-load-copied m d s k = fun_ext λ a. store-load m m d s k a

update-copied : (m : Memory) (d s : ℕ) → update m d (m s) ≡ copied m d s 1
update-copied m d s = fun_ext λ a. ground arith

byte_copy-copied :
    (n : ℕ) (m : Memory) (d s : ℕ) → (d ≤ s) ⊎ (s + n ≤ d) → byte_copy m d s n ≡ copied m d s n
unfolding byte_copy
byte_copy-copied zero m d s h = sym (copied-zero m d s)
byte_copy-copied (suc n) m d s h =
    byte_copy-copied n (update m d (m s)) (d + 1) (s + 1) (omega arith)
    ∙ ap (λ w. copied w (d + 1) (s + 1) n) (update-copied m d s)
    ∙ copied-copied m d s 1 n (omega arith)
    ∙ ap (copied m d s) (omega arith)

back_copy-copied : (n : ℕ) (m : Memory) (d s : ℕ) → s ≤ d → back_copy m d s n ≡ copied m d s n
unfolding back_copy
back_copy-copied zero m d s h = sym (copied-zero m d s)
back_copy-copied (suc n) m d s h = back_copy-copied n _ d s h ∙ fun_ext λ a. ground arith

-- A loop of a copy of `n` bytes from `s` to `d` has done the first `count` of them.
record HasCopied (m : Memory) (d s n : ℕ) (c : Copy) : Type 0 where
  count : ℕ
  mem_eq : c.mem ≡ copied m d s count
  dst_eq : c.dst ≡ d + count
  src_eq : c.src ≡ s + count
  left_eq : c.left + count ≡ n

align_copy-HasCopied :
    (n : ℕ) (m : Memory) (d s : ℕ)
    → (d ≤ s) ⊎ (s + n ≤ d)
    → HasCopied m d s n (align_copy m d s n)
      × (((align_copy m d s n).left ≡ 0) ⊎ ((align_copy m d s n).dst % 8 ≡ 0))
unfolding align_copy
align_copy-HasCopied zero m d s h = (
  record {
    count = 0;
    mem_eq = sym (copied-zero m d s);
    dst_eq = omega arith;
    src_eq = omega arith;
    left_eq = omega arith;
  },
  inl refl,
)
align_copy-HasCopied (suc n) m d s h = elim (Bool-cases (d % 8 == 0)) [
  | inl e ↦ rw e (
    record {
      count = 0;
      mem_eq = sym (copied-zero m d s);
      dst_eq = omega arith;
      src_eq = omega arith;
      left_eq = omega arith;
    },
    inr ((==_iff _ _).0 e),
  )
  | inr e ↦
      let (v, al) = align_copy-HasCopied n (update m d (m s)) (d + 1) (s + 1) (omega arith) in
      rw e (
        record {
          count = suc v.count;
          mem_eq =
              v.mem_eq
              ∙ ap (λ w. copied w (d + 1) (s + 1) v.count) (update-copied m d s)
              ∙ copied-copied m d s 1 v.count (omega (arith, v.left_eq))
              ∙ ap (copied m d s) (omega arith);
          dst_eq = omega arith;
          src_eq = omega arith;
          left_eq = omega arith;
        },
        al,
      )
]

-- A round of the word loop keeps to the copy: the two aligned words are the same or disjoint.
word_step-HasCopied :
    (m : Memory) (d s n : ℕ) (c : Copy)
    → (d + 8 ≤ s) ⊎ ((s + n ≤ d) ⊎ (d ≡ s))
    → 8 ≤ c.left
    → HasCopied m d s n c
    → HasCopied m d s n (record {
      mem = store c.mem c.dst (load c.mem c.src 8);
      dst = c.dst + 8;
      src = c.src + 8;
      left = c.left - 8;
    })
word_step-HasCopied m d s n c h e v = record {
  count = v.count + 8;
  mem_eq =
      store-load-copied c.mem c.dst c.src 8
      ∙ rw (v.mem_eq, v.dst_eq, v.src_eq) (copied-copied m d s v.count 8 (omega arith));
  dst_eq = omega arith;
  src_eq = omega arith;
  left_eq = omega arith;
}

word_copy-HasCopied :
    (f : ℕ) (m : Memory) (d s n : ℕ) (c : Copy)
    → (d + 8 ≤ s) ⊎ ((s + n ≤ d) ⊎ (d ≡ s))
    → HasCopied m d s n c
    → HasCopied m d s n (word_copy f c)
unfolding word_copy
word_copy-HasCopied zero m d s n c h v = v
word_copy-HasCopied (suc f) m d s n c h v = elim (Bool-cases (leb 8 c.left)) [
  | inl e ↦
      rw e (word_copy-HasCopied f m d s n _ h (word_step-HasCopied m d s n c h (ground arith) v))
  | inr e ↦ rw e v
]

byte_tail :
    (m : Memory) (d s n : ℕ) (c : Copy)
    → (d ≤ s) ⊎ (s + n ≤ d)
    → HasCopied m d s n c
    → byte_copy c.mem c.dst c.src c.left ≡ copied m d s n
byte_tail m d s n c h v =
    byte_copy-copied c.left c.mem c.dst c.src (omega arith)
    ∙ pieces
    ∙ ap (copied m d s) (omega arith)
  where
    pieces : copied c.mem c.dst c.src c.left ≡ copied m d s (v.count + c.left)
    pieces = rw (v.mem_eq, v.dst_eq, v.src_eq) (copied-copied m d s v.count c.left (omega arith))

word_copy_none : (f : ℕ) (c : Copy) → c.left ≡ 0 → word_copy f c ≡ c
unfolding word_copy
word_copy_none zero c e = refl
word_copy_none (suc f) c e = elim (Bool-cases (leb 8 c.left)) [
  | inl b ↦ absurd (ground arith)
  | inr b ↦ rw b refl
]

-- The word loop is entered with both pointers aligned, or with nothing left.
words_done :
    (m : Memory) (d s n : ℕ) (c : Copy)
    → (d ≤ s) ⊎ (s + n ≤ d)
    → HasCopied m d s n c
    → (c.left ≡ 0) ⊎ (c.dst % 8 ≡ 0)
    → HasCopied m d s n (if c.src % 8 == 0 then word_copy c.left c else c)
words_done m d s n c h v (inl e) = elim (Bool-cases (c.src % 8 == 0)) [
  | inl b ↦ rw (b, word_copy_none c.left c e) v
  | inr b ↦ rw b v
]
words_done m d s n c h v (inr a) = elim (Bool-cases (c.src % 8 == 0)) [
  | inl e ↦ rw e (word_copy-HasCopied c.left m d s n c (ground arith) v)
  | inr e ↦ rw e v
]

-- Where the destination does not start inside the source, memcpy leaves at `d` the `n` bytes that
-- stood at `s`, and every other byte as it was.
pub memcpy-copied :
    (m : Memory) (d s n : ℕ) → (d ≤ s) ⊎ (s + n ≤ d) → memcpy m d s n ≡ copied m d s n
unfolding memcpy
memcpy-copied m d s n h =
    let (v, al) = align_copy-HasCopied n m d s h in
    byte_tail m d s n _ h (words_done m d s n _ h v al)

-- memmove copies as if through a buffer, however the source and the destination overlap.
pub memmove-copied : (m : Memory) (d s n : ℕ) → memmove m d s n ≡ copied m d s n
unfolding memmove
memmove-copied m d s n = elim (Bool-cases (d == s || n == 0)) [
  | inl e ↦ rw e (fun_ext λ a. ground arith)
  | inr e ↦ rw e (elim (Bool-cases (ltb d s)) [
    | inl l ↦ rw l (memcpy-copied m d s n (ground arith))
    | inr l ↦ rw l (back_copy-copied n m d s (ground arith))
  ])
]
