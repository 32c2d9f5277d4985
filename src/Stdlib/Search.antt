-- ===== src/Stdlib/Search.antt =====
-- bsearch of lib/racccoon-libc/src/stdlib.c. `cmp m` is the result of comparing the key with the
-- element `m`, and the result is the index of an element.
use racccoon.Base.{
  ℕ, zero, suc, ◌+◌, ◌-◌, ◌/◌, ◌≤◌, ◌<◌, ◌≡◌, ◌≢◌, refl, true, false, Option, none, some, ltb,
  arith, inl, inr, ◌⊎◌, Bool-cases,
}
use racccoon.Base.Int.{ℤ, pos, negsuc}

-- The loop, with fuel: the outer option is the fuel, and `n` rounds are enough.
pub bsearch_loop : ℕ → (ℕ → ℤ) → ℕ → ℕ → Option (Option ℕ)
bsearch_loop zero cmp lo hi = none
bsearch_loop (suc f) cmp lo hi = elim (ltb lo hi) [
  | false ↦ some none
  | true ↦
      let m = lo + (hi - lo) / 2 in
      elim (cmp m) [
        | pos zero ↦ some (some m)
        | negsuc e ↦ bsearch_loop f cmp lo m
        | pos (suc e) ↦ bsearch_loop f cmp (m + 1) hi
      ]
]

pub bsearch : (ℕ → ℤ) → ℕ → Option (Option ℕ)
unfolding bsearch_loop
bsearch cmp n = bsearch_loop (suc n) cmp 0 n

abbrev pub Below : ℤ → Type 0
Below z = (n : ℕ) × (z ≡ negsuc n)

abbrev pub Above : ℤ → Type 0
Above z = (n : ℕ) × (z ≡ pos (suc n))

-- The elements stand in order: the key is below all that follow one that it is below, and above all
-- that precede one that it is above.
pub record IsSorted (cmp : ℕ → ℤ) (n : ℕ) : Type 0 where
  pub below : (i j : ℕ) → i ≤ j → j < n → Below (cmp i) → Below (cmp j)
  pub above : (i j : ℕ) → i ≤ j → j < n → Above (cmp j) → Above (cmp i)

ℤ-cases : (z : ℤ) → (z ≡ pos 0) ⊎ (Below z ⊎ Above z)
ℤ-cases (pos zero) = inl refl
ℤ-cases (pos (suc n)) = inr (inr (n, refl))
ℤ-cases (negsuc n) = inr (inl (n, refl))

Below-ne : (z : ℤ) → Below z → z ≢ pos 0
Below-ne z (n, e) h = cc

Above-ne : (z : ℤ) → Above z → z ≢ pos 0
Above-ne z (n, e) h = cc

-- What is found among the elements `lo .. hi - 1`.
abbrev pub Finds : (ℕ → ℤ) → ℕ → ℕ → Option (Option ℕ) → Type 0
Finds cmp lo hi o =
    ((i : ℕ) × (o ≡ some (some i)) × (lo ≤ i) × (i < hi) × (cmp i ≡ pos 0))
    ⊎ ((o ≡ some none) × ((i : ℕ) → lo ≤ i → i < hi → cmp i ≢ pos 0))

bsearch_loop-Finds :
    (f : ℕ) (cmp : ℕ → ℤ) (lo hi n : ℕ)
    → IsSorted cmp n
    → hi ≤ n
    → hi < f + lo
    → 0 < f
    → Finds cmp lo hi (bsearch_loop f cmp lo hi)
unfolding bsearch_loop
bsearch_loop-Finds zero cmp lo hi n sorted l e z = absurd (omega arith)
bsearch_loop-Finds (suc f) cmp lo hi n sorted l e z = elim (Bool-cases (ltb lo hi)) [
  | inr c ↦ rw (bsearch_loop, c) (inr (refl, λ i a b. absurd (ground arith)))
  | inl c ↦
      let m = lo + (hi - lo) / 2 in
      let inside : m < hi = ground arith in
      elim (ℤ-cases (cmp m)) [
        | inl eq ↦ rw (bsearch_loop, c, eq) (inl (m, refl, omega arith, inside, eq))
        | inr (inl (k, lt)) ↦
            rw (bsearch_loop, c, lt)
              (elim (bsearch_loop-Finds f cmp lo m n sorted (omega arith) (omega arith)
                (omega arith)) [
                  | inl (i, r, a, b, h) ↦ inl (i, r, a, omega arith, h)
                  | inr (r, absent) ↦ inr (
                    r,
                    λ i a b. elim (Bool-cases (ltb i m)) [
                      | inl s ↦ absent i a (ground arith)
                      | inr s ↦
                          Below-ne (cmp i) (sorted.below m i (ground arith) (omega arith) (k, lt))
                    ],
                  )
                ])
        | inr (inr (k, gt)) ↦
            rw (bsearch_loop, c, gt)
              (elim (bsearch_loop-Finds f cmp (m + 1) hi n sorted l (omega arith) (omega arith)) [
                | inl (i, r, a, b, h) ↦ inl (i, r, omega arith, b, h)
                | inr (r, absent) ↦ inr (
                  r,
                  λ i a b. elim (Bool-cases (ltb m i)) [
                    | inl s ↦ absent i (ground arith) b
                    | inr s ↦
                        Above-ne (cmp i) (sorted.above i m (ground arith) (omega arith) (k, gt))
                  ],
                )
              ])
      ]
]

-- bsearch, on `n` sorted elements, returns one that is equal to the key, or NULL where none is.
pub bsearch-Finds : (cmp : ℕ → ℤ) (n : ℕ) → IsSorted cmp n → Finds cmp 0 n (bsearch cmp n)
unfolding bsearch
bsearch-Finds cmp n sorted =
    bsearch_loop-Finds (suc n) cmp 0 n n sorted (omega arith) (omega arith) (omega arith)
