-- ===== src/Stdlib/Sort/Insertion.antt =====
-- The insertion sort that qsort uses for short arrays.
use racccoon.Base.{
  ℕ, zero, suc, ◌+◌, ◌≤◌, ◌<◌, ◌≡◌, refl, sym, subst, ◌≢◌, inl, inr, true, false, ◌==◌, ==_iff,
  Bool-cases, arith,
}
use racccoon.Base.Int.{ℤ}
use racccoon.Stdlib.Sort.{Array, swp, less, sink, insertion}
use racccoon.Stdlib.Sort.Exchange.{
  Rearranged, same, exchanged, Rearranged-trans, Rearranged-wider, swp-left, swp-right, swp-other,
}

-- What qsort needs of `cmp`: no two elements are below each other, and what is not below goes on.
pub record IsOrder {A : Type 0} (cmp : A → A → ℤ) : Type 0 where
  pub one_way : (x y : A) → less cmp x y ≡ true → less cmp y x ≡ false
  pub goes_on : (x y z : A) → less cmp y x ≡ false → less cmp z y ≡ false → less cmp z x ≡ false

module _ {A : Type 0} (cmp : A → A → ℤ) where
  -- No element from `lo` up to `hi`, `hi` excluded, is below the one before it.
  abbrev pub IsSorted : Array A → ℕ → ℕ → Type 0
  IsSorted a lo hi = (k : ℕ) → lo ≤ k → k + 1 < hi → less cmp (a (k + 1)) (a k) ≡ false

  -- All is sorted but for the element at `p`, which may be below those before it.
  record IsSortedBut (a : Array A) (lo hi p : ℕ) : Type 0 where
    pairs : (k : ℕ) → lo ≤ k → k + 1 < hi → k + 1 ≢ p → less cmp (a (k + 1)) (a k) ≡ false
    around : (k : ℕ) → lo ≤ k → k + 1 ≡ p → p + 1 < hi → less cmp (a (p + 1)) (a k) ≡ false

  module _ (order : IsOrder cmp) where
    -- Exchanging the element with a larger one before it.
    exchange-IsSortedBut :
        (a : Array A) (lo hi k : ℕ)
        → IsSortedBut a lo hi (k + 1)
        → lo ≤ k
        → k + 1 < hi
        → less cmp (a (k + 1)) (a k) ≡ true
        → IsSortedBut (swp a (k + 1) k) lo hi k
    exchange-IsSortedBut a lo hi k s l u e =
        let b = swp a (k + 1) k in
        let up : b (k + 1) ≡ a k = swp-left a (k + 1) k in
        let down : b k ≡ a (k + 1) = swp-right a (k + 1) k in
        let rest = λ (m : ℕ) (g : m ≢ k + 1) (h : m ≢ k). swp-other a (k + 1) k m g h in
        record {
          pairs = λ m lm um d. elim (Bool-cases (m == k)) [
            | inl q ↦
                let is : k ≡ m = sym ((==_iff m k).0 q) in
                subst (λ x. less cmp (b (x + 1)) (b x) ≡ false) is
                  (rw (up, down) (order.one_way (a (k + 1)) (a k) e))
            | inr q ↦ elim (Bool-cases (m == k + 1)) [
              | inl r ↦
                  let is : k + 1 ≡ m = sym ((==_iff m (k + 1)).0 r) in
                  subst (λ x. less cmp (b (x + 1)) (b x) ≡ false) is
                    (rw (up, rest (k + 1 + 1) (λ x. omega (arith, x)) (λ x. omega (arith, x)))
                      (s.around k l refl (omega arith)))
              | inr r ↦
                  rw (rest m (ground arith) (ground arith), rest (m + 1) (ground arith) (λ x. d x))
                    (s.pairs m lm um (ground arith))
            ]
          ];
          around = λ m lm q um.
              rw (up, rest m (λ x. omega (arith, x)) (λ x. omega (arith, x)))
                (subst (λ x. less cmp (a x) (a m) ≡ false) q
                  (s.pairs m lm (omega arith) (λ x. omega (arith, x))));
        }

    sink-stops :
        (a : Array A) (lo j : ℕ)
        → less cmp (a (lo + j + 1)) (a (lo + j)) ≡ false
        → sink cmp a lo (suc j) ≡ a
    unfolding sink
    sink-stops a lo j e = rw (sink, e) refl

    sink-goes_on :
        (a : Array A) (lo j : ℕ)
        → less cmp (a (lo + j + 1)) (a (lo + j)) ≡ true
        → sink cmp a lo (suc j) ≡ sink cmp (swp a (lo + j + 1) (lo + j)) lo j
    unfolding sink
    sink-goes_on a lo j e = rw (sink, e) refl

    sink-IsSorted :
        (a : Array A) (lo hi j : ℕ)
        → IsSortedBut a lo hi (lo + j)
        → lo + j < hi
        → IsSorted (sink cmp a lo j) lo hi
    unfolding sink
    sink-IsSorted a lo hi zero s u = λ k l m. s.pairs k l m (λ x. omega (arith, x))
    sink-IsSorted a lo hi (suc j) s u = elim (Bool-cases (less cmp (a (lo + j + 1)) (a (lo + j)))) [
      | inl e ↦
          subst (λ b. IsSorted b lo hi) (sym (sink-goes_on a lo j e))
            (sink-IsSorted (swp a (lo + j + 1) (lo + j)) lo hi j
              (exchange-IsSortedBut a lo hi (lo + j) (subst (IsSortedBut a lo hi) (omega arith) s)
                (omega arith) (omega arith) e)
              (omega arith))
      | inr e ↦
          subst (λ b. IsSorted b lo hi) (sym (sink-stops a lo j e))
            (λ k l m. elim (Bool-cases (k == lo + j)) [
              | inl q ↦
                  subst (λ x. less cmp (a (x + 1)) (a x) ≡ false) (sym ((==_iff k (lo + j)).0 q)) e
              | inr q ↦ s.pairs k l m (ground arith)
            ])
    ]

    sink-Rearranged :
        (a : Array A) (lo hi j : ℕ) → lo + j < hi → Rearranged lo hi a (sink cmp a lo j)
    unfolding sink
    sink-Rearranged a lo hi zero u = same
    sink-Rearranged a lo hi (suc j) u = elim (Bool-cases (less cmp (a (lo + j + 1)) (a (lo + j)))) [
      | inl e ↦ subst (Rearranged lo hi a) (sym (sink-goes_on a lo j e)) (
          Rearranged-trans
            (exchanged (lo + j + 1) (lo + j) same (omega arith) (omega arith) (omega arith)
              (omega arith))
            (sink-Rearranged (swp a (lo + j + 1) (lo + j)) lo hi j (omega arith)))
      | inr e ↦ subst (Rearranged lo hi a) (sym (sink-stops a lo j e)) same
    ]

    pub insertion-Rearranged :
        (k : ℕ) (a : Array A) (lo i : ℕ) → Rearranged lo (lo + i + k) a (insertion cmp a lo i k)
    unfolding insertion
    insertion-Rearranged zero a lo i = same
    insertion-Rearranged (suc k) a lo i =
        Rearranged-trans (sink-Rearranged a lo (lo + i + suc k) i (omega arith)) (
          Rearranged-wider (omega arith) (omega arith)
            (insertion-Rearranged k (sink cmp a lo i) lo (i + 1)))

    pub insertion-IsSorted :
        (k : ℕ) (a : Array A) (lo i : ℕ)
        → IsSorted a lo (lo + i)
        → IsSorted (insertion cmp a lo i k) lo (lo + i + k)
    unfolding insertion
    insertion-IsSorted zero a lo i s = λ m l u. s m l (omega arith)
    insertion-IsSorted (suc k) a lo i s =
        subst (IsSorted (insertion cmp (sink cmp a lo i) lo (i + 1) k) lo) (omega arith) (
          insertion-IsSorted k (sink cmp a lo i) lo (i + 1) (
            subst (IsSorted (sink cmp a lo i) lo) (omega arith) (
              sink-IsSorted a lo (lo + i + 1) i
                (record {
                  pairs = λ m l u d. s m l (ground arith);
                  around = λ m l q u. absurd (omega arith);
                })
                (omega arith))))
