-- ===== src/Stdlib/Sort/Exchange.antt =====
-- Exchanges of elements in a range of an array.
use racccoon.Base.{
  ℕ, ◌≤◌, ◌<◌, ◌≡◌, refl, sym, subst, ◌∙◌, ◌⊎◌, ◌≢◌, inl, inr, ◌==◌, ==_iff, Bool-cases, arith,
}
use racccoon.Stdlib.Sort.{Array, swp}

module _ {A : Type 0} where
  pub swp-left : (a : Array A) (i j : ℕ) → swp a i j i ≡ a j
  swp-left a i j = ground arith

  pub swp-right : (a : Array A) (i j : ℕ) → swp a i j j ≡ a i
  swp-right a i j = ground arith

  pub swp-other : (a : Array A) (i j k : ℕ) → k ≢ i → k ≢ j → swp a i j k ≡ a k
  swp-other a i j k h g = ground arith

  -- An element of the new array is one of the old: its own, or the one at the other place.
  pub swp-cases :
      (a : Array A) (i j k : ℕ)
      → ((k ≡ i) × (swp a i j k ≡ a j))
        ⊎ ((k ≡ j) × (swp a i j k ≡ a i))
        ⊎ ((k ≢ i) × (k ≢ j) × (swp a i j k ≡ a k))
  swp-cases a i j k = elim (Bool-cases (k == i)) [
    | inl e ↦ inl ((==_iff k i).0 e, ground arith)
    | inr e ↦ elim (Bool-cases (k == j)) [
      | inl g ↦ inr (inl ((==_iff k j).0 g, ground arith))
      | inr g ↦ inr (inr (λ q. ground arith, λ q. ground arith, ground arith))
    ]
  ]

  -- `b` comes from `a` by exchanges of elements at the indices from `lo` up to `hi`, `hi` excluded. So
  -- it has the same elements there, as often, and is the same elsewhere.
  pub data Rearranged (lo hi : ℕ) (a : Array A) : Array A → Type 0 where
    same : Rearranged lo hi a a
    exchanged :
        {b : Array A} (i j : ℕ)
        → Rearranged lo hi a b
        → lo ≤ i
        → i < hi
        → lo ≤ j
        → j < hi
        → Rearranged lo hi a (swp b i j)

  pub Rearranged-trans :
      {lo hi : ℕ} {a b c : Array A}
      → Rearranged lo hi a b
      → Rearranged lo hi b c
      → Rearranged lo hi a c
  Rearranged-trans r same = r
  Rearranged-trans r (exchanged i j s l u m v) = exchanged i j (Rearranged-trans r s) l u m v

  pub Rearranged-wider :
      {lo hi lo' hi' : ℕ} {a b : Array A}
      → lo' ≤ lo
      → hi ≤ hi'
      → Rearranged lo hi a b
      → Rearranged lo' hi' a b
  Rearranged-wider h g same = same
  Rearranged-wider h g (exchanged i j s l u m v) =
      exchanged i j (Rearranged-wider h g s) (omega arith) (omega arith) (omega arith) (omega arith)

  pub Rearranged-outside :
      {lo hi : ℕ} {a b : Array A} → Rearranged lo hi a b → (k : ℕ) → (k < lo) ⊎ (hi ≤ k) → b k ≡ a k
  Rearranged-outside same k h = refl
  Rearranged-outside (exchanged {b = b} i j s l u m v) k h =
      swp-other b i j k (λ e. omega (arith, e)) (λ e. omega (arith, e)) ∙ Rearranged-outside s k h

  -- What holds of every element of the range goes on to.
  pub Rearranged-all :
      {lo hi : ℕ} {a b : Array A} (Q : A → Type 0)
      → Rearranged lo hi a b
      → ((k : ℕ) → lo ≤ k → k < hi → Q (a k))
      → (k : ℕ) → lo ≤ k
      → k < hi
      → Q (b k)
  Rearranged-all Q same h k l u = h k l u
  Rearranged-all Q (exchanged {b = b} i j s l u m v) h k l' u' = elim (swp-cases b i j k) [
    | inl (e, q) ↦ subst Q (sym q) (Rearranged-all Q s h j m v)
    | inr (inl (e, q)) ↦ subst Q (sym q) (Rearranged-all Q s h i l u)
    | inr (inr (e, g, q)) ↦ subst Q (sym q) (Rearranged-all Q s h k l' u')
  ]
