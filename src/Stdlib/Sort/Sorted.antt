-- ===== src/Stdlib/Sort/Sorted.antt =====
-- qsort sorts.
use racccoon.Base.{
  ℕ, zero, suc, ◌+◌, ◌-◌, ◌/◌, ◌≤◌, ◌<◌, ◌≡◌, refl, sym, subst, ◌∙◌, ◌⊎◌, ◌≢◌, inl, inr, false,
  ◌==◌, ==_iff, ltb, leb, Bool-cases, arith, Option, some,
}
use racccoon.Base.Int.{ℤ}
use racccoon.Stdlib.Sort.{Array, swp, less, order_two, median, split, insertion, qsort}
use racccoon.Stdlib.Sort.Insertion.{IsOrder, IsSorted, insertion-IsSorted, insertion-Rearranged}
use racccoon.Stdlib.Sort.Exchange.{
  Rearranged, same, exchanged, Rearranged-trans, Rearranged-wider, Rearranged-outside,
  Rearranged-all, swp-left, swp-right, swp-other, swp-cases,
}
use racccoon.Stdlib.Sort.Partition.{not_below_itself, partition-HasParted}

module _ {A : Type 0} (cmp : A → A → ℤ) (order : IsOrder cmp) where
  -- Two elements in order, and the rest as it was.
  record HasOrdered (a : Array A) (x y : ℕ) (b : Array A) : Type 0 where
    rearranged : (lo hi : ℕ) → lo ≤ x → x < hi → lo ≤ y → y < hi → Rearranged lo hi a b
    ordered : less cmp (b x) (b y) ≡ false
    larger : (b x ≡ a x) ⊎ (b x ≡ a y)
    others : (k : ℕ) → k ≢ x → k ≢ y → b k ≡ a k

  order_two-HasOrdered : (a : Array A) (x y : ℕ) → HasOrdered a x y (order_two cmp a x y)
  order_two-HasOrdered a x y = elim (Bool-cases (less cmp (a x) (a y))) [
    | inl e ↦ rw e (record {
      rearranged = λ lo hi l u m v. exchanged x y same l u m v;
      ordered = rw (swp-left a x y, swp-right a x y) (order.one_way (a x) (a y) e);
      larger = inr (swp-left a x y);
      others = swp-other a x y;
    })
    | inr e ↦ rw e (record {
      rearranged = λ lo hi l u m v. same;
      ordered = e;
      larger = inl refl;
      others = λ k g h. refl;
    })
  ]

  record HasMedian (a : Array A) (lo mid hi : ℕ) (b : Array A) : Type 0 where
    rearranged : Rearranged lo (hi + 1) a b
    first : less cmp (b mid) (b lo) ≡ false
    last : less cmp (b hi) (b mid) ≡ false

  median-HasMedian :
      (a : Array A) (lo mid hi : ℕ)
      → lo < mid
      → mid < hi
      → HasMedian a lo mid hi (median cmp a lo mid hi)
  unfolding median
  median-HasMedian a lo mid hi l u =
      let b = order_two cmp a mid lo in
      let r = order_two-HasOrdered a mid lo in
      let ab = r.rearranged lo (hi + 1) (omega arith) (omega arith) (omega arith) (omega arith) in
      elim (Bool-cases (less cmp (b hi) (b mid))) [
        | inr e ↦ rw (median, e) (record { rearranged = ab; first = r.ordered; last = e })
        | inl e ↦
            let c = swp b hi mid in
            let d = order_two cmp c mid lo in
            let t = order_two-HasOrdered c mid lo in
            let top : d hi ≡ b mid =
              t.others hi (λ x. omega (arith, x)) (λ x. omega (arith, x)) ∙ swp-left b hi mid in
            let bottom : c lo ≡ b lo =
              swp-other b hi mid lo (λ x. omega (arith, x)) (λ x. omega (arith, x)) in
            rw (median, e)
              (record {
                rearranged = Rearranged-trans ab (
                    Rearranged-trans
                      (exchanged hi mid same (omega arith) (omega arith) (omega arith)
                        (omega arith))
                      (t.rearranged lo (hi + 1) (omega arith) (omega arith) (omega arith)
                        (omega arith)));
                first = t.ordered;
                last = elim t.larger [
                  | inl q ↦ rw (top, q, swp-right b hi mid) (order.one_way (b hi) (b mid) e)
                  | inr q ↦ rw (top, q, bottom) r.ordered
                ];
              })
      ]

  -- The pivot is parked at `q`, before the last element.
  record HasParked (a : Array A) (lo q hi : ℕ) (b : Array A) : Type 0 where
    rearranged : Rearranged lo (hi + 1) a b
    first : less cmp (b q) (b lo) ≡ false
    last : less cmp (b hi) (b q) ≡ false

  parked-HasParked :
      (a : Array A) (lo mid q hi : ℕ)
      → lo < mid
      → mid < q
      → q < hi
      → HasParked a lo q hi (swp (median cmp a lo mid hi) mid q)
  parked-HasParked a lo mid q hi l m u =
      let b = median cmp a lo mid hi in
      let med = median-HasMedian a lo mid hi l (omega arith) in
      let start = swp-other b mid q lo (λ x. omega (arith, x)) (λ x. omega (arith, x)) in
      let end = swp-other b mid q hi (λ x. omega (arith, x)) (λ x. omega (arith, x)) in
      record {
        rearranged =
            exchanged mid q med.rearranged (omega arith) (omega arith) (omega arith) (omega arith);
        first = rw (swp-right b mid q, start) med.first;
        last = rw (swp-right b mid q, end) med.last;
      }

  record HasSplit (a : Array A) (lo n : ℕ) (o : Option (Array A × ℕ)) : Type 0 where
    array : Array A
    place : ℕ
    ends : o ≡ some (array, place)
    after : lo < place
    inside : place < lo + n
    rearranged : Rearranged lo (lo + n) a array
    lower : (k : ℕ) → lo ≤ k → k < place → less cmp (array place) (array k) ≡ false
    upper : (k : ℕ) → place < k → k < lo + n → less cmp (array k) (array place) ≡ false

  split-HasSplit : (a : Array A) (lo n : ℕ) → 12 < n → HasSplit a lo n (split cmp a lo n)
  unfolding split
  split-HasSplit a lo n large =
      let hi = lo + (n - 1) in
      let q = hi - 1 in
      let mid = lo + n / 2 in
      let b = swp (median cmp a lo mid hi) mid q in
      let park = parked-HasParked a lo mid q hi (omega arith) (omega arith) (omega arith) in
      let r =
        partition-HasParted cmp order n b lo q lo q
          (record {
            lower = λ k l u.
                let only : lo ≡ k = omega arith in
                subst (λ x. less cmp (b q) (b x) ≡ false) only park.first;
            upper = λ k l u.
                let only : q ≡ k = omega arith in
                subst (λ x. less cmp (b x) (b q) ≡ false) only (not_below_itself cmp order (b q));
          })
          (omega arith) (omega arith) (omega arith) (omega arith) in
      let p = r.array in
      let i = r.place in
      let pivot : p q ≡ b q = Rearranged-outside r.rearranged q (inr (omega arith)) in
      let above : p hi ≡ b hi = Rearranged-outside r.rearranged hi (inr (omega arith)) in
      let c = swp p i q in
      rw (split, r.ends)
        (record {
          array = c;
          place = i;
          ends = refl;
          after = r.after;
          inside = omega (arith, r.inside);
          rearranged =
              exchanged i q
                (Rearranged-trans (Rearranged-wider (omega arith) (omega arith) park.rearranged)
                  (Rearranged-wider (omega arith) (omega arith) r.rearranged))
                (omega (arith, r.after)) (omega (arith, r.inside)) (omega arith) (omega arith);
          lower = λ k l u.
              rw
                (
                  swp-left p i q,
                  swp-other p i q k (λ x. omega (arith, x)) (λ x. omega (arith, x, r.inside)),
                )
                (r.lower k l u);
          upper = λ k l u. rw (swp-left p i q) (elim (swp-cases p i q k) [
            | inl (e, g) ↦ absurd (omega (arith, e))
            | inr (inl (e, g)) ↦ rw g (r.upper i (omega arith) r.inside)
            | inr (inr (e, h, g)) ↦ rw g (elim (Bool-cases (ltb k q)) [
              | inl x ↦ r.upper k (omega arith) (ground arith)
              | inr x ↦
                  let only : hi ≡ k = ground arith in
                  subst (λ y. less cmp (p y) (p q) ≡ false) only (rw (pivot, above) park.last)
            ])
          ]);
        })

  -- The array that qsort leaves: the old elements of the range, in order, and the same outside it.
  pub record Sorts (a : Array A) (lo n : ℕ) (o : Option (Array A)) : Type 0 where
    pub result : Array A
    pub ends : o ≡ some result
    pub rearranged : Rearranged lo (lo + n) a result
    pub sorted : IsSorted cmp result lo (lo + n)

  -- Both parts sorted, around the pivot.
  joined-Sorts :
      (a c d : Array A) (lo n : ℕ) (o : Option (Array A × ℕ)) (s : HasSplit a lo n o)
      → Rearranged lo s.place s.array c
      → IsSorted cmp c lo s.place
      → Rearranged (s.place + 1) (lo + n) c d
      → IsSorted cmp d (s.place + 1) (lo + n)
      → IsSorted cmp d lo (lo + n)
  joined-Sorts a c d lo n o s bc left cd right = λ k l u. elim (Bool-cases (ltb k i)) [
    | inl x ↦ elim (Bool-cases (k + 1 == i)) [
      | inl y ↦
          let next : i ≡ k + 1 = sym ((==_iff (k + 1) i).0 y) in
          rw (at_left k (ground arith)) (
            subst (λ z. less cmp (d z) (c k) ≡ false) next
              (rw (at_left i (omega arith), here) (lower k l (ground arith))))
      | inr y ↦
          rw (at_left k (ground arith), at_left (k + 1) (ground arith)) (left k l (ground arith))
    ]
    | inr x ↦ elim (Bool-cases (k == i)) [
      | inl y ↦
          let this : i ≡ k = sym ((==_iff k i).0 y) in
          subst (λ z. less cmp (d (z + 1)) (d z) ≡ false) this
            (rw (at_left i (omega arith), here) (upper (i + 1) (omega arith) (omega (arith, this))))
      | inr y ↦ right k (ground arith) u
    ]
  ]
    where
      i : ℕ
      i = s.place

      here : c i ≡ s.array i
      here = Rearranged-outside bc i (inr (omega arith))

      at_left : (k : ℕ) → k < i + 1 → d k ≡ c k
      at_left k u = Rearranged-outside cd k (inl u)

      lower : (k : ℕ) → lo ≤ k → k < i → less cmp (s.array i) (c k) ≡ false
      lower k l u = Rearranged-all (λ y. less cmp (s.array i) y ≡ false) bc s.lower k l u

      above : (k : ℕ) → i + 1 ≤ k → k < lo + n → less cmp (c k) (s.array i) ≡ false
      above k l u = rw (Rearranged-outside bc k (inr (omega arith))) (s.upper k (omega arith) u)

      upper : (k : ℕ) → i + 1 ≤ k → k < lo + n → less cmp (d k) (s.array i) ≡ false
      upper k l u = Rearranged-all (λ y. less cmp y (s.array i) ≡ false) cd above k l u

  -- qsort ends, and leaves the elements of the array, rearranged by exchanges, in the order of `cmp`,
  -- no element below the one before it, and everything outside the array as it was; with an order for
  -- `cmp`, and fuel for the length of the array.
  pub qsort-Sorts : (f n : ℕ) (a : Array A) (lo : ℕ) → n ≤ f → Sorts a lo n (qsort cmp f a lo n)
  unfolding qsort
  qsort-Sorts f zero a lo h = record {
    result = a;
    ends = refl;
    rearranged = same;
    sorted = λ k l u. absurd (omega arith);
  }
  qsort-Sorts f (suc zero) a lo h = record {
    result = a;
    ends = refl;
    rearranged = same;
    sorted = λ k l u. absurd (omega arith);
  }
  qsort-Sorts zero (suc (suc n)) a lo h = absurd (omega arith)
  qsort-Sorts (suc f) (suc (suc n)) a lo h =
      let m = suc (suc n) in
      elim (Bool-cases (leb m 12)) [
        | inl e ↦
            rw (qsort, e)
              (record {
                result = insertion cmp a lo 1 (suc n);
                ends = refl;
                rearranged =
                    Rearranged-wider (omega arith) (omega arith)
                      (insertion-Rearranged cmp order (suc n) a lo 1);
                sorted = λ k l u.
                    insertion-IsSorted cmp order (suc n) a lo 1 (λ j v w. absurd (omega arith)) k l
                      (omega arith);
              })
        | inr e ↦
            let s = split-HasSplit a lo m (ground arith) in
            let left = s.place - lo in
            let right = m - left - 1 in
            let l = qsort-Sorts f left s.array lo (omega (arith, s.inside)) in
            let r = qsort-Sorts f right l.result (s.place + 1) (omega (arith, s.inside, s.after)) in
            let bc : Rearranged lo s.place s.array l.result =
              Rearranged-wider (omega arith) (omega (arith, s.after)) l.rearranged in
            let cd : Rearranged (s.place + 1) (lo + m) l.result r.result =
              Rearranged-wider (omega arith) (omega (arith, s.after, s.inside)) r.rearranged in
            rw (qsort, e, s.ends, l.ends)
              (record {
                result = r.result;
                ends = r.ends;
                rearranged = Rearranged-trans s.rearranged (
                    Rearranged-trans (Rearranged-wider (omega arith) (omega (arith, s.inside)) bc)
                      (Rearranged-wider (omega (arith, s.after)) (omega arith) cd));
                sorted =
                    joined-Sorts a l.result r.result lo m (split cmp a lo m) s bc
                      (λ k p q. l.sorted k p (omega (arith, s.after))) cd
                      (λ k p q. r.sorted k p (omega (arith, s.after, s.inside)));
              })
      ]
