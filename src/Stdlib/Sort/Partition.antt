-- ===== src/Stdlib/Sort/Partition.antt =====
-- The partition of qsort: the scans stay inside the range, and separate what is below the pivot from
-- what is above it.
use racccoon.Base.{
  ℕ, zero, suc, ◌+◌, ◌≤◌, ◌<◌, ◌≡◌, refl, sym, subst, ap, ◌∙◌, ◌≢◌, inl, inr, Bool, true, false,
  ◌==◌, ==_iff, leb, Bool-cases, arith, Option, some,
}
use racccoon.Base.Int.{ℤ}
use racccoon.Stdlib.Sort.{Array, swp, less, scan_up, scan_down, partition}
use racccoon.Stdlib.Sort.Insertion.{IsOrder}
use racccoon.Stdlib.Sort.Exchange.{
  Rearranged, same, exchanged, Rearranged-trans, swp-other, swp-cases,
}

module _ {A : Type 0} (cmp : A → A → ℤ) (order : IsOrder cmp) where
  pub not_below_itself : (x : A) → less cmp x x ≡ false
  not_below_itself x = elim (Bool-cases (less cmp x x)) [ inl e ↦ order.one_way x x e | inr e ↦ e ]

  -- Where a scan stops.
  record HasScannedUp (a : Array A) (q i : ℕ) (o : Option ℕ) : Type 0 where
    stop : ℕ
    ends : o ≡ some stop
    after : i < stop
    inside : stop ≤ q
    here : less cmp (a stop) (a q) ≡ false
    passed : (k : ℕ) → i < k → k < stop → less cmp (a k) (a q) ≡ true

  scan_up-HasScannedUp :
      (f : ℕ) (a : Array A) (q i : ℕ) → i < q → q ≤ f + i → HasScannedUp a q i (scan_up cmp f a q i)
  unfolding scan_up
  scan_up-HasScannedUp zero a q i l h = absurd (omega arith)
  scan_up-HasScannedUp (suc f) a q i l h = elim (Bool-cases (less cmp (a (i + 1)) (a q))) [
    | inr e ↦
        rw (scan_up, e)
          (record {
            stop = i + 1;
            ends = refl;
            after = omega arith;
            inside = omega arith;
            here = e;
            passed = λ k m u. absurd (omega arith);
          })
    | inl e ↦
        let far : i + 1 ≢ q =
          λ x. true≢false (sym e ∙ ap (λ y. less cmp (a y) (a q)) x ∙ not_below_itself (a q)) in
        let r = scan_up-HasScannedUp f a q (i + 1) (ground arith) (omega arith) in
        rw (scan_up, e)
          (record {
            stop = r.stop;
            ends = r.ends;
            after = omega (arith, r.after);
            inside = r.inside;
            here = r.here;
            passed = λ k m u. elim (Bool-cases (k == i + 1)) [
              | inl x ↦ subst (λ y. less cmp (a y) (a q) ≡ true) (sym ((==_iff k (i + 1)).0 x)) e
              | inr x ↦ r.passed k (ground arith) u
            ];
          })
  ]
    where
      true≢false : ◌≡◌ {A = Bool} true false → ⊥
      true≢false e = cc

  record HasScannedDown (a : Array A) (q lo j : ℕ) (o : Option ℕ) : Type 0 where
    stop : ℕ
    ends : o ≡ some stop
    before : stop < j
    inside : lo ≤ stop
    here : less cmp (a q) (a stop) ≡ false
    passed : (k : ℕ) → stop < k → k < j → less cmp (a q) (a k) ≡ true

  scan_down-HasScannedDown :
      (a : Array A) (q lo j : ℕ)
      → lo < j
      → less cmp (a q) (a lo) ≡ false
      → HasScannedDown a q lo j (scan_down cmp a q j)
  unfolding scan_down
  scan_down-HasScannedDown a q lo zero l h = absurd (omega arith)
  scan_down-HasScannedDown a q lo (suc j) l h = elim (Bool-cases (less cmp (a q) (a j))) [
    | inr e ↦
        rw (scan_down, e)
          (record {
            stop = j;
            ends = refl;
            before = omega arith;
            inside = omega arith;
            here = e;
            passed = λ k m u. absurd (omega arith);
          })
    | inl e ↦
        let far : lo ≢ j = λ x. true≢false (sym e ∙ ap (λ y. less cmp (a q) (a y)) (sym x) ∙ h) in
        let r = scan_down-HasScannedDown a q lo j (ground arith) h in
        rw (scan_down, e)
          (record {
            stop = r.stop;
            ends = r.ends;
            before = omega (arith, r.before);
            inside = r.inside;
            here = r.here;
            passed = λ k m u. elim (Bool-cases (k == j)) [
              | inl x ↦ subst (λ y. less cmp (a q) (a y) ≡ true) (sym ((==_iff k j).0 x)) e
              | inr x ↦ r.passed k m (ground arith)
            ];
          })
  ]
    where
      true≢false : ◌≡◌ {A = Bool} true false → ⊥
      true≢false e = cc

  -- What is not above the pivot at `q`, up to `i`, and what is not below it, from `j` on.
  pub record IsParted (a : Array A) (lo q i j : ℕ) : Type 0 where
    pub lower : (k : ℕ) → lo ≤ k → k ≤ i → less cmp (a q) (a k) ≡ false
    pub upper : (k : ℕ) → j ≤ k → k ≤ q → less cmp (a k) (a q) ≡ false

  pub record HasParted (a : Array A) (lo q : ℕ) (o : Option (Array A × ℕ)) : Type 0 where
    pub array : Array A
    pub place : ℕ
    pub ends : o ≡ some (array, place)
    pub after : lo < place
    pub inside : place ≤ q
    pub rearranged : Rearranged lo q a array
    pub lower : (k : ℕ) → lo ≤ k → k < place → less cmp (array q) (array k) ≡ false
    pub upper : (k : ℕ) → place ≤ k → k ≤ q → less cmp (array k) (array q) ≡ false

  -- A round that exchanges two elements.
  exchange-IsParted :
      (a : Array A) (lo q i j i' j' : ℕ)
      → IsParted a lo q i j
      → j ≤ q
      → i < i'
      → i' < j'
      → j' < j
      → less cmp (a i') (a q) ≡ false
      → less cmp (a q) (a j') ≡ false
      → ((k : ℕ) → i < k → k < i' → less cmp (a k) (a q) ≡ true)
      → ((k : ℕ) → j' < k → k < j → less cmp (a q) (a k) ≡ true)
      → IsParted (swp a i' j') lo q i' j'
  exchange-IsParted a lo q i j i' j' s jq l m r up down ups downs =
      let b = swp a i' j' in
      let pivot : b q ≡ a q = swp-other a i' j' q (λ x. omega (arith, x)) (λ x. omega (arith, x)) in
      record {
        lower = λ k lk ki. elim (swp-cases a i' j' k) [
          | inl (e, q') ↦ rw (pivot, q') down
          | inr (inl (e, q')) ↦ absurd (omega (arith, e))
          | inr (inr (e, g, q')) ↦
              rw (pivot, q')
                (elim (Bool-cases (leb k i)) [
                  | inl x ↦ s.lower k lk (ground arith)
                  | inr x ↦ order.one_way (a k) (a q) (ups k (ground arith) (ground arith))
                ])
        ];
        upper = λ k jk kq. elim (swp-cases a i' j' k) [
          | inl (e, q') ↦ absurd (omega (arith, e))
          | inr (inl (e, q')) ↦ rw (pivot, q') up
          | inr (inr (e, g, q')) ↦
              rw (pivot, q')
                (elim (Bool-cases (leb j k)) [
                  | inl x ↦ s.upper k (ground arith) kq
                  | inr x ↦ order.one_way (a q) (a k) (downs k (ground arith) (ground arith))
                ])
        ];
      }

  pub partition-HasParted :
      (f : ℕ) (a : Array A) (lo q i j : ℕ)
      → IsParted a lo q i j
      → lo ≤ i
      → i < j
      → j ≤ q
      → q ≤ f + i
      → HasParted a lo q (partition cmp f a q i j)
  unfolding partition
  partition-HasParted zero a lo q i j s l m h fuel = absurd (omega arith)
  partition-HasParted (suc f) a lo q i j s l m h fuel =
      let u = scan_up-HasScannedUp (suc q) a q i (omega arith) (omega arith) in
      let d = scan_down-HasScannedDown a q lo j (omega arith) (s.lower lo (omega arith) l) in
      elim (Bool-cases (leb d.stop u.stop)) [
        | inl e ↦
            rw (partition, u.ends, d.ends, e)
              (record {
                array = a;
                place = u.stop;
                ends = refl;
                after = omega (arith, u.after);
                inside = u.inside;
                rearranged = same;
                lower = λ k lk ku. elim (Bool-cases (leb k i)) [
                  | inl x ↦ s.lower k lk (ground arith)
                  | inr x ↦ order.one_way (a k) (a q) (u.passed k (ground arith) ku)
                ];
                upper = λ k uk kq. elim (Bool-cases (leb j k)) [
                  | inl x ↦ s.upper k (ground arith) kq
                  | inr x ↦ elim (Bool-cases (k == u.stop)) [
                    | inl y ↦
                        subst (λ z. less cmp (a z) (a q) ≡ false) (sym ((==_iff k u.stop).0 y))
                          u.here
                    | inr y ↦ order.one_way (a q) (a k) (d.passed k (ground arith) (ground arith))
                  ]
                ];
              })
        | inr e ↦
            let b = swp a u.stop d.stop in
            let t =
              exchange-IsParted a lo q i j u.stop d.stop s h u.after (ground arith) d.before u.here
                d.here u.passed d.passed in
            let r =
              partition-HasParted f b lo q u.stop d.stop t (omega (arith, u.after)) (ground arith)
                (omega (arith, d.before)) (omega (arith, u.after)) in
            rw (partition, u.ends, d.ends, e)
              (record {
                array = r.array;
                place = r.place;
                ends = r.ends;
                after = r.after;
                inside = r.inside;
                rearranged =
                    Rearranged-trans
                      (exchanged u.stop d.stop same (omega (arith, u.after))
                        (ground (arith, d.before)) d.inside (omega (arith, d.before)))
                      r.rearranged;
                lower = r.lower;
                upper = r.upper;
              })
      ]
