-- ===== src/Stdlib/Sort.antt =====
-- qsort of lib/racccoon-libc/src/stdlib.c. The array is a function from the index of an element to the
-- element; `cmp` and the type of the elements are those of the caller. A range is its first index and
-- its length. The scans of the partition end by `cmp` alone, so they take fuel.
pub mod Exchange
pub mod Insertion
pub mod Partition
pub mod Sorted
use racccoon.Base.{
  ℕ, zero, suc, ◌+◌, ◌-◌, ◌/◌, Bool, true, false, ltb, leb, ◌==◌, if◌then◌else◌, Option, none, some,
}
use racccoon.Base.Int.{ℤ, pos, negsuc}

abbrev pub Array : Type 0 → Type 0
Array A = ℕ → A

-- swp
abbrev pub swp : {A : Type 0} → Array A → ℕ → ℕ → Array A
swp a i j k = if k == i then a j else if k == j then a i else a k

abbrev pub is_negative : ℤ → Bool
is_negative (pos n) = false
is_negative (negsuc n) = true

module _ {A : Type 0} (cmp : A → A → ℤ) where
  -- `cmp (x, y) < 0`
  abbrev pub less : A → A → Bool
  less x y = is_negative (cmp x y)

  -- The inner loop for short arrays: the element at `lo + j` goes down
  -- (`j` is one less in the second clause).
  unfoldable pub sink : Array A → ℕ → ℕ → Array A
  sink a lo zero = a
  sink a lo (suc j) = elim (less (a (lo + j + 1)) (a (lo + j))) [
    | true ↦ sink (swp a (lo + j + 1) (lo + j)) lo j
    | false ↦ a
  ]

  -- The outer loop, `k` rounds of it from `i` on.
  unfoldable pub insertion : Array A → ℕ → ℕ → ℕ → Array A
  insertion a lo i zero = a
  insertion a lo i (suc k) = insertion (sink a lo i) lo (i + 1) k

  -- `if (cmp (x, y) < 0) swp (x, y, size);`
  abbrev pub order_two : Array A → ℕ → ℕ → Array A
  order_two a x y = if less (a x) (a y) then swp a x y else a

  -- The median of the first, the middle and the last element goes to the middle.
  unfoldable pub median : Array A → ℕ → ℕ → ℕ → Array A
  median a lo mid hi =
      let b = order_two a mid lo in
      if less (b hi) (b mid) then order_two (swp b hi mid) mid lo else b

  -- `do { i += size; } while (cmp (i, pivot) < 0);`
  unfoldable pub scan_up : ℕ → Array A → ℕ → ℕ → Option ℕ
  scan_up zero a pivot i = none
  scan_up (suc f) a pivot i = elim (less (a (i + 1)) (a pivot)) [
    | true ↦ scan_up f a pivot (i + 1)
    | false ↦ some (i + 1)
  ]

  -- `do { j -= size; } while (cmp (pivot, j) < 0);`, none below the first element
  unfoldable pub scan_down : Array A → ℕ → ℕ → Option ℕ
  scan_down a pivot zero = none
  scan_down a pivot (suc j) = elim (less (a pivot) (a j)) [
    | true ↦ scan_down a pivot j
    | false ↦ some j
  ]

  -- The loop of the partition: the array, and where the pivot goes.
  unfoldable pub partition : ℕ → Array A → ℕ → ℕ → ℕ → Option (Array A × ℕ)
  partition zero a pivot i j = none
  partition (suc f) a pivot i j = elim (scan_up (suc pivot) a pivot i) [
    | none ↦ none
    | some i' ↦ elim (scan_down a pivot j) [
      | none ↦ none
      | some j' ↦ elim (leb j' i') [
        | true ↦ some (a, i')
        | false ↦ partition f (swp a i' j') pivot i' j'
      ]
    ]
  ]

  unfoldable pub split : Array A → ℕ → ℕ → Option (Array A × ℕ)
  split a lo n =
      let hi = lo + (n - 1) in
      let mid = lo + n / 2 in
      let b = swp (median a lo mid hi) mid (hi - 1) in
      elim (partition n b (hi - 1) lo (hi - 1)) [
        | none ↦ none
        | some (c, i) ↦ some (swp c i (hi - 1), i)
      ]

  -- qsort; each half is shorter than the array, so `n` rounds are enough.
  unfoldable pub qsort : ℕ → Array A → ℕ → ℕ → Option (Array A)
  qsort f a lo zero = some a
  qsort f a lo (suc zero) = some a
  qsort zero a lo (suc (suc n)) = none
  qsort (suc f) a lo (suc (suc n)) = elim (leb (suc (suc n)) 12) [
    | true ↦ some (insertion a lo 1 (suc n))
    | false ↦ elim (split a lo (suc (suc n))) [
      | none ↦ none
      | some (b, i) ↦ elim (qsort f b lo (i - lo)) [
        | none ↦ none
        | some c ↦ qsort f c (i + 1) (suc (suc n) - (i - lo) - 1)
      ]
    ]
  ]
