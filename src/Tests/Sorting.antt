-- ===== src/Tests/Sorting.antt =====
-- qsort on fourteen numbers, the largest first.
use racccoon.Base.{ℕ, ◌-◌, ◌≡◌, refl, ltb, ◌==◌, if◌then◌else◌, arith}
use racccoon.Base.Int.{ℤ, pos, negsuc}
use racccoon.Stdlib.Sort.{Array, sink, insertion, qsort}
use racccoon.Stdlib.Sort.Insertion.{IsOrder}
use racccoon.Stdlib.Sort.Sorted.{Sorts, qsort-Sorts}

abbrev compare : ℕ → ℕ → ℤ
compare x y = if ltb x y then negsuc 0 else if x == y then pos 0 else pos 1

compare-IsOrder : IsOrder compare
compare-IsOrder = record { one_way = λ x y e. ground arith; goes_on = λ x y z e g. ground arith }

abbrev falling : Array ℕ
falling k = 20 - k

first_two : insertion compare falling 0 1 1 0 ≡ 19
unfolding insertion sink
first_two = refl

qsort-Sorts_example : Sorts compare compare-IsOrder falling 0 14 (qsort compare 14 falling 0 14)
qsort-Sorts_example = qsort-Sorts compare compare-IsOrder 14 14 falling 0 (omega arith)
