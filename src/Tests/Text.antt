-- ===== src/Tests/Text.antt =====
-- The theorems on string.c, over a small memory.
use racccoon.Base.{
  ℕ, ◌%◌, ◌≡◌, inr, true, List, [], ◌∷◌, ◌++◌, some, arith, Memory, IsString, get_or,
}
use racccoon.Base.Int.{ℤ}
use Prim.Native.Char.{code}
use Prim.Native.String.{String}
use racccoon.Strings.Move.{memcpy, memmove, memset}
use racccoon.Strings.Move.Copied.{copied, memcpy-copied, memmove-copied}
use racccoon.Strings.Move.Filled.{filled, memset-filled}
use racccoon.Strings.Scan.{strspn}
use racccoon.Strings.Scan.Found.{span, strspn-span}
use racccoon.Strings.Compare.{strcmp}
use racccoon.Strings.Compare.Order.{Reads, strcmp-Reads}

abbrev codes : String → List ℕ
codes String.[] = []
codes (String.◌∷◌ c s) = code c ∷ codes s

-- "abcab" at 0, "bc" at 8 and "ABD" at 16; all else is 0.
abbrev small : Memory
small p =
    get_or (codes "abcab" ++ 0 ∷ 0 ∷ 0 ∷ codes "bc" ++ 0 ∷ 0 ∷ 0 ∷ 0 ∷ 0 ∷ 0 ∷ codes "ABD") p 0

at_0 : IsString small 0 (codes "abcab")
at_0 = omega arith

at_8 : IsString small 8 (codes "bc")
at_8 = omega arith

at_16 : IsString small 16 (codes "ABD")
at_16 = omega arith

memcpy-copied_example : memcpy small 24 0 6 ≡ copied small 24 0 6
memcpy-copied_example = memcpy-copied small 24 0 6 (inr (omega arith))

-- The destination starts inside the source.
memmove-copied_example : memmove small 2 0 5 ≡ copied small 2 0 5
memmove-copied_example = memmove-copied small 2 0 5

memset-filled_example : memset small 3 0x141 20 ≡ filled small 3 (0x141 % 256) 20
memset-filled_example = memset-filled small 3 0x141 20

strspn-span_example : strspn 6 small 0 8 ≡ some (span true (codes "bc") (codes "abcab"))
strspn-span_example =
    strspn-span 6 small 0 8 (codes "abcab") (codes "bc") at_0 at_8 (omega arith) (omega arith)
      (omega arith)

strcmp-Reads_example :
    (r : ℤ) × (strcmp 6 small 0 8 ≡ some r) × Reads r (codes "abcab") (codes "bc")
strcmp-Reads_example = strcmp-Reads 6 small 0 8 (codes "abcab") (codes "bc") at_0 at_8 (omega arith)
