-- ===== src/Strings/Scan/Found.antt =====
-- What the scans of `Scan` find, in terms of the bytes of the string.
use racccoon.Base.{
  ℕ, zero, suc, ◌+◌, ◌%◌, ◌<◌, min, ◌≡◌, refl, ap, ◌≢◌, Bool, true, false, Option, none, some, List,
  [], ◌∷◌, ◌++◌, AreBytes, ◌∙◌, arith, length, ◌==◌, if◌then◌else◌, Memory, load, IsString,
  IsString-at,
}
use racccoon.Strings.Scan.{
  is_some, skip_to_nul, strlen, strnlen_from, strnlen, strchr_from, strchr, strrchr_from, strrchr,
  span_from, strspn, strcspn, strpbrk, strpbrk_from, memchr_from, memchr, memrchr_from, memrchr,
}

abbrev pub or_else : Option ℕ → Option ℕ → Option ℕ
or_else none o = o
or_else (some a) o = some a

abbrev pub shift : ℕ → Option ℕ → Option ℕ
shift p none = none
shift p (some i) = some (p + i)

-- The index of the first `b` among the bytes, if there is one.
abbrev pub index_of : ℕ → List ℕ → Option ℕ
index_of b [] = none
index_of b (c ∷ s) = if c == b then some 0 else shift 1 (index_of b s)

abbrev pub contains : ℕ → List ℕ → Bool
contains b [] = false
contains b (c ∷ s) = if c == b then true else contains b s

-- How many of the first bytes are in `set` (`want` is true), or are not.
abbrev pub span : Bool → List ℕ → List ℕ → ℕ
span want set [] = 0
span want set (c ∷ s) =
    if contains c set
    then (if want then suc (span want set s) else 0)
    else (if want then 0 else suc (span want set s))

-- The index of the last one.
abbrev pub last_index_of : ℕ → List ℕ → Option ℕ
last_index_of b [] = none
last_index_of b (c ∷ s) = or_else (shift 1 (last_index_of b s)) (if c == b then some 0 else none)

or_else-none : (o : Option ℕ) → or_else o none ≡ o
or_else-none none = refl
or_else-none (some a) = refl

skip_to_nul_lem :
    (f : ℕ) (m : Memory) (p : ℕ) (s : List ℕ)
    → IsString m p s
    → length s < f
    → skip_to_nul f m p ≡ some (p + length s)
unfolding skip_to_nul
skip_to_nul_lem zero m p s h l = absurd (omega arith)
skip_to_nul_lem (suc f) m p [] h l = ground arith
skip_to_nul_lem (suc f) m p (c ∷ s) h l = ground (arith, skip_to_nul_lem f m (p + 1) s h.2)

-- strlen returns the number of bytes before the NUL.
pub strlen-length :
    (f : ℕ) (m : Memory) (p : ℕ) (s : List ℕ)
    → IsString m p s
    → length s < f
    → strlen f m p ≡ some (length s)
unfolding strlen
strlen-length f m p s h l = rw (skip_to_nul_lem f m p s h l) (ground arith)

strnlen_from_lem :
    (k : ℕ) (m : Memory) (p n : ℕ) (s : List ℕ)
    → IsString m (p + n) s
    → strnlen_from m p n k ≡ n + min k (length s)
unfolding strnlen_from
strnlen_from_lem zero m p n s h = omega arith
strnlen_from_lem (suc k) m p n [] h = ground arith
strnlen_from_lem (suc k) m p n (c ∷ s) h =
    ground (arith, strnlen_from_lem k m p (n + 1) s (IsString-at m s (omega arith) h.2))

-- strnlen returns the length, or `max` where that is less.
pub strnlen-min :
    (m : Memory) (p max : ℕ) (s : List ℕ) → IsString m p s → strnlen m p max ≡ min max (length s)
unfolding strnlen
strnlen-min m p max s h =
    omega (arith, strnlen_from_lem max m p 0 s (IsString-at m s (omega arith) h))

strchr_from_lem :
    (f : ℕ) (m : Memory) (p b : ℕ) (s : List ℕ)
    → IsString m p s
    → length s < f
    → strchr_from f m p b ≡ some (shift p (index_of b (s ++ 0 ∷ [])))
unfolding strchr_from
strchr_from_lem zero m p b s h l = absurd (omega arith)
strchr_from_lem (suc f) m p b [] h l = ground arith
strchr_from_lem (suc f) m p b (c ∷ s) h l = ground (arith, strchr_from_lem f m (p + 1) b s h.2)

-- strchr returns a pointer to the first byte equal to `(char)c`, the terminator included, or NULL
-- where there is none.
pub strchr-index_of :
    (f : ℕ) (m : Memory) (p c : ℕ) (s : List ℕ)
    → IsString m p s
    → length s < f
    → strchr f m p c ≡ some (shift p (index_of (c % 256) (s ++ 0 ∷ [])))
unfolding strchr
strchr-index_of f m p c s h l = strchr_from_lem f m p (c % 256) s h l

strrchr_from_lem :
    (f : ℕ) (m : Memory) (p b : ℕ) (s : List ℕ) (last : Option ℕ)
    → IsString m p s
    → length s < f
    → strrchr_from f m p b last ≡ some (or_else (shift p (last_index_of b (s ++ 0 ∷ []))) last)
unfolding strrchr_from
strrchr_from_lem zero m p b s last h l = absurd (omega arith)
strrchr_from_lem (suc f) m p b [] last h l = ground arith
strrchr_from_lem (suc f) m p b (c ∷ s) last h l =
    ground (arith, strrchr_from_lem f m (p + 1) b s (if m p == b then some p else last) h.2)

-- strrchr returns a pointer to the last byte equal to `(char)c`, the terminator included, or NULL
-- where there is none.
pub strrchr-last_index_of :
    (f : ℕ) (m : Memory) (p c : ℕ) (s : List ℕ)
    → IsString m p s
    → length s < f
    → strrchr f m p c ≡ some (shift p (last_index_of (c % 256) (s ++ 0 ∷ [])))
unfolding strrchr
strrchr-last_index_of f m p c s h l =
    strrchr_from_lem f m p (c % 256) s none h l ∙ ap some (or_else-none _)

index_of-contains :
    (c : ℕ) (set : List ℕ) (p : ℕ)
    → c ≢ 0
    → is_some (shift p (index_of c (set ++ 0 ∷ []))) ≡ contains c set
index_of-contains c [] p nz = ground arith
index_of-contains c (d ∷ set) p nz = ground (arith, index_of-contains c set 1 nz)

-- A byte of a string is found by strchr exactly if it is one of the bytes of the set.
strchr-contains :
    (g : ℕ) (m : Memory) (p c : ℕ) (set : List ℕ)
    → IsString m p set
    → length set < g
    → c < 256
    → c ≢ 0
    → (r : Option ℕ) × (strchr g m p c ≡ some r) × (is_some r ≡ contains c set)
strchr-contains g m p c set h l b nz = (
  _,
  strchr-index_of g m p c set h l,
  ap (λ b. is_some (shift p (index_of b (set ++ 0 ∷ [])))) (omega arith)
      ∙ index_of-contains c set p nz,
)

span_from_lem :
    (want : Bool) (g f : ℕ) (m : Memory) (p q n : ℕ) (s set : List ℕ)
    → IsString m (p + n) s
    → IsString m q set
    → length s < f
    → length set < g
    → AreBytes s
    → span_from want g f m p q n ≡ some (n + span want set s)
unfolding span_from
span_from_lem want g zero m p q n s set h k l lg b = absurd (omega arith)
span_from_lem want g (suc f) m p q n [] set h k l lg b = ground arith
span_from_lem want g (suc f) m p q n (c ∷ s) set h k l lg b =
    let (r, found, means) = strchr-contains g m q c set k lg b.0 h.1 in
    ground (
      arith,
      span_from_lem want g f m p q (n + 1) s set (IsString-at m s (omega arith) h.2) k (omega arith)
          lg b.1,
    )

memchr_from_lem :
    (n : ℕ) (m : Memory) (p b : ℕ) → memchr_from m p b n ≡ shift p (index_of b (load m p n))
unfolding memchr_from
memchr_from_lem zero m p b = refl
memchr_from_lem (suc n) m p b = ground (arith, memchr_from_lem n m (p + 1) b)

-- memchr returns a pointer to the first of the `n` bytes that is equal to `(unsigned char)c`, or NULL
-- where there is none.
pub memchr-index_of :
    (m : Memory) (p c n : ℕ) → memchr m p c n ≡ shift p (index_of (c % 256) (load m p n))
unfolding memchr
memchr-index_of m p c n = memchr_from_lem n m p (c % 256)

-- One byte more at the end is the one found, if it fits.
last_index_of-load :
    (n : ℕ) (m : Memory) (p b : ℕ)
    → shift p (last_index_of b (load m p (suc n)))
      ≡ (if m (p + n) == b then some (p + n) else shift p (last_index_of b (load m p n)))
last_index_of-load zero m p b = ground arith
last_index_of-load (suc n) m p b = ground (arith, last_index_of-load n m (p + 1) b)

memrchr_from_lem :
    (n : ℕ) (m : Memory) (p b : ℕ) → memrchr_from m p b n ≡ shift p (last_index_of b (load m p n))
unfolding memrchr_from
memrchr_from_lem zero m p b = refl
memrchr_from_lem (suc n) m p b =
    ground (arith, memrchr_from_lem n m p b, last_index_of-load n m p b)

-- memrchr returns a pointer to the last of the `n` bytes that is equal to `(unsigned char)c`, or NULL
-- where there is none.
pub memrchr-last_index_of :
    (m : Memory) (p c n : ℕ) → memrchr m p c n ≡ shift p (last_index_of (c % 256) (load m p n))
unfolding memrchr
memrchr-last_index_of m p c n = memrchr_from_lem n m p (c % 256)

-- The three functions that look for the bytes of a set, on strings of bytes.
module _ (f : ℕ) (m : Memory) (p q : ℕ) (s set : List ℕ) (at_p : IsString m p s)
    (at_q : IsString m q set) (fuel : length s < f) (set_fuel : length set < f)
    (bytes : AreBytes s) where
  -- strspn returns the number of first bytes of the string that are all in the set.
  pub strspn-span : strspn f m p q ≡ some (span true set s)
  unfolding strspn
  strspn-span =
      span_from_lem true f f m p q 0 s set (IsString-at m s (omega arith) at_p) at_q fuel set_fuel
        bytes
      ∙ ap some (omega arith)

  -- strcspn returns the number of first bytes of the string of which none is in the set.
  pub strcspn-span : strcspn f m p q ≡ some (span false set s)
  unfolding strcspn
  strcspn-span =
      span_from_lem false f f m p q 0 s set (IsString-at m s (omega arith) at_p) at_q fuel set_fuel
        bytes
      ∙ ap some (omega arith)

strpbrk_from_lem :
    (g f : ℕ) (m : Memory) (p q : ℕ) (s set : List ℕ)
    → IsString m p s
    → IsString m q set
    → length s < f
    → length set < g
    → AreBytes s
    → strpbrk_from g f m p q
      ≡ some (if span false set s == length s then none else some (p + span false set s))
unfolding strpbrk_from
strpbrk_from_lem g zero m p q s set h k l lg b = absurd (omega arith)
strpbrk_from_lem g (suc f) m p q [] set h k l lg b = ground arith
strpbrk_from_lem g (suc f) m p q (c ∷ s) set h k l lg b =
    let (r, found, means) = strchr-contains g m q c set k lg b.0 h.1 in
    ground (arith, strpbrk_from_lem g f m (p + 1) q s set h.2 k (omega arith) lg b.1)

-- strpbrk returns a pointer to the first byte of the string that is in the set: the one at which
-- strcspn stops, or NULL where that is the end of the string.
pub strpbrk-strcspn :
    (f : ℕ) (m : Memory) (p q : ℕ) (s set : List ℕ)
    → IsString m p s
    → IsString m q set
    → length s < f
    → length set < f
    → AreBytes s
    → (n : ℕ) × (strcspn f m p q ≡ some n)
      × (strpbrk f m p q ≡ some (if n == length s then none else some (p + n)))
unfolding strpbrk
strpbrk-strcspn f m p q s set h k l lg b = (
  span false set s,
  strcspn-span f m p q s set h k l lg b,
  strpbrk_from_lem f f m p q s set h k l lg b,
)
