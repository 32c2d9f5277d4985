-- ===== src/Strings/Edit/Copying.antt =====
-- strcpy and strcat make the string that they should.
use racccoon.Base.{
  AreNonzero, store-outside, store-IsString, ℕ, zero, suc, ◌+◌, ◌<◌, ◌≡◌, refl, ◌∙◌, inl, ◌⊎◌, List,
  [], ◌∷◌, ◌++◌, some, length, length-append, arith, Memory, update, store, IsString, IsString-at,
}
use racccoon.Strings.Scan.{strlen}
use racccoon.Strings.Scan.Found.{strlen-length}
use racccoon.Strings.Edit.{strcpy, strcat}

-- A store elsewhere keeps a string.
IsString-update :
    (m : Memory) (s : List ℕ) (p a v : ℕ)
    → (a < p) ⊎ (p + length s < a)
    → IsString m p s
    → IsString (update m a v) p s
IsString-update m [] p a v h i = ground arith
IsString-update m (c ∷ s) p a v h i =
    (ground (arith, i.0), i.1, IsString-update m s (p + 1) a v (omega arith) i.2)

strcpy-store :
    (f : ℕ) (m : Memory) (d p : ℕ) (s : List ℕ)
    → IsString m p s
    → length s < f
    → (d + length s < p) ⊎ (p + length s < d)
    → strcpy f m d p ≡ some (store m d (s ++ 0 ∷ []))
unfolding strcpy
strcpy-store zero m d p s h l apart = absurd (omega arith)
strcpy-store (suc f) m d p [] h l apart = ground arith
strcpy-store (suc f) m d p (c ∷ s) h l apart =
    let moved = IsString-update m s (p + 1) d c (omega arith) h.2 in
    let rest = strcpy-store f (update m d c) (d + 1) (p + 1) s moved (omega arith) (omega arith) in
    ground (arith, h.0, h.1, rest)

IsString-AreNonzero : (s : List ℕ) (m : Memory) (p : ℕ) → IsString m p s → AreNonzero s
IsString-AreNonzero [] m p h = tt
IsString-AreNonzero (c ∷ s) m p h = (h.1, IsString-AreNonzero s m (p + 1) h.2)

-- strcpy, of a string that does not overlap its destination, makes the same string there, and changes
-- no other byte.
pub strcpy-IsString :
    (f : ℕ) (m : Memory) (d p : ℕ) (s : List ℕ)
    → IsString m p s
    → length s < f
    → (d + length s < p) ⊎ (p + length s < d)
    → (m' : Memory) × (strcpy f m d p ≡ some m')
      × IsString m' d s
      × ((a : ℕ) → (a < d) ⊎ (d + length s < a) → m' a ≡ m a)
strcpy-IsString f m d p s h l apart = (
  store m d (s ++ 0 ∷ []),
  strcpy-store f m d p s h l apart,
  store-IsString s m d (IsString-AreNonzero s m p h),
  λ a o. store-outside (s ++ 0 ∷ []) m d a (omega (arith, length-append s (0 ∷ []))),
)

-- A string, and another one where its NUL would stand.
IsString-append :
    (m m' : Memory) (t s : List ℕ) (d : ℕ)
    → IsString m d t
    → ((a : ℕ) → (a < d + length t) → m' a ≡ m a)
    → IsString m' (d + length t) s
    → IsString m' d (t ++ s)
IsString-append m m' [] s d h same k = IsString-at m' s (omega arith) k
IsString-append m m' (c ∷ t) s d h same k = (
  same d (omega arith) ∙ h.0,
  h.1,
  IsString-append m m' t s (d + 1) h.2 (λ a o. same a (omega arith))
      (IsString-at m' s (omega arith) k),
)

strcat_found :
    (f n : ℕ) (m : Memory) (d p : ℕ) → strlen f m d ≡ some n → strcat f m d p ≡ strcpy f m (d + n) p
unfolding strcat
strcat_found f n m d p e = rw (strcat, e) refl

-- strcat, of two strings of which the second does not overlap the place of the result, makes the
-- string of the bytes of both.
pub strcat-append :
    (f : ℕ) (m : Memory) (d p : ℕ) (t s : List ℕ)
    → IsString m d t
    → IsString m p s
    → length t < f
    → length s < f
    → (d + length t + length s < p) ⊎ (p + length s < d)
    → (m' : Memory) × (strcat f m d p ≡ some m') × IsString m' d (t ++ s)
strcat-append f m d p t s ht hs lt ls apart =
    let (m', e, made, same) = strcpy-IsString f m (d + length t) p s hs ls (omega arith) in
    (
      m',
      strcat_found f (length t) m d p (strlen-length f m d t ht lt) ∙ e,
      IsString-append m m' t s d ht (λ a o. same a (inl o)) made,
    )
