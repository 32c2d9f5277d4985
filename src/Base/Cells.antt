-- ===== src/Base/Cells.antt =====
-- The memory of a process: a byte at every address. A pointer is an address, and `NULL` is
-- `none` in an `Option ℕ`. The C strings in it, as a relation to their bytes.
use Prim.Native.Nat.{ℕ, zero, suc, ◌+◌, ◌<◌, ◌≤◌}
use mathlib.Core.Path.{◌≡◌, refl, ap, ap₂, ◌∙◌, subst}
use mathlib.Core.Logic.{◌≢◌, ◌⊎◌, inl}
use mathlib.Core.List.{List, [], ◌∷◌, ◌++◌}
use native.Mathlib.Omega.{arith}
use racccoon.Base.Lists.{length}
use racccoon.Base.Tests.{◌==◌, if◌then◌else◌}

abbrev pub Memory : Type 0
Memory = ℕ → ℕ

-- `*p = v`
abbrev pub update : Memory → ℕ → ℕ → Memory
update m p v q = if p == q then v else m q

-- The NUL-terminated string at `p` has the bytes `s`, none of which is 0.
abbrev pub IsString : Memory → ℕ → List ℕ → Type 0
IsString m p [] = m p ≡ 0
IsString m p (c ∷ s) = (m p ≡ c) × (c ≢ 0) × IsString m (p + 1) s

pub IsString-at : (m : Memory) (s : List ℕ) {p q : ℕ} → p ≡ q → IsString m p s → IsString m q s
IsString-at m s e h = subst (λ a. IsString m a s) e h

abbrev pub AreBytes : List ℕ → Type 0
AreBytes [] = Unit
AreBytes (c ∷ s) = (c < 256) × AreBytes s

-- The `k` bytes at `p`.
abbrev pub load : Memory → ℕ → ℕ → List ℕ
load m p zero = []
load m p (suc k) = m p ∷ load m (p + 1) k

abbrev pub store : Memory → ℕ → List ℕ → Memory
store m p [] = m
store m p (b ∷ bs) = store (update m p b) (p + 1) bs

abbrev pub AreNonzero : List ℕ → Type 0
AreNonzero [] = Unit
AreNonzero (c ∷ s) = (c ≢ 0) × AreNonzero s

pub store-outside :
    (bs : List ℕ) (m : Memory) (d a : ℕ) → (a < d) ⊎ (d + length bs ≤ a) → store m d bs a ≡ m a
store-outside [] m d a h = refl
store-outside (b ∷ bs) m d a h =
    store-outside bs (update m d b) (d + 1) a (omega arith) ∙ ground arith

-- A string in one memory is one in another that holds the same bytes there.
pub IsString-same :
    (s : List ℕ) (m m' : Memory) (p : ℕ)
    → ((a : ℕ) → p ≤ a → a ≤ p + length s → m' a ≡ m a)
    → IsString m p s
    → IsString m' p s
IsString-same [] m m' p h i = h p (omega arith) (omega arith) ∙ i
IsString-same (c ∷ s) m m' p h i = (
  h p (omega arith) (omega arith) ∙ i.0,
  i.1,
  IsString-same s m m' (p + 1) (λ a l u. h a (omega arith) (omega arith)) i.2,
)

pub store-IsString :
    (s : List ℕ) (m : Memory) (d : ℕ) → AreNonzero s → IsString (store m d (s ++ 0 ∷ [])) d s
store-IsString [] m d h = ground arith
store-IsString (c ∷ s) m d h = (
  store-outside (s ++ 0 ∷ []) (update m d c) (d + 1) d (inl (omega arith)) ∙ ground arith,
  h.0,
  store-IsString s (update m d c) (d + 1) h.1,
)

pub load-same :
    (k : ℕ) (m m' : Memory) (p : ℕ)
    → ((a : ℕ) → p ≤ a → a < p + k → m' a ≡ m a)
    → load m' p k ≡ load m p k
load-same zero m m' p h = refl
load-same (suc k) m m' p h =
    ap₂ (λ b bs. b ∷ bs) (h p (omega arith) (omega arith))
      (load-same k m m' (p + 1) (λ a l u. h a (omega arith) (omega arith)))

pub load-store : (bs : List ℕ) (m : Memory) (p : ℕ) → load (store m p bs) p (length bs) ≡ bs
load-store [] m p = refl
load-store (b ∷ bs) m p =
    ap₂ (λ c cs. c ∷ cs)
      (store-outside bs (update m p b) (p + 1) p (inl (omega arith)) ∙ ground arith)
      (load-store bs (update m p b) (p + 1))

pub length-load : (k : ℕ) (m : Memory) (p : ℕ) → length (load m p k) ≡ k
length-load zero m p = refl
length-load (suc k) m p = ap suc (length-load k m (p + 1))

-- The bytes stand at `p`.
abbrev pub HoldsBytes : Memory → ℕ → List ℕ → Type 0
HoldsBytes m p [] = Unit
HoldsBytes m p (b ∷ bs) = (m p ≡ b) × HoldsBytes m (p + 1) bs

pub HoldsBytes-at :
    (m : Memory) (bs : List ℕ) {p q : ℕ} → p ≡ q → HoldsBytes m p bs → HoldsBytes m q bs
HoldsBytes-at m bs e h = subst (λ a. HoldsBytes m a bs) e h

pub HoldsBytes-behind :
    (xs ys : List ℕ) (m : Memory) (p : ℕ)
    → HoldsBytes m p (xs ++ ys)
    → HoldsBytes m (p + length xs) ys
HoldsBytes-behind [] ys m p h = HoldsBytes-at m ys (omega arith) h
HoldsBytes-behind (x ∷ xs) ys m p h =
    HoldsBytes-at m ys (omega arith) (HoldsBytes-behind xs ys m (p + 1) h.1)

pub store-HoldsBytes : (bs : List ℕ) (m : Memory) (p : ℕ) → HoldsBytes (store m p bs) p bs
store-HoldsBytes [] m p = tt
store-HoldsBytes (b ∷ bs) m p = (
  store-outside bs (update m p b) (p + 1) p (inl (omega arith)) ∙ ground arith,
  store-HoldsBytes bs (update m p b) (p + 1),
)
