-- ===== src/Strings/Compare/Order.antt =====
-- What the comparisons of `Compare` mean: equality and the lexicographic order of the bytes.
use racccoon.Base.{
  ℕ, zero, suc, ◌+◌, ◌-◌, ◌<◌, ◌≡◌, refl, ap₂, sym, ◌≢◌, ◌⊎◌, inl, inr, some, List, [], ◌∷◌, arith,
  length, take, ◌==◌, ==_iff, if◌then◌else◌, Memory, IsString, load, Bool-cases,
}
use native.Mathlib.Decide.{dec_lt}
use mathlib.Core.List.{map}
use racccoon.Base.Int.{ℤ, pos, negsuc, sub_ℕ}
use racccoon.Strings.Compare.{memcmp, strcmp, strncmp, lc, strcasecmp, strncasecmp}

-- `s` stands before `t` in the order of a dictionary.
abbrev pub Precedes : List ℕ → List ℕ → Type 0
Precedes s [] = ⊥
Precedes [] (d ∷ t) = Unit
Precedes (c ∷ s) (d ∷ t) = (c < d) ⊎ ((c ≡ d) × Precedes s t)

-- What an `int` says of two strings: less than, equal, greater than zero.
abbrev pub Reads : ℤ → List ℕ → List ℕ → Type 0
Reads (pos zero) s t = s ≡ t
Reads (pos (suc n)) s t = Precedes t s
Reads (negsuc n) s t = Precedes s t

-- The difference at the first place where two strings differ; a string ends with a 0.
abbrev pub diff : List ℕ → List ℕ → ℤ
diff [] [] = pos 0
diff [] (d ∷ t) = sub_ℕ 0 d
diff (c ∷ s) [] = sub_ℕ c 0
diff (c ∷ s) (d ∷ t) = if c == d then diff s t else sub_ℕ c d

abbrev pub AreNonzero : List ℕ → Type 0
AreNonzero [] = Unit
AreNonzero (c ∷ s) = (c ≢ 0) × AreNonzero s

pub IsString-AreNonzero : (m : Memory) (p : ℕ) (s : List ℕ) → IsString m p s → AreNonzero s
IsString-AreNonzero m p [] h = tt
IsString-AreNonzero m p (c ∷ s) h = (h.1, IsString-AreNonzero m (p + 1) s h.2)

Reads-cons : (r : ℤ) (c d : ℕ) (s t : List ℕ) → c ≡ d → Reads r s t → Reads r (c ∷ s) (d ∷ t)
Reads-cons (pos zero) c d s t e h = ap₂ ◌∷◌ e h
Reads-cons (pos (suc n)) c d s t e h = inr (sym e, h)
Reads-cons (negsuc n) c d s t e h = inr (e, h)

sub_ℕ-lt : (a b : ℕ) → a < b → sub_ℕ a b ≡ negsuc (b - a - 1)
sub_ℕ-lt a b h = ground arith

sub_ℕ-gt : (a b : ℕ) → b < a → sub_ℕ a b ≡ pos (suc (a - b - 1))
sub_ℕ-gt a b h = ground arith

Reads-sub_ℕ : (a b : ℕ) (s t : List ℕ) → a ≢ b → Reads (sub_ℕ a b) (a ∷ s) (b ∷ t)
Reads-sub_ℕ a b s t ne = elim (dec_lt a b) [
  | yes h ↦ rw (sub_ℕ-lt a b h) (inl h)
  | no h ↦ rw (sub_ℕ-gt a b (omega arith)) (inl (omega arith))
]

-- The difference tells the order.
pub diff-Reads : (s t : List ℕ) → AreNonzero s → AreNonzero t → Reads (diff s t) s t
diff-Reads [] [] hs ht = refl
diff-Reads [] (d ∷ t) hs ht = rw (sub_ℕ-lt 0 d (omega (arith, ht.0))) tt
diff-Reads (c ∷ s) [] hs ht = rw (sub_ℕ-gt c 0 (omega (arith, hs.0))) tt
diff-Reads (c ∷ s) (d ∷ t) hs ht = elim (Bool-cases (c == d)) [
  | inl e ↦ rw e (Reads-cons (diff s t) c d s t ((==_iff c d).0 e) (diff-Reads s t hs.1 ht.1))
  | inr e ↦ rw e (Reads-sub_ℕ c d s t (ground arith))
]

strcmp-diff :
    (f : ℕ) (m : Memory) (a b : ℕ) (s t : List ℕ)
    → IsString m a s
    → IsString m b t
    → length s < f
    → strcmp f m a b ≡ some (diff s t)
unfolding strcmp
strcmp-diff zero m a b s t hs ht l = absurd (omega arith)
strcmp-diff (suc f) m a b [] [] hs ht l = ground arith
strcmp-diff (suc f) m a b [] (d ∷ t) hs ht l = ground arith
strcmp-diff (suc f) m a b (c ∷ s) [] hs ht l = ground arith
strcmp-diff (suc f) m a b (c ∷ s) (d ∷ t) hs ht l =
    ground (arith, strcmp-diff f m (a + 1) (b + 1) s t hs.2 ht.2)

-- strcmp returns, with enough fuel, a number that tells whether the first string stands before the
-- second in the order of their bytes, is equal to it, or stands after it.
pub strcmp-Reads :
    (f : ℕ) (m : Memory) (a b : ℕ) (s t : List ℕ)
    → IsString m a s
    → IsString m b t
    → length s < f
    → (r : ℤ) × (strcmp f m a b ≡ some r) × Reads r s t
strcmp-Reads f m a b s t hs ht l = (
  diff s t,
  strcmp-diff f m a b s t hs ht l,
  diff-Reads s t (IsString-AreNonzero m a s hs) (IsString-AreNonzero m b t ht),
)

strncmp-diff :
    (n : ℕ) (m : Memory) (a b : ℕ) (s t : List ℕ)
    → IsString m a s
    → IsString m b t
    → strncmp m a b n ≡ diff (take n s) (take n t)
unfolding strncmp
strncmp-diff zero m a b s t hs ht = refl
strncmp-diff (suc n) m a b [] [] hs ht = ground arith
strncmp-diff (suc n) m a b [] (d ∷ t) hs ht = ground arith
strncmp-diff (suc n) m a b (c ∷ s) [] hs ht = ground arith
strncmp-diff (suc n) m a b (c ∷ s) (d ∷ t) hs ht =
    ground (arith, strncmp-diff n m (a + 1) (b + 1) s t hs.2 ht.2)

AreNonzero-take : (n : ℕ) (s : List ℕ) → AreNonzero s → AreNonzero (take n s)
AreNonzero-take zero s h = tt
AreNonzero-take (suc n) [] h = tt
AreNonzero-take (suc n) (c ∷ s) h = (h.0, AreNonzero-take n s h.1)

-- strncmp tells the order of the first `n` bytes of the two strings.
pub strncmp-Reads :
    (n : ℕ) (m : Memory) (a b : ℕ) (s t : List ℕ)
    → IsString m a s
    → IsString m b t
    → Reads (strncmp m a b n) (take n s) (take n t)
strncmp-Reads n m a b s t hs ht = rw (strncmp-diff n m a b s t hs ht) (
    diff-Reads (take n s) (take n t) (AreNonzero-take n s (IsString-AreNonzero m a s hs))
      (AreNonzero-take n t (IsString-AreNonzero m b t ht)))

-- memcmp tells the order of the `n` bytes at the two addresses, zeros among them.
pub memcmp-Reads : (n : ℕ) (m : Memory) (a b : ℕ) → Reads (memcmp m a b n) (load m a n) (load m b n)
unfolding memcmp
memcmp-Reads zero m a b = refl
memcmp-Reads (suc n) m a b = elim (Bool-cases (m a == m b)) [
  | inl e ↦ rw e (
      Reads-cons (memcmp m (a + 1) (b + 1) n) (m a) (m b) _ _ ((==_iff (m a) (m b)).0 e)
        (memcmp-Reads n m (a + 1) (b + 1)))
  | inr e ↦ rw e (Reads-sub_ℕ (m a) (m b) _ _ (ground arith))
]

lc-ne-zero : (c : ℕ) → c ≢ 0 → lc c ≢ 0
unfolding lc
lc-ne-zero c h = ground arith

lc-zero : lc 0 ≡ 0
unfolding lc
lc-zero = refl

strcasecmp-diff :
    (f : ℕ) (m : Memory) (a b : ℕ) (s t : List ℕ)
    → IsString m a s
    → IsString m b t
    → length s < f
    → strcasecmp f m a b ≡ some (diff (map lc s) (map lc t))
unfolding strcasecmp
strcasecmp-diff zero m a b s t hs ht l = absurd (omega arith)
strcasecmp-diff (suc f) m a b [] [] hs ht l = ground (arith, lc-zero)
strcasecmp-diff (suc f) m a b [] (d ∷ t) hs ht l = ground (arith, lc-zero)
strcasecmp-diff (suc f) m a b (c ∷ s) [] hs ht l = ground (arith, lc-zero, lc-ne-zero c)
strcasecmp-diff (suc f) m a b (c ∷ s) (d ∷ t) hs ht l =
    ground (arith, strcasecmp-diff f m (a + 1) (b + 1) s t hs.2 ht.2)

AreNonzero-map-lc : (s : List ℕ) → AreNonzero s → AreNonzero (map lc s)
AreNonzero-map-lc [] h = tt
AreNonzero-map-lc (c ∷ s) h = (lc-ne-zero c h.0, AreNonzero-map-lc s h.1)

-- strcasecmp tells the order of the two strings once their capital letters are made small.
pub strcasecmp-Reads :
    (f : ℕ) (m : Memory) (a b : ℕ) (s t : List ℕ)
    → IsString m a s
    → IsString m b t
    → length s < f
    → (r : ℤ) × (strcasecmp f m a b ≡ some r) × Reads r (map lc s) (map lc t)
strcasecmp-Reads f m a b s t hs ht l = (
  diff (map lc s) (map lc t),
  strcasecmp-diff f m a b s t hs ht l,
  diff-Reads (map lc s) (map lc t) (AreNonzero-map-lc s (IsString-AreNonzero m a s hs))
      (AreNonzero-map-lc t (IsString-AreNonzero m b t ht)),
)

strncasecmp-diff :
    (n : ℕ) (m : Memory) (a b : ℕ) (s t : List ℕ)
    → IsString m a s
    → IsString m b t
    → strncasecmp m a b n ≡ diff (map lc (take n s)) (map lc (take n t))
unfolding strncasecmp
strncasecmp-diff zero m a b s t hs ht = refl
strncasecmp-diff (suc n) m a b [] [] hs ht = ground (arith, lc-zero)
strncasecmp-diff (suc n) m a b [] (d ∷ t) hs ht = ground (arith, lc-zero)
strncasecmp-diff (suc n) m a b (c ∷ s) [] hs ht = ground (arith, lc-zero, lc-ne-zero c)
strncasecmp-diff (suc n) m a b (c ∷ s) (d ∷ t) hs ht =
    ground (arith, strncasecmp-diff n m (a + 1) (b + 1) s t hs.2 ht.2)
