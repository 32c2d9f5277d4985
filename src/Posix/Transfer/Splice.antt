-- ===== src/Posix/Transfer/Splice.antt =====
-- The content of a file after a write: the bytes from an offset on are replaced, and a gap before the
-- offset is filled with zeros. A write of no bytes changes nothing.
use racccoon.Base.{
  ℕ, zero, suc, ◌+◌, ◌≤◌, ◌≡◌, refl, ap, [], ◌∷◌, ◌++◌, length, take, drop, arith, append-nil,
}
use racccoon.Posix.Server.{Bytes}

-- The bytes from `off` on, of content that goes on as long as it must.
abbrev pub overlay : Bytes → ℕ → Bytes → Bytes
overlay [] zero bs = bs
overlay (c ∷ cs) zero [] = c ∷ cs
overlay (c ∷ cs) zero (b ∷ bs) = b ∷ overlay cs zero bs
overlay [] (suc off) bs = 0 ∷ overlay [] off bs
overlay (c ∷ cs) (suc off) bs = c ∷ overlay cs off bs

abbrev pub splice : Bytes → ℕ → Bytes → Bytes
splice c off [] = c
splice c off (b ∷ bs) = overlay c off (b ∷ bs)

overlay-overlay :
    (off : ℕ) (c a b : Bytes)
    → overlay (overlay c off a) (off + length a) b ≡ overlay c off (a ++ b)
overlay-overlay zero [] [] b = refl
overlay-overlay zero [] (x ∷ a) b =
    let e : 0 + suc (length a) ≡ suc (0 + length a) = omega arith in
    rw e (ap (λ u. x ∷ u) (overlay-overlay zero [] a b))
overlay-overlay zero (y ∷ c) [] b = refl
overlay-overlay zero (y ∷ c) (x ∷ a) b =
    let e : 0 + suc (length a) ≡ suc (0 + length a) = omega arith in
    rw e (ap (λ u. x ∷ u) (overlay-overlay zero c a b))
overlay-overlay (suc off) [] a b =
    let e : suc off + length a ≡ suc (off + length a) = omega arith in
    rw e (ap (λ u. 0 ∷ u) (overlay-overlay off [] a b))
overlay-overlay (suc off) (y ∷ c) a b =
    let e : suc off + length a ≡ suc (off + length a) = omega arith in
    rw e (ap (λ u. y ∷ u) (overlay-overlay off c a b))

-- Writing some bytes, and then more behind them, is writing all of them.
pub splice-splice :
    (off : ℕ) (c a b : Bytes) → splice (splice c off a) (off + length a) b ≡ splice c off (a ++ b)
splice-splice off c [] b = let e : off + 0 ≡ off = omega arith in rw e refl
splice-splice off c (x ∷ a) [] = rw append-nil refl
splice-splice off c (x ∷ a) (y ∷ b) = overlay-overlay off c (x ∷ a) (y ∷ b)

overlay-take : (off : ℕ) (c bs : Bytes) → take (length bs) (drop off (overlay c off bs)) ≡ bs
overlay-take zero [] [] = refl
overlay-take zero [] (b ∷ bs) = ap (λ u. b ∷ u) (overlay-take zero [] bs)
overlay-take zero (x ∷ c) [] = refl
overlay-take zero (x ∷ c) (b ∷ bs) = ap (λ u. b ∷ u) (overlay-take zero c bs)
overlay-take (suc off) [] bs = overlay-take off [] bs
overlay-take (suc off) (x ∷ c) bs = overlay-take off c bs

-- What was written is what stands at the offset.
pub splice-take : (off : ℕ) (c bs : Bytes) → take (length bs) (drop off (splice c off bs)) ≡ bs
splice-take off c [] = refl
splice-take off c (b ∷ bs) = overlay-take off c (b ∷ bs)

length-overlay :
    (off bound : ℕ) (c bs : Bytes)
    → length c ≤ bound
    → off + length bs ≤ bound
    → length (overlay c off bs) ≤ bound
length-overlay zero bound [] bs l h = omega arith
length-overlay zero bound (x ∷ c) [] l h = l
length-overlay zero zero (x ∷ c) (b ∷ bs) l h = absurd (omega arith)
length-overlay zero (suc bound) (x ∷ c) (b ∷ bs) l h =
    let r = length-overlay zero bound c bs (omega arith) (omega arith) in omega (arith, r)
length-overlay (suc off) zero c bs l h = absurd (omega arith)
length-overlay (suc off) (suc bound) [] bs l h =
    let r = length-overlay off bound [] bs (omega arith) (omega arith) in omega (arith, r)
length-overlay (suc off) (suc bound) (x ∷ c) bs l h =
    let r = length-overlay off bound c bs (omega arith) (omega arith) in omega (arith, r)

pub length-splice :
    (off bound : ℕ) (c bs : Bytes)
    → length c ≤ bound
    → off + length bs ≤ bound
    → length (splice c off bs) ≤ bound
length-splice off bound c [] l h = l
length-splice off bound c (b ∷ bs) l h = length-overlay off bound c (b ∷ bs) l h
