-- ===== src/Stdlib/Numbers/RoundTrip.antt =====
-- strtoull reads back what utoa wrote.
use racccoon.Base.{
  ℕ, zero, suc, ◌+◌, ◌*◌, ◌/◌, ◌%◌, ◌^◌, ◌≤◌, ◌<◌, ◌≡◌, refl, ap, ◌∙◌, Bool, true, false, not, ◌||◌,
  [], ◌∷◌, ◌==◌, arith, inl, inr, Bool-cases,
}
use native.Mathlib.Nat.{mod-lt, div-add-mod', div-lt_self, mod-eq_of_lt}
use racccoon.Stdlib.Characters.{isspace}
use racccoon.Stdlib.Numbers.{
  Bytes, digit_val, skip_spaces, sign, base_of, digits, strtoull, digit_char, utoa_loop, utoa,
}

digit_val-digit_char : (d upper : ℕ) → d < 16 → digit_val (digit_char d upper) ≡ d
unfolding digit_val digit_char
digit_val-digit_char d upper h = ground arith

AreDigits : ℕ → Bytes → Type 0
AreDigits base [] = Unit
AreDigits base (c ∷ p) = (digit_val c < base) × AreDigits base p

module _ (base upper : ℕ) (low : 2 ≤ base) (high : base ≤ 16) where
  next-digit : (v : ℕ) → digit_val (digit_char (v % base) upper) ≡ v % base
  next-digit v =
      let small : v % base < base = mod-lt v (omega arith) in
      digit_val-digit_char (v % base) upper (omega arith)

  utoa_loop-AreDigits :
      (f v : ℕ) (p : Bytes) → AreDigits base p → AreDigits base (utoa_loop f v base upper p)
  unfolding utoa_loop AreDigits
  utoa_loop-AreDigits zero v p h = h
  utoa_loop-AreDigits (suc f) v p h = elim (Bool-cases (v == 0)) [
    | inl e ↦ rw (utoa_loop, e) h
    | inr e ↦
        let small : v % base < base = mod-lt v (omega arith) in
        rw (utoa_loop, e)
          (utoa_loop-AreDigits f (v / base) (digit_char (v % base) upper ∷ p)
            (omega (arith, next-digit v), h))
  ]

  utoa-AreDigits : (v : ℕ) → AreDigits base (utoa v base upper)
  unfolding utoa AreDigits digit_val
  utoa-AreDigits v = elim (Bool-cases (v == 0)) [
    | inl e ↦ rw (utoa, e) (omega arith, tt)
    | inr e ↦ rw (utoa, e) (utoa_loop-AreDigits v v [] tt)
  ]

  digits-step :
      (acc : ℕ) (any : Bool) (c : ℕ) (p : Bytes)
      → digit_val c < base
      → digits base acc any (c ∷ p) ≡ digits base ((acc * base + digit_val c) % 2 ^ 64) true p
  unfolding digits
  digits-step acc any c p h = ground arith

  -- The digits that a round of strtoull takes are those that a round of utoa gave.
  digits-utoa_loop :
      (f v : ℕ) (any : Bool) (p : Bytes)
      → v ≤ f
      → v < 2 ^ 64
      → digits base 0 any (utoa_loop f v base upper p) ≡ digits base v (any || not (v == 0)) p
  unfolding utoa_loop
  digits-utoa_loop zero v any p l b =
      let none_left : v ≡ 0 = omega arith in rw none_left (ap (λ a. digits base 0 a p) ground arith)
  digits-utoa_loop (suc f) v any p l b = elim (Bool-cases (v == 0)) [
    | inl e ↦
        let none_left : v ≡ 0 = ground arith in
        rw none_left (ap (λ a. digits base 0 a p) ground arith)
    | inr e ↦
        let less : v / base < v = div-lt_self (ground arith) (omega arith) in
        let c = digit_char (v % base) upper in
        let small : v % base < base = mod-lt v (omega arith) in
        let whole : (v / base * base + digit_val c) % 2 ^ 64 ≡ v =
          ap (λ d. (v / base * base + d) % 2 ^ 64) (next-digit v)
          ∙ ap (λ u. u % 2 ^ 64) (div-add-mod' v base)
          ∙ mod-eq_of_lt b in
        rw (utoa_loop, e)
          (digits-utoa_loop f (v / base) any (c ∷ p) (omega arith) (omega arith)
            ∙ digits-step (v / base) (any || not (v / base == 0)) c p (omega (arith, next-digit v))
            ∙ ap (λ u. digits base u true p) whole
            ∙ ap (λ a. digits base v a p) ground arith)
  ]

  plain-start :
      (p : Bytes)
      → AreDigits base p
      → (skip_spaces p ≡ p) × (sign p ≡ (false, p)) × (base_of base p ≡ (base, p))
  unfolding AreDigits skip_spaces isspace sign base_of digit_val
  plain-start [] h = (refl, refl, ground arith)
  plain-start (c ∷ []) h = (ground arith, ground arith, ground arith)
  plain-start (c ∷ d ∷ []) h = (ground arith, ground arith, ground arith)
  plain-start (c ∷ d ∷ e ∷ p) h = (ground arith, ground arith, ground arith)

  digits-utoa : (v : ℕ) → v < 2 ^ 64 → digits base 0 false (utoa v base upper) ≡ (v, true, [])
  unfolding utoa digits digit_val
  digits-utoa v b = elim (Bool-cases (v == 0)) [
    | inl e ↦
        let none_left : v ≡ 0 = ground arith in
        rw (utoa, e, none_left)
          (digits-step 0 false b'0' [] (omega arith)
            ∙ ap (λ u. digits base u true []) {x = (0 * base + digit_val b'0') % 2 ^ 64} {y = 0}
                (omega arith))
    | inr e ↦
        rw (utoa, e)
          (digits-utoa_loop v v false [] (omega arith) b
            ∙ ap (λ a. digits base v a []) ground arith)
  ]

  -- In a base from 2 to 16, strtoull reads back every number of 64 bits that utoa has written, in
  -- either case, up to the end of the digits.
  pub strtoull-utoa : (v : ℕ) → v < 2 ^ 64 → strtoull (utoa v base upper) base ≡ (v, [])
  unfolding strtoull
  strtoull-utoa v b =
      let (spaces, signs, prefix) = plain-start (utoa v base upper) (utoa-AreDigits v) in
      rw (strtoull, spaces, signs, prefix, digits-utoa v b) refl
