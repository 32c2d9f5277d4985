-- ===== src/Printf/Bounded.antt =====
-- The sink of vsnprintf, emit_str of lib/racccoon-libc/src/printf.c.
use racccoon.Base.{
  ℕ, zero, suc, ◌+◌, ◌-◌, ◌≤◌, ◌≡◌, refl, ap, subst, [], ◌∷◌, ◌++◌, ltb, if◌then◌else◌, length,
  take, length-append, append_assoc, append-nil, arith, Bool-cases, inl, inr,
}
use racccoon.Stdlib.Numbers.{Bytes}

-- `dst[0 .. stored)`, the bytes that were stored, `cap` and `len`
pub record StringSink : Type 0 where
  pub dst : Bytes
  pub cap : ℕ
  pub len : ℕ

-- emit_str
pub emit_str : StringSink → Bytes → StringSink
emit_str o [] = o
emit_str o (c ∷ s) =
    emit_str
      (record o { dst = if ltb (o.len + 1) o.cap then o.dst ++ c ∷ [] else o.dst; len = o.len + 1 })
      s

-- The sink has seen the bytes `all`: it counts them, and holds those that leave room for the NUL.
pub record HasSeen (cap : ℕ) (all : Bytes) (o : StringSink) : Type 0 where
  pub capacity : o.cap ≡ cap
  pub counted : o.len ≡ length all
  pub held : o.dst ≡ take (cap - 1) all

take_all : (n : ℕ) (s : Bytes) → length s ≤ n → take n s ≡ s
take_all zero [] h = refl
take_all zero (c ∷ s) h = absurd (omega arith)
take_all (suc n) [] h = refl
take_all (suc n) (c ∷ s) h = ap (λ u. c ∷ u) (take_all n s (omega arith))

take-append : (n : ℕ) (s t : Bytes) → n ≤ length s → take n (s ++ t) ≡ take n s
take-append zero s t h = refl
take-append (suc n) [] t h = absurd (omega arith)
take-append (suc n) (c ∷ s) t h = ap (λ u. c ∷ u) (take-append n s t (omega arith))

-- One byte more.
seen_one :
    (size : ℕ) (all : Bytes) (c : ℕ) (o : StringSink)
    → HasSeen size all o
    → HasSeen size (all ++ c ∷ []) (emit_str o (c ∷ []))
unfolding emit_str
seen_one size all c o h = record {
  capacity = h.capacity;
  counted = omega (arith, h.counted, length-append all (c ∷ []));
  held = elim (Bool-cases (ltb (o.len + 1) o.cap)) [
    | inl e ↦
        rw
          (
            e,
            h.held,
            take_all (size - 1) all (ground (arith, h.counted, h.capacity)),
            take_all (size - 1) (all ++ c ∷ [])
                (ground (arith, h.counted, h.capacity, length-append all (c ∷ []))),
          )
          refl
    | inr e ↦
        rw (e, h.held, take-append (size - 1) all (c ∷ []) (ground (arith, h.counted, h.capacity)))
          refl
  ];
}

-- emit_str counts every byte, and stores the first ones, as long as one byte is left for the NUL.
pub emit_str-HasSeen :
    (size : ℕ) (all s : Bytes) (o : StringSink)
    → HasSeen size all o
    → HasSeen size (all ++ s) (emit_str o s)
unfolding emit_str
emit_str-HasSeen size all [] o h = rw (append-nil all) h
emit_str-HasSeen size all (c ∷ s) o h =
    let rest =
      emit_str-HasSeen size (all ++ c ∷ []) s (emit_str o (c ∷ [])) (seen_one size all c o h) in
    subst (λ u. HasSeen size u (emit_str o (c ∷ s))) (append_assoc all (c ∷ []) s) rest
