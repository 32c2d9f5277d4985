-- ===== src/Net/Names/Replies.antt =====
-- The resolver reads nothing behind the end of a reply, whatever the reply is.
use racccoon.Base.{
  ℕ, zero, suc, ◌+◌, ◌%◌, ◌≤◌, ◌<◌, ◌≡◌, refl, ap, ◌∙◌, ◌⊎◌, inl, inr, ltb, leb, ◌==◌, ◌&&◌, ◌||◌,
  not, Bool-cases, Option-cases, Option, none, some, arith, Memory,
}
use racccoon.Net.Names.{
  Skipped, lost, behind, dns_skip, word16, word32, answer, answers, Reply, again, refused, found,
  answered, after_question, read_reply,
}

-- The two memories have the same `len` bytes.
abbrev pub AgreeBelow : ℕ → Memory → Memory → Type 0
AgreeBelow len m m' = (a : ℕ) → a < len → m' a ≡ m a

module _ (len : ℕ) (m m' : Memory) (agree : AgreeBelow len m m') where
  dns_skip-same : (f at : ℕ) → dns_skip f m' len at ≡ dns_skip f m len at
  unfolding dns_skip
  dns_skip-same zero at = refl
  dns_skip-same (suc f) at = elim (Bool-cases (ltb at len)) [
    | inr e ↦ rw (dns_skip, e) refl
    | inl e ↦ rw (dns_skip, e, agree at (ground arith), dns_skip-same f (at + (m at + 1))) refl
  ]

  word16-same : (at : ℕ) → at + 2 ≤ len → word16 m' at ≡ word16 m at
  word16-same at h = rw (agree at (omega arith), agree (at + 1) (omega arith)) refl

  word32-same : (at : ℕ) → at + 4 ≤ len → word32 m' at ≡ word32 m at
  word32-same at h =
      rw
        (
          agree at (omega arith),
          agree (at + 1) (omega arith),
          agree (at + 2) (omega arith),
          agree (at + 3) (omega arith),
        )
        refl

  answer-same :
      (t : ℕ) (rest rest' : Option (Option ℕ))
      → t + 10 ≤ len
      → rest' ≡ rest
      → answer m' len t rest' ≡ answer m len t rest
  answer-same t rest rest' h r =
      rw (word16-same t (omega arith), word16-same (t + 8) (omega arith), r)
        (elim (Bool-cases (word16 m t == 1 && word16 m (t + 8) == 4 && leb (t + 14) len)) [
          | inl e ↦ rw e (ap (λ v. some (some v)) (word32-same (t + 10) (ground arith)))
          | inr e ↦ rw e refl
        ])

  answers-same : (k at : ℕ) → answers m' len k at ≡ answers m len k at
  unfolding answers
  answers-same zero at = refl
  answers-same (suc k) at = elim (Bool-cases (not (ltb 0 at && leb (at + 10) len))) [
    | inl e ↦ rw (answers, e) refl
    | inr e ↦ elim (Option-cases (dns_skip (suc len) m len at)) [
      | inl q ↦ rw (answers, e, dns_skip-same (suc len) at, q) refl
      | inr (lost, q) ↦ rw (answers, e, dns_skip-same (suc len) at, q) refl
      | inr (behind t, q) ↦ elim (Bool-cases (ltb len (t + 10))) [
        | inl g ↦ rw (answers, e, dns_skip-same (suc len) at, q, g) refl
        | inr g ↦
            rw (answers, e, dns_skip-same (suc len) at, q, g)
              (answer-same t _ _ (ground arith) (
                ap (λ v. answers m' len k (t + 10 + v)) (word16-same (t + 8) (ground arith))
                ∙ answers-same k (t + 10 + word16 m (t + 8))))
      ]
    ]
  ]

  after_question-same :
      (s : Option Skipped) → 12 ≤ len → after_question m' len s ≡ after_question m len s
  after_question-same none h = refl
  after_question-same (some lost) h = refl
  after_question-same (some (behind at)) h = ap answered (
      ap (λ k. answers m' len k (at + 4)) (word16-same 6 (omega arith))
      ∙ answers-same (word16 m 6) (at + 4))

  -- What the resolver makes of a reply depends on the bytes of the reply alone: nothing behind its end
  -- is used, whatever lengths and counts the reply claims.
  pub read_reply-same : (q₀ q₁ : ℕ) → read_reply q₀ q₁ m' len ≡ read_reply q₀ q₁ m len
  unfolding read_reply
  read_reply-same q₀ q₁ = elim (Bool-cases (ltb len 12)) [
    | inl e ↦ rw (read_reply, e) refl
    | inr e ↦
        rw
          (
            read_reply,
            e,
            agree 0 (ground arith),
            agree 1 (ground arith),
            agree 3 (ground arith),
            dns_skip-same (suc len) 12,
            after_question-same (dns_skip (suc len) m len 12) (ground arith),
          )
          refl
  ]

Skipped-cases : (s : Skipped) → (s ≡ lost) ⊎ ((t : ℕ) × (s ≡ behind t))
Skipped-cases lost = inl refl
Skipped-cases (behind t) = inr (t, refl)

module _ (m : Memory) (len : ℕ) where
  dns_skip-Returns :
      (f at : ℕ) → 0 < f → len < f + at → (s : Skipped) × (dns_skip f m len at ≡ some s)
  unfolding dns_skip
  dns_skip-Returns zero at z h = absurd (omega arith)
  dns_skip-Returns (suc f) at z h = elim (Bool-cases (ltb at len)) [
    | inr e ↦ rw (dns_skip, e) (lost, refl)
    | inl e ↦ elim (Bool-cases (m at == 0)) [
      | inl n ↦ rw (dns_skip, e, n) (behind (at + 1), refl)
      | inr n ↦ elim (Bool-cases (leb 192 (m at))) [
        | inl c ↦ rw (dns_skip, e, n, c) (behind (at + 2), refl)
        | inr c ↦
            rw (dns_skip, e, n, c)
              (dns_skip-Returns f (at + (m at + 1)) (ground arith) (omega arith))
      ]
    ]
  ]

  answer-Returns :
      (t : ℕ) (rest : Option (Option ℕ))
      → (r : Option ℕ) × (rest ≡ some r)
      → (r : Option ℕ) × (answer m len t rest ≡ some r)
  answer-Returns t rest (r, q) =
      elim (Bool-cases (word16 m t == 1 && word16 m (t + 8) == 4 && leb (t + 14) len)) [
        | inl e ↦ rw e (some (word32 m (t + 10)), refl)
        | inr e ↦ rw e (r, q)
      ]

  answers-Returns : (k at : ℕ) → (r : Option ℕ) × (answers m len k at ≡ some r)
  unfolding answers
  answers-Returns zero at = (none, refl)
  answers-Returns (suc k) at = elim (Bool-cases (not (ltb 0 at && leb (at + 10) len))) [
    | inl e ↦ rw (answers, e) (none, refl)
    | inr e ↦
        let (s, q) = dns_skip-Returns (suc len) at (omega arith) (omega arith) in
        elim (Skipped-cases s) [
          | inl z ↦ rw (answers, e, q, z) (none, refl)
          | inr (t, z) ↦ elim (Bool-cases (ltb len (t + 10))) [
            | inl g ↦ rw (answers, e, q, z, g) (none, refl)
            | inr g ↦
                rw (answers, e, q, z, g)
                  (answer-Returns t _ (answers-Returns k (t + 10 + word16 m (t + 8))))
          ]
        ]
  ]

  after_question-Returns : (s : Skipped) → (r : Reply) × (after_question m len (some s) ≡ some r)
  after_question-Returns lost = (refused, refl)
  after_question-Returns (behind at) =
      let (r, q) = answers-Returns (word16 m 6) (at + 4) in
      elim (Option-cases r) [
        | inl z ↦ rw (q, z) (refused, refl)
        | inr (ip, z) ↦ rw (q, z) (found ip, refl)
      ]

  -- The resolver comes to a result on every reply, of every length, also one whose names do not end.
  pub read_reply-Returns : (q₀ q₁ : ℕ) → (r : Reply) × (read_reply q₀ q₁ m len ≡ some r)
  unfolding read_reply
  read_reply-Returns q₀ q₁ = elim (Bool-cases (ltb len 12 || not (m 0 == q₀) || not (m 1 == q₁))) [
    | inl e ↦ rw (read_reply, e) (again, refl)
    | inr e ↦ elim (Bool-cases (not (m 3 % 16 == 0))) [
      | inl g ↦ rw (read_reply, e, g) (refused, refl)
      | inr g ↦
          let (s, q) = dns_skip-Returns (suc len) 12 (omega arith) (omega arith) in
          rw (read_reply, e, g, q) (after_question-Returns s)
    ]
  ]
