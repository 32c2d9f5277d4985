-- ===== src/Stdio/Failure.antt =====
-- What a stream does whose descriptor takes nothing.
use racccoon.Base.{
  ℕ, zero, suc, ◌+◌, ◌%◌, ◌<◌, ◌≡◌, refl, sym, ap, subst, ◌∙◌, inl, inr, true, false, ◌&&◌, ◌||◌,
  [], ◌∷◌, Option, none, some, ◌==◌, length, arith, Bool-cases, length-append,
}
use racccoon.Stdio.{
  Bytes, Device, is_line, is_unbuffered, Stream, reading, send_loop, flushed, flush_write,
  store_byte, put_result, put_buffered, fputc, ensure_buf,
}

module _ (dv : Device) (fails : (w : dv.World) (bs : Bytes) → (dv.send w bs).1 ≡ none) where
  send_loop-fails :
      (f : ℕ) (w : dv.World) (bs : Bytes)
      → 0 < f
      → 0 < length bs
      → send_loop dv f w bs ≡ some ((dv.send w bs).0, false)
  unfolding send_loop
  send_loop-fails f w [] h l = absurd (omega arith)
  send_loop-fails zero w (b ∷ bs) h l = absurd (omega arith)
  send_loop-fails (suc f) w (b ∷ bs) h l = rw (send_loop, fails w (b ∷ bs)) refl

  flush_write-fails :
      (s : Stream dv.World)
      → 0 < length s.pending
      → flush_write dv s
        ≡ some (record s { err = true; world = (dv.send s.world s.pending).0 }, false)
  unfolding flush_write
  flush_write-fails s h =
      ap (flushed dv s) (send_loop-fails (length s.pending) s.world s.pending h h)

  -- What fputc gives on a buffered stream: the byte is stored, whatever becomes of the flush.
  abbrev pub Stores : Stream dv.World → ℕ → Option (Stream dv.World × Option ℕ) → Type 0
  Stores s c o =
      (s' : Stream dv.World) × (r : Option ℕ) × (o ≡ some (s', r))
      × (s'.pending ≡ (store_byte dv s c).pending)
      × (s'.overrun ≡ (store_byte dv s c).overrun)
      × (s'.bufcap ≡ s.bufcap)
      × (s'.bufmode ≡ s.bufmode)
      × (s'.has_buf ≡ s.has_buf)
      × (reading dv s' ≡ reading dv s)

  put_buffered-Stores : (s : Stream dv.World) (c : ℕ) → Stores s c (put_buffered dv s c)
  unfolding put_buffered
  put_buffered-Stores s c =
      let s₁ = store_byte dv s c in
      let some_left : 0 < length s₁.pending =
        omega (arith, length-append s.pending (c % 256 ∷ [])) in
      elim (Bool-cases (length s₁.pending == s.bufcap || (is_line s.bufmode && c == 10))) [
        | inl t ↦ (
          record s₁ { err = true; world = (dv.send s₁.world s₁.pending).0 },
          none,
          rw (put_buffered, t) (ap (put_result dv c) (flush_write-fails s₁ some_left)),
          refl,
          refl,
          refl,
          refl,
          refl,
          refl,
        )
        | inr t ↦
            (s₁, some (c % 256), rw (put_buffered, t) refl, refl, refl, refl, refl, refl, refl)
      ]

  fputc_buffered :
      (s : Stream dv.World) (c : ℕ)
      → reading dv s ≡ false
      → is_unbuffered s.bufmode ≡ false
      → s.has_buf ≡ true
      → fputc dv s c ≡ put_buffered dv s c
  unfolding fputc ensure_buf
  fputc_buffered s c quiet buffered has = rw (fputc, quiet, buffered, ensure_buf, has) refl

  fputc-Stores :
      (s : Stream dv.World) (c : ℕ)
      → reading dv s ≡ false
      → is_unbuffered s.bufmode ≡ false
      → s.has_buf ≡ true
      → Stores s c (fputc dv s c)
  fputc-Stores s c quiet buffered has =
      subst (Stores s c) (sym (fputc_buffered s c quiet buffered has)) (put_buffered-Stores s c)

  -- Where the descriptor takes nothing and a stream that only writes has a buffer with one byte of room
  -- left, the first fputc fills the buffer and the next one stores its byte behind its end.
  pub fputc-overruns :
      (s : Stream dv.World) (c d : ℕ)
      → reading dv s ≡ false
      → is_unbuffered s.bufmode ≡ false
      → s.has_buf ≡ true
      → length s.pending + 1 ≡ s.bufcap
      → (s₁ : Stream dv.World) × (r₁ : Option ℕ) × (s₂ : Stream dv.World) × (r₂ : Option ℕ) × (fputc
            dv s c
          ≡ some (s₁, r₁))
        × (fputc dv s₁ d ≡ some (s₂, r₂))
        × (s₂.overrun ≡ true)
  fputc-overruns s c d quiet buffered has one_left =
      let (s₁, r₁, e₁, p₁, o₁, cap₁, mode₁, has₁, read₁) = fputc-Stores s c quiet buffered has in
      let (s₂, r₂, e₂, p₂, o₂, cap₂, mode₂, has₂, read₂) =
        fputc-Stores s₁ d (read₁ ∙ quiet) (ap is_unbuffered mode₁ ∙ buffered) (has₁ ∙ has) in
      let full : length s₁.pending ≡ s₁.bufcap =
        omega (arith, ap length p₁, length-append s.pending (c % 256 ∷ []), cap₁, one_left) in
      (s₁, r₁, s₂, r₂, e₁, e₂, o₂ ∙ ground (arith, full))
