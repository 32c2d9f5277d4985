-- ===== src/Stdio/Delivery.antt =====
-- What is written to a stream reaches its descriptor, each byte once and in order.
use racccoon.Base.{
  ℕ, zero, suc, ◌+◌, ◌%◌, ◌≤◌, ◌<◌, ◌≡◌, refl, sym, ap, ◌∙◌, subst, inl, inr, true, false, ◌&&◌,
  ◌||◌, [], ◌∷◌, ◌++◌, Option, some, ◌==◌, if◌then◌else◌, length, take, drop, arith, Bool-cases,
  length-append, length-drop, append-nil, append_assoc, AreBytes,
}
use racccoon.Stdio.{
  Bytes, Device, is_line, is_unbuffered, Stream, reading, send_loop, flushed, flush_write, bufsiz,
  ensure_buf, put_ensured, put_unbuffered, store_byte, put_result, put_buffered, fputc, fwrite,
  put_next, counted,
}

-- The device takes a part of what it is given, of one byte at least, and keeps the bytes in order:
-- `sent` is what it has taken.
pub record Accepts (dv : Device) (sent : dv.World → Bytes) : Type 0 where
  pub accepts :
      (w : dv.World) (b : ℕ) (bs : Bytes)
      → (k : ℕ) × ((dv.send w (b ∷ bs)).1 ≡ some (suc k))
        × (suc k ≤ length (b ∷ bs))
        × (sent (dv.send w (b ∷ bs)).0 ≡ sent w ++ take (suc k) (b ∷ bs))

take-append-drop : (k : ℕ) (xs : Bytes) → take k xs ++ drop k xs ≡ xs
take-append-drop zero xs = refl
take-append-drop (suc k) [] = refl
take-append-drop (suc k) (x ∷ xs) = ap (λ u. x ∷ u) (take-append-drop k xs)

module _ (dv : Device) (sent : dv.World → Bytes) (law : Accepts dv sent) where
  send_loop-sends :
      (f : ℕ) (w : dv.World) (bs : Bytes)
      → length bs ≤ f
      → (w' : dv.World) × (send_loop dv f w bs ≡ some (w', true)) × (sent w' ≡ sent w ++ bs)
  unfolding send_loop
  send_loop-sends f w [] h = (w, refl, sym (append-nil (sent w)))
  send_loop-sends zero w (b ∷ bs) h = absurd (omega arith)
  send_loop-sends (suc f) w (b ∷ bs) h =
      let (k, e, le, took) = law.accepts w b bs in
      let w₁ = (dv.send w (b ∷ bs)).0 in
      let (w', ends, all) =
        send_loop-sends f w₁ (drop (suc k) (b ∷ bs))
          (omega (arith, length-drop (suc k) (b ∷ bs))) in
      rw (send_loop, e)
        (
          w',
          ends,
          all
              ∙ ap (λ u. u ++ drop (suc k) (b ∷ bs)) took
              ∙ append_assoc (sent w) (take (suc k) (b ∷ bs)) (drop (suc k) (b ∷ bs))
              ∙ ap (λ u. sent w ++ u) (take-append-drop (suc k) (b ∷ bs)),
        )

  -- A flush hands all the pending bytes to the device.
  pub flush_write-sends :
      (s : Stream dv.World)
      → (w : dv.World) × (flush_write dv s
          ≡ some (
            record s { position = s.position + length s.pending; pending = []; world = w },
            true,
          ))
        × (sent w ≡ sent s.world ++ s.pending)
  unfolding flush_write
  flush_write-sends s =
      let (w, e, all) = send_loop-sends (length s.pending) s.world s.pending (omega arith) in
      (w, ap (flushed dv s) e, all)

  -- A stream that only writes, and whose buffer, where it has one yet, has room.
  pub record IsWriting (s : Stream dv.World) : Type 0 where
    pub not_reading : reading dv s ≡ false
    pub room : s.has_buf ≡ true → length s.pending < s.bufcap
    pub fresh : s.has_buf ≡ false → s.pending ≡ []
    pub inside : s.overrun ≡ false
    pub direct : is_unbuffered s.bufmode ≡ true → s.pending ≡ []

  -- What the device has, and what it has still to get.
  abbrev pub output : Stream dv.World → Bytes
  output s = sent s.world ++ s.pending

  pub record HasPut (s : Stream dv.World) (bs : Bytes) {R : Type 0} (r : R)
      (o : Option (Stream dv.World × R)) : Type 0 where
    pub after : Stream dv.World
    pub ends : o ≡ some (after, r)
    pub writing : IsWriting after
    pub contents : output after ≡ output s ++ bs

  fputc_quiet :
      (s : Stream dv.World) (c : ℕ)
      → reading dv s ≡ false
      → fputc dv s c ≡ (
          if is_unbuffered s.bufmode
          then put_unbuffered dv s c
          else put_ensured dv c (ensure_buf dv s))
  unfolding fputc
  fputc_quiet s c e = rw (fputc, e) refl

  put_unbuffered-HasPut :
      (s : Stream dv.World) (c : ℕ)
      → IsWriting s
      → s.pending ≡ []
      → HasPut s (c % 256 ∷ []) (some (c % 256)) (put_unbuffered dv s c)
  put_unbuffered-HasPut s c ok direct =
      let (k, e, le, took) = law.accepts s.world (c % 256) [] in
      let one : k ≡ 0 = omega arith in
      let e₁ : (dv.send s.world (c % 256 ∷ [])).1 ≡ some 1 = (rw one at e) in
      let took₁ : sent (dv.send s.world (c % 256 ∷ [])).0 ≡ sent s.world ++ c % 256 ∷ [] =
        (rw one at took) in
      record {
        after = record s { position = s.position + 1; world = (dv.send s.world (c % 256 ∷ [])).0 };
        ends = rw (put_unbuffered, e₁) refl;
        writing = record {
          not_reading = ok.not_reading;
          room = ok.room;
          fresh = ok.fresh;
          inside = ok.inside;
          direct = ok.direct;
        };
        contents =
            rw (direct, took₁)
              (append-nil _ ∙ ap (λ u. u ++ c % 256 ∷ []) (sym (append-nil (sent s.world))));
      }

  put_buffered-HasPut :
      (s : Stream dv.World) (c : ℕ)
      → IsWriting s
      → s.has_buf ≡ true
      → is_unbuffered s.bufmode ≡ false
      → HasPut s (c % 256 ∷ []) (some (c % 256)) (put_buffered dv s c)
  unfolding put_buffered
  put_buffered-HasPut s c ok has buffered =
      let s₁ = store_byte dv s c in
      let inside₁ : s₁.overrun ≡ false = ground (arith, ok.inside, ok.room has) in
      let longer : length s₁.pending ≡ length s.pending + 1 =
        length-append s.pending (c % 256 ∷ []) in
      elim (Bool-cases (length s₁.pending == s.bufcap || (is_line s.bufmode && c == 10))) [
        | inl t ↦
            let (w, e, all) = flush_write-sends s₁ in
            record {
              after = record s₁ {
                position = s.position + length s₁.pending;
                pending = [];
                world = w;
              };
              ends = rw (put_buffered, t) (ap (put_result dv c) e);
              writing = record {
                not_reading = ok.not_reading;
                room = λ _. omega (arith, ok.room has);
                fresh = λ _. refl;
                inside = inside₁;
                direct = λ _. refl;
              };
              contents =
                  append-nil (sent w)
                  ∙ all
                  ∙ sym (append_assoc (sent s.world) s.pending (c % 256 ∷ []));
            }
        | inr t ↦ record {
          after = s₁;
          ends = rw (put_buffered, t) refl;
          writing = record {
            not_reading = ok.not_reading;
            room = λ _. ground (arith, ok.room has, longer);
            fresh = λ u. absurd (ground (arith, has));
            inside = inside₁;
            direct = λ u. absurd (ground arith);
          };
          contents = sym (append_assoc (sent s.world) s.pending (c % 256 ∷ []));
        }
      ]

  fwrite_more :
      (s s' s'' : Stream dv.World) (c n b : ℕ) (cs : Bytes)
      → fputc dv s c ≡ some (s', some b)
      → fwrite dv s' cs ≡ some (s'', n)
      → fwrite dv s (c ∷ cs) ≡ some (s'', suc n)
  unfolding fwrite
  fwrite_more s s' s'' c n b cs e f = ap (put_next dv (λ s'. fwrite dv s' cs)) e ∙ ap (counted dv) f

  ensure_buf_has : (s : Stream dv.World) → s.has_buf ≡ true → ensure_buf dv s ≡ (s, true)
  unfolding ensure_buf
  ensure_buf_has s has =
      ap
        (λ b.
          if b
          then (s, true)
          else if dv.room s.world
          then (record s { has_buf = true; bufcap = bufsiz }, true)
          else (record s { err = true }, false))
        has

  module _ (granted : (w : dv.World) → dv.room w ≡ true) where
    put_ensured-HasPut :
        (s : Stream dv.World) (c : ℕ)
        → IsWriting s
        → is_unbuffered s.bufmode ≡ false
        → HasPut s (c % 256 ∷ []) (some (c % 256)) (put_ensured dv c (ensure_buf dv s))
    unfolding ensure_buf
    put_ensured-HasPut s c ok buffered = elim (Bool-cases s.has_buf) [
      | inl has ↦
          subst (λ r. HasPut s (c % 256 ∷ []) (some (c % 256)) (put_ensured dv c r))
            (sym (ensure_buf_has s has)) (put_buffered-HasPut s c ok has buffered)
      | inr has ↦
          let s₁ : Stream dv.World = record s { has_buf = true; bufcap = bufsiz } in
          let none_pending = ok.fresh has in
          let ok₁ : IsWriting s₁ = record {
            not_reading = ok.not_reading;
            room = λ _. omega (arith, ap length none_pending);
            fresh = λ u. none_pending;
            inside = ok.inside;
            direct = ok.direct;
          } in
          let r = put_buffered-HasPut s₁ c ok₁ refl buffered in
          rw (ensure_buf, has, granted s.world)
            (record { after = r.after; ends = r.ends; writing = r.writing; contents = r.contents })
    ]

    fputc-HasPut :
        (s : Stream dv.World) (c : ℕ)
        → IsWriting s
        → HasPut s (c % 256 ∷ []) (some (c % 256)) (fputc dv s c)
    fputc-HasPut s c ok = elim (Bool-cases (is_unbuffered s.bufmode)) [
      | inl u ↦
          subst (HasPut s (c % 256 ∷ []) (some (c % 256)))
            (sym (fputc_quiet s c ok.not_reading ∙ rw u refl))
            (put_unbuffered-HasPut s c ok (ok.direct u))
      | inr u ↦
          subst (HasPut s (c % 256 ∷ []) (some (c % 256)))
            (sym (fputc_quiet s c ok.not_reading ∙ rw u refl)) (put_ensured-HasPut s c ok u)
    ]

    -- On a device each write to which takes some of the first bytes that it is given, one at least, and
    -- where malloc gives a buffer: fwrite of bytes puts them all, to a stream that has nothing to read,
    -- whose buffer, where it has one yet, has room and was not overrun, and which has nothing pending
    -- where it is unbuffered. What the device has got and the bytes that are pending have grown by them,
    -- in order, and the same holds of the stream again.
    pub fwrite-HasPut :
        (s : Stream dv.World) (bs : Bytes)
        → IsWriting s
        → AreBytes bs
        → HasPut s bs (length bs) (fwrite dv s bs)
    unfolding fwrite
    fwrite-HasPut s [] ok small = record {
      after = s;
      ends = refl;
      writing = ok;
      contents = sym (append-nil (output s));
    }
    fwrite-HasPut s (c ∷ cs) ok small =
        let first = fputc-HasPut s c ok in
        let rest = fwrite-HasPut first.after cs first.writing small.1 in
        let same : c % 256 ≡ c = omega arith in
        record {
          after = rest.after;
          ends =
              fwrite_more s first.after rest.after c (length cs) (c % 256) cs first.ends rest.ends;
          writing = rest.writing;
          contents =
              rest.contents
              ∙ ap (λ u. u ++ cs) first.contents
              ∙ append_assoc (output s) (c % 256 ∷ []) cs
              ∙ ap (λ b. output s ++ b ∷ cs) same;
        }
