-- ===== src/Net/Conversations/Sent.antt =====
-- What send puts into a connection.
use racccoon.Base.{
  ℕ, zero, suc, ◌+◌, ◌-◌, ◌≤◌, ◌<◌, ◌≡◌, refl, sym, ap, subst, ◌∙◌, min, inl, inr, ltb, true,
  Bool-cases, [], ◌∷◌, ◌++◌, Option, some, length, take, drop, append-nil, append_assoc,
  length-take, length-drop, take-take_le, take-add, arith,
}
use racccoon.Posix.Server.{Bytes, NetFiles}
use racccoon.Posix.Table.{Fdent}
use racccoon.Net.Conversations.{is_tcp, netpath, text, send_loop}

take_whole : (xs : Bytes) → take (length xs) xs ≡ xs
take_whole [] = refl
take_whole (x ∷ xs) = ap (λ u. x ∷ u) (take_whole xs)

-- In the worlds `P sent` the bytes `sent` have gone into the conversation. A write to its data file
-- takes some of the first of its bytes, one at least.
pub record TakesSome {W : Type 0} (nf : NetFiles W) (e : Fdent) (P : Bytes → W → Type 0)
    : Type 0 where
  pub takes :
      (w : W) (sent chunk : Bytes)
      → P sent w
      → 0 < length chunk
      → (m : ℕ) × ((nf.write_file w (netpath e.path (text "data")) chunk).1 ≡ some (suc m))
        × (suc m ≤ length chunk)
        × P (sent ++ take (suc m) chunk) (nf.write_file w (netpath e.path (text "data")) chunk).0

module _ {W : Type 0} (nf : NetFiles W) (e : Fdent) (P : Bytes → W → Type 0)
    (law : TakesSome nf e P) (tcp : is_tcp e ≡ true) where
  record HasSent (sent buf : Bytes) (o : Option (W × Option ℕ)) : Type 0 where
    world : W
    ends : o ≡ some (world, some (length buf))
    all : P (sent ++ buf) world

  chunk_at : Bytes → ℕ → Bytes
  chunk_at buf done = take (min (length buf - done) 8072) (drop done buf)

  send_loop-step :
      (f : ℕ) (w : W) (buf : Bytes) (done m : ℕ)
      → ltb done (length buf) ≡ true
      → (nf.write_file w (netpath e.path (text "data")) (chunk_at buf done)).1 ≡ some (suc m)
      → send_loop nf (suc f) w e buf done
        ≡ send_loop nf f
            (nf.write_file w (netpath e.path (text "data")) (chunk_at buf done)).0
            e
            buf
            (done + suc m)
  unfolding send_loop chunk_at
  send_loop-step f w buf done m l g = rw (send_loop, l, g, tcp) refl

  send_loop-HasSent :
      (f : ℕ) (w : W) (sent buf : Bytes) (done : ℕ)
      → P (sent ++ take done buf) w
      → done ≤ length buf
      → length buf < f + done
      → HasSent sent buf (send_loop nf f w e buf done)
  unfolding send_loop chunk_at
  send_loop-HasSent zero w sent buf done ok le l = absurd (omega arith)
  send_loop-HasSent (suc f) w sent buf done ok le l = elim (Bool-cases (ltb done (length buf))) [
    | inr g ↦
        let end : done ≡ length buf = ground arith in
        rw (send_loop, g)
          (record {
            world = w;
            ends = ap (λ n. some (w, some n)) end;
            all = subst (λ x. P (sent ++ x) w) (ap (λ n. take n buf) end ∙ take_whole buf) ok;
          })
    | inl g ↦
        let n = min (length buf - done) 8072 in
        let size : length (chunk_at buf done) ≡ n =
          omega (arith, length-take n (drop done buf), length-drop done buf) in
        let (m, q, short, ok') =
          law.takes w (sent ++ take done buf) (chunk_at buf done) ok (ground arith) in
        let part : take done buf ++ take (suc m) (chunk_at buf done) ≡ take (done + suc m) buf =
          ap (λ x. take done buf ++ x) (take-take_le (suc m) n (drop done buf) (omega arith))
          ∙ take-add done (suc m) buf in
        let r =
          send_loop-HasSent f (nf.write_file w (netpath e.path (text "data")) (chunk_at buf done)).0
            sent buf (done + suc m)
            (subst (λ x. P x (nf.write_file w (netpath e.path (text "data")) (chunk_at buf done)).0)
              (append_assoc sent (take done buf) _ ∙ ap (λ x. sent ++ x) part) ok')
            (omega arith) (omega arith) in
        rw (send_loop-step f w buf done m g q)
          (record { world = r.world; ends = r.ends; all = r.all })
  ]

  -- send on a connection sends all the bytes that it is given, in order, and returns their number,
  -- whatever the pieces in which the connection takes them, while each write takes a byte at least.
  pub send_loop-sends :
      (w : W) (sent buf : Bytes)
      → P sent w
      → (w' : W) × (send_loop nf (suc (length buf)) w e buf 0 ≡ some (w', some (length buf)))
        × P (sent ++ buf) w'
  send_loop-sends w sent buf ok =
      let r =
        send_loop-HasSent (suc (length buf)) w sent buf 0
          (subst (λ x. P x w) (sym (append-nil sent)) ok) (omega arith) (omega arith) in
      (r.world, r.ends, r.all)
