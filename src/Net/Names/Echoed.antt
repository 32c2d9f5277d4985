-- ===== src/Net/Names/Echoed.antt =====
-- The question in a reply: the resolver finds the answers behind it.
use racccoon.Base.{
  HoldsBytes, HoldsBytes-behind, HoldsBytes-at, ℕ, zero, suc, ◌+◌, ◌-◌, ◌%◌, ◌/◌, ◌^◌, drop,
  length-drop, refl, not, ◌&&◌, ◌≤◌, ◌<◌, ◌≡◌, sym, ap, subst, ◌∙◌, inl, inr, ltb, leb, ◌==◌, ◌||◌,
  true, false, Bool-cases, [], ◌∷◌, ◌++◌, Option, none, some, length, length-append, append_assoc,
  arith, Memory,
}
use racccoon.Posix.Server.{Bytes}
use racccoon.Net.Names.{
  first_label, name_loop, question, behind, dns_skip, word16, word32, answers, found, answered,
  read_reply,
}

-- A round of the loop over the labels, where it goes on.
record HasLabel (f : ℕ) (c : ℕ) (s q r : Bytes) : Type 0 where
  fits : length (first_label (c ∷ s)).0 ≤ 63
  some_bytes : 0 < length (first_label (c ∷ s)).0
  rest :
      name_loop f
        (first_label (c ∷ s)).1
        (q ++ (length (first_label (c ∷ s)).0 ∷ (first_label (c ∷ s)).0))
      ≡ some r

name_loop-HasLabel :
    (f c : ℕ) (s q r : Bytes) → name_loop (suc f) (c ∷ s) q ≡ some r → HasLabel f c s q r
unfolding name_loop
name_loop-HasLabel f c s q r e =
    let n = length (first_label (c ∷ s)).0 in
    let goes : (n == 0 || ltb 63 n || ltb 290 (length q + n + 6)) ≡ false =
      elim (Bool-cases (n == 0 || ltb 63 n || ltb 290 (length q + n + 6))) [
        | inr g ↦ g
        | inl g ↦ absurd (none≢some (rw (name_loop, g) at e))
      ] in
    record { fits = ground arith; some_bytes = ground arith; rest = (rw (name_loop, goes) at e) }
  where
    none≢some : {x : Bytes} → ◌≡◌ {A = Option Bytes} none (some x) → ⊥
    none≢some e = cc

name_loop-extends : (f : ℕ) (s q r : Bytes) → name_loop f s q ≡ some r → (t : Bytes) × (r ≡ q ++ t)
unfolding name_loop
name_loop-extends zero s q r e = cc
name_loop-extends (suc f) [] q r e = (0 ∷ 0 ∷ 1 ∷ 0 ∷ 1 ∷ [], ground arith)
name_loop-extends (suc f) (c ∷ s) q r e =
    let l = (first_label (c ∷ s)).0 in
    let (t, g) = name_loop-extends f _ _ r (name_loop-HasLabel f c s q r e).rest in
    ((length l ∷ l) ++ t, g ∙ append_assoc q (length l ∷ l) t)

drop-append-long : (k : ℕ) (xs ys : Bytes) → k ≤ length xs → drop k (xs ++ ys) ≡ drop k xs ++ ys
drop-append-long zero xs ys h = refl
drop-append-long (suc k) [] ys h = absurd (omega arith)
drop-append-long (suc k) (x ∷ xs) ys h = drop-append-long k xs ys (omega arith)

-- The reply has the question behind its own header.
abbrev pub Echoes : Memory → Bytes → Type 0
Echoes m q = HoldsBytes m 12 (drop 12 q)

byte_at :
    (m : Memory) (q : Bytes) (b : ℕ) (t : Bytes)
    → 12 ≤ length q
    → Echoes m (q ++ (b ∷ t))
    → m (length q) ≡ b
byte_at m q b t d h =
    let split : HoldsBytes m 12 (drop 12 q ++ (b ∷ t)) =
      subst (HoldsBytes m 12) (drop-append-long 12 q (b ∷ t) d) h in
    (HoldsBytes-at m (b ∷ t) (omega (arith, length-drop 12 q))
      (HoldsBytes-behind (drop 12 q) (b ∷ t) m 12 split)).0

name_loop-skipped :
    (f f' : ℕ) (s q r : Bytes) (m : Memory) (len : ℕ)
    → name_loop f s q ≡ some r
    → Echoes m r
    → 12 ≤ length q
    → length r ≤ len
    → 0 < f'
    → len < f' + length q
    → dns_skip f' m len (length q) ≡ some (behind (length r - 4))
unfolding name_loop dns_skip
name_loop-skipped zero f' s q r m len e h d l z k = cc
name_loop-skipped f zero s q r m len e h d l z k = absurd (omega arith)
name_loop-skipped (suc f) (suc f') [] q r m len e h d l z k =
    let end : Bytes = 0 ∷ 0 ∷ 1 ∷ 0 ∷ 1 ∷ [] in
    let same : q ++ end ≡ r = ground (arith, e) in
    let here = byte_at m q 0 (0 ∷ 1 ∷ 0 ∷ 1 ∷ []) d (subst (Echoes m) (sym same) h) in
    let size : length r ≡ length q + 5 = omega (arith, ap length same, length-append q end) in
    let inside : ltb (length q) len ≡ true = ground arith in
    let root : (m (length q) == 0) ≡ true = ground (arith, here) in
    rw (dns_skip, inside, root) (ap (λ t. some (behind t)) (omega arith))
name_loop-skipped (suc f) (suc f') (c ∷ s) q r m len e h d l z k =
    let b = (first_label (c ∷ s)).0 in
    let q' : Bytes = q ++ (length b ∷ b) in
    let step = name_loop-HasLabel f c s q r e in
    let (t, g) = name_loop-extends f _ q' r step.rest in
    let whole : r ≡ q ++ (length b ∷ (b ++ t)) = g ∙ append_assoc q (length b ∷ b) t in
    let here = byte_at m q (length b) (b ++ t) d (subst (Echoes m) whole h) in
    let next : length q' ≡ length q + (length b + 1) =
      omega (arith, length-append q (length b ∷ b)) in
    let size : length r ≡ length q' + length t = ap length g ∙ length-append q' t in
    let inside : ltb (length q) len ≡ true = ground arith in
    let more : (m (length q) == 0) ≡ false = ground (arith, here, step.some_bytes) in
    let plain : leb 192 (m (length q)) ≡ false = ground (arith, here, step.fits) in
    rw (dns_skip, inside, more, plain)
      (ap (dns_skip f' m len) (omega (arith, here, next))
        ∙ name_loop-skipped f f' _ q' r m len step.rest h (omega (arith, next)) l (ground arith)
            (omega (arith, next)))

dns_skip-question :
    (id : ℕ) (name q : Bytes) (m : Memory) (len : ℕ)
    → question id name ≡ some q
    → Echoes m q
    → length q ≤ len
    → dns_skip (suc len) m len 12 ≡ some (behind (length q - 4))
unfolding question
dns_skip-question id name q m len e h l =
    name_loop-skipped (suc (length name)) (suc len) name _ q m len e h (omega arith) l (omega arith)
      (omega arith)

question-length : (id : ℕ) (name q : Bytes) → question id name ≡ some q → 12 ≤ length q
unfolding question
question-length id name q e =
    let (t, g) = name_loop-extends (suc (length name)) name _ q e in omega (arith, ap length g)

-- The record at `t` of a reply of `len` bytes is an address: a pointer to a name, type A, any class and
-- time, four bytes.
pub record IsAddress (m : Memory) (len t : ℕ) : Type 0 where
  pub pointer : 192 ≤ m t
  pub type_a : word16 m (t + 2) ≡ 1
  pub four_bytes : word16 m (t + 10) ≡ 4
  pub inside : t + 16 ≤ len

answers-IsAddress :
    (m : Memory) (len k t : ℕ)
    → 0 < t
    → IsAddress m len t
    → answers m len (suc k) t ≡ some (some (word32 m (t + 12)))
unfolding answers dns_skip
answers-IsAddress m len k t z a =
    let fits : not (ltb 0 t && leb (t + 10) len) ≡ false = ground (arith, a.inside) in
    let here : ltb t len ≡ true = ground (arith, a.inside) in
    let named : (m t == 0) ≡ false = ground (arith, a.pointer) in
    let short : leb 192 (m t) ≡ true = ground (arith, a.pointer) in
    let whole : ltb len (t + 2 + 10) ≡ false = ground (arith, a.inside) in
    let end : leb (t + 2 + 14) len ≡ true = ground (arith, a.inside) in
    let type : (word16 m (t + 2) == 1) ≡ true = ground (arith, a.type_a) in
    let size : (word16 m (t + 2 + 8) == 4) ≡ true =
      ap (λ i. word16 m i == 4) {x = t + 2 + 8} {y = t + 10} (omega arith)
      ∙ ground (arith, a.four_bytes) in
    rw (answers, fits, dns_skip, here, named, short, whole, type, size, end)
      (ap (λ i. some (some (word32 m i))) (omega arith))

-- Where a reply has the id of the query, no error code, the question as it was asked behind a header of
-- its own, and a number of answers of which the first is an address whose name is a pointer, the
-- resolver passes over the question and comes to this address.
pub read_reply-found :
    (id : ℕ) (name q : Bytes) (m : Memory) (len k : ℕ)
    → question id name ≡ some q
    → m 0 ≡ id / 2 ^ 8 % 256
    → m 1 ≡ id % 256
    → m 3 % 16 ≡ 0
    → Echoes m q
    → word16 m 6 ≡ suc k
    → IsAddress m len (length q)
    → read_reply (id / 2 ^ 8 % 256) (id % 256) m len ≡ some (found (word32 m (length q + 12)))
unfolding read_reply
read_reply-found id name q m len k e e₀ e₁ ok h count a =
    let size = question-length id name q e in
    let mine : (ltb len 12 || not (m 0 == id / 2 ^ 8 % 256) || not (m 1 == id % 256)) ≡ false =
      ground (arith, a.inside) in
    let good : not (m 3 % 16 == 0) ≡ false = ground arith in
    let skipped = dns_skip-question id name q m len e h (omega (arith, a.inside)) in
    rw (read_reply, mine, good, skipped)
      (ap answered (
        ap (answers m len (word16 m 6)) {x = length q - 4 + 4} {y = length q} (omega arith)
        ∙ ap (λ n. answers m len n (length q)) count
        ∙ answers-IsAddress m len k (length q) (omega arith) a))
