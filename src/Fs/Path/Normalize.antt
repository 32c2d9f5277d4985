-- ===== src/Fs/Path/Normalize.antt =====
-- rc_normalize as a whole: the loop over the components, and the path that it leaves.
use racccoon.Base.{
  ℕ, zero, suc, ◌+◌, ◌-◌, ◌≤◌, ◌<◌, ◌≡◌, refl, ap, ◌∙◌, ◌≢◌, List, [], ◌∷◌, ◌++◌, length, ◌==◌,
  ==_iff, Bool-cases, inl, inr, arith, append_assoc, append-nil, length-append,
}
use mathlib.Core.List.{reverse, reverse-append, reverse-cons, reverse-reverse}
use racccoon.Fs.Path.{
  Bytes, skip_slashes, component, after_component, place, normalize_loop, drop_last_slash,
  normalize,
}
use racccoon.Fs.Path.Resolve.{
  components_from, components, step, resolve, below, IsName, AreNames, Holds, AreNames-step,
  place-Holds, IsName-reverse, reverse-ne-nil,
}

-- A path, or what is left of one behind a component, starts with a slash.
abbrev Rooted : Bytes → Type 0
Rooted [] = Unit
Rooted (c ∷ p) = c ≡ b'/'

IsName-component : (p : Bytes) → IsName (component p)
unfolding component
IsName-component [] = tt
IsName-component (c ∷ p) = elim (Bool-cases (c == b'/')) [
  | inl e ↦ rw e tt
  | inr e ↦ rw e (ground arith, IsName-component p)
]

component-ne-nil : (c : ℕ) (p : Bytes) → c ≢ b'/' → component (c ∷ p) ≢ []
unfolding component
component-ne-nil c p h = ground arith

length-component : (p : Bytes) → length (component p) + length (after_component p) ≡ length p
unfolding component after_component
length-component [] = refl
length-component (c ∷ p) = ground (arith, length-component p)

Rooted-after_component : (p : Bytes) → Rooted (after_component p)
unfolding after_component
Rooted-after_component [] = tt
Rooted-after_component (c ∷ p) = elim (Bool-cases (c == b'/')) [
  | inl e ↦ rw e ((==_iff c b'/').0 e)
  | inr e ↦ rw e (Rooted-after_component p)
]

components-skip_slashes : (p : Bytes) → components p ≡ components (skip_slashes p)
unfolding skip_slashes
components-skip_slashes [] = refl
components-skip_slashes (c ∷ p) = elim (Bool-cases (c == b'/')) [
  | inl e ↦ rw e (components-skip_slashes p)
  | inr e ↦ rw e (rw e refl)
]

length-skip_slashes : (p : Bytes) → length (skip_slashes p) ≤ length p
unfolding skip_slashes
length-skip_slashes [] = omega arith
length-skip_slashes (c ∷ p) = ground (arith, length-skip_slashes p)

length-skip_slashes-Rooted : (p : Bytes) → Rooted p → length (skip_slashes p) ≤ length p - 1
unfolding skip_slashes
length-skip_slashes-Rooted [] h = omega arith
length-skip_slashes-Rooted (c ∷ p) h = ground (arith, length-skip_slashes p)

skip_slashes-ne : (p : Bytes) (c : ℕ) (q : Bytes) → skip_slashes p ≡ c ∷ q → c ≢ b'/'
unfolding skip_slashes
skip_slashes-ne [] c q e = cc
skip_slashes-ne (d ∷ p) c q e = ground (arith, skip_slashes-ne p c q)

components_from-component :
    (name p : Bytes)
    → name ++ component p ≢ []
    → components_from name p ≡ (name ++ component p) ∷ components (after_component p)
unfolding component after_component
components_from-component [] [] h = absurd (h refl)
components_from-component (d ∷ name) [] h = rw append-nil refl
components_from-component [] (c ∷ p) h = elim (Bool-cases (c == b'/')) [
  | inl e ↦ absurd (ground arith)
  | inr e ↦ rw e (components_from-component (c ∷ []) p (λ z. cc))
]
components_from-component (d ∷ name) (c ∷ p) h = elim (Bool-cases (c == b'/')) [
  | inl e ↦ rw e (rw append-nil (rw e refl))
  | inr e ↦ rw e (
      components_from-component (d ∷ name ++ c ∷ []) p (λ z. cc)
      ∙ ap (λ u. u ∷ components (after_component p))
          (append_assoc (d ∷ name) (c ∷ []) (component p)))
]

length-reverse : (n : Bytes) → length (reverse n) ≡ length n
length-reverse [] = refl
length-reverse (c ∷ n) =
    rw (reverse-cons c n) (omega (arith, length-append (reverse n) (c ∷ []), length-reverse n))

-- One round of the loop, from the component that it takes to what it leaves for the next round.
length-below-step :
    (st : List Bytes) (n : Bytes) → length (below (step st n)) ≤ length (below st) + length n + 1
length-below-step [] n = ground (arith, length-append (reverse n) (b'/' ∷ []), length-reverse n)
length-below-step (m ∷ st) n = ground (
  arith,
  length-append (reverse n) (b'/' ∷ below (m ∷ st)),
  length-append (reverse m) (b'/' ∷ below st),
  length-reverse n,
)

loop_done : (f : ℕ) (p t : Bytes) → skip_slashes p ≡ [] → normalize_loop (suc f) p t ≡ t
unfolding normalize_loop
loop_done f p t e = rw (normalize_loop, e) refl

loop_round :
    (f : ℕ) (p t : Bytes) (c : ℕ) (q : Bytes)
    → skip_slashes p ≡ c ∷ q
    → normalize_loop (suc f) p t
      ≡ normalize_loop f (after_component (c ∷ q)) (place t (component (c ∷ q)))
unfolding normalize_loop
loop_round f p t c q e = rw (normalize_loop, e) refl

loop-Holds :
    (f : ℕ) (p t : Bytes) (st : List Bytes)
    → length p < f
    → Rooted p
    → AreNames st
    → Holds t st
    → length (below st) + length p ≤ 127
    → AreNames (resolve st (components p))
      × Holds (normalize_loop f p t) (resolve st (components p))
loop-Holds zero p t st l r ns h fits = absurd (omega arith)
loop-Holds (suc f) p t st l r ns h fits = go (skip_slashes p) refl (loop-Holds f)
  where
    go :
        (sk : Bytes)
        → skip_slashes p ≡ sk
        → ((p' t' : Bytes) (st' : List Bytes)
            → length p' < f
            → Rooted p'
            → AreNames st'
            → Holds t' st'
            → length (below st') + length p' ≤ 127
            → AreNames (resolve st' (components p'))
              × Holds (normalize_loop f p' t') (resolve st' (components p')))
        → AreNames (resolve st (components p))
          × Holds (normalize_loop (suc f) p t) (resolve st (components p))
    go [] e ih = rw (loop_done f p t e, components-skip_slashes p, e) (ns, h)
    go (c ∷ q) e ih =
        let ne : c ≢ b'/' = skip_slashes-ne p c q e in
        let n : Bytes = component (c ∷ q) in
        let rest : Bytes = after_component (c ∷ q) in
        let short : suc (length q) ≤ length p - 1 =
          omega (arith, length-skip_slashes-Rooted p r, ap length e) in
        let parts : length n + length rest ≡ suc (length q) = length-component (c ∷ q) in
        rw
          (
            loop_round f p t c q e,
            components-skip_slashes p,
            e,
            components_from-component [] (c ∷ q) (component-ne-nil c q ne),
          )
          (ih rest (place t n) (step st n) (omega arith) (Rooted-after_component (c ∷ q))
            (AreNames-step st n (component-ne-nil c q ne) (IsName-component (c ∷ q)) ns)
            (place-Holds t n st ns h (omega arith)) (omega (arith, length-below-step st n)))

-- The path that the names make, the last name first: `/` for the root.
abbrev pub joined : List Bytes → Bytes
joined [] = []
joined (n ∷ st) = joined st ++ b'/' ∷ n

abbrev pub to_path : List Bytes → Bytes
to_path [] = b'/' ∷ []
to_path (n ∷ st) = joined (n ∷ st)

reverse-below_cons :
    (n : Bytes) (st : List Bytes)
    → reverse (b'/' ∷ below st) ≡ joined st ++ b'/' ∷ []
    → reverse (below (n ∷ st)) ≡ joined (n ∷ st)
reverse-below_cons n st e =
    reverse-append (reverse n) (b'/' ∷ below st)
    ∙ rw (e, reverse-reverse n) (append_assoc (joined st) (b'/' ∷ []) n)

reverse-below : (st : List Bytes) → reverse (b'/' ∷ below st) ≡ joined st ++ b'/' ∷ []
reverse-below [] = refl
reverse-below (n ∷ st) =
    reverse-cons b'/' (below (n ∷ st))
    ∙ ap (λ u. u ++ b'/' ∷ []) (reverse-below_cons n st (reverse-below st))

-- Neither a slash behind the path nor its absence shows in the result.
drop_last_slash-slash :
    (r v : Bytes) → r ≢ [] → drop_last_slash (b'/' ∷ r ++ b'/' ∷ v) ≡ r ++ b'/' ∷ v
unfolding drop_last_slash
drop_last_slash-slash [] v ne = absurd (ne refl)
drop_last_slash-slash (c ∷ r) v ne = refl

drop_last_slash-name :
    (r v : Bytes) → r ≢ [] → IsName r → drop_last_slash (r ++ b'/' ∷ v) ≡ r ++ b'/' ∷ v
unfolding drop_last_slash
drop_last_slash-name [] v ne h = absurd (ne refl)
drop_last_slash-name (c ∷ []) v ne h = ground arith
drop_last_slash-name (c ∷ d ∷ r) v ne h = ground arith

drop_last_slash-Holds :
    (t : Bytes) (st : List Bytes)
    → AreNames st
    → Holds t st
    → reverse (drop_last_slash t) ≡ to_path st
unfolding drop_last_slash
drop_last_slash-Holds t [] ns h = rw h refl
drop_last_slash-Holds t (n ∷ st) (ne, name, ns) (inl h) =
    rw (h, drop_last_slash-slash (reverse n) (below st) (reverse-ne-nil n ne))
      (reverse-below_cons n st (reverse-below st))
drop_last_slash-Holds t (n ∷ st) (ne, name, ns) (inr h) =
    rw
      (h, drop_last_slash-name (reverse n) (below st) (reverse-ne-nil n ne) (IsName-reverse n name))
      (reverse-below_cons n st (reverse-below st))

-- rc_normalize leaves, of an absolute path that fits its buffer, the path of the directory or file
-- that one reaches by following its names from the root, where `.` stays and `..` goes up.
pub normalize-resolve :
    (p : Bytes) → Rooted p → length p ≤ 127 → normalize p ≡ to_path (resolve [] (components p))
unfolding normalize
normalize-resolve p r fits =
    let (ns, h) =
      loop-Holds (suc (length p)) p (b'/' ∷ []) [] (omega arith) r tt refl (omega arith) in
    drop_last_slash-Holds _ _ ns h
