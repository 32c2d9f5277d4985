-- ===== src/Fs/Path/Resolve.antt =====
-- rc_normalize resolves a path: the loop of `Path` against the components of the path.
use racccoon.Base.{
  ◌+◌, ◌≤◌, ◌≡◌, refl, ap, ◌∙◌, sym, ◌≢◌, Bool, true, false, List, [], ◌∷◌, ◌++◌, length, ◌==◌,
  Bool-cases, inl, inr, ◌⊎◌, if◌then◌else◌, arith, append_assoc,
}
use mathlib.Core.List.{reverse, reverse-cons, reverse-reverse}
use racccoon.Fs.Path.{
  Bytes, is_dot, is_dot_dot, drop_to_slash, drop_component, push_slash, push_bytes, place,
}

abbrev pub is_nil {ℓ} : {A : Type ℓ} → List A → Bool
is_nil [] = true
is_nil (x ∷ xs) = false

-- What stands between the slashes, with no empty name; `name` is what was read of the first one.
abbrev pub components_from : Bytes → Bytes → List Bytes
components_from name [] = if is_nil name then [] else name ∷ []
components_from name (c ∷ p) =
    if c == b'/'
    then (if is_nil name then components_from [] p else name ∷ components_from [] p)
    else components_from (name ++ c ∷ []) p

abbrev pub components : Bytes → List Bytes
components p = components_from [] p

-- The names down to a directory, the last one first; `.` stays, `..` goes up, and at the root stays.
abbrev pub up : List Bytes → List Bytes
up [] = []
up (n ∷ st) = st

abbrev pub step : List Bytes → Bytes → List Bytes
step st n = if is_dot n then st else if is_dot_dot n then up st else n ∷ st

abbrev pub resolve : List Bytes → List Bytes → List Bytes
resolve st [] = st
resolve st (n ∷ ns) = resolve (step st n) ns

-- The text of a resolved path backwards, without its first byte, the slash of the root.
abbrev pub below : List Bytes → Bytes
below [] = []
below (n ∷ st) = reverse n ++ b'/' ∷ below st

-- No byte is a slash.
abbrev pub IsName : Bytes → Type 0
IsName [] = Unit
IsName (c ∷ n) = (c ≢ b'/') × IsName n

abbrev pub AreNames : List Bytes → Type 0
AreNames [] = Unit
AreNames (n ∷ st) = (n ≢ []) × IsName n × AreNames st

-- The buffer holds the path, with or without a slash behind it.
abbrev pub Holds : Bytes → List Bytes → Type 0
Holds t [] = t ≡ b'/' ∷ []
Holds t (n ∷ st) = (t ≡ b'/' ∷ below (n ∷ st)) ⊎ (t ≡ below (n ∷ st))

IsName-append : (a b : Bytes) → IsName a → IsName b → IsName (a ++ b)
IsName-append [] b ha hb = hb
IsName-append (c ∷ a) b ha hb = (ha.0, IsName-append a b ha.1 hb)

pub IsName-reverse : (n : Bytes) → IsName n → IsName (reverse n)
IsName-reverse [] h = tt
IsName-reverse (c ∷ n) h =
    rw (reverse-cons c n) (IsName-append (reverse n) (c ∷ []) (IsName-reverse n h.1) (h.0, tt))

pub reverse-ne-nil : (n : Bytes) → n ≢ [] → reverse n ≢ []
reverse-ne-nil n h e = h (sym (reverse-reverse n) ∙ ap reverse e)

drop_to_slash-name : (r v : Bytes) → IsName r → drop_to_slash (r ++ b'/' ∷ v) ≡ b'/' ∷ v
unfolding drop_to_slash
drop_to_slash-name [] [] h = refl
drop_to_slash-name [] (c ∷ v) h = refl
drop_to_slash-name (c ∷ []) v h = ground (arith, drop_to_slash-name [] v tt)
drop_to_slash-name (c ∷ d ∷ r) v h = ground (arith, drop_to_slash-name (d ∷ r) v h.1)

-- `..` takes the last name off, with the slash before or behind it.
drop_component-name : (r v : Bytes) → r ≢ [] → IsName r → drop_component (r ++ b'/' ∷ v) ≡ b'/' ∷ v
unfolding drop_component
drop_component-name [] v ne h = absurd (ne refl)
drop_component-name (c ∷ []) v ne h = drop_to_slash-name [] v tt
drop_component-name (c ∷ d ∷ r) v ne h = drop_to_slash-name (d ∷ r) v h.1

drop_component-slash :
    (r v : Bytes) → r ≢ [] → IsName r → drop_component (b'/' ∷ r ++ b'/' ∷ v) ≡ b'/' ∷ v
unfolding drop_component
drop_component-slash [] v ne h = absurd (ne refl)
drop_component-slash (c ∷ r) v ne h = drop_to_slash-name (c ∷ r) v h

push_slash-name :
    (r v : Bytes) → r ≢ [] → IsName r → push_slash (r ++ b'/' ∷ v) ≡ b'/' ∷ r ++ b'/' ∷ v
unfolding push_slash
push_slash-name [] v ne h = absurd (ne refl)
push_slash-name (c ∷ []) v ne h = ground arith
push_slash-name (c ∷ d ∷ r) v ne h = ground arith

push_slash-slash : (r v : Bytes) → push_slash (b'/' ∷ r ++ b'/' ∷ v) ≡ b'/' ∷ r ++ b'/' ∷ v
unfolding push_slash
push_slash-slash [] v = refl
push_slash-slash (c ∷ r) v = refl

-- Whatever the round before left, the slash is there once, and behind `..` it is there already.
push_slash-Holds :
    (t : Bytes) (st : List Bytes) → AreNames st → Holds t st → push_slash t ≡ b'/' ∷ below st
unfolding push_slash
push_slash-Holds t [] ns h = rw h refl
push_slash-Holds t (n ∷ st) (ne, name, ns) (inl h) = rw h (push_slash-slash (reverse n) (below st))
push_slash-Holds t (n ∷ st) (ne, name, ns) (inr h) =
    rw h (push_slash-name (reverse n) (below st) (reverse-ne-nil n ne) (IsName-reverse n name))

drop_component-Holds :
    (t : Bytes) (st : List Bytes)
    → AreNames st
    → Holds t st
    → drop_component t ≡ b'/' ∷ below (up st)
unfolding drop_component
drop_component-Holds t [] ns h = rw h refl
drop_component-Holds t (n ∷ st) (ne, name, ns) (inl h) =
    rw h (drop_component-slash (reverse n) (below st) (reverse-ne-nil n ne) (IsName-reverse n name))
drop_component-Holds t (n ∷ st) (ne, name, ns) (inr h) =
    rw h (drop_component-name (reverse n) (below st) (reverse-ne-nil n ne) (IsName-reverse n name))

Holds-slash : (st : List Bytes) → Holds (b'/' ∷ below st) st
Holds-slash [] = refl
Holds-slash (n ∷ st) = inl refl

push_bytes-reverse : (t n : Bytes) → length t + length n ≤ 127 → push_bytes t n ≡ reverse n ++ t
unfolding push_bytes
push_bytes-reverse t [] h = refl
push_bytes-reverse t (c ∷ n) h = ground (
  arith,
  push_bytes-reverse (c ∷ t) n (omega arith),
  reverse-cons c n,
  append_assoc (reverse n) (c ∷ []) t,
)

AreNames-up : (st : List Bytes) → AreNames st → AreNames (up st)
AreNames-up [] ns = tt
AreNames-up (n ∷ st) ns = ns.2

pub AreNames-step :
    (st : List Bytes) (n : Bytes) → n ≢ [] → IsName n → AreNames st → AreNames (step st n)
AreNames-step st n ne name ns = elim (Bool-cases (is_dot n)) [
  | inl e ↦ rw e ns
  | inr e ↦ rw e (elim (Bool-cases (is_dot_dot n)) [
    | inl d ↦ rw d (AreNames-up st ns)
    | inr d ↦ rw d (ne, name, ns)
  ])
]

-- A round places one component.
pub place-Holds :
    (t n : Bytes) (st : List Bytes)
    → AreNames st
    → Holds t st
    → length (b'/' ∷ below st) + length n ≤ 127
    → Holds (place t n) (step st n)
unfolding place
place-Holds t n st ns h fits = elim (Bool-cases (is_dot n)) [
  | inl e ↦ rw e h
  | inr e ↦ rw e (elim (Bool-cases (is_dot_dot n)) [
    | inl d ↦ rw (d, drop_component-Holds t st ns h) (Holds-slash (up st))
    | inr d ↦
        rw (d, push_slash-Holds t st ns h, push_bytes-reverse (b'/' ∷ below st) n fits) (inr refl)
  ])
]
