-- ===== src/Threads/Keys.antt =====
-- The thread-specific data of lib/racccoon-libc/src/rc_pthread.c: a table of PTHREAD_KEYS_MAX keys.
-- A pointer is a number, and 0 is NULL. A key is unsigned.
use racccoon.Base.{
  ℕ, zero, suc, ◌+◌, ◌≤◌, ◌<◌, ◌≡◌, ◌≢◌, refl, sym, ap, ◌⊎◌, inl, inr, Bool, true, false, ◌&&◌,
  List, [], ◌∷◌, Option, none, some, ltb, ◌==◌, ==_iff, if◌then◌else◌, arith, Bool-cases,
  Option-cases, get_or, set, length, get_or-set_self, get_or-set_ne,
}

abbrev pub keys_max : ℕ
keys_max = 128

abbrev pub eagain : ℕ
eagain = 11

abbrev pub einval : ℕ
einval = 22

-- `key_used` and `key_value`
pub record Keys : Type 0 where
  pub used : List Bool
  pub value : List ℕ

-- `for (unsigned i = 0; i < PTHREAD_KEYS_MAX; i++) if (!key_used[i])`
pub first_unused : ℕ → List Bool → ℕ → Option ℕ
first_unused zero used i = none
first_unused (suc k) used i =
    let rest = first_unused k used (i + 1) in if get_or used i true then rest else some i

abbrev pub created : Keys → Option ℕ → Keys × Option ℕ
created t none = (t, none)
created t (some i) = (record { used = set t.used i true; value = set t.value i 0 }, some i)

-- pthread_key_create: the key, or none for EAGAIN
pub key_create : Keys → Keys × Option ℕ
unfolding first_unused
key_create t = created t (first_unused keys_max t.used 0)

abbrev pub is_used : Keys → ℕ → Bool
is_used t k = ltb k keys_max && get_or t.used k false

pub key_delete : Keys → ℕ → Keys × ℕ
key_delete t k = if is_used t k then (record t { used = set t.used k false }, 0) else (t, einval)

pub getspecific : Keys → ℕ → ℕ
getspecific t k = if is_used t k then get_or t.value k 0 else 0

pub setspecific : Keys → ℕ → ℕ → Keys × ℕ
setspecific t k v = if is_used t k then (record t { value = set t.value k v }, 0) else (t, einval)

pub record IsValid (t : Keys) : Type 0 where
  pub used_size : length t.used ≡ keys_max
  pub value_size : length t.value ≡ keys_max

-- A key reads as the value that was last stored under it, and no other key does.
pub getspecific-setspecific :
    (t : Keys) (k j v : ℕ)
    → IsValid t
    → getspecific (setspecific t k v).0 j ≡ (if is_used t k && k == j then v else getspecific t j)
unfolding getspecific setspecific
getspecific-setspecific t k j v ok = elim (Bool-cases (k == j)) [
  | inl e ↦
      let same : k ≡ j = (==_iff k j).0 e in
      ground (arith, get_or-set_self t.value k v 0, ok.value_size)
  | inr e ↦ ground (arith, get_or-set_ne t.value k j v 0)
]

first_unused-some :
    (k i r : ℕ) (used : List Bool)
    → first_unused k used i ≡ some r
    → (i ≤ r)
      × (r < i + k)
      × (get_or used r true ≡ false)
      × ((j : ℕ) → i ≤ j → j < r → get_or used j true ≡ true)
unfolding first_unused
first_unused-some zero i r used e = cc
first_unused-some (suc k) i r used e = elim (Bool-cases (get_or used i true)) [
  | inr f ↦
      let here : i ≡ r = ground arith in
      rw (← here) (omega arith, omega arith, f, λ j l h. absurd (omega arith))
  | inl f ↦
      let (lo, hi, fr, before) = first_unused-some k (i + 1) r used (ground arith) in
      (
        omega arith,
        omega arith,
        fr,
        λ j l h. elim (Bool-cases (i == j)) [
          | inl same ↦ rw (← ((==_iff i j).0 same)) f
          | inr other ↦ before j (ground arith) h
        ],
      )
]

first_unused-none :
    (k i : ℕ) (used : List Bool)
    → first_unused k used i ≡ none
    → (j : ℕ) → i ≤ j
    → j < i + k
    → get_or used j true ≡ true
unfolding first_unused
first_unused-none zero i used e j l h = absurd (omega arith)
first_unused-none (suc k) i used e j l h = elim (Bool-cases (get_or used i true)) [
  | inr f ↦ absurd (ground arith)
  | inl f ↦ elim (Bool-cases (i == j)) [
    | inl same ↦ rw (← ((==_iff i j).0 same)) f
    | inr other ↦ first_unused-none k (i + 1) used (ground arith) j (ground arith) (omega arith)
  ]
]

-- The default value is not seen within the table.
get_or-default :
    {A : Type 0} (xs : List A) (i : ℕ) (c d : A) → i < length xs → get_or xs i c ≡ get_or xs i d
get_or-default [] i c d h = absurd (omega arith)
get_or-default (x ∷ xs) zero c d h = refl
get_or-default (x ∷ xs) (suc i) c d h = get_or-default xs i c d (omega arith)

-- What pthread_key_create did, to the table of `t`, when it returned the key `i`.
pub record IsCreated (t t' : Keys) (i : ℕ) : Type 0 where
  pub was_unused : is_used t i ≡ false
  pub now_used : is_used t' i ≡ true
  pub is_null : getspecific t' i ≡ 0
  pub others : (j : ℕ) → j ≢ i → (is_used t' j ≡ is_used t j) × (getspecific t' j ≡ getspecific t j)

set-IsCreated :
    (t : Keys) (i : ℕ)
    → IsValid t
    → i < keys_max
    → get_or t.used i true ≡ false
    → IsCreated t (record { used = set t.used i true; value = set t.value i 0 }) i
unfolding getspecific
set-IsCreated t i ok l f = record {
  was_unused = ground (arith, get_or-default t.used i true false, ok.used_size);
  now_used = ground (arith, get_or-set_self t.used i true false, ok.used_size);
  is_null = ground (arith, get_or-set_self t.value i 0 0, ok.value_size);
  others = λ j h.
      let u = get_or-set_ne t.used i j true false (λ e. h (sym e)) in
      let v = get_or-set_ne t.value i j 0 0 (λ e. h (sym e)) in rw (u, v) (refl, refl);
}

key_create_found :
    (t : Keys) (i : ℕ)
    → first_unused keys_max t.used 0 ≡ some i
    → key_create t ≡ (record { used = set t.used i true; value = set t.value i 0 }, some i)
unfolding key_create
key_create_found t i e = ap (created t) e

key_create_full : (t : Keys) → first_unused keys_max t.used 0 ≡ none → key_create t ≡ (t, none)
unfolding key_create
key_create_full t e = ap (created t) e

-- pthread_key_create returns an unused key, which it marks as used, with the value NULL, and leaves
-- the other keys alone; it fails, with EAGAIN, only where all the keys are in use.
pub key_create-IsCreated :
    (t : Keys)
    → IsValid t
    → ((key_create t ≡ (t, none)) × ((j : ℕ) → j < keys_max → is_used t j ≡ true))
      ⊎ ((i : ℕ) × (t' : Keys) × (key_create t ≡ (t', some i)) × IsCreated t t' i)
key_create-IsCreated t ok = elim (Option-cases (first_unused keys_max t.used 0)) [
  | inl e ↦ inl (
    key_create_full t e,
    λ j h.
        let all = first_unused-none keys_max 0 t.used e j (omega arith) (omega arith) in
        ground (arith, get_or-default t.used j true false, ok.used_size),
  )
  | inr (i, e) ↦
      let (lo, hi, fr, before) = first_unused-some keys_max 0 i t.used e in
      inr (i, _, key_create_found t i e, set-IsCreated t i ok (omega arith) fr)
]
