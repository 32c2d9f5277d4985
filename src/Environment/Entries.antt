-- ===== src/Environment/Entries.antt =====
-- What setenv set is what getenv gets.
use racccoon.Base.Int.{ℤ, pos, negsuc}
use racccoon.Base.{
  ℕ, zero, suc, ◌+◌, ◌≡◌, ◌≢◌, refl, ap, ◌∙◌, inl, inr, true, false, List, [], ◌∷◌, ◌++◌, Option,
  none, some, set, leb, length, not, ◌&&◌, ◌⊎◌, Bool, if◌then◌else◌, arith, Bool-cases,
  Option-cases,
}
use racccoon.Environment.{
  Bytes, Env, enomem, Site, own_array, own_copy, new_entry, grown_array, copies, is_some, value_of,
  find_from, env_find, take_ownership, grow_for_one, place_entry, bad_name, entry_of, get_at,
  getenv, set_found, set_owned, setenv,
}

value_of-entry_of : (name value : Bytes) → value_of (entry_of name value) name ≡ some value
unfolding value_of
value_of-entry_of [] value = refl
value_of-entry_of (c ∷ name) value = ground (arith, value_of-entry_of name value)

-- Where no entry has the name, one that is added behind them is found.
get_at-append :
    (es : List Bytes) (name value : Bytes) (i : ℕ)
    → find_from i es name ≡ none
    → get_at (es ++ entry_of name value ∷ []) name ≡ some value
unfolding find_from get_at
get_at-append [] name value i e = rw (get_at, value_of-entry_of name value) refl
get_at-append (f ∷ es) name value i e = elim (Option-cases (value_of f name)) [
  | inl g ↦ rw (get_at, g) (get_at-append es name value (i + 1) (ground (arith, g)))
  | inr (v, g) ↦ absurd (ground (arith, g))
]

-- Where an entry has the name, the one that takes its place is found.
get_at-set :
    (es : List Bytes) (name value : Bytes) (i j k : ℕ)
    → find_from i es name ≡ some j
    → i + k ≡ j
    → get_at (set es k (entry_of name value)) name ≡ some value
unfolding find_from get_at
get_at-set [] name value i j k e h = cc
get_at-set (f ∷ es) name value i j zero e h = rw (get_at, value_of-entry_of name value) refl
get_at-set (f ∷ es) name value i j (suc k) e h = elim (Option-cases (value_of f name)) [
  | inl g ↦ rw (get_at, g) (get_at-set es name value (i + 1) j k (ground (arith, g)) (omega arith))
  | inr (v, g) ↦ absurd (ground (arith, g))
]

getenv_entry :
    (store : Bytes → Option Bytes) (s : Env) (name value : Bytes)
    → name ≢ []
    → get_at s.entries name ≡ some value
    → getenv store s name ≡ some value
unfolding getenv
getenv_entry store s [] value n e = absurd (n refl)
getenv_entry store s (c ∷ name) value n e = rw (getenv, e) refl

-- An allocation of the call has failed.
abbrev pub IsDenied : (Site → Bool) → Type 0
IsDenied granted = (site : Site) × (granted site ≡ false)

copies-IsDenied :
    (granted : Site → Bool) (i : ℕ) (es : List Bytes)
    → copies granted i es ≡ false
    → IsDenied granted
unfolding copies
copies-IsDenied granted i [] e = cc
copies-IsDenied granted i (f ∷ es) e = elim (Bool-cases (granted (own_copy i))) [
  | inr d ↦ (own_copy i, d)
  | inl d ↦ copies-IsDenied granted (i + 1) es (ground (arith, d))
]

if_true : {A : Type 0} {b : Bool} {x : A} (y : A) → b ≡ true → (if b then x else y) ≡ x
if_true {x = x} y e = ap (λ b. if b then x else y) e

if_false : {A : Type 0} {b : Bool} {y : A} (x : A) → b ≡ false → (if b then x else y) ≡ y
if_false {y = y} x e = ap (λ b. if b then x else y) e

module _ (granted : Site → Bool) where
  -- A call that fails for want of memory: the entries are as they were.
  pub record IsOutOfMemory (s : Env) (r : Env × ℤ) : Type 0 where
    fails : r.1 ≡ negsuc 0
    sets_errno : r.0.errno ≡ enomem
    keeps : r.0.entries ≡ s.entries
    denied : IsDenied granted

  -- The entries are owned, and as they were.
  record Owns (s : Env) (r : Env × Bool) : Type 0 where
    owner : Env
    ends : r ≡ (owner, true)
    keeps : owner.entries ≡ s.entries

  take_ownership-cases :
      (s : Env)
      → Owns s (take_ownership granted s)
        ⊎ ((take_ownership granted s ≡ (record s { errno = enomem }, false)) × IsDenied granted)
  unfolding take_ownership
  take_ownership-cases s = elim (Bool-cases s.owned) [
    | inl o ↦ inl (record { owner = s; ends = if_true _ o; keeps = refl })
    | inr o ↦ elim (Bool-cases (granted own_array)) [
      | inr a ↦ inr (if_false _ o ∙ rw a refl, (own_array, a))
      | inl a ↦ elim (Bool-cases (copies granted 0 s.entries)) [
        | inr c ↦ inr (if_false _ o ∙ rw (a, c) refl, copies-IsDenied granted 0 s.entries c)
        | inl c ↦ inl (record {
          owner = record s { owned = true; cap = length s.entries + 8 };
          ends = if_false _ o ∙ rw (a, c) refl;
          keeps = refl;
        })
      ]
    ]
  ]

  -- What setenv comes to on entries that are owned.
  abbrev pub Sets : Env → Bytes → Bytes → Env × ℤ → Type 0
  Sets s name value r = ((r.1 ≡ pos 0) × (get_at r.0.entries name ≡ some value)) ⊎ IsOutOfMemory s r

  place_entry-Sets :
      (s : Env) (name value : Bytes)
      → Sets s name value (place_entry granted s (entry_of name value) (env_find s name))
  unfolding env_find grow_for_one
  place_entry-Sets s name value = elim (Option-cases (find_from 0 s.entries name)) [
    | inr (j, e) ↦ rw e (inl (refl, get_at-set s.entries name value 0 j j e (omega arith)))
    | inl e ↦
        let added = get_at-append s.entries name value 0 e in
        elim (Bool-cases (leb (length s.entries + 2) s.cap)) [
          | inl c ↦ rw (e, c) (inl (refl, added))
          | inr c ↦ elim (Bool-cases (granted grown_array)) [
            | inl g ↦ rw (e, c, g) (inl (refl, added))
            | inr g ↦
                rw (e, c, g)
                  (inr (record {
                    fails = refl;
                    sets_errno = refl;
                    keeps = refl;
                    denied = (grown_array, g);
                  }))
          ]
        ]
  ]

  set_found-Sets :
      (s : Env) (name value : Bytes)
      → Sets s name value (set_found granted s name value true (env_find s name))
  set_found-Sets s name value =
      let writes : (is_some (env_find s name) && not true) ≡ false = ground arith in
      elim (Bool-cases (granted new_entry)) [
        | inl g ↦ rw (set_found, writes, g) (place_entry-Sets s name value)
        | inr g ↦
            rw (set_found, writes, g)
              (inr
                (record { fails = refl; sets_errno = refl; keeps = refl; denied = (new_entry, g) }))
      ]

  setenv_good :
      (s : Env) (name value : Bytes)
      → bad_name name ≡ false
      → setenv granted s name value true
        ≡ set_owned granted name value true (take_ownership granted s)
  unfolding setenv
  setenv_good s name value good = rw (setenv, good) refl

  setenv-Sets :
      (s : Env) (name value : Bytes)
      → bad_name name ≡ false
      → Sets s name value (setenv granted s name value true)
  unfolding set_owned env_find
  setenv-Sets s name value good = elim (take_ownership-cases s) [
    | inl o ↦
        rw (setenv_good s name value good, o.ends)
          (moved o.owner o.keeps (set_found-Sets o.owner name value))
    | inr (e, d) ↦
        rw (setenv_good s name value good, e)
          (inr (record { fails = refl; sets_errno = refl; keeps = refl; denied = d }))
  ]
    where
      moved :
          (t : Env)
          → t.entries ≡ s.entries
          → {r : Env × ℤ} → Sets t name value r
          → Sets s name value r
      moved t k (inl h) = inl h
      moved t k (inr h) = inr (record {
        fails = h.fails;
        sets_errno = h.sets_errno;
        keeps = h.keeps ∙ k;
        denied = h.denied;
      })

bad_name-ne : (name : Bytes) → bad_name name ≡ false → name ≢ []
unfolding bad_name
bad_name-ne [] good n = ground arith
bad_name-ne (c ∷ name) good n = cc

-- setenv, of a name that is not empty and has no `=`, with `overwrite`, either returns 0, and getenv
-- then gets the value, whatever the environment and the /env store held; or an allocation has failed,
-- and it returns -1 with ENOMEM and leaves the entries as they were.
pub getenv-setenv :
    (granted : Site → Bool) (store : Bytes → Option Bytes) (s : Env) (name value : Bytes)
    → bad_name name ≡ false
    → let r = setenv granted s name value true in
      ((r.1 ≡ pos 0) × (getenv store r.0 name ≡ some value))
      ⊎ ((r.1 ≡ negsuc 0) × (r.0.errno ≡ enomem) × (r.0.entries ≡ s.entries) × IsDenied granted)
getenv-setenv granted store s name value good = elim (setenv-Sets granted s name value good) [
  | inl (z, e) ↦ inl (
    z,
    getenv_entry store (setenv granted s name value true).0 name value (bad_name-ne name good) e,
  )
  | inr h ↦ inr (h.fails, h.sets_errno, h.keeps, h.denied)
]
