-- ===== src/Posix/Table/Slots.antt =====
-- The table keeps its shape: 64 entries, and 0, 1 and 2 open.
use racccoon.Base.{
  ℕ, zero, suc, ◌+◌, ◌≤◌, ◌<◌, ◌≡◌, refl, sym, subst, ◌∙◌, ◌≢◌, ◌⊎◌, inl, inr, true, false, List,
  none, some, ◌==◌, ==_iff, Bool-cases, Option-cases, set, length, arith, length-set,
  get_or-set_self, get_or-set_ne,
}
use racccoon.Posix.Table.{
  fd_max, emfile, console, Fdent, empty_fdent, Process, is_free, entry, set_kind, fd_init,
  first_free, fd_alloc,
}

-- first_free finds the first free slot among `i .. i + k - 1`.
first_free-some :
    (k i r : ℕ) (t : List Fdent)
    → first_free k t i ≡ some r
    → (i ≤ r)
      × (r < i + k)
      × (is_free (entry t r).kind ≡ true)
      × ((j : ℕ) → i ≤ j → j < r → is_free (entry t j).kind ≡ false)
unfolding first_free
first_free-some zero i r t e = cc
first_free-some (suc k) i r t e = elim (Bool-cases (is_free (entry t i).kind)) [
  | inl f ↦
      let here : i ≡ r = ground arith in
      rw (← here) (omega arith, omega arith, f, λ j l h. absurd (omega arith))
  | inr f ↦
      let (lo, hi, fr, before) = first_free-some k (i + 1) r t (ground arith) in
      (
        omega arith,
        omega arith,
        fr,
        λ j l h. elim (Bool-cases (i == j)) [
          | inl same ↦ rw (← ((==_iff i j).0 same)) f
          | inr other ↦ before j (ground arith) h
        ],
      )
]

first_free-none :
    (k i : ℕ) (t : List Fdent)
    → first_free k t i ≡ none
    → (j : ℕ) → i ≤ j
    → j < i + k
    → is_free (entry t j).kind ≡ false
unfolding first_free
first_free-none zero i t e j l h = absurd (omega arith)
first_free-none (suc k) i t e j l h = elim (Bool-cases (is_free (entry t i).kind)) [
  | inl f ↦ absurd (ground arith)
  | inr f ↦ elim (Bool-cases (i == j)) [
    | inl same ↦ rw (← ((==_iff i j).0 same)) f
    | inr other ↦ first_free-none k (i + 1) t (ground arith) j (ground arith) (omega arith)
  ]
]

-- The table has its 64 entries, and once it has been set up 0, 1 and 2 are open.
pub record IsValid {W : Type 0} (s : Process W) : Type 0 where
  pub size : length s.fdtab ≡ fd_max
  pub standard : s.inited ≡ true → (i : ℕ) → i < 3 → is_free (entry s.fdtab i).kind ≡ false

pub entry-set_self : (t : List Fdent) (i : ℕ) (e : Fdent) → i < length t → entry (set t i e) i ≡ e
entry-set_self t i e h = get_or-set_self t i e empty_fdent h

pub entry-set_ne : (t : List Fdent) (i j : ℕ) (e : Fdent) → i ≢ j → entry (set t i e) j ≡ entry t j
entry-set_ne t i j e h = get_or-set_ne t i j e empty_fdent h

-- An open entry stored anywhere keeps the open slots open.
set-open :
    (t : List Fdent) (i j : ℕ) (e : Fdent)
    → i < length t
    → is_free e.kind ≡ false
    → is_free (entry t j).kind ≡ false
    → is_free (entry (set t i e) j).kind ≡ false
set-open t i j e l o h = elim (Bool-cases (i == j)) [
  | inl same ↦ rw (← ((==_iff i j).0 same), entry-set_self t i e l) o
  | inr other ↦ rw (entry-set_ne t i j e (ground arith)) h
]

set-open_self :
    (t : List Fdent) (i : ℕ) (e : Fdent)
    → i < length t
    → is_free e.kind ≡ false
    → is_free (entry (set t i e) i).kind ≡ false
set-open_self t i e l o = rw (entry-set_self t i e l) o

set_standard :
    (t : List Fdent)
    → length t ≡ fd_max
    → (i : ℕ) → i < 3
    → is_free (entry (set_kind (set_kind (set_kind t 0 console) 1 console) 2 console) i).kind
      ≡ false
set_standard t l i h = go i h
  where
    t₁ : List Fdent
    t₁ = set_kind t 0 console

    t₂ : List Fdent
    t₂ = set_kind t₁ 1 console

    l₁ : length t₁ ≡ fd_max
    l₁ = length-set t 0 _ ∙ l

    l₂ : length t₂ ≡ fd_max
    l₂ = length-set t₁ 1 _ ∙ l₁

    go : (i : ℕ) → i < 3 → is_free (entry (set_kind t₂ 2 console) i).kind ≡ false
    go zero h =
        set-open t₂ 2 0 _ (omega (arith, l₂)) refl
          (set-open t₁ 1 0 _ (omega (arith, l₁)) refl (set-open_self t 0 _ (omega arith) refl))
    go (suc zero) h =
        set-open t₂ 2 1 _ (omega (arith, l₂)) refl (set-open_self t₁ 1 _ (omega (arith, l₁)) refl)
    go (suc (suc zero)) h = set-open_self t₂ 2 _ (omega (arith, l₂)) refl
    go (suc (suc (suc i))) h = absurd (omega arith)

module _ {W : Type 0} where
  pub fd_init_done : (s : Process W) → s.inited ≡ true → fd_init s ≡ s
  unfolding fd_init
  fd_init_done s e = ground arith

  fd_init_fresh :
      (s : Process W)
      → s.inited ≡ false
      → fd_init s ≡ record s {
        fdtab = set_kind (set_kind (set_kind s.fdtab 0 console) 1 console) 2 console;
        inited = true;
      }
  unfolding fd_init
  fd_init_fresh s e = ground arith

  pub fd_init-IsValid : (s : Process W) → IsValid s → IsValid (fd_init s)
  fd_init-IsValid s v = elim (Bool-cases s.inited) [
    | inl e ↦ subst IsValid (sym (fd_init_done s e)) v
    | inr e ↦ subst IsValid (sym (fd_init_fresh s e)) (record {
      size = length-set _ 2 _ ∙ length-set _ 1 _ ∙ length-set s.fdtab 0 _ ∙ v.size;
      standard = λ _. set_standard s.fdtab v.size;
    })
  ]

  pub inited-fd_init : (s : Process W) → (fd_init s).inited ≡ true
  unfolding fd_init
  inited-fd_init s = ground arith

  -- Storing an open entry in a slot of the table keeps it valid.
  pub store-IsValid :
      (s : Process W) (i : ℕ) (e : Fdent)
      → IsValid s
      → i < fd_max
      → is_free e.kind ≡ false
      → IsValid (record s { fdtab = set s.fdtab i e })
  store-IsValid s i e v l o = record {
    size = length-set s.fdtab i e ∙ v.size;
    standard = λ on j h. set-open s.fdtab i j e (omega (arith, v.size)) o (v.standard on j h);
  }

  pub errno-IsValid : (s : Process W) (e : ℕ) → IsValid s → IsValid (record s { errno = e })
  errno-IsValid s e v = record { size = v.size; standard = v.standard }

  fd_alloc_found :
      (s : Process W) (i : ℕ)
      → first_free 61 (fd_init s).fdtab 3 ≡ some i
      → fd_alloc s ≡ (fd_init s, some i)
  unfolding fd_alloc
  fd_alloc_found s i e = rw (fd_alloc, e) refl

  fd_alloc_full :
      (s : Process W)
      → first_free 61 (fd_init s).fdtab 3 ≡ none
      → fd_alloc s ≡ (record (fd_init s) { errno = emfile }, none)
  unfolding fd_alloc
  fd_alloc_full s e = rw (fd_alloc, e) refl

  -- fd_alloc returns the lowest free descriptor above the three standard ones; it fails, with EMFILE,
  -- exactly where all of them are taken.
  pub fd_alloc_lem :
      (s : Process W)
      → ((fd_alloc s ≡ (record (fd_init s) { errno = emfile }, none))
          × ((j : ℕ) → 3 ≤ j → j < fd_max → is_free (entry (fd_init s).fdtab j).kind ≡ false))
        ⊎ ((i : ℕ) × (fd_alloc s ≡ (fd_init s, some i))
            × (3 ≤ i)
            × (i < fd_max)
            × (is_free (entry (fd_init s).fdtab i).kind ≡ true)
            × ((j : ℕ) → 3 ≤ j → j < i → is_free (entry (fd_init s).fdtab j).kind ≡ false))
  fd_alloc_lem s = elim (Option-cases (first_free 61 (fd_init s).fdtab 3)) [
    | inl e ↦
        inl (fd_alloc_full s e, λ j l h. first_free-none 61 3 (fd_init s).fdtab e j l (omega arith))
    | inr (i, e) ↦
        let (lo, hi, fr, before) = first_free-some 61 3 i (fd_init s).fdtab e in
        inr (i, fd_alloc_found s i e, lo, omega arith, fr, before)
  ]

  pub fd_alloc-IsValid : (s : Process W) → IsValid s → IsValid (fd_alloc s).0
  fd_alloc-IsValid s v = elim (fd_alloc_lem s) [
    | inl (e, full) ↦ rw e (errno-IsValid (fd_init s) emfile (fd_init-IsValid s v))
    | inr (i, e, lo, hi, fr, before) ↦ rw e (fd_init-IsValid s v)
  ]
