-- ===== src/Threads/Mutex.antt =====
-- The mutexes of lib/racccoon-libc/src/rc_pthread.c. A call that would wait forever ends in
-- deadlock(), which aborts the program: it is `aborts`.
use racccoon.Base.{
  ℕ, ◌+◌, ◌-◌, ◌≤◌, ◌≡◌, ◌≢◌, refl, ◌∙◌, ==_iff, ◌⊎◌, inl, inr, Bool, true, false, not, ◌&&◌,
  Option, none, some, ltb, ◌==◌, if◌then◌else◌, arith, Bool-cases,
}
use racccoon.Base.Int.{ℤ, pos, negsuc}

abbrev pub normal : ℕ
normal = 0

abbrev pub recursive : ℕ
recursive = 1

abbrev pub errorcheck : ℕ
errorcheck = 2

abbrev pub eperm : ℕ
eperm = 1

abbrev pub ebusy : ℕ
ebusy = 16

abbrev pub edeadlk : ℕ
edeadlk = 35

abbrev pub einval : ℕ
einval = 22

-- `pthread_mutex_t`
pub record Mutex : Type 0 where
  pub count : ℕ
  pub kind : ℕ

-- What a call of the program comes to: a result with the new state, or abort().
pub data Outcome (S : Type 0) : Type 0 where
  returns : ℕ → S → Outcome S
  aborts : Outcome S

-- pthread_mutexattr_settype, on the type that the attribute has
pub mutexattr_settype : ℕ → ℤ → ℕ × ℕ
mutexattr_settype kind (negsuc n) = (einval, kind)
mutexattr_settype kind (pos n) = if ltb errorcheck n then (einval, kind) else (0, n)

-- pthread_mutex_init, with the type of the attribute where there is one; PTHREAD_MUTEX_DEFAULT is
-- PTHREAD_MUTEX_NORMAL.
unfoldable pub mutex_init : Option ℕ → Mutex
mutex_init none = record { count = 0; kind = normal }
mutex_init (some k) = record { count = 0; kind = k }

pub mutex_destroy : Mutex → ℕ
mutex_destroy m = if m.count == 0 then 0 else ebusy

abbrev pub busy : Mutex → Bool
busy m = not (m.count == 0) && not (m.kind == recursive)

pub mutex_trylock : Mutex → Outcome Mutex
mutex_trylock m = if busy m then returns ebusy m else returns 0 (record m { count = m.count + 1 })

unfoldable pub mutex_lock : Mutex → Outcome Mutex
mutex_lock m =
    if busy m
    then if m.kind == errorcheck then returns edeadlk m else aborts
    else returns 0 (record m { count = m.count + 1 })

pub mutex_unlock : Mutex → Outcome Mutex
mutex_unlock m =
    if m.count == 0 then returns eperm m else returns 0 (record m { count = m.count - 1 })

-- pthread_once: whether `fn` runs, and the new state of the control; PTHREAD_ONCE_INIT is 0.
pub once : ℕ → Bool × ℕ
once control = if control == 0 then (true, 1) else (false, control)

pub data Call : Type 0 where
  lock trylock unlock : Call

unfoldable pub run_call : Call → Mutex → Outcome Mutex
unfolding mutex_lock mutex_trylock mutex_unlock
run_call lock = mutex_lock
run_call trylock = mutex_trylock
run_call unlock = mutex_unlock

-- One call that returns, with its result.
pub data Step : Mutex → Call → ℕ → Mutex → Type 0 where
  step : (m m' : Mutex) (c : Call) (r : ℕ) → run_call c m ≡ returns r m' → Step m c r m'

-- The mutex `m'` comes from `m` by calls of which `held` more took it than gave it back.
pub data Reaches (m : Mutex) : ℕ → Mutex → Type 0 where
  stays : Reaches m 0 m
  takes :
      (held : ℕ) (m₁ m₂ : Mutex) (c : Call)
      → c ≢ unlock
      → Reaches m held m₁
      → Step m₁ c 0 m₂
      → Reaches m (held + 1) m₂
  gives :
      (held : ℕ) (m₁ m₂ : Mutex) → Reaches m (held + 1) m₁ → Step m₁ unlock 0 m₂ → Reaches m held m₂
  refused :
      (held r : ℕ) (m₁ m₂ : Mutex) (c : Call)
      → r ≢ 0
      → Reaches m held m₁
      → Step m₁ c r m₂
      → Reaches m held m₂

-- A call that returns an error leaves the mutex alone.
refused-same : (m m' : Mutex) (c : Call) (r : ℕ) → run_call c m ≡ returns r m' → r ≢ 0 → m' ≡ m
unfolding run_call mutex_lock mutex_trylock mutex_unlock
refused-same m m' lock r e h = elim (Bool-cases (busy m)) [
  | inr b ↦ ground arith
  | inl b ↦ elim (Bool-cases (m.kind == errorcheck)) [ inl k ↦ ground arith | inr k ↦ ground arith ]
]
refused-same m m' trylock r e h = ground arith
refused-same m m' unlock r e h = ground arith

-- A call that takes the mutex finds it free or recursive, and counts.
takes-counts :
    (m m' : Mutex) (c : Call)
    → run_call c m ≡ returns 0 m'
    → c ≢ unlock
    → (m'.count ≡ m.count + 1) × (m'.kind ≡ m.kind) × (busy m ≡ false)
unfolding run_call mutex_lock mutex_trylock mutex_unlock
takes-counts m m' lock e h = elim (Bool-cases (busy m)) [
  | inr b ↦ ground arith
  | inl b ↦ elim (Bool-cases (m.kind == errorcheck)) [ inl k ↦ ground arith | inr k ↦ ground arith ]
]
takes-counts m m' trylock e h = ground arith
takes-counts m m' unlock e h = absurd (h refl)

gives-counts :
    (m m' : Mutex)
    → run_call unlock m ≡ returns 0 m'
    → (m'.count + 1 ≡ m.count) × (m'.kind ≡ m.kind)
unfolding run_call mutex_unlock
gives-counts m m' e = ground arith

-- The invariant: the count is what is held, the type stays, and only a recursive mutex is held more
-- than once.
record Counts (k held : ℕ) (m : Mutex) : Type 0 where
  counted : m.count ≡ held
  kept : m.kind ≡ k
  once_held : k ≢ recursive → held ≤ 1

Reaches-Counts : (k held : ℕ) (m : Mutex) → Reaches (mutex_init (some k)) held m → Counts k held m
unfolding mutex_init
Reaches-Counts k _ _ stays = record { counted = refl; kept = refl; once_held = λ h. omega arith }
Reaches-Counts k _ m (takes held m₁ m₂ c not_unlock before (step _ _ _ _ e)) =
    let i = Reaches-Counts k held m₁ before in
    let (n, same, free) = takes-counts m₁ m₂ c e not_unlock in
    record {
      counted = omega (arith, n, i.counted);
      kept = same ∙ i.kept;
      once_held = λ h. ground (arith, i.counted, i.kept);
    }
Reaches-Counts k _ m (gives held m₁ m₂ before (step _ _ _ _ e)) =
    let i = Reaches-Counts k (held + 1) m₁ before in
    let (n, same) = gives-counts m₁ m₂ e in
    record {
      counted = omega (arith, n, i.counted);
      kept = same ∙ i.kept;
      once_held = λ h. omega (arith, i.once_held h);
    }
Reaches-Counts k _ m (refused held r m₁ m₂ c fails before (step _ _ _ _ e)) =
    let i = Reaches-Counts k held m₁ before in rw (refused-same m₁ m₂ c r e fails) i

-- Whatever calls come after pthread_mutex_init, `_count` is the number of those that took the mutex
-- less those that gave it back, and a mutex that is not recursive is held at most once.
pub mutex-excludes :
    (k held : ℕ) (m : Mutex)
    → Reaches (mutex_init (some k)) held m
    → (m.count ≡ held) × ((k ≡ recursive) ⊎ (held ≤ 1))
mutex-excludes k held m r =
    let i = Reaches-Counts k held m r in
    (
      i.counted,
      elim (Bool-cases (k == recursive)) [
        | inl e ↦ inl ((==_iff k recursive).0 e)
        | inr e ↦ inr (i.once_held (λ h. ground arith))
      ],
    )
