-- ===== src/Exec/Children.antt =====
-- The table of children of rc_proc.c: fork, waitpid and wait, over the system calls RC_SYS_RFORK and
-- RC_SYS_JOIN.
use racccoon.Base.{
  ℕ, zero, suc, ◌*◌, ◌%◌, ◌≤◌, ◌<◌, ◌≡◌, ◌≢◌, refl, ap, ◌∙◌, true, false, ltb, ◌==◌, if◌then◌else◌,
  List, [], ◌∷◌, ◌++◌, Option, none, some, length, arith,
}
use racccoon.Base.Int.{ℤ, pos, negsuc}

-- RC_CHILD_MAX
abbrev pub child_max : ℕ
child_max = 32

abbrev pub echild : ℕ
echild = 10

abbrev pub eagain : ℕ
eagain = 11

pub record Child : Type 0 where
  pub pid : ℕ
  pub gen : ℕ

-- `rc_children`, the first `rc_nchild` of them, and errno.
pub record Children : Type 0 where
  pub table : List Child
  pub errno : ℕ

unfoldable pub child_add : Children → Child → Children
child_add s c = if ltb (length s.table) child_max then record s { table = s.table ++ c ∷ [] } else s

-- fork, of the result of RC_SYS_RFORK and the generation that it stored
unfoldable pub fork : Children → ℤ → ℕ → Children × ℤ
fork s (negsuc n) gen = (record s { errno = eagain }, negsuc 0)
fork s (pos zero) gen = (record s { table = [] }, pos 0)
fork s (pos (suc n)) gen = (child_add s (record { pid = suc n; gen = gen }), pos (suc n))

-- The first child with the pid, and the table without it.
abbrev pub behind : Child → Option (Child × List Child) → Option (Child × List Child)
behind c none = none
behind c (some (d, cs)) = some (d, c ∷ cs)

unfoldable pub take_child : ℕ → List Child → Option (Child × List Child)
take_child pid [] = none
take_child pid (c ∷ cs) =
    let rest = take_child pid cs in if c.pid == pid then some (c, cs) else behind c rest

-- The child that waitpid joins: the one of that pid, or, where the pid is not positive, the oldest.
unfoldable pub chosen : ℤ → List Child → Option (Child × List Child)
chosen pid [] = none
chosen (pos (suc n)) (c ∷ cs) = take_child (suc n) (c ∷ cs)
chosen (pos zero) (c ∷ cs) = some (c, cs)
chosen (negsuc n) (c ∷ cs) = some (c, cs)

-- No child in the table has the pid.
abbrev pub Lacks : ℕ → List Child → Type 0
Lacks pid [] = Unit
Lacks pid (c ∷ cs) = (c.pid ≢ pid) × Lacks pid cs

take_child-last :
    (n gen : ℕ) (cs : List Child)
    → Lacks n cs
    → take_child n (cs ++ record { pid = n; gen = gen } ∷ [])
      ≡ some (record { pid = n; gen = gen }, cs)
unfolding take_child
take_child-last n gen [] h = let e : (n == n) ≡ true = ground arith in rw (take_child, e) refl
take_child-last n gen (c ∷ cs) h =
    let e : (c.pid == n) ≡ false = ground (arith, h.0) in
    rw (take_child, e) (ap (behind c) (take_child-last n gen cs h.1))

take_child-Lacks : (n : ℕ) (cs : List Child) → Lacks n cs → take_child n cs ≡ none
unfolding take_child
take_child-Lacks n [] h = refl
take_child-Lacks n (c ∷ cs) h =
    let e : (c.pid == n) ≡ false = ground (arith, h.0) in
    rw (take_child, e) (ap (behind c) (take_child-Lacks n cs h.1))

chosen_positive : (n : ℕ) (cs : List Child) → chosen (pos (suc n)) cs ≡ take_child (suc n) cs
unfolding chosen take_child
chosen_positive n [] = refl
chosen_positive n (c ∷ cs) = refl

module _ {W : Type 0} (join : W → ℕ → ℕ → W × ℕ) where
  -- `((int) code & 0xff) << 8`; `code` is the low word of the result of RC_SYS_JOIN
  abbrev pub joined : Children → List Child → Child → W × ℕ → W × Children × ℤ × ℕ
  joined s cs c (w, code) = (w, record s { table = cs }, pos c.pid, code % 256 * 256)

  abbrev pub wait_for : W → Children → Option (Child × List Child) → W × Children × ℤ × ℕ
  wait_for w s none = (w, record s { errno = echild }, negsuc 0, 0)
  wait_for w s (some (c, cs)) = joined s cs c (join w c.pid c.gen)

  -- waitpid: the world, the table, the result and, where there is one, the status
  unfoldable pub waitpid : W → Children → ℤ → W × Children × ℤ × ℕ
  waitpid w s pid = wait_for w s (chosen pid s.table)

  -- wait
  pub wait : W → Children → W × Children × ℤ × ℕ
  unfolding waitpid
  wait w s = waitpid w s (negsuc 0)

  -- waitpid with the pid that fork returned joins the child with that pid and the generation that fork
  -- recorded, returns the pid and the low byte of the exit code as status, and takes the child out of
  -- the table again, while the table has less than 32 children, none with that pid.
  pub waitpid-fork :
      (w : W) (s : Children) (n gen : ℕ)
      → length s.table < child_max
      → Lacks (suc n) s.table
      → let x = join w (suc n) gen in
        waitpid w (fork s (pos (suc n)) gen).0 (fork s (pos (suc n)) gen).1
        ≡ (x.0, s, pos (suc n), x.1 % 256 * 256)
  unfolding waitpid fork child_add
  waitpid-fork w s n gen room h =
      let e : ltb (length s.table) child_max ≡ true = ground arith in
      let c : Child = record { pid = suc n; gen = gen } in
      rw (fork, child_add, e)
        (ap (wait_for w (record s { table = s.table ++ c ∷ [] }))
          (chosen_positive n (s.table ++ c ∷ []) ∙ take_child-last (suc n) gen s.table h))

  -- fork drops a child without a word where the table has 32 already: waitpid with the pid that it
  -- returned fails with ECHILD, and joins nothing.
  pub waitpid-overflow :
      (w : W) (s : Children) (n gen : ℕ)
      → child_max ≤ length s.table
      → Lacks (suc n) s.table
      → waitpid w (fork s (pos (suc n)) gen).0 (fork s (pos (suc n)) gen).1
        ≡ (w, record s { errno = echild }, negsuc 0, 0)
  unfolding waitpid fork child_add
  waitpid-overflow w s n gen full h =
      let e : ltb (length s.table) child_max ≡ false = ground arith in
      rw (fork, child_add, e)
        (ap (wait_for w s) (chosen_positive n s.table ∙ take_child-Lacks (suc n) s.table h))
