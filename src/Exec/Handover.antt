-- ===== src/Exec/Handover.antt =====
-- What execve packs, __libc_start unpacks.
use racccoon.Base.{
  HoldsBytes, HoldsBytes-at, HoldsBytes-behind, ℕ, zero, suc, ◌+◌, ◌≤◌, ◌<◌, ◌≡◌, ◌≢◌, refl, sym,
  ap, subst, ◌∙◌, min, inl, inr, ◌==◌, true, false, leb, Bool-cases, List, [], ◌∷◌, ◌++◌, Option,
  some, length, length-append, append_assoc, arith, Memory, IsString, AreNonzero,
}
use racccoon.Posix.Server.{Bytes}
use racccoon.Exec.Blob.{
  blob_max, argv_mark, env_mark, terminated, env_part, whole_blob, fitted, build_blob,
  build_blob-fitted,
}
use racccoon.Exec.Start.{
  libc_argv_max, libc_env_max, Started, given, past_string, strings, env_strings, marked_start,
  libc_start,
}

-- Each of the addresses is that of the string in its place.
abbrev pub AreStrings : Memory → List ℕ → List Bytes → Type 0
AreStrings m [] [] = Unit
AreStrings m [] (s ∷ ss) = ⊥
AreStrings m (p ∷ ps) [] = ⊥
AreStrings m (p ∷ ps) (s ∷ ss) = IsString m p s × AreStrings m ps ss

abbrev pub AllNonzero : List Bytes → Type 0
AllNonzero [] = Unit
AllNonzero (s ∷ ss) = AreNonzero s × AllNonzero ss

abbrev pub AllNonempty : List Bytes → Type 0
AllNonempty [] = Unit
AllNonempty (s ∷ ss) = (0 < length s) × AllNonempty ss

HoldsBytes-IsString :
    (s rest : Bytes) (m : Memory) (p : ℕ)
    → AreNonzero s
    → HoldsBytes m p (s ++ (0 ∷ rest))
    → IsString m p s
HoldsBytes-IsString [] rest m p n h = h.0
HoldsBytes-IsString (c ∷ s) rest m p n h = (h.0, n.0, HoldsBytes-IsString s rest m (p + 1) n.1 h.1)

past_string-length :
    (f : ℕ) (m : Memory) (s : Bytes) (p : ℕ)
    → IsString m p s
    → length s < f
    → past_string f m p ≡ some (p + length s + 1)
unfolding past_string
past_string-length zero m s p h l = absurd (omega arith)
past_string-length (suc f) m [] p h l =
    let e : (m p == 0) ≡ true = ground (arith, h) in
    rw (past_string, e) (ap (λ q. some q) (omega arith))
past_string-length (suc f) m (c ∷ s) p h l =
    let e : (m p == 0) ≡ false = ground (arith, h.0, h.1) in
    rw (past_string, e)
      (past_string-length f m s (p + 1) h.2 (omega arith) ∙ ap (λ q. some q) (omega arith))

-- The strings that a loop finds, and what stands behind them.
record HasStrings (m : Memory) (p : ℕ) (ss : List Bytes) (rest : Bytes) (o : Option (List ℕ × ℕ))
    : Type 0 where
  ps : List ℕ
  ends : o ≡ some (ps, p + length (terminated ss))
  are : AreStrings m ps ss
  behind : HoldsBytes m (p + length (terminated ss)) rest

strings-HasStrings :
    (f : ℕ) (m : Memory) (ss : List Bytes) (rest : Bytes) (p : ℕ)
    → AllNonzero ss
    → HoldsBytes m p (terminated ss ++ rest)
    → length (terminated ss) < f
    → HasStrings m p ss rest (strings f m (length ss) p)
unfolding strings
strings-HasStrings f m [] rest p n h l = record {
  ps = [];
  ends = ap (λ q. some ([], q)) (omega arith);
  are = tt;
  behind = HoldsBytes-at m rest (omega arith) h;
}
strings-HasStrings f m (s ∷ ss) rest p n h l =
    let all = terminated ss ++ rest in
    let h' : HoldsBytes m p (s ++ (0 ∷ all)) =
      subst (HoldsBytes m p) (append_assoc s (0 ∷ terminated ss) rest) h in
    let size : length (terminated (s ∷ ss)) ≡ length s + suc (length (terminated ss)) =
      length-append s (0 ∷ terminated ss) in
    let here = HoldsBytes-IsString s all m p n.0 h' in
    let q = p + length s + 1 in
    let next : HoldsBytes m q all = (HoldsBytes-behind s (0 ∷ all) m p h').1 in
    let r = strings-HasStrings f m ss rest q n.1 next (omega arith) in
    let past = past_string-length f m s p here (omega arith) in
    rw (strings, past, r.ends)
      (record {
        ps = p ∷ r.ps;
        ends = ap (λ q. some (p ∷ r.ps, q)) (omega arith);
        are = (here, r.are);
        behind = HoldsBytes-at m rest (omega arith) r.behind;
      })

record HasEntries (m : Memory) (es : List Bytes) (o : Option (List ℕ)) : Type 0 where
  ps : List ℕ
  ends : o ≡ some ps
  are : AreStrings m ps es

env_strings-HasEntries :
    (f : ℕ) (m : Memory) (es : List Bytes) (n p : ℕ)
    → AllNonzero es
    → AllNonempty es
    → HoldsBytes m p (terminated es ++ (0 ∷ []))
    → length (terminated es) < f
    → length es ≤ n
    → HasEntries m es (env_strings f m n p)
unfolding env_strings
env_strings-HasEntries f m [] zero p nz ne h l k = record { ps = []; ends = refl; are = tt }
env_strings-HasEntries f m [] (suc n) p nz ne h l k =
    let e : (m p == 0) ≡ true = ground (arith, h.0) in
    rw (env_strings, e) (record { ps = []; ends = refl; are = tt })
env_strings-HasEntries f m (s ∷ es) zero p nz ne h l k = absurd (omega arith)
env_strings-HasEntries f m ([] ∷ es) (suc n) p nz ne h l k = absurd (omega (arith, ne.0))
env_strings-HasEntries f m ((c ∷ s) ∷ es) (suc n) p nz ne h l k =
    let all = terminated es ++ (0 ∷ []) in
    let h' : HoldsBytes m p ((c ∷ s) ++ (0 ∷ all)) =
      subst (HoldsBytes m p) (append_assoc (c ∷ s) (0 ∷ terminated es) (0 ∷ [])) h in
    let size : length (terminated ((c ∷ s) ∷ es)) ≡ length (c ∷ s) + suc (length (terminated es)) =
      length-append (c ∷ s) (0 ∷ terminated es) in
    let here = HoldsBytes-IsString (c ∷ s) all m p nz.0 h' in
    let first : (m p == 0) ≡ false = ground (arith, here.0, here.1) in
    let q = p + length (c ∷ s) + 1 in
    let next : HoldsBytes m q all = (HoldsBytes-behind (c ∷ s) (0 ∷ all) m p h').1 in
    let r = env_strings-HasEntries f m es n q nz.1 ne.1 next (omega arith) (omega arith) in
    let past = past_string-length f m (c ∷ s) p here (omega arith) in
    rw (env_strings, first, past, r.ends)
      (record { ps = p ∷ r.ps; ends = refl; are = (here, r.are) })

-- What main is given stands for the arguments and the environment.
pub record IsGiven (m : Memory) (argv envp : List Bytes) (o : Option Started) : Type 0 where
  pub args : List ℕ
  pub env : List ℕ
  pub ends : o ≡ some (given args env)
  pub args_are : AreStrings m args argv
  pub env_are : AreStrings m env envp

-- The environment behind the arguments.
module _ (f : ℕ) (m : Memory) (argv envp : List Bytes) (q : ℕ) (ps : List ℕ)
    (are : AreStrings m ps argv) (nonzero : AllNonzero envp) (nonempty : AllNonempty envp)
    (few : length envp ≤ libc_env_max) where
  marked_start-IsGiven :
      HoldsBytes m q (env_part envp)
      → (envp ≡ [] → m q ≢ env_mark)
      → length (terminated envp) < f
      → IsGiven m argv envp (marked_start f m (some (ps, q)))
  marked_start-IsGiven h unmarked l = go envp nonzero nonempty few h unmarked l
    where
      go :
          (es : List Bytes)
          → AllNonzero es
          → AllNonempty es
          → length es ≤ libc_env_max
          → HoldsBytes m q (env_part es)
          → (es ≡ [] → m q ≢ env_mark)
          → length (terminated es) < f
          → IsGiven m argv es (marked_start f m (some (ps, q)))
      go [] nz ne k h u l =
          let e : (m q == env_mark) ≡ false = ground (arith, u refl) in
          rw e (record { args = ps; env = []; ends = refl; args_are = are; env_are = tt })
      go (s ∷ es) nz ne k h u l =
          let e : (m q == env_mark) ≡ true = ground (arith, h.0) in
          let r = env_strings-HasEntries f m (s ∷ es) libc_env_max (q + 1) nz ne h.1 l k in
          rw (e, r.ends)
            (record { args = ps; env = r.ps; ends = refl; args_are = are; env_are = r.are })

fitted-some : (b c : Bytes) → fitted b ≡ some c → b ≡ c
fitted-some b c e = elim (Bool-cases (leb (length b) blob_max)) [
  | inl x ↦ ground (arith, e)
  | inr x ↦ ground (arith, e)
]

env_part_longer : (es : List Bytes) → length (terminated es) ≤ length (env_part es)
env_part_longer [] = omega arith
env_part_longer (e ∷ es) = omega (arith, length-append (terminated (e ∷ es)) (0 ∷ []))

-- The arguments and the environment that execve packs into its blob are those that __libc_start hands
-- to main, where the blob stands in the memory of the new program; with an argument or more and 64 at
-- most, an environment of 62 entries at most, none of them empty, and, where there is no environment,
-- no second mark in the byte behind the blob.
pub libc_start-build_blob :
    (f : ℕ) (m : Memory) (p : ℕ) (argv envp : List Bytes) (b : Bytes)
    → 0 < length argv
    → length argv ≤ libc_argv_max
    → length envp ≤ libc_env_max
    → AllNonzero argv
    → AllNonzero envp
    → AllNonempty envp
    → build_blob argv envp ≡ some b
    → HoldsBytes m p b
    → (envp ≡ [] → m (p + length b) ≢ env_mark)
    → length b < f
    → IsGiven m argv envp (libc_start f (length argv) m p)
unfolding libc_start
libc_start-build_blob f m p [] envp b l k few nz ez ne built h u fuel = absurd (omega arith)
libc_start-build_blob f m p (a ∷ args) envp b l k few nz ez ne built h u fuel =
    let argv = a ∷ args in
    let whole : whole_blob argv envp ≡ b =
      fitted-some _ b (sym (build_blob-fitted argv envp) ∙ built) in
    let h' : HoldsBytes m p (whole_blob argv envp) = subst (HoldsBytes m p) (sym whole) h in
    let size : length b ≡ 1 + length (terminated argv) + length (env_part envp) =
      omega (arith, ap length whole, length-append (terminated argv) (env_part envp)) in
    let marked : (m p == argv_mark) ≡ true = ground (arith, h'.0) in
    let all : min (suc (length args)) libc_argv_max ≡ length argv = omega arith in
    let r = strings-HasStrings f m argv (env_part envp) (p + 1) nz h'.1 (omega arith) in
    subst (λ x. IsGiven m argv envp x) (sym (opened marked all r.ends))
      (marked_start-IsGiven f m argv envp q r.ps r.are ez ne few r.behind
        (λ e g. u e (subst (λ x. m x ≡ env_mark) (at_end e size) g))
        (omega (arith, env_part_longer envp)))
  where
    q : ℕ
    q = p + 1 + length (terminated (a ∷ args))

    opened :
        {ps : List ℕ}
        → (m p == argv_mark) ≡ true
        → min (suc (length args)) libc_argv_max ≡ suc (length args)
        → strings f m (suc (length args)) (p + 1) ≡ some (ps, q)
        → libc_start f (suc (length args)) m p ≡ marked_start f m (some (ps, q))
    opened e g s = rw (libc_start, e, g, s) refl

    at_end :
        {es : List Bytes}
        → es ≡ []
        → length b ≡ 1 + length (terminated (a ∷ args)) + length (env_part es)
        → q ≡ p + length b
    at_end e g = omega (arith, g, ap (λ x. length (env_part x)) e)
