-- ===== src/Exec/Start.antt =====
-- __libc_start of lib/racccoon-libc/src/libc_start.c: the arguments and the environment of main, as the
-- addresses of strings in the blob that RC_SYS_EXEC mapped. The loops that a NUL ends take fuel. The
-- number of arguments that the kernel passes is no negative one.
use racccoon.Base.{
  ℕ, zero, suc, ◌+◌, min, ◌==◌, if◌then◌else◌, true, false, List, [], ◌∷◌, Option, none, some,
  Memory,
}
use racccoon.Exec.Blob.{argv_mark, env_mark}

-- LIBC_ARGV_MAX and LIBC_ENV_MAX
abbrev pub libc_argv_max : ℕ
libc_argv_max = 64

abbrev pub libc_env_max : ℕ
libc_env_max = 62

-- What main is called with: `libc_argv0` alone, or addresses of strings; and `environ`.
pub data Started : Type 0 where
  nameless : Started
  given : (argv envp : List ℕ) → Started

-- `while (*p) p++; p++;`
unfoldable pub past_string : ℕ → Memory → ℕ → Option ℕ
past_string zero m p = none
past_string (suc f) m p = elim (m p == 0) [ true ↦ some (p + 1) | false ↦ past_string f m (p + 1) ]

-- The loop over `n` strings: their addresses, and where it ends.
abbrev pub string_before : ℕ → Option (List ℕ × ℕ) → Option (List ℕ × ℕ)
string_before p none = none
string_before p (some (ps, end)) = some (p ∷ ps, end)

unfoldable pub strings : ℕ → Memory → ℕ → ℕ → Option (List ℕ × ℕ)
strings f m zero p = some ([], p)
strings f m (suc n) p = elim (past_string f m p) [
  | none ↦ none
  | some q ↦ string_before p (strings f m n q)
]

-- The loop over the environment, `n` rounds at most.
abbrev pub entry_before : ℕ → Option (List ℕ) → Option (List ℕ)
entry_before p none = none
entry_before p (some ps) = some (p ∷ ps)

unfoldable pub env_strings : ℕ → Memory → ℕ → ℕ → Option (List ℕ)
env_strings f m zero p = some []
env_strings f m (suc n) p = elim (m p == 0) [
  | true ↦ some []
  | false ↦ elim (past_string f m p) [ none ↦ none | some q ↦ entry_before p (env_strings f m n q) ]
]

abbrev pub given_env : List ℕ → Option (List ℕ) → Option Started
given_env ps none = none
given_env ps (some es) = some (given ps es)

-- A blob of execve of this library.
abbrev pub marked_start : ℕ → Memory → Option (List ℕ × ℕ) → Option Started
marked_start f m none = none
marked_start f m (some (ps, q)) =
    given_env ps (if m q == env_mark then env_strings f m libc_env_max (q + 1) else some [])

-- A blob of another program.
abbrev pub plain_start : Option (List ℕ × ℕ) → Option Started
plain_start none = none
plain_start (some (ps, q)) = some (given ps [])

unfoldable pub libc_start : ℕ → ℕ → Memory → ℕ → Option Started
libc_start f zero m p = some nameless
libc_start f (suc k) m p =
    let n = min (suc k) libc_argv_max in
    if m p == argv_mark
    then marked_start f m (strings f m n (p + 1))
    else plain_start (strings f m n p)
