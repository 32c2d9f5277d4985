-- ===== src/Exec/Blob.antt =====
-- The blob of execve in rc_proc.c: a mark, the arguments, and, where there is an environment, a second
-- mark, its entries and an empty string, each string with its NUL, in 16384 bytes.
use racccoon.Base.{
  ℕ, ◌≤◌, ◌≡◌, refl, ap, ◌∙◌, inl, inr, true, false, leb, Bool-cases, if◌then◌else◌, List, [], ◌∷◌,
  ◌++◌, Option, none, some, length, append_assoc, append-nil, length-append, arith,
}
use racccoon.Posix.Server.{Bytes}

-- RC_EXEC_BLOB_MAX
abbrev pub blob_max : ℕ
blob_max = 16384

-- LIBC_ARGV0_MARK and LIBC_ENV_MARK
abbrev pub argv_mark : ℕ
argv_mark = 1

abbrev pub env_mark : ℕ
env_mark = 2

-- One byte behind the others, where there is room.
abbrev pub put_byte : Bytes → ℕ → Option Bytes
put_byte blob c = if leb blob_max (length blob) then none else some (blob ++ c ∷ [])

-- The next step, unless E2BIG has ended the call.
abbrev pub then_put : Option Bytes → (Bytes → Option Bytes) → Option Bytes
then_put none next = none
then_put (some blob) next = next blob

unfoldable pub blob_put : Bytes → Bytes → Option Bytes
blob_put blob [] = put_byte blob 0
blob_put blob (c ∷ s) = then_put (put_byte blob c) (λ b. blob_put b s)

unfoldable pub put_all : Bytes → List Bytes → Option Bytes
put_all blob [] = some blob
put_all blob (s ∷ ss) = then_put (blob_put blob s) (λ b. put_all b ss)

unfoldable pub put_env : Bytes → List Bytes → Option Bytes
put_env blob [] = some blob
put_env blob (e ∷ es) =
    then_put (put_byte blob env_mark) (λ b. then_put (put_all b (e ∷ es)) (λ b'. put_byte b' 0))

unfoldable pub build_blob : List Bytes → List Bytes → Option Bytes
build_blob argv envp = then_put (put_all (argv_mark ∷ []) argv) (λ b. put_env b envp)

-- What the blob should be.
abbrev pub terminated : List Bytes → Bytes
terminated [] = []
terminated (s ∷ ss) = s ++ (0 ∷ terminated ss)

abbrev pub env_part : List Bytes → Bytes
env_part [] = []
env_part (e ∷ es) = env_mark ∷ (terminated (e ∷ es) ++ 0 ∷ [])

abbrev pub whole_blob : List Bytes → List Bytes → Bytes
whole_blob argv envp = argv_mark ∷ (terminated argv ++ env_part envp)

-- All of some bytes behind the others, where there is room.
abbrev pub fitted : Bytes → Option Bytes
fitted b = if leb (length b) blob_max then some b else none

put_byte-fitted : (b : Bytes) (c : ℕ) → put_byte b c ≡ fitted (b ++ c ∷ [])
put_byte-fitted b c = elim (Bool-cases (leb blob_max (length b))) [
  | inl e ↦
      let long : leb (length (b ++ c ∷ [])) blob_max ≡ false =
        ground (arith, length-append b (c ∷ [])) in
      rw (e, long) refl
  | inr e ↦
      let short : leb (length (b ++ c ∷ [])) blob_max ≡ true =
        ground (arith, length-append b (c ∷ [])) in
      rw (e, short) refl
]

-- Steps that each put some bytes behind the others put all of these there.
then_put-fitted :
    (b xs : Bytes) (next : Bytes → Option Bytes)
    → ((b' : Bytes) → length b' ≤ blob_max → next b' ≡ fitted (b' ++ xs))
    → then_put (fitted b) next ≡ fitted (b ++ xs)
then_put-fitted b xs next h = elim (Bool-cases (leb (length b) blob_max)) [
  | inl e ↦ rw e (h b (ground arith))
  | inr e ↦
      let long : leb (length (b ++ xs)) blob_max ≡ false = ground (arith, length-append b xs) in
      rw (e, long) refl
]

blob_put-fitted : (s b : Bytes) → blob_put b s ≡ fitted (b ++ (s ++ 0 ∷ []))
unfolding blob_put
blob_put-fitted [] b = put_byte-fitted b 0
blob_put-fitted (c ∷ s) b =
    ap (λ o. then_put o (λ b'. blob_put b' s)) (put_byte-fitted b c)
    ∙ then_put-fitted (b ++ c ∷ []) (s ++ 0 ∷ []) (λ b'. blob_put b' s)
        (λ b' l. blob_put-fitted s b')
    ∙ ap fitted (append_assoc b (c ∷ []) (s ++ 0 ∷ []))

put_all-fitted :
    (ss : List Bytes) (b : Bytes) → length b ≤ blob_max → put_all b ss ≡ fitted (b ++ terminated ss)
unfolding put_all
put_all-fitted [] b h =
    let short : leb (length b) blob_max ≡ true = ground arith in rw (append-nil b, short) refl
put_all-fitted (s ∷ ss) b h =
    ap (λ o. then_put o (λ b'. put_all b' ss)) (blob_put-fitted s b)
    ∙ then_put-fitted (b ++ (s ++ 0 ∷ [])) (terminated ss) (λ b'. put_all b' ss) (put_all-fitted ss)
    ∙ ap fitted (
        append_assoc b (s ++ 0 ∷ []) (terminated ss)
        ∙ ap (λ u. b ++ u) (append_assoc s (0 ∷ []) (terminated ss)))

put_env-fitted :
    (es : List Bytes) (b : Bytes) → length b ≤ blob_max → put_env b es ≡ fitted (b ++ env_part es)
unfolding put_env
put_env-fitted [] b h =
    let short : leb (length b) blob_max ≡ true = ground arith in rw (append-nil b, short) refl
put_env-fitted (e ∷ es) b h =
    let all = terminated (e ∷ es) in
    ap (λ o. then_put o (λ b'. then_put (put_all b' (e ∷ es)) (λ b''. put_byte b'' 0)))
      (put_byte-fitted b env_mark)
    ∙ then_put-fitted (b ++ env_mark ∷ []) (all ++ 0 ∷ [])
        (λ b'. then_put (put_all b' (e ∷ es)) (λ b''. put_byte b'' 0))
        (λ b' l.
          ap (λ o. then_put o (λ b''. put_byte b'' 0)) (put_all-fitted (e ∷ es) b' l)
          ∙ then_put-fitted (b' ++ all) (0 ∷ []) (λ b''. put_byte b'' 0)
              (λ b'' m. put_byte-fitted b'' 0)
          ∙ ap fitted (append_assoc b' all (0 ∷ [])))
    ∙ ap fitted (append_assoc b (env_mark ∷ []) (all ++ 0 ∷ []))

-- The blob of execve is the mark of the arguments, each argument with its NUL, and, where the
-- environment has entries, a second mark, these with their NUL and one NUL more, where these are 16384
-- bytes at most.
pub build_blob-fitted :
    (argv envp : List Bytes) → build_blob argv envp ≡ fitted (whole_blob argv envp)
unfolding build_blob
build_blob-fitted argv envp =
    ap (λ o. then_put o (λ b. put_env b envp)) (put_all-fitted argv (argv_mark ∷ []) (omega arith))
    ∙ then_put-fitted (argv_mark ∷ terminated argv) (env_part envp) (λ b. put_env b envp)
        (put_env-fitted envp)
