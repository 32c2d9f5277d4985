-- ===== src/Tests/Programs.antt =====
-- exec, start-up and the table of children on small inputs.
use racccoon.Base.{
  store-HoldsBytes, ℕ, ◌≤◌, ◌<◌, ◌⊎◌, zero, suc, ◌≡◌, ap, ◌==◌, ◌&&◌, not, AreNonzero, refl, Bool,
  true, List, [], ◌∷◌, some, length, replicate, arith, Memory, store,
}
use racccoon.Base.Int.{pos, negsuc}
use racccoon.Posix.Server.{Bytes}
use racccoon.Exec.{execve, executed, image_loop, load_image, loaded, failed, e2big}
use racccoon.Exec.Blob.{build_blob-fitted, whole_blob, blob_max}
use racccoon.Exec.Start.{libc_start}
use racccoon.Exec.Handover.{IsGiven, libc_start-build_blob}
use racccoon.Exec.Children.{Children, Lacks, fork, waitpid, echild, waitpid-fork, waitpid-overflow}
use racccoon.Exec.Loaded.{execve-executed, execve-whole_blob}
use racccoon.Tests.Files.{codes, one_file, holds_hello}

-- The strings have no NUL.
abbrev no_nul : Bytes → Bool
no_nul [] = true
no_nul (c ∷ s) = not (c == 0) && no_nul s

no_nul-AreNonzero : (s : Bytes) → no_nul s ≡ true → AreNonzero s
no_nul-AreNonzero [] e = tt
no_nul-AreNonzero (c ∷ s) e = ((λ z. ground arith), no_nul-AreNonzero s (ground arith))

many_lack : (n : ℕ) → Lacks 7 (replicate n (record { pid = 2; gen = 1 }))
many_lack zero = tt
many_lack (suc n) = ((λ e. omega (arith, e)), many_lack n)

abbrev ls_argv : List Bytes
ls_argv = codes "ls" ∷ codes "-l" ∷ []

abbrev home_env : List Bytes
home_env = codes "HOME=/" ∷ []

abbrev ls_blob : Bytes
ls_blob = whole_blob ls_argv home_env

hello_loaded :
    load_image one_file (λ n. true) (codes "hello") (codes "/a")
    ≡ some (codes "hello", loaded (codes "hello"))
unfolding load_image image_loop
hello_loaded = refl

execve-whole_blob_example :
    ((length ls_blob ≤ blob_max)
      × (execve one_file
            (λ n. true)
            (λ w image blob ac. (w, true))
            (codes "hello")
            (codes "/a")
            ls_argv
            home_env
          ≡ some
              (executed one_file (λ n. true) (λ w image blob ac. (w, true)) (codes "hello", true))))
    ⊎ ((blob_max < length ls_blob)
        × (execve one_file
              (λ n. true)
              (λ w image blob ac. (w, true))
              (codes "hello")
              (codes "/a")
              ls_argv
              home_env
            ≡ some (codes "hello", failed e2big)))
execve-whole_blob_example =
    execve-whole_blob one_file (λ n. true) (λ w image blob ac. (w, true)) (codes "hello")
      (codes "hello") (codes "/a") (codes "hello") ls_argv home_env hello_loaded

abbrev loaded_memory : Memory
loaded_memory = store (λ a. 0) 100 ls_blob

libc_start-build_blob_example :
    IsGiven loaded_memory ls_argv home_env (libc_start 100 2 loaded_memory 100)
libc_start-build_blob_example =
    libc_start-build_blob 100 loaded_memory 100 ls_argv home_env ls_blob (omega arith) (omega arith)
      (omega arith) (no_nul-AreNonzero (codes "ls") refl, (no_nul-AreNonzero (codes "-l") refl, tt))
      (no_nul-AreNonzero (codes "HOME=/") refl, tt) (omega arith, tt)
      (build_blob-fitted ls_argv home_env) (store-HoldsBytes ls_blob (λ a. 0) 100)
      (λ e. absurd (omega (arith, ap length e))) (omega arith)

execve-executed_example :
    (w : Bytes) × (execve one_file
        (λ n. true)
        (λ w image blob ac. (w, true))
        (codes "hello")
        (codes "/a")
        ls_argv
        home_env
      ≡ some (executed one_file (λ n. true) (λ w image blob ac. (w, true)) (w, true)))
    × (w ≡ codes "hello")
execve-executed_example =
    execve-executed one_file 10000 (codes "/a") (codes "hello") (λ w. w ≡ codes "hello") holds_hello
      (omega arith) (omega arith) (λ n. true) (codes "hello") (codes "hello") 0 refl refl refl
      (omega arith) (omega arith) refl (λ w image blob ac. (w, true)) ls_argv home_env ls_blob
      (build_blob-fitted ls_argv home_env)

abbrev no_children : Children
no_children = record { table = []; errno = 0 }

abbrev exits_with_three : ℕ → ℕ → ℕ → ℕ × ℕ
exits_with_three w pid gen = (w, 3)

waitpid-fork_example :
    waitpid exits_with_three 0 (fork no_children (pos 7) 1).0 (fork no_children (pos 7) 1).1
    ≡ (0, no_children, pos 7, 768)
waitpid-fork_example = waitpid-fork exits_with_three 0 no_children 6 1 (omega arith) tt

abbrev many_children : Children
many_children = record { table = replicate 32 (record { pid = 2; gen = 1 }); errno = 0 }

waitpid-overflow_example :
    waitpid exits_with_three 0 (fork many_children (pos 7) 1).0 (fork many_children (pos 7) 1).1
    ≡ (0, record many_children { errno = echild }, negsuc 0, 0)
waitpid-overflow_example =
    waitpid-overflow exits_with_three 0 many_children 6 1 (omega arith) (many_lack 32)
