-- ===== src/Posix/Kept/Made.antt =====
-- creat, mkstemp and the calls relative to a directory keep the table valid.
use racccoon.Base.{
  ℕ, zero, suc, ◌+◌, inl, inr, true, false, Bool, Option, none, some, leb, ◌==◌, ◌||◌, length,
  if◌then◌else◌, Bool-cases, Option-cases,
}
use racccoon.Base.Int.{ℤ, pos, negsuc}
use racccoon.Posix.Server.{Bytes, Server}
use racccoon.Posix.Table.{
  ebadf, einval, eio, eexist, enoent, enotempty, Process, entry, fd_init, file_at,
}
use racccoon.Posix.Table.Slots.{IsValid, fd_init-IsValid, errno-IsValid}
use racccoon.Posix.Kept.{world-IsValid}
use racccoon.Posix.Kept.Opened.{open_file-IsValid}
use racccoon.Posix.Files.{
  open_file, has_flag, creat, stat_path, result_or, make_directory, unlink, rmdir, fill_template,
}
use racccoon.Posix.Files.Temporary.{
  enametoolong, is_absolute, is_cwd, after_open, mkstemp_tries, mkstemp, at_path, at_result, openat,
  unlinkat, mkdirat,
}
use racccoon.Posix.Kept.Resized.{stat_path-IsValid}

module _ (sv : Server) where
  pub creat-IsValid :
      (s : Process sv.World) (path : Bytes) → IsValid s → IsValid (creat sv s path).0
  unfolding creat
  creat-IsValid s path v = open_file-IsValid sv s path (1 + 64 + 512) v

  after_open-IsValid :
      (next : Process sv.World → Bytes → Process sv.World × Bytes × ℤ) (tmpl : Bytes)
      (r : Process sv.World × ℤ)
      → ((s : Process sv.World) → IsValid s → IsValid (next s tmpl).0)
      → IsValid r.0
      → IsValid (after_open sv next tmpl r).0
  after_open-IsValid next tmpl (s, pos i) h v = v
  after_open-IsValid next tmpl (s, negsuc e) h v = elim (Bool-cases (s.errno == eexist)) [
    | inl q ↦ rw (after_open, q) (h s v)
    | inr q ↦ rw (after_open, q) v
  ]

  mkstemp_tries-IsValid :
      (n k : ℕ) (seed : ℕ → ℕ) (s : Process sv.World) (tmpl : Bytes)
      → IsValid s
      → IsValid (mkstemp_tries sv n k seed s tmpl).0
  unfolding mkstemp_tries
  mkstemp_tries-IsValid zero k seed s tmpl v = errno-IsValid s eexist v
  mkstemp_tries-IsValid (suc n) k seed s tmpl v =
      elim (Option-cases (fill_template tmpl (seed k))) [
        | inl e ↦ rw (mkstemp_tries, e) (errno-IsValid s einval v)
        | inr (filled, e) ↦
            rw (mkstemp_tries, e)
              (after_open-IsValid (mkstemp_tries sv n (suc k) seed) filled _
                (λ s' v'. mkstemp_tries-IsValid n (suc k) seed s' filled v')
                (open_file-IsValid sv s filled (2 + 64 + 128) v))
      ]

  pub mkstemp-IsValid :
      (k : ℕ) (seed : ℕ → ℕ) (s : Process sv.World) (tmpl : Bytes)
      → IsValid s
      → IsValid (mkstemp sv k seed s tmpl).0
  unfolding mkstemp
  mkstemp-IsValid k seed s tmpl v = mkstemp_tries-IsValid 100 k seed s tmpl v

  at_path-IsValid :
      (s : Process sv.World) (dirfd : ℤ) (path : Bytes) (cap : ℕ)
      → IsValid s
      → IsValid (at_path sv s dirfd path cap).0
  unfolding at_path
  at_path-IsValid s dirfd path cap v =
      let v₁ = fd_init-IsValid s v in
      elim (Bool-cases (is_absolute path || is_cwd dirfd)) [
        | inl a ↦ elim (Bool-cases (leb cap (length path))) [
          | inl l ↦ rw (at_path, a, l) (errno-IsValid s enametoolong v)
          | inr l ↦ rw (at_path, a, l) v
        ]
        | inr a ↦ elim (Option-cases (file_at (fd_init s).fdtab dirfd)) [
          | inl e ↦ rw (at_path, a, e) (errno-IsValid _ ebadf v₁)
          | inr (i, e) ↦
              elim (Bool-cases
                (leb cap (length (entry (fd_init s).fdtab i).path + 1 + length path))) [
                  | inl l ↦ rw (at_path, a, e, l) (errno-IsValid _ enametoolong v₁)
                  | inr l ↦ rw (at_path, a, e, l) v₁
                ]
        ]
      ]

  at_result-IsValid :
      (r : Process sv.World × Option Bytes) (call : Process sv.World → Bytes → Process sv.World × ℤ)
      → IsValid r.0
      → ((s : Process sv.World) (p : Bytes) → IsValid s → IsValid (call s p).0)
      → IsValid (at_result sv r call).0
  at_result-IsValid (s, none) call v h = v
  at_result-IsValid (s, some p) call v h = h s p v

  pub openat-IsValid :
      (s : Process sv.World) (dirfd : ℤ) (path : Bytes) (flags : ℕ)
      → IsValid s
      → IsValid (openat sv s dirfd path flags).0
  unfolding openat
  openat-IsValid s dirfd path flags v =
      at_result-IsValid (at_path sv s dirfd path 256) (λ t p. open_file sv t p flags)
        (at_path-IsValid s dirfd path 256 v) (λ t p w. open_file-IsValid sv t p flags w)

  result_or-IsValid :
      (s : Process sv.World) (r : sv.World × Bool) (e : ℕ)
      → IsValid s
      → IsValid (result_or sv s r e).0
  result_or-IsValid s (w, true) e v = world-IsValid s w v
  result_or-IsValid s (w, false) e v = errno-IsValid _ e (world-IsValid s w v)

  make_directory-IsValid :
      (s : Process sv.World) (path : Bytes) → IsValid s → IsValid (make_directory sv s path).0
  unfolding make_directory
  make_directory-IsValid s path v =
      let v₁ = stat_path-IsValid sv s path v in
      elim (Option-cases (stat_path sv s path).1) [
        | inl e ↦ rw (make_directory, e) (result_or-IsValid _ _ eio v₁)
        | inr (info, e) ↦ rw (make_directory, e) (errno-IsValid _ eexist v₁)
      ]

  remove-IsValid :
      (s : Process sv.World) (p : Bytes) (dir : Bool)
      → IsValid s
      → IsValid (if dir then rmdir sv s p else unlink sv s p).0
  unfolding rmdir unlink
  remove-IsValid s p true v = result_or-IsValid s _ enotempty v
  remove-IsValid s p false v = result_or-IsValid s _ enoent v

  pub unlinkat-IsValid :
      (s : Process sv.World) (dirfd : ℤ) (path : Bytes) (flags : ℕ)
      → IsValid s
      → IsValid (unlinkat sv s dirfd path flags).0
  unfolding unlinkat
  unlinkat-IsValid s dirfd path flags v =
      at_result-IsValid (at_path sv s dirfd path 256)
        (λ t p. if has_flag flags 512 then rmdir sv t p else unlink sv t p)
        (at_path-IsValid s dirfd path 256 v) (λ t p w. remove-IsValid t p (has_flag flags 512) w)

  pub mkdirat-IsValid :
      (s : Process sv.World) (dirfd : ℤ) (path : Bytes)
      → IsValid s
      → IsValid (mkdirat sv s dirfd path).0
  unfolding mkdirat
  mkdirat-IsValid s dirfd path v =
      at_result-IsValid (at_path sv s dirfd path 256) (λ t p. make_directory sv t p)
        (at_path-IsValid s dirfd path 256 v) (λ t p w. make_directory-IsValid t p w)
