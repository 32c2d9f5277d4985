-- ===== src/Posix/Kept/Opened.antt =====
-- lseek, isatty and open keep the table valid.
use racccoon.Base.{
  ℕ, ◌≤◌, ◌≡◌, refl, ap, ◌⊎◌, inl, inr, true, false, Option, none, some, ◌==◌, Bool, Bool-cases,
  Option-cases, ◌&&◌, ◌||◌, not,
}
use racccoon.Base.Int.{ℤ, pos, negsuc, ◌+ℤ◌}
use racccoon.Fs.Path.{abspath}
use racccoon.Posix.Server.{Bytes, FileInfo, Server}
use racccoon.Posix.Table.{
  ebadf, einval, eio, espipe, enotdir, enoent, eexist, Process, is_console, entry, fd_init,
  fd_alloc, open_at, file_at, isatty,
}
use racccoon.Posix.Table.Slots.{IsValid, fd_init-IsValid, errno-IsValid, fd_alloc-IsValid}
use racccoon.Posix.Kept.{world-IsValid, above-IsValid, fd_alloc-above}
use racccoon.Posix.Kept.Moving.{file_at-some, set_off-IsValid}
use racccoon.Posix.Transfer.{Whence, seek_base, lseek}
use racccoon.Posix.Files.{
  has_flag, create_empty, opened, open_slot, open_made, open_found, open_file,
}

⊎-cases : {A B : Type 0} (x : A ⊎ B) → ((a : A) × (x ≡ inl a)) ⊎ ((b : B) × (x ≡ inr b))
⊎-cases (inl a) = inl (a, refl)
⊎-cases (inr b) = inr (b, refl)

ℤ-cases : (z : ℤ) → ((n : ℕ) × (z ≡ pos n)) ⊎ ((n : ℕ) × (z ≡ negsuc n))
ℤ-cases (pos n) = inl (n, refl)
ℤ-cases (negsuc n) = inr (n, refl)

module _ (sv : Server) where
  pub lseek-IsValid :
      (s : Process sv.World) (fd offset : ℤ) (whence : Whence)
      → IsValid s
      → IsValid (lseek sv s fd offset whence).0
  unfolding lseek
  lseek-IsValid s fd offset whence v =
      let s₁ = fd_init s in
      let v₁ = fd_init-IsValid s v in
      elim (Option-cases (file_at s₁.fdtab fd)) [
        | inl e ↦ rw (lseek, e) (errno-IsValid s₁ espipe v₁)
        | inr (i, e) ↦
            let x = seek_base sv s₁ (entry s₁.fdtab i) whence in
            let v₂ = world-IsValid s₁ x.0 v₁ in
            elim (⊎-cases x.1) [
              | inl (n, q) ↦ rw (lseek, e, q) (errno-IsValid (record s₁ { world = x.0 }) n v₂)
              | inr (b, q) ↦ elim (ℤ-cases (pos b +ℤ offset)) [
                | inl (np, c) ↦
                    rw (lseek, e, q, c)
                      (set_off-IsValid (record s₁ { world = x.0 }) i np v₂
                        (file_at-some s₁.fdtab fd i e))
                | inr (n, c) ↦
                    rw (lseek, e, q, c) (errno-IsValid (record s₁ { world = x.0 }) einval v₂)
              ]
            ]
      ]

  opened-IsValid :
      (x : Process sv.World × Option ℕ) (ap : Bytes) (flags size : ℕ)
      → IsValid x.0
      → ((i : ℕ) → x.1 ≡ some i → 3 ≤ i)
      → IsValid (opened sv x ap flags size).0
  opened-IsValid (s, none) ap flags size v l = v
  opened-IsValid (s, some fd) ap flags size v l = above-IsValid s fd _ v (l fd refl)

  open_slot-IsValid :
      (s : Process sv.World) (ap : Bytes) (flags size : ℕ)
      → IsValid s
      → IsValid (open_slot sv s ap flags size).0
  unfolding open_slot
  open_slot-IsValid s ap flags size v =
      opened-IsValid (fd_alloc s) ap flags size (fd_alloc-IsValid s v) (λ i e. fd_alloc-above s i e)

  open_made-IsValid :
      (s : Process sv.World) (ap : Bytes) (flags : ℕ) (x : sv.World × Bool)
      → IsValid s
      → IsValid (open_made sv s ap flags x).0
  unfolding open_made
  open_made-IsValid s ap flags (w, true) v =
      open_slot-IsValid (record s { world = w }) ap flags 0 (world-IsValid s w v)
  open_made-IsValid s ap flags (w, false) v =
      errno-IsValid (record s { world = w }) eio (world-IsValid s w v)

  open_found-IsValid :
      (s : Process sv.World) (ap : Bytes) (flags : ℕ) (x : Option FileInfo)
      → IsValid s
      → IsValid (open_found sv s ap flags x).0
  unfolding open_found
  open_found-IsValid s ap flags none v = elim (Bool-cases (has_flag flags 65536)) [
    | inl e ↦ rw (open_found, e) (errno-IsValid s enotdir v)
    | inr e ↦ elim (Bool-cases (not (has_flag flags 64))) [
      | inl c ↦ rw (open_found, e, c) (errno-IsValid s enoent v)
      | inr c ↦ rw (open_found, e, c) (open_made-IsValid s ap flags (create_empty sv s.world ap) v)
    ]
  ]
  open_found-IsValid s ap flags (some info) v =
      elim (Bool-cases (has_flag flags 65536 && not (info.kind == 1))) [
        | inl e ↦ rw (open_found, e) (errno-IsValid s enotdir v)
        | inr e ↦ elim (Bool-cases (has_flag flags 64 && has_flag flags 128)) [
          | inl c ↦ rw (open_found, e, c) (errno-IsValid s eexist v)
          | inr c ↦
              elim (Bool-cases (has_flag flags 512 && (has_flag flags 1 || has_flag flags 2))) [
                | inl d ↦
                    rw (open_found, e, c, d)
                      (open_made-IsValid s ap flags (create_empty sv (sv.delete s.world ap).0 ap) v)
                | inr d ↦ rw (open_found, e, c, d) (open_slot-IsValid s ap flags info.size v)
              ]
        ]
      ]

  pub open_file-IsValid :
      (s : Process sv.World) (path : Bytes) (flags : ℕ)
      → IsValid s
      → IsValid (open_file sv s path flags).0
  unfolding open_file
  open_file-IsValid s path flags v =
      let s₁ = fd_init s in
      let ap = abspath (sv.cwd s₁.world) path in
      open_found-IsValid (record s₁ { world = (sv.stat s₁.world ap).0 }) ap flags
        (sv.stat s₁.world ap).1 (world-IsValid s₁ _ (fd_init-IsValid s v))

  pub isatty-IsValid :
      (s : Process sv.World) (stdin_is_console : sv.World → Bool) (fd : ℤ)
      → IsValid s
      → IsValid (isatty s stdin_is_console fd).0
  unfolding isatty
  isatty-IsValid s con fd v =
      let s₁ = fd_init s in
      let v₁ = fd_init-IsValid s v in
      elim (Option-cases (open_at s₁.fdtab fd)) [
        | inl e ↦ rw (isatty, e) (errno-IsValid s₁ ebadf v₁)
        | inr (i, e) ↦ elim (Bool-cases (not (is_console (entry s₁.fdtab i).kind))) [
          | inl c ↦ rw (isatty, e, c) v₁
          | inr c ↦ elim (Bool-cases (i == 0)) [
            | inl z ↦ rw (isatty, e, c, z) v₁
            | inr z ↦ rw (isatty, e, c, z) v₁
          ]
        ]
      ]
