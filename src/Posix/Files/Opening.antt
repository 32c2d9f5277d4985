-- ===== src/Posix/Files/Opening.antt =====
-- open returns a descriptor of the file, or fails and leaves the table as it was.
use racccoon.Base.{
  ℕ, ◌≤◌, ◌<◌, ◌≡◌, refl, sym, ap, subst, ◌∙◌, ◌⊎◌, inl, inr, Bool, true, false, not, ◌&&◌, ◌||◌,
  Option, none, some, ◌==◌, if◌then◌else◌, set, take, Bool-cases,
}
use racccoon.Base.Int.{ℤ, pos, negsuc}
use racccoon.Fs.Path.{abspath}
use racccoon.Posix.Server.{Bytes, Server, FileInfo}
use racccoon.Posix.Table.{fd_max, file, Fdent, Process, entry, is_free}
use racccoon.Posix.Table.Slots.{fd_alloc_lem, fd_init_done}
use racccoon.Posix.Files.{has_flag, opened, open_made, open_slot, open_found, open_file}

module _ {W : Type 0} where
  -- The table of `s'` is that of `s` with a new entry for the file `path` in a free slot, whose number
  -- is the result; or it is that of `s`, and the result is -1.
  abbrev pub IsOpened : Process W → Bytes → ℕ → Process W × ℤ → Type 0
  IsOpened s path flags (s', r) =
      ((r ≡ negsuc 0) × (s'.fdtab ≡ s.fdtab) × (s'.inited ≡ s.inited))
      ⊎ ((i : ℕ) × (off : ℕ) × (r ≡ pos i)
          × (3 ≤ i)
          × (i < fd_max)
          × (is_free (entry s.fdtab i).kind ≡ true)
          × (s'.fdtab
              ≡ set s.fdtab i
                  (record { kind = file; flags = flags; off = off; path = take 127 path }))
          × (s'.inited ≡ s.inited))

module _ (sv : Server) where
  open_slot-IsOpened :
      (s : Process sv.World) (path : Bytes) (flags size : ℕ)
      → s.inited ≡ true
      → IsOpened s path flags (open_slot sv s path flags size)
  unfolding open_slot
  open_slot-IsOpened s path flags size on =
      let done = fd_init_done s on in
      elim (fd_alloc_lem s) [
        | inl (e, full) ↦
            subst (λ r. IsOpened s path flags (opened sv r path flags size)) (sym e)
              (inl (refl, ap (λ u. u.fdtab) done, ap (λ u. u.inited) done))
        | inr (i, e, lo, hi, fr, before) ↦
            let off = if has_flag flags 1024 then size else 0 in
            let new : Fdent = record {
              kind = file;
              flags = flags;
              off = off;
              path = take 127 path;
            } in
            subst (λ r. IsOpened s path flags (opened sv r path flags size)) (sym e)
              (inr (
                i,
                off,
                refl,
                lo,
                hi,
                ap (λ u. is_free (entry u.fdtab i).kind) (sym done) ∙ fr,
                ap (λ u. set u.fdtab i new) done,
                ap (λ u. u.inited) done,
              ))
      ]

  open_made-IsOpened :
      (s : Process sv.World) (path : Bytes) (flags : ℕ) (r : sv.World × Bool)
      → s.inited ≡ true
      → IsOpened s path flags (open_made sv s path flags r)
  unfolding open_made
  open_made-IsOpened s path flags (w, true) on =
      open_slot-IsOpened (record s { world = w }) path flags 0 on
  open_made-IsOpened s path flags (w, false) on = inl (refl, refl, refl)

  open_found-IsOpened :
      (s : Process sv.World) (path : Bytes) (flags : ℕ) (found : Option FileInfo)
      → s.inited ≡ true
      → IsOpened s path flags (open_found sv s path flags found)
  unfolding open_found
  open_found-IsOpened s path flags none on = elim (Bool-cases (has_flag flags 65536)) [
    | inl d ↦ rw d (inl (refl, refl, refl))
    | inr d ↦ elim (Bool-cases (has_flag flags 64)) [
      | inl c ↦ rw (d, c) (open_made-IsOpened s path flags _ on)
      | inr c ↦ rw (d, c) (inl (refl, refl, refl))
    ]
  ]
  open_found-IsOpened s path flags (some info) on =
      elim (Bool-cases (has_flag flags 65536 && not (info.kind == 1))) [
        | inl d ↦ rw d (inl (refl, refl, refl))
        | inr d ↦ elim (Bool-cases (has_flag flags 64 && has_flag flags 128)) [
          | inl c ↦ rw (d, c) (inl (refl, refl, refl))
          | inr c ↦
              elim (Bool-cases (has_flag flags 512 && (has_flag flags 1 || has_flag flags 2))) [
                | inl t ↦ rw (d, c, t) (open_made-IsOpened s path flags _ on)
                | inr t ↦ rw (d, c, t) (open_slot-IsOpened s path flags info.size on)
              ]
        ]
      ]

  -- open, in a process whose table has been set up: it puts the file, under its absolute path, in a
  -- free slot above the three standard ones and returns the slot's number, or it returns -1 and
  -- leaves the table as it was.
  pub open_file-IsOpened :
      (s : Process sv.World) (path : Bytes) (flags : ℕ)
      → s.inited ≡ true
      → IsOpened s (abspath (sv.cwd s.world) path) flags (open_file sv s path flags)
  unfolding open_file
  open_file-IsOpened s path flags on =
      let found = sv.stat s.world (abspath (sv.cwd s.world) path) in
      rw (open_file, fd_init_done s on)
        (open_found-IsOpened (record s { world = found.0 }) _ flags found.1 on)
