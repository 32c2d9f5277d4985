-- ===== src/Posix/Kept/Resized.antt =====
-- fstat and ftruncate keep the table valid.
use racccoon.Base.{
  ℕ, suc, inl, inr, Bool, not, [], Option, none, some, ltb, ◌==◌, ◌&&◌, take, Bool-cases,
  Option-cases,
}
use racccoon.Base.Int.{ℤ, pos, negsuc}
use racccoon.Posix.Server.{Bytes, Server}
use racccoon.Posix.Table.{
  ebadf, einval, eio, enoent, Process, is_console, entry, fd_init, open_at, file_at,
}
use racccoon.Posix.Table.Slots.{IsValid, fd_init-IsValid, errno-IsValid}
use racccoon.Posix.Kept.{world-IsValid, LeavesValid}
use racccoon.Posix.Files.{stat_path, fstat}
use racccoon.Posix.Files.Shrinking.{
  enomem, grow, keep_bytes, rewrite, shrink, resize, truncate_slot, ftruncate,
}

module _ (sv : Server) where
  pub stat_path-IsValid :
      (s : Process sv.World) (path : Bytes) → IsValid s → IsValid (stat_path sv s path).0
  unfolding stat_path
  stat_path-IsValid s path v =
      let v₁ = world-IsValid s (sv.stat s.world path).0 v in
      elim (Option-cases (sv.stat s.world path).1) [
        | inl e ↦ rw (stat_path, e) (errno-IsValid _ enoent v₁)
        | inr (info, e) ↦ rw (stat_path, e) v₁
      ]

  pub fstat-IsValid : (s : Process sv.World) (fd : ℤ) → IsValid s → IsValid (fstat sv s fd).0
  unfolding fstat
  fstat-IsValid s fd v =
      let v₁ = fd_init-IsValid s v in
      elim (Option-cases (open_at (fd_init s).fdtab fd)) [
        | inl e ↦ rw (fstat, e) (errno-IsValid _ ebadf v₁)
        | inr (i, e) ↦ elim (Bool-cases (is_console (entry (fd_init s).fdtab i).kind)) [
          | inl c ↦ rw (fstat, e, c) v₁
          | inr c ↦ rw (fstat, e, c) (stat_path-IsValid (fd_init s) _ v₁)
        ]
      ]

  -- The state behind a call on a file.
  abbrev pub behind : Process sv.World × ℤ → Process sv.World
  behind x = x.0

  rewrite-IsValid :
      (s : Process sv.World) (path : Bytes) (want : ℕ) (keep : Bytes)
      → IsValid s
      → IsValid (rewrite sv s path want keep).0
  rewrite-IsValid s path want keep v =
      let put = sv.write_at (sv.delete s.world path).0 path (take want keep) 0 in
      let v₁ = world-IsValid s put.0 v in
      elim (Option-cases put.1) [
        | inl e ↦ rw (rewrite, e) (errno-IsValid _ eio v₁)
        | inr (n, e) ↦ elim (Bool-cases (n == want)) [
          | inl c ↦ rw (rewrite, e, c) v₁
          | inr c ↦ rw (rewrite, e, c) (errno-IsValid _ eio v₁)
        ]
      ]

  shrink-LeavesValid :
      (s : Process sv.World) (path : Bytes) (want : ℕ) (room : Bool)
      → IsValid s
      → LeavesValid behind (shrink sv s path want room)
  unfolding shrink
  shrink-LeavesValid s path want room v = elim (Bool-cases (not (want == 0) && not room)) [
    | inl e ↦ rw (shrink, e) (errno-IsValid s enomem v)
    | inr e ↦ elim (Option-cases (keep_bytes sv (suc want) s.world path want [])) [
      | inl q ↦ rw (shrink, e, q) tt
      | inr (r, q) ↦ elim (Option-cases r.1) [
        | inl c ↦ rw (shrink, e, q, c) (errno-IsValid _ eio (world-IsValid s r.0 v))
        | inr (keep, c) ↦
            rw (shrink, e, q, c) (rewrite-IsValid _ path want keep (world-IsValid s r.0 v))
      ]
    ]
  ]

  resize-LeavesValid :
      (s : Process sv.World) (path : Bytes) (size want : ℕ) (room : Bool)
      → IsValid s
      → LeavesValid behind (resize sv s path size want room)
  unfolding resize
  resize-LeavesValid s path size want room v = elim (Bool-cases (want == size)) [
    | inl e ↦ rw (resize, e) v
    | inr e ↦ elim (Bool-cases (ltb want size)) [
      | inl c ↦ rw (resize, e, c) (shrink-LeavesValid s path want room v)
      | inr c ↦ elim (Option-cases (grow sv (suc want) s.world path size want)) [
        | inl q ↦ rw (resize, e, c, q) tt
        | inr (r, q) ↦ elim (Bool-cases r.1) [
          | inl d ↦ rw (resize, e, c, q, d) (world-IsValid s r.0 v)
          | inr d ↦ rw (resize, e, c, q, d) (errno-IsValid _ eio (world-IsValid s r.0 v))
        ]
      ]
    ]
  ]

  truncate_slot-LeavesValid :
      (s : Process sv.World) (n : ℤ) (room : Bool) (o : Option ℕ)
      → IsValid s
      → LeavesValid behind (truncate_slot sv s n room o)
  truncate_slot-LeavesValid s n room none v = errno-IsValid s ebadf v
  truncate_slot-LeavesValid s (negsuc n) room (some i) v = errno-IsValid s einval v
  truncate_slot-LeavesValid s (pos want) room (some i) v =
      let v₁ = world-IsValid s (sv.stat s.world (entry s.fdtab i).path).0 v in
      elim (Option-cases (sv.stat s.world (entry s.fdtab i).path).1) [
        | inl e ↦ rw (truncate_slot, e) (errno-IsValid _ eio v₁)
        | inr (info, e) ↦
            rw (truncate_slot, e)
              (resize-LeavesValid _ (entry s.fdtab i).path info.size want room v₁)
      ]

  pub ftruncate-LeavesValid :
      (s : Process sv.World) (fd n : ℤ) (room : Bool)
      → IsValid s
      → LeavesValid behind (ftruncate sv s fd n room)
  unfolding ftruncate
  ftruncate-LeavesValid s fd n room v =
      truncate_slot-LeavesValid (fd_init s) n room (file_at (fd_init s).fdtab fd)
        (fd_init-IsValid s v)
