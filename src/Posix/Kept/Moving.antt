-- ===== src/Posix/Kept/Moving.antt =====
-- The transfers of rc_posix.c and open keep the table valid.
use racccoon.Base.{
  ℕ, suc, ◌<◌, ◌≡◌, refl, inl, inr, List, [], ◌∷◌, Option, none, some, length, arith, Bool-cases,
  Option-cases,
}
use racccoon.Base.Int.{ℤ, pos, negsuc}
use racccoon.Posix.Server.{Bytes, Server}
use racccoon.Posix.Table.{
  fd_max, ebadf, einval, eio, Kind, free, console, file, net, Fdent, Process, entry, fd_init,
  open_at, file_at,
}
use racccoon.Posix.Table.Slots.{IsValid, fd_init-IsValid, errno-IsValid}
use racccoon.Posix.Kept.{world-IsValid, open_at-some, kind-IsValid, LeavesValid}
use racccoon.Posix.Kept.Datagrams.{net_send-LeavesValid, net_recv-LeavesValid}
use racccoon.Net.Peers.{net_recv}
use racccoon.Posix.Transfer.{
  Moved, set_off, finish, received_bytes, read_loop, write_loop, read_open, read, console_write,
  write_open, write, pread_slot, pread, pwrite_slot, pwrite,
}

pub file_at-some : (t : List Fdent) (fd : ℤ) (i : ℕ) → file_at t fd ≡ some i → i < fd_max
file_at-some t (pos j) i e = ground arith
file_at-some t (negsuc n) i e = cc

module _ {W : Type 0} where
  -- An offset may move in any entry.
  pub set_off-IsValid :
      (s : Process W) (i off : ℕ) → IsValid s → i < fd_max → IsValid (set_off s i off)
  set_off-IsValid s i off v l = kind-IsValid s i (record (entry s.fdtab i) { off = off }) v l refl

module _ (sv : Server) where
  finish-IsValid :
      (s : Process sv.World) (i : ℕ) (r : Moved sv.World)
      → IsValid s
      → i < fd_max
      → IsValid (finish sv s i r).0
  finish-IsValid s i r v l = elim (Bool-cases r.failed) [
    | inl e ↦ rw e (
        errno-IsValid _ eio
          (set_off-IsValid (record s { world = r.world }) i r.off (world-IsValid s r.world v) l))
    | inr e ↦
        rw e (set_off-IsValid (record s { world = r.world }) i r.off (world-IsValid s r.world v) l)
  ]

  -- The states behind a read and behind a write.
  abbrev pub after_read : Process sv.World × ℤ × Bytes → Process sv.World
  after_read x = x.0

  abbrev pub after : Process sv.World × ℤ → Process sv.World
  after x = x.0

  received_bytes-LeavesValid :
      (o : Option (Process sv.World × Option (Bytes × Bytes)))
      → LeavesValid (λ x. x.0) o
      → LeavesValid after_read (received_bytes sv o)
  received_bytes-LeavesValid none v = tt
  received_bytes-LeavesValid (some (s, none)) v = v
  received_bytes-LeavesValid (some (s, some (hdr, p))) v = v

  read_open-LeavesValid :
      (s : Process sv.World) (i count : ℕ) (k : Kind)
      → IsValid s
      → ((r : Moved sv.World) → IsValid (finish sv s i r).0)
      → LeavesValid after_read (read_open sv s i count k)
  unfolding read_open
  read_open-LeavesValid s i count console v h = world-IsValid s _ v
  read_open-LeavesValid s i count net v h =
      received_bytes-LeavesValid (net_recv sv.conversations sv.rounds s i count)
        (net_recv-LeavesValid sv.conversations sv.rounds s i count v)
  read_open-LeavesValid s i count file v h =
      let e = entry s.fdtab i in
      elim (Option-cases (read_loop sv (suc count) s.world e.path count e.off [])) [
        | inl q ↦ rw (read_open, q) tt
        | inr (r, q) ↦ rw (read_open, q) (h r)
      ]
  read_open-LeavesValid s i count free v h =
      let e = entry s.fdtab i in
      elim (Option-cases (read_loop sv (suc count) s.world e.path count e.off [])) [
        | inl q ↦ rw (read_open, q) tt
        | inr (r, q) ↦ rw (read_open, q) (h r)
      ]

  pub read-LeavesValid :
      (s : Process sv.World) (fd : ℤ) (count : ℕ)
      → IsValid s
      → LeavesValid after_read (read sv s fd count)
  unfolding read
  read-LeavesValid s fd count v =
      let s₁ = fd_init s in
      let v₁ = fd_init-IsValid s v in
      elim (Option-cases (open_at s₁.fdtab fd)) [
        | inl e ↦ rw (read, e) (errno-IsValid s₁ ebadf v₁)
        | inr (i, e) ↦
            let l = (open_at-some s₁.fdtab fd i e).0 in
            rw (read, e)
              (read_open-LeavesValid s₁ i count (entry s₁.fdtab i).kind v₁
                (λ r. finish-IsValid s₁ i r v₁ l))
      ]

  write_open-LeavesValid :
      (s : Process sv.World) (i : ℕ) (buf : Bytes) (k : Kind)
      → IsValid s
      → ((r : Moved sv.World) → IsValid (finish sv s i r).0)
      → LeavesValid after (write_open sv s i buf k)
  unfolding write_open console_write
  write_open-LeavesValid s i [] console v h = v
  write_open-LeavesValid s i (b ∷ buf) console v h =
      elim (Option-cases (sv.put_console s.world (b ∷ buf)).1) [
        | inl e ↦ rw (write_open, console_write, e) (world-IsValid s _ v)
        | inr (n, e) ↦ rw (write_open, console_write, e) (world-IsValid s _ v)
      ]
  write_open-LeavesValid s i buf net v h = net_send-LeavesValid sv.conversations sv.rounds s i buf v
  write_open-LeavesValid s i buf file v h =
      let e = entry s.fdtab i in
      elim (Option-cases (write_loop sv (suc (length buf)) s.world e.path buf e.off 0)) [
        | inl q ↦ rw (write_open, q) tt
        | inr (r, q) ↦ rw (write_open, q) (h r)
      ]
  write_open-LeavesValid s i buf free v h =
      let e = entry s.fdtab i in
      elim (Option-cases (write_loop sv (suc (length buf)) s.world e.path buf e.off 0)) [
        | inl q ↦ rw (write_open, q) tt
        | inr (r, q) ↦ rw (write_open, q) (h r)
      ]

  pub write-LeavesValid :
      (s : Process sv.World) (fd : ℤ) (buf : Bytes)
      → IsValid s
      → LeavesValid after (write sv s fd buf)
  unfolding write
  write-LeavesValid s fd buf v =
      let s₁ = fd_init s in
      let v₁ = fd_init-IsValid s v in
      elim (Option-cases (open_at s₁.fdtab fd)) [
        | inl e ↦ rw (write, e) (errno-IsValid s₁ ebadf v₁)
        | inr (i, e) ↦
            let l = (open_at-some s₁.fdtab fd i e).0 in
            rw (write, e)
              (write_open-LeavesValid s₁ i buf (entry s₁.fdtab i).kind v₁
                (λ r. finish-IsValid s₁ i r v₁ l))
      ]

  pread_with-LeavesValid :
      (s : Process sv.World) (i off : ℕ) (o : Option (Process sv.World × ℤ × Bytes))
      → i < fd_max
      → LeavesValid after_read o
      → LeavesValid after_read (elim o as (λ _. Option (Process sv.World × ℤ × Bytes)) [
        | none ↦ none
        | some (s', r, p) ↦ some (set_off s' i off, r, p)
      ])
  pread_with-LeavesValid s i off none l v = tt
  pread_with-LeavesValid s i off (some (s', r, p)) l v = set_off-IsValid s' i off v l

  pread_slot-LeavesValid :
      (s : Process sv.World) (fd : ℤ) (count : ℕ) (off : ℤ)
      → IsValid s
      → LeavesValid after_read (pread_slot sv s fd count off (file_at s.fdtab fd))
  pread_slot-LeavesValid s fd count off v = elim (Option-cases (file_at s.fdtab fd)) [
    | inl e ↦ rw e (errno-IsValid s _ v)
    | inr (i, e) ↦ rw e (go i (file_at-some s.fdtab fd i e) off)
  ]
    where
      go :
          (i : ℕ)
          → i < fd_max
          → (off : ℤ) → LeavesValid after_read (pread_slot sv s fd count off (some i))
      go i l (negsuc n) = errno-IsValid s einval v
      go i l (pos o) =
          pread_with-LeavesValid s i (entry s.fdtab i).off (read sv (set_off s i o) fd count) l
            (read-LeavesValid (set_off s i o) fd count (set_off-IsValid s i o v l))

  pub pread-LeavesValid :
      (s : Process sv.World) (fd : ℤ) (count : ℕ) (off : ℤ)
      → IsValid s
      → LeavesValid after_read (pread sv s fd count off)
  unfolding pread
  pread-LeavesValid s fd count off v =
      pread_slot-LeavesValid (fd_init s) fd count off (fd_init-IsValid s v)

  pwrite_slot-LeavesValid :
      (s : Process sv.World) (fd : ℤ) (buf : Bytes) (off : ℤ)
      → IsValid s
      → LeavesValid after (pwrite_slot sv s fd buf off (file_at s.fdtab fd))
  pwrite_slot-LeavesValid s fd buf off v = elim (Option-cases (file_at s.fdtab fd)) [
    | inl e ↦ rw e (errno-IsValid s _ v)
    | inr (i, e) ↦ rw e (go i (file_at-some s.fdtab fd i e) off)
  ]
    where
      back :
          (i : ℕ) (o : Option (Process sv.World × ℤ))
          → i < fd_max
          → LeavesValid after o
          → LeavesValid after (elim o as (λ _. Option (Process sv.World × ℤ)) [
            | none ↦ none
            | some (s', r) ↦ some (set_off s' i (entry s.fdtab i).off, r)
          ])
      back i none l h = tt
      back i (some (s', r)) l h = set_off-IsValid s' i (entry s.fdtab i).off h l

      go :
          (i : ℕ)
          → i < fd_max
          → (off : ℤ) → LeavesValid after (pwrite_slot sv s fd buf off (some i))
      go i l (negsuc n) = errno-IsValid s einval v
      go i l (pos o) =
          back i (write sv (set_off s i o) fd buf) l
            (write-LeavesValid (set_off s i o) fd buf (set_off-IsValid s i o v l))

  pub pwrite-LeavesValid :
      (s : Process sv.World) (fd : ℤ) (buf : Bytes) (off : ℤ)
      → IsValid s
      → LeavesValid after (pwrite sv s fd buf off)
  unfolding pwrite
  pwrite-LeavesValid s fd buf off v =
      pwrite_slot-LeavesValid (fd_init s) fd buf off (fd_init-IsValid s v)
