-- ===== src/Posix/Transfer/Total.antt =====
-- The loops of read and write on a file end, whatever the file server answers: a read ends with an
-- empty answer, a write with a short one.
use racccoon.Base.{
  ℕ, zero, suc, ◌+◌, ◌-◌, ◌<◌, ◌≡◌, ◌≢◌, refl, inl, inr, false, [], ◌∷◌, ◌++◌, Option, none, some,
  ltb, length, set, take, drop, min, arith, Bool-cases, List-cases, Option-cases, length-append,
}
use racccoon.Base.Int.{ℤ, pos}
use racccoon.Posix.Server.{Bytes, Server}
use racccoon.Posix.Table.{Kind, free, console, file, net, Process, entry, open_at, fd_init}
use racccoon.Posix.Transfer.{
  Moved, read_loop, write_loop, max_chunk, finish, read_open, write_open, read_slot, write_slot,
  read, write,
}

-- A result is there: the fuel did not run out.
abbrev pub Returns : {A : Type 0} → Option A → Type 0
Returns {A} o = (a : A) × (o ≡ some a)

module _ (sv : Server) where
  read_loop-Returns :
      (f : ℕ) (w : sv.World) (path : Bytes) (count off : ℕ) (p : Bytes)
      → 0 < f
      → count < f + length p
      → Returns (read_loop sv f w path count off p)
  unfolding read_loop
  read_loop-Returns zero w path count off p z l = absurd (omega arith)
  read_loop-Returns (suc f) w path count off p z l = elim (Bool-cases (ltb (length p) count)) [
    | inr e ↦ rw (read_loop, e) (_, refl)
    | inl e ↦ elim (Option-cases (sv.read_at w path (count - length p) off).1) [
      | inl g ↦ rw (read_loop, e, g) (_, refl)
      | inr (bs, g) ↦ elim (List-cases bs) [
        | inl c ↦ rw (read_loop, e, g, c) (_, refl)
        | inr (b, bs', c) ↦
            rw (read_loop, e, g, c)
              (read_loop-Returns f (sv.read_at w path (count - length p) off).0 path count
                (off + length (b ∷ bs')) (p ++ b ∷ bs') (ground arith)
                (ground (arith, length-append p (b ∷ bs'))))
      ]
    ]
  ]

  write_loop-Returns :
      (f : ℕ) (w : sv.World) (path buf : Bytes) (off done : ℕ)
      → 0 < f
      → length buf < f + done
      → Returns (write_loop sv f w path buf off done)
  unfolding write_loop
  write_loop-Returns zero w path buf off done z l = absurd (omega arith)
  write_loop-Returns (suc f) w path buf off done z l = elim (Bool-cases (ltb done (length buf))) [
    | inr e ↦ rw (write_loop, e) (_, refl)
    | inl e ↦
        let chunk = min (length buf - done) max_chunk in
        elim (Option-cases (sv.write_at w path (take chunk (drop done buf)) off).1) [
          | inl g ↦ rw (write_loop, e, g) (_, refl)
          | inr (n, g) ↦ elim (Bool-cases (ltb n chunk)) [
            | inl c ↦ rw (write_loop, e, g, c) (_, refl)
            | inr c ↦
                rw (write_loop, e, g, c)
                  (write_loop-Returns f (sv.write_at w path (take chunk (drop done buf)) off).0 path
                    buf (off + n) (done + n) (ground arith) (ground arith))
          ]
        ]
  ]

  -- The state that a transfer which worked leaves.
  pub finish_lem :
      (s : Process sv.World) (i : ℕ) (r : Moved sv.World) (off n : ℕ)
      → r.failed ≡ false
      → r.off ≡ off
      → r.count ≡ n
      → finish sv s i r ≡ (
        record s {
          fdtab = set s.fdtab i (record (entry s.fdtab i) { off = off });
          world = r.world;
        },
        pos n,
      )
  finish_lem s i r off n works e l = ground arith

  read_open-Returns :
      (s : Process sv.World) (i count : ℕ) (k : Kind) → k ≢ net → Returns (read_open sv s i count k)
  unfolding read_open
  read_open-Returns s i count console h = (_, refl)
  read_open-Returns s i count net h = absurd (h refl)
  read_open-Returns s i count free h =
      let e = entry s.fdtab i in
      let (r, g) =
        read_loop-Returns (suc count) s.world e.path count e.off [] (omega arith) (omega arith) in
      rw (read_open, g) (_, refl)
  read_open-Returns s i count file h =
      let e = entry s.fdtab i in
      let (r, g) =
        read_loop-Returns (suc count) s.world e.path count e.off [] (omega arith) (omega arith) in
      rw (read_open, g) (_, refl)

  read_slot-Returns :
      (s : Process sv.World) (count : ℕ) (o : Option ℕ)
      → ((i : ℕ) → o ≡ some i → (entry s.fdtab i).kind ≢ net)
      → Returns (read_slot sv s count o)
  read_slot-Returns s count none h = (_, refl)
  read_slot-Returns s count (some i) h =
      read_open-Returns s i count (entry s.fdtab i).kind (h i refl)

  -- read returns, whatever the servers answer, on every descriptor that is not one of a conversation.
  pub read-Returns :
      (s : Process sv.World) (fd : ℤ) (count : ℕ)
      → ((i : ℕ) → open_at (fd_init s).fdtab fd ≡ some i → (entry (fd_init s).fdtab i).kind ≢ net)
      → Returns (read sv s fd count)
  unfolding read
  read-Returns s fd count h = read_slot-Returns (fd_init s) count (open_at (fd_init s).fdtab fd) h

  write_open-Returns :
      (s : Process sv.World) (i : ℕ) (buf : Bytes) (k : Kind)
      → k ≢ net
      → Returns (write_open sv s i buf k)
  unfolding write_open
  write_open-Returns s i buf console h = (_, refl)
  write_open-Returns s i buf net h = absurd (h refl)
  write_open-Returns s i buf free h =
      let e = entry s.fdtab i in
      let (r, g) =
        write_loop-Returns (suc (length buf)) s.world e.path buf e.off 0 (omega arith)
          (omega arith) in
      rw (write_open, g) (_, refl)
  write_open-Returns s i buf file h =
      let e = entry s.fdtab i in
      let (r, g) =
        write_loop-Returns (suc (length buf)) s.world e.path buf e.off 0 (omega arith)
          (omega arith) in
      rw (write_open, g) (_, refl)

  write_slot-Returns :
      (s : Process sv.World) (buf : Bytes) (o : Option ℕ)
      → ((i : ℕ) → o ≡ some i → (entry s.fdtab i).kind ≢ net)
      → Returns (write_slot sv s buf o)
  write_slot-Returns s buf none h = (_, refl)
  write_slot-Returns s buf (some i) h = write_open-Returns s i buf (entry s.fdtab i).kind (h i refl)

  -- write returns, whatever the servers answer, on every descriptor that is not one of a conversation.
  pub write-Returns :
      (s : Process sv.World) (fd : ℤ) (buf : Bytes)
      → ((i : ℕ) → open_at (fd_init s).fdtab fd ≡ some i → (entry (fd_init s).fdtab i).kind ≢ net)
      → Returns (write sv s fd buf)
  unfolding write
  write-Returns s fd buf h = write_slot-Returns (fd_init s) buf (open_at (fd_init s).fdtab fd) h
