-- ===== src/Posix/Files/Shrinking.antt =====
-- ftruncate and truncate of lib/racccoon-libc/src/rc_posix.c, and what shrinking a file takes.
use racccoon.Base.{
  ℕ, zero, suc, ◌+◌, ◌-◌, ◌≤◌, ◌<◌, ◌≡◌, refl, inl, inr, Bool, true, false, not, ◌&&◌, [], ◌∷◌,
  ◌++◌, Option, none, some, ltb, ◌==◌, if◌then◌else◌, length, replicate, take, min, arith,
  Bool-cases, Option-cases, List-cases, length-append,
}
use racccoon.Base.Int.{ℤ, pos, negsuc}
use racccoon.Posix.Server.{Bytes, Server, FileInfo}
use racccoon.Posix.Table.{eio, ebadf, einval, Process, entry, file_at, fail, fd_init}
use racccoon.Posix.Transfer.{max_chunk}
use racccoon.Posix.Transfer.Total.{Returns}
use racccoon.Posix.Table.Slots.{fd_init_done}

abbrev pub enomem : ℕ
enomem = 12

module _ (sv : Server) where
  open sv use {World, stat, read_at, write_at, delete}

  -- `while (size < want) { … }`: zeros behind the end, at most 1024 at a time; whether all were
  -- written. The fuel is the number of rounds allowed.
  pub grow : ℕ → World → Bytes → ℕ → ℕ → Option (World × Bool)
  grow zero w path size want = none
  grow (suc f) w path size want = elim (ltb size want) [
    | false ↦ some (w, true)
    | true ↦
        let n = min (want - size) 1024 in
        let (w', put) = write_at w path (replicate n 0) size in
        elim put [
          | none ↦ some (w', false)
          | some k ↦ elim (k == n) [
            | true ↦ grow f w' path (size + n) want
            | false ↦ some (w', false)
          ]
        ]
  ]

  -- `while (got < want) { … }`: the bytes to keep, or none where a read fails
  pub keep_bytes : ℕ → World → Bytes → ℕ → Bytes → Option (World × Option Bytes)
  keep_bytes zero w path want keep = none
  keep_bytes (suc f) w path want keep = elim (ltb (length keep) want) [
    | false ↦ some (w, some keep)
    | true ↦
        let (w', got) = read_at w path (want - length keep) (length keep) in
        elim got [
          | none ↦ some (w', none)
          | some [] ↦ some (w', none)
          | some (b ∷ bs) ↦ keep_bytes f w' path want (keep ++ b ∷ bs)
        ]
  ]

  -- The end of a shrinking ftruncate: the file is deleted, and `want` bytes are written again at once.
  abbrev pub rewrite : Process World → Bytes → ℕ → Bytes → Process World × ℤ
  rewrite s path want keep =
      let deleted = (delete s.world path).0 in
      let (w, put) = write_at deleted path (take want keep) 0 in
      let s' = record s { world = w } in
      elim put [ none ↦ fail s' eio | some n ↦ if n == want then (s', pos 0) else fail s' eio ]

  -- `room` says whether `malloc (want)` succeeds.
  unfoldable pub shrink : Process World → Bytes → ℕ → Bool → Option (Process World × ℤ)
  unfolding keep_bytes
  shrink s path want room =
      if not (want == 0) && not room
      then some (fail s enomem)
      else elim (keep_bytes (suc want) s.world path want []) [
        | none ↦ none
        | some (w, none) ↦ some (fail (record s { world = w }) eio)
        | some (w, some keep) ↦ some (rewrite (record s { world = w }) path want keep)
      ]

  unfoldable pub resize : Process World → Bytes → ℕ → ℕ → Bool → Option (Process World × ℤ)
  unfolding grow shrink
  resize s path size want room =
      if want == size
      then some (s, pos 0)
      else if ltb want size
      then shrink s path want room
      else elim (grow (suc want) s.world path size want) [
        | none ↦ none
        | some (w, done) ↦
            let s' = record s { world = w } in some (if done then (s', pos 0) else fail s' eio)
      ]

  abbrev pub truncate_slot : Process World → ℤ → Bool → Option ℕ → Option (Process World × ℤ)
  truncate_slot s length room none = some (fail s ebadf)
  truncate_slot s (negsuc n) room (some i) = some (fail s einval)
  truncate_slot s (pos want) room (some i) =
      let (w, found) = stat s.world (entry s.fdtab i).path in
      let s' = record s { world = w } in
      elim found [
        | none ↦ some (fail s' eio)
        | some info ↦ resize s' (entry s.fdtab i).path info.size want room
      ]

  unfoldable pub ftruncate : Process World → ℤ → ℤ → Bool → Option (Process World × ℤ)
  unfolding resize
  ftruncate s₀ fd length room =
      let s = fd_init s₀ in truncate_slot s length room (file_at s.fdtab fd)

  grow-Returns :
      (f : ℕ) (w : World) (path : Bytes) (size want : ℕ)
      → 0 < f
      → want < f + size
      → Returns (grow f w path size want)
  unfolding grow
  grow-Returns zero w path size want z l = absurd (omega arith)
  grow-Returns (suc f) w path size want z l = elim (Bool-cases (ltb size want)) [
    | inr e ↦ rw (grow, e) (_, refl)
    | inl e ↦
        let n = min (want - size) 1024 in
        elim (Option-cases (write_at w path (replicate n 0) size).1) [
          | inl g ↦ rw (grow, e, g) (_, refl)
          | inr (k, g) ↦ elim (Bool-cases (k == n)) [
            | inr c ↦ rw (grow, e, g, c) (_, refl)
            | inl c ↦
                rw (grow, e, g, c)
                  (grow-Returns f (write_at w path (replicate n 0) size).0 path (size + n) want
                    (ground arith) (ground arith))
          ]
        ]
  ]

  keep_bytes-Returns :
      (f : ℕ) (w : World) (path : Bytes) (want : ℕ) (keep : Bytes)
      → 0 < f
      → want < f + length keep
      → Returns (keep_bytes f w path want keep)
  unfolding keep_bytes
  keep_bytes-Returns zero w path want keep z l = absurd (omega arith)
  keep_bytes-Returns (suc f) w path want keep z l = elim (Bool-cases (ltb (length keep) want)) [
    | inr e ↦ rw (keep_bytes, e) (_, refl)
    | inl e ↦ elim (Option-cases (read_at w path (want - length keep) (length keep)).1) [
      | inl g ↦ rw (keep_bytes, e, g) (_, refl)
      | inr (bs, g) ↦ elim (List-cases bs) [
        | inl c ↦ rw (keep_bytes, e, g, c) (_, refl)
        | inr (b, bs', c) ↦
            rw (keep_bytes, e, g, c)
              (keep_bytes-Returns f (read_at w path (want - length keep) (length keep)).0 path want
                (keep ++ b ∷ bs') (ground arith) (ground (arith, length-append keep (b ∷ bs'))))
      ]
    ]
  ]

  shrink-Returns :
      (s : Process World) (path : Bytes) (want : ℕ) (room : Bool)
      → Returns (shrink s path want room)
  unfolding shrink
  shrink-Returns s path want room = elim (Bool-cases (not (want == 0) && not room)) [
    | inl e ↦ rw (shrink, e) (_, refl)
    | inr e ↦
        let (r, g) =
          keep_bytes-Returns (suc want) s.world path want [] (omega arith) (omega arith) in
        elim (Option-cases r.1) [
          | inl c ↦ rw (shrink, e, g, c) (_, refl)
          | inr (keep, c) ↦ rw (shrink, e, g, c) (_, refl)
        ]
  ]

  resize-Returns :
      (s : Process World) (path : Bytes) (size want : ℕ) (room : Bool)
      → Returns (resize s path size want room)
  unfolding resize
  resize-Returns s path size want room = elim (Bool-cases (want == size)) [
    | inl e ↦ rw (resize, e) (_, refl)
    | inr e ↦ elim (Bool-cases (ltb want size)) [
      | inl c ↦ rw (resize, e, c) (shrink-Returns s path want room)
      | inr c ↦
          let (r, g) = grow-Returns (suc want) s.world path size want (omega arith) (omega arith) in
          rw (resize, e, c, g) (_, refl)
    ]
  ]

  truncate_slot-Returns :
      (s : Process World) (length : ℤ) (room : Bool) (o : Option ℕ)
      → Returns (truncate_slot s length room o)
  truncate_slot-Returns s length room none = (_, refl)
  truncate_slot-Returns s (negsuc n) room (some i) = (_, refl)
  truncate_slot-Returns s (pos want) room (some i) =
      elim (Option-cases (stat s.world (entry s.fdtab i).path).1) [
        | inl g ↦ rw (truncate_slot, g) (_, refl)
        | inr (info, g) ↦
            rw (truncate_slot, g) (resize-Returns _ (entry s.fdtab i).path info.size want room)
      ]

  -- ftruncate returns, on every descriptor and with every server.
  pub ftruncate-Returns :
      (s : Process World) (fd length : ℤ) (room : Bool) → Returns (ftruncate s fd length room)
  unfolding ftruncate
  ftruncate-Returns s fd length room =
      truncate_slot-Returns (fd_init s) length room (file_at (fd_init s).fdtab fd)

  -- The result is -1.
  abbrev pub Fails : Option (Process World × ℤ) → Type 0
  Fails o = (s : Process World) × (o ≡ some (s, negsuc 0))

  module _
      (limit : (w : World) (path bytes : Bytes) (off n : ℕ)
        → (write_at w path bytes off).1 ≡ some n
        → n ≤ max_chunk) where
    rewrite-Fails :
        (s : Process World) (path : Bytes) (want : ℕ) (keep : Bytes)
        → max_chunk < want
        → Fails (some (rewrite s path want keep))
    rewrite-Fails s path want keep h =
        let w = (delete s.world path).0 in
        elim (Option-cases (write_at w path (take want keep) 0).1) [
          | inl g ↦ rw (rewrite, g) (_, refl)
          | inr (n, g) ↦
              let small : n ≤ max_chunk = limit w path (take want keep) 0 n g in
              let e : (n == want) ≡ false = ground arith in rw (rewrite, g, e) (_, refl)
        ]

    shrink-Fails :
        (s : Process World) (path : Bytes) (want : ℕ) (room : Bool)
        → max_chunk < want
        → Fails (shrink s path want room)
    unfolding shrink
    shrink-Fails s path want room h = elim (Bool-cases (not (want == 0) && not room)) [
      | inl e ↦ rw (shrink, e) (_, refl)
      | inr e ↦
          let (r, g) =
            keep_bytes-Returns (suc want) s.world path want [] (omega arith) (omega arith) in
          elim (Option-cases r.1) [
            | inl c ↦ rw (shrink, e, g, c) (_, refl)
            | inr (keep, c) ↦
                rw (shrink, e, g, c) (rewrite-Fails (record s { world = r.0 }) path want keep h)
          ]
    ]

    resize-Fails :
        (s : Process World) (path : Bytes) (size want : ℕ) (room : Bool)
        → max_chunk < want
        → want < size
        → Fails (resize s path size want room)
    unfolding resize
    resize-Fails s path size want room h l =
        let e : (want == size) ≡ false = ground arith in
        let c : ltb want size ≡ true = ground arith in
        rw (resize, e, c) (shrink-Fails s path want room h)

    truncate_slot-Fails :
        (s : Process World) (want : ℕ) (room : Bool) (i : ℕ) (info : FileInfo)
        → (stat s.world (entry s.fdtab i).path).1 ≡ some info
        → max_chunk < want
        → want < info.size
        → Fails (truncate_slot s (pos want) room (some i))
    truncate_slot-Fails s want room i info g h l =
        rw (truncate_slot, g) (resize-Fails _ (entry s.fdtab i).path info.size want room h l)

    -- Where the server takes at most RC_FS_WRITE_AT_MAXCHUNK bytes at once, ftruncate fails whenever it
    -- shrinks a file to more bytes than that.
    pub ftruncate-Fails :
        (s : Process World) (fd : ℤ) (want : ℕ) (room : Bool) (i : ℕ) (info : FileInfo)
        → s.inited ≡ true
        → file_at s.fdtab fd ≡ some i
        → (stat s.world (entry s.fdtab i).path).1 ≡ some info
        → max_chunk < want
        → want < info.size
        → Fails (ftruncate s fd (pos want) room)
    unfolding ftruncate
    ftruncate-Fails s fd want room i info on o g h l =
        rw (ftruncate, fd_init_done s on, o) (truncate_slot-Fails s want room i info g h l)
