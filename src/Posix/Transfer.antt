-- ===== src/Posix/Transfer.antt =====
-- close, read, write, lseek, pread and pwrite of lib/racccoon-libc/src/rc_posix.c. A read returns
-- its result with the bytes that it stored at `buf`; a write takes the bytes at `buf`, `count` of
-- them. The loops take fuel and are `none` where it ran out: `count`
-- rounds, and one, are enough for a file.
pub mod Reading
pub mod Writing
pub mod Splice
pub mod Total
pub mod Positioned
use racccoon.Base.{
  ℕ, zero, suc, ◌+◌, ◌-◌, ◌%◌, ◌⊎◌, inl, inr, Bool, true, false, not, ◌&&◌, ◌||◌, List, [], ◌∷◌,
  ◌++◌, Option, none, some, ltb, leb, ◌==◌, if◌then◌else◌, length, set, take, drop, min,
}
use racccoon.Base.Int.{ℤ, pos, negsuc, ◌+ℤ◌}
use racccoon.Posix.Server.{Bytes, Server, FileInfo}
use racccoon.Net.Conversations.{text, ctl}
use racccoon.Net.Peers.{net_send, net_recv}
use racccoon.Posix.Table.{
  fd_max, eio, ebadf, einval, espipe, Kind, free, console, file, net, Fdent, Process, entry,
  set_kind, in_range, open_at, file_at, is_free, fail, fd_init,
}

-- RC_FS_WRITE_AT_MAXCHUNK
abbrev pub max_chunk : ℕ
max_chunk = 8192 - 108

-- `fdtab[fd].off = off`
abbrev pub set_off : {W : Type 0} → Process W → ℕ → ℕ → Process W
set_off s i off = record s { fdtab = set s.fdtab i (record (entry s.fdtab i) { off = off }) }

-- How a transfer loop ended: the world and the offset then, `done`, the bytes that a read stored, and
-- whether the call failed with none moved.
pub record Moved (W : Type 0) : Type 0 where
  pub world : W
  pub off : ℕ
  pub count : ℕ
  pub bytes : Bytes
  pub failed : Bool

abbrev pub is_nil : Bytes → Bool
is_nil [] = true
is_nil (c ∷ s) = false

-- `whence` of lseek: SEEK_SET, SEEK_CUR, SEEK_END, or another value
pub data Whence : Type 0 where
  seek_set seek_cur seek_end other : Whence

module _ (sv : Server) where
  open sv use {World, stat, read_at, write_at, put_console, get_char, conversations, rounds}

  abbrev pub close_net : Fdent → World → World
  close_net e w = elim e.kind [ net ↦ (ctl conversations w e.path (text "hangup")).0 | _ ↦ w ]

  -- close; 0, 1 and 2 stay open
  unfoldable pub close : Process World → ℤ → Process World × ℤ
  close s₀ fd =
      let s = fd_init s₀ in
      elim (open_at s.fdtab fd) [
        | none ↦ fail s ebadf
        | some i ↦
            let w = close_net (entry s.fdtab i) s.world in
            (
              record s { fdtab = if leb 3 i then set_kind s.fdtab i free else s.fdtab; world = w },
              pos 0,
            )
      ]

  -- console_read: up to the end of a line, or a failed SYS_GETCHAR
  pub console_read : ℕ → World → Bytes → World × Bytes
  console_read zero w p = (w, p)
  console_read (suc n) w p =
      let (w', got) = get_char w in
      elim got [
        | none ↦ (w', p)
        | some c ↦
            if c == 10 || c == 13
            then (w', p ++ c % 256 ∷ [])
            else console_read n w' (p ++ c % 256 ∷ [])
      ]

  -- The loop of read: `p` holds the bytes stored so far, `done` of them.
  pub read_loop : ℕ → World → Bytes → ℕ → ℕ → Bytes → Option (Moved World)
  read_loop zero w path count off p = none
  read_loop (suc f) w path count off p = elim (ltb (length p) count) [
    | false ↦ some (record { world = w; off = off; count = length p; bytes = p; failed = false })
    | true ↦
        let (w', got) = read_at w path (count - length p) off in
        elim got [
          | none ↦
              some
                (record { world = w'; off = off; count = length p; bytes = p; failed = is_nil p })
          | some [] ↦
              some (record { world = w'; off = off; count = length p; bytes = p; failed = false })
          | some (b ∷ bs) ↦ read_loop f w' path count (off + length (b ∷ bs)) (p ++ b ∷ bs)
        ]
  ]

  -- The end of a transfer: the new offset, and the result or EIO.
  abbrev pub finish : Process World → ℕ → Moved World → Process World × ℤ
  finish s i r =
      let s' = set_off (record s { world = r.world }) i r.off in
      if r.failed then fail s' eio else (s', pos r.count)

  -- What read makes of net_recv.
  abbrev pub received_bytes :
      Option (Process World × Option (Bytes × Bytes)) → Option (Process World × ℤ × Bytes)
  received_bytes none = none
  received_bytes (some (s, none)) = some (s, negsuc 0, [])
  received_bytes (some (s, some (hdr, p))) = some (s, pos (length p), p)

  -- read, on an open descriptor of the kind given
  unfoldable pub read_open : Process World → ℕ → ℕ → Kind → Option (Process World × ℤ × Bytes)
  read_open s i count console =
      let (w, p) = console_read count s.world [] in some (record s { world = w }, pos (length p), p)
  read_open s i count net = received_bytes (net_recv conversations rounds s i count)
  read_open s i count _ =
      let e = entry s.fdtab i in
      elim (read_loop (suc count) s.world e.path count e.off []) [
        | none ↦ none
        | some r ↦ let (s', n) = finish s i r in some (s', n, r.bytes)
      ]

  abbrev pub read_slot : Process World → ℕ → Option ℕ → Option (Process World × ℤ × Bytes)
  read_slot s count none = let (s', r) = fail s ebadf in some (s', r, [])
  read_slot s count (some i) = read_open s i count (entry s.fdtab i).kind

  unfoldable pub read : Process World → ℤ → ℕ → Option (Process World × ℤ × Bytes)
  read s₀ fd count = let s = fd_init s₀ in read_slot s count (open_at s.fdtab fd)

  -- console_write
  unfoldable pub console_write : Process World → Bytes → Process World × ℤ
  console_write s [] = (s, pos 0)
  console_write s (b ∷ buf) =
      let (w, r) = put_console s.world (b ∷ buf) in
      elim r [
        | none ↦ (record s { world = w }, negsuc 0)
        | some n ↦ (record s { world = w }, pos n)
      ]

  -- The loop of write, of the bytes `buf`: `done` of them are written.
  pub write_loop : ℕ → World → Bytes → Bytes → ℕ → ℕ → Option (Moved World)
  write_loop zero w path buf off done = none
  write_loop (suc f) w path buf off done = elim (ltb done (length buf)) [
    | false ↦ some (record { world = w; off = off; count = done; bytes = []; failed = false })
    | true ↦
        let chunk = min (length buf - done) max_chunk in
        let (w', put) = write_at w path (take chunk (drop done buf)) off in
        elim put [
          | none ↦
              some (record { world = w'; off = off; count = done; bytes = []; failed = done == 0 })
          | some n ↦ elim (ltb n chunk) [
            | true ↦
                some (record {
                  world = w';
                  off = off + n;
                  count = done + n;
                  bytes = [];
                  failed = false;
                })
            | false ↦ write_loop f w' path buf (off + n) (done + n)
          ]
        ]
  ]

  -- write, on an open descriptor of the kind given
  unfoldable pub write_open : Process World → ℕ → Bytes → Kind → Option (Process World × ℤ)
  write_open s i buf console = some (console_write s buf)
  write_open s i buf net = net_send conversations rounds s i buf
  write_open s i buf _ =
      let e = entry s.fdtab i in
      elim (write_loop (suc (length buf)) s.world e.path buf e.off 0) [
        | none ↦ none
        | some r ↦ some (finish s i r)
      ]

  abbrev pub write_slot : Process World → Bytes → Option ℕ → Option (Process World × ℤ)
  write_slot s buf none = some (fail s ebadf)
  write_slot s buf (some i) = write_open s i buf (entry s.fdtab i).kind

  unfoldable pub write : Process World → ℤ → Bytes → Option (Process World × ℤ)
  write s₀ fd buf = let s = fd_init s₀ in write_slot s buf (open_at s.fdtab fd)

  -- The base that `whence` names, or the error.
  unfoldable pub seek_base : Process World → Fdent → Whence → World × (ℕ ⊎ ℕ)
  seek_base s e seek_set = (s.world, inr 0)
  seek_base s e seek_cur = (s.world, inr e.off)
  seek_base s e seek_end =
      let (w, r) = stat s.world e.path in
      elim r [ none ↦ (w, inl eio) | some info ↦ (w, inr info.size) ]
  seek_base s e other = (s.world, inl einval)

  -- lseek
  unfoldable pub lseek : Process World → ℤ → ℤ → Whence → Process World × ℤ
  lseek s₀ fd offset whence =
      let s = fd_init s₀ in
      elim (file_at s.fdtab fd) [
        | none ↦ fail s espipe
        | some i ↦
            let (w, base) = seek_base s (entry s.fdtab i) whence in
            let s' = record s { world = w } in
            elim base [
              | inl e ↦ fail s' e
              | inr b ↦ elim (pos b +ℤ offset) [
                | negsuc n ↦ fail s' einval
                | pos np ↦ (set_off s' i np, pos np)
              ]
            ]
      ]

  -- The guard of pread and pwrite.
  abbrev pub at_error : Process World → ℤ → ℕ
  at_error s fd = elim (open_at s.fdtab fd) [ none ↦ ebadf | some i ↦ espipe ]

  -- pread
  abbrev pub pread_slot : Process World → ℤ → ℕ → ℤ → Option ℕ → Option (Process World × ℤ × Bytes)
  pread_slot s fd count off none = let (s', r) = fail s (at_error s fd) in some (s', r, [])
  pread_slot s fd count (negsuc n) (some i) = let (s', r) = fail s einval in some (s', r, [])
  pread_slot s fd count (pos o) (some i) = elim (read (set_off s i o) fd count) [
    | none ↦ none
    | some (s', r, p) ↦ some (set_off s' i (entry s.fdtab i).off, r, p)
  ]

  unfoldable pub pread : Process World → ℤ → ℕ → ℤ → Option (Process World × ℤ × Bytes)
  pread s₀ fd count off = let s = fd_init s₀ in pread_slot s fd count off (file_at s.fdtab fd)

  -- pwrite
  abbrev pub pwrite_slot : Process World → ℤ → Bytes → ℤ → Option ℕ → Option (Process World × ℤ)
  pwrite_slot s fd buf off none = some (fail s (at_error s fd))
  pwrite_slot s fd buf (negsuc n) (some i) = some (fail s einval)
  pwrite_slot s fd buf (pos o) (some i) = elim (write (set_off s i o) fd buf) [
    | none ↦ none
    | some (s', r) ↦ some (set_off s' i (entry s.fdtab i).off, r)
  ]

  unfoldable pub pwrite : Process World → ℤ → Bytes → ℤ → Option (Process World × ℤ)
  pwrite s₀ fd buf off = let s = fd_init s₀ in pwrite_slot s fd buf off (file_at s.fdtab fd)
