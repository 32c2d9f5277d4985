-- ===== src/Stdio.antt =====
-- The streams of lib/racccoon-libc/src/stdio.c over the calls on their descriptor, which are the
-- parameter `Device`, and whether malloc has room for a buffer. A stream of open_memstream, which has
-- no descriptor, is not modelled, nor is errno.
pub mod Delivery
pub mod Failure
use racccoon.Base.{
  ℕ, zero, suc, ◌+◌, ◌-◌, ◌%◌, Bool, true, false, not, ◌&&◌, ◌||◌, List, [], ◌∷◌, ◌++◌, Option,
  none, some, leb, ltb, ◌==◌, if◌then◌else◌, length, drop, get_or,
}

abbrev pub Bytes : Type 0
Bytes = List ℕ

-- write, read and lseek to an absolute position, on the descriptor of the stream; none is a negative
-- result. `room` is whether malloc gives a buffer.
pub record Device : Type 1 where
  pub World : Type 0
  pub send : World → Bytes → World × Option ℕ
  pub recv : World → ℕ → World × Option Bytes
  pub seek : World → ℕ → World
  pub room : World → Bool

-- `_IOFBF`, `_IOLBF` and `_IONBF`
pub data Mode : Type 0 where
  full line unbuffered : Mode

abbrev pub is_line : Mode → Bool
is_line full = false
is_line line = true
is_line unbuffered = false

abbrev pub is_unbuffered : Mode → Bool
is_unbuffered full = false
is_unbuffered line = false
is_unbuffered unbuffered = true

abbrev pub bufsiz : ℕ
bufsiz = 4096

-- `struct __FILE`: `has_buf` is whether `buf` is set, `pending` is buf[0 .. wlen) of a stream that writes, `input` is buf[0 .. rlen) of
-- one that reads. `overrun` tells that a byte was stored behind the end of `buf`.
pub record Stream (W : Type 0) : Type 0 where
  pub bufmode : Mode
  pub has_buf : Bool
  pub bufcap : ℕ
  pub pending : Bytes
  pub input : Bytes
  pub rpos : ℕ
  pub position : ℕ
  pub ungot : Option ℕ
  pub err : Bool
  pub eof : Bool
  pub overrun : Bool
  pub world : W

abbrev pub is_some : Option ℕ → Bool
is_some none = false
is_some (some c) = true

module _ (dv : Device) where
  open dv use {World, send, recv, seek, room}

  -- ensure_buf: false is -1
  pub ensure_buf : Stream World → Stream World × Bool
  ensure_buf s =
      if s.has_buf
      then (s, true)
      else if room s.world
      then (record s { has_buf = true; bufcap = bufsiz }, true)
      else (record s { err = true }, false)

  -- `while (done < f->wlen) { … }`: the world, and whether all was written. The fuel is the number of
  -- rounds allowed.
  pub send_loop : ℕ → World → Bytes → Option (World × Bool)
  send_loop f w [] = some (w, true)
  send_loop zero w (b ∷ bs) = none
  send_loop (suc f) w (b ∷ bs) =
      let (w', r) = send w (b ∷ bs) in
      elim r [
        | none ↦ some (w', false)
        | some zero ↦ some (w', false)
        | some (suc k) ↦ send_loop f w' (drop (suc k) (b ∷ bs))
      ]

  abbrev pub flushed : Stream World → Option (World × Bool) → Option (Stream World × Bool)
  flushed s none = none
  flushed s (some (w, true)) =
      some (record s { position = s.position + length s.pending; pending = []; world = w }, true)
  flushed s (some (w, false)) = some (record s { err = true; world = w }, false)

  -- flush_write: false is EOF
  pub flush_write : Stream World → Option (Stream World × Bool)
  unfolding send_loop
  flush_write s = flushed s (send_loop (length s.pending) s.world s.pending)

  -- drop_read, and the reset of `ungot` behind it
  abbrev pub drop_read : Stream World → Stream World
  drop_read s =
      let w = if ltb s.rpos (length s.input) then seek s.world (s.position + s.rpos) else s.world in
      record s { input = []; rpos = 0; ungot = none; world = w }

  abbrev pub reading : Stream World → Bool
  reading s = ltb s.rpos (length s.input) || is_some s.ungot

  abbrev pub put_unbuffered : Stream World → ℕ → Option (Stream World × Option ℕ)
  put_unbuffered s c =
      let (w, r) = send s.world (c % 256 ∷ []) in
      elim r [
        | some (suc zero) ↦ some (record s { position = s.position + 1; world = w }, some (c % 256))
        | _ ↦ some (record s { err = true; world = w }, none)
      ]

  -- `f->buf[f->wlen++] = (unsigned char)c;`
  abbrev pub store_byte : Stream World → ℕ → Stream World
  store_byte s c = record s {
    pending = s.pending ++ c % 256 ∷ [];
    overrun = s.overrun || leb s.bufcap (length s.pending);
  }

  abbrev pub put_result : ℕ → Option (Stream World × Bool) → Option (Stream World × Option ℕ)
  put_result c none = none
  put_result c (some (s, true)) = some (s, some (c % 256))
  put_result c (some (s, false)) = some (s, none)

  abbrev pub put_buffered : Stream World → ℕ → Option (Stream World × Option ℕ)
  unfolding flush_write
  put_buffered s₀ c =
      let s = store_byte s₀ c in
      if length s.pending == s.bufcap || (is_line s.bufmode && c == 10)
      then put_result c (flush_write s)
      else some (s, some (c % 256))

  abbrev pub put_ensured : ℕ → Stream World × Bool → Option (Stream World × Option ℕ)
  put_ensured c (s, true) = put_buffered s c
  put_ensured c (s, false) = some (s, none)

  -- fputc: none is EOF
  pub fputc : Stream World → ℕ → Option (Stream World × Option ℕ)
  unfolding ensure_buf
  fputc s₀ c =
      let s = if reading s₀ then drop_read s₀ else s₀ in
      if is_unbuffered s.bufmode then put_unbuffered s c else put_ensured c (ensure_buf s)

  abbrev pub counted : Option (Stream World × ℕ) → Option (Stream World × ℕ)
  counted none = none
  counted (some (s, n)) = some (s, suc n)

  abbrev pub put_next :
      (Stream World → Option (Stream World × ℕ))
      → Option (Stream World × Option ℕ)
      → Option (Stream World × ℕ)
  put_next rest none = none
  put_next rest (some (s, none)) = some (s, 0)
  put_next rest (some (s, some b)) = counted (rest s)

  -- The loop of fwrite on single bytes: how many were put.
  pub fwrite : Stream World → Bytes → Option (Stream World × ℕ)
  unfolding fputc
  fwrite s [] = some (s, 0)
  fwrite s (c ∷ cs) = put_next (λ s'. fwrite s' cs) (fputc s c)

  abbrev pub refilled : Stream World × Bool → Stream World × Bool
  refilled (s₀, false) = (s₀, false)
  refilled (s₀, true) =
      let s = record s₀ { position = s₀.position + length s₀.input; input = []; rpos = 0 } in
      let (w, r) = recv s.world s.bufcap in
      elim r [
        | none ↦ (record s { err = true; world = w }, false)
        | some [] ↦ (record s { eof = true; world = w }, false)
        | some (b ∷ bs) ↦ (record s { input = b ∷ bs; world = w }, true)
      ]

  -- refill, once nothing is pending
  pub refill : Stream World → Stream World × Bool
  unfolding ensure_buf
  refill s = refilled (ensure_buf s)

  abbrev pub next_byte : Stream World → Stream World × Option ℕ
  next_byte s = (record s { rpos = s.rpos + 1 }, some (get_or s.input s.rpos 0))

  abbrev pub after_refill : Stream World × Bool → Stream World × Option ℕ
  after_refill (s, true) = next_byte s
  after_refill (s, false) = (s, none)

  -- fgetc, on a stream that has nothing to write
  pub fgetc : Stream World → Stream World × Option ℕ
  unfolding refill
  fgetc s = elim s.ungot [
    | some c ↦ (record s { ungot = none }, some c)
    | none ↦ if leb (length s.input) s.rpos then after_refill (refill s) else next_byte s
  ]

  -- ungetc, of a byte
  pub ungetc : ℕ → Stream World → Stream World × Option ℕ
  ungetc c s = elim s.ungot [
    | some d ↦ (s, none)
    | none ↦ (record s { ungot = some (c % 256); eof = false }, some (c % 256))
  ]

  -- The loop of fgets: the bytes stored, `n` at most.
  pub fgets_loop : ℕ → Stream World → Stream World × Bytes
  unfolding fgetc
  fgets_loop zero s = (s, [])
  fgets_loop (suc n) s =
      let (s', c) = fgetc s in
      elim c [
        | none ↦ (s', [])
        | some b ↦ if b == 10 then (s', b ∷ []) else let (s'', l) = fgets_loop n s' in (s'', b ∷ l)
      ]

  -- fseek, to the position that lseek gives, none where it fails; the result is whether it is 0.
  abbrev pub sought : (World → World × Option ℕ) → Stream World × Bool → Stream World × Bool
  sought lseek (s₀, false) = (s₀, false)
  sought lseek (s₀, true) =
      let s = record s₀ { ungot = none; input = []; rpos = 0 } in
      let (w, r) = lseek s.world in
      elim r [
        | none ↦ (record s { world = w }, false)
        | some np ↦ (record s { position = np; eof = false; world = w }, true)
      ]

  pub fseek : (World → World × Option ℕ) → Stream World → Option (Stream World × Bool)
  unfolding flush_write
  fseek lseek s = elim (flush_write s) [ none ↦ none | some r ↦ some (sought lseek r) ]

  pub rewind : (World → World × Option ℕ) → Stream World → Option (Stream World)
  unfolding fseek
  rewind lseek s = elim (fseek lseek s) [
    | none ↦ none
    | some (s', r) ↦ some (record s' { err = false })
  ]

  pub ftell : Stream World → ℕ
  ftell s = s.position + (if ltb 0 (length s.pending) then length s.pending else s.rpos)

  pub clearerr : Stream World → Stream World
  clearerr s = record s { err = false; eof = false }

  -- fputs: whether all the bytes were put
  abbrev pub puts_next :
      (Stream World → Option (Stream World × Bool))
      → Option (Stream World × Option ℕ)
      → Option (Stream World × Bool)
  puts_next rest none = none
  puts_next rest (some (s, none)) = some (s, false)
  puts_next rest (some (s, some b)) = rest s

  pub fputs : Stream World → Bytes → Option (Stream World × Bool)
  unfolding fputc
  fputs s [] = some (s, true)
  fputs s (c ∷ cs) = puts_next (λ s'. fputs s' cs) (fputc s c)

-- parse_mode: `rd`, `wr`, `append` and `trunc`
pub record OpenMode : Type 0 where
  pub rd : Bool
  pub wr : Bool
  pub append : Bool
  pub trunc : Bool

pub has_plus : Bytes → Bool
has_plus [] = false
has_plus (c ∷ p) = c == b'+' || has_plus p

pub parse_mode : Bytes → Option OpenMode
unfolding has_plus
parse_mode [] = none
parse_mode (c ∷ p) =
    let both = has_plus p in
    if c == b'r'
    then some (record { rd = true; wr = both; append = false; trunc = false })
    else if c == b'w'
    then some (record { rd = both; wr = true; append = false; trunc = true })
    else if c == b'a'
    then some (record { rd = both; wr = true; append = true; trunc = false })
    else none

-- The flags of fopen: O_RDWR 2, O_WRONLY 1, O_CREAT 64, O_TRUNC 512 and O_APPEND 1024, which have no
-- bit in common.
pub open_flags : OpenMode → ℕ
open_flags m =
    (if m.rd && m.wr then 2 else if m.wr then 1 else 0)
    + (if m.wr then 64 else 0)
    + (if m.trunc then 512 else 0)
    + (if m.append then 1024 else 0)
