-- ===== src/Posix/Files.antt =====
-- The calls of lib/racccoon-libc/src/rc_posix.c on paths: open, stat and its kin, ftruncate,
-- mkstemp and the *at family. `mode` arguments are ignored by the source and left out here.
pub mod Opening
pub mod Shrinking
pub mod Temporary
use racccoon.Base.{
  ℕ, zero, suc, ◌+◌, ◌-◌, ◌*◌, ◌/◌, ◌%◌, ◌^◌, Bool, true, false, not, ◌&&◌, ◌||◌, List, [], ◌∷◌,
  ◌++◌, Option, none, some, ltb, ◌==◌, if◌then◌else◌, length, set, take, drop, replicate, min,
  bit_and, bit_xor,
}
use racccoon.Base.Int.{ℤ, pos, negsuc}
use racccoon.Fs.Path.{abspath}
use racccoon.Posix.Server.{Bytes, Server, FileInfo}
use racccoon.Posix.Table.{
  eio, ebadf, einval, enoent, eexist, enotdir, enotempty, file, console, Fdent, Process, entry,
  open_at, file_at, is_console, fail, fd_init, fd_alloc,
}
use racccoon.Posix.Transfer.{close}

abbrev pub has_flag : ℕ → ℕ → Bool
has_flag flags f = not (bit_and flags f == 0)

-- `struct stat`, of which the other fields are 0
pub record Stat : Type 0 where
  pub mode : ℕ
  pub size : ℕ
  pub nlink : ℕ
  pub blksize : ℕ
  pub blocks : ℕ
  pub dev : ℕ
  pub ino : ℕ

-- fill_stat: S_IFDIR | 0755 is 16877 and S_IFREG | 0644 is 33188.
pub fill_stat : ℕ → ℕ → Stat
fill_stat size kind = record {
  mode = if kind == 1 then 16877 else 33188;
  size = size;
  nlink = 1;
  blksize = 4096;
  blocks = (size + 511) / 512;
  dev = 0;
  ino = 0;
}

-- `for (; *p; p++) { h ^= (unsigned char)*p; h *= 1099511628211UL; }`
pub hash_path : ℕ → Bytes → ℕ
hash_path h [] = h
hash_path h (c ∷ p) = hash_path (bit_xor h c * 1099511628211 % 2 ^ 64) p

-- fill_identity, of the absolute path
pub fill_identity : Stat → Bytes → Stat
unfolding hash_path
fill_identity st ap =
    let h = hash_path 1469598103934665603 ap in record st { dev = 1; ino = if h == 0 then 1 else h }

-- rc_fill_template: the template with its last six bytes replaced, or none where they are not
-- `XXXXXX`.
unfoldable pub template_char : ℕ → ℕ
template_char d = if ltb d 26 then b'a' + d else b'0' + (d - 26)

unfoldable pub template_chars : ℕ → ℕ → Bytes
unfolding template_char
template_chars zero seed = []
template_chars (suc k) seed = template_char (seed % 36) ∷ template_chars k (seed / 36)

abbrev pub same_bytes : Bytes → Bytes → Bool
same_bytes [] [] = true
same_bytes [] (c ∷ t) = false
same_bytes (c ∷ s) [] = false
same_bytes (c ∷ s) (d ∷ t) = c == d && same_bytes s t

unfoldable pub fill_template : Bytes → ℕ → Option Bytes
unfolding template_chars
fill_template tmpl seed =
    let n = length tmpl in
    if ltb n 6 || not (same_bytes (drop (n - 6) tmpl) (replicate 6 b'X'))
    then none
    else some (take (n - 6) tmpl ++ template_chars 6 seed)

module _ (sv : Server) where
  open sv use {World, cwd, stat, read_at, write_at, delete, mkdir, rename}

  -- __rc_fs_write_at (ap, "", 0, 0) < 0, on an empty file
  abbrev pub create_empty : World → Bytes → World × Bool
  create_empty w ap =
      let (w', put) = write_at w ap [] 0 in elim put [ none ↦ (w', false) | some n ↦ (w', true) ]

  -- The end of open: the slot that fd_alloc gave becomes the file, whose size is `size`.
  abbrev pub opened : Process World × Option ℕ → Bytes → ℕ → ℕ → Process World × ℤ
  opened (s, none) ap flags size = (s, negsuc 0)
  opened (s, some fd) ap flags size =
      let off = if has_flag flags 1024 then size else 0 in
      (
        record s {
          fdtab =
              set s.fdtab fd (record { kind = file; flags = flags; off = off; path = take 127 ap });
        },
        pos fd,
      )

  unfoldable pub open_slot : Process World → Bytes → ℕ → ℕ → Process World × ℤ
  open_slot s ap flags size = opened (fd_alloc s) ap flags size

  -- open behind a write that made the file empty
  unfoldable pub open_made : Process World → Bytes → ℕ → World × Bool → Process World × ℤ
  open_made s ap flags (w, true) = open_slot (record s { world = w }) ap flags 0
  open_made s ap flags (w, false) = fail (record s { world = w }) eio

  -- The branches of open on what __rc_fs_stat found: none where the file does not exist.
  unfoldable pub open_found : Process World → Bytes → ℕ → Option FileInfo → Process World × ℤ
  open_found s ap flags none =
      if has_flag flags 65536
      then fail s enotdir
      else if not (has_flag flags 64)
      then fail s enoent
      else open_made s ap flags (create_empty s.world ap)
  open_found s ap flags (some info) =
      if has_flag flags 65536 && not (info.kind == 1)
      then fail s enotdir
      else if has_flag flags 64 && has_flag flags 128
      then fail s eexist
      else if has_flag flags 512 && (has_flag flags 1 || has_flag flags 2)
      then open_made s ap flags (create_empty (delete s.world ap).0 ap)
      else open_slot s ap flags info.size

  unfoldable pub open_file : Process World → Bytes → ℕ → Process World × ℤ
  open_file s₀ path flags =
      let s = fd_init s₀ in
      let ap = abspath (cwd s.world) path in
      let (w, found) = stat s.world ap in open_found (record s { world = w }) ap flags found

  unfoldable pub creat : Process World → Bytes → Process World × ℤ
  unfolding open_file
  creat s path = open_file s path (1 + 64 + 512)

  -- stat, with the structure that it fills in
  unfoldable pub stat_path : Process World → Bytes → Process World × Option Stat
  unfolding fill_stat fill_identity
  stat_path s path =
      let (w, found) = stat s.world path in
      let s' = record s { world = w } in
      elim found [
        | none ↦ (record s' { errno = enoent }, none)
        | some info ↦
            (s', some (fill_identity (fill_stat info.size info.kind) (abspath (cwd w) path)))
      ]

  -- fstat; S_IFCHR | 0666 is 8630
  unfoldable pub fstat : Process World → ℤ → Process World × Option Stat
  unfolding stat_path
  fstat s₀ fd =
      let s = fd_init s₀ in
      elim (open_at s.fdtab fd) [
        | none ↦ (record s { errno = ebadf }, none)
        | some i ↦
            if is_console (entry s.fdtab i).kind
            then (
              s,
              some (record {
                mode = 8630;
                size = 0;
                nlink = 0;
                blksize = 0;
                blocks = 0;
                dev = 0;
                ino = 0;
              }),
            )
            else stat_path s (entry s.fdtab i).path
      ]

  abbrev pub result_or : Process World → World × Bool → ℕ → Process World × ℤ
  result_or s (w, true) e = (record s { world = w }, pos 0)
  result_or s (w, false) e = fail (record s { world = w }) e

  unfoldable pub make_directory : Process World → Bytes → Process World × ℤ
  unfolding stat_path
  make_directory s₀ path =
      let (s, st) = stat_path s₀ path in
      elim st [ some info ↦ fail s eexist | none ↦ result_or s (mkdir s.world path) eio ]

  unfoldable pub unlink : Process World → Bytes → Process World × ℤ
  unlink s path = result_or s (delete s.world path) enoent

  unfoldable pub rmdir : Process World → Bytes → Process World × ℤ
  rmdir s path = result_or s (delete s.world path) enotempty

  pub rename_path : Process World → Bytes → Bytes → Process World × ℤ
  rename_path s old new = result_or s (rename s.world old new) eio

  pub access : Process World → Bytes → Process World × ℤ
  access s path =
      let (w, found) = stat s.world path in
      let s' = record s { world = w } in
      elim found [ none ↦ fail s' enoent | some info ↦ (s', pos 0) ]

  -- realpath, into a buffer that the caller gave
  pub realpath : Process World → Bytes → Process World × Option Bytes
  realpath s path =
      let tmp = abspath (cwd s.world) path in
      let (w, found) = stat s.world tmp in
      let s' = record s { world = w } in
      elim found [ none ↦ (record s' { errno = enoent }, none) | some info ↦ (s', some tmp) ]
