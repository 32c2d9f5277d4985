-- ===== src/Fs/Wire/Serving.antt =====
-- A file server that keeps to the protocol, as the client of it sees it through rc_fs.c.
use racccoon.Base.{
  ℕ, ◌+◌, ◌-◌, ◌^◌, ◌≤◌, ◌<◌, ◌≡◌, refl, ap, ◌∙◌, inl, true, false, [], ◌∷◌, ◌++◌, Option, some,
  length, take, drop, arith, Memory, load, store, IsString, AreNonzero, store-IsString,
  IsString-same,
}
use racccoon.Fs.Path.{abspath}
use racccoon.Fs.Wire.{
  Kernel, verb_read_at, verb_write_at, write_at_max, resolve, same_verb, fsd_call, read_at_pid,
  read_at, write_at_pid, write_at,
}
use racccoon.Fs.Wire.Words.{put32, get32, signed32-small, get32-put32, put32-outside, get32-same}
use racccoon.Posix.Server.{Bytes}
use racccoon.Posix.Transfer.Splice.{splice}

-- The server `pid` serves the file at `path`, which it calls `name`: in the worlds `P c` the file has
-- the content `c`. A request names the file at byte 0, the length at 100 and the offset at 104. A
-- reply to RC_FS_READ_AT has the number of bytes read at 0, and those bytes from 4; none are read
-- only at the end of the file. One to RC_FS_WRITE_AT has the number of the bytes from 108 that were
-- written.
pub record ServesFile (k : Kernel) (pid : ℕ) (path name : Bytes) (P : Bytes → k.World → Type 0)
    : Type 0 where
  pub is_name : AreNonzero name
  pub short : length name ≤ 99
  pub found :
      (w : k.World) (c : Bytes)
      → P c w
      → k.translate w (abspath (k.getcwd w) path) false ≡ some (pid, name)
  pub created :
      (w : k.World) (c : Bytes)
      → P c w
      → k.translate w (abspath (k.getcwd w) path) true ≡ some (pid, name)
  pub reads :
      (w : k.World) (c : Bytes) (req : Memory)
      → P c w
      → IsString req 0 name
      → 0 < get32 req 100
      → (n : ℕ) × (reply : Memory) × ((k.call w pid verb_read_at req).1
          ≡ some (verb_read_at, reply))
        × (get32 reply 0 ≡ n)
        × (n ≤ get32 req 100)
        × (load reply 4 n ≡ take n (drop (get32 req 104) c))
        × (n ≡ 0 → length c ≤ get32 req 104)
        × P c (k.call w pid verb_read_at req).0
  pub writes :
      (w : k.World) (c : Bytes) (req : Memory)
      → P c w
      → IsString req 0 name
      → get32 req 104 + get32 req 100 < 2 ^ 32 - 1
      → (n : ℕ) × (reply : Memory) × ((k.call w pid verb_write_at req).1
          ≡ some (verb_write_at, reply))
        × (get32 reply 0 ≡ n)
        × (n ≤ get32 req 100)
        × P
            (splice c (get32 req 104) (take n (load req 108 (get32 req 100))))
            (k.call w pid verb_write_at req).0

-- The request that both verbs send before the data.
abbrev pub header : Memory → Bytes → ℕ → ℕ → Memory
header junk name len off = put32 (put32 (store junk 0 (name ++ 0 ∷ [])) 100 len) 104 off

module _ (junk : Memory) (name : Bytes) (len off : ℕ) (short : length name ≤ 99) where
  pub header-IsString : AreNonzero name → IsString (header junk name len off) 0 name
  header-IsString h =
      IsString-same name (store junk 0 (name ++ 0 ∷ [])) (header junk name len off) 0
        (λ a l u.
          put32-outside (put32 (store junk 0 (name ++ 0 ∷ [])) 100 len) 104 off a
            (inl (omega arith))
          ∙ put32-outside (store junk 0 (name ++ 0 ∷ [])) 100 len a (inl (omega arith)))
        (store-IsString name junk 0 h)

  pub header-offset : off < 2 ^ 32 → get32 (header junk name len off) 104 ≡ off
  header-offset h =
      get32-put32 (put32 (store junk 0 (name ++ 0 ∷ [])) 100 len) 104 off ∙ omega arith

  pub header-length : len < 2 ^ 32 → get32 (header junk name len off) 100 ≡ len
  header-length h =
      let m = put32 (store junk 0 (name ++ 0 ∷ [])) 100 len in
      get32-same m (header junk name len off) 100
        (λ a l u. put32-outside m 104 off a (inl (omega arith)))
      ∙ get32-put32 (store junk 0 (name ++ 0 ∷ [])) 100 len
      ∙ omega arith

-- A request that the server answers, and the answer of a read and of a write.
module _ (k : Kernel) (junk : Memory) where
  fsd_call-answered :
      (w : k.World) (pid verb : ℕ) (req reply : Memory)
      → (k.call w pid verb req).1 ≡ some (verb, reply)
      → fsd_call k junk w pid verb req ≡ ((k.call w pid verb req).0, some reply)
  unfolding fsd_call
  fsd_call-answered w pid verb req reply e =
      same ((k.call w pid verb req).0) ((k.call w pid verb req).1) e
    where
      same :
          (w' : k.World) (r : Option (ℕ × Memory))
          → r ≡ some (verb, reply)
          → same_verb k junk verb (w', r) ≡ (w', some reply)
      same w' r e = rw (e) (ap (λ o. (w', o)) (ground arith))

  pub read_at-answered :
      (w : k.World) (path name : Bytes) (pid len off n : ℕ) (reply : Memory)
      → k.translate w (abspath (k.getcwd w) path) false ≡ some (pid, name)
      → (k.call w pid verb_read_at (header junk name len off)).1 ≡ some (verb_read_at, reply)
      → get32 reply 0 ≡ n
      → n ≤ len
      → n < 2 ^ 31
      → read_at k junk w path len off
        ≡ ((k.call w pid verb_read_at (header junk name len off)).0, some (load reply 4 n))
  unfolding read_at resolve read_at_pid
  read_at-answered w path name pid len off n reply f e g le small =
      rw
        (
          f,
          fsd_call-answered w pid verb_read_at (header junk name len off) reply e,
          g,
          signed32-small n small,
        )
        (ap (λ m. ((k.call w pid verb_read_at (header junk name len off)).0, some (load reply 4 m)))
          (ground arith))

  pub write_at-answered :
      (w : k.World) (path name buf : Bytes) (pid off n : ℕ) (reply : Memory)
      → k.translate w (abspath (k.getcwd w) path) true ≡ some (pid, name)
      → let bytes = take write_at_max buf in
        let req = store (header junk name (length bytes) off) 108 bytes in
        (k.call w pid verb_write_at req).1 ≡ some (verb_write_at, reply)
        → get32 reply 0 ≡ n
        → n < 2 ^ 31
        → write_at k junk w path buf off ≡ ((k.call w pid verb_write_at req).0, some n)
  unfolding write_at resolve write_at_pid
  write_at-answered w path name buf pid off n reply f e g small =
      let bytes = take write_at_max buf in
      rw
        (
          f,
          fsd_call-answered w pid verb_write_at
              (store (header junk name (length bytes) off) 108 bytes) reply e,
          g,
          signed32-small n small,
        )
        refl
