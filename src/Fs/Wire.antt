-- ===== src/Fs/Wire.antt =====
-- The requests of lib/racccoon-libc/src/rc_fs.c to the file servers, over the system calls of the
-- record `Kernel`. A request and its reply share one buffer of RC_FS_MSG_MAX bytes: the path at byte
-- 0, the length at 100, the offset at 104 and the data to write at 108; the reply has the result at
-- byte 0 and data from byte 4. What the buffer holds before is `junk`, since the source does not
-- set it. `none` stands for a negative result.
pub mod Words
pub mod Serving
pub mod Listing
use racccoon.Base.{
  ℕ, zero, suc, ◌+◌, ◌-◌, ◌*◌, ◌^◌, min, Bool, true, false, List, [], ◌∷◌, ◌++◌, Option, none, some,
  ◌||◌, ltb, leb, ◌==◌, if◌then◌else◌, length, take, drop, Memory, load, store,
}
use racccoon.Base.Int.{ℤ, pos, negsuc}
use racccoon.Fs.Path.{abspath}
use racccoon.Fs.Wire.Words.{put32, get32, signed32}
use racccoon.Posix.Server.{Bytes, FileInfo}

abbrev pub msg_max : ℕ
msg_max = 8192

-- RC_FS_WRITE_AT_MAXCHUNK
abbrev pub write_at_max : ℕ
write_at_max = 8192 - 108

abbrev pub entry_size : ℕ
entry_size = 36

-- RC_FS_LIST_PAGE_MAX
abbrev pub page_max : ℕ
page_max = 227

abbrev pub verb_read : ℕ
verb_read = 20

abbrev pub verb_write : ℕ
verb_write = 21

abbrev pub verb_delete : ℕ
verb_delete = 22

abbrev pub verb_list : ℕ
verb_list = 23

abbrev pub verb_mkdir : ℕ
verb_mkdir = 24

abbrev pub verb_rename : ℕ
verb_rename = 25

abbrev pub verb_read_at : ℕ
verb_read_at = 26

abbrev pub verb_write_at : ℕ
verb_write_at = 27

abbrev pub verb_stat : ℕ
verb_stat = 28

-- RC_SYS_GETCWD; RC_SYS_NS_TRANSLATE, with whether it is for creation (member -1): the server and
-- the path as that server names it, 99 bytes at most; RC_SYS_IPC_CALL, with a message and its verb:
-- the reply's verb and message, or none where there is no reply.
pub record Kernel : Type 1 where
  pub World : Type 0
  pub getcwd : World → Bytes
  pub translate : World → Bytes → Bool → Option (ℕ × Bytes)
  pub call : World → ℕ → ℕ → Memory → World × Option (ℕ × Memory)

module _ (k : Kernel) (junk : Memory) where
  open k use {World, getcwd, translate, call}

  -- __rc_abspath, then resolve_stripped (`create` is false) or resolve_stripped_c: the server and the
  -- buffer with the path.
  abbrev pub addressed : Option (ℕ × Bytes) → Option (ℕ × Memory)
  addressed none = none
  addressed (some (pid, name)) = some (pid, store junk 0 (name ++ 0 ∷ []))

  unfoldable pub resolve : World → Bytes → Bool → Option (ℕ × Memory)
  resolve w path create = addressed (translate w (abspath (getcwd w) path) create)

  -- rc_fsd_call and the test of the reply's verb
  abbrev pub same_verb : ℕ → World × Option (ℕ × Memory) → World × Option Memory
  same_verb verb (w, none) = (w, none)
  same_verb verb (w, some (rv, reply)) = (w, if rv == verb then some reply else none)

  unfoldable pub fsd_call : World → ℕ → ℕ → Memory → World × Option Memory
  fsd_call w pid verb req = same_verb verb (call w pid verb req)

  -- `if (result < 0) return result; if (result > len) result = len; memcpy (buf, req + 4, result)`
  abbrev pub data_of : ℕ → Memory → ℤ → Option Bytes
  data_of len reply (negsuc n) = none
  data_of len reply (pos n) = some (load reply 4 (min n len))

  abbrev pub data_reply : ℕ → World × Option Memory → World × Option Bytes
  data_reply len (w, none) = (w, none)
  data_reply len (w, some reply) = (w, data_of len reply (signed32 (get32 reply 0)))

  abbrev pub count_of : ℤ → Option ℕ
  count_of (negsuc n) = none
  count_of (pos n) = some n

  abbrev pub count_reply : World × Option Memory → World × Option ℕ
  count_reply (w, none) = (w, none)
  count_reply (w, some reply) = (w, count_of (signed32 (get32 reply 0)))

  abbrev pub read_at_pid : World → ℕ → ℕ → Option (ℕ × Memory) → World × Option Bytes
  unfolding fsd_call
  read_at_pid w len off none = (w, none)
  read_at_pid w len off (some (pid, req)) =
      data_reply len (fsd_call w pid verb_read_at (put32 (put32 req 100 len) 104 off))

  -- __rc_fs_read_at
  pub read_at : World → Bytes → ℕ → ℕ → World × Option Bytes
  unfolding resolve read_at_pid
  read_at w path len off = read_at_pid w len off (resolve w path false)

  abbrev pub write_at_pid : World → Bytes → ℕ → Option (ℕ × Memory) → World × Option ℕ
  unfolding fsd_call
  write_at_pid w buf off none = (w, none)
  write_at_pid w buf off (some (pid, req)) =
      let bytes = take write_at_max buf in
      count_reply (
        fsd_call w pid verb_write_at
          (store (put32 (put32 req 100 (length bytes)) 104 off) 108 bytes))

  -- __rc_fs_write_at, of the bytes at `buf`
  pub write_at : World → Bytes → Bytes → ℕ → World × Option ℕ
  unfolding resolve write_at_pid
  write_at w path buf off = write_at_pid w buf off (resolve w path true)

  abbrev pub read_pid : World → ℕ → Option (ℕ × Memory) → World × Option Bytes
  unfolding fsd_call
  read_pid w len none = (w, none)
  read_pid w len (some (pid, req)) = data_reply len (fsd_call w pid verb_read (put32 req 100 len))

  -- __rc_fs_read
  pub read_whole : World → Bytes → ℕ → World × Option Bytes
  unfolding resolve read_pid
  read_whole w path len = read_pid w (min len (msg_max - 4)) (resolve w path false)

  abbrev pub write_pid : World → Bytes → Option (ℕ × Memory) → World × Option ℕ
  unfolding fsd_call
  write_pid w buf none = (w, none)
  write_pid w buf (some (pid, req)) =
      let bytes = take (msg_max - 104) buf in
      count_reply (fsd_call w pid verb_write (store (put32 req 100 (length bytes)) 104 bytes))

  -- __rc_fs_write
  pub write_whole : World → Bytes → Bytes → World × Option ℕ
  unfolding resolve write_pid
  write_whole w path buf = write_pid w buf (resolve w path true)

  abbrev pub info_of : Memory → ℤ → Option FileInfo
  info_of reply (negsuc n) = none
  info_of reply (pos n) = some (record { size = get32 reply 4; kind = reply 8 })

  abbrev pub info_reply : World × Option Memory → World × Option FileInfo
  info_reply (w, none) = (w, none)
  info_reply (w, some reply) = (w, info_of reply (signed32 (get32 reply 0)))

  abbrev pub stat_pid : World → Option (ℕ × Memory) → World × Option FileInfo
  unfolding fsd_call
  stat_pid w none = (w, none)
  stat_pid w (some (pid, req)) = info_reply (fsd_call w pid verb_stat req)

  -- __rc_fs_stat
  pub stat : World → Bytes → World × Option FileInfo
  unfolding resolve stat_pid
  stat w path = stat_pid w (resolve w path false)

  -- simple_verb: whether the result is 0
  abbrev pub is_zero : Option ℕ → Bool
  is_zero none = false
  is_zero (some zero) = true
  is_zero (some (suc n)) = false

  abbrev pub done : World × Option ℕ → World × Bool
  done (w, n) = (w, is_zero n)

  abbrev pub simple_pid : World → ℕ → ℕ → Option (ℕ × Memory) → World × Bool
  unfolding fsd_call
  simple_pid w verb aux none = (w, false)
  simple_pid w verb aux (some (pid, req)) =
      done (count_reply (fsd_call w pid verb (put32 req 100 aux)))

  pub simple_verb : World → Bytes → ℕ → ℕ → Bool → World × Bool
  unfolding resolve simple_pid
  simple_verb w path verb aux create = simple_pid w verb aux (resolve w path create)

  -- __rc_fs_mkdir and __rc_fs_delete
  pub mkdir : World → Bytes → World × Bool
  unfolding simple_verb
  mkdir w path = simple_verb w path verb_mkdir 0 true

  pub delete : World → Bytes → ℕ → World × Bool
  unfolding simple_verb
  delete w path recur = simple_verb w path verb_delete recur false

  -- __rc_fs_rename: both paths must be served by one server.
  abbrev pub rename_pids : World → Option (ℕ × Bytes) → Option (ℕ × Bytes) → World × Bool
  unfolding fsd_call
  rename_pids w (some (pid, old)) (some (pid', new)) =
      if pid == pid'
      then done (
          count_reply (
            fsd_call w pid verb_rename
              (store (store junk 0 (take 99 old ++ 0 ∷ [])) 100 (take 99 new ++ 0 ∷ []))))
      else (w, false)
  rename_pids w _ _ = (w, false)

  pub rename : World → Bytes → Bytes → World × Bool
  unfolding rename_pids
  rename w old new =
      rename_pids w (translate w (abspath (getcwd w) old) false)
        (translate w (abspath (getcwd w) new) true)

  -- The loop of __rc_fs_list: `total` entries are in `out`. A page that is not full is the last one;
  -- each other page has at least one entry, so `limit` rounds and one are enough.
  abbrev pub listed : Bytes → ℕ → World → World × Option Bytes
  listed out zero w = (w, none)
  listed out (suc n) w = (w, some out)

  pub list_loop : ℕ → World → ℕ → Bytes → Bytes → ℕ → ℕ → Option (World × Option Bytes)
  unfolding fsd_call
  list_loop zero w pid name out total limit = none
  list_loop (suc f) w pid name out total limit =
      let (w', r) =
        fsd_call w pid verb_list (put32 (store junk 0 (take 99 name ++ 0 ∷ [])) 104 total) in
      elim r [
        | none ↦ some (listed out total w')
        | some reply ↦ elim (signed32 (get32 reply 0)) [
          | negsuc n ↦ some (listed out total w')
          | pos page ↦
              let n = min page (limit - total) in
              let out' = out ++ load reply 4 (n * entry_size) in
              if ltb page page_max || leb limit (total + n)
              then some (w', some out')
              else list_loop f w' pid name out' (total + n) limit
        ]
      ]

  abbrev pub list_pid : World → ℕ → Option (ℕ × Bytes) → Option (World × Option Bytes)
  unfolding list_loop
  list_pid w limit none = some (w, none)
  list_pid w limit (some (pid, name)) = list_loop (suc limit) w pid name [] 0 limit

  -- __rc_fs_list: the bytes of the entries
  pub list : World → Bytes → ℕ → Option (World × Option Bytes)
  unfolding list_pid
  list w path limit = list_pid w limit (translate w (abspath (getcwd w) path) false)
