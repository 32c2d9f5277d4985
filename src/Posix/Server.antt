-- ===== src/Posix/Server.antt =====
-- What rc_posix.c and rc_socket.c call: the functions of rc_fs.c and the console calls of the kernel.
-- Their state is a `World` of its own, which each call may change.
use racccoon.Base.{ℕ, Bool, List, Option}

abbrev pub Bytes : Type 0
Bytes = List ℕ

-- What __rc_fs_stat fills in; `kind` is 1 for a directory.
pub record FileInfo : Type 0 where
  pub size : ℕ
  pub kind : ℕ

-- What __rc_fs_read comes to: bytes, NET_RETRY, or another negative result.
pub data Got : Type 0 where
  got : Bytes → Got
  retry failed : Got

-- __rc_fs_read and __rc_fs_write on the files of a conversation, and the sleep of a fraction of a
-- second
pub record NetFiles (W : Type 0) : Type 0 where
  pub read_file : W → Bytes → ℕ → W × Got
  pub write_file : W → Bytes → Bytes → W × Option ℕ
  pub sleep : W → ℕ → W

-- `none` stands for a negative result, `some` for the count or the bytes that were delivered.
pub record Server : Type 1 where
  pub World : Type 0
  pub cwd : World → Bytes
  -- __rc_fs_stat
  pub stat : World → Bytes → World × Option FileInfo
  -- __rc_fs_read_at (path, buf, len, off)
  pub read_at : World → Bytes → ℕ → ℕ → World × Option Bytes
  -- __rc_fs_write_at (path, buf, len, off)
  pub write_at : World → Bytes → Bytes → ℕ → World × Option ℕ
  -- __rc_fs_delete (path, 0), __rc_fs_mkdir, __rc_fs_rename: whether the result is 0
  pub delete : World → Bytes → World × Bool
  pub mkdir : World → Bytes → World × Bool
  pub rename : World → Bytes → Bytes → World × Bool
  -- RC_SYS_WRITE; RC_SYS_GETCHAR, `none` where it is negative
  pub put_console : World → Bytes → World × Option ℕ
  pub get_char : World → World × Option ℕ
  pub stdin_is_console : World → Bool
  -- the files of the conversations, and the number of rounds that a call of rc_socket.c is allowed to
  -- wait for them: it waits as long as it takes, and is `none` where they ran out
  pub conversations : NetFiles World
  pub rounds : ℕ
