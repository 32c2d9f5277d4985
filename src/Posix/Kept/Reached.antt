-- ===== src/Posix/Kept/Reached.antt =====
-- The states that a process can reach by calls on its descriptors, in any order.
use racccoon.Base.{ℕ, Option, ◌≡◌, refl, true, false, Bool, some, replicate}
use racccoon.Base.Int.{ℤ}
use racccoon.Posix.Server.{Bytes, Server}
use racccoon.Posix.Table.{fd_max, empty_fdent, Process, dup, dup2, fcntl, isatty, fd_new_net}
use racccoon.Posix.Table.Slots.{IsValid, errno-IsValid}
use racccoon.Posix.Kept.{
  fd_new_net-IsValid, dup-IsValid, dup2-IsValid, fcntl-IsValid, close-IsValid, world-IsValid,
  left-IsValid,
}
use racccoon.Posix.Kept.Moving.{
  after_read, after, read-LeavesValid, write-LeavesValid, pread-LeavesValid, pwrite-LeavesValid,
}
use racccoon.Posix.Kept.Opened.{lseek-IsValid, open_file-IsValid, isatty-IsValid}
use racccoon.Posix.Transfer.{Whence, close, read, write, lseek, pread, pwrite}
use racccoon.Posix.Files.{open_file, creat, fstat}
use racccoon.Posix.Files.Shrinking.{ftruncate}
use racccoon.Posix.Files.Temporary.{mkstemp, openat, unlinkat, mkdirat}
use racccoon.Posix.Kept.Resized.{fstat-IsValid, behind, ftruncate-LeavesValid}
use racccoon.Posix.Kept.Made.{
  creat-IsValid, mkstemp-IsValid, openat-IsValid, unlinkat-IsValid, mkdirat-IsValid,
}
use racccoon.Posix.Kept.Sockets.{
  bind-IsValid, listen-IsValid, connect-IsValid, shutdown-IsValid, getsockname-IsValid,
  getpeername-IsValid,
}
use racccoon.Posix.Kept.Datagrams.{
  behind_send, behind_recv, net_write-LeavesValid, net_read-LeavesValid, sendto-LeavesValid,
  recvfrom-LeavesValid,
}
use racccoon.Net.Conversations.{bind, listen, connect}
use racccoon.Net.Peers.{shutdown, getsockname, getpeername, net_write, net_read, sendto, recvfrom}

-- The state of a new process: `fdtab` is zero.
pub started : {W : Type 0} → W → Process W
started w = record { fdtab = replicate fd_max empty_fdent; inited = false; errno = 0; world = w }

module _ (sv : Server) where
  -- One call; or the world and errno change, by another process or a call on a path, which leaves the
  -- table alone.
  pub data Step (s : Process sv.World) : Process sv.World → Type 0 where
    by_world : (w : sv.World) (e : ℕ) → Step s (record s { world = w; errno = e })
    by_open : (path : Bytes) (flags : ℕ) → Step s (open_file sv s path flags).0
    by_close : (fd : ℤ) → Step s (close sv s fd).0
    by_dup : (fd : ℤ) → Step s (dup s fd).0
    by_dup2 : (fd new : ℤ) → Step s (dup2 s fd new).0
    by_fcntl : (fd : ℤ) (cmd : ℕ) → Step s (fcntl s fd cmd).0
    by_isatty : (fd : ℤ) → Step s (isatty s sv.stdin_is_console fd).0
    by_socket : (dir : Bytes) (flags : ℕ) → Step s (fd_new_net s dir flags).0
    by_lseek : (fd off : ℤ) (whence : Whence) → Step s (lseek sv s fd off whence).0
    by_read :
        (fd : ℤ) (count : ℕ) (x : Process sv.World × ℤ × Bytes)
        → read sv s fd count ≡ some x
        → Step s x.0
    by_write :
        (fd : ℤ) (buf : Bytes) (x : Process sv.World × ℤ) → write sv s fd buf ≡ some x → Step s x.0
    by_pread :
        (fd : ℤ) (count : ℕ) (off : ℤ) (x : Process sv.World × ℤ × Bytes)
        → pread sv s fd count off ≡ some x
        → Step s x.0
    by_pwrite :
        (fd : ℤ) (buf : Bytes) (off : ℤ) (x : Process sv.World × ℤ)
        → pwrite sv s fd buf off ≡ some x
        → Step s x.0
    by_creat : (path : Bytes) → Step s (creat sv s path).0
    by_openat : (dirfd : ℤ) (path : Bytes) (flags : ℕ) → Step s (openat sv s dirfd path flags).0
    by_unlinkat : (dirfd : ℤ) (path : Bytes) (flags : ℕ) → Step s (unlinkat sv s dirfd path flags).0
    by_mkdirat : (dirfd : ℤ) (path : Bytes) → Step s (mkdirat sv s dirfd path).0
    by_mkstemp : (k : ℕ) (seed : ℕ → ℕ) (tmpl : Bytes) → Step s (mkstemp sv k seed s tmpl).0
    by_fstat : (fd : ℤ) → Step s (fstat sv s fd).0
    by_ftruncate :
        (fd n : ℤ) (room : Bool) (x : Process sv.World × ℤ)
        → ftruncate sv s fd n room ≡ some x
        → Step s x.0
    by_bind : (fd : ℤ) (a : Option (ℕ × ℕ)) → Step s (bind sv.conversations s fd a).0
    by_listen : (fd : ℤ) → Step s (listen sv.conversations s fd).0
    by_connect : (fd : ℤ) (a : Option (ℕ × ℕ)) → Step s (connect sv.conversations s fd a).0
    by_shutdown : (fd : ℤ) (how : ℕ) → Step s (shutdown sv.conversations s fd how).0
    by_getsockname : (fd : ℤ) → Step s (getsockname sv.conversations s fd).0
    by_getpeername : (fd : ℤ) → Step s (getpeername sv.conversations s fd).0
    by_send :
        (f : ℕ) (fd : ℤ) (buf : Bytes) (x : Process sv.World × ℤ)
        → net_write sv.conversations f s fd buf ≡ some x
        → Step s x.0
    by_recv :
        (f : ℕ) (fd : ℤ) (n : ℕ) (x : Process sv.World × Option (Bytes × Bytes))
        → net_read sv.conversations f s fd n ≡ some x
        → Step s x.0
    by_sendto :
        (f : ℕ) (fd : ℤ) (buf : Bytes) (to : Option (Option (ℕ × ℕ))) (x : Process sv.World × ℤ)
        → sendto sv.conversations f s fd buf to ≡ some x
        → Step s x.0
    by_recvfrom :
        (f : ℕ) (fd : ℤ) (n : ℕ) (x : Process sv.World × Option (Option (ℕ × ℕ) × Bytes))
        → recvfrom sv.conversations f s fd n ≡ some x
        → Step s x.0

  pub data Reached (w : sv.World) : Process sv.World → Type 0 where
    start : Reached w (started w)
    then_call : {s s' : Process sv.World} → Reached w s → Step s s' → Reached w s'

  step-IsValid : {s s' : Process sv.World} → Step s s' → IsValid s → IsValid s'
  step-IsValid {s = s} (by_world w e) v =
      errno-IsValid (record s { world = w }) e (world-IsValid s w v)
  step-IsValid {s = s} (by_open path flags) v = open_file-IsValid sv s path flags v
  step-IsValid {s = s} (by_close fd) v = close-IsValid sv s fd v
  step-IsValid {s = s} (by_dup fd) v = dup-IsValid s fd v
  step-IsValid {s = s} (by_dup2 fd new) v = dup2-IsValid s fd new v
  step-IsValid {s = s} (by_fcntl fd cmd) v = fcntl-IsValid s fd cmd v
  step-IsValid {s = s} (by_isatty fd) v = isatty-IsValid sv s sv.stdin_is_console fd v
  step-IsValid {s = s} (by_socket dir flags) v = fd_new_net-IsValid s dir flags v
  step-IsValid {s = s} (by_lseek fd off whence) v = lseek-IsValid sv s fd off whence v
  step-IsValid {s = s} (by_read fd count x e) v =
      left-IsValid (after_read sv) e (read-LeavesValid sv s fd count v)
  step-IsValid {s = s} (by_write fd buf x e) v =
      left-IsValid (after sv) e (write-LeavesValid sv s fd buf v)
  step-IsValid {s = s} (by_pread fd count off x e) v =
      left-IsValid (after_read sv) e (pread-LeavesValid sv s fd count off v)
  step-IsValid {s = s} (by_pwrite fd buf off x e) v =
      left-IsValid (after sv) e (pwrite-LeavesValid sv s fd buf off v)
  step-IsValid {s = s} (by_creat path) v = creat-IsValid sv s path v
  step-IsValid {s = s} (by_openat dirfd path flags) v = openat-IsValid sv s dirfd path flags v
  step-IsValid {s = s} (by_unlinkat dirfd path flags) v = unlinkat-IsValid sv s dirfd path flags v
  step-IsValid {s = s} (by_mkdirat dirfd path) v = mkdirat-IsValid sv s dirfd path v
  step-IsValid {s = s} (by_mkstemp k seed tmpl) v = mkstemp-IsValid sv k seed s tmpl v
  step-IsValid {s = s} (by_fstat fd) v = fstat-IsValid sv s fd v
  step-IsValid {s = s} (by_ftruncate fd n room x e) v =
      left-IsValid (behind sv) e (ftruncate-LeavesValid sv s fd n room v)
  step-IsValid {s = s} (by_bind fd a) v = bind-IsValid sv.conversations s fd a v
  step-IsValid {s = s} (by_listen fd) v = listen-IsValid sv.conversations s fd v
  step-IsValid {s = s} (by_connect fd a) v = connect-IsValid sv.conversations s fd a v
  step-IsValid {s = s} (by_shutdown fd how) v = shutdown-IsValid sv.conversations s fd how v
  step-IsValid {s = s} (by_getsockname fd) v = getsockname-IsValid sv.conversations s fd v
  step-IsValid {s = s} (by_getpeername fd) v = getpeername-IsValid sv.conversations s fd v
  step-IsValid {s = s} (by_send f fd buf x e) v =
      left-IsValid (behind_send sv.conversations) e
        (net_write-LeavesValid sv.conversations f s fd buf v)
  step-IsValid {s = s} (by_recv f fd n x e) v =
      left-IsValid (behind_recv sv.conversations) e
        (net_read-LeavesValid sv.conversations f s fd n v)
  step-IsValid {s = s} (by_sendto f fd buf to x e) v =
      left-IsValid (behind_send sv.conversations) e
        (sendto-LeavesValid sv.conversations f s fd buf to v)
  step-IsValid {s = s} (by_recvfrom f fd n x e) v =
      left-IsValid (behind_recv sv.conversations) e
        (recvfrom-LeavesValid sv.conversations f s fd n v)

  started-IsValid : (w : sv.World) → IsValid (started w)
  unfolding started
  started-IsValid w = record { size = refl; standard = λ e. absurd (off e) }
    where
      off : ◌≡◌ {A = Bool} false true → ⊥
      off e = cc

  -- Whatever the servers answer, and in whatever order a process calls open, creat, openat, unlinkat,
  -- mkdirat, mkstemp, close, dup, dup2, fcntl, isatty, fstat, ftruncate, lseek, read, write, pread,
  -- pwrite, the making of a socket's descriptor, bind, listen, connect, shutdown, getsockname,
  -- getpeername, send, recv, sendto and recvfrom, and other calls and processes change the world and
  -- errno: the table of descriptors has 64 entries, and once it is set up 0, 1 and 2 are open, so that
  -- none of these calls frees one of them.
  pub Reached-IsValid : {w : sv.World} {s : Process sv.World} → Reached w s → IsValid s
  Reached-IsValid {w = w} start = started-IsValid w
  Reached-IsValid (then_call r t) = step-IsValid t (Reached-IsValid r)
