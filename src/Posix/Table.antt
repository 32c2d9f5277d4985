-- ===== src/Posix/Table.antt =====
-- The table of file descriptors of lib/racccoon-libc/src/rc_posix.c, and the calls that touch
-- nothing else: fd_init, fd_alloc, dup, dup2, fcntl, isatty, and the sockets' hooks. A path is the
-- list of its bytes; `strncpy` into a field of 128 bytes keeps the first 127.
pub mod Slots
use racccoon.Base.{
  ℕ, zero, suc, ◌+◌, Bool, true, false, not, ◌&&◌, ◌||◌, List, [], ◌∷◌, Option, none, some, ltb,
  ◌==◌, if◌then◌else◌, get_or, set, take, replicate, bit_and,
}
use racccoon.Base.Int.{ℤ, pos, negsuc}
use racccoon.Posix.Server.{Bytes}

abbrev pub fd_max : ℕ
fd_max = 64

abbrev pub eio : ℕ
eio = 5

abbrev pub ebadf : ℕ
ebadf = 9

abbrev pub einval : ℕ
einval = 22

abbrev pub emfile : ℕ
emfile = 24

abbrev pub espipe : ℕ
espipe = 29

abbrev pub enoent : ℕ
enoent = 2

abbrev pub eexist : ℕ
eexist = 17

abbrev pub enotdir : ℕ
enotdir = 20

abbrev pub enotempty : ℕ
enotempty = 39

-- `enum { K_FREE = 0, K_CONSOLE, K_FILE, K_NET }`
pub data Kind : Type 0 where
  free console file net : Kind

-- `struct fdent`
pub record Fdent : Type 0 where
  pub kind : Kind
  pub flags : ℕ
  pub off : ℕ
  pub path : Bytes

abbrev pub empty_fdent : Fdent
empty_fdent = record { kind = free; flags = 0; off = 0; path = [] }

-- `fdtab`, `fdtab_inited` and `errno`; `world` is what the calls below this layer keep.
pub record Process (W : Type 0) : Type 0 where
  pub fdtab : List Fdent
  pub inited : Bool
  pub errno : ℕ
  pub world : W

abbrev pub is_free : Kind → Bool
is_free free = true
is_free console = false
is_free file = false
is_free net = false

abbrev pub is_file : Kind → Bool
is_file free = false
is_file console = false
is_file file = true
is_file net = false

abbrev pub is_console : Kind → Bool
is_console free = false
is_console console = true
is_console file = false
is_console net = false

abbrev pub entry : List Fdent → ℕ → Fdent
entry t i = get_or t i empty_fdent

abbrev pub set_kind : List Fdent → ℕ → Kind → List Fdent
set_kind t i k = set t i (record (entry t i) { kind = k })

-- `0 <= fd && fd < FD_MAX`, and the number as an index.
abbrev pub in_range : ℤ → Option ℕ
in_range (pos i) = if ltb i fd_max then some i else none
in_range (negsuc n) = none

-- The negation of `fd < 0 || fd >= FD_MAX || fdtab[fd].kind == K_FREE`.
abbrev pub open_at : List Fdent → ℤ → Option ℕ
open_at t fd = elim (in_range fd) [
  | none ↦ none
  | some i ↦ if is_free (entry t i).kind then none else some i
]

-- The negation of `fd < 0 || fd >= FD_MAX || fdtab[fd].kind != K_FILE`.
abbrev pub file_at : List Fdent → ℤ → Option ℕ
file_at t fd = elim (in_range fd) [
  | none ↦ none
  | some i ↦ if is_file (entry t i).kind then some i else none
]

module _ {W : Type 0} where
  abbrev pub fail : Process W → ℕ → Process W × ℤ
  fail s e = (record s { errno = e }, negsuc 0)

  -- fd_init
  unfoldable pub fd_init : Process W → Process W
  fd_init s = if s.inited then s else record s {
    fdtab = set_kind (set_kind (set_kind s.fdtab 0 console) 1 console) 2 console;
    inited = true;
  }

-- `for (int i = 3; i < FD_MAX; i++) if (fdtab[i].kind == K_FREE) return i;`
unfoldable pub first_free : ℕ → List Fdent → ℕ → Option ℕ
first_free zero t i = none
first_free (suc k) t i =
    let rest = first_free k t (i + 1) in if is_free (entry t i).kind then some i else rest

module _ {W : Type 0} where
  -- fd_alloc: the slot, or EMFILE
  unfoldable pub fd_alloc : Process W → Process W × Option ℕ
  unfolding fd_init first_free
  fd_alloc s₀ =
      let s = fd_init s₀ in
      elim (first_free 61 s.fdtab 3) [
        | some i ↦ (s, some i)
        | none ↦ (record s { errno = emfile }, none)
      ]

  -- __rc_fd_new_net
  unfoldable pub fd_new_net : Process W → Bytes → ℕ → Process W × ℤ
  unfolding fd_alloc
  fd_new_net s₀ dir flags =
      let (s, slot) = fd_alloc s₀ in
      elim slot [
        | none ↦ (s, negsuc 0)
        | some fd ↦ (
          record s {
            fdtab =
                set s.fdtab fd (record { kind = net; flags = flags; off = 0; path = take 127 dir });
          },
          pos fd,
        )
      ]

  unfoldable pub dup : Process W → ℤ → Process W × ℤ
  unfolding fd_init fd_alloc
  dup s₀ fd =
      let s = fd_init s₀ in
      elim (open_at s.fdtab fd) [
        | none ↦ fail s ebadf
        | some i ↦
            let (s₁, slot) = fd_alloc s in
            elim slot [
              | none ↦ (s₁, negsuc 0)
              | some nf ↦ (record s₁ { fdtab = set s₁.fdtab nf (entry s₁.fdtab i) }, pos nf)
            ]
      ]

  unfoldable pub dup2 : Process W → ℤ → ℤ → Process W × ℤ
  unfolding fd_init
  dup2 s₀ oldfd newfd =
      let s = fd_init s₀ in
      elim (open_at s.fdtab oldfd) [
        | none ↦ fail s ebadf
        | some o ↦ elim (in_range newfd) [
          | none ↦ fail s ebadf
          | some n ↦
              if o == n
              then (s, pos n)
              else (record s { fdtab = set s.fdtab n (entry s.fdtab o) }, pos n)
        ]
      ]

  -- fcntl; F_GETLK stores F_UNLCK through its argument, and so is told apart by its result.
  unfoldable pub fcntl : Process W → ℤ → ℕ → Process W × ℤ
  unfolding fd_init dup
  fcntl s₀ fd cmd =
      let s = fd_init s₀ in
      elim (open_at s.fdtab fd) [
        | none ↦ fail s ebadf
        | some i ↦
            if cmd == 3
            then (s, pos (entry s.fdtab i).flags)
            else if cmd == 0
            then dup s fd
            else (s, pos 0)
      ]

  -- isatty
  unfoldable pub isatty : Process W → (W → Bool) → ℤ → Process W × ℤ
  unfolding fd_init
  isatty s₀ stdin_is_console fd =
      let s = fd_init s₀ in
      elim (open_at s.fdtab fd) [
        | none ↦ (record s { errno = ebadf }, pos 0)
        | some i ↦
            if not (is_console (entry s.fdtab i).kind)
            then (s, pos 0)
            else if i == 0
            then (s, if stdin_is_console s.world then pos 1 else pos 0)
            else (s, pos 1)
      ]
