-- ===== src/Exec.antt =====
-- exec of lib/racccoon-libc/src/rc_proc.c, over the functions of rc_fs.c (`Server`) and the system call
-- RC_SYS_EXEC. A string is the list of its bytes. The image and the blob that execve builds behind it
-- are two lists; a fault of a blob leaves nothing behind, since its buffer is freed.
pub mod Blob
pub mod Start
pub mod Handover
pub mod Children
pub mod Loaded
use racccoon.Base.{
  ℕ, zero, suc, ◌+◌, ◌-◌, min, Bool, true, false, ltb, leb, ◌==◌, ◌||◌, not, if◌then◌else◌, List,
  [], ◌∷◌, ◌++◌, Option, none, some, length, take, drop,
}
use racccoon.Posix.Server.{Bytes, FileInfo, Server}
use racccoon.Exec.Blob.{build_blob}

-- errno
abbrev pub e2big : ℕ
e2big = 7

abbrev pub enoexec : ℕ
enoexec = 8

abbrev pub enoent : ℕ
enoent = 2

abbrev pub eio : ℕ
eio = 5

abbrev pub enomem : ℕ
enomem = 12

abbrev pub eacces : ℕ
eacces = 13

-- RC_EXEC_IMAGE_MAX
abbrev pub image_max : ℕ
image_max = 1048576

-- RC_READ_CHUNK
abbrev pub read_chunk : ℕ
read_chunk = 8192 - 4

-- What the exec functions come to: the process runs another program, or the call fails with an errno.
pub data Outcome : Type 0 where
  replaced : Outcome
  failed : ℕ → Outcome

-- What load_image comes to: an image, or an errno.
pub data Image : Type 0 where
  loaded : Bytes → Image
  unloaded : ℕ → Image

module _ (sv : Server) where
  open sv use {World, stat, read_at}

  -- `if (total == 0)` behind the loop of load_image
  abbrev pub checked : Bytes → Image
  checked [] = unloaded enoexec
  checked (b ∷ bs) = loaded (b ∷ bs)

  -- The loop of load_image, which has read `out`.
  unfoldable pub image_loop : ℕ → World → Bytes → ℕ → Bytes → Option (World × Image)
  image_loop zero w path size out = none
  image_loop (suc f) w path size out = elim (ltb (length out) size) [
    | false ↦ some (w, checked out)
    | true ↦
        let (w', got) = read_at w path (min (size - length out) read_chunk) (length out) in
        elim got [
          | none ↦ some (w', unloaded eio)
          | some bs ↦ elim bs [
            | [] ↦ some (w', checked out)
            | b ∷ bs' ↦ image_loop f w' path size (out ++ b ∷ bs')
          ]
        ]
  ]

  -- load_image, behind __rc_fs_stat; `malloc` is whether there is room for that many bytes.
  abbrev pub image_found : (ℕ → Bool) → World → Bytes → Option FileInfo → Option (World × Image)
  image_found malloc w path none = some (w, unloaded enoent)
  image_found malloc w path (some info) =
      if info.kind == 1
      then some (w, unloaded eacces)
      else if info.size == 0 || ltb image_max info.size
      then some (w, unloaded enoexec)
      else if not (malloc (info.size + 16384 + 16))
      then some (w, unloaded enomem)
      else image_loop (suc info.size) w path info.size []

  unfoldable pub load_image : (ℕ → Bool) → World → Bytes → Option (World × Image)
  load_image malloc w path = let (w', info) = stat w path in image_found malloc w' path info

  module _ (malloc : ℕ → Bool) (exec : World → Bytes → Bytes → ℕ → World × Bool) where
    -- RC_SYS_EXEC with the image, the blob and the number of arguments: whether it replaced the process
    abbrev pub executed : World × Bool → World × Outcome
    executed (w, true) = (w, replaced)
    executed (w, false) = (w, failed enoexec)

    abbrev pub with_blob : World → Bytes → ℕ → Option Bytes → World × Outcome
    with_blob w image ac none = (w, failed e2big)
    with_blob w image ac (some blob) = executed (exec w image blob ac)

    abbrev pub with_image : World → List Bytes → List Bytes → Image → World × Outcome
    with_image w argv envp (unloaded e) = (w, failed e)
    with_image w argv envp (loaded image) = with_blob w image (length argv) (build_blob argv envp)

    abbrev pub with_loaded :
        List Bytes → List Bytes → Option (World × Image) → Option (World × Outcome)
    with_loaded argv envp none = none
    with_loaded argv envp (some (w, image)) = some (with_image w argv envp image)

    -- execve; a null `argv` or `envp` is an empty one
    unfoldable pub execve : World → Bytes → List Bytes → List Bytes → Option (World × Outcome)
    execve w path argv envp = with_loaded argv envp (load_image malloc w path)

    -- join_path, into 256 bytes
    abbrev pub slash_if : Bytes → Bytes
    slash_if [] = 47 ∷ []
    slash_if (c ∷ []) = if c == 47 then c ∷ [] else c ∷ 47 ∷ []
    slash_if (c ∷ d ∷ cs) = c ∷ slash_if (d ∷ cs)

    unfoldable pub join_path : Bytes → Bytes → Option Bytes
    join_path dir name = let p = slash_if dir ++ name in if ltb (length p) 256 then some p else none

    -- The parts of a search path between colons.
    abbrev pub entry_with : ℕ → List Bytes → List Bytes
    entry_with c [] = (c ∷ []) ∷ []
    entry_with c (e ∷ es) = (c ∷ e) ∷ es

    unfoldable pub entries : Bytes → List Bytes
    entries [] = [] ∷ []
    entries (c ∷ cs) = let rest = entries cs in if c == 58 then [] ∷ rest else entry_with c rest

    -- The loop of execvp: an entry that is empty or too long is passed over.
    abbrev pub candidate : Bytes → Bytes → Option Bytes
    candidate [] file = none
    candidate (c ∷ cs) file = join_path (c ∷ cs) file

    unfoldable pub try_entries :
        World → List Bytes → Bytes → List Bytes → List Bytes → Option (World × Outcome)
    try_entries w [] file argv envp = some (w, failed enoent)
    try_entries w (e ∷ es) file argv envp = elim (candidate e file) [
      | none ↦ try_entries w es file argv envp
      | some path ↦ elim (execve w path argv envp) [
        | none ↦ none
        | some (w', o) ↦ elim o [
          | replaced ↦ some (w', replaced)
          | failed n ↦ try_entries w' es file argv envp
        ]
      ]
    ]
