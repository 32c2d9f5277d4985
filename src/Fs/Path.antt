-- ===== src/Fs/Path.antt =====
-- rc_normalize and __rc_abspath of lib/racccoon-libc/src/rc_fs.c. A C string is the list of its
-- bytes before the NUL. The buffer `tmp[0..o)` is used as a stack: it is the list of its bytes with
-- the last one, `tmp[o - 1]`, first, so `o` is its length.
pub mod Resolve
pub mod Normalize
use racccoon.Base.{
  ℕ, zero, suc, ◌+◌, Bool, true, false, not, ◌&&◌, List, [], ◌∷◌, ◌++◌, length, take, ltb, ◌==◌,
  if◌then◌else◌, Option, none, some,
}
use mathlib.Core.List.{reverse}

abbrev pub Bytes : Type 0
Bytes = List ℕ

-- `while (p[i] == '/') i++;`
pub skip_slashes : Bytes → Bytes
skip_slashes [] = []
skip_slashes (c ∷ p) = if c == b'/' then skip_slashes p else c ∷ p

-- `while (p[i] && p[i] != '/') i++;`: the bytes passed, and those that are left
pub component : Bytes → Bytes
component [] = []
component (c ∷ p) = if c == b'/' then [] else c ∷ component p

pub after_component : Bytes → Bytes
after_component [] = []
after_component (c ∷ p) = if c == b'/' then c ∷ p else after_component p

-- `n == 1 && p[s] == '.'`
abbrev pub is_dot : Bytes → Bool
is_dot [] = false
is_dot (c ∷ []) = c == b'.'
is_dot (c ∷ d ∷ p) = false

-- `n == 2 && p[s] == '.' && p[s + 1] == '.'`
abbrev pub is_dot_dot : Bytes → Bool
is_dot_dot [] = false
is_dot_dot (c ∷ []) = false
is_dot_dot (c ∷ d ∷ []) = c == b'.' && d == b'.'
is_dot_dot (c ∷ d ∷ e ∷ p) = false

-- `while (o > 1 && tmp[o - 1] != '/') o--;`
pub drop_to_slash : Bytes → Bytes
drop_to_slash [] = []
drop_to_slash (c ∷ []) = c ∷ []
drop_to_slash (c ∷ d ∷ t) = if c == b'/' then c ∷ d ∷ t else drop_to_slash (d ∷ t)

-- `if (o > 1) { o--; while … }`
pub drop_component : Bytes → Bytes
unfolding drop_to_slash
drop_component [] = []
drop_component (c ∷ []) = c ∷ []
drop_component (c ∷ d ∷ t) = drop_to_slash (d ∷ t)

-- `if (o > 1 && tmp[o - 1] != '/') tmp[o++] = '/';`
pub push_slash : Bytes → Bytes
push_slash [] = []
push_slash (c ∷ []) = c ∷ []
push_slash (c ∷ d ∷ t) = if c == b'/' then c ∷ d ∷ t else b'/' ∷ c ∷ d ∷ t

-- `for (int k = 0; k < n && o < 127; k++) tmp[o++] = p[s + k];`
pub push_bytes : Bytes → Bytes → Bytes
push_bytes t [] = t
push_bytes t (c ∷ n) = let rest = push_bytes (c ∷ t) n in if ltb (length t) 127 then rest else t

-- The rest of a round, for the component `n`.
pub place : Bytes → Bytes → Bytes
unfolding drop_component push_slash push_bytes
place t n =
    if is_dot n then t else if is_dot_dot n then drop_component t else push_bytes (push_slash t) n

-- `while (p[i]) { … }`. A round takes at least one byte of the path away, so its length is enough
-- fuel.
pub normalize_loop : ℕ → Bytes → Bytes → Bytes
unfolding skip_slashes component after_component place
normalize_loop zero p t = t
normalize_loop (suc f) p t = elim (skip_slashes p) [
  | [] ↦ t
  | c ∷ q ↦ normalize_loop f (after_component (c ∷ q)) (place t (component (c ∷ q)))
]

-- `if (o > 1 && tmp[o - 1] == '/') o--;`
pub drop_last_slash : Bytes → Bytes
drop_last_slash [] = []
drop_last_slash (c ∷ []) = c ∷ []
drop_last_slash (c ∷ d ∷ t) = if c == b'/' then d ∷ t else c ∷ d ∷ t

pub normalize : Bytes → Bytes
unfolding normalize_loop drop_last_slash
normalize p = reverse (drop_last_slash (normalize_loop (suc (length p)) p (b'/' ∷ [])))

-- `for (…; n && o < 127; …) out[o++] = …;`: the bytes that still fit behind `out`
abbrev pub append_bounded : Bytes → Bytes → Bytes
append_bounded out s = take 127 (out ++ s)

-- The slash between the working directory and the name: `if (o < 127 && (o == 0 || out[o - 1] != '/'))`.
abbrev pub ends_in_slash : Bytes → Bool
ends_in_slash [] = false
ends_in_slash (c ∷ []) = c == b'/'
ends_in_slash (c ∷ d ∷ s) = ends_in_slash (d ∷ s)

abbrev pub join_slash : Bytes → Bytes
join_slash out = if ltb (length out) 127 && not (ends_in_slash out) then out ++ b'/' ∷ [] else out

-- `cwd` holds the `n` bytes that SYS_GETCWD wrote, and none where it failed; no directory is the
-- root.
abbrev pub cwd_or_root : Bytes → Bytes
cwd_or_root [] = b'/' ∷ []
cwd_or_root (zero ∷ s) = b'/' ∷ []
cwd_or_root (suc c ∷ s) = suc c ∷ s

pub abspath : Bytes → Bytes → Bytes
unfolding normalize
abspath cwd [] = normalize (append_bounded [] (cwd_or_root cwd))
abspath cwd (c ∷ rel) =
    if c == b'/'
    then normalize (append_bounded [] (c ∷ rel))
    else normalize (append_bounded (join_slash (append_bounded [] (cwd_or_root cwd))) (c ∷ rel))
