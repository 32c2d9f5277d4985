-- ===== src/Environment.antt =====
-- lib/racccoon-libc/src/rc_env.c: `environ`, as the list of its entries, each of which is a C string.
-- Which allocations of a call succeed is the parameter `granted`, and what they hold is not modelled;
-- `store` is the answer of the /env store for a name.
pub mod Entries
use racccoon.Base.{
  ℕ, zero, suc, ◌+◌, ◌-◌, ◌*◌, Bool, true, false, not, ◌&&◌, ◌||◌, List, [], ◌∷◌, ◌++◌, Option,
  none, some, leb, ◌==◌, if◌then◌else◌, length, set, take,
}
use racccoon.Base.Int.{ℤ, pos, negsuc}

abbrev pub Bytes : Type 0
Bytes = List ℕ

-- `environ`, `env_owned`, `env_cap` and `errno`
pub record Env : Type 0 where
  pub entries : List Bytes
  pub owned : Bool
  pub cap : ℕ
  pub errno : ℕ

-- name_matches: what follows "name=" where the entry begins so
unfoldable pub value_of : Bytes → Bytes → Option Bytes
value_of [] [] = none
value_of (c ∷ entry) [] = if c == b'=' then some entry else none
value_of [] (d ∷ name) = none
value_of (c ∷ entry) (d ∷ name) = let rest = value_of entry name in if c == d then rest else none

abbrev pub is_some : {A : Type 0} → Option A → Bool
is_some none = false
is_some (some v) = true

-- env_find: the index, none for -1
unfoldable pub find_from : ℕ → List Bytes → Bytes → Option ℕ
unfolding value_of
find_from i [] name = none
find_from i (e ∷ es) name =
    let rest = find_from (i + 1) es name in if is_some (value_of e name) then some i else rest

unfoldable pub env_find : Env → Bytes → Option ℕ
unfolding find_from
env_find s name = find_from 0 s.entries name

abbrev pub enomem : ℕ
enomem = 12

-- The calls of malloc, strdup and realloc: the array that env_take_ownership makes, its copy of an
-- entry, the entry of setenv, and the array that env_grow_for_one makes.
pub data Site : Type 0 where
  own_array : Site
  own_copy : ℕ → Site
  new_entry : Site
  grown_array : Site

-- Each entry from index `i` on has been copied.
unfoldable pub copies : (Site → Bool) → ℕ → List Bytes → Bool
copies granted i [] = true
copies granted i (e ∷ es) = let rest = copies granted (i + 1) es in granted (own_copy i) && rest

-- env_take_ownership: false is -1
unfoldable pub take_ownership : (Site → Bool) → Env → Env × Bool
unfolding copies
take_ownership granted s =
    if s.owned
    then (s, true)
    else if granted own_array && copies granted 0 s.entries
    then (record s { owned = true; cap = length s.entries + 8 }, true)
    else (record s { errno = enomem }, false)

-- env_grow_for_one: false is -1
unfoldable pub grow_for_one : (Site → Bool) → Env → Env × Bool
grow_for_one granted s =
    if leb (length s.entries + 2) s.cap
    then (s, true)
    else if granted grown_array
    then (record s { cap = if s.cap == 0 then 16 else s.cap * 2 }, true)
    else (record s { errno = enomem }, false)

-- The entry that is added behind the others, once there is room.
abbrev pub append_grown : Bytes → Env × Bool → Env × ℤ
append_grown e (s, true) = (record s { entries = s.entries ++ e ∷ [] }, pos 0)
append_grown e (s, false) = (s, negsuc 0)

-- The end of setenv and of putenv: the entry takes the place of the one found, or stands behind all.
abbrev pub place_entry : (Site → Bool) → Env → Bytes → Option ℕ → Env × ℤ
unfolding grow_for_one
place_entry granted s e none = append_grown e (grow_for_one granted s)
place_entry granted s e (some i) = (record s { entries = set s.entries i e }, pos 0)

unfoldable pub has_equals : Bytes → Bool
has_equals [] = false
has_equals (c ∷ name) = c == b'=' || has_equals name

abbrev pub is_nil : Bytes → Bool
is_nil [] = true
is_nil (c ∷ s) = false

unfoldable pub bad_name : Bytes → Bool
unfolding has_equals
bad_name name = is_nil name || has_equals name

abbrev pub entry_of : Bytes → Bytes → Bytes
entry_of name value = name ++ b'=' ∷ value

abbrev pub get_at : List Bytes → Bytes → Option Bytes
unfolding value_of
get_at [] name = none
get_at (e ∷ es) name = elim (value_of e name) [ some v ↦ some v | none ↦ get_at es name ]

-- getenv, whose pointer is into the entry that env_find finds
unfoldable pub getenv : (store : Bytes → Option Bytes) → Env → Bytes → Option Bytes
unfolding get_at
getenv store s [] = none
getenv store s (c ∷ name) = elim (get_at s.entries (c ∷ name)) [
  | some v ↦ some v
  | none ↦ store (c ∷ name)
]

abbrev pub set_found : (Site → Bool) → Env → Bytes → Bytes → Bool → Option ℕ → Env × ℤ
set_found granted s name value overwrite idx =
    if is_some idx && not overwrite
    then (s, pos 0)
    else if granted new_entry
    then place_entry granted s (entry_of name value) idx
    else (record s { errno = enomem }, negsuc 0)

abbrev pub set_owned : (Site → Bool) → Bytes → Bytes → Bool → Env × Bool → Env × ℤ
unfolding env_find
set_owned granted name value overwrite (s, true) =
    set_found granted s name value overwrite (env_find s name)
set_owned granted name value overwrite (s, false) = (s, negsuc 0)

-- setenv
pub setenv : (Site → Bool) → Env → Bytes → Bytes → Bool → Env × ℤ
unfolding take_ownership
setenv granted s name value overwrite =
    if bad_name name
    then (record s { errno = 22 }, negsuc 0)
    else set_owned granted name value overwrite (take_ownership granted s)

-- `for (int i = idx; i < (int)n; i++) environ[i] = environ[i + 1];`
unfoldable pub remove_at : List Bytes → ℕ → List Bytes
remove_at [] i = []
remove_at (e ∷ es) zero = es
remove_at (e ∷ es) (suc i) = e ∷ remove_at es i

abbrev pub unset_found : Env → Option ℕ → Env
unfolding remove_at
unset_found s none = s
unset_found s (some i) = record s { entries = remove_at s.entries i }

abbrev pub unset_owned : Bytes → Env × Bool → Env × ℤ
unfolding env_find
unset_owned name (s, true) = (unset_found s (env_find s name), pos 0)
unset_owned name (s, false) = (s, negsuc 0)

-- unsetenv
pub unsetenv : (Site → Bool) → Env → Bytes → Env × ℤ
unfolding take_ownership
unsetenv granted s name =
    if bad_name name
    then (record s { errno = 22 }, negsuc 0)
    else unset_owned name (take_ownership granted s)

-- The name in a string for putenv: what stands before the first `=`
unfoldable pub name_in : Bytes → Bytes
name_in [] = []
name_in (c ∷ s) = if c == b'=' then [] else c ∷ name_in s

abbrev pub put_owned : (Site → Bool) → Bytes → Env × Bool → Env × ℤ
unfolding env_find name_in
put_owned granted string (s, true) = place_entry granted s string (env_find s (name_in string))
put_owned granted string (s, false) = (s, negsuc 0)

-- putenv
pub putenv : (Site → Bool) → Env → Bytes → Env × ℤ
unfolding unsetenv take_ownership has_equals
putenv granted s string =
    if has_equals string
    then put_owned granted string (take_ownership granted s)
    else unsetenv granted s string
