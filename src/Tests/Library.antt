-- ===== src/Tests/Library.antt =====
-- The theorems on the streams, <stdlib.h>, <ctype.h>, the threads and the signals.
use racccoon.Base.{
  ℕ, Bool, ◌≤◌, ◌≡◌, refl, ◌⊎◌, true, false, ◌||◌, List, [], ◌∷◌, ◌++◌, Option, none, some,
  replicate, if◌then◌else◌, ◌==◌, arith, take,
}
use racccoon.Base.Int.{ℤ, pos, negsuc}
use mathlib.Core.List.{reverse}
use racccoon.Tests.Files.{codes}
use racccoon.Stdio.{Device, line, Stream, fwrite, fputc}
use racccoon.Stdio.Delivery.{Accepts, IsWriting, HasPut, fwrite-HasPut}
use racccoon.Stdio.Failure.{fputc-overruns}
use racccoon.Stdlib.Numbers.{strtoull, utoa}
use racccoon.Stdlib.Numbers.RoundTrip.{strtoull-utoa}
use racccoon.Stdlib.Search.{bsearch, IsSorted, Finds, bsearch-Finds}
use racccoon.Stdlib.Exit.{Entry, run_registered, register_all, run_all, run_registered-register_all}
use racccoon.Environment.{
  Env, Site, own_array, own_copy, new_entry, grown_array, enomem, bad_name, getenv, setenv,
}
use racccoon.Environment.Entries.{IsDenied, getenv-setenv}
use racccoon.Printf.Bounded.{emit_str, HasSeen, emit_str-HasSeen}
use racccoon.Threads.Mutex.{
  Mutex, mutex_init, mutex_lock, run_call, lock, step, Reaches, stays, takes, recursive,
  mutex-excludes,
}
use racccoon.Threads.Keys.{
  Keys, IsCreated, key_create, is_used, getspecific, setspecific, getspecific-setspecific,
  key_create-IsCreated,
}
use racccoon.Threads.Keys
use racccoon.Signals.{Actions, default_action}

-- A descriptor that takes one byte at a time.
abbrev one_byte : Device
one_byte = record {
  World = List ℕ;
  send = λ w bytes. (w ++ take 1 bytes, some 1);
  recv = λ w n. (w, none);
  seek = λ w off. w;
  room = λ w. true;
}

one_byte_accepts : Accepts one_byte (λ w. w)
one_byte_accepts = record { accepts = λ w b bs. (0, refl, omega arith, refl) }

abbrev new_stream : {W : Type 0} → W → Stream W
new_stream w = record {
  bufmode = line;
  has_buf = false;
  bufcap = 0;
  pending = [];
  input = [];
  rpos = 0;
  position = 0;
  ungot = none;
  err = false;
  eof = false;
  overrun = false;
  world = w;
}

new_stream-IsWriting : IsWriting one_byte (λ w. w) one_byte_accepts (new_stream [])
new_stream-IsWriting = record {
  not_reading = refl;
  room = λ e. absurd (ground arith);
  fresh = λ e. refl;
  inside = refl;
  direct = λ e. absurd (ground arith);
}

fwrite-HasPut_example :
    HasPut one_byte
      (λ w. w)
      one_byte_accepts
      (new_stream [])
      (codes "cdef")
      4
      (fwrite one_byte (new_stream []) (codes "cdef"))
fwrite-HasPut_example =
    fwrite-HasPut one_byte (λ w. w) one_byte_accepts (λ w. refl) (new_stream []) (codes "cdef")
      new_stream-IsWriting (omega arith)

-- A buffer of three bytes, as setvbuf gives one, with room for one more.
abbrev nearly_full : Stream Unit
nearly_full = record (new_stream tt) { has_buf = true; bufcap = 3; pending = codes "ab" }

abbrev broken : Device
broken = record {
  World = Unit;
  send = λ w bytes. (w, none);
  recv = λ w n. (w, none);
  seek = λ w off. w;
  room = λ w. true;
}

fputc-overruns_example :
    (s₁ : Stream Unit) × (r₁ : Option ℕ) × (s₂ : Stream Unit) × (r₂ : Option ℕ) × (fputc broken
        nearly_full b'c'
      ≡ some (s₁, r₁))
    × (fputc broken s₁ b'd' ≡ some (s₂, r₂))
    × (s₂.overrun ≡ true)
fputc-overruns_example =
    fputc-overruns broken (λ w bytes. refl) nearly_full b'c' b'd' refl refl refl refl

strtoull-utoa_example : strtoull (utoa 48879 16 0) 16 ≡ (48879, [])
strtoull-utoa_example = strtoull-utoa 16 0 (omega arith) (omega arith) 48879 (omega arith)

-- The key 20 against the elements 0, 10, 20, …
abbrev against : ℕ → ℤ
against i = if i == 2 then pos 0 else if i == 0 || i == 1 then pos 1 else negsuc 0

against-IsSorted : IsSorted against 5
against-IsSorted = record {
  below = λ i j le lt (n, e). (0, ground arith);
  above = λ i j le lt (n, e). (0, ground arith);
}

bsearch-Finds_example : Finds against 0 5 (bsearch against 5)
bsearch-Finds_example = bsearch-Finds against 5 against-IsSorted

abbrev handlers : List Entry
handlers = record { fn = 1; arg = 0 } ∷ record { fn = 2; arg = 7 } ∷ []

run_registered-register_all_example :
    run_registered (λ e fns w. (fns, e.fn ∷ w)) 2 (register_all [] handlers) []
    ≡ some (run_all (λ e w. e.fn ∷ w) (reverse handlers) [])
run_registered-register_all_example =
    run_registered-register_all (λ e w. e.fn ∷ w) 2 handlers [] (omega arith) (omega arith)

-- A recursive mutex that is locked twice.
abbrev locked : ℕ → Mutex
locked n = record { count = n; kind = recursive }

locked_twice : Reaches (mutex_init (some recursive)) 2 (locked 2)
unfolding mutex_init run_call mutex_lock
locked_twice =
    takes 1 (locked 1) (locked 2) lock (λ e. cc)
      (takes 0 (locked 0) (locked 1) lock (λ e. cc) stays (step (locked 0) (locked 1) lock 0 refl))
      (step (locked 1) (locked 2) lock 0 refl)

mutex-excludes_example : ((locked 2).count ≡ 2) × ((recursive ≡ recursive) ⊎ (2 ≤ 1))
mutex-excludes_example = mutex-excludes recursive 2 (locked 2) locked_twice

abbrev no_keys : Keys
no_keys = record { used = replicate 128 false; value = replicate 128 0 }

no_keys-IsValid : Keys.IsValid no_keys
no_keys-IsValid = record { used_size = refl; value_size = refl }

abbrev no_actions : Actions
no_actions = record { table = replicate 32 default_action; notify_on = false; errno = 0 }

abbrev two_variables : Env
two_variables = record {
  entries = codes "HOME=/" ∷ codes "PATH=/bin" ∷ [];
  owned = false;
  cap = 0;
  errno = 0;
}

path_is_good : bad_name (codes "PATH") ≡ false
unfolding bad_name
path_is_good = refl

-- Memory for all but a larger array.
abbrev no_growth : Site → Bool
no_growth own_array = true
no_growth (own_copy i) = true
no_growth new_entry = true
no_growth grown_array = false

getenv-setenv_example :
    let r = setenv no_growth two_variables (codes "PATH") (codes "/usr") true in
    ((r.1 ≡ pos 0) × (getenv (λ name. none) r.0 (codes "PATH") ≡ some (codes "/usr")))
    ⊎ ((r.1 ≡ negsuc 0)
        × (r.0.errno ≡ enomem)
        × (r.0.entries ≡ two_variables.entries)
        × IsDenied no_growth)
getenv-setenv_example =
    getenv-setenv no_growth (λ name. none) two_variables (codes "PATH") (codes "/usr") path_is_good

emit_str-HasSeen_example :
    HasSeen 4
      (codes "ab" ++ codes "cd")
      (emit_str (record { dst = codes "ab"; cap = 4; len = 2 }) (codes "cd"))
emit_str-HasSeen_example =
    emit_str-HasSeen 4 (codes "ab") (codes "cd") (record { dst = codes "ab"; cap = 4; len = 2 })
      (record { capacity = refl; counted = refl; held = refl })
