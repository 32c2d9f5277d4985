-- ===== src/Tests/Files.antt =====
-- A file server with one file in memory, which reads three bytes at a time and takes two, and the
-- theorems on rc_posix.c and rc_fs.c with it.
use racccoon.Base.{
  ℕ, Option, ◌≢◌, sym, ◌∙◌, ◌+◌, ◌≤◌, ◌<◌, ◌≡◌, refl, ap, ◌⊎◌, true, false, [], ◌∷◌, none, some,
  length, set, take, drop, min, replicate, arith, length-take, length-drop,
}
use racccoon.Base.Int.{pos}
use racccoon.Posix.Server.{failed, Bytes, Server}
use racccoon.Posix.Table.{
  file, net, Kind, open_at, empty_fdent, Process, entry, fd_init, fd_alloc, emfile, fd_max, is_free,
}
use racccoon.Posix.Table.Slots.{IsValid, fd_alloc_lem}
use racccoon.Posix.Kept.Reached.{
  started, start, then_call, by_open, by_close, by_bind, Reached-IsValid,
}
use racccoon.Posix.Files.{open_file}
use racccoon.Posix.Transfer.{close, read, write}
use racccoon.Posix.Transfer.Total.{Returns, read-Returns, write-Returns}
use racccoon.Posix.Transfer.Splice.{splice}
use racccoon.Posix.Transfer.Reading.{HoldsFile, read-take}
use racccoon.Posix.Transfer.Writing.{TakesWrites, write-splice}
use racccoon.Net.Conversations.{bind}
use racccoon.Fs.Path.{normalize}
use racccoon.Fs.Path.Resolve.{components, resolve}
use racccoon.Fs.Path.Normalize.{to_path, normalize-resolve}
use Prim.Native.Char.{code}
use Prim.Native.String.{String}

abbrev pub codes : String → Bytes
codes String.[] = []
codes (String.◌∷◌ c s) = code c ∷ codes s

abbrev pub one_file : Server
one_file = record {
  World = Bytes;
  cwd = λ w. b'/' ∷ [];
  stat = λ w path. (w, some (record { size = length w; kind = 0 }));
  read_at = λ w path len off. (w, some (take (min len 3) (drop off w)));
  write_at = λ w path bytes off.
      (splice w off (take (min (length bytes) 2) bytes), some (min (length bytes) 2));
  delete = λ w path. ([], true);
  mkdir = λ w path. (w, false);
  rename = λ w from to. (w, false);
  put_console = λ w bytes. (w, some (length bytes));
  get_char = λ w. (w, none);
  stdin_is_console = λ w. true;
  conversations = record {
    read_file = λ w path n. (w, failed);
    write_file = λ w path bytes. (w, none);
    sleep = λ w t. w;
  };
  rounds = 0;
}

take_none : (k : ℕ) (xs : Bytes) (off : ℕ) → 0 < k → take k (drop off xs) ≡ [] → length xs ≤ off
take_none k xs off h e = omega (arith, ap length e, length-take k (drop off xs), length-drop off xs)

pub holds_hello : HoldsFile one_file 10000 (codes "/a") (codes "hello") (λ w. w ≡ codes "hello")
holds_hello = record {
  keeps = λ w len off ok l b o. ok;
  delivers = λ w len off ok pos_len len_ok off_ok. (
    min len 3,
    ap (λ u. some (take (min len 3) (drop off u))) ok,
    omega arith,
    λ e. take_none (min len 3) (codes "hello") off (omega arith) e,
  );
}

takes_writes : TakesWrites one_file 10000 (codes "/a") (λ c w. w ≡ c)
takes_writes = record {
  takes = λ w c bytes off ok room. (
    min (length bytes) 2,
    refl,
    omega arith,
    ap (λ u. splice u off (take (min (length bytes) 2) bytes)) ok,
  );
}

-- Descriptor 3 is open on the file, at offset 1.
abbrev pub hello_process : Process Bytes
hello_process = record {
  fdtab =
      empty_fdent
      ∷ empty_fdent
      ∷ empty_fdent
      ∷ record { kind = file; flags = 2; off = 1; path = codes "/a" }
      ∷ replicate 60 empty_fdent;
  inited = true;
  errno = 0;
  world = codes "hello";
}

read-take_example :
    (w : Bytes) × (read one_file hello_process (pos 3) 10
      ≡ some (
        record hello_process {
          fdtab =
              set hello_process.fdtab 3
                (record { kind = file; flags = 2; off = 5; path = codes "/a" });
          world = w;
        },
        pos 4,
        codes "ello",
      ))
    × (w ≡ codes "hello")
read-take_example =
    read-take one_file hello_process (pos 3) 10 3 10000 (codes "hello") (λ w. w ≡ codes "hello")
      refl refl refl holds_hello (omega arith) (omega arith) (omega arith) refl

write-splice_example :
    (n : ℕ) × (w : Bytes) × (write one_file hello_process (pos 3) (codes "EL")
      ≡ some (
        record hello_process {
          fdtab =
              set hello_process.fdtab 3
                (record { kind = file; flags = 2; off = 1 + n; path = codes "/a" });
          world = w;
        },
        pos n,
      ))
    × (n ≤ 2)
    × (w ≡ splice (codes "hello") 1 (take n (codes "EL")))
write-splice_example =
    write-splice one_file hello_process (pos 3) (codes "EL") 3 10000 (codes "hello") (λ c w. w ≡ c)
      refl refl refl takes_writes (omega arith) refl

kind_of_three :
    (i : ℕ) → ◌≡◌ {A = Option ℕ} (some 3) (some i) → (entry hello_process.fdtab i).kind ≡ file
kind_of_three i e =
    let three : 3 ≡ i = ground (arith, e) in
    ap (λ j. (entry hello_process.fdtab j).kind) (sym three)

hello_is_file :
    (i : ℕ)
    → open_at (fd_init hello_process).fdtab (pos 3) ≡ some i
    → (entry (fd_init hello_process).fdtab i).kind ≢ net
unfolding fd_init
hello_is_file i e k = file_ne_net (sym (kind_of_three i e) ∙ k)
  where
    file_ne_net : ◌≡◌ {A = Kind} file net → ⊥
    file_ne_net e = cc

read-Returns_example : Returns (read one_file hello_process (pos 3) 10)
read-Returns_example = read-Returns one_file hello_process (pos 3) 10 hello_is_file

write-Returns_example : Returns (write one_file hello_process (pos 3) (codes "EL"))
write-Returns_example = write-Returns one_file hello_process (pos 3) (codes "EL") hello_is_file

normalize-resolve_example :
    normalize (codes "/usr//lib/../bin/.")
    ≡ to_path (resolve [] (components (codes "/usr//lib/../bin/.")))
normalize-resolve_example = normalize-resolve (codes "/usr//lib/../bin/.") refl (omega arith)

normalize_runs : to_path (resolve [] (components (codes "/usr//lib/../bin/."))) ≡ codes "/usr/bin"
normalize_runs = refl

fd_alloc_lem_example :
    ((fd_alloc hello_process ≡ (record (fd_init hello_process) { errno = emfile }, none))
      × ((j : ℕ)
          → 3 ≤ j
          → j < fd_max
          → is_free (entry (fd_init hello_process).fdtab j).kind ≡ false))
    ⊎ ((i : ℕ) × (fd_alloc hello_process ≡ (fd_init hello_process, some i))
        × (3 ≤ i)
        × (i < fd_max)
        × (is_free (entry (fd_init hello_process).fdtab i).kind ≡ true)
        × ((j : ℕ) → 3 ≤ j → j < i → is_free (entry (fd_init hello_process).fdtab j).kind ≡ false))
fd_alloc_lem_example = fd_alloc_lem hello_process

Reached-IsValid_example :
    IsValid
      (bind one_file.conversations
        (close one_file (open_file one_file (started []) (codes "/a") 2).0 (pos 0)).0
        (pos 0)
        (some (0, 80))).0
Reached-IsValid_example = Reached-IsValid one_file (
    then_call (then_call (then_call start (by_open (codes "/a") 2)) (by_close (pos 0)))
      (by_bind (pos 0) (some (0, 80))))
