-- ===== src/Tests/Messages.antt =====
-- The requests of rc_fs.c at a concrete file server, which reads 3 bytes and writes 2 at most.
use racccoon.Base.{
  ℕ, ◌≤◌, ◌<◌, ◌≡◌, zero, suc, refl, sym, ap, ◌∙◌, true, false, none, some, ◌==◌, if◌then◌else◌,
  length, take, drop, min, replicate, ◌∷◌, arith, Memory, load, store, length-take, length-drop,
  load-store, store-outside, inl,
}
use racccoon.Base.Int.{pos}
use racccoon.Fs.Wire.{Kernel, verb_read_at, list}
use racccoon.Fs.Wire.Listing.{ListsAtMost, list-ListsAtMost}
use racccoon.Fs.Wire.Words.{get32, put32, get32-put32, get32-same}
use racccoon.Fs.Wire.Serving.{ServesFile}
use racccoon.Posix.Server.{failed, Bytes}
use racccoon.Posix.Table.{console, file, is_free, Fdent, empty_fdent, Process, entry}
use racccoon.Posix.Table.Slots.{IsValid}
use racccoon.Posix.Transfer.{write, pread}
use racccoon.Posix.Transfer.Splice.{splice}
use racccoon.Posix.Wired.{Devices, fs_server, pread-write}
use racccoon.Posix.Transfer.Positioned.{pread-take}
use racccoon.Tests.Files.{codes, one_file, holds_hello}

abbrev zeros : Memory
zeros = λ a. 0

abbrev read_count : Bytes → Memory → ℕ
read_count w req = min 3 (min (get32 req 100) (length (drop (get32 req 104) w)))

abbrev read_reply : Bytes → Memory → Memory
read_reply w req =
    store (put32 zeros 0 (read_count w req)) 4 (take (read_count w req) (drop (get32 req 104) w))

abbrev one_file_kernel : Kernel
one_file_kernel = record {
  World = Bytes;
  getcwd = λ w. codes "/";
  translate = λ w path create. some (7, codes "a");
  call = λ w pid verb req. if verb == verb_read_at then (w, some (verb, read_reply w req)) else (
    splice w (get32 req 104) (take (min 2 (get32 req 100)) (load req 108 (get32 req 100))),
    some (verb, put32 zeros 0 (min 2 (get32 req 100))),
  );
}

read_reply-count : (w : Bytes) (req : Memory) → get32 (read_reply w req) 0 ≡ read_count w req
read_reply-count w req =
    get32-same (put32 zeros 0 (read_count w req)) (read_reply w req) 0 (λ a l u.
      store-outside (take (read_count w req) (drop (get32 req 104) w))
        (put32 zeros 0 (read_count w req)) 4 a (inl (omega arith)))
    ∙ get32-put32 zeros 0 (read_count w req)
    ∙ omega arith

read_reply-bytes :
    (w : Bytes) (req : Memory)
    → load (read_reply w req) 4 (read_count w req)
      ≡ take (read_count w req) (drop (get32 req 104) w)
read_reply-bytes w req =
    let n = read_count w req in
    let bs = take n (drop (get32 req 104) w) in
    ap (load (read_reply w req) 4) (sym (omega (arith, length-take n (drop (get32 req 104) w))))
    ∙ load-store bs (put32 zeros 0 n) 4

serves_a : ServesFile one_file_kernel 7 (codes "/a") (codes "a") (λ c w. w ≡ c)
serves_a = record {
  is_name = ((λ e. omega (arith, e)), tt);
  short = omega arith;
  found = λ w c ok. refl;
  created = λ w c ok. refl;
  reads = λ w c req ok named some_len. (
    read_count w req,
    read_reply w req,
    refl,
    read_reply-count w req,
    omega arith,
    read_reply-bytes w req ∙ ap (λ u. take (read_count w req) (drop (get32 req 104) u)) ok,
    λ z. omega (arith, z, length-drop (get32 req 104) w, ap length ok),
    ok,
  );
  writes = λ w c req ok named room. (
    min 2 (get32 req 100),
    put32 zeros 0 (min 2 (get32 req 100)),
    refl,
    get32-put32 zeros 0 (min 2 (get32 req 100)) ∙ omega arith,
    omega arith,
    ap (λ u. splice u (get32 req 104) (take (min 2 (get32 req 100)) (load req 108 (get32 req 100))))
        ok,
  );
}

no_devices : Devices Bytes
no_devices = record {
  put_console = λ w bytes. (w, some (length bytes));
  get_char = λ w. (w, none);
  stdin_is_console = λ w. true;
  conversations = record {
    read_file = λ w path n. (w, failed);
    write_file = λ w path bytes. (w, none);
    sleep = λ w t. w;
  };
  rounds = 0;
}

abbrev console_fdent : Fdent
console_fdent = record empty_fdent { kind = console }

-- Descriptor 3 is open on the file, at offset 1.
abbrev wired_process : Process Bytes
wired_process = record {
  fdtab =
      console_fdent
      ∷ console_fdent
      ∷ console_fdent
      ∷ record { kind = file; flags = 2; off = 1; path = codes "/a" }
      ∷ replicate 60 empty_fdent;
  inited = true;
  errno = 0;
  world = codes "hello";
}

standard_open : (i : ℕ) → i < 3 → is_free (entry wired_process.fdtab i).kind ≡ false
standard_open zero h = refl
standard_open (suc zero) h = refl
standard_open (suc (suc zero)) h = refl
standard_open (suc (suc (suc i))) h = absurd (omega arith)

wired_process-IsValid : IsValid wired_process
wired_process-IsValid = record { size = refl; standard = λ on. standard_open }

pread-write_example :
    let sv = fs_server one_file_kernel zeros no_devices in
    (n : ℕ) × (s' : Process Bytes) × (w : Bytes) × (write sv wired_process (pos 3) (codes "ELLO")
      ≡ some (s', pos n))
    × (n ≤ 4)
    × (pread sv s' (pos 3) n (pos 1) ≡ some (record s' { world = w }, pos n, take n (codes "ELLO")))
    × (w ≡ splice (codes "hello") 1 (take n (codes "ELLO")))
pread-write_example =
    pread-write one_file_kernel zeros no_devices 7 (codes "/a") (codes "a") (λ c w. w ≡ c) serves_a
      wired_process 3 (codes "ELLO") (codes "hello") wired_process-IsValid refl (omega arith) refl
      refl (omega arith) (omega arith) refl

list-ListsAtMost_example : ListsAtMost 5 (list one_file_kernel zeros (codes "hello") (codes "/") 5)
list-ListsAtMost_example = list-ListsAtMost one_file_kernel zeros 5 (codes "hello") (codes "/")

pread-take_example :
    (w : Bytes) × (pread one_file wired_process (pos 3) 10 (pos 2)
      ≡ some (record wired_process { world = w }, pos 3, codes "llo"))
    × (w ≡ codes "hello")
pread-take_example =
    pread-take one_file wired_process 3 10 2 10000 (codes "hello") (λ w. w ≡ codes "hello")
      wired_process-IsValid refl (omega arith) refl holds_hello (omega arith) (omega arith)
      (omega arith) refl
