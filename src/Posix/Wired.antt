-- ===== src/Posix/Wired.antt =====
-- The descriptors of rc_posix.c over the requests of rc_fs.c: the file server of the descriptor layer
-- is the one that the messages reach.
use racccoon.Base.{
  ℕ, ◌+◌, ◌-◌, ◌^◌, ◌≤◌, ◌<◌, ◌≡◌, refl, sym, ap, subst, ◌∙◌, Bool, true, Option, some, length, set,
  take, drop, arith, Memory, load, store, load-store, store-outside, IsString-same, inl,
  take-take_le, length-take, length-drop,
}
use racccoon.Base.Int.{ℤ, pos}
use racccoon.Fs.Wire.{
  Kernel, verb_read_at, verb_write_at, write_at_max, stat, read_at, write_at, delete, mkdir, rename,
}
use racccoon.Fs.Wire.Words.{get32, get32-same}
use racccoon.Fs.Wire.Serving.{
  ServesFile, header, header-IsString, header-offset, header-length, read_at-answered,
  write_at-answered,
}
use racccoon.Posix.Server.{Bytes, NetFiles, Server}
use racccoon.Posix.Table.{fd_max, file, Process, entry}
use racccoon.Posix.Table.Slots.{IsValid, store-IsValid}
use racccoon.Posix.Transfer.{write, pread}
use racccoon.Posix.Transfer.Positioned.{open_at-file, entry-set, pread-take}
use racccoon.Posix.Transfer.Reading.{HoldsFile}
use racccoon.Posix.Transfer.Writing.{TakesWrites, write-splice}
use racccoon.Posix.Transfer.Splice.{splice, splice-take, length-splice}

-- The console calls of the kernel and the socket functions, over the same world as its messages.
pub record Devices (W : Type 0) : Type 0 where
  pub put_console : W → Bytes → W × Option ℕ
  pub get_char : W → W × Option ℕ
  pub stdin_is_console : W → Bool
  pub conversations : NetFiles W
  pub rounds : ℕ

abbrev pub fs_server : (k : Kernel) → Memory → Devices k.World → Server
fs_server k junk d = record {
  World = k.World;
  cwd = k.getcwd;
  stat = stat k junk;
  read_at = read_at k junk;
  write_at = write_at k junk;
  delete = λ w path. delete k junk w path 0;
  mkdir = mkdir k junk;
  rename = rename k junk;
  put_console = d.put_console;
  get_char = d.get_char;
  stdin_is_console = d.stdin_is_console;
  conversations = d.conversations;
  rounds = d.rounds;
}

-- The largest length and offset that a signed word of a message holds.
abbrev pub wire_max : ℕ
wire_max = 2 ^ 31 - 1

module _ (k : Kernel) (junk : Memory) (d : Devices k.World) (pid : ℕ) (path name : Bytes)
    (P : Bytes → k.World → Type 0) (law : ServesFile k pid path name P) where
  -- One read request: what the server delivered, and the worlds it leaves.
  record HasAnswered (w : k.World) (c : Bytes) (len off : ℕ) : Type 0 where
    n : ℕ
    world : k.World
    result : read_at k junk w path len off ≡ (world, some (take n (drop off c)))
    short : n ≤ len
    eof : n ≡ 0 → length c ≤ off
    keeps : P c world

  read_at-HasAnswered :
      (w : k.World) (c : Bytes) (len off : ℕ)
      → P c w
      → 0 < len
      → len ≤ wire_max
      → off ≤ wire_max
      → HasAnswered w c len off
  read_at-HasAnswered w c len off ok some_len len_fits off_fits =
      let req = header junk name len off in
      let at_len : get32 req 100 ≡ len = header-length junk name len off law.short (omega arith) in
      let at_off : get32 req 104 ≡ off = header-offset junk name len off law.short (omega arith) in
      let (n, reply, e, g, le, got, eof, keeps) =
        law.reads w c req ok (header-IsString junk name len off law.short law.is_name)
          (omega arith) in
      record {
        n = n;
        world = (k.call w pid verb_read_at req).0;
        result =
            read_at-answered k junk w path name pid len off n reply (law.found w c ok) e g
              (omega arith) (omega arith)
            ∙ ap (λ bs. ((k.call w pid verb_read_at req).0, some bs))
                (got ∙ ap (λ o. take n (drop o c)) at_off);
        short = omega arith;
        eof = λ z. omega (arith, eof z);
        keeps = keeps;
      }

  pub served-HoldsFile : (c : Bytes) → HoldsFile (fs_server k junk d) wire_max path c (P c)
  served-HoldsFile c = record {
    keeps = λ w len off ok l b o.
        let r = read_at-HasAnswered w c len off ok l b o in
        subst (P c) (sym (ap (λ x. x.0) r.result)) r.keeps;
    delivers = λ w len off ok l b o.
        let r = read_at-HasAnswered w c len off ok l b o in
        (r.n, ap (λ x. x.1) r.result, r.short, λ e. none_left r.n c off r.eof (ap length e));
  }
    where
      none_left :
          (n : ℕ) (c : Bytes) (off : ℕ)
          → (n ≡ 0 → length c ≤ off)
          → length (take n (drop off c)) ≡ 0
          → length c ≤ off
      none_left n c off h e = ground (arith, length-take n (drop off c), length-drop off c)

  -- One write request: how much the server took.
  record HasTaken (w : k.World) (c bytes : Bytes) (off : ℕ) : Type 0 where
    n : ℕ
    world : k.World
    result : write_at k junk w path bytes off ≡ (world, some n)
    short : n ≤ length bytes
    keeps : P (splice c off (take n bytes)) world

  write_at-HasTaken :
      (w : k.World) (c bytes : Bytes) (off : ℕ)
      → P c w
      → off + length bytes ≤ wire_max
      → HasTaken w c bytes off
  write_at-HasTaken w c bytes off ok room =
      let piece = take write_at_max bytes in
      let fits : length piece ≤ length bytes = omega (arith, length-take write_at_max bytes) in
      let m = header junk name (length piece) off in
      let req = store m 108 piece in
      let at_len : get32 req 100 ≡ length piece =
        get32-same m req 100 (λ a l u. store-outside piece m 108 a (inl (omega arith)))
        ∙ header-length junk name (length piece) off law.short (omega arith) in
      let at_off : get32 req 104 ≡ off =
        get32-same m req 104 (λ a l u. store-outside piece m 108 a (inl (omega arith)))
        ∙ header-offset junk name (length piece) off law.short (omega arith) in
      let named =
        IsString-same name m req 0
          (λ a l u. store-outside piece m 108 a (inl (omega (arith, law.short))))
          (header-IsString junk name (length piece) off law.short law.is_name) in
      let (n, reply, e, g, le, keeps) = law.writes w c req ok named (omega arith) in
      record {
        n = n;
        world = (k.call w pid verb_write_at req).0;
        result =
            write_at-answered k junk w path name bytes pid off n reply (law.created w c ok) e g
              (omega arith);
        short = omega arith;
        keeps =
            same_splice (get32 req 104) off n (load req 108 (get32 req 100)) bytes at_off
              (ap (take n) (ap (load req 108) at_len ∙ load-store piece m 108)
                ∙ take-take_le n write_at_max bytes (omega (arith, length-take write_at_max bytes)))
              keeps;
      }
    where
      same_splice :
          {w' : k.World} (o off n : ℕ) (xs bytes : Bytes)
          → o ≡ off
          → take n xs ≡ take n bytes
          → P (splice c o (take n xs)) w'
          → P (splice c off (take n bytes)) w'
      same_splice {w' = w'} o off n xs bytes e t p =
          subst (λ u. P (splice c off u) w') t (subst (λ u. P (splice c u (take n xs)) w') e p)

  pub served-TakesWrites : TakesWrites (fs_server k junk d) wire_max path P
  served-TakesWrites = record {
    takes = λ w c bytes off ok room.
        let r = write_at-HasTaken w c bytes off ok room in
        (
          r.n,
          ap (λ x. x.1) r.result,
          r.short,
          subst (P (splice c off (take r.n bytes))) (sym (ap (λ x. x.0) r.result)) r.keeps,
        );
  }

  -- Over the messages to a file server that keeps to the protocol: what write takes of the bytes that
  -- it is given, on a descriptor of a file, pread at the old offset then returns, while the file and
  -- the bytes stay below 2 GiB. The file has these bytes in the place of the old ones.
  pub pread-write :
      (s : Process k.World) (i : ℕ) (buf c : Bytes)
      → IsValid s
      → s.inited ≡ true
      → i < fd_max
      → (entry s.fdtab i).kind ≡ file
      → (entry s.fdtab i).path ≡ path
      → (entry s.fdtab i).off + length buf ≤ wire_max
      → length c ≤ wire_max
      → P c s.world
      → let sv = fs_server k junk d in
        let off = (entry s.fdtab i).off in
        (n : ℕ) × (s' : Process k.World) × (w : k.World) × (write sv s (pos i) buf
          ≡ some (s', pos n))
        × (n ≤ length buf)
        × (pread sv s' (pos i) n (pos off) ≡ some (record s' { world = w }, pos n, take n buf))
        × P (splice c off (take n buf)) w
  pread-write s i buf c v on l kd here room fits ok =
      let sv = fs_server k junk d in
      let e = entry s.fdtab i in
      let (n, w, r, le, ok') =
        write-splice sv s (pos i) buf i wire_max c P on (open_at-file s.fdtab i l kd) kd
          (subst (λ x. TakesWrites sv wire_max x P) (sym here) served-TakesWrites) room ok in
      let s' : Process k.World = record s {
        fdtab = set s.fdtab i (record e { off = e.off + n });
        world = w;
      } in
      let len : length (take n buf) ≡ n = omega (arith, length-take n buf) in
      let same : entry s'.fdtab i ≡ record e { off = e.off + n } =
        entry-set s.fdtab i (record e { off = e.off + n }) (omega (arith, v.size)) in
      let now = splice c e.off (take n buf) in
      let (w', q, ok'') =
        pread-take sv s' i n e.off wire_max now (P now)
          (store-IsValid (record s { world = w }) i (record e { off = e.off + n })
            (record { size = v.size; standard = v.standard }) l (rw kd refl))
          on l (ap (λ x. x.kind) same ∙ kd)
          (subst (λ x. HoldsFile sv wire_max x now (P now)) (sym (ap (λ x. x.path) same ∙ here))
            (served-HoldsFile now))
          (length-splice e.off wire_max c (take n buf) fits (omega arith)) (omega arith)
          (omega arith) ok' in
      let back = ap (λ b. take b (drop e.off now)) (sym len) ∙ splice-take e.off c (take n buf) in
      (
        n,
        s',
        w',
        r,
        le,
        q
            ∙ ap {B = Option (Process k.World × ℤ × Bytes)}
                (λ b. some (record s' { world = w' }, pos (length b), b)) back
            ∙ ap {B = Option (Process k.World × ℤ × Bytes)}
                (λ b. some (record s' { world = w' }, pos b, take n buf)) len,
        ok'',
      )
