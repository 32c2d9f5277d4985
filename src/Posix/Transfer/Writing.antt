-- ===== src/Posix/Transfer/Writing.antt =====
-- What write leaves in a file, whatever the pieces in which the file server takes the bytes.
use racccoon.Base.{
  ℕ, zero, suc, ◌+◌, ◌-◌, ◌≤◌, ◌<◌, ◌≡◌, refl, sym, ap, ◌∙◌, inl, inr, true, false, [], Option,
  some, ltb, length, set, take, drop, min, arith, Bool-cases, drop-drop, length-take, length-drop,
  take-take_le, take-add,
}
use racccoon.Base.Int.{ℤ, pos}
use racccoon.Posix.Server.{Bytes, Server}
use racccoon.Posix.Table.{file, Process, entry, open_at}
use racccoon.Posix.Table.Slots.{fd_init_done}
use racccoon.Posix.Transfer.{Moved, write_loop, max_chunk, finish, write_open, write}
use racccoon.Posix.Transfer.Total.{finish_lem}
use racccoon.Posix.Transfer.Splice.{splice, splice-splice}

-- In the states `P c` of the servers the file at `path` has the content `c`. A write of some bytes
-- takes the first of them, perhaps not all, and splices these into the content. Offsets go up to
-- `bound`.
pub record TakesWrites (sv : Server) (bound : ℕ) (path : Bytes) (P : Bytes → sv.World → Type 0)
    : Type 0 where
  pub takes :
      (w : sv.World) (c bytes : Bytes) (off : ℕ)
      → P c w
      → off + length bytes ≤ bound
      → (k : ℕ) × ((sv.write_at w path bytes off).1 ≡ some k)
        × (k ≤ length bytes)
        × P (splice c off (take k bytes)) (sv.write_at w path bytes off).0

module _ (sv : Server) (bound : ℕ) (path : Bytes) (P : Bytes → sv.World → Type 0)
    (law : TakesWrites sv bound path P) where
  -- The loop ends, and has spliced in the bytes that it counts.
  record HasWritten (c buf : Bytes) (off done : ℕ) (o : Option (Moved sv.World)) : Type 0 where
    result : Moved sv.World
    count : ℕ
    ends : o ≡ some result
    counted : result.count ≡ done + count
    within : done + count ≤ length buf
    offset : result.off ≡ off + count
    works : result.failed ≡ false
    content : P (splice c off (take count (drop done buf))) result.world

  splice_more :
      (c buf : Bytes) (off done k j n : ℕ)
      → k ≤ n
      → n ≤ length (drop done buf)
      → splice
          (splice c off (take k (take n (drop done buf))))
          (off + k)
          (take j (drop (done + k) buf))
        ≡ splice c off (take (k + j) (drop done buf))
  splice_more c buf off done k j n h l =
      let xs = drop done buf in
      let len : length (take k xs) ≡ k = omega (arith, length-take k xs) in
      rw (take-take_le k n xs h, ← drop-drop done k buf, ← take-add k j xs)
        (ap (λ i. splice (splice c off (take k xs)) (off + i) (take j (drop k xs))) (sym len)
          ∙ splice-splice off c (take k xs) (take j (drop k xs)))

  -- The bytes that a round hands to the server, and the rounds that it may take.
  abbrev chunk_at : Bytes → ℕ → ℕ
  chunk_at buf done = min (length buf - done) max_chunk

  abbrev piece : Bytes → ℕ → Bytes
  piece buf done = take (chunk_at buf done) (drop done buf)

  write_loop-done :
      (f : ℕ) (w : sv.World) (buf : Bytes) (off done : ℕ)
      → ltb done (length buf) ≡ false
      → write_loop sv (suc f) w path buf off done
        ≡ some (record { world = w; off = off; count = done; bytes = []; failed = false })
  unfolding write_loop
  write_loop-done f w buf off done e = rw (write_loop, e) refl

  write_loop-short :
      (f : ℕ) (w : sv.World) (buf : Bytes) (off done n : ℕ)
      → ltb done (length buf) ≡ true
      → (sv.write_at w path (piece buf done) off).1 ≡ some n
      → ltb n (chunk_at buf done) ≡ true
      → write_loop sv (suc f) w path buf off done
        ≡ some (record {
          world = (sv.write_at w path (piece buf done) off).0;
          off = off + n;
          count = done + n;
          bytes = [];
          failed = false;
        })
  unfolding write_loop
  write_loop-short f w buf off done n e g c = rw (write_loop, e, g, c) refl

  write_loop-more :
      (f : ℕ) (w : sv.World) (buf : Bytes) (off done n : ℕ)
      → ltb done (length buf) ≡ true
      → (sv.write_at w path (piece buf done) off).1 ≡ some n
      → ltb n (chunk_at buf done) ≡ false
      → write_loop sv (suc f) w path buf off done
        ≡ write_loop sv f (sv.write_at w path (piece buf done) off).0 path buf (off + n) (done + n)
  unfolding write_loop
  write_loop-more f w buf off done n e g c = rw (write_loop, e, g, c) refl

  write_loop-HasWritten :
      (f : ℕ) (w : sv.World) (c buf : Bytes) (off done : ℕ)
      → P c w
      → done ≤ length buf
      → length buf < f + done
      → off + (length buf - done) ≤ bound
      → HasWritten c buf off done (write_loop sv f w path buf off done)
  write_loop-HasWritten zero w c buf off done ok le l o = absurd (omega arith)
  write_loop-HasWritten (suc f) w c buf off done ok le l o =
      elim (Bool-cases (ltb done (length buf))) [
        | inr e ↦ rw (write_loop-done f w buf off done e) (record {
          result = record { world = w; off = off; count = done; bytes = []; failed = false };
          count = 0;
          ends = refl;
          counted = omega arith;
          within = omega arith;
          offset = omega arith;
          works = refl;
          content = ok;
        })
        | inl e ↦
            let left : length (drop done buf) ≡ length buf - done = length-drop done buf in
            let inside : off + length (piece buf done) ≤ bound =
              omega (arith, length-take (chunk_at buf done) (drop done buf)) in
            let (k, g, short, ok') = law.takes w c (piece buf done) off ok inside in
            let fits : k ≤ chunk_at buf done =
              omega (arith, length-take (chunk_at buf done) (drop done buf)) in
            elim (Bool-cases (ltb k (chunk_at buf done))) [
              | inl s ↦ rw (write_loop-short f w buf off done k e g s) (record {
                result = record {
                  world = (sv.write_at w path (piece buf done) off).0;
                  off = off + k;
                  count = done + k;
                  bytes = [];
                  failed = false;
                };
                count = k;
                ends = refl;
                counted = refl;
                within = ground arith;
                offset = refl;
                works = refl;
                content = (rw (take-take_le k (chunk_at buf done) (drop done buf) fits) at ok');
              })
              | inr s ↦
                  let r =
                    write_loop-HasWritten f (sv.write_at w path (piece buf done) off).0
                      (splice c off (take k (piece buf done))) buf (off + k) (done + k) ok'
                      (ground arith) (ground arith) (ground arith) in
                  rw (write_loop-more f w buf off done k e g s) (record {
                    result = r.result;
                    count = k + r.count;
                    ends = r.ends;
                    counted = omega (arith, r.counted);
                    within = omega (arith, r.within);
                    offset = omega (arith, r.offset);
                    works = r.works;
                    content =
                        (rw
                          (splice_more c buf off done k r.count (chunk_at buf done) fits
                            (omega arith))
                          at r.content);
                  })
            ]
      ]

module _ (sv : Server) where
  write_at_file :
      (s : Process sv.World) (fd : ℤ) (buf : Bytes) (i : ℕ) (r : Moved sv.World)
      → s.inited ≡ true
      → open_at s.fdtab fd ≡ some i
      → (entry s.fdtab i).kind ≡ file
      → write_loop sv (suc (length buf)) s.world (entry s.fdtab i).path buf (entry s.fdtab i).off 0
        ≡ some r
      → write sv s fd buf ≡ some (finish sv s i r)
  unfolding write write_open
  write_at_file s fd buf i r on o k e = ground (arith, fd_init_done s on)

  -- write, on a descriptor of a file, takes the first `n` bytes that it is given, writes them into the
  -- file at the descriptor's offset, moves the offset behind them and returns `n`, while the offset and
  -- the count stay within what the server can count.
  pub write-splice :
      (s : Process sv.World) (fd : ℤ) (buf : Bytes) (i bound : ℕ) (c : Bytes)
      (P : Bytes → sv.World → Type 0)
      → s.inited ≡ true
      → open_at s.fdtab fd ≡ some i
      → (entry s.fdtab i).kind ≡ file
      → TakesWrites sv bound (entry s.fdtab i).path P
      → (entry s.fdtab i).off + length buf ≤ bound
      → P c s.world
      → let e = entry s.fdtab i in
        (n : ℕ) × (w : sv.World) × (write sv s fd buf
          ≡ some
              (record s { fdtab = set s.fdtab i (record e { off = e.off + n }); world = w }, pos n))
        × (n ≤ length buf)
        × P (splice c e.off (take n buf)) w
  write-splice s fd buf i bound c P on o k law room ok =
      let e = entry s.fdtab i in
      let r =
        write_loop-HasWritten sv bound e.path P law (suc (length buf)) s.world c buf e.off 0 ok
          (omega arith) (omega arith) (omega arith) in
      let zero_count : 0 + r.count ≡ r.count = omega arith in
      let len : r.result.count ≡ r.count = omega (arith, r.counted) in
      (
        r.count,
        r.result.world,
        write_at_file s fd buf i r.result on o k r.ends
            ∙ ap some (finish_lem sv s i r.result (e.off + r.count) r.count r.works r.offset len),
        omega (arith, r.within),
        r.content,
      )
