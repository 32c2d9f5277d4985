-- ===== src/Posix/Transfer/Reading.antt =====
-- What read and pread deliver from a file, whatever pieces the file server delivers it in.
use racccoon.Base.{
  ℕ, zero, suc, ◌+◌, ◌-◌, ◌≤◌, ◌<◌, ◌≡◌, refl, sym, ap, ◌∙◌, inl, inr, true, false, [], ◌∷◌, ◌++◌,
  Option, some, ltb, length, set, take, drop, arith, Bool-cases, List-cases, append-nil,
  append_assoc, length-append, take-take-drop, drop-drop, length-take, length-drop, drop-eq-nil,
  take-nil,
}
use racccoon.Base.Int.{ℤ, pos}
use racccoon.Posix.Server.{Bytes, Server}
use racccoon.Posix.Table.{file, Process, entry, open_at}
use racccoon.Posix.Transfer.Total.{finish_lem}
use racccoon.Posix.Table.Slots.{fd_init_done}
use racccoon.Posix.Transfer.{Moved, read_loop, finish, read_open, read}

-- In the states `P` of the servers the file at `path` holds `content`: a read from offset `off`
-- delivers at least one byte of what is there, until its end. Lengths and offsets go up to `bound`.
pub record HoldsFile (sv : Server) (bound : ℕ) (path content : Bytes) (P : sv.World → Type 0)
    : Type 0 where
  pub keeps :
      (w : sv.World) (len off : ℕ)
      → P w
      → 0 < len
      → len ≤ bound
      → off ≤ bound
      → P (sv.read_at w path len off).0
  pub delivers :
      (w : sv.World) (len off : ℕ)
      → P w
      → 0 < len
      → len ≤ bound
      → off ≤ bound
      → (k : ℕ) × ((sv.read_at w path len off).1 ≡ some (take k (drop off content)))
        × (k ≤ len)
        × (take k (drop off content) ≡ [] → length content ≤ off)

module _ (sv : Server) (bound : ℕ) (path content : Bytes) (P : sv.World → Type 0)
    (holds : HoldsFile sv bound path content P) (fits : length content ≤ bound) where
  read_loop-done :
      (f : ℕ) (w : sv.World) (count off : ℕ) (p : Bytes)
      → ltb (length p) count ≡ false
      → read_loop sv (suc f) w path count off p
        ≡ some (record { world = w; off = off; count = length p; bytes = p; failed = false })
  unfolding read_loop
  read_loop-done f w count off p e = rw (read_loop, e) refl

  read_loop-eof :
      (f : ℕ) (w : sv.World) (count off : ℕ) (p : Bytes)
      → ltb (length p) count ≡ true
      → (sv.read_at w path (count - length p) off).1 ≡ some []
      → read_loop sv (suc f) w path count off p
        ≡ some (record {
          world = (sv.read_at w path (count - length p) off).0;
          off = off;
          count = length p;
          bytes = p;
          failed = false;
        })
  unfolding read_loop
  read_loop-eof f w count off p e g = rw (read_loop, e, g) refl

  read_loop-more :
      (f : ℕ) (w : sv.World) (count off : ℕ) (p : Bytes) (b : ℕ) (bs : Bytes)
      → ltb (length p) count ≡ true
      → (sv.read_at w path (count - length p) off).1 ≡ some (b ∷ bs)
      → read_loop sv (suc f) w path count off p
        ≡ read_loop sv f
            (sv.read_at w path (count - length p) off).0
            path
            count
            (off + length (b ∷ bs))
            (p ++ b ∷ bs)
  unfolding read_loop
  read_loop-more f w count off p b bs e g = rw (read_loop, e, g) refl

  -- The loop ends, and has the bytes asked for as far as the file goes.
  record HasRead (count off : ℕ) (p : Bytes) (o : Option (Moved sv.World)) : Type 0 where
    result : Moved sv.World
    ends : o ≡ some result
    keeps : P result.world
    counted : result.count ≡ length result.bytes
    bytes : result.bytes ≡ p ++ take (count - length p) (drop off content)
    offset : result.off + length p ≡ off + length result.bytes
    works : result.failed ≡ false

  -- The bytes of one round and those of the later ones.
  later_bytes :
      (k count off : ℕ) (p : Bytes)
      → k ≤ count - length p
      → let bs = take k (drop off content) in
        (p ++ bs) ++ take (count - length (p ++ bs)) (drop (off + length bs) content)
        ≡ p ++ take (count - length p) (drop off content)
  later_bytes k count off p h =
      let bs = take k (drop off content) in
      append_assoc p bs _
      ∙ ap (λ u. p ++ u)
          (rw (← drop-drop off (length bs) content)
            (rw (shorter bs) (take-take-drop k (count - length p) (drop off content) h)))
    where
      shorter : (bs : Bytes) → count - length (p ++ bs) ≡ count - length p - length bs
      shorter bs = omega (arith, length-append p bs)

  nothing_left : (p : Bytes) (count : ℕ) → ltb (length p) count ≡ false → count - length p ≡ 0
  nothing_left p count e = ground arith

  -- A round, before those that follow it.
  module _ (f : ℕ) (w : sv.World) (count off : ℕ) (p : Bytes) (ok : P w) (le : length p ≤ count)
      (l : count < suc f + length p) (o : off ≤ bound) (b : count ≤ bound)
      (e : ltb (length p) count ≡ true)
      (ih : (w' : sv.World) (off' : ℕ) (p' : Bytes)
        → P w'
        → length p' ≤ count
        → count < f + length p'
        → off' ≤ bound
        → HasRead count off' p' (read_loop sv f w' path count off' p')) where
    at_end :
        length content ≤ off
        → (sv.read_at w path (count - length p) off).1 ≡ some []
        → HasRead count off p (read_loop sv (suc f) w path count off p)
    at_end past got = rw (read_loop-eof f w count off p e got) (record {
      result = record {
        world = (sv.read_at w path (count - length p) off).0;
        off = off;
        count = length p;
        bytes = p;
        failed = false;
      };
      ends = refl;
      keeps = holds.keeps w (count - length p) off ok (ground arith) (omega arith) o;
      counted = refl;
      bytes = rw (drop-eq-nil off content past, take-nil (count - length p)) (sym (append-nil p));
      offset = refl;
      works = refl;
    })

    goes_on :
        (k c₀ : ℕ) (bs : Bytes)
        → k ≤ count - length p
        → take k (drop off content) ≡ c₀ ∷ bs
        → (sv.read_at w path (count - length p) off).1 ≡ some (c₀ ∷ bs)
        → HasRead count off p (read_loop sv (suc f) w path count off p)
    goes_on k c₀ bs short c got =
        let len : length (take k (drop off content)) ≡ length (c₀ ∷ bs) = ap length c in
        let room : length (c₀ ∷ bs) ≤ count - length p =
          omega (arith, len, length-take k (drop off content)) in
        let long : length (p ++ c₀ ∷ bs) ≡ length p + length (c₀ ∷ bs) =
          length-append p (c₀ ∷ bs) in
        let r =
          ih (sv.read_at w path (count - length p) off).0 (off + length (c₀ ∷ bs)) (p ++ c₀ ∷ bs)
            (holds.keeps w (count - length p) off ok (ground arith) (omega arith) o) (ground arith)
            (omega arith)
            (omega (arith, len, length-take k (drop off content), length-drop off content)) in
        rw (read_loop-more f w count off p c₀ bs e got) (record {
          result = r.result;
          ends = r.ends;
          keeps = r.keeps;
          counted = r.counted;
          bytes = r.bytes ∙ (rw c at (later_bytes k count off p short));
          offset = omega (arith, r.offset);
          works = r.works;
        })

  read_loop-HasRead :
      (f : ℕ) (w : sv.World) (count off : ℕ) (p : Bytes)
      → P w
      → length p ≤ count
      → count < f + length p
      → off ≤ bound
      → count ≤ bound
      → HasRead count off p (read_loop sv f w path count off p)
  read_loop-HasRead zero w count off p ok le l o b = absurd (omega arith)
  read_loop-HasRead (suc f) w count off p ok le l o b = elim (Bool-cases (ltb (length p) count)) [
    | inr e ↦ rw (read_loop-done f w count off p e) (record {
      result = record { world = w; off = off; count = length p; bytes = p; failed = false };
      ends = refl;
      keeps = ok;
      counted = refl;
      bytes = rw (nothing_left p count e) (sym (append-nil p));
      offset = refl;
      works = refl;
    })
    | inl e ↦
        let (k, got, short, eof) =
          holds.delivers w (count - length p) off ok (ground arith) (omega arith) o in
        elim (List-cases (take k (drop off content))) [
          | inl c ↦
              at_end f w count off p ok le l o b e
                (λ w' o' p' ok' le' l' b'. read_loop-HasRead f w' count o' p' ok' le' l' b' b)
                (eof c) (got ∙ ap some c)
          | inr (c₀, bs, c) ↦
              goes_on f w count off p ok le l o b e
                (λ w' o' p' ok' le' l' b'. read_loop-HasRead f w' count o' p' ok' le' l' b' b) k c₀
                bs short c (got ∙ ap some c)
        ]
  ]

module _ (sv : Server) where
  read_at_file :
      (s : Process sv.World) (fd : ℤ) (count i : ℕ) (r : Moved sv.World)
      → s.inited ≡ true
      → open_at s.fdtab fd ≡ some i
      → (entry s.fdtab i).kind ≡ file
      → read_loop sv (suc count) s.world (entry s.fdtab i).path count (entry s.fdtab i).off []
        ≡ some r
      → read sv s fd count ≡ some ((finish sv s i r).0, (finish sv s i r).1, r.bytes)
  unfolding read read_open
  read_at_file s fd count i r on o k e = ground (arith, fd_init_done s on)

  reads :
      (s : Process sv.World) (x : Process sv.World × ℤ) (y : Process sv.World) (n : ℤ)
      (bytes : Bytes) {bs : Bytes}
      → x ≡ (y, n)
      → bs ≡ bytes
      → ◌≡◌ {A = Option (Process sv.World × ℤ × Bytes)} (some (x.0, x.1, bs)) (some (y, n, bytes))
  reads s x y n bytes e b = λ i. some ((e i).0, (e i).1, b i)

  -- read, on a descriptor of a file, returns the bytes from the descriptor's offset on, as many as
  -- were asked for or as there are, and moves the offset behind them, while the file, the offset and
  -- the count stay within what the server can count.
  pub read-take :
      (s : Process sv.World) (fd : ℤ) (count i bound : ℕ) (content : Bytes) (P : sv.World → Type 0)
      → s.inited ≡ true
      → open_at s.fdtab fd ≡ some i
      → (entry s.fdtab i).kind ≡ file
      → HoldsFile sv bound (entry s.fdtab i).path content P
      → length content ≤ bound
      → (entry s.fdtab i).off ≤ bound
      → count ≤ bound
      → P s.world
      → let e = entry s.fdtab i in
        let bytes = take count (drop e.off content) in
        (w : sv.World) × (read sv s fd count
          ≡ some (
            record s { fdtab = set s.fdtab i (record e { off = e.off + length bytes }); world = w },
            pos (length bytes),
            bytes,
          ))
        × P w
  read-take s fd count i bound content P on o k holds fits off_fits count_fits ok =
      let e = entry s.fdtab i in
      let r =
        read_loop-HasRead sv bound e.path content P holds fits (suc count) s.world count e.off [] ok
          (omega arith) (omega arith) off_fits count_fits in
      let all : r.result.bytes ≡ take count (drop e.off content) =
        r.bytes ∙ ap (λ n. take n (drop e.off content)) (omega arith) in
      let moved : r.result.off ≡ e.off + length (take count (drop e.off content)) =
        omega (arith, r.offset, ap length all) in
      (
        r.result.world,
        read_at_file s fd count i r.result on o k r.ends
            ∙ reads s (finish sv s i r.result) _ _ _
                (finish_lem sv s i r.result _ _ r.works moved (r.counted ∙ ap length all)) all,
        r.keeps,
      )
