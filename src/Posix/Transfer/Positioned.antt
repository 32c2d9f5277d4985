-- ===== src/Posix/Transfer/Positioned.antt =====
-- pread and pwrite: a transfer at an offset of its own, which leaves the descriptor where it was.
use racccoon.Base.{
  ℕ, ◌+◌, ◌≤◌, ◌<◌, ◌≡◌, sym, ap, subst, ◌∙◌, true, List, some, length, set, take, drop, arith,
  get_or-set_self, set-set, set-get_or, length-set,
}
use racccoon.Base.Int.{ℤ, pos}
use racccoon.Posix.Server.{Bytes, Server}
use racccoon.Posix.Table.{fd_max, file, Fdent, empty_fdent, Process, entry, open_at, file_at}
use racccoon.Posix.Table.Slots.{IsValid, fd_init_done}
use racccoon.Posix.Transfer.{set_off, read, pread}
use racccoon.Posix.Transfer.Reading.{HoldsFile, read-take}

pub open_at-file :
    (t : List Fdent) (i : ℕ) → i < fd_max → (entry t i).kind ≡ file → open_at t (pos i) ≡ some i
open_at-file t i l k = ground arith

pub file_at-file :
    (t : List Fdent) (i : ℕ) → i < fd_max → (entry t i).kind ≡ file → file_at t (pos i) ≡ some i
file_at-file t i l k = ground arith

pub entry-set : (t : List Fdent) (i : ℕ) (e : Fdent) → i < length t → entry (set t i e) i ≡ e
entry-set t i e l = get_or-set_self t i e empty_fdent l

-- Moving the offset of a descriptor, twice, and then back.
set-entry_back :
    (t : List Fdent) (i : ℕ) (a b : Fdent)
    → (b' : Fdent) → b' ≡ entry t i
    → set (set (set t i a) i b) i b' ≡ t
set-entry_back t i a b b' e =
    set-set (set t i a) i b b' ∙ set-set t i a b' ∙ ap (set t i) e ∙ set-get_or t i empty_fdent

module _ (sv : Server) where
  pread_with :
      (s : Process sv.World) (i count o : ℕ) (r : Process sv.World × ℤ × Bytes)
      → s.inited ≡ true
      → i < fd_max
      → (entry s.fdtab i).kind ≡ file
      → read sv (set_off s i o) (pos i) count ≡ some r
      → pread sv s (pos i) count (pos o) ≡ some (set_off r.0 i (entry s.fdtab i).off, r.1, r.2)
  unfolding pread
  pread_with s i count o r on l k e =
      rw (fd_init_done s on, file_at-file s.fdtab i l k) (ground (arith, e))

  -- pread, on a descriptor of a file, returns the bytes from the offset that it is given on, as many as
  -- were asked for or as there are, and leaves the table of descriptors as it was, while the file, the
  -- offset and the count stay within what the server can count.
  pub pread-take :
      (s : Process sv.World) (i count o bound : ℕ) (content : Bytes) (P : sv.World → Type 0)
      → IsValid s
      → s.inited ≡ true
      → i < fd_max
      → (entry s.fdtab i).kind ≡ file
      → HoldsFile sv bound (entry s.fdtab i).path content P
      → length content ≤ bound
      → o ≤ bound
      → count ≤ bound
      → P s.world
      → let bytes = take count (drop o content) in
        (w : sv.World) × (pread sv s (pos i) count (pos o)
          ≡ some (record s { world = w }, pos (length bytes), bytes))
        × P w
  pread-take s i count o bound content P v on l k holds fits o_fits count_fits ok =
      let s₁ = set_off s i o in
      let e = entry s.fdtab i in
      let e₁ = entry s₁.fdtab i in
      let same : e₁ ≡ record e { off = o } =
        entry-set s.fdtab i (record e { off = o }) (omega (arith, v.size)) in
      let kind₁ : e₁.kind ≡ file = ap (λ x. x.kind) same ∙ k in
      let off₁ : e₁.off ≡ o = ap (λ x. x.off) same in
      let (w, r, keeps) =
        read-take sv s₁ (pos i) count i bound content P on (open_at-file s₁.fdtab i l kind₁) kind₁
          (subst (λ x. HoldsFile sv bound x content P) (sym (ap (λ x. x.path) same)) holds) fits
          (omega arith) count_fits ok in
      let b = record e₁ { off = e₁.off + length (take count (drop e₁.off content)) } in
      let back : record (entry (set s₁.fdtab i b) i) { off = e.off } ≡ e =
        ap {A = Fdent} (λ x. record x { off = e.off })
          (entry-set s₁.fdtab i b
            (omega (arith, length-set s.fdtab i (record e { off = o }), v.size)))
        ∙ ap {A = Fdent} (λ x. record x { off = e.off }) same in
      (
        w,
        pread_with s i count o _ on l k r
            ∙ ap
                (λ q. some (
                  set_off (record s₁ { fdtab = set s₁.fdtab i b; world = w }) i e.off,
                  pos (length (take count (drop q content))),
                  take count (drop q content),
                ))
                off₁
            ∙ ap
                (λ t. some (
                  record s { fdtab = t; world = w },
                  pos (length (take count (drop o content))),
                  take count (drop o content),
                ))
                (set-entry_back s.fdtab i (record e { off = o }) b _ back),
        keeps,
      )
