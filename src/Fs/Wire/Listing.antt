-- ===== src/Fs/Wire/Listing.antt =====
-- __rc_fs_list ends and stays inside the buffer of its caller, whatever the server answers.
use racccoon.Base.{
  ℕ, zero, suc, ◌+◌, ◌-◌, ◌*◌, ◌≤◌, ◌<◌, ◌≡◌, refl, ◌⊎◌, inl, inr, false, [], ◌∷◌, ◌++◌, Option,
  none, some, ltb, leb, ◌||◌, length, min, take, arith, Memory, load, store, Bool-cases,
  Option-cases, length-append, length-load,
}
use racccoon.Base.Int.{ℤ, pos, negsuc}
use racccoon.Fs.Path.{abspath}
use racccoon.Fs.Wire.{Kernel, verb_list, entry_size, page_max, listed, fsd_call, list_loop, list}
use racccoon.Fs.Wire.Words.{put32, get32, signed32}
use racccoon.Posix.Server.{Bytes}

ℤ-cases : (z : ℤ) → ((n : ℕ) × (z ≡ pos n)) ⊎ ((n : ℕ) × (z ≡ negsuc n))
ℤ-cases (pos n) = inl (n, refl)
ℤ-cases (negsuc n) = inr (n, refl)

none≢some : {o : Bytes} → ◌≡◌ {A = Option Bytes} none (some o) → ⊥
none≢some e = cc

-- A result is there, and the entries in it are `limit` at most.
pub record ListsAtMost {W : Type 0} (limit : ℕ) (o : Option (W × Option Bytes)) : Type 0 where
  pub result : W × Option Bytes
  pub ends : o ≡ some result
  pub fits : (out : Bytes) → result.1 ≡ some out → length out ≤ limit * entry_size

module _ (k : Kernel) (junk : Memory) (limit : ℕ) where
  copied_fits :
      (o out : Bytes) (n : ℕ)
      → ◌≡◌ {A = Option Bytes} (some out) (some o)
      → length out ≡ n * entry_size
      → n ≤ limit
      → length o ≤ limit * entry_size
  copied_fits o out n e l h = ground arith

  listed-ListsAtMost :
      (w : k.World) (out : Bytes) (total : ℕ)
      → length out ≤ limit * entry_size
      → ListsAtMost limit (some (listed k junk out total w))
  listed-ListsAtMost w out zero h = record {
    result = (w, none);
    ends = refl;
    fits = λ o e. absurd (none≢some e);
  }
  listed-ListsAtMost w out (suc n) h = record {
    result = (w, some out);
    ends = refl;
    fits = λ o e. ground arith;
  }

  list_loop-ListsAtMost :
      (f : ℕ) (w : k.World) (pid : ℕ) (name out : Bytes) (total : ℕ)
      → length out ≡ total * entry_size
      → total ≤ limit
      → limit < f + total
      → ListsAtMost limit (list_loop k junk f w pid name out total limit)
  unfolding list_loop
  list_loop-ListsAtMost zero w pid name out total l t h = absurd (omega arith)
  list_loop-ListsAtMost (suc f) w pid name out total l t h =
      let x =
        fsd_call k junk w pid verb_list (put32 (store junk 0 (take 99 name ++ 0 ∷ [])) 104 total) in
      elim (Option-cases x.1) [
        | inl e ↦ rw (list_loop, e) (listed-ListsAtMost x.0 out total (omega arith))
        | inr (reply, e) ↦ elim (ℤ-cases (signed32 (get32 reply 0))) [
          | inr (m, c) ↦ rw (list_loop, e, c) (listed-ListsAtMost x.0 out total (omega arith))
          | inl (page, c) ↦
              let n = min page (limit - total) in
              let out' = out ++ load reply 4 (n * entry_size) in
              let len : length out' ≡ (total + n) * entry_size = omega (
                arith,
                length-append out (load reply 4 (n * entry_size)),
                length-load (n * entry_size) reply 4,
              ) in
              elim (Bool-cases (ltb page page_max || leb limit (total + n))) [
                | inl g ↦
                    rw (list_loop, e, c, g)
                      (record {
                        result = (x.0, some out');
                        ends = refl;
                        fits = λ o q. copied_fits o out' (total + n) q len (omega arith);
                      })
                | inr g ↦
                    rw (list_loop, e, c, g)
                      (list_loop-ListsAtMost f x.0 pid name out' (total + n) len (omega arith)
                        (ground arith))
              ]
        ]
      ]

  -- __rc_fs_list ends, and the entries that it copies to its caller are no more than the caller has
  -- room for, whatever the server answers.
  pub list-ListsAtMost : (w : k.World) (path : Bytes) → ListsAtMost limit (list k junk w path limit)
  unfolding list
  list-ListsAtMost w path = elim (Option-cases (k.translate w (abspath (k.getcwd w) path) false)) [
    | inl e ↦ rw e (record { result = (w, none); ends = refl; fits = λ o q. absurd (none≢some q) })
    | inr ((pid, name), e) ↦
        rw e (list_loop-ListsAtMost (suc limit) w pid name [] 0 refl (omega arith) (omega arith))
  ]
