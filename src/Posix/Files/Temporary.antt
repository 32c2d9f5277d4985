-- ===== src/Posix/Files/Temporary.antt =====
-- mkstemp and the *at family of lib/racccoon-libc/src/rc_posix.c.
use racccoon.Base.{
  ℕ, zero, suc, ◌+◌, ◌-◌, ◌≡◌, refl, ap, ◌∙◌, inl, inr, Bool, false, not, ◌||◌, [], ◌∷◌, ◌++◌,
  Option, none, some, leb, ltb, ◌==◌, if◌then◌else◌, length, length-append, arith, Bool-cases, take,
  drop, replicate,
}
use racccoon.Base.Int.{ℤ, pos, negsuc}
use racccoon.Posix.Server.{Bytes, Server}
use racccoon.Posix.Table.{ebadf, einval, eexist, Process, entry, file_at, fd_init}
use racccoon.Posix.Files.{
  has_flag, fill_template, template_char, template_chars, same_bytes, open_file, make_directory,
  unlink, rmdir,
}

abbrev pub enametoolong : ℕ
enametoolong = 36

-- `path[0] == '/'`
abbrev pub is_absolute : Bytes → Bool
is_absolute [] = false
is_absolute (c ∷ p) = c == b'/'

-- AT_FDCWD is -100.
abbrev pub is_cwd : ℤ → Bool
is_cwd (pos n) = false
is_cwd (negsuc n) = n == 99

module _ (sv : Server) where
  open sv use {World}

  -- `if (fd >= 0 || errno != EEXIST) return fd;`, and else the next try
  abbrev pub after_open :
      (Process World → Bytes → Process World × Bytes × ℤ)
      → Bytes
      → Process World × ℤ
      → Process World × Bytes × ℤ
  after_open next tmpl (s, pos i) = (s, tmpl, pos i)
  after_open next tmpl (s, negsuc e) =
      if s.errno == eexist then next s tmpl else (s, tmpl, negsuc e)

  -- One call of mkstemp with `n` tries left; `seed k` is what the call `k` of rc_tmp_seed returns.
  -- The result has the template as it is left behind. O_RDWR | O_CREAT | O_EXCL is 2 + 64 + 128.
  unfoldable pub mkstemp_tries : ℕ → ℕ → (ℕ → ℕ) → Process World → Bytes → Process World × Bytes × ℤ
  mkstemp_tries zero k seed s tmpl = (record s { errno = eexist }, tmpl, negsuc 0)
  mkstemp_tries (suc n) k seed s tmpl = elim (fill_template tmpl (seed k)) [
    | none ↦ (record s { errno = einval }, tmpl, negsuc 0)
    | some filled ↦
        after_open (mkstemp_tries n (suc k) seed) filled (open_file sv s filled (2 + 64 + 128))
  ]

  unfoldable pub mkstemp : ℕ → (ℕ → ℕ) → Process World → Bytes → Process World × Bytes × ℤ
  unfolding mkstemp_tries
  mkstemp k seed s tmpl = mkstemp_tries 100 k seed s tmpl

  -- rc_at_path: the path, or none with `errno` set; `cap` is 256.
  unfoldable pub at_path : Process World → ℤ → Bytes → ℕ → Process World × Option Bytes
  at_path s₀ dirfd path cap =
      let s = fd_init s₀ in
      if is_absolute path || is_cwd dirfd
      then if leb cap (length path)
        then (record s₀ { errno = enametoolong }, none)
        else (s₀, some path)
      else elim (file_at s.fdtab dirfd) [
        | none ↦ (record s { errno = ebadf }, none)
        | some i ↦
            let dir = (entry s.fdtab i).path in
            if leb cap (length dir + 1 + length path)
            then (record s { errno = enametoolong }, none)
            else (s, some (dir ++ b'/' ∷ path))
      ]

  abbrev pub at_result :
      Process World × Option Bytes → (Process World → Bytes → Process World × ℤ) → Process World × ℤ
  at_result (s, none) call = (s, negsuc 0)
  at_result (s, some p) call = call s p

  unfoldable pub openat : Process World → ℤ → Bytes → ℕ → Process World × ℤ
  unfolding at_path
  openat s dirfd path flags = at_result (at_path s dirfd path 256) (λ s p. open_file sv s p flags)

  -- AT_REMOVEDIR is 0x200.
  unfoldable pub unlinkat : Process World → ℤ → Bytes → ℕ → Process World × ℤ
  unfolding at_path
  unlinkat s dirfd path flags =
      at_result (at_path s dirfd path 256)
        (λ s p. if has_flag flags 512 then rmdir sv s p else unlink sv s p)

  unfoldable pub mkdirat : Process World → ℤ → Bytes → Process World × ℤ
  unfolding at_path
  mkdirat s dirfd path = at_result (at_path s dirfd path 256) (λ s p. make_directory sv s p)

drop-append : (xs ys : Bytes) → drop (length xs) (xs ++ ys) ≡ ys
drop-append [] ys = refl
drop-append (x ∷ xs) ys = drop-append xs ys

-- A filled template has no X at its end any more, so it cannot be filled again.
fill_template-chars :
    (xs : Bytes) (seed seed' : ℕ) → fill_template (xs ++ template_chars 6 seed) seed' ≡ none
unfolding fill_template template_chars template_char
fill_template-chars xs seed seed' =
    let six : length (xs ++ template_chars 6 seed) - 6 ≡ length xs =
      omega (arith, length-append xs (template_chars 6 seed)) in
    rw (fill_template, six, drop-append xs (template_chars 6 seed)) ground arith

fill_template-again :
    (tmpl filled : Bytes) (seed seed' : ℕ)
    → fill_template tmpl seed ≡ some filled
    → fill_template filled seed' ≡ none
unfolding fill_template
fill_template-again tmpl filled seed seed' e =
    elim (Bool-cases
      (ltb (length tmpl) 6 || not (same_bytes (drop (length tmpl - 6) tmpl) (replicate 6 b'X')))) [
        | inl t ↦ absurd (ground arith)
        | inr t ↦
            let here : take (length tmpl - 6) tmpl ++ template_chars 6 seed ≡ filled =
              ground arith in
            rw (← here) (fill_template-chars (take (length tmpl - 6) tmpl) seed seed')
      ]

module _ (sv : Server) where
  mkstemp_tries-none :
      (n k : ℕ) (seed : ℕ → ℕ) (s : Process sv.World) (tmpl : Bytes)
      → fill_template tmpl (seed k) ≡ none
      → mkstemp_tries sv (suc n) k seed s tmpl ≡ (record s { errno = einval }, tmpl, negsuc 0)
  unfolding mkstemp_tries
  mkstemp_tries-none n k seed s tmpl e = rw (mkstemp_tries, e) refl

  mkstemp_tries-collision :
      (n k : ℕ) (seed : ℕ → ℕ) (s s' : Process sv.World) (tmpl filled : Bytes)
      → fill_template tmpl (seed k) ≡ some filled
      → open_file sv s filled (2 + 64 + 128) ≡ (s', negsuc 0)
      → s'.errno ≡ eexist
      → mkstemp_tries sv (suc n) k seed s tmpl ≡ mkstemp_tries sv n (suc k) seed s' filled
  unfolding mkstemp_tries
  mkstemp_tries-collision n k seed s s' tmpl filled e o x =
      rw (mkstemp_tries, e)
        (ap (after_open sv (mkstemp_tries sv n (suc k) seed) filled) o ∙ rw x refl)

  -- Where the file of the first filled template exists, mkstemp does not try another name: it fails
  -- with EINVAL.
  pub mkstemp-collision :
      (k : ℕ) (seed : ℕ → ℕ) (s s' : Process sv.World) (tmpl filled : Bytes)
      → fill_template tmpl (seed k) ≡ some filled
      → open_file sv s filled (2 + 64 + 128) ≡ (s', negsuc 0)
      → s'.errno ≡ eexist
      → mkstemp sv k seed s tmpl ≡ (record s' { errno = einval }, filled, negsuc 0)
  unfolding mkstemp
  mkstemp-collision k seed s s' tmpl filled e o x =
      mkstemp_tries-collision 99 k seed s s' tmpl filled e o x
      ∙ mkstemp_tries-none 98 (suc k) seed s' filled
          (fill_template-again tmpl filled (seed k) (seed (suc k)) e)
