-- ===== src/Posix/Kept.antt =====
-- The calls of rc_posix.c and rc_socket.c on descriptors keep the table valid.
pub mod Moving
pub mod Opened
pub mod Sockets
pub mod Datagrams
pub mod Resized
pub mod Made
pub mod Reached
use racccoon.Base.{
  ℕ, zero, suc, ◌+◌, ◌≤◌, ◌<◌, ◌≡◌, refl, sym, ap, subst, ◌∙◌, ◌≢◌, inl, inr, true, false, not,
  List, [], ◌∷◌, Option, none, some, ◌==◌, ltb, leb, set, length, take, arith, Bool-cases,
  Option-cases, length-set, ==_iff, if◌then◌else◌,
}
use racccoon.Base.Int.{ℤ, pos, negsuc}
use racccoon.Posix.Server.{Bytes, Server}
use racccoon.Posix.Table.{
  fd_max, ebadf, console, free, file, net, Fdent, empty_fdent, Process, is_free, is_console, entry,
  set_kind, fd_init, fd_alloc, open_at, file_at, in_range, dup, dup2, fcntl, isatty, fd_new_net,
}
use racccoon.Posix.Table.Slots.{
  IsValid, fd_init-IsValid, fd_init_done, inited-fd_init, store-IsValid, errno-IsValid,
  fd_alloc_lem, fd_alloc-IsValid, entry-set_ne, entry-set_self,
}
use racccoon.Posix.Transfer.{close}

pub open_at-some :
    (t : List Fdent) (fd : ℤ) (i : ℕ)
    → open_at t fd ≡ some i
    → (i < fd_max) × (is_free (entry t i).kind ≡ false)
open_at-some t (pos j) i e = ground arith
open_at-some t (negsuc n) i e = cc

in_range-some : (fd : ℤ) (i : ℕ) → in_range fd ≡ some i → i < fd_max
in_range-some (pos j) i e = ground arith
in_range-some (negsuc n) i e = cc

-- The state that a call leaves is valid, where it returns.
abbrev pub LeavesValid : {W X : Type 0} → (X → Process W) → Option X → Type 0
LeavesValid left none = Unit
LeavesValid left (some x) = IsValid (left x)

pub left-IsValid :
    {W X : Type 0} (left : X → Process W) {o : Option X} {x : X}
    → o ≡ some x
    → LeavesValid left o
    → IsValid (left x)
left-IsValid left e v = subst (LeavesValid left) e v

module _ {W : Type 0} where
  pub world-IsValid : (s : Process W) (w : W) → IsValid s → IsValid (record s { world = w })
  world-IsValid s w v = record { size = v.size; standard = v.standard }

  -- Any entry may be replaced by one of its kind.
  pub kind-IsValid :
      (s : Process W) (i : ℕ) (e : Fdent)
      → IsValid s
      → i < fd_max
      → e.kind ≡ (entry s.fdtab i).kind
      → IsValid (record s { fdtab = set s.fdtab i e })
  kind-IsValid s i e v l k = record {
    size = length-set s.fdtab i e ∙ v.size;
    standard = λ on j h. elim (Bool-cases (i == j)) [
      | inl q ↦
          rw (← ((==_iff i j).0 q), entry-set_self s.fdtab i e (omega (arith, v.size)), k)
            (v.standard on i (ground arith))
      | inr q ↦ rw (entry-set_ne s.fdtab i j e (ground arith)) (v.standard on j h)
    ];
  }

  -- Any entry behind the standard ones may be replaced.
  pub above-IsValid :
      (s : Process W) (i : ℕ) (e : Fdent)
      → IsValid s
      → 3 ≤ i
      → IsValid (record s { fdtab = set s.fdtab i e })
  above-IsValid s i e v l = record {
    size = length-set s.fdtab i e ∙ v.size;
    standard =
        λ on j h. rw (entry-set_ne s.fdtab i j e (λ q. omega (arith, q))) (v.standard on j h);
  }

  pub fd_alloc-above : (s : Process W) (i : ℕ) → (fd_alloc s).1 ≡ some i → 3 ≤ i
  fd_alloc-above s i e = elim (fd_alloc_lem s) [
    | inl (q, full) ↦ absurd (nothing (sym (ap (λ x. x.1) q) ∙ e))
    | inr (j, q, lo, hi, fr, before) ↦ above j (sym (ap (λ x. x.1) q) ∙ e) lo
  ]
    where
      nothing : ◌≡◌ {A = Option ℕ} none (some i) → ⊥
      nothing e = cc

      above : (j : ℕ) → ◌≡◌ {A = Option ℕ} (some j) (some i) → 3 ≤ j → 3 ≤ i
      above j e l = ground arith

  pub fd_new_net-IsValid :
      (s : Process W) (dir : Bytes) (flags : ℕ) → IsValid s → IsValid (fd_new_net s dir flags).0
  unfolding fd_new_net
  fd_new_net-IsValid s dir flags v = elim (Option-cases (fd_alloc s).1) [
    | inl e ↦ rw (fd_new_net, e) (fd_alloc-IsValid s v)
    | inr (i, e) ↦
        rw (fd_new_net, e)
          (above-IsValid (fd_alloc s).0 i _ (fd_alloc-IsValid s v) (fd_alloc-above s i e))
  ]

  pub dup-IsValid : (s : Process W) (fd : ℤ) → IsValid s → IsValid (dup s fd).0
  unfolding dup
  dup-IsValid s fd v =
      let s₁ = fd_init s in
      let v₁ = fd_alloc-IsValid s₁ (fd_init-IsValid s v) in
      elim (Option-cases (open_at s₁.fdtab fd)) [
        | inl e ↦ rw (dup, e) (errno-IsValid s₁ ebadf (fd_init-IsValid s v))
        | inr (i, e) ↦ elim (Option-cases (fd_alloc s₁).1) [
          | inl q ↦ rw (dup, e, q) v₁
          | inr (j, q) ↦
              rw (dup, e, q) (above-IsValid (fd_alloc s₁).0 j _ v₁ (fd_alloc-above s₁ j q))
        ]
      ]

  pub dup2-IsValid : (s : Process W) (old new : ℤ) → IsValid s → IsValid (dup2 s old new).0
  unfolding dup2
  dup2-IsValid s old new v = elim (Option-cases (open_at (fd_init s).fdtab old)) [
    | inl e ↦ rw (dup2, e) (errno-IsValid (fd_init s) ebadf (fd_init-IsValid s v))
    | inr (o, e) ↦ elim (Option-cases (in_range new)) [
      | inl q ↦ rw (dup2, e, q) (errno-IsValid (fd_init s) ebadf (fd_init-IsValid s v))
      | inr (n, q) ↦ elim (Bool-cases (o == n)) [
        | inl c ↦ rw (dup2, e, q, c) (fd_init-IsValid s v)
        | inr c ↦
            rw (dup2, e, q, c)
              (store-IsValid (fd_init s) n (entry (fd_init s).fdtab o) (fd_init-IsValid s v)
                (in_range-some new n q) (open_at-some (fd_init s).fdtab old o e).1)
      ]
    ]
  ]

  pub fcntl-IsValid : (s : Process W) (fd : ℤ) (cmd : ℕ) → IsValid s → IsValid (fcntl s fd cmd).0
  unfolding fcntl
  fcntl-IsValid s fd cmd v = elim (Option-cases (open_at (fd_init s).fdtab fd)) [
    | inl e ↦ rw (fcntl, e) (errno-IsValid (fd_init s) ebadf (fd_init-IsValid s v))
    | inr (i, e) ↦ elim (Bool-cases (cmd == 3)) [
      | inl c ↦ rw (fcntl, e, c) (fd_init-IsValid s v)
      | inr c ↦ elim (Bool-cases (cmd == 0)) [
        | inl z ↦ rw (fcntl, e, c, z) (dup-IsValid (fd_init s) fd (fd_init-IsValid s v))
        | inr z ↦ rw (fcntl, e, c, z) (fd_init-IsValid s v)
      ]
    ]
  ]

module _ (sv : Server) where
  pub close-IsValid : (s : Process sv.World) (fd : ℤ) → IsValid s → IsValid (close sv s fd).0
  unfolding close
  close-IsValid s fd v = elim (Option-cases (open_at (fd_init s).fdtab fd)) [
    | inl e ↦ rw (close, e) (errno-IsValid (fd_init s) ebadf (fd_init-IsValid s v))
    | inr (i, e) ↦ elim (Bool-cases (leb 3 i)) [
      | inl c ↦
          rw (close, e, c)
            (world-IsValid _ _ (above-IsValid (fd_init s) i _ (fd_init-IsValid s v) (ground arith)))
      | inr c ↦ rw (close, e, c) (world-IsValid (fd_init s) _ (fd_init-IsValid s v))
    ]
  ]
