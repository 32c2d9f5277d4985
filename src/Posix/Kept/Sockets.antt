-- ===== src/Posix/Kept/Sockets.antt =====
-- The calls of rc_socket.c on a descriptor keep the table valid: they change the offset and the flags of
-- an entry, where a port and the mode of a conversation are kept, and no kind.
use racccoon.Base.{
  ◌⊎◌, ℕ, zero, suc, ◌<◌, ◌≡◌, refl, inl, inr, true, false, Bool, Option, none, some, ◌==◌, ◌&&◌,
  ◌||◌, arith, Bool-cases, Option-cases, List,
}
use racccoon.Base.Int.{ℤ, pos, negsuc}
use racccoon.Posix.Server.{Bytes, Got, got, retry, failed, NetFiles}
use racccoon.Posix.Table.{fd_max, einval, Fdent, Process, entry, fd_init}
use racccoon.Posix.Table.Slots.{IsValid, fd_init-IsValid, errno-IsValid}
use racccoon.Posix.Kept.{world-IsValid, kind-IsValid}
use racccoon.Net.Conversations.{
  enotsock, eaddrinuse, eafnosupport, econnrefused, etimedout, text, is_tcp, netpath, net_at, State,
  established, closed, waiting, state_of, behind_space, until_nul, done_or, bind_slot, bind, listen,
  await, connected, connect_slot, connect,
}
use racccoon.Net.Peers.{shutdown, named, getsockname, getpeername}

pub net_at-some : (t : List Fdent) (fd : ℤ) (i : ℕ) → net_at t fd ≡ some i → i < fd_max
net_at-some t (pos j) i e = ground arith
net_at-some t (negsuc n) i e = cc

module _ {W : Type 0} (nf : NetFiles W) where
  done_or-IsValid :
      (s : Process W) (e : ℕ) (r : W × Bool) → IsValid s → IsValid (done_or nf s e r).0
  done_or-IsValid s e (w, true) v = world-IsValid s w v
  done_or-IsValid s e (w, false) v = errno-IsValid _ e (world-IsValid s w v)

  bind_slot-IsValid :
      (s : Process W) (i : ℕ) (a : Option (ℕ × ℕ))
      → IsValid s
      → i < fd_max
      → IsValid (bind_slot nf s i a).0
  bind_slot-IsValid s i none v l = errno-IsValid s einval v
  bind_slot-IsValid s i (some (ip, p)) v l =
      let v₁ = kind-IsValid s i (record (entry s.fdtab i) { off = p }) v l refl in
      elim (Bool-cases (p == 0)) [
        | inl z ↦ rw (bind_slot, z) v₁
        | inr z ↦ rw (bind_slot, z) (done_or-IsValid _ eaddrinuse _ v₁)
      ]

  pub bind-IsValid :
      (s : Process W) (fd : ℤ) (a : Option (ℕ × ℕ)) → IsValid s → IsValid (bind nf s fd a).0
  unfolding bind
  bind-IsValid s fd a v =
      let v₁ = fd_init-IsValid s v in
      elim (Option-cases (net_at (fd_init s).fdtab fd)) [
        | inl e ↦ rw (bind, e) (errno-IsValid _ enotsock v₁)
        | inr (i, e) ↦ rw (bind, e) (bind_slot-IsValid (fd_init s) i a v₁ (net_at-some _ fd i e))
      ]

  pub listen-IsValid : (s : Process W) (fd : ℤ) → IsValid s → IsValid (listen nf s fd).0
  unfolding listen
  listen-IsValid s fd v =
      let v₁ = fd_init-IsValid s v in
      elim (Option-cases (net_at (fd_init s).fdtab fd)) [
        | inl e ↦ rw (listen, e) (errno-IsValid _ enotsock v₁)
        | inr (i, e) ↦ elim (Bool-cases ((entry (fd_init s).fdtab i).off == 0)) [
          | inl z ↦ rw (listen, e, z) (errno-IsValid _ eaddrinuse v₁)
          | inr z ↦ rw (listen, e, z) (done_or-IsValid (fd_init s) eaddrinuse _ v₁)
        ]
      ]

  Got-cases : (g : Got) → (g ≡ retry) ⊎ ((g ≡ failed) ⊎ ((bs : Bytes) × (g ≡ got bs)))
  Got-cases retry = inl refl
  Got-cases failed = inr (inl refl)
  Got-cases (got bs) = inr (inr (bs, refl))

  State-cases : (t : State) → (t ≡ established) ⊎ ((t ≡ closed) ⊎ (t ≡ waiting))
  State-cases established = inl refl
  State-cases closed = inr (inl refl)
  State-cases waiting = inr (inr refl)

  await-IsValid : (k : ℕ) (s : Process W) (dir : Bytes) → IsValid s → IsValid (await nf k s dir).0
  unfolding await
  await-IsValid zero s dir v = errno-IsValid s etimedout v
  await-IsValid (suc k) s dir v =
      let r = nf.read_file s.world (netpath dir (text "status")) 95 in
      let v₁ = world-IsValid s r.0 v in
      elim (Got-cases r.1) [
        | inl e ↦ rw (await, e) (errno-IsValid _ etimedout v₁)
        | inr (inl e) ↦ rw (await, e) (errno-IsValid _ etimedout v₁)
        | inr (inr (st, e)) ↦ elim (State-cases (state_of (behind_space 2 (until_nul st)))) [
          | inl q ↦ rw (await, e, q) v₁
          | inr (inl q) ↦ rw (await, e, q) (errno-IsValid _ econnrefused v₁)
          | inr (inr q) ↦ rw (await, e, q) (await-IsValid k _ dir (world-IsValid s _ v))
        ]
      ]

  connected-IsValid :
      (e : Fdent) (s : Process W) (ok : Bool) → IsValid s → IsValid (connected nf e (s, ok)).0
  connected-IsValid e s false v = errno-IsValid s econnrefused v
  connected-IsValid e s true v = elim (Bool-cases (is_tcp e)) [
    | inl t ↦ rw (connected, t) (await-IsValid 1000 s e.path v)
    | inr t ↦ rw (connected, t) v
  ]

  connect_slot-IsValid :
      (s : Process W) (i : ℕ) (a : Option (ℕ × ℕ)) → IsValid s → IsValid (connect_slot nf s i a).0
  connect_slot-IsValid s i none v = errno-IsValid s eafnosupport v
  connect_slot-IsValid s i (some (ip, p)) v =
      connected-IsValid (entry s.fdtab i) _ _ (world-IsValid s _ v)

  pub connect-IsValid :
      (s : Process W) (fd : ℤ) (a : Option (ℕ × ℕ)) → IsValid s → IsValid (connect nf s fd a).0
  unfolding connect
  connect-IsValid s fd a v =
      let v₁ = fd_init-IsValid s v in
      elim (Option-cases (net_at (fd_init s).fdtab fd)) [
        | inl e ↦ rw (connect, e) (errno-IsValid _ enotsock v₁)
        | inr (i, e) ↦ rw (connect, e) (connect_slot-IsValid (fd_init s) i a v₁)
      ]

  pub shutdown-IsValid :
      (s : Process W) (fd : ℤ) (how : ℕ) → IsValid s → IsValid (shutdown nf s fd how).0
  unfolding shutdown
  shutdown-IsValid s fd how v =
      let v₁ = fd_init-IsValid s v in
      elim (Option-cases (net_at (fd_init s).fdtab fd)) [
        | inl e ↦ rw (shutdown, e) (errno-IsValid _ enotsock v₁)
        | inr (i, e) ↦
            elim (Bool-cases ((how == 1 || how == 2) && is_tcp (entry (fd_init s).fdtab i))) [
              | inl z ↦ rw (shutdown, e, z) (world-IsValid _ _ v₁)
              | inr z ↦ rw (shutdown, e, z) v₁
            ]
      ]

  named-IsValid :
      (s : Process W) (e : ℕ) (r : W × Option (ℕ × ℕ)) → IsValid s → IsValid (named nf s e r).0
  named-IsValid s e (w, none) v = errno-IsValid _ e (world-IsValid s w v)
  named-IsValid s e (w, some a) v = world-IsValid s w v

  pub getsockname-IsValid : (s : Process W) (fd : ℤ) → IsValid s → IsValid (getsockname nf s fd).0
  unfolding getsockname
  getsockname-IsValid s fd v =
      let v₁ = fd_init-IsValid s v in
      elim (Option-cases (net_at (fd_init s).fdtab fd)) [
        | inl e ↦ rw (getsockname, e) (errno-IsValid _ enotsock v₁)
        | inr (i, e) ↦ rw (getsockname, e) (named-IsValid (fd_init s) einval _ v₁)
      ]

  pub getpeername-IsValid : (s : Process W) (fd : ℤ) → IsValid s → IsValid (getpeername nf s fd).0
  unfolding getpeername
  getpeername-IsValid s fd v =
      let v₁ = fd_init-IsValid s v in
      elim (Option-cases (net_at (fd_init s).fdtab fd)) [
        | inl e ↦ rw (getpeername, e) (errno-IsValid _ enotsock v₁)
        | inr (i, e) ↦ rw (getpeername, e) (named-IsValid (fd_init s) _ _ v₁)
      ]
