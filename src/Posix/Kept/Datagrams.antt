-- ===== src/Posix/Kept/Datagrams.antt =====
-- The calls of rc_socket.c that move bytes keep the table valid, where they return.
use racccoon.Base.{
  ℕ, ◌<◌, refl, inl, inr, true, false, Bool, Option, none, some, Bool-cases, Option-cases, bit_or,
  take, length,
}
use racccoon.Base.Int.{ℤ, pos, negsuc}
use racccoon.Posix.Server.{Bytes, NetFiles}
use racccoon.Posix.Table.{fd_max, einval, Fdent, Process, entry, fd_init}
use racccoon.Posix.Table.Slots.{IsValid, fd_init-IsValid, errno-IsValid}
use racccoon.Posix.Kept.{world-IsValid, kind-IsValid, LeavesValid}
use racccoon.Posix.Kept.Sockets.{net_at-some}
use racccoon.Net.Conversations.{enotsock, econnreset, is_tcp, has_headers, net_at, send_loop}
use racccoon.Net.Peers.{
  packet, send_result, net_send, recv_result, net_recv, net_write, net_read, headers_on,
  ensure_headers, sent_to, send_datagram, sendto_slot, sendto, with_peer, recv_datagram,
  without_peer, recvfrom,
}

module _ {W : Type 0} (nf : NetFiles W) where
  -- The state behind a call that sends.
  abbrev pub behind_send : Process W × ℤ → Process W
  behind_send x = x.0

  -- The state behind a call that receives.
  abbrev pub behind_recv : {X : Type 0} → Process W × Option X → Process W
  behind_recv x = x.0

  send_result-LeavesValid :
      (s : Process W) (e : Fdent) (o : Option (W × Option ℕ))
      → IsValid s
      → LeavesValid behind_send (send_result nf s e o)
  send_result-LeavesValid s e none v = tt
  send_result-LeavesValid s e (some (w, none)) v = errno-IsValid _ _ (world-IsValid s w v)
  send_result-LeavesValid s e (some (w, some n)) v = world-IsValid s w v

  pub net_send-LeavesValid :
      (f : ℕ) (s : Process W) (i : ℕ) (buf : Bytes)
      → IsValid s
      → LeavesValid behind_send (net_send nf f s i buf)
  unfolding net_send
  net_send-LeavesValid f s i buf v =
      send_result-LeavesValid s (entry s.fdtab i) (send_loop nf f s.world (entry s.fdtab i) buf 0) v

  recv_result-LeavesValid :
      (s : Process W) (e : Fdent) (o : Option (W × Option Bytes))
      → IsValid s
      → LeavesValid behind_recv (recv_result nf s e o)
  recv_result-LeavesValid s e none v = tt
  recv_result-LeavesValid s e (some (w, none)) v = errno-IsValid _ econnreset (world-IsValid s w v)
  recv_result-LeavesValid s e (some (w, some bs)) v = world-IsValid s w v

  pub net_recv-LeavesValid :
      (f : ℕ) (s : Process W) (i n : ℕ) → IsValid s → LeavesValid behind_recv (net_recv nf f s i n)
  unfolding net_recv
  net_recv-LeavesValid f s i n v = recv_result-LeavesValid s (entry s.fdtab i) _ v

  pub net_write-LeavesValid :
      (f : ℕ) (s : Process W) (fd : ℤ) (buf : Bytes)
      → IsValid s
      → LeavesValid behind_send (net_write nf f s fd buf)
  unfolding net_write
  net_write-LeavesValid f s fd buf v =
      let v₁ = fd_init-IsValid s v in
      elim (Option-cases (net_at (fd_init s).fdtab fd)) [
        | inl e ↦ rw (net_write, e) (errno-IsValid _ enotsock v₁)
        | inr (i, e) ↦ rw (net_write, e) (net_send-LeavesValid f (fd_init s) i buf v₁)
      ]

  pub net_read-LeavesValid :
      (f : ℕ) (s : Process W) (fd : ℤ) (n : ℕ)
      → IsValid s
      → LeavesValid behind_recv (net_read nf f s fd n)
  unfolding net_read
  net_read-LeavesValid f s fd n v =
      let v₁ = fd_init-IsValid s v in
      elim (Option-cases (net_at (fd_init s).fdtab fd)) [
        | inl e ↦ rw (net_read, e) (errno-IsValid _ enotsock v₁)
        | inr (i, e) ↦ rw (net_read, e) (net_recv-LeavesValid f (fd_init s) i n v₁)
      ]

  headers_on-IsValid :
      (s : Process W) (i : ℕ) (r : W × Bool)
      → IsValid s
      → i < fd_max
      → IsValid (headers_on nf s i r).0
  headers_on-IsValid s i (w, false) v l = world-IsValid s w v
  headers_on-IsValid s i (w, true) v l =
      let e = entry s.fdtab i in
      world-IsValid _ w (kind-IsValid s i (record e { flags = bit_or e.flags 2 }) v l refl)

  ensure_headers-IsValid :
      (s : Process W) (i : ℕ) → IsValid s → i < fd_max → IsValid (ensure_headers nf s i).0
  unfolding ensure_headers
  ensure_headers-IsValid s i v l = elim (Bool-cases (has_headers (entry s.fdtab i))) [
    | inl h ↦ rw (ensure_headers, h) v
    | inr h ↦ rw (ensure_headers, h) (headers_on-IsValid s i _ v l)
  ]

  sent_to-LeavesValid :
      (n : ℕ) (o : Option (Process W × ℤ))
      → LeavesValid behind_send o
      → LeavesValid behind_send (sent_to nf n o)
  sent_to-LeavesValid n none v = tt
  sent_to-LeavesValid n (some (s, negsuc m)) v = v
  sent_to-LeavesValid n (some (s, pos m)) v = v

  send_datagram-LeavesValid :
      (f i : ℕ) (buf : Bytes) (to : ℕ × ℕ) (r : Process W × Bool)
      → IsValid r.0
      → LeavesValid behind_send (send_datagram nf f i buf to r)
  send_datagram-LeavesValid f i buf to (s, false) v = errno-IsValid s einval v
  send_datagram-LeavesValid f i buf to (s, true) v =
      let bs = take 1474 buf in
      sent_to-LeavesValid (length bs) (net_send nf f s i (packet to bs))
        (net_send-LeavesValid f s i (packet to bs) v)

  sendto_slot-LeavesValid :
      (f : ℕ) (s : Process W) (i : ℕ) (buf : Bytes) (to : Option (Option (ℕ × ℕ)))
      → IsValid s
      → i < fd_max
      → LeavesValid behind_send (sendto_slot nf f s i buf to)
  sendto_slot-LeavesValid f s i buf none v l = net_send-LeavesValid f s i buf v
  sendto_slot-LeavesValid f s i buf (some none) v l = elim (Bool-cases (is_tcp (entry s.fdtab i))) [
    | inl t ↦ rw (sendto_slot, t) (net_send-LeavesValid f s i buf v)
    | inr t ↦ rw (sendto_slot, t) (errno-IsValid s einval v)
  ]
  sendto_slot-LeavesValid f s i buf (some (some to)) v l =
      elim (Bool-cases (is_tcp (entry s.fdtab i))) [
        | inl t ↦ rw (sendto_slot, t) (net_send-LeavesValid f s i buf v)
        | inr t ↦
            rw (sendto_slot, t)
              (send_datagram-LeavesValid f i buf to (ensure_headers nf s i)
                (ensure_headers-IsValid s i v l))
      ]

  pub sendto-LeavesValid :
      (f : ℕ) (s : Process W) (fd : ℤ) (buf : Bytes) (to : Option (Option (ℕ × ℕ)))
      → IsValid s
      → LeavesValid behind_send (sendto nf f s fd buf to)
  unfolding sendto
  sendto-LeavesValid f s fd buf to v =
      let v₁ = fd_init-IsValid s v in
      elim (Option-cases (net_at (fd_init s).fdtab fd)) [
        | inl e ↦ rw (sendto, e) (errno-IsValid _ enotsock v₁)
        | inr (i, e) ↦
            rw (sendto, e)
              (sendto_slot-LeavesValid f (fd_init s) i buf to v₁ (net_at-some _ fd i e))
      ]

  with_peer-LeavesValid :
      (o : Option (Process W × Option (Bytes × Bytes)))
      → LeavesValid behind_recv o
      → LeavesValid behind_recv (with_peer nf o)
  with_peer-LeavesValid none v = tt
  with_peer-LeavesValid (some (s, none)) v = v
  with_peer-LeavesValid (some (s, some (hdr, bs))) v = v

  without_peer-LeavesValid :
      (o : Option (Process W × Option (Bytes × Bytes)))
      → LeavesValid behind_recv o
      → LeavesValid behind_recv (without_peer nf o)
  without_peer-LeavesValid none v = tt
  without_peer-LeavesValid (some (s, none)) v = v
  without_peer-LeavesValid (some (s, some (hdr, bs))) v = v

  recv_datagram-LeavesValid :
      (f i n : ℕ) (r : Process W × Bool)
      → IsValid r.0
      → LeavesValid behind_recv (recv_datagram nf f i n r)
  recv_datagram-LeavesValid f i n (s, false) v = errno-IsValid s einval v
  recv_datagram-LeavesValid f i n (s, true) v =
      with_peer-LeavesValid (net_recv nf f s i n) (net_recv-LeavesValid f s i n v)

  pub recvfrom-LeavesValid :
      (f : ℕ) (s : Process W) (fd : ℤ) (n : ℕ)
      → IsValid s
      → LeavesValid behind_recv (recvfrom nf f s fd n)
  unfolding recvfrom
  recvfrom-LeavesValid f s fd n v =
      let v₁ = fd_init-IsValid s v in
      elim (Option-cases (net_at (fd_init s).fdtab fd)) [
        | inl e ↦ rw (recvfrom, e) (errno-IsValid _ enotsock v₁)
        | inr (i, e) ↦ elim (Bool-cases (is_tcp (entry (fd_init s).fdtab i))) [
          | inl t ↦
              rw (recvfrom, e, t)
                (without_peer-LeavesValid (net_recv nf f (fd_init s) i n)
                  (net_recv-LeavesValid f (fd_init s) i n v₁))
          | inr t ↦
              rw (recvfrom, e, t)
                (recv_datagram-LeavesValid f i n (ensure_headers nf (fd_init s) i)
                  (ensure_headers-IsValid (fd_init s) i v₁ (net_at-some _ fd i e)))
        ]
      ]
