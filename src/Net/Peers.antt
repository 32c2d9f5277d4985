-- ===== src/Net/Peers.antt =====
-- The rest of the calls of rc_socket.c on a descriptor: the ends of a conversation, and datagrams that
-- carry the address of the peer. The loops of net_send and net_recv take fuel.
use racccoon.Base.{
  ℕ, ◌+◌, ◌*◌, ◌/◌, ◌%◌, ◌^◌, ◌<◌, ◌≡◌, refl, ap₂, ◌==◌, ◌&&◌, ◌||◌, if◌then◌else◌, true, false,
  Bool, [], ◌∷◌, Option, none, some, length, take, drop, set, bit_or, arith,
}
use racccoon.Base.Int.{ℤ, pos, negsuc}
use racccoon.Posix.Server.{Bytes, Got, got, retry, failed, NetFiles}
use racccoon.Posix.Table.{einval, Fdent, Process, entry, fail, fd_init}
use racccoon.Net.Address.{parse_hostport}
use racccoon.Net.Conversations.{
  enotsock, enotconn, econnreset, text, is_tcp, has_headers, netpath, net_at, until_nul, ctl,
  send_loop, recv_loop, received,
}

-- The packet of sendto: the address and the port in network order, and the bytes.
abbrev pub packet : ℕ × ℕ → Bytes → Bytes
packet (ip, port) bs =
    ip / 2 ^ 24 % 256
    ∷ ip / 2 ^ 16 % 256
    ∷ ip / 2 ^ 8 % 256
    ∷ ip % 256
    ∷ port / 2 ^ 8 % 256
    ∷ port % 256
    ∷ bs

-- The address that recvfrom finds in a header of six bytes.
abbrev pub peer_of : Bytes → Option (ℕ × ℕ)
peer_of (a ∷ b ∷ c ∷ d ∷ h ∷ l ∷ []) = some (a * 2 ^ 24 + b * 2 ^ 16 + c * 2 ^ 8 + d, h * 2 ^ 8 + l)
peer_of _ = none

-- The header that sendto packs is the one that recvfrom takes apart, and the bytes are behind it.
peer_of-packet :
    (ip port : ℕ) (bs : Bytes)
    → ip < 2 ^ 32
    → port < 2 ^ 16
    → (peer_of (take 6 (packet (ip, port) bs)) ≡ some (ip, port))
      × (drop 6 (packet (ip, port) bs) ≡ bs)
peer_of-packet ip port bs h g = (
  ap₂ (λ a p. some (a, p))
      {x = ip / 2 ^ 24 % 256 * 2 ^ 24
        + ip / 2 ^ 16 % 256 * 2 ^ 16
        + ip / 2 ^ 8 % 256 * 2 ^ 8
        + ip % 256}
      (omega arith) (omega arith),
  refl,
)

module _ {World : Type 0} (nf : NetFiles World) where
  open nf use {read_file}

  -- shutdown; the value of SHUT_WR is 1, that of SHUT_RDWR 2
  unfoldable pub shutdown : Process World → ℤ → ℕ → Process World × ℤ
  shutdown s₀ fd how =
      let s = fd_init s₀ in
      elim (net_at s.fdtab fd) [
        | none ↦ fail s enotsock
        | some i ↦
            let e = entry s.fdtab i in
            if (how == 1 || how == 2) && is_tcp e
            then (record s { world = (ctl nf s.world e.path (text "close")).0 }, pos 0)
            else (s, pos 0)
      ]

  -- read_addr
  abbrev pub addr_of : Got → Option (ℕ × ℕ)
  addr_of retry = none
  addr_of failed = none
  addr_of (got []) = none
  addr_of (got (c ∷ bs)) = parse_hostport (until_nul (c ∷ bs))

  unfoldable pub read_addr : World → Bytes → Bytes → World × Option (ℕ × ℕ)
  read_addr w dir name = let (w', r) = read_file w (netpath dir name) 47 in (w', addr_of r)

  -- getsockname and getpeername: the address, or the errno
  abbrev pub named : Process World → ℕ → World × Option (ℕ × ℕ) → Process World × Option (ℕ × ℕ)
  named s e (w, none) = (record s { world = w; errno = e }, none)
  named s e (w, some a) = (record s { world = w }, some a)

  unfoldable pub getsockname : Process World → ℤ → Process World × Option (ℕ × ℕ)
  getsockname s₀ fd =
      let s = fd_init s₀ in
      elim (net_at s.fdtab fd) [
        | none ↦ (record s { errno = enotsock }, none)
        | some i ↦ named s einval (read_addr s.world (entry s.fdtab i).path (text "local"))
      ]

  abbrev pub not_zero : World × Option (ℕ × ℕ) → World × Option (ℕ × ℕ)
  not_zero (w, none) = (w, none)
  not_zero (w, some (ip, p)) = (w, if ip == 0 then none else some (ip, p))

  unfoldable pub getpeername : Process World → ℤ → Process World × Option (ℕ × ℕ)
  getpeername s₀ fd =
      let s = fd_init s₀ in
      elim (net_at s.fdtab fd) [
        | none ↦ (record s { errno = enotsock }, none)
        | some i ↦
            named s enotconn (not_zero (read_addr s.world (entry s.fdtab i).path (text "remote")))
      ]

  -- net_send and net_recv on the slot `i`; the second returns the header and the bytes behind it.
  abbrev pub send_result :
      Process World → Fdent → Option (World × Option ℕ) → Option (Process World × ℤ)
  send_result s e none = none
  send_result s e (some (w, none)) =
      some (fail (record s { world = w }) (if is_tcp e then econnreset else einval))
  send_result s e (some (w, some n)) = some (record s { world = w }, pos n)

  unfoldable pub net_send : ℕ → Process World → ℕ → Bytes → Option (Process World × ℤ)
  net_send f s i buf = let e = entry s.fdtab i in send_result s e (send_loop nf f s.world e buf 0)

  abbrev pub recv_result :
      Process World
      → Fdent
      → Option (World × Option Bytes)
      → Option (Process World × Option (Bytes × Bytes))
  recv_result s e none = none
  recv_result s e (some (w, none)) = some (record s { world = w; errno = econnreset }, none)
  recv_result s e (some (w, some bs)) = some (record s { world = w }, some (received nf e bs))

  unfoldable pub net_recv :
      ℕ → Process World → ℕ → ℕ → Option (Process World × Option (Bytes × Bytes))
  net_recv f s i n =
      let e = entry s.fdtab i in
      recv_result s e (recv_loop nf f s.world e (n + (if has_headers e then 6 else 0)))

  -- __rc_net_write and __rc_net_read, which are send and recv
  unfoldable pub net_write : ℕ → Process World → ℤ → Bytes → Option (Process World × ℤ)
  net_write f s₀ fd buf =
      let s = fd_init s₀ in
      elim (net_at s.fdtab fd) [ none ↦ some (fail s enotsock) | some i ↦ net_send f s i buf ]

  unfoldable pub net_read :
      ℕ → Process World → ℤ → ℕ → Option (Process World × Option (Bytes × Bytes))
  net_read f s₀ fd n =
      let s = fd_init s₀ in
      elim (net_at s.fdtab fd) [
        | none ↦ some (record s { errno = enotsock }, none)
        | some i ↦ net_recv f s i n
      ]

  -- ensure_headers
  abbrev pub headers_on : Process World → ℕ → World × Bool → Process World × Bool
  headers_on s i (w, false) = (record s { world = w }, false)
  headers_on s i (w, true) =
      let e = entry s.fdtab i in
      (record s { fdtab = set s.fdtab i (record e { flags = bit_or e.flags 2 }); world = w }, true)

  unfoldable pub ensure_headers : Process World → ℕ → Process World × Bool
  ensure_headers s i =
      let e = entry s.fdtab i in
      if has_headers e then (s, true) else headers_on s i (ctl nf s.world e.path (text "headers"))

  -- sendto; `to` is none where it is null, and the address in it none where that is short
  abbrev pub sent_to : ℕ → Option (Process World × ℤ) → Option (Process World × ℤ)
  sent_to n none = none
  sent_to n (some (s, negsuc m)) = some (s, negsuc 0)
  sent_to n (some (s, pos m)) = some (s, pos n)

  abbrev pub send_datagram :
      ℕ → ℕ → Bytes → ℕ × ℕ → Process World × Bool → Option (Process World × ℤ)
  send_datagram f i buf to (s, false) = some (fail s einval)
  send_datagram f i buf to (s, true) =
      let bs = take 1474 buf in sent_to (length bs) (net_send f s i (packet to bs))

  abbrev pub sendto_slot :
      ℕ → Process World → ℕ → Bytes → Option (Option (ℕ × ℕ)) → Option (Process World × ℤ)
  sendto_slot f s i buf none = net_send f s i buf
  sendto_slot f s i buf (some none) =
      if is_tcp (entry s.fdtab i) then net_send f s i buf else some (fail s einval)
  sendto_slot f s i buf (some (some to)) =
      if is_tcp (entry s.fdtab i)
      then net_send f s i buf
      else send_datagram f i buf to (ensure_headers s i)

  unfoldable pub sendto :
      ℕ → Process World → ℤ → Bytes → Option (Option (ℕ × ℕ)) → Option (Process World × ℤ)
  sendto f s₀ fd buf to =
      let s = fd_init s₀ in
      elim (net_at s.fdtab fd) [ none ↦ some (fail s enotsock) | some i ↦ sendto_slot f s i buf to ]

  -- recvfrom: the address of the peer of a datagram, and the bytes. The source takes the address of a
  -- datagram without a header from memory that is not set; here it is none.
  abbrev pub with_peer :
      Option (Process World × Option (Bytes × Bytes))
      → Option (Process World × Option (Option (ℕ × ℕ) × Bytes))
  with_peer none = none
  with_peer (some (s, none)) = some (s, none)
  with_peer (some (s, some (hdr, bs))) = some (s, some (peer_of hdr, bs))

  abbrev pub recv_datagram :
      ℕ → ℕ → ℕ → Process World × Bool → Option (Process World × Option (Option (ℕ × ℕ) × Bytes))
  recv_datagram f i n (s, false) = some (record s { errno = einval }, none)
  recv_datagram f i n (s, true) = with_peer (net_recv f s i n)

  abbrev pub without_peer :
      Option (Process World × Option (Bytes × Bytes))
      → Option (Process World × Option (Option (ℕ × ℕ) × Bytes))
  without_peer none = none
  without_peer (some (s, none)) = some (s, none)
  without_peer (some (s, some (hdr, bs))) = some (s, some (none, bs))

  unfoldable pub recvfrom :
      ℕ → Process World → ℤ → ℕ → Option (Process World × Option (Option (ℕ × ℕ) × Bytes))
  recvfrom f s₀ fd n =
      let s = fd_init s₀ in
      elim (net_at s.fdtab fd) [
        | none ↦ some (record s { errno = enotsock }, none)
        | some i ↦
            if is_tcp (entry s.fdtab i)
            then without_peer (net_recv f s i n)
            else recv_datagram f i n (ensure_headers s i)
      ]
