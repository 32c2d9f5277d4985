-- ===== src/Net/Conversations.antt =====
-- The socket calls of rc_socket.c on a descriptor, over the files of its conversation in /net. An
-- address is the pair of the address and the port, in host order; where a call takes one, `none` stands
-- for a null or short one or one of another family.
pub mod Sent
use racccoon.Base.{
  ℕ, zero, suc, ◌+◌, ◌-◌, ◌*◌, ◌/◌, ◌%◌, ◌^◌, min, ltb, leb, ◌==◌, ◌&&◌, ◌||◌, not, if◌then◌else◌,
  true, false, Bool, List, [], ◌∷◌, ◌++◌, Option, none, some, length, take, drop, set, bit_and,
  bit_or,
}
use racccoon.Base.Int.{ℤ, pos, negsuc}
use racccoon.Posix.Server.{Bytes, Got, got, retry, failed, NetFiles}
use racccoon.Posix.Table.{
  einval, Kind, free, console, file, net, Fdent, Process, entry, in_range, fail, fd_init,
}
use racccoon.Net.Address.{decimal, fmt_ip, parse_hostport}
use Prim.Native.Char.{code}
use Prim.Native.String.{String}

-- errno
abbrev pub enotsock : ℕ
enotsock = 88

abbrev pub eafnosupport : ℕ
eafnosupport = 97

abbrev pub eaddrinuse : ℕ
eaddrinuse = 98

abbrev pub econnreset : ℕ
econnreset = 104

abbrev pub enotconn : ℕ
enotconn = 107

abbrev pub etimedout : ℕ
etimedout = 110

abbrev pub econnrefused : ℕ
econnrefused = 111

-- The bytes of a literal.
abbrev pub text : String → Bytes
text String.[] = []
text (String.◌∷◌ c s) = code c ∷ text s

-- NETF_TCP and NETF_HEADERS in the flags of the descriptor
abbrev pub is_tcp : Fdent → Bool
is_tcp e = not (bit_and e.flags 1 == 0)

abbrev pub has_headers : Fdent → Bool
has_headers e = not (bit_and e.flags 2 == 0)

-- netpath
unfoldable pub netpath : Bytes → Bytes → Bytes
netpath dir name = let d = take 100 dir in d ++ (b'/' ∷ take (126 - (length d + 1)) name)

abbrev pub is_net : Kind → Bool
is_net net = true
is_net free = false
is_net console = false
is_net file = false

-- __rc_fd_net_dir, behind fd_init: the slot, unless it is none of a conversation
abbrev pub net_at : List Fdent → ℤ → Option ℕ
net_at t fd = elim (in_range fd) [
  | none ↦ none
  | some i ↦ if is_net (entry t i).kind then some i else none
]

-- status_state
abbrev pub behind_space : ℕ → Bytes → Bytes
behind_space zero p = p
behind_space (suc k) [] = []
behind_space (suc k) (c ∷ p) = if c == b' ' then behind_space k p else behind_space (suc k) p

-- The C string in some bytes.
abbrev pub until_nul : Bytes → Bytes
until_nul [] = []
until_nul (c ∷ s) = let rest = until_nul s in if c == 0 then [] else c ∷ rest

-- The state that /net reports: established, refused or closed, or another.
pub data State : Type 0 where
  established closed waiting : State

abbrev pub second_l : Bytes → State
second_l [] = waiting
second_l (d ∷ s) = if d == b'l' then closed else waiting

abbrev pub state_of : Bytes → State
state_of [] = waiting
state_of (c ∷ s) =
    if c == b'E'
    then established
    else if c == b'R'
    then closed
    else if c == b'C'
    then second_l s
    else waiting

module _ {World : Type 0} (nf : NetFiles World) where
  open nf use {read_file, write_file, sleep}

  -- ctl: whether it worked
  abbrev pub worked : World × Option ℕ → World × Bool
  worked (w, none) = (w, false)
  worked (w, some n) = (w, true)

  unfoldable pub ctl : World → Bytes → Bytes → World × Bool
  ctl w dir cmd = worked (write_file w (netpath dir (text "ctl")) cmd)

  abbrev pub done_or : Process World → ℕ → World × Bool → Process World × ℤ
  done_or s e (w, true) = (record s { world = w }, pos 0)
  done_or s e (w, false) = fail (record s { world = w }) e

  -- bind
  abbrev pub bind_slot : Process World → ℕ → Option (ℕ × ℕ) → Process World × ℤ
  bind_slot s i none = fail s einval
  bind_slot s i (some (ip, p)) =
      let e = entry s.fdtab i in
      let s' = record s { fdtab = set s.fdtab i (record e { off = p }) } in
      if p == 0
      then (s', pos 0)
      else done_or s' eaddrinuse (ctl s.world e.path (text "bind " ++ decimal p))

  unfoldable pub bind : Process World → ℤ → Option (ℕ × ℕ) → Process World × ℤ
  bind s₀ fd addr =
      let s = fd_init s₀ in
      elim (net_at s.fdtab fd) [ none ↦ fail s enotsock | some i ↦ bind_slot s i addr ]

  -- listen
  unfoldable pub listen : Process World → ℤ → Process World × ℤ
  listen s₀ fd =
      let s = fd_init s₀ in
      elim (net_at s.fdtab fd) [
        | none ↦ fail s enotsock
        | some i ↦
            let e = entry s.fdtab i in
            if e.off == 0
            then fail s eaddrinuse
            else done_or s eaddrinuse (ctl s.world e.path (text "announce " ++ decimal e.off))
      ]

  -- The loop of connect, of `k` rounds.
  unfoldable pub await : ℕ → Process World → Bytes → Process World × ℤ
  await zero s dir = fail s etimedout
  await (suc k) s dir =
      let (w, r) = read_file s.world (netpath dir (text "status")) 95 in
      elim r [
        | retry ↦ fail (record s { world = w }) etimedout
        | failed ↦ fail (record s { world = w }) etimedout
        | got st ↦ elim (state_of (behind_space 2 (until_nul st))) [
          | established ↦ (record s { world = w }, pos 0)
          | closed ↦ fail (record s { world = w }) econnrefused
          | waiting ↦ await k (record s { world = sleep w 100 }) dir
        ]
      ]

  -- connect
  abbrev pub connected : Fdent → Process World × Bool → Process World × ℤ
  connected e (s, false) = fail s econnrefused
  connected e (s, true) = if is_tcp e then await 1000 s e.path else (s, pos 0)

  abbrev pub connect_slot : Process World → ℕ → Option (ℕ × ℕ) → Process World × ℤ
  connect_slot s i none = fail s eafnosupport
  connect_slot s i (some (ip, port)) =
      let e = entry s.fdtab i in
      let (w, ok) = ctl s.world e.path (text "connect " ++ (fmt_ip ip ++ (b'!' ∷ decimal port))) in
      connected e (record s { world = w }, ok)

  unfoldable pub connect : Process World → ℤ → Option (ℕ × ℕ) → Process World × ℤ
  connect s₀ fd addr =
      let s = fd_init s₀ in
      elim (net_at s.fdtab fd) [ none ↦ fail s enotsock | some i ↦ connect_slot s i addr ]

  -- The loop of net_send over the bytes of `buf`, `done` of them sent: the world, and how many were
  -- sent, none where the first write failed. Another round follows a write that took nothing.
  unfoldable pub send_loop : ℕ → World → Fdent → Bytes → ℕ → Option (World × Option ℕ)
  send_loop zero w e buf done = none
  send_loop (suc f) w e buf done = elim (ltb done (length buf)) [
    | false ↦ some (w, some done)
    | true ↦
        let chunk = take (min (length buf - done) 8072) (drop done buf) in
        let (w', put) = write_file w (netpath e.path (text "data")) chunk in
        elim put [
          | none ↦ some (w', if done == 0 then none else some done)
          | some n ↦ elim n [
            | zero ↦ send_loop f (sleep w' 200) e buf done
            | suc m ↦ elim (is_tcp e) [
              | true ↦ send_loop f w' e buf (done + suc m)
              | false ↦ some (w', some (done + suc m))
            ]
          ]
        ]
  ]

  -- The loop of net_recv: `n` bytes at most, with the header of a datagram.
  unfoldable pub recv_loop : ℕ → World → Fdent → ℕ → Option (World × Option Bytes)
  recv_loop zero w e want = none
  recv_loop (suc f) w e want =
      let (w', r) = read_file w (netpath e.path (text "data")) (min want 8184) in
      elim r [
        | retry ↦ recv_loop f w' e want
        | failed ↦ some (w', none)
        | got bs ↦ some (w', some bs)
      ]

  -- What net_recv makes of the bytes: the header, and the rest; a datagram without a header is empty.
  abbrev pub received : Fdent → Bytes → Bytes × Bytes
  received e bs =
      if has_headers e
      then if ltb (length bs) 6 then ([], []) else (take 6 bs, drop 6 bs)
      else ([], bs)
