-- ===== src/Net/Names.antt =====
-- The messages of the resolver, dns_query of rc_socket.c: the question that it sends, and what it finds
-- in a reply. A name is the list of its bytes before the NUL; the reply is `len` bytes of a memory at
-- address 0.
pub mod Replies
pub mod Echoed
use racccoon.Base.{
  ℕ, zero, suc, ◌+◌, ◌-◌, ◌*◌, ◌/◌, ◌%◌, ◌^◌, ltb, leb, ◌==◌, ◌&&◌, ◌||◌, not, if◌then◌else◌, true,
  false, Bool, List, [], ◌∷◌, ◌++◌, Option, none, some, length, replicate, Memory,
}
use racccoon.Posix.Server.{Bytes}

-- The label up to a dot, and what follows the label and its dot.
abbrev pub label_with : ℕ → Bytes × Bytes → Bytes × Bytes
label_with c (l, r) = (c ∷ l, r)

unfoldable pub first_label : Bytes → Bytes × Bytes
first_label [] = ([], [])
first_label (c ∷ s) = let rest = first_label s in if c == b'.' then ([], s) else label_with c rest

-- The loop over the labels of the name, and the end of the question: the root, type A, class IN.
unfoldable pub name_loop : ℕ → Bytes → Bytes → Option Bytes
name_loop zero s q = none
name_loop (suc f) [] q = some (q ++ (0 ∷ 0 ∷ 1 ∷ 0 ∷ 1 ∷ []))
name_loop (suc f) (c ∷ s) q =
    let (l, r) = first_label (c ∷ s) in
    let rest = name_loop f r (q ++ (length l ∷ l)) in
    if length l == 0 || ltb 63 (length l) || ltb 290 (length q + length l + 6) then none else rest

-- The question, none where the name is none that can be asked for; a label takes a byte of the name at
-- least.
unfoldable pub question : ℕ → Bytes → Option Bytes
question id name =
    name_loop (suc (length name)) name (id / 2 ^ 8 % 256 ∷ id % 256 ∷ 1 ∷ 0 ∷ 0 ∷ 1 ∷ replicate 6 0)

-- What dns_skip returns: -1, or the place behind a name.
pub data Skipped : Type 0 where
  lost : Skipped
  behind : ℕ → Skipped

-- dns_skip; each round goes on by a byte at least, so as many rounds as the reply has bytes, and one,
-- are enough.
unfoldable pub dns_skip : ℕ → Memory → ℕ → ℕ → Option Skipped
dns_skip zero m len at = none
dns_skip (suc f) m len at =
    let rest = dns_skip f m len (at + (m at + 1)) in
    if not (ltb at len)
    then some lost
    else if m at == 0
    then some (behind (at + 1))
    else if leb 192 (m at)
    then some (behind (at + 2))
    else rest

abbrev pub word16 : Memory → ℕ → ℕ
word16 m at = m at * 256 + m (at + 1)

abbrev pub word32 : Memory → ℕ → ℕ
word32 m at = m at * 2 ^ 24 + m (at + 1) * 2 ^ 16 + m (at + 2) * 2 ^ 8 + m (at + 3)

-- The answer whose fields are at `t`: an address, or what the answers behind it come to.
abbrev pub answer : Memory → ℕ → ℕ → Option (Option ℕ) → Option (Option ℕ)
answer m len t rest =
    if word16 m t == 1 && word16 m (t + 8) == 4 && leb (t + 14) len
    then some (some (word32 m (t + 10)))
    else rest

-- The loop over the answers, `k` of them left: the first address of type A.
unfoldable pub answers : Memory → ℕ → ℕ → ℕ → Option (Option ℕ)
answers m len zero at = some none
answers m len (suc k) at =
    if not (ltb 0 at && leb (at + 10) len) then some none else elim (dns_skip (suc len) m len at) [
      | none ↦ none
      | some s ↦ elim s [
        | lost ↦ some none
        | behind t ↦
            let rest = answers m len k (t + 10 + word16 m (t + 8)) in
            if ltb len (t + 10) then some none else answer m len t rest
      ]
    ]

-- What a reply comes to: the query is sent again, it fails, or there is an address.
pub data Reply : Type 0 where
  again : Reply
  refused : Reply
  found : ℕ → Reply

abbrev pub answered : Option (Option ℕ) → Option Reply
answered none = none
answered (some none) = some refused
answered (some (some ip)) = some (found ip)

abbrev pub after_question : Memory → ℕ → Option Skipped → Option Reply
after_question m len none = none
after_question m len (some lost) = some refused
after_question m len (some (behind at)) = answered (answers m len (word16 m 6) (at + 4))

-- The body of the loop over the attempts, for a reply to the question with the first bytes `q₀`, `q₁`.
unfoldable pub read_reply : ℕ → ℕ → Memory → ℕ → Option Reply
read_reply q₀ q₁ m len =
    if ltb len 12 || not (m 0 == q₀) || not (m 1 == q₁)
    then some again
    else if not (m 3 % 16 == 0)
    then some refused
    else after_question m len (dns_skip (suc len) m len 12)
