-- ===== src/Tests/Network.antt =====
-- Addresses and the messages of the resolver on small inputs.
use racccoon.Base.{
  ap, ap₂, take, min, ◌-◌, ◌<◌, length, suc, Option, ◌≡◌, refl, ◌==◌, if◌then◌else◌, [], ◌∷◌, ◌++◌,
  some, arith, Memory, store, ℕ,
}
use racccoon.Posix.Server.{Bytes, NetFiles, failed}
use racccoon.Posix.Table.{net, Fdent}
use racccoon.Net.Conversations.{send_loop}
use racccoon.Net.Conversations.Sent.{TakesSome, send_loop-sends}
use racccoon.Net.Address.{decimal, fmt_ip, parse_hostport, inet_aton, inet_ntop}
use racccoon.Net.Address.RoundTrip.{parse_hostport-fmt_ip, inet_aton-inet_ntop}
use racccoon.Net.Names.{first_label, name_loop, question, Reply, read_reply, found, word32}
use racccoon.Net.Names.Replies.{AgreeBelow, read_reply-same, read_reply-Returns}
use racccoon.Net.Names.Echoed.{Echoes, read_reply-found}
use racccoon.Stdlib.Numbers.{digit_char, utoa_loop, utoa}
use racccoon.Tests.Files.{codes}

parse_hostport-fmt_ip_example :
    parse_hostport (fmt_ip 2130706433 ++ (b'!' ∷ decimal 80)) ≡ some (2130706433, 80)
parse_hostport-fmt_ip_example = parse_hostport-fmt_ip 2130706433 80 (omega arith) (omega arith)

shown : inet_ntop 16777343 16 ≡ some (codes "127.0.0.1")
unfolding inet_ntop utoa utoa_loop digit_char
shown = refl

inet_aton-inet_ntop_example : inet_aton (codes "127.0.0.1") ≡ some 16777343
inet_aton-inet_ntop_example =
    inet_aton-inet_ntop 16777343 16 (codes "127.0.0.1") (omega arith) shown

abbrev no_answers : Memory
no_answers = λ a. 0

abbrev more_behind : Memory
more_behind = λ a. if a == 20 then 7 else 0

agree_below : AgreeBelow 16 no_answers more_behind
agree_below a h = ground arith

read_reply-same_example : read_reply 0 0 more_behind 16 ≡ read_reply 0 0 no_answers 16
read_reply-same_example = read_reply-same 16 no_answers more_behind agree_below 0 0

read_reply-Returns_example : (r : Reply) × (read_reply 0 0 no_answers 16 ≡ some r)
read_reply-Returns_example = read_reply-Returns no_answers 16 0 0

abbrev asked_bytes : Bytes
asked_bytes =
    0 ∷ 9 ∷ 1 ∷ 0 ∷ 0 ∷ 1 ∷ 0 ∷ 0 ∷ 0 ∷ 0 ∷ 0 ∷ 0 ∷ 2 ∷ b'r' ∷ b'c' ∷ 1 ∷ b'x' ∷ 0 ∷ 0 ∷ 1 ∷ 0 ∷ 1
    ∷ []

asked : question 9 (codes "rc.x") ≡ some asked_bytes
unfolding question name_loop first_label
asked = refl

-- A reply with one answer, 10.0.2.2.
abbrev reply_bytes : Bytes
reply_bytes =
    0 ∷ 9 ∷ 129 ∷ 128 ∷ 0 ∷ 1 ∷ 0 ∷ 1 ∷ 0 ∷ 0 ∷ 0 ∷ 0 ∷ 2 ∷ b'r' ∷ b'c' ∷ 1 ∷ b'x' ∷ 0 ∷ 0 ∷ 1 ∷ 0
    ∷ 1 ∷ 192 ∷ 12 ∷ 0 ∷ 1 ∷ 0 ∷ 1 ∷ 0 ∷ 0 ∷ 0 ∷ 60 ∷ 0 ∷ 4 ∷ 10 ∷ 0 ∷ 2 ∷ 2 ∷ []

abbrev reply_memory : Memory
reply_memory = store no_answers 0 reply_bytes

reply_memory-Echoes : Echoes reply_memory asked_bytes
reply_memory-Echoes =
    (refl, (refl, (refl, (refl, (refl, (refl, (refl, (refl, (refl, (refl, tt))))))))))

read_reply-found_example : read_reply 0 9 reply_memory 38 ≡ some (found (word32 reply_memory 34))
read_reply-found_example =
    read_reply-found 9 (codes "rc.x") asked_bytes reply_memory 38 0 asked refl refl refl
      reply_memory-Echoes refl
      (record { pointer = omega arith; type_a = refl; four_bytes = refl; inside = omega arith })

-- A connection that takes two bytes at a time; its world is what has gone into it.
abbrev two_bytes : NetFiles Bytes
two_bytes = record {
  read_file = λ w path n. (w, failed);
  write_file = λ w path bytes. (w ++ take 2 bytes, some (min 2 (length bytes)));
  sleep = λ w t. w;
}

abbrev tcp_fdent : Fdent
tcp_fdent = record { kind = net; flags = 1; off = 0; path = codes "/net/tcp/3" }

two_bytes-TakesSome : TakesSome two_bytes tcp_fdent (λ sent w. w ≡ sent)
two_bytes-TakesSome = record {
  takes = λ w sent chunk ok some_bytes. (
    min 2 (length chunk) - 1,
    ap {B = Option ℕ} (λ n. some n) (omega arith),
    omega arith,
    ap₂ (λ a b. a ++ b) ok (taken chunk some_bytes),
  );
}
  where
    taken : (c : Bytes) → 0 < length c → take 2 c ≡ take (suc (min 2 (length c) - 1)) c
    taken [] h = refl
    taken (x ∷ []) h = refl
    taken (x ∷ y ∷ c) h =
        ap (λ n. take n (x ∷ y ∷ c)) {x = 2} {y = suc (min 2 (length (x ∷ y ∷ c)) - 1)}
          (omega arith)

send_loop-sends_example :
    (w : Bytes) × (send_loop two_bytes 6 [] tcp_fdent (codes "hello") 0 ≡ some (w, some 5))
    × (w ≡ codes "hello")
send_loop-sends_example =
    send_loop-sends two_bytes tcp_fdent (λ sent w. w ≡ sent) two_bytes-TakesSome refl [] []
      (codes "hello") refl
