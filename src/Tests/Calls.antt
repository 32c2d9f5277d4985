-- ===== src/Tests/Calls.antt =====
-- The theorems on open, ftruncate and mkstemp, with the small file server.
use racccoon.Base.{ℕ, ◌+◌, ◌≤◌, ◌≡◌, refl, true, some, arith}
use racccoon.Base.Int.{pos, negsuc}
use racccoon.Posix.Server.{Bytes, Server}
use racccoon.Posix.Table.{einval, eexist, fd_init}
use racccoon.Posix.Transfer.{max_chunk}
use racccoon.Posix.Transfer.Total.{Returns}
use racccoon.Fs.Path.{abspath}
use racccoon.Posix.Files.{fill_template, template_chars, template_char, open_file, open_found}
use racccoon.Posix.Files.Opening.{IsOpened, open_file-IsOpened}
use racccoon.Posix.Files.Shrinking.{Fails, ftruncate, ftruncate-Returns, ftruncate-Fails}
use racccoon.Posix.Files.Temporary.{mkstemp, mkstemp-collision}
use racccoon.Tests.Files.{codes, one_file, hello_process}

open_file-IsOpened_example :
    IsOpened hello_process
      (abspath (codes "/") (codes "b"))
      66
      (open_file one_file hello_process (codes "b") 66)
open_file-IsOpened_example = open_file-IsOpened one_file hello_process (codes "b") 66 refl

ftruncate-Returns_example : Returns (ftruncate one_file hello_process (pos 3) (pos 7) true)
ftruncate-Returns_example = ftruncate-Returns one_file hello_process (pos 3) (pos 7) true

-- The same server with a longer file.
abbrev long_file : Server
long_file = record one_file { stat = λ w path. (w, some (record { size = 10000; kind = 0 })) }

takes_two :
    (w path bytes : Bytes) (off n : ℕ)
    → (long_file.write_at w path bytes off).1 ≡ some n
    → n ≤ max_chunk
takes_two w path bytes off n e = ground arith

ftruncate-Fails_example :
    Fails long_file (ftruncate long_file hello_process (pos 3) (pos 9000) true)
ftruncate-Fails_example =
    ftruncate-Fails long_file takes_two hello_process (pos 3) 9000 true 3
      (record { size = 10000; kind = 0 }) refl refl refl (omega arith) (omega arith)

filled_once : fill_template (codes "/aXXXXXX") 0 ≡ some (codes "/aaaaaaa")
unfolding fill_template template_chars template_char
filled_once = refl

collides :
    open_file one_file hello_process (codes "/aaaaaaa") (2 + 64 + 128)
    ≡ (record hello_process { errno = eexist }, negsuc 0)
unfolding open_file open_found fd_init
collides = refl

mkstemp-collision_example :
    mkstemp one_file 0 (λ k. k) hello_process (codes "/aXXXXXX")
    ≡ (record hello_process { errno = einval }, codes "/aaaaaaa", negsuc 0)
mkstemp-collision_example =
    mkstemp-collision one_file 0 (λ k. k) hello_process (record hello_process { errno = eexist })
      (codes "/aXXXXXX") (codes "/aaaaaaa") filled_once collides refl
