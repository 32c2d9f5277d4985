-- ===== src/Lib.antt =====
-- racccoon-libc: the C library of racccoon.
--
-- The programs of racccoon that are written in C run on the library under lib/racccoon-libc. Its
-- sources, lib/racccoon-libc/src, are what is modelled here, as shallow definitions with the
-- constructors, branches and results of the C functions.
--
-- The layers and how they interact. The file functions of rc_fs.c send messages to the file
-- servers that the kernel finds for a path. rc_posix.c keeps a table of file descriptors over
-- them. stdio.c buffers streams over the descriptors, and printf.c writes to a stream or into a
-- string through a callback. The rest of the library works in the memory of the process.
--
-- Base: shared lists, integers, Boolean tests and the flat memory, from addresses to bytes.
-- Strings: string.c, over that memory. Strings.Move has the copies and fills with their word
-- loops, Strings.Scan the scans, Strings.Compare the comparisons, Strings.Edit what builds and
-- cuts strings.
-- Fs.Path: rc_normalize and __rc_abspath of rc_fs.c. The buffer of rc_normalize is the list of
-- its bytes, the last one first.
-- Fs.Wire: the messages of rc_fs.c to the file servers, over a record of the system calls,
-- `Kernel`. A message is the memory of its buffer; what the buffer holds before is a parameter,
-- since the source leaves it unset. Fs.Wire.Serving says what a server does that keeps to the
-- protocol.
-- Posix: rc_posix.c. Posix.Server is the interface to the layer below, a record that is a
-- parameter: the functions of rc_fs.c, the console and the files of the conversations, on a
-- world of their own. Posix.Table has `fdtab` and the calls on it alone, Posix.Transfer close,
-- read, write, lseek, pread and pwrite, Posix.Files the calls on paths, and Posix.Kept is about
-- what these and the calls on sockets do to the table. On a socket read, write and close run the
-- code of Net.Peers. Posix.Wired joins it to Fs.Wire.
-- Stdio: stdio.c, with the descriptor of a stream, and whether malloc has room for its buffer,
-- as the parameter `Device`.
-- Printf: printf.c, with the sink of the output as a parameter, and emit_str, the sink of
-- vsnprintf.
-- Stdlib: ctype.c, and of stdlib.c and exit.c the number conversions, bsearch, qsort and the
-- exit handlers.
-- Exec: exec, fork and waitpid of rc_proc.c, and in Exec.Start __libc_start of libc_start.c,
-- which reads what execve packs: Exec.Handover joins the two.
-- Net: of rc_socket.c, Net.Address the texts of addresses, Net.Names the question and the
-- replies of the resolver, and Net.Conversations and Net.Peers the calls on a conversation over
-- its files in /net, the record `NetFiles` of Posix.Server.
-- Environment: rc_env.c, `environ` as a list of entries; which allocations of a call succeed is
-- a parameter.
-- Threads: rc_pthread.c, the mutexes as a state machine with a step relation, and the keys.
-- Signals: rc_signal.c, the table of actions and what a note does.
-- Wide: the wide strings of wchar.c.
-- Tests: each result at a concrete input.
--
-- Numbers. Pointers and sizes are natural numbers that do not wrap round; an arithmetic that the
-- source relies on to wrap has its `% 2 ^ w` written out. A negative result that only tells of a
-- failure is `none` or -1.
--
-- Fuel. A loop that ends by a count recurs on the count. A loop that the file server, the device
-- or a NUL byte ends takes fuel, and its result is an option: read and write allow one round
-- more than they have bytes to move, because a round that moves none is the last; the loops of
-- string.c need one round more than the string has bytes; a round of rc_normalize and of vformat
-- takes at least one byte of its input away, so its length is enough; bsearch on n elements has
-- fuel n + 1, qsort n, and its partition as much as the elements that are left to scan;
-- load_image has one round more than the file has bytes; net_send has one round more than bytes
-- to send, where each write takes one at least, and net_recv as many as the caller of the model
-- or, below read and write, the record `Server` gives it, since it asks again for as long as the
-- server has nothing; dns_skip one more than the reply has bytes; a page of __rc_fs_list that is
-- not the last one has at least one entry, so as many rounds as the caller has room for, and
-- one, are enough.
--
-- Not modelled: the copies of musl (floatscan.c, fmt_fp.inc) and of dlmalloc; floating point is
-- a parameter of Printf and the results of malloc are parameters where a function tests them.
-- scanf.c, socket, accept and getaddrinfo of rc_socket.c, mmap, directory streams, poll, the
-- time functions, the assembly of start-up and the kernel, which is written in the c3 language.
pub mod Base
pub mod Environment
pub mod Exec
pub mod Fs
pub mod Net
pub mod Posix
pub mod Printf
pub mod Signals
pub mod Stdio
pub mod Stdlib
pub mod Strings
pub mod Tests
pub mod Threads
pub mod Wide
