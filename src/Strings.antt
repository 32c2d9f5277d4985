-- ===== src/Strings.antt =====
-- <string.h>: lib/racccoon-libc/src/string.c over the flat memory of `Base`. A function that the
-- source writes with pointers takes the memory first; one that stores returns the new memory, and
-- its result pointer is the destination that it was given. Addresses do not wrap round.
pub mod Move
pub mod Scan
pub mod Compare
pub mod Edit
