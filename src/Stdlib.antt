-- ===== src/Stdlib.antt =====
-- <stdlib.h> and <ctype.h>: lib/racccoon-libc/src/stdlib.c, ctype.c and exit.c.
pub mod Characters
pub mod Numbers
pub mod Search
pub mod Sort
pub mod Exit
