-- ===== src/Threads.antt =====
-- lib/racccoon-libc/src/rc_pthread.c: mutexes, once and the thread-specific data of the one thread
-- that a program has.
pub mod Mutex
pub mod Keys
