-- ===== src/Fs.antt =====
-- lib/racccoon-libc/src/rc_fs.c, the client of the file servers.
pub mod Path
pub mod Wire
