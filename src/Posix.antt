-- ===== src/Posix.antt =====
-- lib/racccoon-libc/src/rc_posix.c: file descriptors over the path-based calls of rc_fs.c.
pub mod Server
pub mod Table
pub mod Transfer
pub mod Files
pub mod Kept
pub mod Wired
