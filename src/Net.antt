-- ===== src/Net.antt =====
-- lib/racccoon-libc/src/rc_socket.c: addresses, names and the conversations of /net.
pub mod Address
pub mod Names
pub mod Conversations
pub mod Peers
