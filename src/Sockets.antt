-- ===== src/Sockets.antt =====
-- The sockets of the programs: src/socket_inet.c and src/socket_unix.c.
pub mod Inet
pub mod Unix
pub mod Opening
