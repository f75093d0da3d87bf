-- ===== src/Net.antt =====
-- src/net: the sockets. What the system's calls answer is an argument.
pub mod Tcp
pub mod Udp
