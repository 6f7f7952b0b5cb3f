-- ===== src/Socks5.antt =====
-- SOCKS5 as the client speaks it with applications (src/proxy/socks5/socks5.cpp).
pub mod Protocol
pub mod Parser
pub mod Datagram
