-- ===== src/Server.antt =====
-- The server's side of a connection (src/server).
pub mod UdpRelay
pub mod TcpRelay
pub mod Session
pub mod Lifecycle
pub mod EventLoop
pub mod EncryptedRelay
pub mod TargetTask
pub mod Connect
pub mod Handshake
