-- ===== src/Tests.antt =====
-- Each theorem at a concrete input.
mod Data
pub mod Coro
pub mod Vless
pub mod Encryption
pub mod Vision
pub mod Socks5
pub mod Server
pub mod Config
pub mod Client
pub mod Program
pub mod Common
