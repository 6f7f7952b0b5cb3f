-- ===== src/Vless.antt =====
-- The VLESS protocol (src/proxy/vless, include/proxy/vless): request and response headers.
pub mod Protocol
pub mod Validator
pub mod Decoder
pub mod Encoder
pub mod Encryption
