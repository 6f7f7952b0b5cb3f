-- ===== src/Vision.antt =====
-- The Vision flow (src/proxy/vless/vision.cpp): padding frames around the proxied bytes.
pub mod Context
pub mod Reader
pub mod TlsFilter
pub mod Records
pub mod Writer
pub mod RoundTrip
