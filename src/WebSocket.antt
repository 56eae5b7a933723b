-- ===== src/WebSocket.antt =====
-- WS.
pub mod Roots
pub mod Cert
pub mod Client
pub mod Cleaned
pub mod Trusted
pub mod Escaped
mod Examples
