-- ===== src/Http.antt =====
-- The HTTP client (crates/http-client).
pub mod Text
pub mod Disposition
pub mod Client
