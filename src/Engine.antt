-- ===== src/Engine.antt =====
-- The download engine (crates/download-engine).
pub mod Storage
pub mod Download
pub mod Naming
pub mod Backend
