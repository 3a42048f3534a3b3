-- ===== src/Core.antt =====
-- The domain types that every other crate shares (crates/core).
pub mod Error
pub mod Display
pub mod State
pub mod Float
pub mod Libs
pub mod Word
pub mod Backend
pub mod Model
pub mod Event
