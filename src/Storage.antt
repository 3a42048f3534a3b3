-- ===== src/Storage.antt =====
-- Paths, file names and partial files (crates/storage).
pub mod Chars
pub mod Filename
pub mod Utf8
pub mod Path
pub mod Fs
pub mod PartFile
