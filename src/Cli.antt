-- ===== src/Cli.antt =====
-- The command line (binaries/cli).
pub mod Exit
pub mod Download
