-- ===== src/Manager/Recover/Restart.antt =====
-- A restart of the manager: persistence.rs and manager.rs of crates/download-manager/src together.
use mathlib.Core.List.{Memᴰ}
use mathlib.Core.List.Memᴰ
use open_download_manager.Prelude.{ℕ, List}
use open_download_manager.Core.Libs.{Libs, SystemTime}
use open_download_manager.Manager.Download.{Download, Host}
use open_download_manager.Manager.Persistence.{Sqlite, sqlite_store}

-- A manager that keeps its downloads in SQLite.
abbrev pub stored_host : Sqlite → Libs → (ℕ → SystemTime) → Host
stored_host S L clock = record { libs = L; store = sqlite_store S L; clock = clock }
