-- ===== src/Core/Event.antt =====
-- The lifecycle events of crates/core/src/events.rs.
use open_download_manager.Prelude.{ℕ, Option, String}
use open_download_manager.Core.Backend.{DownloadId}
use open_download_manager.Core.State.{DownloadState}

pub data Event : Type 0 where
  queued started : DownloadId → Event
  progress : (id : DownloadId) (downloaded_bytes : ℕ) (total_bytes : Option ℕ) → Event
  paused resumed completed : DownloadId → Event
  failed : (id : DownloadId) (error : String) → Event
  cancelled : DownloadId → Event
  state_changed : (id : DownloadId) (from to : DownloadState) → Event
