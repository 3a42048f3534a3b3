-- ===== src/Manager/Download.antt =====
-- The record of one download, and the store that keeps such records
-- (crates/download-manager/src/persistence.rs).
use open_download_manager.Prelude.{ℕ, Bool, String, List, Option}
use open_download_manager.Core.Error.{Result}
use open_download_manager.Core.Libs.{Libs, PathBuf, SystemTime}
use open_download_manager.Core.State.{DownloadState}
use open_download_manager.Core.Backend.{BackendKind, DownloadId}

pub record Download (L : Libs) : Type 0 where
  pub id : DownloadId
  pub url : L.Url
  pub destination : PathBuf
  pub backend : BackendKind
  pub state : DownloadState
  pub overwrite : Bool
  pub total_bytes : Option ℕ
  pub downloaded_bytes : ℕ
  pub created_at : SystemTime
  pub updated_at : SystemTime
  pub started_at : Option SystemTime
  pub completed_at : Option SystemTime
  pub error : Option String
  pub backend_meta : L.Value

-- What the manager uses of `Persistence`: a failing operation leaves the store as it was.
pub record Store (L : Libs) : Type 1 where
  pub Conn : Type 0
  pub save : Conn → Download L → Result Conn
  pub list : Conn → Result (List (Download L))
  pub remove : Conn → DownloadId → Result Conn

-- The host of a manager: its libraries, its store, and the readings of its clock.
pub record Host : Type 1 where
  pub libs : Libs
  pub store : Store libs
  pub clock : ℕ → SystemTime
