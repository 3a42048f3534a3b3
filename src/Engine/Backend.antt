-- ===== src/Engine/Backend.antt =====
-- The engine as a backend of the manager (crates/download-engine/src/backend.rs).
pub mod Completion
use open_download_manager.Prelude.{ℕ, ◌≡◌, Bool, true, false, List, Option, none, some}
use open_download_manager.Core.Error.{Error, Result, ok, err}
use open_download_manager.Core.Libs.{Libs, SystemTime}
use open_download_manager.Core.Backend.{BackendTask, BackendOutcome}
use open_download_manager.Core.Model.{DownloadRequest, DownloadProgress}
use open_download_manager.Engine.Storage.{FileStorage}
use open_download_manager.Engine.Download.{Response, DownloadSummary, Ending, download}

abbrev pub default_max_redirects : ℕ
default_max_redirects = 10

abbrev pub is_some {ℓ} : {A : Type ℓ} → Option A → Bool
is_some none = false
is_some (some a) = true

unfoldable pub request_of : {L : Libs} → BackendTask L → DownloadRequest L
request_of task = record {
  url = task.url;
  output = task.destination;
  overwrite = task.overwrite;
  max_redirects = default_max_redirects;
}

unfoldable pub outcome_of : {L : Libs} → Result (DownloadSummary L) → Result (BackendOutcome L)
outcome_of (err e) = err e
outcome_of {L} (ok summary) = ok (record {
  downloaded_bytes = summary.total_bytes;
  total_bytes = some summary.total_bytes;
  backend_meta = L.null;
})

-- The answer, what the storage has become, and the reports.
unfoldable pub run :
    (S : FileStorage) {L : Libs} (windows : Bool) (at : SystemTime) (task : BackendTask L)
    → Result (Response L)
    → S.World
    → Result (BackendOutcome L) × (S.World × List DownloadProgress)
run S windows at task response w =
    let ending =
      download S windows task.overwrite (is_some task.cancel) (is_some task.progress) at
        (request_of task) response w in
    (outcome_of ending.0, ending.1)
