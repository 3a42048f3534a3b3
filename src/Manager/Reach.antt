-- ===== src/Manager/Reach.antt =====
-- All that can happen to a manager whose calls run one after the other, as do the steps of its tasks:
-- each runs to its end before the next, in any order.
pub mod Sound
pub mod Events
use open_download_manager.Prelude.{ℕ, ◌≡◌, Bool, true, false, Option, none, some}
use open_download_manager.Prelude.HashMap
use open_download_manager.Core.Error.{Error, Result, ok, err}
use open_download_manager.Core.Backend.{BackendOutcome, BackendTask, DownloadId}
use open_download_manager.Core.Model.{DownloadProgress}
use open_download_manager.Manager.Download.{Host}
use open_download_manager.Manager.Queue.Laws.{has}
use open_download_manager.Manager.Inner.{ManagerInner, Notify}
use open_download_manager.Manager.Transition.{on_progress}
use open_download_manager.Manager.Calls.{
  DownloadSpec, enqueue, start, pause, resume, retry, cancel, remove, shutdown,
}
use open_download_manager.Manager.Task.{Prologue, runs, ended, run_prologue, run_epilogue}

-- A new id is none that the manager knows or still runs a task for.
abbrev pub IsFresh : {H : Host} → DownloadId → ManagerInner H → Type 0
IsFresh id s = (HashMap.get id s.downloads ≡ none) × (has id s.running ≡ false)

module _ {H : Host} where
  pub data Step (s : ManagerInner H) : ManagerInner H → Type 0 where
    enqueues :
        (id : DownloadId) (spec : DownloadSpec H.libs) → IsFresh id s → Step s (enqueue id spec s).1
    starts : (id : DownloadId) → Step s (start id s).1
    pauses : (id : DownloadId) → Step s (pause id s).1
    resumes : (id : DownloadId) → Step s (resume id s).1
    cancels : (id : DownloadId) → Step s (cancel id s).1
    retries : (id : DownloadId) → Step s (retry id s).1
    removes : (id : DownloadId) → Step s (remove id s).1
    shuts_down : Step s (shutdown s)
    gives_up :
        (id : DownloadId) (c : Notify) {t : ManagerInner H}
        → has id s.running ≡ true
        → run_prologue id c s ≡ ended t
        → Step s t
    progresses :
        (id : DownloadId) (p : DownloadProgress)
        → has id s.running ≡ true
        → Step s (on_progress id p s)
    answers :
        (id : DownloadId) (r : Result (BackendOutcome H.libs))
        → has id s.running ≡ true
        → Step s (run_epilogue id r s)

  pub data Reach (s : ManagerInner H) : ManagerInner H → Type 0 where
    here : Reach s s
    next : {t u : ManagerInner H} → Reach s t → Step t u → Reach s u
