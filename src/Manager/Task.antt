-- ===== src/Manager/Task.antt =====
-- The task of one download: `run_download` of crates/download-manager/src/manager.rs, up to the call
-- of the backend and from the backend's answer.
pub mod Sound
pub mod Ending
pub mod Shares
use open_download_manager.Prelude.{
  ℕ, Bool, true, false, String, List, [], ◌∷◌, Option, none, some, any, if◌then◌else◌, ◌==◌,
}
use open_download_manager.Prelude.HashMap
use open_download_manager.Core.Error.{Error, Result, ok, err}
use open_download_manager.Core.Display.{to_string}
use open_download_manager.Core.Libs.{Libs, SystemTime}
use open_download_manager.Core.State.{
  DownloadState, starting, downloading, paused, completed, failed, cancelled,
}
use open_download_manager.Core.Backend.{BackendKind, BackendTask, BackendOutcome, DownloadId}
use open_download_manager.Core.Event.{Event}
use open_download_manager.Manager.Queue.{retain_ne}
use open_download_manager.Manager.Bandwidth.{limiter_for}
use open_download_manager.Manager.Download.{Download, Host}
use open_download_manager.Manager.Inner.{
  ManagedDownload, ManagerInner, Notify, Outcome, publish, tick, set_downloads, count_active,
  is_active,
}
use open_download_manager.Manager.Transition.{transition_state, on_info, or_else}
use open_download_manager.Manager.Schedule.{schedule}
use open_download_manager.Manager.Calls.{kind_eq}

-- Where a task stands after its first part: its backend runs, or the task has ended.
pub data Prologue (H : Host) : Type 0 where
  runs : BackendTask H.libs → ManagerInner H → Prologue H
  ended : ManagerInner H → Prologue H

unfoldable pub outcome_info : {L : Libs} → SystemTime → BackendOutcome L → Download L → Download L
outcome_info now o d = record d {
  downloaded_bytes = o.downloaded_bytes;
  total_bytes = or_else o.total_bytes d.total_bytes;
  backend_meta = o.backend_meta;
  updated_at = now;
}

module _ {H : Host} where
  unfoldable pub end_task : DownloadId → ManagerInner H → ManagerInner H
  end_task id s = record s { running = retain_ne id s.running }

  -- `let _ = self.transition_state(…)`.
  abbrev pub attempt : DownloadId → DownloadState → Option String → ManagerInner H → ManagerInner H
  attempt id next e s = (transition_state id next e s).1

  unfoldable pub task_for :
      DownloadId → Notify → Download H.libs → ManagerInner H → BackendTask H.libs
  task_for id cancel dl s = record {
    id = id;
    url = dl.url;
    destination = dl.destination;
    overwrite = dl.overwrite;
    backend_meta = dl.backend_meta;
    progress = some id;
    cancel = some cancel;
    rate_limiter = limiter_for s.config.bandwidth (count_active s.downloads);
  }

  unfoldable pub run_active : DownloadId → Notify → Download H.libs → ManagerInner H → Prologue H
  run_active id cancel dl s =
      if any (kind_eq dl.backend) s.backends
      then runs (task_for id cancel dl s) s
      else ended
          (schedule (attempt id failed (some "no backend available for download") (end_task id s)))

  unfoldable pub run_prologue : DownloadId → Notify → ManagerInner H → Prologue H
  run_prologue id cancel s = elim (HashMap.get id s.downloads) [
    | none ↦ ended (end_task id s)
    | some md ↦
        if is_active md.info.state then run_active id cancel md.info s else ended (end_task id s)
  ]

  unfoldable pub note_outcome : DownloadId → BackendOutcome H.libs → ManagerInner H → ManagerInner H
  note_outcome id o s = elim (HashMap.get id s.downloads) [
    | none ↦ s
    | some _ ↦
        let f = outcome_info (H.clock s.ticks) o in
        set_downloads (HashMap.update id (on_info f) s.downloads) (tick s)
  ]

  -- The answer `Ok(outcome)`.
  unfoldable pub finish_ok : DownloadId → BackendOutcome H.libs → ManagerInner H → ManagerInner H
  finish_ok id o s = publish (Event.completed id) (attempt id completed none (note_outcome id o s))

  -- The answer `Err(e)`, with whether the user had asked for a pause.
  unfoldable pub finish_err : DownloadId → Error → Bool → ManagerInner H → ManagerInner H
  finish_err id Error.cancelled true s =
      publish (Event.paused id) (attempt id paused (some "paused by user") s)
  finish_err id Error.cancelled false s =
      publish (Event.cancelled id) (attempt id cancelled (some "cancelled by user") s)
  finish_err id e intended s =
      publish (Event.failed id (to_string e)) (attempt id failed (some (to_string e)) s)

  unfoldable pub take_intent : DownloadId → ManagerInner H → ManagerInner H
  take_intent id s = record s { pause_intents = retain_ne id s.pause_intents }

  unfoldable pub answered :
      DownloadId → Result (BackendOutcome H.libs) → ManagerInner H → ManagerInner H
  answered id (ok o) s = finish_ok id o s
  answered id (err e) s = finish_err id e (any (λ x. x == id) s.pause_intents) (take_intent id s)

  unfoldable pub run_epilogue :
      DownloadId → Result (BackendOutcome H.libs) → ManagerInner H → ManagerInner H
  unfolding answered
  run_epilogue id result s = schedule (answered id result (end_task id s))
