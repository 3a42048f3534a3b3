-- ===== src/Manager/Reach/Events/Tasks.antt =====
-- The events of the tasks of crates/download-manager/src/manager.rs.
use open_download_manager.Prelude.{
  ◌≡◌, refl, ◌∙◌, ap, Bool, true, false, none, some, arith, all, any, Bool-cases, Option-cases, inl,
  inr,
}
use open_download_manager.Prelude.HashMap
use open_download_manager.Core.Error.{Error, Result, ok, err}
use open_download_manager.Core.State.{paused, completed, failed, cancelled}
use open_download_manager.Core.Backend.{DownloadId, BackendOutcome}
use open_download_manager.Core.Event.{Event}
use open_download_manager.Manager.Download.{Download, Host}
use open_download_manager.Manager.Inner.{ManagerInner, Notify, tick, set_downloads, is_active}
use open_download_manager.Manager.Calls.{kind_eq}
use open_download_manager.Manager.Task.{
  Prologue, runs, run_prologue, ended, run_epilogue, answered, end_task, run_active, finish_ok,
  finish_err, note_outcome, take_intent,
}
use open_download_manager.Core.Display.{to_string}
use open_download_manager.Manager.Reach.Events.{
  is_legal, IsTold, publish-IsTold, transition_state-IsTold, schedule-IsTold,
}

module _ {H : Host} where
  abbrev left_by : Prologue H → ManagerInner H
  left_by (runs task s) = s
  left_by (ended s) = s

  pub run_active-IsTold :
      (id : DownloadId) (c : Notify) (d : Download H.libs) (s : ManagerInner H)
      → IsTold s
      → IsTold (left_by (run_active id c d s))
  unfolding run_active end_task
  run_active-IsTold id c d s h = elim (Bool-cases (any (kind_eq d.backend) s.backends)) [
    | inl known ↦ rw (known, run_active) h
    | inr unknown ↦
        rw (unknown, run_active)
          (schedule-IsTold _ (
            transition_state-IsTold id failed (some "no backend available for download")
              (end_task id s) h))
  ]

  pub run_prologue-IsTold :
      (id : DownloadId) (c : Notify) (s t : ManagerInner H)
      → IsTold s
      → run_prologue id c s ≡ ended t
      → IsTold t
  run_prologue-IsTold id c s t h e = rw e at told
    where
      told : IsTold (left_by (run_prologue id c s))
      told =
          unfold run_prologue end_task in
          elim (Option-cases (HashMap.get id s.downloads)) [
            | inl missing ↦ rw (missing, run_prologue) h
            | inr (md, found) ↦ elim (Bool-cases (is_active md.info.state)) [
              | inl active ↦ rw (found, active, run_prologue) (run_active-IsTold id c md.info s h)
              | inr idle ↦ rw (found, idle, run_prologue) h
            ]
          ]

  note_outcome-events :
      (id : DownloadId) (o : BackendOutcome H.libs) (s : ManagerInner H)
      → (note_outcome id o s).events ≡ s.events
  unfolding note_outcome set_downloads tick
  note_outcome-events id o s = ground arith

  pub finish_err-IsTold :
      (id : DownloadId) (e : Error) (b : Bool) (s : ManagerInner H)
      → IsTold s
      → IsTold (finish_err id e b s)
  unfolding finish_err
  finish_err-IsTold id Error.cancelled true s h =
      publish-IsTold (Event.paused id) _
        (transition_state-IsTold id paused (some "paused by user") s h) refl
  finish_err-IsTold id Error.cancelled false s h =
      publish-IsTold (Event.cancelled id) _
        (transition_state-IsTold id cancelled (some "cancelled by user") s h) refl
  finish_err-IsTold id e b s h =
      publish-IsTold (Event.failed id (to_string e)) _
        (transition_state-IsTold id failed (some (to_string e)) s h) refl

  pub answered-IsTold :
      (id : DownloadId) (r : Result (BackendOutcome H.libs)) (s : ManagerInner H)
      → IsTold s
      → IsTold (answered id r s)
  unfolding answered finish_ok take_intent
  answered-IsTold id (ok o) s h =
      publish-IsTold (Event.completed id) _
        (transition_state-IsTold id completed none (note_outcome id o s)
          (ap (all is_legal) (note_outcome-events id o s) ∙ h))
        refl
  answered-IsTold id (err e) s h = finish_err-IsTold id e _ (take_intent id s) h

  pub run_epilogue-IsTold :
      (id : DownloadId) (r : Result (BackendOutcome H.libs)) (s : ManagerInner H)
      → IsTold s
      → IsTold (run_epilogue id r s)
  unfolding run_epilogue end_task
  run_epilogue-IsTold id r s h =
      schedule-IsTold (answered id r (end_task id s)) (answered-IsTold id r (end_task id s) h)
