-- ===== src/Manager/Task/Sound.antt =====
-- The tasks and their progress reports keep the manager's invariant.
use open_download_manager.Prelude.{
  ◌≡◌, refl, inl, inr, Bool, true, false, String, Option, none, arith, ◌==◌, Bool-cases,
  Option-cases, any,
}
use open_download_manager.Prelude.HashMap
use open_download_manager.Core.Error.{Error, Result, ok, err}
use open_download_manager.Core.Libs.{SystemTime}
use open_download_manager.Core.State.{DownloadState, queued, paused, completed, failed, cancelled}
use open_download_manager.Core.Backend.{DownloadId, BackendOutcome}
use open_download_manager.Core.Model.{DownloadProgress}
use open_download_manager.Manager.Download.{Download, Host}
use open_download_manager.Manager.Queue.Laws.{has, has-retain_ne}
use open_download_manager.Manager.Inner.{
  ManagedDownload, ManagerInner, Notify, is_active, publish, tick, set_downloads,
}
use open_download_manager.Manager.Transition.{on_info, progressed, on_progress}
use open_download_manager.Manager.Transition.Effect.{
  Frame, on_progress-Frame, on_progress-downloads,
}
use open_download_manager.Manager.Invariant.{IsSound, state_of, may_run}
use open_download_manager.Manager.Invariant.Steps.{end-Inv, update-Inv}
use open_download_manager.Manager.Schedule.Invariant.{transition_state-IsSound, schedule_lem}
use open_download_manager.Manager.Calls.{kind_eq}
use open_download_manager.Manager.Task.{
  Prologue, runs, ended, outcome_info, end_task, attempt, run_active, run_prologue, note_outcome,
  finish_ok, finish_err, take_intent, answered, run_epilogue,
}

module _ {H : Host} (id : DownloadId) where
  end_task-IsSound :
      (s : ManagerInner H)
      → IsSound s
      → IsSound (end_task id s) × (has id (end_task id s).running ≡ false)
  unfolding end_task
  end_task-IsSound s v =
      let here : (id == id) ≡ true = ground arith in
      (end-Inv id v, rw (has-retain_ne id id s.running, here))

  -- A download that may still have a task is not in the queue.
  not_queued :
      (s : ManagerInner H)
      → IsSound s
      → may_run (state_of id s.downloads) ≡ true
      → has id s.queue.order ≡ false
  not_queued s v tasked = elim (Bool-cases (has id s.queue.order)) [
    | inl waits ↦ absurd (ground (arith, v.waiting id waits))
    | inr absent ↦ absent
  ]

  pub on_progress-IsSound :
      (p : DownloadProgress) (s : ManagerInner H) → IsSound s → IsSound (on_progress id p s)
  on_progress-IsSound p s v =
      let f : Frame s (on_progress id p s) = on_progress-Frame id p s in
      rw (f.config, f.queue, f.running)
        (elim (on_progress-downloads id p s) [
          | inl same ↦ rw same v
          | inr (md, now, found, same) ↦
              rw same (update-Inv id v (on_info (progressed now p)) (λ md. keeps now md))
        ])
    where
      keeps :
          (now : SystemTime) (md : ManagedDownload H.libs)
          → (is_active (on_info (progressed now p) md).info.state ≡ is_active md.info.state)
            × (md.info.state ≡ queued → (on_info (progressed now p) md).info.state ≡ queued)
      keeps now md = unfold on_info progressed in ground arith

  -- A move to an idle state after the end of the task.
  attempt-IsSound :
      (next : DownloadState) (e : Option String) (s : ManagerInner H)
      → is_active next ≡ false
      → IsSound s
      → has id s.running ≡ false
      → has id s.queue.order ≡ false
      → IsSound (attempt id next e s)
  attempt-IsSound next e s idle v task absent =
      transition_state-IsSound id next e s v (rw idle (omega (arith, v.capped))) absent (inl task)

  finish_err-IsSound :
      (e : Error) (intended : Bool) (s : ManagerInner H)
      → IsSound s
      → has id s.running ≡ false
      → has id s.queue.order ≡ false
      → IsSound (finish_err id e intended s)
  unfolding finish_err publish
  finish_err-IsSound Error.cancelled true s v task absent =
      attempt-IsSound paused _ s refl v task absent
  finish_err-IsSound Error.cancelled false s v task absent =
      attempt-IsSound cancelled _ s refl v task absent
  finish_err-IsSound e intended s v task absent = attempt-IsSound failed _ s refl v task absent

  note_outcome-IsSound :
      (o : BackendOutcome H.libs) (s : ManagerInner H)
      → IsSound s
      → has id s.running ≡ false
      → has id s.queue.order ≡ false
      → let t = note_outcome id o s in
        IsSound t × (has id t.running ≡ false) × (has id t.queue.order ≡ false)
  unfolding note_outcome set_downloads tick
  note_outcome-IsSound o s v task absent = elim (Option-cases (HashMap.get id s.downloads)) [
    | inl missing ↦ rw (missing, note_outcome) (v, task, absent)
    | inr (md, found) ↦
        rw (found, note_outcome)
          (update-Inv id v _ (λ md. unfold on_info outcome_info in (refl, λ h. h)), task, absent)
  ]

  answered-IsSound :
      (r : Result (BackendOutcome H.libs)) (s : ManagerInner H)
      → IsSound s
      → has id s.running ≡ false
      → has id s.queue.order ≡ false
      → IsSound (answered id r s)
  unfolding answered finish_ok take_intent publish
  answered-IsSound (ok o) s v task absent =
      let (w, t, a) = note_outcome-IsSound o s v task absent in
      attempt-IsSound completed none (note_outcome id o s) refl w t a
  answered-IsSound (err e) s v task absent = finish_err-IsSound e _ (take_intent id s) v task absent

  pub run_epilogue-IsSound :
      (r : Result (BackendOutcome H.libs)) (s : ManagerInner H)
      → IsSound s
      → has id s.running ≡ true
      → IsSound (run_epilogue id r s)
  unfolding run_epilogue end_task
  run_epilogue-IsSound r s v tasked =
      let (w, idle) = end_task-IsSound s v in
      (schedule_lem _).2
        (answered-IsSound r (end_task id s) w idle (not_queued s v (v.tasked id tasked)))

  -- The manager that the first part of a task leaves.
  abbrev left_by : Prologue H → ManagerInner H
  left_by (runs task s) = s
  left_by (ended s) = s

  run_active-IsSound :
      (c : Notify) (d : Download H.libs) (s : ManagerInner H)
      → IsSound s
      → has id s.running ≡ true
      → IsSound (left_by (run_active id c d s))
  unfolding run_active end_task
  run_active-IsSound c d s v tasked = elim (Bool-cases (any (kind_eq d.backend) s.backends)) [
    | inl known ↦ rw known v
    | inr missing ↦ rw missing (
        let (w, idle) = end_task-IsSound s v in
        (schedule_lem _).2 (
          attempt-IsSound failed _ (end_task id s) refl w idle
            (not_queued s v (v.tasked id tasked))))
  ]

  pub run_prologue-IsSound :
      (c : Notify) (s t : ManagerInner H)
      → IsSound s
      → has id s.running ≡ true
      → run_prologue id c s ≡ ended t
      → IsSound t
  run_prologue-IsSound c s t v tasked e = rw e at sound
    where
      sound : IsSound (left_by (run_prologue id c s))
      sound =
          unfold run_prologue in
          elim (Option-cases (HashMap.get id s.downloads)) [
            | inl missing ↦ rw (missing, run_prologue) ((end_task-IsSound s v).0)
            | inr (md, found) ↦ elim (Bool-cases (is_active md.info.state)) [
              | inl active ↦
                  rw (found, active, run_prologue) (run_active-IsSound c md.info s v tasked)
              | inr idle ↦ rw (found, idle, run_prologue) ((end_task-IsSound s v).0)
            ]
          ]
