-- ===== src/Manager/Reach/Events.antt =====
-- The events that a manager publishes: its state changes and its scheduler.
pub mod Calls
pub mod Tasks
pub mod Told
use open_download_manager.Prelude.{
  ℕ, ◌≡◌, refl, ◌∙◌, ap, sym, Bool, true, false, List, [], ◌∷◌, ◌++◌, Option, none, some, arith,
  all, ◌&&◌, ◌==◌, leb, any, not, if◌then◌else◌, Bool-cases, Option-cases, inl, inr, zero, suc,
  length, String,
}
use open_download_manager.Prelude.HashMap
use open_download_manager.Core.Error.{Error, Result, ok, err, Result-cases}
use open_download_manager.Core.State.{
  DownloadState, queued, starting, downloading, paused, completed, failed, cancelled,
  is_valid_transition, transition, state_eq,
}
use open_download_manager.Core.State.Lifecycle.{transition-eq-ok}
use open_download_manager.Core.Backend.{DownloadId, BackendOutcome}
use open_download_manager.Core.Event.{Event}
use open_download_manager.Core.Model.{DownloadProgress}
use open_download_manager.Manager.Download.{Download, Host}
use open_download_manager.Manager.Inner.{
  ManagerInner, Outcome, Notify, publish, tick, set_downloads, unqueue, requeue, count_active,
  is_active, signal, notify,
}
use open_download_manager.Manager.Transition.{
  save_and_publish, transition_state, save_info, publish_progress, on_progress, mark, on_info,
}
use open_download_manager.Manager.Calls.{
  DownloadSpec, enqueue, admit, new_download, kind_eq, current, start, start_in, pause, pause_in,
  intend, resume, resume_in, retry, retry_in, cancel, cancel_in, drop_idle, and_then, remove,
  forget, shutdown,
}
use open_download_manager.Manager.Task.{
  Prologue, runs, run_prologue, ended, run_epilogue, answered, end_task, run_active, attempt,
  finish_ok, finish_err, note_outcome, take_intent,
}
use open_download_manager.Core.Display.{to_string}
use open_download_manager.Manager.Reach.{
  Step, enqueues, starts, pauses, resumes, cancels, retries, removes, shuts_down, gives_up,
  progresses, answers, Reach, here, next,
}
use open_download_manager.Manager.Schedule.{
  begun, begin_download, schedule, schedule_loop, to_start, spawn,
}

-- An event that tells of a state change tells of an edge of the lifecycle.
abbrev pub is_legal : Event → Bool
is_legal (Event.state_changed id from to) = is_valid_transition from to
is_legal _ = true

abbrev pub IsTold : {H : Host} → ManagerInner H → Type 0
IsTold s = all is_legal s.events ≡ true

pub all-snoc :
    (e : Event) (es : List Event)
    → all is_legal es ≡ true
    → is_legal e ≡ true
    → all is_legal (es ++ e ∷ []) ≡ true
all-snoc e [] h k = rw k refl
all-snoc e (x ∷ es) h k = ground (arith, all-snoc e es)

module _ {H : Host} where
  pub publish-IsTold :
      (e : Event) (s : ManagerInner H) → IsTold s → is_legal e ≡ true → IsTold (publish e s)
  unfolding publish
  publish-IsTold e s h k = all-snoc e s.events h k

  pub save_and_publish-IsTold :
      (id : DownloadId) (from to : DownloadState) (s : ManagerInner H)
      → IsTold s
      → is_valid_transition from to ≡ true
      → IsTold (save_and_publish id from to s).1
  unfolding save_and_publish
  save_and_publish-IsTold id from to s h k = elim (Option-cases (HashMap.get id s.downloads)) [
    | inl none_here ↦
        rw (none_here, save_and_publish) (publish-IsTold (Event.state_changed id from to) s h k)
    | inr (md, found) ↦ elim (Result-cases (H.store.save s.persistence md.info)) [
      | inl (c, saved) ↦
          rw (found, saved, save_and_publish)
            (publish-IsTold (Event.state_changed id from to) (record s { persistence = c }) h k)
      | inr (e, lost) ↦ rw (found, lost, save_and_publish) h
    ]
  ]

  pub transition_state-IsTold :
      (id : DownloadId) (to_state : DownloadState) (e : Option String) (s : ManagerInner H)
      → IsTold s
      → IsTold (transition_state id to_state e s).1
  unfolding transition_state tick set_downloads
  transition_state-IsTold id to_state e s h = elim (Option-cases (HashMap.get id s.downloads)) [
    | inl missing ↦ rw (missing, transition_state) h
    | inr (md, found) ↦ elim (Result-cases (transition md.info.state to_state)) [
      | inr (x, refused) ↦ rw (found, refused, transition_state) h
      | inl (to, moved) ↦
          let (valid, same) = transition-eq-ok md.info.state to_state to moved in
          rw (found, moved, transition_state)
            (save_and_publish-IsTold id md.info.state to _ h (rw same valid))
    ]
  ]

  save_info-events : (d : Download H.libs) (s : ManagerInner H) → (save_info d s).events ≡ s.events
  unfolding save_info
  save_info-events d s = ground arith

  pub publish_progress-IsTold :
      (id : DownloadId) (p : DownloadProgress) (was : DownloadState) (s : ManagerInner H)
      → IsTold s
      → IsTold (publish_progress id p was s)
  unfolding publish_progress is_valid_transition
  publish_progress-IsTold id p was s h =
      publish-IsTold (Event.progress id p.downloaded_bytes p.total_bytes) _
        (first (state_eq was starting)) refl
    where
      first :
          (b : Bool)
          → IsTold (if b then publish (Event.state_changed id starting downloading) s else s)
      first true = publish-IsTold (Event.state_changed id starting downloading) s h refl
      first false = h

  pub on_progress-IsTold :
      (id : DownloadId) (p : DownloadProgress) (s : ManagerInner H)
      → IsTold s
      → IsTold (on_progress id p s)
  unfolding on_progress tick set_downloads
  on_progress-IsTold id p s h = elim (Option-cases (HashMap.get id s.downloads)) [
    | inl missing ↦ rw (missing, on_progress) h
    | inr (md, found) ↦
        rw (found, on_progress)
          (publish_progress-IsTold id p md.info.state _
            (ap (all is_legal) (save_info-events _ _) ∙ h))
  ]

  pub begun-IsTold : (id : DownloadId) (r : Outcome H (Unit {0})) → IsTold r.1 → IsTold (begun id r)
  unfolding begun spawn
  begun-IsTold id (err e, s) h = h
  begun-IsTold id (ok _, s) h = publish-IsTold (Event.started id) s h refl

  pub begin_download-IsTold :
      (id : DownloadId) (s : ManagerInner H) → IsTold s → IsTold (begin_download id s)
  unfolding begin_download
  begin_download-IsTold id s h =
      begun-IsTold id (transition_state id starting none s)
        (transition_state-IsTold id starting none s h)

  pub schedule_loop-IsTold :
      (fuel : ℕ) (s : ManagerInner H) → IsTold s → IsTold (schedule_loop fuel s)
  unfolding schedule_loop
  schedule_loop-IsTold zero s h = h
  schedule_loop-IsTold (suc fuel) s h = elim (Option-cases (to_start s)) [
    | inl stop ↦ rw (stop, schedule_loop) h
    | inr (id, go) ↦
        rw (go, schedule_loop)
          (schedule_loop-IsTold fuel (begin_download id (unqueue id s))
            (begin_download-IsTold id (unqueue id s) (unqueue-IsTold id s h)))
  ]
    where
      unqueue-IsTold : (id : DownloadId) (s : ManagerInner H) → IsTold s → IsTold (unqueue id s)
      unqueue-IsTold id s h = unfold unqueue in h

  pub schedule-IsTold : (s : ManagerInner H) → IsTold s → IsTold (schedule s)
  unfolding schedule
  schedule-IsTold s h = schedule_loop-IsTold (suc (length s.queue.order)) s h
