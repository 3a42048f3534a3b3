-- ===== src/Manager/Threads/Calls.antt =====
-- The other calls that run to their end, and what a task does, as sequences of the steps of a thread.
use open_download_manager.Prelude.{
  ℕ, ◌<◌, ◌≡◌, refl, inl, inr, Bool, true, false, String, Option, none, some, Option-cases,
  Bool-cases, any,
}
use open_download_manager.Prelude.HashMap
use open_download_manager.Core.Error.{Error, Result, ok, err, Result-cases}
use open_download_manager.Core.State.{
  DownloadState, queued, starting, downloading, paused, completed, failed, cancelled,
}
use open_download_manager.Core.Backend.{BackendOutcome, DownloadId}
use open_download_manager.Core.Event.{Event}
use open_download_manager.Manager.Download.{Download, Host}
use open_download_manager.Manager.Inner.{ManagerInner, Notify, publish, tick, unqueue, is_active}
use open_download_manager.Manager.Transition.{transition_state}
use open_download_manager.Manager.Calls.{
  drop_idle, cancel, cancel_in, current, forget, remove, kind_eq, DownloadSpec, admit, new_download,
  enqueue,
}
use open_download_manager.Manager.Task.{
  Prologue, runs, ended, run_prologue, run_active, run_epilogue, answered, finish_ok, finish_err,
  take_intent, end_task, note_outcome,
}
use open_download_manager.Manager.Reach.{
  Step, enqueues, starts, pauses, resumes, cancels, retries, removes, shuts_down, gives_up,
  progresses, answers,
}
use open_download_manager.Manager.Threads.{moves, notes, admits, forgets, writes, Atoms, here, then}
use open_download_manager.Manager.Threads
use open_download_manager.Manager.Threads.Whole.{
  Leads, both, one, schedule-Leads, start-Leads, pause-Leads, resume-Leads, retry-Leads,
  signal-Leads, and_then-Leads,
}

module _ {H : Host} {n k : ℕ} (free : k < n) where
  -- A state change to a state that is not active, and what is published of it.
  settled-Leads :
      (id : DownloadId) (to : DownloadState) (e : Option String) (event : Event)
      (s : ManagerInner H)
      → is_active to ≡ false
      → Leads free s (publish event (transition_state id to e s).1)
  unfolding publish
  settled-Leads id to e event s idle = then (one free (moves id to e idle)) (writes refl refl)

  drop_idle-Leads : (id : DownloadId) (s : ManagerInner H) → Leads free s (drop_idle id s).1
  unfolding drop_idle unqueue publish
  drop_idle-Leads id s =
      both free
        (then (one free (writes {t = unqueue id s} refl refl))
          (moves id cancelled (some "cancelled by user") refl))
        (and_then-Leads free
          (transition_state id cancelled (some "cancelled by user") (unqueue id s))
          (publish (Event.cancelled id)) (λ t. one free (writes refl refl)))

  cancel_in-Leads :
      (id : DownloadId) (st : Option DownloadState) (s : ManagerInner H)
      → Leads free s (cancel_in id st s).1
  unfolding cancel_in
  cancel_in-Leads id (some starting) s = signal-Leads free id s
  cancel_in-Leads id (some downloading) s = signal-Leads free id s
  cancel_in-Leads id (some queued) s = drop_idle-Leads id s
  cancel_in-Leads id (some paused) s = drop_idle-Leads id s
  cancel_in-Leads id (some failed) s = drop_idle-Leads id s
  cancel_in-Leads id (some completed) s = here
  cancel_in-Leads id (some cancelled) s = here
  cancel_in-Leads id none s = here

  cancel-Leads : (id : DownloadId) (s : ManagerInner H) → Leads free s (cancel id s).1
  unfolding cancel
  cancel-Leads id s = cancel_in-Leads id (current id s) s

  remove-Leads : (id : DownloadId) (s : ManagerInner H) → Leads free s (remove id s).1
  unfolding remove
  remove-Leads id s = elim (Result-cases (H.store.remove (forget id s).persistence id)) [
    | inr (e, broken) ↦ rw (broken, remove) (one free (forgets id))
    | inl (c, fine) ↦
        rw (fine, remove)
          (both free
            (then (one free (forgets id))
              (writes {t = record (forget id s) { persistence = c }} refl refl))
            (schedule-Leads free (record (forget id s) { persistence = c })))
  ]

  enqueue-Leads :
      (id : DownloadId) (spec : DownloadSpec H.libs) (s : ManagerInner H)
      → HashMap.get id s.downloads ≡ none
      → Leads free s (enqueue id spec s).1
  unfolding enqueue tick new_download
  enqueue-Leads id spec s fresh = elim (Bool-cases (any (kind_eq spec.backend) s.backends)) [
    | inr missing ↦ rw (missing, enqueue) here
    | inl known ↦ elim (Result-cases (H.store.save s.persistence (new_download id spec s))) [
      | inr (e, broken) ↦ rw (known, broken, enqueue) (one free (writes refl refl))
      | inl (c, fine) ↦
          let saved : ManagerInner H = record (tick s) { persistence = c } in
          rw (known, fine, enqueue)
            (both free
              (then (one free (writes {t = saved} refl refl))
                (admits id (new_download id spec s) fresh refl))
              (schedule-Leads free (admit id (new_download id spec s) saved)))
    ]
  ]

  end_task-Leads : (id : DownloadId) (s : ManagerInner H) → Leads free s (end_task id s)
  unfolding end_task
  end_task-Leads id s = one free (writes refl refl)

  -- Where a task has ended before its backend ran, or would run.
  abbrev left_by : Prologue H → ManagerInner H
  left_by (runs task t) = t
  left_by (ended t) = t

  run_active-Leads :
      (id : DownloadId) (c : Notify) (d : Download H.libs) (s : ManagerInner H)
      → Leads free s (left_by (run_active id c d s))
  unfolding run_active
  run_active-Leads id c d s = elim (Bool-cases (any (kind_eq d.backend) s.backends)) [
    | inl known ↦ rw known here
    | inr missing ↦ rw missing (
        both free
          (then (end_task-Leads id s)
            (moves id failed (some "no backend available for download") refl))
          (schedule-Leads free _))
  ]

  run_prologue-Leads :
      (id : DownloadId) (c : Notify) (s : ManagerInner H)
      → Leads free s (left_by (run_prologue id c s))
  unfolding run_prologue
  run_prologue-Leads id c s = elim (Option-cases (HashMap.get id s.downloads)) [
    | inl missing ↦ rw (missing, run_prologue) (end_task-Leads id s)
    | inr (md, found) ↦ elim (Bool-cases (is_active md.info.state)) [
      | inl active ↦ rw (found, active, run_prologue) (run_active-Leads id c md.info s)
      | inr idle ↦ rw (found, idle, run_prologue) (end_task-Leads id s)
    ]
  ]

  finish_err-Leads :
      (id : DownloadId) (e : Error) (b : Bool) (s : ManagerInner H)
      → Leads free s (finish_err id e b s)
  unfolding finish_err
  finish_err-Leads id Error.cancelled true s = settled-Leads id paused _ _ s refl
  finish_err-Leads id Error.cancelled false s = settled-Leads id cancelled _ _ s refl
  finish_err-Leads id e b s = settled-Leads id failed _ _ s refl

  answered-Leads :
      (id : DownloadId) (r : Result (BackendOutcome H.libs)) (s : ManagerInner H)
      → Leads free s (answered id r s)
  unfolding answered finish_ok take_intent
  answered-Leads id (ok o) s =
      both free (one free (notes id o))
        (settled-Leads id completed none _ (note_outcome id o s) refl)
  answered-Leads id (err e) s =
      both free (one free (writes {t = take_intent id s} refl refl))
        (finish_err-Leads id e _ (take_intent id s))

  run_epilogue-Leads :
      (id : DownloadId) (r : Result (BackendOutcome H.libs)) (s : ManagerInner H)
      → Leads free s (run_epilogue id r s)
  unfolding run_epilogue
  run_epilogue-Leads id r s =
      both free (both free (end_task-Leads id s) (answered-Leads id r (end_task id s)))
        (schedule-Leads free (answered id r (end_task id s)))

  -- Every call, and every part of a task, is such a sequence.
  pub Step-Leads : {s t : ManagerInner H} → Step s t → Leads free s t
  Step-Leads {s = s} (enqueues id spec fresh) = enqueue-Leads id spec s fresh.0
  Step-Leads {s = s} (starts id) = start-Leads free id s
  Step-Leads {s = s} (pauses id) = pause-Leads free id s
  Step-Leads {s = s} (resumes id) = resume-Leads free id s
  Step-Leads {s = s} (cancels id) = cancel-Leads id s
  Step-Leads {s = s} (retries id) = retry-Leads free id s
  Step-Leads {s = s} (removes id) = remove-Leads id s
  Step-Leads shuts_down = one free Threads.shuts_down
  Step-Leads {s = s} (gives_up id c {t = t} tasked e) =
      let left : Leads free s (left_by (run_prologue id c s)) = run_prologue-Leads id c s in
      rw e at left
  Step-Leads (progresses id p tasked) = one free (Threads.progresses id p)
  Step-Leads {s = s} (answers id r tasked) = run_epilogue-Leads id r s
