-- ===== src/Manager/Threads/Whole.antt =====
-- A call that runs to its end is a sequence of the steps of its thread.
use open_download_manager.Prelude.{
  ℕ, [], ◌++◌, zero, suc, ◌<◌, refl, inl, inr, Option, none, some, arith, Option-cases, Bool-cases,
  leb, length, ◌∷◌,
}
use open_download_manager.Core.Error.{ok, err}
use open_download_manager.Core.State.{
  DownloadState, queued, starting, downloading, paused, completed, failed, cancelled,
}
use open_download_manager.Core.Backend.{DownloadId}
use open_download_manager.Core.Event.{Event}
use open_download_manager.Manager.Download.{Host}
use open_download_manager.Manager.Inner.{
  ManagerInner, Notify, Outcome, publish, set_downloads, unqueue, requeue, signal, notify,
  count_active,
}
use open_download_manager.Manager.Transition.{transition_state}
use open_download_manager.Manager.Schedule.{
  with_cancel, with_handle, spawn, begun, begin_download, to_start, schedule_loop, schedule,
}
use open_download_manager.Manager.Schedule.Invariant.{to_start-some}
use open_download_manager.Manager.Calls.{
  start, start_in, intend, pause, pause_in, and_then, resume, resume_in, retry, retry_in, current,
}
use open_download_manager.Manager.Threads.{
  Shared, Atom, tests, begins, updates, moves, writes, Atoms, here, then,
}

module _ {H : Host} {n k : ℕ} (free : k < n) where
  -- From one state of the manager to another, with the room in hand as it was.
  abbrev pub Leads : ManagerInner H → ManagerInner H → Type 0
  Leads s t = Atoms n (s, k) (t, k)

  pub both : {x y z : Shared H} → Atoms n x y → Atoms n y z → Atoms n x z
  both a here = a
  both a (then b step) = then (both a b) step

  pub one : {x y : Shared H} → Atom n x y → Atoms n x y
  one step = then here step

  -- The task is spawned between two holds, which note its signal and its handle.
  spawn-Leads : (id : DownloadId) (s : ManagerInner H) → Leads s (spawn id s)
  unfolding spawn set_downloads
  spawn-Leads id s =
      let spawned : ManagerInner H = record s {
        next_notify = suc s.next_notify;
        next_handle = suc s.next_handle;
        running = s.running ++ id ∷ [];
      } in
      then
        (then (one (writes {t = spawned} refl refl))
          (updates id (with_cancel s.next_notify) (λ md. refl)))
        (updates id (with_handle s.next_handle) (λ md. refl))

  begun-Leads : (id : DownloadId) (r : Outcome H (Unit {0})) → Leads r.1 (begun id r)
  unfolding begun publish
  begun-Leads id (err e, s) = here
  begun-Leads id (ok _, s) =
      both (one (writes {t = publish (Event.started id) s} refl refl))
        (spawn-Leads id (publish (Event.started id) s))

  pub round-Leads :
      (id : DownloadId) (s : ManagerInner H)
      → count_active s.downloads < s.config.max_concurrent_downloads
      → Leads s (begin_download id (unqueue id s))
  unfolding begin_download unqueue
  round-Leads id s room =
      let tested = then (one (tests room free)) (writes {t = unqueue id s} refl refl) in
      both (then tested (begins id))
        (begun-Leads id (transition_state id starting none (unqueue id s)))

  schedule_loop-Leads : (fuel : ℕ) (s : ManagerInner H) → Leads s (schedule_loop fuel s)
  unfolding schedule_loop
  schedule_loop-Leads zero s = here
  schedule_loop-Leads (suc fuel) s = elim (Option-cases (to_start s)) [
    | inl stop ↦ rw (stop, schedule_loop) here
    | inr (id, go) ↦
        rw (go, schedule_loop)
          (both (round-Leads id s (to_start-some s id go).0)
            (schedule_loop-Leads fuel (begin_download id (unqueue id s))))
  ]

  pub schedule-Leads : (s : ManagerInner H) → Leads s (schedule s)
  unfolding schedule
  schedule-Leads s = schedule_loop-Leads (suc (length s.queue.order)) s

  start_in-Leads :
      (id : DownloadId) (st : Option DownloadState) (s : ManagerInner H)
      → Leads s (start_in id st s).1
  unfolding start_in
  start_in-Leads id (some queued) s =
      elim (Bool-cases (leb s.config.max_concurrent_downloads (count_active s.downloads))) [
        | inl full ↦ rw full here
        | inr room ↦ rw room (round-Leads id s (ground (arith, room)))
      ]
  start_in-Leads id (some starting) s = here
  start_in-Leads id (some downloading) s = here
  start_in-Leads id (some paused) s = here
  start_in-Leads id (some completed) s = here
  start_in-Leads id (some failed) s = here
  start_in-Leads id (some cancelled) s = here
  start_in-Leads id none s = here

  pub start-Leads : (id : DownloadId) (s : ManagerInner H) → Leads s (start id s).1
  unfolding start
  start-Leads id s = start_in-Leads id (current id s) s

  pub signal-Leads : (id : DownloadId) (s : ManagerInner H) → Leads s (signal id s)
  unfolding signal notify
  signal-Leads id s = go _
    where
      go : (c : Option Notify) → Leads s (notify c s)
      go none = here
      go (some c) = one (writes refl refl)

  intend-Leads : (id : DownloadId) (s : ManagerInner H) → Leads s (intend id s).1
  unfolding intend
  intend-Leads id s =
      both (one (writes {t = record s { pause_intents = id ∷ s.pause_intents }} refl refl))
        (signal-Leads id (record s { pause_intents = id ∷ s.pause_intents }))

  pause_in-Leads :
      (id : DownloadId) (st : Option DownloadState) (s : ManagerInner H)
      → Leads s (pause_in id st s).1
  unfolding pause_in
  pause_in-Leads id (some starting) s = intend-Leads id s
  pause_in-Leads id (some downloading) s = intend-Leads id s
  pause_in-Leads id (some queued) s = here
  pause_in-Leads id (some paused) s = here
  pause_in-Leads id (some completed) s = here
  pause_in-Leads id (some failed) s = here
  pause_in-Leads id (some cancelled) s = here
  pause_in-Leads id none s = here

  pub pause-Leads : (id : DownloadId) (s : ManagerInner H) → Leads s (pause id s).1
  unfolding pause
  pause-Leads id s = pause_in-Leads id (current id s) s

  pub and_then-Leads :
      (r : Outcome H (Unit {0})) (f : ManagerInner H → ManagerInner H)
      → ((t : ManagerInner H) → Leads t (f t))
      → Leads r.1 (and_then r f).1
  and_then-Leads (err e, s) f go = here
  and_then-Leads (ok _, s) f go = go s

  requeued-Leads :
      (id : DownloadId) (f : ManagerInner H → ManagerInner H)
      → ((t : ManagerInner H) → Leads t (f t))
      → (s : ManagerInner H) → Leads s (and_then (transition_state id queued none s) f).1
  requeued-Leads id f go s =
      both (one (moves id queued none refl))
        (and_then-Leads (transition_state id queued none s) f go)

  resume_in-Leads :
      (id : DownloadId) (st : Option DownloadState) (s : ManagerInner H)
      → Leads s (resume_in id st s).1
  unfolding resume_in publish requeue
  resume_in-Leads id (some paused) s =
      requeued-Leads id _
        (λ t.
          both (one (writes {t = publish (Event.resumed id) (requeue id t)} refl refl))
            (schedule-Leads (publish (Event.resumed id) (requeue id t))))
        s
  resume_in-Leads id (some starting) s = here
  resume_in-Leads id (some downloading) s = here
  resume_in-Leads id (some queued) s = here
  resume_in-Leads id (some completed) s = here
  resume_in-Leads id (some failed) s = here
  resume_in-Leads id (some cancelled) s = here
  resume_in-Leads id none s = here

  pub resume-Leads : (id : DownloadId) (s : ManagerInner H) → Leads s (resume id s).1
  unfolding resume
  resume-Leads id s = resume_in-Leads id (current id s) s

  retry_in-Leads :
      (id : DownloadId) (st : Option DownloadState) (s : ManagerInner H)
      → Leads s (retry_in id st s).1
  unfolding retry_in requeue
  retry_in-Leads id (some failed) s =
      requeued-Leads id _
        (λ t. both (one (writes {t = requeue id t} refl refl)) (schedule-Leads (requeue id t))) s
  retry_in-Leads id (some starting) s = here
  retry_in-Leads id (some downloading) s = here
  retry_in-Leads id (some queued) s = here
  retry_in-Leads id (some completed) s = here
  retry_in-Leads id (some paused) s = here
  retry_in-Leads id (some cancelled) s = here
  retry_in-Leads id none s = here

  pub retry-Leads : (id : DownloadId) (s : ManagerInner H) → Leads s (retry id s).1
  unfolding retry
  retry-Leads id s = retry_in-Leads id (current id s) s
