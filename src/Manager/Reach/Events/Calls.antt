-- ===== src/Manager/Reach/Events/Calls.antt =====
-- The events of the public calls of crates/download-manager/src/manager.rs.
use open_download_manager.Prelude.{
  refl, Bool, true, false, Option, none, some, arith, leb, any, if◌then◌else◌, Bool-cases, inl, inr,
}
use open_download_manager.Core.Error.{ok, err, Result-cases}
use open_download_manager.Core.State.{
  DownloadState, queued, starting, downloading, paused, failed, cancelled,
}
use open_download_manager.Core.Backend.{DownloadId}
use open_download_manager.Core.Event.{Event}
use open_download_manager.Manager.Download.{Host}
use open_download_manager.Manager.Inner.{
  ManagerInner, Outcome, publish, tick, set_downloads, unqueue, requeue, count_active, signal,
  notify,
}
use open_download_manager.Manager.Transition.{transition_state}
use open_download_manager.Manager.Calls.{
  DownloadSpec, enqueue, admit, new_download, kind_eq, current, start, start_in, pause, pause_in,
  intend, resume, resume_in, retry, retry_in, cancel, cancel_in, drop_idle, and_then, remove,
  forget,
}
use open_download_manager.Manager.Schedule.{begin_download}
use open_download_manager.Manager.Reach.Events.{
  IsTold, publish-IsTold, transition_state-IsTold, begin_download-IsTold, schedule-IsTold,
}

module _ {H : Host} where
  pub enqueue-IsTold :
      (id : DownloadId) (spec : DownloadSpec H.libs) (s : ManagerInner H)
      → IsTold s
      → IsTold (enqueue id spec s).1
  unfolding enqueue admit tick requeue set_downloads
  enqueue-IsTold id spec s h = elim (Bool-cases (any (kind_eq spec.backend) s.backends)) [
    | inr unknown ↦ rw (unknown, enqueue) h
    | inl known ↦ elim (Result-cases (H.store.save s.persistence (new_download id spec s))) [
      | inr (e, lost) ↦ rw (known, lost, enqueue) h
      | inl (c, saved) ↦
          rw (known, saved, enqueue) (schedule-IsTold _ (publish-IsTold (Event.queued id) _ h refl))
    ]
  ]

  pub start-IsTold : (id : DownloadId) (s : ManagerInner H) → IsTold s → IsTold (start id s).1
  unfolding start
  start-IsTold id s h = start_in-IsTold (current id s)
    where
      try :
          (b : Bool)
          → let r : Outcome H (Unit {0}) =
              if b then (ok tt, s) else (ok tt, begin_download id (unqueue id s)) in
            IsTold r.1
      try true = h
      try false = begin_download-IsTold id (unqueue id s) (unfold unqueue in h)

      start_in-IsTold : (o : Option DownloadState) → IsTold (start_in id o s).1
      start_in-IsTold (some queued) =
          unfold start_in in try (leb s.config.max_concurrent_downloads (count_active s.downloads))
      start_in-IsTold o = unfold start_in in h

  pub signal-IsTold : (id : DownloadId) (s : ManagerInner H) → IsTold s → IsTold (signal id s)
  unfolding signal notify
  signal-IsTold id s h = ground (arith, h)

  pub pause-IsTold : (id : DownloadId) (s : ManagerInner H) → IsTold s → IsTold (pause id s).1
  unfolding pause
  pause-IsTold id s h = pause_in-IsTold (current id s)
    where
      pause_in-IsTold : (o : Option DownloadState) → IsTold (pause_in id o s).1
      pause_in-IsTold (some starting) = unfold pause_in intend in signal-IsTold id _ h
      pause_in-IsTold (some downloading) = unfold pause_in intend in signal-IsTold id _ h
      pause_in-IsTold o = unfold pause_in in h

  pub and_then-IsTold :
      (r : Outcome H (Unit {0})) (f : ManagerInner H → ManagerInner H)
      → IsTold r.1
      → ((t : ManagerInner H) → IsTold t → IsTold (f t))
      → IsTold (and_then r f).1
  and_then-IsTold (err e, s) f h k = h
  and_then-IsTold (ok _, s) f h k = k s h

  pub resume-IsTold : (id : DownloadId) (s : ManagerInner H) → IsTold s → IsTold (resume id s).1
  unfolding resume
  resume-IsTold id s h = resume_in-IsTold (current id s)
    where
      resume_in-IsTold : (o : Option DownloadState) → IsTold (resume_in id o s).1
      resume_in-IsTold (some paused) =
          unfold resume_in in
          and_then-IsTold (transition_state id queued none s) _
            (transition_state-IsTold id queued none s h)
            (λ t k.
              schedule-IsTold _
                (publish-IsTold (Event.resumed id) (requeue id t) (unfold requeue in k) refl))
      resume_in-IsTold o = unfold resume_in in h

  pub retry-IsTold : (id : DownloadId) (s : ManagerInner H) → IsTold s → IsTold (retry id s).1
  unfolding retry
  retry-IsTold id s h = retry_in-IsTold (current id s)
    where
      retry_in-IsTold : (o : Option DownloadState) → IsTold (retry_in id o s).1
      retry_in-IsTold (some failed) =
          unfold retry_in in
          and_then-IsTold (transition_state id queued none s) _
            (transition_state-IsTold id queued none s h)
            (λ t k. schedule-IsTold (requeue id t) (unfold requeue in k))
      retry_in-IsTold o = unfold retry_in in h

  pub drop_idle-IsTold :
      (id : DownloadId) (s : ManagerInner H) → IsTold s → IsTold (drop_idle id s).1
  unfolding drop_idle
  drop_idle-IsTold id s h =
      and_then-IsTold (transition_state id cancelled (some "cancelled by user") (unqueue id s))
        (publish (Event.cancelled id))
        (transition_state-IsTold id cancelled (some "cancelled by user") (unqueue id s)
          (unfold unqueue in h))
        (λ t k. publish-IsTold (Event.cancelled id) t k refl)

  pub cancel-IsTold : (id : DownloadId) (s : ManagerInner H) → IsTold s → IsTold (cancel id s).1
  unfolding cancel
  cancel-IsTold id s h = cancel_in-IsTold (current id s)
    where
      cancel_in-IsTold : (o : Option DownloadState) → IsTold (cancel_in id o s).1
      cancel_in-IsTold (some starting) = unfold cancel_in in signal-IsTold id s h
      cancel_in-IsTold (some downloading) = unfold cancel_in in signal-IsTold id s h
      cancel_in-IsTold (some queued) = unfold cancel_in in drop_idle-IsTold id s h
      cancel_in-IsTold (some paused) = unfold cancel_in in drop_idle-IsTold id s h
      cancel_in-IsTold (some failed) = unfold cancel_in in drop_idle-IsTold id s h
      cancel_in-IsTold o = unfold cancel_in in h

  pub remove-IsTold : (id : DownloadId) (s : ManagerInner H) → IsTold s → IsTold (remove id s).1
  unfolding remove
  remove-IsTold id s h =
      let t = forget id s in
      let told : IsTold t = unfold forget unqueue set_downloads in signal-IsTold id s h in
      elim (Result-cases (H.store.remove t.persistence id)) [
        | inr (e, lost) ↦ rw (lost, remove) told
        | inl (c, gone) ↦ rw (gone, remove) (schedule-IsTold (record t { persistence = c }) told)
      ]
