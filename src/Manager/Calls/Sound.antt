-- ===== src/Manager/Calls/Sound.antt =====
-- Every call keeps the manager's invariant.
use open_download_manager.Prelude.{
  ℕ, ◌≡◌, ◌≢◌, refl, sym, ◌∙◌, inl, inr, true, false, ◌∷◌, Option, none, some, arith, ◌==◌,
  Bool-cases, leb,
}
use open_download_manager.Core.Error.{ok, err}
use open_download_manager.Core.State.{
  DownloadState, queued, starting, downloading, paused, failed, cancelled,
}
use open_download_manager.Core.Backend.{DownloadId}
use open_download_manager.Core.Event.{Event}
use open_download_manager.Manager.Download.{Host}
use open_download_manager.Manager.Queue.{retain_ne}
use open_download_manager.Manager.Queue
use open_download_manager.Manager.Queue.Laws.{has, has-retain_ne}
use open_download_manager.Manager.Inner.{
  ManagerInner, Outcome, count_active, is_active, publish, unqueue, requeue, signal, notify,
}
use open_download_manager.Manager.Transition.{transition_state}
use open_download_manager.Manager.Transition.Effect.{transition_state-Frame}
use open_download_manager.Manager.Invariant.{IsSound, state_of, may_run}
use open_download_manager.Manager.Invariant.Steps.{unqueue-Inv, requeue-Inv}
use open_download_manager.Manager.Schedule.Invariant.{
  transition_state-IsSound, transition_state-state_of, begin_download-IsSound, schedule_lem,
}
use open_download_manager.Manager.Calls.{
  current, start, start_in, and_then, resume, resume_in, retry, retry_in, cancel, cancel_in,
  drop_idle, pause, pause_in,
}

-- What a state that is not queued, or not active, says of the queue and of the tasks.
module _ {H : Host} (s : ManagerInner H) (v : IsSound s) (id : DownloadId) where
  pub not_waiting :
      (st : Option DownloadState)
      → state_of id s.downloads ≡ st
      → st ≢ some queued
      → has id s.queue.order ≡ false
  not_waiting st e ne = elim (Bool-cases (has id s.queue.order)) [
    | inl waits ↦ absurd (ne (sym e ∙ v.waiting id waits))
    | inr absent ↦ absent
  ]

  pub not_running :
      (st : Option DownloadState)
      → state_of id s.downloads ≡ st
      → may_run st ≡ false
      → has id s.running ≡ false
  not_running st e idle = elim (Bool-cases (has id s.running)) [
    | inl runs ↦ absurd (ground (arith, v.tasked id runs))
    | inr absent ↦ absent
  ]

  pub unqueue-IsSound : IsSound (unqueue id s) × (has id (unqueue id s).queue.order ≡ false)
  unfolding unqueue Queue.remove
  unqueue-IsSound =
      let here : (id == id) ≡ true = ground arith in
      (unqueue-Inv id v, rw (has-retain_ne id id s.queue.order, here))

module _ {H : Host} (id : DownloadId) where
  -- A successful move to `queued`, and what puts the id into the queue.
  requeued-IsSound :
      (r : Outcome H (Unit {0})) (f : ManagerInner H → ManagerInner H)
      → IsSound r.1
      → ((t : ManagerInner H)
          → IsSound t
          → state_of id t.downloads ≡ some queued
          → has id t.queue.order ≡ false
          → IsSound (f t))
      → (r.0 ≡ ok tt → state_of id r.1.downloads ≡ some queued)
      → has id r.1.queue.order ≡ false
      → IsSound (and_then r f).1
  requeued-IsSound (err e, s) f v g waits absent = v
  requeued-IsSound (ok tt, s) f v g waits absent = g s v (waits refl) absent

  back_to_queue-IsSound :
      (s : ManagerInner H) (f : ManagerInner H → ManagerInner H) (was : DownloadState)
      → IsSound s
      → state_of id s.downloads ≡ some was
      → is_active was ≡ false
      → some was ≢ some queued
      → ((t : ManagerInner H)
          → IsSound t
          → state_of id t.downloads ≡ some queued
          → has id t.queue.order ≡ false
          → IsSound (f t))
      → IsSound (and_then (transition_state id queued none s) f).1
  back_to_queue-IsSound s f was v is idle other g =
      let absent = not_waiting s v id (some was) is other in
      let idle_task = not_running s v id (some was) is idle in
      requeued-IsSound (transition_state id queued none s) f
        (transition_state-IsSound id queued none s v (omega (arith, v.capped)) absent
          (inl idle_task))
        g (transition_state-state_of id queued none s)
        (rw ((transition_state-Frame id queued none s).queue) absent)

  requeue-IsSound :
      (t : ManagerInner H)
      → IsSound t
      → state_of id t.downloads ≡ some queued
      → has id t.queue.order ≡ false
      → IsSound (requeue id t)
  unfolding requeue Queue.enqueue
  requeue-IsSound t v waits absent = requeue-Inv id v absent waits

  resume_in-IsSound :
      (st : Option DownloadState) (s : ManagerInner H)
      → state_of id s.downloads ≡ st
      → IsSound s
      → IsSound (resume_in id st s).1
  unfolding resume_in publish
  resume_in-IsSound (some paused) s is v =
      back_to_queue-IsSound s _ paused v is refl (cc)
        (λ t w q a. (schedule_lem _).2 (requeue-IsSound t w q a))
  resume_in-IsSound none s is v = v
  resume_in-IsSound (some _) s is v = v

  retry_in-IsSound :
      (st : Option DownloadState) (s : ManagerInner H)
      → state_of id s.downloads ≡ st
      → IsSound s
      → IsSound (retry_in id st s).1
  unfolding retry_in
  retry_in-IsSound (some failed) s is v =
      back_to_queue-IsSound s _ failed v is refl (cc)
        (λ t w q a. (schedule_lem _).2 (requeue-IsSound t w q a))
  retry_in-IsSound none s is v = v
  retry_in-IsSound (some _) s is v = v

  notify-IsSound : (o : Option ℕ) (s : ManagerInner H) → IsSound s → IsSound (notify o s)
  unfolding notify
  notify-IsSound none s v = v
  notify-IsSound (some c) s v = v

  pub signal-IsSound : (s : ManagerInner H) → IsSound s → IsSound (signal id s)
  unfolding signal
  signal-IsSound s v = notify-IsSound _ s v

  pause_in-IsSound :
      (st : Option DownloadState) (s : ManagerInner H) → IsSound s → IsSound (pause_in id st s).1
  unfolding pause_in
  pause_in-IsSound (some starting) s v =
      signal-IsSound (record s { pause_intents = id ∷ s.pause_intents }) v
  pause_in-IsSound (some downloading) s v =
      signal-IsSound (record s { pause_intents = id ∷ s.pause_intents }) v
  pause_in-IsSound none s v = v
  pause_in-IsSound (some _) s v = v

  start_in-IsSound :
      (st : Option DownloadState) (s : ManagerInner H)
      → state_of id s.downloads ≡ st
      → IsSound s
      → IsSound (start_in id st s).1
  unfolding start_in
  start_in-IsSound (some queued) s is v =
      elim (Bool-cases (leb s.config.max_concurrent_downloads (count_active s.downloads))) [
        | inl full ↦ rw full v
        | inr room ↦ rw room (
            let (w, absent) = unqueue-IsSound s v id in
            begin_download-IsSound id (unqueue id s) w (unfold unqueue in ground arith) absent
              (unfold unqueue in not_running s v id (some queued) is refl))
      ]
  start_in-IsSound none s is v = v
  start_in-IsSound (some _) s is v = v

  drop_idle-IsSound :
      (s : ManagerInner H) (was : DownloadState)
      → state_of id s.downloads ≡ some was
      → is_active was ≡ false
      → IsSound s
      → IsSound (drop_idle id s).1
  unfolding drop_idle publish
  drop_idle-IsSound s was is idle v = dropped _ moved
    where
      moved : IsSound (transition_state id cancelled (some "cancelled by user") (unqueue id s)).1
      moved =
          let (w, absent) = unqueue-IsSound s v id in
          transition_state-IsSound id cancelled (some "cancelled by user") (unqueue id s) w
            (omega (arith, w.capped)) absent
            (inl (unfold unqueue in not_running s v id (some was) is idle))

      dropped :
          (r : Outcome H (Unit {0}))
          → IsSound r.1
          → IsSound (and_then r (publish (Event.cancelled id))).1
      dropped (err e, t) w = w
      dropped (ok tt, t) w = w

  cancel_in-IsSound :
      (st : Option DownloadState) (s : ManagerInner H)
      → state_of id s.downloads ≡ st
      → IsSound s
      → IsSound (cancel_in id st s).1
  unfolding cancel_in
  cancel_in-IsSound (some starting) s is v = signal-IsSound s v
  cancel_in-IsSound (some downloading) s is v = signal-IsSound s v
  cancel_in-IsSound (some queued) s is v = drop_idle-IsSound s queued is refl v
  cancel_in-IsSound (some paused) s is v = drop_idle-IsSound s paused is refl v
  cancel_in-IsSound (some failed) s is v = drop_idle-IsSound s failed is refl v
  cancel_in-IsSound none s is v = v
  cancel_in-IsSound (some _) s is v = v

  current-state_of : (s : ManagerInner H) → state_of id s.downloads ≡ current id s
  unfolding current
  current-state_of s = ground arith

  pub resume-IsSound : (s : ManagerInner H) → IsSound s → IsSound (resume id s).1
  unfolding resume
  resume-IsSound s v = resume_in-IsSound (current id s) s (current-state_of s) v

  pub retry-IsSound : (s : ManagerInner H) → IsSound s → IsSound (retry id s).1
  unfolding retry
  retry-IsSound s v = retry_in-IsSound (current id s) s (current-state_of s) v

  pub cancel-IsSound : (s : ManagerInner H) → IsSound s → IsSound (cancel id s).1
  unfolding cancel
  cancel-IsSound s v = cancel_in-IsSound (current id s) s (current-state_of s) v

  pub start-IsSound : (s : ManagerInner H) → IsSound s → IsSound (start id s).1
  unfolding start
  start-IsSound s v = start_in-IsSound (current id s) s (current-state_of s) v

  pub pause-IsSound : (s : ManagerInner H) → IsSound s → IsSound (pause id s).1
  unfolding pause
  pause-IsSound s v = pause_in-IsSound (current id s) s v
