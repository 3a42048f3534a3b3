-- ===== src/Manager/Schedule/Invariant.antt =====
-- The scheduler keeps the manager's invariant, and runs until no more downloads can start.
use open_download_manager.Prelude.{
  ℕ, zero, suc, ◌+◌, ◌≤◌, ◌<◌, ◌≡◌, refl, ap, ◌∙◌, ◌⊎◌, inl, inr, Bool, true, false, String, List,
  [], ◌∷◌, Option, none, some, arith, ◌==◌, Option-cases, ltb→lt, length, ◌-◌, take,
}
use open_download_manager.Core.Error.{ok, err}
use open_download_manager.Core.State.{DownloadState, queued, starting}
use open_download_manager.Core.Backend.{DownloadId}
use open_download_manager.Core.Event.{Event}
use open_download_manager.Manager.Download.{Host}
use open_download_manager.Manager.Queue.{remove}
use open_download_manager.Manager.Queue.Laws.{has, has-retain_ne, length-retain_ne-has}
use open_download_manager.Manager.Inner.{
  ManagerInner, Outcome, count_active, is_active, publish, unqueue,
}
use open_download_manager.Manager.Transition.{transition_state, on_info}
use open_download_manager.Manager.Transition.Effect.{
  Frame, transition_state-Frame, transition_state-Moved, transition_state-ok,
  transition_state-moves,
}
use open_download_manager.Manager.Invariant.{
  IsSound, state_of, state_of-update, may_run, weight_active, mark-state,
}
use open_download_manager.Manager.Invariant.Steps.{move-Inv, spawn-Inv, update-Inv, unqueue-Inv}
use open_download_manager.Manager.Scheduler.{select_for_start}
use open_download_manager.Manager.Schedule.{
  with_cancel, with_handle, first, spawn, begun, begin_download, to_start, schedule_loop, schedule,
}

module _ {H : Host} (id : DownloadId) where
  pub transition_state-IsSound :
      (next : DownloadState) (e : Option String) (s : ManagerInner H)
      → IsSound s
      → count_active s.downloads + weight_active (some next) ≤ s.config.max_concurrent_downloads
      → has id s.queue.order ≡ false
      → ((has id s.running ≡ false) ⊎ (is_active next ≡ true))
      → IsSound (transition_state id next e s).1
  transition_state-IsSound next e s v room absent task =
      let t = (transition_state id next e s).1 in
      let f : Frame s t = transition_state-Frame id next e s in
      rw (f.config, f.queue, f.running)
        (move-Inv id v next e t.downloads (transition_state-Moved id next e s) room absent task)

  pub transition_state-state_of :
      (next : DownloadState) (e : Option String) (s : ManagerInner H)
      → (transition_state id next e s).0 ≡ ok tt
      → state_of id (transition_state id next e s).1.downloads ≡ some next
  unfolding on_info
  transition_state-state_of next e s done =
      let (md, found, valid) = transition_state-ok id next e s done in
      let here : (id == id) ≡ true = ground arith in
      rw (transition_state-moves id next e s md found valid, state_of-update, here, found)
        (ap some (mark-state next (H.clock s.ticks) e md.info))

  pub spawn-IsSound :
      (s : ManagerInner H)
      → IsSound s
      → has id s.running ≡ false
      → state_of id s.downloads ≡ some starting
      → IsSound (spawn id s)
  unfolding spawn
  spawn-IsSound s v idle begins =
      update-Inv id
        (update-Inv id (spawn-Inv id v idle (rw begins)) (with_cancel s.next_notify)
          (λ md. (refl, λ h. h)))
        (with_handle s.next_handle) (λ md. (refl, λ h. h))

  begun-IsSound :
      (r : Outcome H (Unit {0}))
      → IsSound r.1
      → has id r.1.running ≡ false
      → (r.0 ≡ ok tt → state_of id r.1.downloads ≡ some starting)
      → IsSound (begun id r)
  unfolding begun publish
  begun-IsSound (err e, s) v idle begins = v
  begun-IsSound (ok tt, s) v idle begins =
      spawn-IsSound (publish (Event.started id) s) v idle (begins refl)

  pub begin_download-IsSound :
      (s : ManagerInner H)
      → IsSound s
      → count_active s.downloads < s.config.max_concurrent_downloads
      → has id s.queue.order ≡ false
      → has id s.running ≡ false
      → IsSound (begin_download id s)
  unfolding begin_download
  begin_download-IsSound s v room absent idle =
      begun-IsSound (transition_state id starting none s)
        (transition_state-IsSound starting none s v (omega arith) absent (inr refl))
        (rw ((transition_state-Frame id starting none s).running) idle)
        (transition_state-state_of starting none s)

begun-queue :
    {H : Host} (id : DownloadId) (r : Outcome H (Unit {0}))
    → ((begun id r).queue ≡ r.1.queue) × ((begun id r).config ≡ r.1.config)
unfolding begun publish
begun-queue id (err e, s) = (refl, refl)
begun-queue id (ok tt, s) = (refl, refl)

pub begin_download-queue :
    {H : Host} (id : DownloadId) (s : ManagerInner H)
    → ((begin_download id s).queue ≡ s.queue) × ((begin_download id s).config ≡ s.config)
unfolding begin_download
begin_download-queue id s =
    let (q, c) = begun-queue id (transition_state id starting none s) in
    let f = transition_state-Frame id starting none s in (q ∙ f.queue, c ∙ f.config)

first_taken :
    (k : ℕ) (xs : List DownloadId) (id : DownloadId)
    → first (take k xs) ≡ some id
    → (0 < k) × (has id xs ≡ true) × (0 < length xs)
first_taken zero xs id h = cc
first_taken (suc k) [] id h = cc
first_taken (suc k) (x ∷ xs) id h = ground arith

none_taken : (k : ℕ) (xs : List DownloadId) → first (take k xs) ≡ none → (k ≡ 0) ⊎ (xs ≡ [])
none_taken zero xs h = inl refl
none_taken (suc k) [] h = inr refl
none_taken (suc k) (x ∷ xs) h = cc

module _ {H : Host} where
  pub to_start-some :
      (s : ManagerInner H) (id : DownloadId)
      → to_start s ≡ some id
      → (count_active s.downloads < s.config.max_concurrent_downloads)
        × (has id s.queue.order ≡ true)
        × (0 < length s.queue.order)
  unfolding to_start select_for_start
  to_start-some s id h =
      let (room, waits, long) = first_taken _ s.queue.order id h in (omega arith, waits, long)

  -- The state in which a round of the loop leaves the manager.
  abbrev round : DownloadId → ManagerInner H → ManagerInner H
  round id s = begin_download id (unqueue id s)

  round-IsSound :
      (s : ManagerInner H) (id : DownloadId)
      → IsSound s
      → to_start s ≡ some id
      → IsSound (round id s)
  unfolding unqueue remove
  round-IsSound s id v h =
      let (room, waits, _) = to_start-some s id h in
      let here : (id == id) ≡ true = ground arith in
      begin_download-IsSound id (unqueue id s) (unqueue-Inv id v) room
        (rw (has-retain_ne id id s.queue.order, here))
        (not_running (has id s.running) (v.waiting id waits) (v.tasked id))
    where
      not_running :
          (b : Bool)
          → state_of id s.downloads ≡ some queued
          → (b ≡ true → may_run (state_of id s.downloads) ≡ true)
          → b ≡ false
      not_running false q h = refl
      not_running true q h = absurd (ground (arith, h refl))

  pub schedule_loop-IsSound :
      (fuel : ℕ) (s : ManagerInner H) → IsSound s → IsSound (schedule_loop fuel s)
  unfolding schedule_loop
  schedule_loop-IsSound zero s v = v
  schedule_loop-IsSound (suc fuel) s v = elim (Option-cases (to_start s)) [
    | inl stop ↦ rw (stop, schedule_loop) v
    | inr (id, go) ↦
        rw (go, schedule_loop) (schedule_loop-IsSound fuel (round id s) (round-IsSound s id v go))
  ]

  round-length :
      (s : ManagerInner H) (id : DownloadId)
      → to_start s ≡ some id
      → length (round id s).queue.order < length s.queue.order
  unfolding unqueue remove
  round-length s id h =
      let (_, waits, _) = to_start-some s id h in
      rw ((begin_download-queue id (unqueue id s)).0)
        (ltb→lt _ _ (length-retain_ne-has id s.queue.order ∙ waits))

  schedule_loop_stops :
      (fuel : ℕ) (s : ManagerInner H)
      → length s.queue.order < fuel
      → to_start (schedule_loop fuel s) ≡ none
  unfolding schedule_loop
  schedule_loop_stops zero s h = elim h [ ]
  schedule_loop_stops (suc fuel) s h = elim (Option-cases (to_start s)) [
    | inl stop ↦ rw (stop, schedule_loop) stop
    | inr (id, go) ↦
        rw (go, schedule_loop)
          (schedule_loop_stops fuel (round id s) (omega (arith, round-length s id go)))
  ]

  -- The scheduler's loop ends by its own test, with the fuel that the queue's length gives: it
  -- leaves a manager that is sound if it was, and that has no room or nothing queued.
  pub schedule_lem :
      (s : ManagerInner H)
      → let t = schedule s in
        (to_start t ≡ none)
        × ((t.config.max_concurrent_downloads ≤ count_active t.downloads) ⊎ (t.queue.order ≡ []))
        × (IsSound s → IsSound t)
  schedule_lem s = (stops, full (schedule s) stops, sound)
    where
      stops : to_start (schedule s) ≡ none
      stops = unfold schedule in schedule_loop_stops (suc (length s.queue.order)) s (omega arith)

      full :
          (t : ManagerInner H)
          → to_start t ≡ none
          → (t.config.max_concurrent_downloads ≤ count_active t.downloads) ⊎ (t.queue.order ≡ [])
      full t h =
          unfold to_start select_for_start in
          elim (none_taken (t.config.max_concurrent_downloads - count_active t.downloads)
            t.queue.order h) [ inl shut ↦ inl (omega arith) | inr empty ↦ inr empty ]

      sound : IsSound s → IsSound (schedule s)
      sound v = unfold schedule in schedule_loop-IsSound (suc (length s.queue.order)) s v
