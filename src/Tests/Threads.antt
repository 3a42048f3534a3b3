-- ===== src/Tests/Threads.antt =====
-- Two threads that start downloads at the same time, and two transfers that share a cap.
use open_download_manager.Prelude.{
  ℕ, ◌+◌, ◌-◌, ◌≤◌, ◌<◌, ◌≡◌, refl, List, [], ◌∷◌, none, some, arith,
}
use open_download_manager.Prelude.HashMap
use open_download_manager.Core.State.{queued, starting, downloading, transition}
use open_download_manager.Manager.Bandwidth.{limiter_for}
use open_download_manager.Manager.Bandwidth
use open_download_manager.Manager.Inner.{
  ManagedDownload, ManagerInner, count_active, managed, publish, requeue, set_downloads, tick,
}
use open_download_manager.Manager.Transition.{transition_state, on_info, mark}
use open_download_manager.Manager.Calls.{pause, admit}
use open_download_manager.Manager.Reach.{pauses}
use open_download_manager.Manager.Threads.{tests, begins, admits}
use open_download_manager.Manager.Threads.History.{History, begin, step, call, History-bounded}
use open_download_manager.Tests.World.{libs, host, one_slot, row}
use open_download_manager.Tests.Managers.{idle}

-- Two queued downloads, and a limit of one.
abbrev both_queued : ManagerInner host
both_queued = admit 8 (row 8 queued) (admit 7 (row 7 queued) idle)

abbrev both_started : ManagerInner host
both_started = (transition_state 8 starting none (transition_state 7 starting none both_queued).1).1

free_slot : count_active both_queued.downloads < both_queued.config.max_concurrent_downloads
unfolding count_active HashMap.count admit HashMap.insert managed publish requeue set_downloads
free_slot = omega arith

none_active : count_active idle.downloads ≤ idle.config.max_concurrent_downloads
unfolding count_active HashMap.count
none_active = omega arith

-- Both threads find the free slot, and then each starts a download; one then pauses it.
race : History 2 (idle, 0) ((pause 7 both_started).1, 0)
unfolding admit publish requeue set_downloads HashMap.insert
race =
    let one_waits : History 2 (idle, 0) (admit 7 (row 7 queued) idle, 0) =
      step begin (admits 7 (row 7 queued) refl refl) in
    let waiting : History 2 (idle, 0) (both_queued, 0) =
      step one_waits (admits 8 (row 8 queued) refl refl) in
    let tested : History 2 (idle, 0) (both_queued, 2) =
      step (step waiting (tests free_slot (omega arith))) (tests free_slot (omega arith)) in
    call (step (step tested (begins 7)) (begins 8)) (omega arith) (pauses 7)

passed : count_active both_started.downloads ≡ 2
unfolding count_active HashMap.count transition_state tick admit publish requeue set_downloads
    HashMap.insert transition managed HashMap.update on_info mark
passed = refl

-- The history passes the limit of one, by one.
History-bounded_example :
    ((pause 7 both_started).1.config ≡ idle.config)
    × (count_active (pause 7 both_started).1.downloads + 0
        ≤ idle.config.max_concurrent_downloads + (2 - 1))
History-bounded_example = History-bounded 2 none_active race

-- Managers with a cap of ten bytes per second and the downloads that are given.
abbrev capped : List (ℕ × ManagedDownload libs) → ManagerInner host
capped m = record idle {
  config = record one_slot { bandwidth = Bandwidth.new (some 10) };
  downloads = m;
}

abbrev alone : ManagerInner host
alone = capped ((1, managed (row 1 downloading)) ∷ [])

abbrev joined : ManagerInner host
joined = capped ((1, managed (row 1 downloading)) ∷ (2, managed (row 2 downloading)) ∷ [])
