-- ===== src/Manager/Scheduler.antt =====
-- How many queued downloads may start (crates/download-manager/src/scheduler.rs).
use open_download_manager.Prelude.{
  ℕ, ◌+◌, ◌-◌, ◌≤◌, ◌≡◌, List, ◌++◌, arith, length, take, min, max, length-take, drop,
  take-append-drop,
}
use open_download_manager.Core.Backend.{DownloadId}
use open_download_manager.Manager.Queue.{Queue}

-- `saturating_sub` is the subtraction of ℕ.
unfoldable pub select_for_start : Queue → ℕ → ℕ → List DownloadId
select_for_start queue active_count limit =
    let capacity = limit - active_count in take capacity queue.order

-- The scheduler selects the front of the queue, in its order: as many ids as are queued, but no
-- more than bring the active downloads up to the limit, and none where the limit is met already.
pub select_for_start_lem :
    (q : Queue) (active limit : ℕ)
    → let chosen = select_for_start q active limit in
      ((later : List DownloadId) × (chosen ++ later ≡ q.order))
      × (length chosen ≡ min (limit - active) (length q.order))
      × (active + length chosen ≤ max active limit)
unfolding select_for_start
select_for_start_lem q active limit = (
  (drop (limit - active) q.order, take-append-drop (limit - active) q.order),
  length-take (limit - active) q.order,
  omega (arith, length-take (limit - active) q.order),
)
