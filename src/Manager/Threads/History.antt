-- ===== src/Manager/Threads/History.antt =====
-- The concurrency limit where several threads work on one manager at the same time.
use open_download_manager.Prelude.{ℕ, ◌+◌, ◌-◌, ◌≤◌, ◌<◌, ◌≡◌}
use open_download_manager.Manager.Download.{Host}
use open_download_manager.Manager.Inner.{ManagerInner, count_active}
use open_download_manager.Manager.Reach.{Step}
use open_download_manager.Manager.Threads.{Shared, Atom, Atoms, here, then}
use open_download_manager.Manager.Threads.Whole.{both}
use open_download_manager.Manager.Threads.Calls.{Step-Leads}
use open_download_manager.Manager.Threads.Limit.{Atoms-bounded}

module _ {H : Host} (threads : ℕ) where
  -- What the threads do: single steps in between each other, or a whole call of a thread that has no
  -- room in hand, while others may have.
  pub data History (x : Shared H) : Shared H → Type 0 where
    begin : History x x
    step : {y z : Shared H} → History x y → Atom threads y z → History x z
    call :
        {s t : ManagerInner H} {k : ℕ}
        → History x (s, k)
        → k < threads
        → Step s t
        → History x (t, k)

  History-Atoms : {x y : Shared H} → History x y → Atoms threads x y
  History-Atoms begin = here
  History-Atoms (step h a) = then (History-Atoms h) a
  History-Atoms (call h free one) = both free (History-Atoms h) (Step-Leads free one)

  -- Threads work on one manager at the same time: the steps that each makes under a hold of the lock
  -- come in any order, as do whole calls and the parts of tasks. From a manager whose active downloads
  -- are within the limit, with no thread between its test for room and its start of a download, they
  -- pass the limit by less than the number of threads, also where those are counted for which a
  -- thread has found room and which it has not started yet. So one thread keeps the limit. The ids of
  -- new downloads are taken to be fresh.
  pub History-bounded :
      {k : ℕ} {s t : ManagerInner H}
      → count_active s.downloads ≤ s.config.max_concurrent_downloads
      → History (s, 0) (t, k)
      → (t.config ≡ s.config)
        × (count_active t.downloads + k ≤ s.config.max_concurrent_downloads + (threads - 1))
  History-bounded within h = Atoms-bounded within (History-Atoms h)
