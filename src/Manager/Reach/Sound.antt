-- ===== src/Manager/Reach/Sound.antt =====
-- The concurrency limit over whole histories of a manager, whose calls run one after the other;
-- Manager/Threads.antt has the calls of several threads in between each other.

use open_download_manager.Manager.Download.{Host}
use open_download_manager.Manager.Inner.{ManagerInner}
use open_download_manager.Manager.Invariant.{IsSound}
use open_download_manager.Manager.Calls.Sound.{
  start-IsSound, pause-IsSound, resume-IsSound, cancel-IsSound, retry-IsSound,
}
use open_download_manager.Manager.Calls.Known.{enqueue-IsSound, remove-IsSound}
use open_download_manager.Manager.Calls.Shutdown.{shutdown-IsSound}
use open_download_manager.Manager.Task.Sound.{
  on_progress-IsSound, run_prologue-IsSound, run_epilogue-IsSound,
}
use open_download_manager.Manager.Reach.{
  Step, enqueues, starts, pauses, resumes, cancels, retries, removes, shuts_down, gives_up,
  progresses, answers, Reach, here, next,
}

Step-IsSound : {H : Host} {s t : ManagerInner H} → Step s t → IsSound s → IsSound t
Step-IsSound {s = s} (enqueues id spec fresh) v = enqueue-IsSound id spec s v fresh.0 fresh.1
Step-IsSound {s = s} (starts id) v = start-IsSound id s v
Step-IsSound {s = s} (pauses id) v = pause-IsSound id s v
Step-IsSound {s = s} (resumes id) v = resume-IsSound id s v
Step-IsSound {s = s} (cancels id) v = cancel-IsSound id s v
Step-IsSound {s = s} (retries id) v = retry-IsSound id s v
Step-IsSound {s = s} (removes id) v = remove-IsSound id s v
Step-IsSound {s = s} shuts_down v = shutdown-IsSound s v
Step-IsSound {s = s} (gives_up id c {t = t} tasked e) v = run_prologue-IsSound id c s t v tasked e
Step-IsSound {s = s} (progresses id p tasked) v = on_progress-IsSound id p s v
Step-IsSound {s = s} (answers id r tasked) v = run_epilogue-IsSound id r s v tasked

-- Where the calls, and what the tasks do, run one after the other, each to its end before the next:
-- from a sound manager, any calls, with any progress and answers of the backends in between and any
-- failures of the store, lead to a sound manager: never more active downloads than the limit, a queue
-- of distinct queued downloads, and at most one task for a download. The ids of new downloads are
-- taken to be fresh.
pub Reach-IsSound : {H : Host} {s t : ManagerInner H} → IsSound s → Reach s t → IsSound t
Reach-IsSound v here = v
Reach-IsSound v (next r st) = Step-IsSound st (Reach-IsSound v r)
