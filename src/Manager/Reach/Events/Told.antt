-- ===== src/Manager/Reach/Events/Told.antt =====
-- The events that a manager publishes over its histories.

use open_download_manager.Manager.Download.{Host}
use open_download_manager.Manager.Inner.{ManagerInner}
use open_download_manager.Manager.Calls.{shutdown}
use open_download_manager.Manager.Reach.{
  Step, enqueues, starts, pauses, resumes, cancels, retries, removes, shuts_down, gives_up,
  progresses, answers, Reach, here, next,
}
use open_download_manager.Manager.Reach.Events.{IsTold, on_progress-IsTold}
use open_download_manager.Manager.Reach.Events.Calls.{
  enqueue-IsTold, start-IsTold, pause-IsTold, resume-IsTold, retry-IsTold, cancel-IsTold,
  remove-IsTold,
}
use open_download_manager.Manager.Reach.Events.Tasks.{run_prologue-IsTold, run_epilogue-IsTold}

Step-IsTold : {H : Host} {s t : ManagerInner H} → Step s t → IsTold s → IsTold t
Step-IsTold {s = s} (enqueues id spec fresh) h = enqueue-IsTold id spec s h
Step-IsTold {s = s} (starts id) h = start-IsTold id s h
Step-IsTold {s = s} (pauses id) h = pause-IsTold id s h
Step-IsTold {s = s} (resumes id) h = resume-IsTold id s h
Step-IsTold {s = s} (cancels id) h = cancel-IsTold id s h
Step-IsTold {s = s} (retries id) h = retry-IsTold id s h
Step-IsTold {s = s} (removes id) h = remove-IsTold id s h
Step-IsTold {s = s} shuts_down h = unfold shutdown in h
Step-IsTold {s = s} (gives_up id c {t = t} tasked e) h = run_prologue-IsTold id c s t h e
Step-IsTold {s = s} (progresses id p tasked) h = on_progress-IsTold id p s h
Step-IsTold {s = s} (answers id r tasked) h = run_epilogue-IsTold id r s h

-- From a manager whose events tell only of legal state changes, any calls, progress and answers of
-- backends lead to such a manager: every state change that is published is an edge of the
-- lifecycle, whatever fails in between.
pub Reach-IsTold : {H : Host} {s t : ManagerInner H} → IsTold s → Reach s t → IsTold t
Reach-IsTold h here = h
Reach-IsTold h (next r st) = Step-IsTold st (Reach-IsTold h r)
