-- ===== src/Tests/Controls.antt =====
-- Calls on a paused download, on a store that saves and on one that does not.
use open_download_manager.Prelude.{◌≡◌, refl, false, [], ◌∷◌, none, some, arith}
use open_download_manager.Prelude.HashMap
use open_download_manager.Core.Error.{Error, err, is_ok}
use open_download_manager.Core.State.{queued, paused}
use open_download_manager.Core.Backend.{http}
use open_download_manager.Manager.Download.{Host}
use open_download_manager.Manager.Inner.{ManagerInner, count_active}
use open_download_manager.Manager.Invariant.{IsSound}
use open_download_manager.Manager.Queue.Laws.{has}
use open_download_manager.Manager.Calls.{current, resume}
use open_download_manager.Manager.Calls.Refusals.{
  perform, allows, resumes, retries, perform-refused,
}
use open_download_manager.Manager.Calls.Refusals.Allowed.{perform-allows}
use open_download_manager.Manager.Calls.Refusals.Stuck.{resume_stuck}
use open_download_manager.Tests.World.{host, store, one_slot, row}

abbrev full_disk : Host
full_disk = record host { store = record store { save = λ c d. err (Error.internal "disk full") } }

abbrev stuck : ManagerInner full_disk
stuck = record {
  config = one_slot;
  backends = http ∷ [];
  queue = record { order = [] };
  downloads = (5, record { info = row 5 paused; cancel = none; handle = none }) ∷ [];
  persistence = [];
  events = [];
  pause_intents = [];
  ticks = 0;
  next_notify = 0;
  notified = [];
  next_handle = 0;
  running = [];
}

abbrev free : ManagerInner host
free = record {
  config = one_slot;
  backends = http ∷ [];
  queue = record { order = [] };
  downloads = (5, record { info = row 5 paused; cancel = none; handle = none }) ∷ [];
  persistence = [];
  events = [];
  pause_intents = [];
  ticks = 0;
  next_notify = 0;
  notified = [];
  next_handle = 0;
  running = [];
}

free-paused : current 5 free ≡ some paused
unfolding current
free-paused = refl

stuck-paused : current 5 stuck ≡ some paused
unfolding current
stuck-paused = refl

stuck-IsSound : IsSound stuck
unfolding count_active HashMap.count
stuck-IsSound = record {
  capped = omega arith;
  distinct = refl;
  waiting = λ j h. ground (arith, h);
  one_task = refl;
  tasked = λ j h. ground (arith, h);
}

retry-not_allowed : allows retries (current 5 free) ≡ false
retry-not_allowed = rw free-paused refl

perform-refused_example :
    (is_ok (perform retries 5 free).0 ≡ false) × ((perform retries 5 free).1 ≡ free)
perform-refused_example = perform-refused 5 free retries retry-not_allowed

perform-allows_example : is_ok (perform resumes 5 free).0 ≡ allows resumes (current 5 free)
perform-allows_example = perform-allows 5 free (λ c d. refl) resumes

resume_stuck_example :
    (is_ok (resume 5 stuck).0 ≡ false)
    × (current 5 (resume 5 stuck).1 ≡ some queued)
    × (has 5 (resume 5 stuck).1.queue.order ≡ false)
resume_stuck_example = resume_stuck 5 stuck stuck-IsSound stuck-paused (λ c d. refl)
