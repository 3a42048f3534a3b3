-- ===== src/Tests/Ending.antt =====
-- The end of a task on the small host.
use open_download_manager.Prelude.{◌≡◌, refl, [], ◌∷◌, some}
use open_download_manager.Core.Error.{Error, Result, err}
use open_download_manager.Core.State.{downloading, paused}
use open_download_manager.Core.Backend.{BackendOutcome, http}
use open_download_manager.Manager.Inner.{ManagerInner}
use open_download_manager.Manager.Invariant.{state_of}
use open_download_manager.Manager.Calls.{pause, cancel}
use open_download_manager.Manager.Task.{answered}
use open_download_manager.Manager.Task.Ending.{
  IsActive, ending, asked_to_pause, answered_lem, pause_outlasts_cancel,
}
use open_download_manager.Tests.World.{libs, host, one_slot, row}

abbrev pub loading : ManagerInner host
loading = record {
  config = one_slot;
  backends = http ∷ [];
  queue = record { order = [] };
  downloads = (5, record { info = row 5 downloading; cancel = some 0; handle = some 0 }) ∷ [];
  persistence = [];
  events = [];
  pause_intents = [];
  ticks = 0;
  next_notify = 1;
  notified = [];
  next_handle = 1;
  running = 5 ∷ [];
}

pub five-IsActive : IsActive 5 loading
five-IsActive = (record { info = row 5 downloading; cancel = some 0; handle = some 0 }, refl, refl)

abbrev timed_out : Result (BackendOutcome libs)
timed_out = err (Error.network "timed out")

answered_lem_example :
    state_of 5 (answered 5 timed_out loading).downloads
    ≡ some (ending timed_out (asked_to_pause 5 loading))
answered_lem_example = answered_lem 5 timed_out loading five-IsActive

pause_outlasts_cancel_example :
    state_of 5 (answered 5 (err Error.cancelled) (cancel 5 (pause 5 loading).1).1).downloads
    ≡ some paused
pause_outlasts_cancel_example = pause_outlasts_cancel 5 loading five-IsActive
