-- ===== src/Tests/Completion.antt =====
-- A task of the manager that the engine runs.
use open_download_manager.Prelude.{[], ◌∷◌, none, some, false}
use open_download_manager.Core.Error.{ok}
use open_download_manager.Core.Libs.{since}
use open_download_manager.Core.Backend.{BackendTask}
use open_download_manager.Manager.Invariant.{state_of}
use open_download_manager.Manager.Task.{answered}
use open_download_manager.Engine.Backend.{run}
use open_download_manager.Engine.Backend.Completion.{Agrees, completed_lem}
use open_download_manager.Tests.World.{libs, host}
use open_download_manager.Tests.Ending.{loading, five-IsActive}
use open_download_manager.Tests.Transfers.{memory, in_memory, response}

abbrev task : BackendTask libs
task = record {
  id = 5;
  url = "https://example.com/a";
  destination = b'a' ∷ [];
  overwrite = false;
  backend_meta = "";
  progress = some 5;
  cancel = some 0;
  rate_limiter = none;
}

completed_lem_example :
    Agrees memory host task
      (state_of 5
        (answered 5 (run memory false (since 4) task (ok response) none).0 loading).downloads)
      (ok response)
      none
      (run memory false (since 4) task (ok response) none).1.0
completed_lem_example =
    completed_lem memory host task in_memory false (since 4) (ok response) none 5 loading
      five-IsActive
