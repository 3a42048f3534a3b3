-- ===== src/Tests/Managers.antt =====
-- Managers on the small host.
use open_download_manager.Prelude.{◌≤◌, ◌≡◌, ◌⊎◌, refl, true, List, [], ◌∷◌, none, arith}
use open_download_manager.Prelude.HashMap
use open_download_manager.Core.Error.{ok}
use open_download_manager.Core.State.{queued, downloading, completed}
use open_download_manager.Core.Backend.{DownloadId, http}
use open_download_manager.Manager.Config.{RecoveryPolicy}
use open_download_manager.Manager.Download.{Download}
use open_download_manager.Manager.Inner.{ManagerInner, count_active}
use open_download_manager.Manager.Invariant.{IsSound, state_of}
use open_download_manager.Manager.Schedule.{schedule, to_start}
use open_download_manager.Manager.Schedule.Invariant.{schedule_lem}
use open_download_manager.Manager.Calls.{DownloadSpec, enqueue, pause}
use open_download_manager.Manager.Recover.{recover, recover_one, recover_all, fresh, open_manager}
use open_download_manager.Manager.Recover.Rows.{queue_of}
use open_download_manager.Manager.Recover.Sound.{state_in}
use open_download_manager.Manager.Recover.Opened.{open_manager-IsSound}
use open_download_manager.Manager.Reach.{Reach, here, next, enqueues, pauses}
use open_download_manager.Manager.Reach.Sound.{Reach-IsSound}
use open_download_manager.Manager.Reach.Events.{IsTold}
use open_download_manager.Manager.Reach.Events.Told.{Reach-IsTold}
use open_download_manager.Tests.World.{libs, host, one_slot, row}

abbrev spec : DownloadSpec libs
spec = record {
  url = "https://example.com/b";
  destination = b'b' ∷ [];
  backend = http;
  overwrite = true;
  backend_meta = "";
}

abbrev pub idle : ManagerInner host
idle = record {
  config = one_slot;
  backends = http ∷ [];
  queue = record { order = [] };
  downloads = [];
  persistence = [];
  events = [];
  pause_intents = [];
  ticks = 0;
  next_notify = 0;
  notified = [];
  next_handle = 0;
  running = [];
}

idle-IsSound : IsSound idle
unfolding count_active HashMap.count
idle-IsSound = record {
  capped = omega arith;
  distinct = refl;
  waiting = λ j h. ground (arith, h);
  one_task = refl;
  tasked = λ j h. refl;
}

abbrev busy : ManagerInner host
busy = (pause 7 (enqueue 7 spec idle).1).1

history : Reach idle busy
history = next (next here (enqueues 7 spec (refl, refl))) (pauses 7)

-- A download is enqueued, which starts it, and paused while it runs.
Reach-IsSound_example : IsSound busy
Reach-IsSound_example = Reach-IsSound idle-IsSound history

abbrev rows : List (Download libs)
rows = row 1 downloading ∷ row 2 completed ∷ row 3 queued ∷ []

abbrev reopened : ManagerInner host
reopened = (recover_all rows (fresh {H = host} one_slot (http ∷ []) rows)).1

schedule_lem_example :
    (to_start (schedule reopened) ≡ none)
    × (((schedule reopened).config.max_concurrent_downloads
          ≤ count_active (schedule reopened).downloads)
        ⊎ ((schedule reopened).queue.order ≡ []))
    × (IsSound reopened → IsSound (schedule reopened))
schedule_lem_example = schedule_lem reopened

reopens : open_manager {H = host} one_slot (http ∷ []) (ok rows) ≡ ok reopened
unfolding open_manager fresh recover_all recover recover_one
reopens = refl

open_manager-IsSound_example :
    IsSound reopened
    × (count_active reopened.downloads ≡ 0)
    × (reopened.queue.order ≡ queue_of RecoveryPolicy.queued rows)
    × ((j : DownloadId)
        → state_of j reopened.downloads ≡ state_in RecoveryPolicy.queued j rows none)
open_manager-IsSound_example =
    open_manager-IsSound host one_slot (http ∷ []) rows rows reopened refl refl reopens

-- The events of the same history.
Reach-IsTold_example : IsTold busy
Reach-IsTold_example = Reach-IsTold {s = idle} refl history
