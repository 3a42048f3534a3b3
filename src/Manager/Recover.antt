-- ===== src/Manager/Recover.antt =====
-- Opening a manager: `open` and `recover` of crates/download-manager/src/manager.rs.
pub mod Rows
pub mod Sound
pub mod Opened
pub mod Restart
use open_download_manager.Prelude.{
  ℕ, Bool, true, false, String, List, [], ◌∷◌, ◌++◌, Option, none, some, any, if◌then◌else◌, ◌==◌,
}
use open_download_manager.Prelude.HashMap
use open_download_manager.Core.Error.{Error, Result, ok, err}
use open_download_manager.Core.Libs.{Libs, SystemTime}
use open_download_manager.Core.State.{
  DownloadState, queued, starting, downloading, paused, completed, failed, cancelled, state_eq,
}
use open_download_manager.Core.Backend.{BackendKind, DownloadId}
use open_download_manager.Core.Event.{Event}
use open_download_manager.Manager.Queue
use open_download_manager.Manager.Config.{ManagerConfig, RecoveryPolicy}
use open_download_manager.Manager.Download.{Download, Host}
use open_download_manager.Manager.Inner.{
  ManagedDownload, ManagerInner, Outcome, managed, publish, tick, set_downloads, requeue, is_active,
}

-- The recovered form of a download that was in flight.
unfoldable pub recovered : {L : Libs} → RecoveryPolicy → SystemTime → Download L → Download L
recovered RecoveryPolicy.failed now d = record d {
  state = failed;
  error = some "interrupted by manager restart";
  updated_at = now;
}
recovered RecoveryPolicy.queued now d = record d {
  state = queued;
  started_at = none;
  error = none;
  updated_at = now;
}

text_or_empty : Option String → String
text_or_empty none = ""
text_or_empty (some e) = e

module _ {H : Host} where
  unfoldable pub load : Download H.libs → ManagerInner H → ManagerInner H
  load d s = set_downloads (HashMap.insert d.id (managed d) s.downloads) s

  -- Loads a row; a queued one joins the queue.
  unfoldable pub load_and_queue : Download H.libs → ManagerInner H → ManagerInner H
  load_and_queue d s = if state_eq d.state queued then requeue d.id (load d s) else load d s

  -- The events of a recovery from the given state.
  unfoldable pub publish_recovery :
      DownloadState → Download H.libs → ManagerInner H → ManagerInner H
  unfolding text_or_empty
  publish_recovery from d s =
      let t = publish (Event.state_changed d.id from d.state) s in
      if state_eq d.state failed
      then publish (Event.failed d.id (text_or_empty d.error)) t
      else if state_eq d.state queued
      then publish (Event.queued d.id) t
      else t

  recover_active : Download H.libs → DownloadState → ManagerInner H → Outcome H (Unit {0})
  recover_active d from s = elim (H.store.save s.persistence d) [
    | err e ↦ (err e, s)
    | ok c ↦ (ok tt, load_and_queue d (publish_recovery from d (record s { persistence = c })))
  ]

  unfoldable pub recover_one : Download H.libs → ManagerInner H → Outcome H (Unit {0})
  unfolding recover_active
  recover_one dl s =
      if is_active dl.state
      then recover_active (recovered s.config.recover_interrupted (H.clock s.ticks) dl) dl.state
          (tick s)
      else (ok tt, load_and_queue dl s)

  after_one : Outcome H (Unit {0}) → (ManagerInner H → Outcome H (Unit {0})) → Outcome H (Unit {0})
  after_one (err e, s) rest = (err e, s)
  after_one (ok _, s) rest = rest s

  -- The loop of `recover`: the first failing save ends it.
  unfoldable pub recover_all : List (Download H.libs) → ManagerInner H → Outcome H (Unit {0})
  unfolding after_one
  recover_all [] s = (ok tt, s)
  recover_all (dl ∷ rest) s = after_one (recover_one dl s) (recover_all rest)

  unfoldable pub recover : ManagerInner H → Outcome H (Unit {0})
  recover s = elim (H.store.list s.persistence) [
    | err e ↦ (err e, s)
    | ok downloads ↦ recover_all downloads s
  ]

  -- A manager before recovery, over an opened store.
  unfoldable pub fresh : ManagerConfig → List BackendKind → H.store.Conn → ManagerInner H
  fresh config backends conn = record {
    config = config;
    backends = backends;
    queue = Queue.new;
    downloads = [];
    persistence = conn;
    events = [];
    pause_intents = [];
    ticks = 0;
    next_notify = 0;
    notified = [];
    next_handle = 0;
    running = [];
  }

  opened : Outcome H (Unit {0}) → Result (ManagerInner H)
  opened (err e, s) = err e
  opened (ok _, s) = ok s

  unfoldable pub open_manager :
      ManagerConfig → List BackendKind → Result H.store.Conn → Result (ManagerInner H)
  unfolding opened
  open_manager config backends (err e) = err e
  open_manager config backends (ok conn) = opened (recover (fresh config backends conn))
