-- ===== src/Engine/Backend/Completion.antt =====
-- The manager's view of a transfer and what is on disk: `run_download` of
-- crates/download-manager/src/manager.rs over the engine's backend.
use open_download_manager.Prelude.{
  ℕ, ◌≡◌, sym, ◌∙◌, ◌⊎◌, inl, inr, Bool, true, false, List, Option, some, arith,
}
use open_download_manager.Core.Error.{Error, Result, ok, err}
use open_download_manager.Core.Libs.{Libs, SystemTime}
use open_download_manager.Core.State.{DownloadState, completed}
use open_download_manager.Core.Backend.{BackendTask, DownloadId}
use open_download_manager.Manager.Download.{Host}
use open_download_manager.Manager.Inner.{ManagerInner}
use open_download_manager.Manager.Invariant.{state_of}
use open_download_manager.Manager.Task.{answered}
use open_download_manager.Manager.Task.Ending.{IsActive, ending, asked_to_pause, answered_lem}
use open_download_manager.Engine.Storage.{FileStorage, Promises}
use open_download_manager.Engine.Download.{Response, Ending, download}
use open_download_manager.Storage.Fs.{Fs}
use open_download_manager.Engine.Download.Delivery.{delivered, Delivered, download-Delivered}
use open_download_manager.Engine.Backend.{request_of, outcome_of, is_some, run}

ending_not_completed :
    (L : Libs) (e : Error) (b : Bool) → ¬ (some (ending {L = L} (err e) b) ≡ some completed)
ending_not_completed L Error.cancelled true h = ground (arith, h)
ending_not_completed L Error.cancelled false h = ground (arith, h)
ending_not_completed L e b h = ground (arith, h)

module _ (S : FileStorage) (H : Host) (task : BackendTask H.libs) where
  -- What the download's state says of its destination.
  pub Agrees :
      Option DownloadState → Result (Response H.libs) → (before after : Option (List ℕ)) → Type 0
  Agrees st response before after =
      ((st ≡ some completed)
        × ((r : Response H.libs) × (response ≡ ok r) × (after ≡ some (delivered r.body))))
      ⊎ (¬ (st ≡ some completed) × (after ≡ before))

  -- From how the download has ended.
  Agrees-from :
      (content : S.World → Option (List ℕ)) (before : Option (List ℕ))
      (response : Result (Response H.libs)) (id : DownloadId) (s : ManagerInner H)
      (x : Ending S H.libs)
      → IsActive id s
      → Delivered S content response before x
      → Agrees
          (state_of id (answered id (outcome_of x.0) s).downloads)
          response
          before
          (content x.1.0)
  unfolding Agrees outcome_of
  Agrees-from content before response id s (err e, (v, reports)) active same =
      let st = answered_lem id (err e) s active in
      inr ((λ h. ending_not_completed H.libs e (asked_to_pause id s) (sym st ∙ h)), same)
  Agrees-from content before response id s (ok summary, (v, reports)) active
        (r, came, there, counted, announced) =
      inl (answered_lem id (outcome_of (ok summary)) s active, (r, came, there))

  -- When the engine's backend has answered for an active download, one of two is the case: the
  -- manager takes the download to be completed, the server has answered, and the destination holds
  -- all the bytes of the body; or the manager does not take it to be completed, and the destination
  -- is as it was before the task. This takes the promises of the storage as given.
  pub completed_lem :
      (P : Promises S task.destination) (windows : Bool) (at : SystemTime)
      (response : Result (Response H.libs)) (w : S.World) (id : DownloadId) (s : ManagerInner H)
      → IsActive id s
      → let x = run S windows at task response w in
        Agrees (state_of id (answered id x.0 s).downloads) response (P.content w) (P.content x.1.0)
  unfolding run request_of
  completed_lem P windows at response w id s active =
      let go =
        download-Delivered S (request_of task) P windows task.overwrite (is_some task.cancel)
          (is_some task.progress) at response w in
      Agrees-from P.content (P.content w) response id s
        (download S windows task.overwrite (is_some task.cancel) (is_some task.progress) at
          (request_of task) response w)
        active go
