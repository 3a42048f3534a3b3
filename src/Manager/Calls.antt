-- ===== src/Manager/Calls.antt =====
-- The calls of `DownloadManager` (crates/download-manager/src/manager.rs). Each runs as one step.
-- The ids of new downloads, which `Uuid::new_v4` makes, are an argument.
use Prim.Native.String.{◌++◌}
pub mod Sound
pub mod Known
pub mod Shutdown
pub mod Refusals
use open_download_manager.Prelude.{
  ℕ, zero, suc, ◌≤◌, ◌≡◌, Bool, true, false, String, List, [], ◌∷◌, Option, none, some, leb, any,
  if◌then◌else◌, ◌==◌, not,
}
use open_download_manager.Prelude.HashMap
use open_download_manager.Core.Error.{Error, Result, ok, err}
use open_download_manager.Core.Libs.{Libs, PathBuf}
use open_download_manager.Core.State.{
  DownloadState, queued, starting, downloading, paused, completed, failed, cancelled,
}
use open_download_manager.Core.Backend.{BackendKind, http, kind_display, DownloadId}
use open_download_manager.Core.Event.{Event}
use open_download_manager.Manager.Download.{Download, Host}
use open_download_manager.Manager.Queue.{retain_ne}
use open_download_manager.Manager.Inner.{
  ManagedDownload, Downloads, ManagerInner, Outcome, managed, publish, tick, set_downloads, unqueue,
  requeue, get_info, signal, count_active,
}
use open_download_manager.Manager.Transition.{transition_state, unknown}
use open_download_manager.Manager.Schedule.{begin_download, schedule}

pub record DownloadSpec (L : Libs) : Type 0 where
  pub url : L.Url
  pub destination : PathBuf
  pub backend : BackendKind
  pub overwrite : Bool
  pub backend_meta : L.Value

unfoldable pub new_spec : (L : Libs) → L.Url → PathBuf → DownloadSpec L
new_spec L url destination = record {
  url = url;
  destination = destination;
  backend = http;
  overwrite = false;
  backend_meta = L.null;
}

abbrev pub kind_eq : BackendKind → BackendKind → Bool
kind_eq http http = true

-- The names of the states that `{:?}` prints.
debug : Option DownloadState → String
debug none = "None"
debug (some queued) = "Some(Queued)"
debug (some starting) = "Some(Starting)"
debug (some downloading) = "Some(Downloading)"
debug (some paused) = "Some(Paused)"
debug (some completed) = "Some(Completed)"
debug (some failed) = "Some(Failed)"
debug (some cancelled) = "Some(Cancelled)"

-- The error of a call that the download's state does not allow.
refusal : Libs → String → DownloadId → String → Option DownloadState → String → Error
unfolding debug
refusal L before id between state after =
    Error.internal (before ++ L.uuid_to_string id ++ between ++ debug state ++ after)

infos : {L : Libs} → List (ManagedDownload L) → List (Download L)
infos [] = []
infos (md ∷ rest) = md.info ∷ infos rest

unfoldable pub take_handles : {L : Libs} → Downloads L → Downloads L
take_handles [] = []
take_handles ((id, md) ∷ m) = (id, record md { handle = none }) ∷ take_handles m

-- The tasks that go on when those with a handle in the map are aborted.
stopped : {L : Libs} → Downloads L → List DownloadId → List DownloadId
stopped [] running = running
stopped ((id, md) ∷ m) running =
    stopped m (elim md.handle [ none ↦ running | some h ↦ retain_ne id running ])

module _ {H : Host} where
  -- `get(id).map(|d| d.state)`.
  unfoldable pub current : DownloadId → ManagerInner H → Option DownloadState
  current id s = elim (HashMap.get id s.downloads) [ none ↦ none | some md ↦ some md.info.state ]

  unfoldable pub new_download : DownloadId → DownloadSpec H.libs → ManagerInner H → Download H.libs
  new_download id spec s = record {
    id = id;
    url = spec.url;
    destination = spec.destination;
    backend = spec.backend;
    state = queued;
    overwrite = spec.overwrite;
    total_bytes = none;
    downloaded_bytes = 0;
    created_at = H.clock s.ticks;
    updated_at = H.clock s.ticks;
    started_at = none;
    completed_at = none;
    error = none;
    backend_meta = spec.backend_meta;
  }

  -- What follows a successful save of the new row.
  unfoldable pub admit : DownloadId → Download H.libs → ManagerInner H → ManagerInner H
  admit id dl s =
      publish (Event.queued id)
        (requeue id (set_downloads (HashMap.insert id (managed dl) s.downloads) s))

  unfoldable pub enqueue : DownloadId → DownloadSpec H.libs → ManagerInner H → Outcome H DownloadId
  enqueue id spec s =
      if not (any (kind_eq spec.backend) s.backends)
      then (err (Error.internal ("no backend registered for " ++ kind_display spec.backend)), s)
      else elim (H.store.save s.persistence (new_download id spec s)) [
        | err e ↦ (err e, tick s)
        | ok c ↦ (
          ok id,
          schedule (admit id (new_download id spec s) (record (tick s) { persistence = c })),
        )
      ]

  unfoldable pub start_in :
      DownloadId → Option DownloadState → ManagerInner H → Outcome H (Unit {0})
  unfolding refusal
  start_in id (some queued) s =
      if leb s.config.max_concurrent_downloads (count_active s.downloads)
      then (ok tt, s)
      else (ok tt, begin_download id (unqueue id s))
  start_in id state s = (err (refusal H.libs "download " id " is not queued (state: " state ")"), s)

  unfoldable pub start : DownloadId → ManagerInner H → Outcome H (Unit {0})
  unfolding start_in current
  start id s = start_in id (current id s) s

  unfoldable pub intend : DownloadId → ManagerInner H → Outcome H (Unit {0})
  intend id s = (ok tt, signal id (record s { pause_intents = id ∷ s.pause_intents }))

  unfoldable pub pause_in :
      DownloadId → Option DownloadState → ManagerInner H → Outcome H (Unit {0})
  unfolding refusal intend
  pause_in id (some starting) s = intend id s
  pause_in id (some downloading) s = intend id s
  pause_in id state s = (err (refusal H.libs "cannot pause download " id " in state " state ""), s)

  unfoldable pub pause : DownloadId → ManagerInner H → Outcome H (Unit {0})
  unfolding pause_in current
  pause id s = pause_in id (current id s) s

  -- `?` after `transition_state`.
  abbrev pub and_then :
      Outcome H (Unit {0}) → (ManagerInner H → ManagerInner H) → Outcome H (Unit {0})
  and_then (err e, s) f = (err e, s)
  and_then (ok _, s) f = (ok tt, f s)

  unfoldable pub resume_in :
      DownloadId → Option DownloadState → ManagerInner H → Outcome H (Unit {0})
  unfolding refusal
  resume_in id (some paused) s =
      and_then (transition_state id queued none s)
        λ t. schedule (publish (Event.resumed id) (requeue id t))
  resume_in id state s =
      (err (refusal H.libs "cannot resume download " id " in state " state ""), s)

  unfoldable pub resume : DownloadId → ManagerInner H → Outcome H (Unit {0})
  unfolding resume_in current
  resume id s = resume_in id (current id s) s

  unfoldable pub retry_in :
      DownloadId → Option DownloadState → ManagerInner H → Outcome H (Unit {0})
  unfolding refusal
  retry_in id (some failed) s =
      and_then (transition_state id queued none s) λ t. schedule (requeue id t)
  retry_in id state s = (err (refusal H.libs "cannot retry download " id " in state " state ""), s)

  unfoldable pub retry : DownloadId → ManagerInner H → Outcome H (Unit {0})
  unfolding retry_in current
  retry id s = retry_in id (current id s) s

  unfoldable pub drop_idle : DownloadId → ManagerInner H → Outcome H (Unit {0})
  drop_idle id s =
      and_then (transition_state id cancelled (some "cancelled by user") (unqueue id s))
        (publish (Event.cancelled id))

  unfoldable pub cancel_in :
      DownloadId → Option DownloadState → ManagerInner H → Outcome H (Unit {0})
  unfolding refusal drop_idle
  cancel_in id (some starting) s = (ok tt, signal id s)
  cancel_in id (some downloading) s = (ok tt, signal id s)
  cancel_in id (some queued) s = drop_idle id s
  cancel_in id (some paused) s = drop_idle id s
  cancel_in id (some failed) s = drop_idle id s
  cancel_in id (some state) s =
      (err (refusal H.libs "cannot cancel download " id " in state " (some state) ""), s)
  cancel_in id none s = (err (unknown H.libs id), s)

  unfoldable pub cancel : DownloadId → ManagerInner H → Outcome H (Unit {0})
  unfolding cancel_in current
  cancel id s = cancel_in id (current id s) s

  unfoldable pub forget : DownloadId → ManagerInner H → ManagerInner H
  forget id s = let t = unqueue id (signal id s) in set_downloads (HashMap.remove id t.downloads) t

  unfoldable pub remove : DownloadId → ManagerInner H → Outcome H (Unit {0})
  unfolding forget
  remove id s =
      let t = forget id s in
      elim (H.store.remove t.persistence id) [
        | err e ↦ (err e, t)
        | ok c ↦ (ok tt, schedule (record t { persistence = c }))
      ]

  unfoldable pub list : ManagerInner H → List (Download H.libs)
  unfolding infos
  list s = infos (HashMap.values s.downloads)

  -- Every handle in the map is taken, and its task is stopped.
  unfoldable pub shutdown : ManagerInner H → ManagerInner H
  unfolding stopped take_handles
  shutdown s = record s {
    downloads = take_handles s.downloads;
    running = stopped s.downloads s.running;
  }
