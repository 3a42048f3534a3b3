-- ===== src/Manager/Schedule.antt =====
-- Starting downloads: `begin_download` and `schedule` of crates/download-manager/src/manager.rs.
pub mod Invariant
use open_download_manager.Prelude.{
  ℕ, zero, suc, ◌+◌, ◌≡◌, List, [], ◌∷◌, ◌++◌, Option, none, some, length,
}
use open_download_manager.Prelude.HashMap
use open_download_manager.Core.Error.{Error, Result, ok, err}
use open_download_manager.Core.State.{starting}
use open_download_manager.Core.Backend.{DownloadId}
use open_download_manager.Core.Event.{Event}
use open_download_manager.Core.Libs.{Libs}
use open_download_manager.Manager.Download.{Host}
use open_download_manager.Manager.Inner.{
  ManagedDownload, ManagerInner, Outcome, Notify, JoinHandle, publish, set_downloads, count_active,
  unqueue,
}
use open_download_manager.Manager.Scheduler.{select_for_start}
use open_download_manager.Manager.Transition.{transition_state}

abbrev pub with_cancel : {L : Libs} → Notify → ManagedDownload L → ManagedDownload L
with_cancel c md = record md { cancel = some c }

abbrev pub with_handle : {L : Libs} → JoinHandle → ManagedDownload L → ManagedDownload L
with_handle h md = record md { handle = some h }

-- `iter().next()`.
abbrev pub first {ℓ} : {A : Type ℓ} → List A → Option A
first [] = none
first (x ∷ xs) = some x

module _ {H : Host} where
  -- A new signal, the spawned task, and both of them noted on the download.
  unfoldable pub spawn : DownloadId → ManagerInner H → ManagerInner H
  spawn id s =
      let cancel = s.next_notify in
      let handle = s.next_handle in
      record s {
        next_notify = suc cancel;
        next_handle = suc handle;
        running = s.running ++ id ∷ [];
        downloads =
            HashMap.update id (with_handle handle)
              (HashMap.update id (with_cancel cancel) s.downloads);
      }

  unfoldable pub begun : DownloadId → Outcome H (Unit {0}) → ManagerInner H
  unfolding spawn
  begun id (err e, s) = s
  begun id (ok _, s) = spawn id (publish (Event.started id) s)

  unfoldable pub begin_download : DownloadId → ManagerInner H → ManagerInner H
  unfolding begun
  begin_download id s = begun id (transition_state id starting none s)

  unfoldable pub to_start : ManagerInner H → Option DownloadId
  to_start s =
      first (select_for_start s.queue (count_active s.downloads) s.config.max_concurrent_downloads)

  -- Each round of the loop takes an id off the queue, so the queue's length bounds the rounds.
  unfoldable pub schedule_loop : ℕ → ManagerInner H → ManagerInner H
  schedule_loop zero s = s
  schedule_loop (suc fuel) s = elim (to_start s) [
    | none ↦ s
    | some id ↦ schedule_loop fuel (begin_download id (unqueue id s))
  ]

  unfoldable pub schedule : ManagerInner H → ManagerInner H
  unfolding schedule_loop
  schedule s = schedule_loop (suc (length s.queue.order)) s
