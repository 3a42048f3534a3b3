-- ===== src/Manager/Recover/Rows.antt =====
-- What a stored row becomes when a manager is opened (crates/download-manager/src/manager.rs).
use open_download_manager.Prelude.{
  ◌≡◌, refl, ap, inl, inr, true, false, List, [], ◌∷◌, ◌++◌, Option, none, some, arith, ◌==◌,
  if◌then◌else◌, Bool-cases,
}
use open_download_manager.Prelude.HashMap
use open_download_manager.Core.Libs.{Libs, SystemTime}
use open_download_manager.Core.State.{DownloadState, queued, failed, state_eq}
use open_download_manager.Core.Backend.{DownloadId}
use open_download_manager.Manager.Config.{RecoveryPolicy}
use open_download_manager.Manager.Download.{Download, Host}
use open_download_manager.Manager.Queue.{Queue}
use open_download_manager.Manager.Queue
use open_download_manager.Manager.Queue.Laws.{has}
use open_download_manager.Manager.Inner.{
  ManagedDownload, ManagerInner, is_active, managed, set_downloads, requeue,
}
use open_download_manager.Manager.Invariant.{Inv, md_state}
use open_download_manager.Manager.Invariant.Steps.{insert-Inv, requeue-Inv}
use open_download_manager.Manager.Recover.{recovered, load, load_and_queue}

-- The state in which a stored download comes back.
abbrev pub recovered_state : RecoveryPolicy → DownloadState → DownloadState
recovered_state RecoveryPolicy.failed s = if is_active s then failed else s
recovered_state RecoveryPolicy.queued s = if is_active s then queued else s

-- The ids that are queued after recovery, in the order of the stored rows.
unfoldable pub queue_of : {L : Libs} → RecoveryPolicy → List (Download L) → List DownloadId
queue_of policy [] = []
queue_of policy (d ∷ rows) =
    let rest = queue_of policy rows in
    if state_eq (recovered_state policy d.state) queued then d.id ∷ rest else rest

abbrev pub ids : {L : Libs} → List (Download L) → List DownloadId
ids [] = []
ids (d ∷ rows) = d.id ∷ ids rows

-- The manager during recovery: nothing is active and nothing runs.
abbrev pub IsIdle : {H : Host} → RecoveryPolicy → List DownloadId → ManagerInner H → Type 0
IsIdle policy order s =
    Inv 0 order [] s.downloads
    × (s.queue.order ≡ order)
    × (s.running ≡ [])
    × (s.config.recover_interrupted ≡ policy)

module _ {H : Host} (policy : RecoveryPolicy) where
  pub load_and_queue-IsIdle :
      (d : Download H.libs) (s : ManagerInner H) (order : List DownloadId)
      → IsIdle policy order s
      → is_active d.state ≡ false
      → HashMap.get d.id s.downloads ≡ none
      → has d.id order ≡ false
      → IsIdle policy
          (if state_eq d.state queued then order ++ d.id ∷ [] else order)
          (load_and_queue d s)
  unfolding load_and_queue load set_downloads requeue Queue.enqueue managed
  load_and_queue-IsIdle d s order (v, same, none_runs, p) idle new absent =
      let w = insert-Inv d.id v (managed d) new idle refl absent in
      let here : (d.id == d.id) ≡ true = ground arith in
      elim (Bool-cases (state_eq d.state queued)) [
        | inr other ↦ rw other (w, same, none_runs, p)
        | inl waits ↦ rw waits (
          requeue-Inv d.id w absent (
              rw (HashMap.get-insert d.id d.id (managed d) s.downloads, here)
                (ap some (state_eq-queued d.state waits))),
          ap (λ o. o ++ d.id ∷ []) same,
          none_runs,
          p,
        )
      ]
    where
      state_eq-queued : (st : DownloadState) → state_eq st queued ≡ true → st ≡ queued
      state_eq-queued st h = ground arith

pub recovered-state :
    {L : Libs} (policy : RecoveryPolicy) (now : SystemTime) (d : Download L)
    → is_active d.state ≡ true
    → ((recovered policy now d).state ≡ recovered_state policy d.state)
      × ((recovered policy now d).id ≡ d.id)
      × (is_active (recovered policy now d).state ≡ false)
unfolding recovered
recovered-state RecoveryPolicy.failed now d active = (rw active, refl, refl)
recovered-state RecoveryPolicy.queued now d active = (rw active, refl, refl)

pub recovered_state_idle :
    (policy : RecoveryPolicy) (st : DownloadState)
    → is_active st ≡ false
    → recovered_state policy st ≡ st
recovered_state_idle RecoveryPolicy.failed st idle = rw idle
recovered_state_idle RecoveryPolicy.queued st idle = rw idle

pub get-none : {L : Libs} (o : Option (ManagedDownload L)) → md_state o ≡ none → o ≡ none
get-none none h = refl
get-none (some md) h = cc
