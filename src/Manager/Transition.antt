-- ===== src/Manager/Transition.antt =====
-- State changes of one download: `transition_state` and `on_progress` of
-- crates/download-manager/src/manager.rs.
pub mod Effect
use Prim.Native.String.{◌++◌}
use open_download_manager.Prelude.{
  ℕ, ◌≡◌, Bool, true, false, String, Option, none, some, if◌then◌else◌,
}
use open_download_manager.Prelude.HashMap
use open_download_manager.Core.Error.{Error, Result, ok, err}
use open_download_manager.Core.Display.{to_string}
use open_download_manager.Core.Libs.{Libs, SystemTime}
use open_download_manager.Core.State.{
  DownloadState, queued, starting, downloading, paused, completed, failed, cancelled, transition,
  state_eq,
}
use open_download_manager.Core.Backend.{DownloadId}
use open_download_manager.Core.Event.{Event}
use open_download_manager.Core.Model.{DownloadProgress}
use open_download_manager.Manager.Download.{Download, Host}
use open_download_manager.Manager.Inner.{
  ManagedDownload, ManagerInner, Outcome, publish, tick, set_downloads,
}

-- `a.or(b)` of two options.
abbrev pub or_else {ℓ} : {A : Type ℓ} → Option A → Option A → Option A
or_else none b = b
or_else (some a) b = some a

-- The `match to` that updates the fields which depend on the new state.
stamp : {L : Libs} → DownloadState → SystemTime → Option String → Download L → Download L
stamp downloading now error d = record d { started_at = or_else d.started_at (some now) }
stamp completed now error d = record d { completed_at = some now; error = none }
stamp failed now error d = record d { error = error }
stamp cancelled now error d = record d { error = error }
stamp _ now error d = record d { error = or_else error d.error }

unfoldable pub mark :
    {L : Libs} → DownloadState → SystemTime → Option String → Download L → Download L
unfolding stamp
mark to now error d = stamp to now error (record d { state = to; updated_at = now })

unfoldable pub on_info :
    {L : Libs} → (Download L → Download L) → ManagedDownload L → ManagedDownload L
on_info f md = record md { info = f md.info }

unfoldable pub unknown : Libs → DownloadId → Error
unknown L id = Error.internal ("unknown download " ++ L.uuid_to_string id)

-- The bytes of a progress report; the first one moves a starting download to `downloading`.
unfoldable pub progressed : {L : Libs} → SystemTime → DownloadProgress → Download L → Download L
progressed now p d =
    let begun =
      if state_eq d.state starting
      then record d { state = downloading; started_at = or_else d.started_at (some now) }
      else d in
    record begun {
      downloaded_bytes = p.downloaded_bytes;
      total_bytes = or_else p.total_bytes d.total_bytes;
      updated_at = now;
    }

module _ {H : Host} where
  -- The row is saved outside the lock; the event is published only if that succeeds.
  unfoldable pub save_and_publish :
      DownloadId → DownloadState → DownloadState → ManagerInner H → Outcome H (Unit {0})
  save_and_publish id from to s = elim (HashMap.get id s.downloads) [
    | none ↦ (ok tt, publish (Event.state_changed id from to) s)
    | some md ↦ elim (H.store.save s.persistence md.info) [
      | err e ↦ (err e, s)
      | ok c ↦ (ok tt, publish (Event.state_changed id from to) (record s { persistence = c }))
    ]
  ]

  unfoldable pub transition_state :
      DownloadId → DownloadState → Option String → ManagerInner H → Outcome H (Unit {0})
  unfolding save_and_publish unknown
  transition_state id next error s0 =
      let now = H.clock s0.ticks in
      let s = tick s0 in
      elim (HashMap.get id s.downloads) [
        | none ↦ (err (unknown H.libs id), s)
        | some md ↦ elim (transition md.info.state next) [
          | err e ↦ (err (Error.internal (to_string e)), s)
          | ok to ↦
              save_and_publish id md.info.state to
                (set_downloads (HashMap.update id (on_info (mark to now error)) s.downloads) s)
        ]
      ]

  -- A failed save is ignored.
  unfoldable pub save_info : Download H.libs → ManagerInner H → ManagerInner H
  save_info d s = elim (H.store.save s.persistence d) [
    | err e ↦ s
    | ok c ↦ record s { persistence = c }
  ]

  -- The events of a progress report on a download that was in the given state.
  unfoldable pub publish_progress :
      DownloadId → DownloadProgress → DownloadState → ManagerInner H → ManagerInner H
  publish_progress id p was s =
      let s1 =
        if state_eq was starting
        then publish (Event.state_changed id starting downloading) s
        else s in
      publish (Event.progress id p.downloaded_bytes p.total_bytes) s1

  unfoldable pub on_progress : DownloadId → DownloadProgress → ManagerInner H → ManagerInner H
  on_progress id p s0 =
      let now = H.clock s0.ticks in
      let s = tick s0 in
      elim (HashMap.get id s.downloads) [
        | none ↦ s
        | some md ↦ publish_progress id p md.info.state (
            save_info (progressed now p md.info)
              (set_downloads (HashMap.update id (on_info (progressed now p)) s.downloads) s))
      ]
