-- ===== src/Manager/Calls/Refusals.antt =====
-- Which calls on a download are refused (crates/download-manager/src/manager.rs).
pub mod Allowed
pub mod Stuck
use open_download_manager.Prelude.{
  String, ◌≡◌, refl, sym, ap, ◌∙◌, Bool, true, false, Option, none, some, arith, Option-cases,
  Bool-cases, inl, inr, ◌==◌,
}
use open_download_manager.Prelude.HashMap
use open_download_manager.Core.Error.{Error, Result, ok, err, is_ok, Result-cases}
use open_download_manager.Core.State.{
  DownloadState, queued, starting, downloading, paused, completed, failed, cancelled,
  is_valid_transition, transition, next_states,
}
use open_download_manager.Core.State.Lifecycle.{transition-of-valid}
use open_download_manager.Core.Backend.{DownloadId}
use open_download_manager.Core.Event.{Event}
use open_download_manager.Manager.Schedule.{schedule}
use open_download_manager.Manager.Invariant.{IsSound, state_of}
use open_download_manager.Manager.Queue.Laws.{has}
use open_download_manager.Manager.Calls.Sound.{not_waiting}
use open_download_manager.Manager.Download.{Download, Host}
use open_download_manager.Manager.Inner.{
  ManagedDownload, ManagerInner, Outcome, publish, tick, set_downloads, unqueue, requeue,
}
use open_download_manager.Manager.Transition.{transition_state, save_and_publish, mark, on_info}
use open_download_manager.Manager.Transition.Effect.{transition_state-Frame, transition_state-moves}
use open_download_manager.Manager.Calls.{
  start, start_in, pause, pause_in, intend, resume, resume_in, cancel, cancel_in, drop_idle, retry,
  retry_in, current, and_then,
}

pub data Control : Type 0 where
  starts pauses resumes cancels retries : Control

abbrev pub perform : {H : Host} → Control → DownloadId → ManagerInner H → Outcome H (Unit {0})
perform starts id s = start id s
perform pauses id s = pause id s
perform resumes id s = resume id s
perform cancels id s = cancel id s
perform retries id s = retry id s

-- The states in which a call is taken, of a download that is known.
abbrev pub allows : Control → Option DownloadState → Bool
allows starts (some queued) = true
allows pauses (some starting) = true
allows pauses (some downloading) = true
allows resumes (some paused) = true
allows retries (some failed) = true
allows cancels (some queued) = true
allows cancels (some paused) = true
allows cancels (some failed) = true
allows cancels (some starting) = true
allows cancels (some downloading) = true
allows _ _ = false

abbrev pub SavesAll : Host → Type 0
SavesAll H = (c : H.store.Conn) (d : Download H.libs) → is_ok (H.store.save c d) ≡ true

module _ {H : Host} (id : DownloadId) (s : ManagerInner H) where
  unfoldable pub in_state : Control → Option DownloadState → Outcome H (Unit {0})
  in_state starts st = start_in id st s
  in_state pauses st = pause_in id st s
  in_state resumes st = resume_in id st s
  in_state cancels st = cancel_in id st s
  in_state retries st = retry_in id st s

  pub perform-in_state : (c : Control) → perform c id s ≡ in_state c (current id s)
  unfolding in_state
  perform-in_state starts = unfold start in refl
  perform-in_state pauses = unfold pause in refl
  perform-in_state resumes = unfold resume in refl
  perform-in_state cancels = unfold cancel in refl
  perform-in_state retries = unfold retry in refl

  pub refused_in :
      (c : Control) (st : Option DownloadState)
      → allows c st ≡ false
      → (is_ok (in_state c st).0 ≡ false) × ((in_state c st).1 ≡ s)
  unfolding in_state start_in pause_in resume_in cancel_in retry_in
  refused_in starts st h = ground (arith, h)
  refused_in pauses st h = ground (arith, h)
  refused_in resumes st h = ground (arith, h)
  refused_in cancels st h = ground (arith, h)
  refused_in retries st h = ground (arith, h)

  -- Each of the five calls start, pause, resume, cancel and retry, on a download whose state does
  -- not allow it or on one that is not known, returns an error and leaves the manager as it was.
  pub perform-refused :
      (c : Control)
      → allows c (current id s) ≡ false
      → (is_ok (perform c id s).0 ≡ false) × ((perform c id s).1 ≡ s)
  perform-refused c h = rw (perform-in_state c) (refused_in c (current id s) h)

  pub current_known :
      (st : DownloadState)
      → current id s ≡ some st
      → (md : ManagedDownload H.libs) × (HashMap.get id s.downloads ≡ some md)
        × (md.info.state ≡ st)
  unfolding current
  current_known st h = elim (Option-cases (HashMap.get id s.downloads)) [
    | inl missing ↦ (let no : none ≡ some st = rw (missing, current) at h in absurd cc)
    | inr (md, found) ↦
        (let yes : some md.info.state ≡ some st = rw (found, current) at h in (md, found, cc))
  ]

  pub current_found :
      (u : ManagerInner H) (md : ManagedDownload H.libs)
      → HashMap.get id u.downloads ≡ some md
      → current id u ≡ some md.info.state
  unfolding current
  current_found u md found = rw (found, current) refl
