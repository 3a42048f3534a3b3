-- ===== src/Manager/Task/Ending.antt =====
-- The state in which a task leaves its download (`run_download` of
-- crates/download-manager/src/manager.rs).
use open_download_manager.Prelude.{
  ◌≡◌, refl, ap, ◌∙◌, Bool, true, false, String, ◌∷◌, Option, none, some, arith, any, ◌==◌,
}
use open_download_manager.Prelude.HashMap
use open_download_manager.Core.Error.{Error, Result, ok, err}
use open_download_manager.Core.Display.{to_string}
use open_download_manager.Core.Libs.{Libs}
use open_download_manager.Core.State.{
  DownloadState, starting, downloading, paused, completed, failed, cancelled, is_valid_transition,
}
use open_download_manager.Core.Backend.{BackendOutcome, DownloadId}
use open_download_manager.Manager.Download.{Host}
use open_download_manager.Manager.Inner.{
  ManagedDownload, ManagerInner, is_active, publish, tick, set_downloads, signal, notify,
}
use open_download_manager.Manager.Transition.{on_info, mark}
use open_download_manager.Manager.Transition.Effect.{transition_state-moves}
use open_download_manager.Manager.Invariant.{state_of, mark-state}
use open_download_manager.Manager.Calls.{pause, cancel, pause_in, cancel_in, intend, current}
use open_download_manager.Manager.Task.{
  outcome_info, note_outcome, attempt, finish_ok, finish_err, take_intent, answered,
}

-- The state that an answer of the backend calls for, with whether a pause was asked for.
abbrev pub ending : {L : Libs} → Result (BackendOutcome L) → Bool → DownloadState
ending (ok o) asked = completed
ending (err Error.cancelled) true = paused
ending (err Error.cancelled) false = cancelled
ending (err e) asked = failed

abbrev pub asked_to_pause : {H : Host} → DownloadId → ManagerInner H → Bool
asked_to_pause id s = any (λ x. x == id) s.pause_intents

abbrev is_end : DownloadState → Bool
is_end completed = true
is_end paused = true
is_end cancelled = true
is_end failed = true
is_end _ = false

active-may_end :
    (from next : DownloadState)
    → is_active from ≡ true
    → is_end next ≡ true
    → is_valid_transition from next ≡ true
unfolding is_valid_transition
active-may_end from next h k = ground arith

-- Where a download is known and active.
abbrev pub IsActive : {H : Host} → DownloadId → ManagerInner H → Type 0
IsActive {H} id s =
    (md : ManagedDownload H.libs) × (HashMap.get id s.downloads ≡ some md)
    × (is_active md.info.state ≡ true)

module _ {H : Host} (id : DownloadId) where
  attempt-state :
      (next : DownloadState) (e : Option String) (s : ManagerInner H)
      → is_end next ≡ true
      → IsActive id s
      → state_of id (attempt id next e s).downloads ≡ some next
  unfolding on_info
  attempt-state next e s end (md, found, active) =
      let here : (id == id) ≡ true = ground arith in
      let valid = active-may_end md.info.state next active end in
      rw (
        transition_state-moves id next e s md found valid,
        HashMap.get-update id id (on_info (mark next (H.clock s.ticks) e)) s.downloads,
        here,
        found,
        mark-state next (H.clock s.ticks) e md.info,
      )

  note_outcome-IsActive :
      (o : BackendOutcome H.libs) (s : ManagerInner H)
      → IsActive id s
      → IsActive id (note_outcome id o s)
  unfolding note_outcome on_info outcome_info set_downloads tick
  note_outcome-IsActive o s (md, found, active) =
      let here : (id == id) ≡ true = ground arith in
      let f = outcome_info (H.clock s.ticks) o in
      (
        on_info f md,
        rw (found, note_outcome)
            (rw (HashMap.get-update id id (on_info f) s.downloads, here, found) refl),
        active,
      )

  finish_err-state :
      (e : Error) (b : Bool) (s : ManagerInner H)
      → IsActive id s
      → state_of id (finish_err id e b s).downloads ≡ some (ending {L = H.libs} (err e) b)
  unfolding finish_err publish
  finish_err-state Error.cancelled true s active =
      attempt-state paused (some "paused by user") s refl active
  finish_err-state Error.cancelled false s active =
      attempt-state cancelled (some "cancelled by user") s refl active
  finish_err-state e b s active = attempt-state failed (some (to_string e)) s refl active

  -- When the backend has answered, and before the scheduler runs, an active download is completed
  -- if the answer is a success, paused if it is a cancellation and a pause was asked for, cancelled
  -- if it is any other cancellation, and failed if it is any other error.
  pub answered_lem :
      (r : Result (BackendOutcome H.libs)) (s : ManagerInner H)
      → IsActive id s
      → state_of id (answered id r s).downloads ≡ some (ending r (asked_to_pause id s))
  unfolding answered finish_ok publish take_intent
  answered_lem (ok o) s active =
      attempt-state completed none (note_outcome id o s) refl (note_outcome-IsActive o s active)
  answered_lem (err e) s active = finish_err-state e (asked_to_pause id s) (take_intent id s) active

  signal-intents : (s : ManagerInner H) → (signal id s).pause_intents ≡ s.pause_intents
  unfolding signal notify
  signal-intents s = ground arith

  signal-downloads : (s : ManagerInner H) → (signal id s).downloads ≡ s.downloads
  unfolding signal notify
  signal-downloads s = ground arith

  pause_in-downloads :
      (o : Option DownloadState) (s : ManagerInner H) → (pause_in id o s).1.downloads ≡ s.downloads
  unfolding pause_in intend
  pause_in-downloads (some starting) s = signal-downloads _
  pause_in-downloads (some downloading) s = signal-downloads _
  pause_in-downloads o s = refl

  cancel_in-keeps :
      (st : DownloadState) (s : ManagerInner H)
      → is_active st ≡ true
      → ((cancel_in id (some st) s).1.downloads ≡ s.downloads)
        × ((cancel_in id (some st) s).1.pause_intents ≡ s.pause_intents)
  unfolding cancel_in
  cancel_in-keeps starting s h = (signal-downloads s, signal-intents s)
  cancel_in-keeps downloading s h = (signal-downloads s, signal-intents s)
  cancel_in-keeps st s h = absurd (ground arith)

  asked :
      (s : ManagerInner H)
      → asked_to_pause id (signal id (record s { pause_intents = id ∷ s.pause_intents })) ≡ true
  asked s = ap (any (λ x. x == id)) (signal-intents _) ∙ ground arith

  pause_in-asks :
      (st : DownloadState) (s : ManagerInner H)
      → is_active st ≡ true
      → asked_to_pause id (pause_in id (some st) s).1 ≡ true
  unfolding pause_in intend
  pause_in-asks starting s h = asked s
  pause_in-asks downloading s h = asked s
  pause_in-asks st s h = absurd (ground arith)

  current_lem :
      (s : ManagerInner H) (md : ManagedDownload H.libs)
      → HashMap.get id s.downloads ≡ some md
      → current id s ≡ some md.info.state
  unfolding current
  current_lem s md found = rw (found, current) refl

  pause-IsActive :
      (s : ManagerInner H)
      → IsActive id s
      → IsActive id (pause id s).1 × (asked_to_pause id (pause id s).1 ≡ true)
  unfolding pause
  pause-IsActive s (md, found, active) = (
    (md, rw (pause_in-downloads (current id s) s) found, active),
    rw (current_lem s md found) (pause_in-asks md.info.state s active),
  )

  cancel-IsActive :
      (s : ManagerInner H)
      → IsActive id s
      → IsActive id (cancel id s).1 × ((cancel id s).1.pause_intents ≡ s.pause_intents)
  unfolding cancel
  cancel-IsActive s (md, found, active) =
      let (same, intents) = cancel_in-keeps md.info.state s active in
      rw (current_lem s md found) ((md, rw same found, active), intents)

  -- A cancellation does not take back a request to pause: a download that runs, is asked to pause
  -- and is then cancelled by the user ends as paused when its backend stops.
  pub pause_outlasts_cancel :
      (s : ManagerInner H)
      → IsActive id s
      → state_of id (answered id (err Error.cancelled) (cancel id (pause id s).1).1).downloads
        ≡ some paused
  pause_outlasts_cancel s active =
      let (paused_active, asked) = pause-IsActive s active in
      let (still_active, same) = cancel-IsActive (pause id s).1 paused_active in
      let t = (cancel id (pause id s).1).1 in
      let asked_still : asked_to_pause id t ≡ true = ap (any (λ x. x == id)) same ∙ asked in
      answered_lem (err Error.cancelled) t still_active
      ∙ ap (λ b. some (ending {L = H.libs} (err Error.cancelled) b)) asked_still
