-- ===== src/Manager/Calls/Refusals/Allowed.antt =====
-- Which calls on a download succeed (crates/download-manager/src/manager.rs).
use open_download_manager.Prelude.{
  String, ◌≡◌, refl, sym, ap, ◌∙◌, true, false, Option, none, some, arith, Option-cases, Bool-cases,
  inl, inr,
}
use open_download_manager.Prelude.HashMap
use open_download_manager.Core.Error.{ok, err, is_ok, Result-cases}
use open_download_manager.Core.State.{
  DownloadState, queued, starting, downloading, paused, completed, failed, cancelled,
  is_valid_transition, next_states,
}
use open_download_manager.Core.State.Lifecycle.{transition-of-valid}
use open_download_manager.Core.Backend.{DownloadId}
use open_download_manager.Core.Event.{Event}
use open_download_manager.Manager.Schedule.{schedule}
use open_download_manager.Manager.Download.{Host}
use open_download_manager.Manager.Inner.{
  ManagedDownload, ManagerInner, Outcome, publish, tick, set_downloads, unqueue, requeue,
}
use open_download_manager.Manager.Transition.{transition_state, save_and_publish, mark, on_info}
use open_download_manager.Manager.Calls.{
  start_in, pause_in, intend, resume_in, cancel_in, drop_idle, retry_in, current, and_then,
}
use open_download_manager.Manager.Calls.Refusals.{
  Control, starts, pauses, resumes, cancels, retries, perform, allows, SavesAll, in_state,
  perform-in_state, refused_in, current_known,
}

module _ {H : Host} (id : DownloadId) (s : ManagerInner H) where
  -- Where the store saves, nothing else can fail.
  module _ (saves : SavesAll H) where
    save_and_publish-ok :
        (from to : DownloadState) (u : ManagerInner H)
        → is_ok (save_and_publish id from to u).0 ≡ true
    unfolding save_and_publish
    save_and_publish-ok from to u = elim (Option-cases (HashMap.get id u.downloads)) [
      | inl missing ↦ rw (missing, save_and_publish) refl
      | inr (md, found) ↦ elim (Result-cases (H.store.save u.persistence md.info)) [
        | inl (c, saved) ↦ rw (found, saved, save_and_publish) refl
        | inr (e, refused) ↦
            let no : false ≡ true = ap is_ok (sym refused) ∙ saves u.persistence md.info in
            absurd cc
      ]
    ]

    transition_state_saved :
        (next : DownloadState) (e : Option String) (t : ManagerInner H)
        (md : ManagedDownload H.libs)
        → HashMap.get id t.downloads ≡ some md
        → is_valid_transition md.info.state next ≡ true
        → is_ok (transition_state id next e t).0 ≡ true
    unfolding transition_state tick
    transition_state_saved next e t md found valid =
        let legal = transition-of-valid md.info.state next valid in
        rw (found, legal, transition_state)
          (save_and_publish-ok md.info.state next (
            set_downloads (HashMap.update id (on_info (mark next (H.clock t.ticks) e)) t.downloads)
              (tick t)))

    and_then-ok :
        (x : Outcome H (Unit {0})) (f : ManagerInner H → ManagerInner H)
        → is_ok x.0 ≡ true
        → is_ok (and_then x f).0 ≡ true
    and_then-ok (ok _, t) f h = refl
    and_then-ok (err e, t) f h = h

    dropped :
        (st : DownloadState) (md : ManagedDownload H.libs)
        → HashMap.get id s.downloads ≡ some md
        → md.info.state ≡ st
        → is_valid_transition st cancelled ≡ true
        → is_ok (drop_idle id s).0 ≡ true
    unfolding drop_idle
    dropped st md found same valid =
        let e = some "cancelled by user" in
        and_then-ok (transition_state id cancelled e (unqueue id s)) (publish (Event.cancelled id))
          (transition_state_saved cancelled e (unqueue id s) md (unfold unqueue in found)
            (rw same valid))

    requeued :
        (f : ManagerInner H → ManagerInner H) (st : DownloadState) (md : ManagedDownload H.libs)
        → HashMap.get id s.downloads ≡ some md
        → md.info.state ≡ st
        → is_valid_transition st queued ≡ true
        → is_ok (and_then (transition_state id queued none s) f).0 ≡ true
    requeued f st md found same valid =
        and_then-ok (transition_state id queued none s) f
          (transition_state_saved queued none s md found (rw same valid))

    taken_in :
        (c : Control) (st : DownloadState) (md : ManagedDownload H.libs)
        → HashMap.get id s.downloads ≡ some md
        → md.info.state ≡ st
        → allows c (some st) ≡ true
        → is_ok (in_state id s c (some st)).0 ≡ true
    unfolding in_state start_in pause_in intend resume_in cancel_in retry_in is_valid_transition
        next_states
    taken_in starts st md found same h = ground (arith, h)
    taken_in pauses st md found same h = ground (arith, h)
    taken_in resumes st md found same h =
        let e : st ≡ paused = ground (arith, h) in
        rw e (
          requeued (λ t. schedule (publish (Event.resumed id) (requeue id t))) paused md found
            (same ∙ e) refl)
    taken_in retries st md found same h =
        let e : st ≡ failed = ground (arith, h) in
        rw e (requeued (λ t. schedule (requeue id t)) failed md found (same ∙ e) refl)
    taken_in cancels queued md found same h = dropped queued md found same refl
    taken_in cancels paused md found same h = dropped paused md found same refl
    taken_in cancels failed md found same h = dropped failed md found same refl
    taken_in cancels starting md found same h = refl
    taken_in cancels downloading md found same h = refl
    taken_in cancels completed md found same h = cc
    taken_in cancels cancelled md found same h = cc

    not_unknown : (c : Control) → allows c none ≡ false
    not_unknown starts = refl
    not_unknown pauses = refl
    not_unknown resumes = refl
    not_unknown cancels = refl
    not_unknown retries = refl

    taken :
        (c : Control) (st : Option DownloadState)
        → current id s ≡ st
        → allows c st ≡ true
        → is_ok (in_state id s c st).0 ≡ true
    taken c none h permits = let never : true ≡ false = sym permits ∙ not_unknown c in absurd cc
    taken c (some st) h permits =
        let (md, found, same) = current_known id s st h in taken_in c st md found same permits

    in_state-allows :
        (c : Control) (st : Option DownloadState)
        → current id s ≡ st
        → is_ok (in_state id s c st).0 ≡ allows c st
    in_state-allows c st h = elim (Bool-cases (allows c st)) [
      | inl permits ↦ taken c st h permits ∙ sym permits
      | inr denies ↦ (refused_in id s c st denies).0 ∙ sym denies
    ]

    -- Where the store saves, a call on a download succeeds exactly in the states that allow it.
    pub perform-allows : (c : Control) → is_ok (perform c id s).0 ≡ allows c (current id s)
    perform-allows c = rw (perform-in_state id s c) (in_state-allows c (current id s) refl)
