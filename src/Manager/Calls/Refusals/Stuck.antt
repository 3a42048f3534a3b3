-- ===== src/Manager/Calls/Refusals/Stuck.antt =====
-- Resuming a download over a store that fails (crates/download-manager/src/manager.rs).
use open_download_manager.Prelude.{
  String, ◌≡◌, refl, sym, ap, ◌∙◌, true, false, Option, none, some, arith, inl, inr, ◌==◌,
}
use open_download_manager.Prelude.HashMap
use open_download_manager.Core.Error.{ok, err, is_ok, Result-cases}
use open_download_manager.Core.State.{
  DownloadState, queued, paused, is_valid_transition, next_states,
}
use open_download_manager.Core.State.Lifecycle.{transition-of-valid}
use open_download_manager.Core.Backend.{DownloadId}
use open_download_manager.Core.Event.{Event}
use open_download_manager.Manager.Schedule.{schedule}
use open_download_manager.Manager.Invariant.{IsSound}
use open_download_manager.Manager.Queue.Laws.{has}
use open_download_manager.Manager.Calls.Sound.{not_waiting}
use open_download_manager.Manager.Download.{Download, Host}
use open_download_manager.Manager.Inner.{
  ManagedDownload, ManagerInner, Outcome, publish, tick, set_downloads, requeue,
}
use open_download_manager.Manager.Transition.{transition_state, save_and_publish, mark, on_info}
use open_download_manager.Manager.Transition.Effect.{transition_state-Frame, transition_state-moves}
use open_download_manager.Manager.Calls.{resume, resume_in, current, and_then}
use open_download_manager.Manager.Calls.Refusals.{current_known, current_found}

module _ {H : Host} (id : DownloadId) (s : ManagerInner H) where
  -- Where the store fails, the move is made in memory and the call fails.
  module _
      (fails : (c : H.store.Conn) (d : Download H.libs) → is_ok (H.store.save c d) ≡ false) where
    save_and_publish-fails :
        (from to : DownloadState) (u : ManagerInner H) (md : ManagedDownload H.libs)
        → HashMap.get id u.downloads ≡ some md
        → is_ok (save_and_publish id from to u).0 ≡ false
    unfolding save_and_publish
    save_and_publish-fails from to u md found =
        elim (Result-cases (H.store.save u.persistence md.info)) [
          | inl (c, saved) ↦
              let never : true ≡ false = ap is_ok (sym saved) ∙ fails u.persistence md.info in
              absurd cc
          | inr (e, refused) ↦ rw (found, refused, save_and_publish) refl
        ]

    transition_state-fails :
        (next : DownloadState) (e : Option String) (md : ManagedDownload H.libs)
        → HashMap.get id s.downloads ≡ some md
        → is_valid_transition md.info.state next ≡ true
        → is_ok (transition_state id next e s).0 ≡ false
    unfolding transition_state tick set_downloads
    transition_state-fails next e md found valid =
        let legal = transition-of-valid md.info.state next valid in
        let change : ManagedDownload H.libs → ManagedDownload H.libs =
          on_info (mark next (H.clock s.ticks) e) in
        let here : (id == id) ≡ true = ground arith in
        let there : HashMap.get id (HashMap.update id change s.downloads) ≡ some (change md) =
          HashMap.get-update id id change s.downloads ∙ rw (here, found) refl in
        rw (found, legal, transition_state)
          (save_and_publish-fails md.info.state next
            (set_downloads (HashMap.update id change s.downloads) (tick s)) (change md) there)

    and_then-err :
        (x : Outcome H (Unit {0})) (f : ManagerInner H → ManagerInner H)
        → is_ok x.0 ≡ false
        → (is_ok (and_then x f).0 ≡ false) × ((and_then x f).1 ≡ x.1)
    and_then-err (ok _, t) f h = absurd cc
    and_then-err (err e, t) f h = (refl, refl)

  -- Where the store fails, resuming a paused download returns an error, and yet the download has left
  -- its pause: it is queued in memory, but not in the queue, from which alone the scheduler starts
  -- downloads. This holds of a sound manager.
  pub resume_stuck :
      IsSound s
      → current id s ≡ some paused
      → ((c : H.store.Conn) (d : Download H.libs) → is_ok (H.store.save c d) ≡ false)
      → (is_ok (resume id s).0 ≡ false)
        × (current id (resume id s).1 ≡ some queued)
        × (has id (resume id s).1.queue.order ≡ false)
  unfolding resume
  resume_stuck v h fails =
      let (md, found, same) = current_known id s paused h in
      let valid : is_valid_transition md.info.state queued ≡ true =
        unfold is_valid_transition next_states in rw same refl in
      let t = transition_state id queued none s in
      let (refused, kept) =
        and_then-err fails t (λ u. schedule (publish (Event.resumed id) (requeue id u)))
          (transition_state-fails fails queued none md found valid) in
      let moved = transition_state-moves id queued none s md found valid in
      let change : ManagedDownload H.libs → ManagedDownload H.libs =
        on_info (mark queued (H.clock s.ticks) none) in
      let here : (id == id) ≡ true = ground arith in
      let there : HashMap.get id (HashMap.update id change s.downloads) ≡ some (change md) =
        HashMap.get-update id id change s.downloads ∙ rw (here, found) refl in
      let absent : has id s.queue.order ≡ false =
        not_waiting s v id (some paused) (rw (found, same) refl) (λ e. ground (arith, e)) in
      unfold resume_in in
      rw (h, kept)
        (
          refused,
          current_found id s t.1 (change md) (ap (HashMap.get id) moved ∙ there)
              ∙ unfold on_info mark in refl,
          rw ((transition_state-Frame id queued none s).queue) absent,
        )
