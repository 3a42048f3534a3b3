-- ===== src/Manager/Transition/Effect.antt =====
-- What a state change does to the manager's state: it touches one download, and moves it along an
-- edge of the lifecycle.
use open_download_manager.Prelude.{
  ◌≡◌, ◌∙◌, ◌⊎◌, inl, inr, true, String, Option, some, arith, Option-cases,
}
use open_download_manager.Prelude.HashMap
use open_download_manager.Core.Error.{ok, Result-cases}
use open_download_manager.Core.Libs.{Libs, SystemTime}
use open_download_manager.Core.State.{DownloadState, is_valid_transition, transition}
use open_download_manager.Core.State.Lifecycle.{transition-eq-ok, transition-of-valid}
use open_download_manager.Core.Backend.{DownloadId}
use open_download_manager.Core.Model.{DownloadProgress}
use open_download_manager.Manager.Download.{Download, Host}
use open_download_manager.Manager.Inner.{
  ManagedDownload, Downloads, ManagerInner, publish, tick, set_downloads,
}
use open_download_manager.Manager.Transition.{
  mark, on_info, transition_state, progressed, on_progress, save_and_publish, save_info,
  publish_progress,
}

pub record Frame {H : Host} (s t : ManagerInner H) : Type 0 where
  pub config : t.config ≡ s.config
  pub backends : t.backends ≡ s.backends
  pub queue : t.queue ≡ s.queue
  pub pause_intents : t.pause_intents ≡ s.pause_intents
  pub running : t.running ≡ s.running
  pub notified : t.notified ≡ s.notified

-- The downloads stay as they are, or the one that is named makes a legal move.
abbrev pub Moved :
    {L : Libs} → DownloadId → DownloadState → Option String → Downloads L → Downloads L → Type 0
Moved {L} id next e m m' =
    (m' ≡ m)
    ⊎ ((md : ManagedDownload L) × (now : SystemTime) × (HashMap.get id m ≡ some md)
        × (is_valid_transition md.info.state next ≡ true)
        × (m' ≡ HashMap.update id (on_info (mark next now e)) m))

module _ {H : Host} (id : DownloadId) (next : DownloadState) (e : Option String) where
  pub transition_state-Frame : (s : ManagerInner H) → Frame s (transition_state id next e s).1
  unfolding transition_state publish tick set_downloads
  transition_state-Frame s = ground arith

  save_and_publish-downloads :
      (from to : DownloadState) (s : ManagerInner H)
      → (save_and_publish id from to s).1.downloads ≡ s.downloads
  unfolding save_and_publish publish
  save_and_publish-downloads from to s = ground arith

  transition_state_found :
      (s : ManagerInner H) (md : ManagedDownload H.libs) (to : DownloadState)
      → HashMap.get id s.downloads ≡ some md
      → transition md.info.state next ≡ ok to
      → (transition_state id next e s).1.downloads
        ≡ HashMap.update id (on_info (mark to (H.clock s.ticks) e)) s.downloads
  unfolding transition_state tick set_downloads
  transition_state_found s md to found moved =
      rw (found, moved, transition_state) (save_and_publish-downloads _ _ _)

  -- Where the download is known and the move is legal, it is made, also if the save fails.
  pub transition_state-moves :
      (s : ManagerInner H) (md : ManagedDownload H.libs)
      → HashMap.get id s.downloads ≡ some md
      → is_valid_transition md.info.state next ≡ true
      → (transition_state id next e s).1.downloads
        ≡ HashMap.update id (on_info (mark next (H.clock s.ticks) e)) s.downloads
  transition_state-moves s md found valid =
      transition_state_found s md next found (transition-of-valid md.info.state next valid)

  pub transition_state-Moved :
      (s : ManagerInner H) → Moved id next e s.downloads (transition_state id next e s).1.downloads
  unfolding transition_state tick
  transition_state-Moved s = elim (Option-cases (HashMap.get id s.downloads)) [
    | inl missing ↦ inl (ground arith)
    | inr (md, found) ↦ elim (Result-cases (transition md.info.state next)) [
      | inr (x, refused) ↦ inl (ground arith)
      | inl (to, moved) ↦
          let (valid, same) = transition-eq-ok md.info.state next to moved in
          inr (md, H.clock s.ticks, found, valid, transition_state-moves s md found valid)
    ]
  ]

  pub transition_state-ok :
      (s : ManagerInner H)
      → (transition_state id next e s).0 ≡ ok tt
      → (md : ManagedDownload H.libs) × (HashMap.get id s.downloads ≡ some md)
        × (is_valid_transition md.info.state next ≡ true)
  unfolding transition_state tick
  transition_state-ok s done = elim (Option-cases (HashMap.get id s.downloads)) [
    | inl missing ↦ absurd (ground arith)
    | inr (md, found) ↦ elim (Result-cases (transition md.info.state next)) [
      | inr (x, refused) ↦ absurd (ground arith)
      | inl (to, moved) ↦ (md, found, (transition-eq-ok md.info.state next to moved).0)
    ]
  ]

module _ {H : Host} (id : DownloadId) (p : DownloadProgress) where
  pub on_progress-Frame : (s : ManagerInner H) → Frame s (on_progress id p s)
  unfolding on_progress publish_progress save_info publish tick set_downloads
  on_progress-Frame s = ground arith

  save_info-downloads :
      (d : Download H.libs) (s : ManagerInner H) → (save_info d s).downloads ≡ s.downloads
  unfolding save_info
  save_info-downloads d s = ground arith

  publish_progress-downloads :
      (was : DownloadState) (s : ManagerInner H)
      → (publish_progress id p was s).downloads ≡ s.downloads
  unfolding publish_progress publish
  publish_progress-downloads was s = ground arith

  pub on_progress-downloads :
      (s : ManagerInner H)
      → ((on_progress id p s).downloads ≡ s.downloads)
        ⊎ ((md : ManagedDownload H.libs) × (now : SystemTime) × (HashMap.get id s.downloads
              ≡ some md)
            × ((on_progress id p s).downloads
                ≡ HashMap.update id (on_info (progressed now p)) s.downloads))
  unfolding on_progress tick set_downloads
  on_progress-downloads s = elim (Option-cases (HashMap.get id s.downloads)) [
    | inl missing ↦ inl (ground arith)
    | inr (md, found) ↦ inr (
      md,
      H.clock s.ticks,
      found,
      rw (found, on_progress) (publish_progress-downloads _ _ ∙ save_info-downloads _ _),
    )
  ]
