-- ===== src/Manager/Threads/Limit.antt =====
-- How far several threads can pass the concurrency limit.
use open_download_manager.Prelude.{
  ℕ, ◌+◌, ◌-◌, ◌≤◌, ◌≡◌, refl, ap, ◌∙◌, inl, inr, String, [], ◌∷◌, Option, none, some, arith,
  Option-cases,
}
use open_download_manager.Prelude.HashMap
use open_download_manager.Core.Libs.{Libs}
use open_download_manager.Core.State.{DownloadState}
use open_download_manager.Core.Backend.{BackendOutcome, DownloadId}
use open_download_manager.Core.Model.{DownloadProgress}
use open_download_manager.Manager.Download.{Download, Host}
use open_download_manager.Manager.Inner.{
  ManagedDownload, Downloads, ManagerInner, count_active, is_active, managed, publish, tick,
  set_downloads, unqueue, requeue, signal, notify,
}
use open_download_manager.Manager.Transition.{transition_state, on_info, progressed, on_progress}
use open_download_manager.Manager.Transition.Effect.{
  transition_state-Frame, transition_state-Moved, on_progress-Frame, on_progress-downloads,
}
use open_download_manager.Manager.Invariant.{
  md_state, weight_active, count_active-update, count_active-insert, count_active-remove,
  Moved-count,
}
use open_download_manager.Manager.Calls.{admit, forget, take_handles, shutdown}
use open_download_manager.Manager.Task.{outcome_info, note_outcome}
use open_download_manager.Manager.Threads.{
  Shared, Atom, tests, drops, begins, updates, moves, progresses, notes, admits, forgets,
  shuts_down, writes, Atoms, here, then,
}

-- An update that changes no download's activity changes no count.
count_active-kept :
    {L : Libs} (id : DownloadId) (f : ManagedDownload L → ManagedDownload L) (m : Downloads L)
    → ((md : ManagedDownload L) → is_active (f md).info.state ≡ is_active md.info.state)
    → count_active (HashMap.update id f m) ≡ count_active m
count_active-kept {L = L} id f m keeps =
    omega (arith, count_active-update id f m, same (HashMap.get id m))
  where
    same :
        (o : Option (ManagedDownload L))
        → weight_active (md_state (HashMap.map_opt f o)) ≡ weight_active (md_state o)
    same none = refl
    same (some md) = rw (keeps md) refl

count_active-take_handles :
    {L : Libs} (m : Downloads L) → count_active (take_handles m) ≡ count_active m
unfolding count_active take_handles HashMap.count
count_active-take_handles [] = refl
count_active-take_handles ((id, md) ∷ m) = rw (count_active-take_handles m) refl

-- Where the manager goes from `s` to `t` and the room in hand from `j` to `k`: the limit stays, and
-- the active downloads with the room in hand are no more than before, unless they were below it.
Keeps : {H : Host} → ℕ → Shared H → Shared H → Type 0
Keeps threads (s, j) (t, k) =
    (t.config ≡ s.config)
    × (count_active s.downloads + j ≤ s.config.max_concurrent_downloads + (threads - 1)
        → count_active t.downloads + k ≤ s.config.max_concurrent_downloads + (threads - 1))

module _ {H : Host} where
  transition_state-count :
      (id : DownloadId) (to : DownloadState) (e : Option String) (s : ManagerInner H)
      → count_active (transition_state id to e s).1.downloads
        ≤ count_active s.downloads + weight_active (some to)
  transition_state-count id to e s =
      Moved-count id to e s.downloads (transition_state id to e s).1.downloads
        (transition_state-Moved id to e s)

  on_progress-count :
      (id : DownloadId) (p : DownloadProgress) (s : ManagerInner H)
      → count_active (on_progress id p s).downloads ≡ count_active s.downloads
  on_progress-count id p s = elim (on_progress-downloads id p s) [
    | inl same ↦ ap count_active same
    | inr (md, now, found, same) ↦
        ap count_active same
        ∙ count_active-kept id (on_info (progressed now p)) s.downloads
            (λ d. unfold on_info progressed in ground arith)
  ]

  note_outcome-count :
      (id : DownloadId) (o : BackendOutcome H.libs) (s : ManagerInner H)
      → (count_active (note_outcome id o s).downloads ≡ count_active s.downloads)
        × ((note_outcome id o s).config ≡ s.config)
  unfolding note_outcome set_downloads tick
  note_outcome-count id o s = elim (Option-cases (HashMap.get id s.downloads)) [
    | inl missing ↦ rw (missing, note_outcome) (refl, refl)
    | inr (md, found) ↦
        rw (found, note_outcome)
          (
            count_active-kept id (on_info (outcome_info (H.clock s.ticks) o)) s.downloads
                (λ d. unfold on_info outcome_info in refl),
            refl,
          )
  ]

  admit-count :
      (id : DownloadId) (d : Download H.libs) (s : ManagerInner H)
      → HashMap.get id s.downloads ≡ none
      → d.state ≡ DownloadState.queued
      → count_active (admit id d s).downloads ≤ count_active s.downloads
  unfolding admit publish requeue set_downloads managed
  admit-count id d s fresh waits =
      count_active-insert id (managed d) s.downloads fresh (rw waits refl)

  forget-count :
      (id : DownloadId) (s : ManagerInner H)
      → (count_active (forget id s).downloads ≤ count_active s.downloads)
        × ((forget id s).config ≡ s.config)
  unfolding forget unqueue signal set_downloads
  forget-count id s =
      let (downloads, config) = unsignalled _ in
      (rw downloads (count_active-remove id s.downloads), config)
    where
      unsignalled :
          (c : Option ℕ) → ((notify c s).downloads ≡ s.downloads) × ((notify c s).config ≡ s.config)
      unsignalled none = unfold notify in (refl, refl)
      unsignalled (some c) = unfold notify in (refl, refl)

  -- What a step does to the limit, the active downloads and the room in hand.
  Atom-Keeps : {threads : ℕ} {x y : Shared H} → Atom threads x y → Keeps threads x y
  unfolding Keeps
  Atom-Keeps (tests room few) = (refl, λ h. omega arith)
  Atom-Keeps drops = (refl, λ h. omega arith)
  Atom-Keeps (begins {s = s} id) = (
    (transition_state-Frame id DownloadState.starting none s).config,
    (λ h. omega (arith, transition_state-count id DownloadState.starting none s)),
  )
  Atom-Keeps (updates {s = s} id f keeps) =
      let same = count_active-kept id f s.downloads (λ d. ap is_active (keeps d)) in
      (unfold set_downloads in refl, λ h. unfold set_downloads in omega (arith, same))
  Atom-Keeps (moves {s = s} id to e idle) =
      let none_taken : weight_active (some to) ≡ 0 = rw idle refl in
      (
        (transition_state-Frame id to e s).config,
        λ h. omega (arith, none_taken, transition_state-count id to e s),
      )
  Atom-Keeps (progresses {s = s} id p) =
      ((on_progress-Frame id p s).config, λ h. omega (arith, on_progress-count id p s))
  Atom-Keeps (notes {s = s} id o) =
      let (same, config) = note_outcome-count id o s in (config, λ h. omega (arith, same))
  Atom-Keeps (admits {s = s} id d fresh waits) = (
    unfold admit publish requeue set_downloads in refl,
    λ h. omega (arith, admit-count id d s fresh waits),
  )
  Atom-Keeps (forgets {s = s} id) =
      let (fewer, config) = forget-count id s in (config, λ h. omega (arith, fewer))
  Atom-Keeps (shuts_down {s = s}) =
      unfold shutdown in (refl, λ h. omega (arith, count_active-take_handles s.downloads))
  Atom-Keeps (writes {s = s} {t = t} same config) =
      (config, λ h. omega (arith, ap count_active same))

  Atoms-Keeps : {threads : ℕ} {x y : Shared H} → Atoms threads x y → Keeps threads x y
  unfolding Keeps
  Atoms-Keeps here = (refl, λ h. h)
  Atoms-Keeps (then r a) =
      let (config, kept) = Atoms-Keeps r in
      let (config', kept') = Atom-Keeps a in
      (config' ∙ config, λ h. ground (arith, config, kept h, kept'))

  pub Atoms-bounded :
      {threads k : ℕ} {s t : ManagerInner H}
      → count_active s.downloads ≤ s.config.max_concurrent_downloads
      → Atoms threads (s, 0) (t, k)
      → (t.config ≡ s.config)
        × (count_active t.downloads + k ≤ s.config.max_concurrent_downloads + (threads - 1))
  unfolding Keeps
  Atoms-bounded within steps =
      let (config, kept) = Atoms-Keeps steps in (config, kept (omega arith))
