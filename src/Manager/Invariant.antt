-- ===== src/Manager/Invariant.antt =====
-- The manager's invariant, and the lemmas on single downloads from which each call keeps it.
pub mod Steps
use open_download_manager.Prelude.{
  ℕ, suc, ◌+◌, ◌≤◌, ◌<◌, ◌≡◌, refl, sym, ap, ◌∙◌, ◌⊎◌, inl, inr, Bool, true, false, String, List,
  [], ◌∷◌, Option, none, some, arith, ◌==◌, if◌then◌else◌, Option-cases, Bool-cases, ==→eq,
  Bool-cases,
}
use open_download_manager.Prelude.HashMap
use open_download_manager.Core.Libs.{Libs, SystemTime}
use open_download_manager.Core.State.{
  DownloadState, queued, starting, downloading, paused, completed, failed, cancelled,
  is_valid_transition,
}
use open_download_manager.Core.Backend.{DownloadId}
use open_download_manager.Core.Model.{DownloadProgress}
use open_download_manager.Manager.Queue.Laws.{has, nodup}
use open_download_manager.Manager.Download.{Download, Host}
use open_download_manager.Manager.Inner.{
  ManagedDownload, Downloads, ManagerInner, count_active, is_active, active_md,
}
use open_download_manager.Manager.Transition.{mark, on_info, progressed}
use open_download_manager.Manager.Transition.Effect.{Moved}

abbrev pub md_state : {L : Libs} → Option (ManagedDownload L) → Option DownloadState
md_state none = none
md_state (some md) = some md.info.state

-- The lifecycle state of a download, if the manager knows it.
abbrev pub state_of : {L : Libs} → DownloadId → Downloads L → Option DownloadState
state_of id m = md_state (HashMap.get id m)

-- Whether a task may still run for a download in this state; a task outlives its removed download.
abbrev pub may_run : Option DownloadState → Bool
may_run none = true
may_run (some s) = is_active s

-- At most `limit` downloads are active; the queue names a download at most once, and only queued
-- ones; a download has at most one running task, and only while it is active or after its removal.
pub record Inv {L : Libs} (limit : ℕ) (order running : List DownloadId) (m : Downloads L)
    : Type 0 where
  pub capped : count_active m ≤ limit
  pub distinct : nodup order ≡ true
  pub waiting : (j : DownloadId) → has j order ≡ true → state_of j m ≡ some queued
  pub one_task : nodup running ≡ true
  pub tasked : (j : DownloadId) → has j running ≡ true → may_run (state_of j m) ≡ true

abbrev pub IsSound : {H : Host} → ManagerInner H → Type 0
IsSound s = Inv s.config.max_concurrent_downloads s.queue.order s.running s.downloads

pub mark-state :
    {L : Libs} (to : DownloadState) (now : SystemTime) (e : Option String) (d : Download L)
    → (mark to now e d).state ≡ to
unfolding mark
mark-state queued now e d = refl
mark-state starting now e d = refl
mark-state downloading now e d = refl
mark-state paused now e d = refl
mark-state completed now e d = refl
mark-state failed now e d = refl
mark-state cancelled now e d = refl

abbrev pub weight_active : Option DownloadState → ℕ
weight_active none = 0
weight_active (some s) = if is_active s then 1 else 0

weight-md_state :
    {L : Libs} (o : Option (ManagedDownload L))
    → HashMap.weight_opt active_md o ≡ weight_active (md_state o)
weight-md_state none = refl
weight-md_state (some md) = refl

-- An update changes the number of active downloads by what it does to the one download.
pub count_active-update :
    {L : Libs} (id : DownloadId) (f : ManagedDownload L → ManagedDownload L) (m : Downloads L)
    → count_active (HashMap.update id f m) + weight_active (md_state (HashMap.get id m))
      ≡ count_active m + weight_active (md_state (HashMap.map_opt f (HashMap.get id m)))
unfolding count_active
count_active-update id f m =
    rw
      (
        ← weight-md_state (HashMap.get id m),
        ← weight-md_state (HashMap.map_opt f (HashMap.get id m)),
      )
      (HashMap.count-update active_md id f m)

pub count_active-insert :
    {L : Libs} (id : DownloadId) (md : ManagedDownload L) (m : Downloads L)
    → HashMap.get id m ≡ none
    → is_active md.info.state ≡ false
    → count_active (HashMap.insert id md m) ≤ count_active m
unfolding count_active
count_active-insert id md m fresh waits =
    let h = HashMap.count-insert active_md id md m in
    let w : HashMap.weight active_md md ≡ 0 = rw waits in omega (arith, h, w)

pub count_active-remove :
    {L : Libs} (id : DownloadId) (m : Downloads L)
    → count_active (HashMap.remove id m) ≤ count_active m
unfolding count_active
count_active-remove id m = HashMap.count-remove active_md id m

pub state_of-update :
    {L : Libs} (id j : DownloadId) (f : ManagedDownload L → ManagedDownload L) (m : Downloads L)
    → state_of j (HashMap.update id f m)
      ≡ (if id == j then md_state (HashMap.map_opt f (HashMap.get j m)) else state_of j m)
state_of-update id j f m = rw (HashMap.get-update id j f m) (ground arith)

module _ {L : Libs} (id : DownloadId) (next : DownloadState) (e : Option String)
    (m m' : Downloads L) where
  moved_weight :
      (md : ManagedDownload L) (now : SystemTime)
      → HashMap.get id m ≡ some md
      → m' ≡ HashMap.update id (on_info (mark next now e)) m
      → count_active m' + weight_active (some md.info.state)
        ≡ count_active m + weight_active (some next)
  unfolding on_info
  moved_weight md now found same =
      let h = count_active-update id (on_info (mark next now e)) m in
      rw same (rw (found, mark-state next now e md.info) at h)

  -- A move takes at most one slot, and none where its target is not active.
  pub Moved-count :
      Moved id next e m m' → count_active m' ≤ count_active m + weight_active (some next)
  Moved-count (inl same) = rw same (omega arith)
  Moved-count (inr (md, now, found, valid, same)) = omega (arith, moved_weight md now found same)

  pub Moved-state_of :
      (j : DownloadId)
      → Moved id next e m m'
      → (state_of j m' ≡ state_of j m)
        ⊎ ((id ≡ j)
            × (state_of j m' ≡ some next)
            × ((s : DownloadState) × (state_of j m ≡ some s) × (is_valid_transition s next ≡ true)))
  unfolding on_info
  Moved-state_of j (inl same) = inl (rw same)
  Moved-state_of j (inr (md, now, found, valid, same)) = elim (Bool-cases (id == j)) [
    | inl hit ↦ inr (
      ground arith,
      rw (same, state_of-update, hit, ← ==→eq hit, found, mark-state next now e md.info),
      (md.info.state, rw (← ==→eq hit, found), valid),
    )
    | inr miss ↦ inl (rw (same, state_of-update, miss))
  ]
