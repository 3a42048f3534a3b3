-- ===== src/Manager/Threads.antt =====
-- Several threads on one manager (crates/download-manager/src/manager.rs). Each step is what one thread
-- does under one hold of the lock on the downloads, or between two such holds; the steps of all threads
-- come in any order. `start` and each round of `schedule` test for room first, under one hold, and
-- begin a download under another; in between, the thread has the room in hand. The store, the
-- events and the other fields may change at any time: where a step writes to them as well, `writes`
-- takes that back or brings it later.
pub mod Limit
pub mod Whole
pub mod Calls
pub mod History
use open_download_manager.Prelude.{ℕ, suc, ◌<◌, ◌≡◌, false, String, Option, none}
use open_download_manager.Prelude.HashMap
use open_download_manager.Core.State.{DownloadState, queued, starting}
use open_download_manager.Core.Backend.{BackendOutcome, DownloadId}
use open_download_manager.Core.Model.{DownloadProgress}
use open_download_manager.Manager.Download.{Download, Host}
use open_download_manager.Manager.Inner.{
  ManagedDownload, ManagerInner, count_active, is_active, set_downloads,
}
use open_download_manager.Manager.Transition.{transition_state, on_progress}
use open_download_manager.Manager.Calls.{admit, forget, shutdown}
use open_download_manager.Manager.Task.{note_outcome}

-- The manager, and how many threads have room in hand.
abbrev pub Shared : Host → Type 0
Shared H = ManagerInner H × ℕ

-- `threads` is how many threads there are; each has room in hand at most once.
module _ {H : Host} (threads : ℕ) where
  pub data Atom : Shared H → Shared H → Type 0 where
    tests :
        {s : ManagerInner H} {k : ℕ}
        → count_active s.downloads < s.config.max_concurrent_downloads
        → k < threads
        → Atom (s, k) (s, suc k)
    drops : {s : ManagerInner H} {k : ℕ} → Atom (s, suc k) (s, k)
    begins :
        {s : ManagerInner H} {k : ℕ} (id : DownloadId)
        → Atom (s, suc k) ((transition_state id starting none s).1, k)
    -- A write to a download that is not to its state.
    updates :
        {s : ManagerInner H} {k : ℕ} (id : DownloadId)
        (f : ManagedDownload H.libs → ManagedDownload H.libs)
        → ((md : ManagedDownload H.libs) → (f md).info.state ≡ md.info.state)
        → Atom (s, k) (set_downloads (HashMap.update id f s.downloads) s, k)
    moves :
        {s : ManagerInner H} {k : ℕ} (id : DownloadId) (to : DownloadState) (e : Option String)
        → is_active to ≡ false
        → Atom (s, k) ((transition_state id to e s).1, k)
    progresses :
        {s : ManagerInner H} {k : ℕ} (id : DownloadId) (p : DownloadProgress)
        → Atom (s, k) (on_progress id p s, k)
    notes :
        {s : ManagerInner H} {k : ℕ} (id : DownloadId) (o : BackendOutcome H.libs)
        → Atom (s, k) (note_outcome id o s, k)
    admits :
        {s : ManagerInner H} {k : ℕ} (id : DownloadId) (d : Download H.libs)
        → HashMap.get id s.downloads ≡ none
        → d.state ≡ queued
        → Atom (s, k) (admit id d s, k)
    forgets : {s : ManagerInner H} {k : ℕ} (id : DownloadId) → Atom (s, k) (forget id s, k)
    shuts_down : {s : ManagerInner H} {k : ℕ} → Atom (s, k) (shutdown s, k)
    -- A write to the queue, the store, the events, the signals or the intents.
    writes :
        {s t : ManagerInner H} {k : ℕ}
        → t.downloads ≡ s.downloads
        → t.config ≡ s.config
        → Atom (s, k) (t, k)

  pub data Atoms (x : Shared H) : Shared H → Type 0 where
    here : Atoms x x
    then : {y z : Shared H} → Atoms x y → Atom y z → Atoms x z
