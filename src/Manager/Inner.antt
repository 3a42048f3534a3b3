-- ===== src/Manager/Inner.antt =====
-- The manager's state (`ManagerInner` of crates/download-manager/src/manager.rs) with the part of
-- the async runtime that it drives: the signals, the spawned tasks and the readings of the clock.
use open_download_manager.Prelude.{
  ℕ, suc, Bool, true, false, List, [], ◌∷◌, ◌++◌, Option, none, some,
}
use open_download_manager.Prelude.HashMap
use open_download_manager.Core.Error.{Result}
use open_download_manager.Core.Libs.{Libs}
use open_download_manager.Core.State.{DownloadState}
use open_download_manager.Core.Backend.{BackendKind, DownloadId}
use open_download_manager.Core.Event.{Event}
use open_download_manager.Manager.Config.{ManagerConfig}
use open_download_manager.Manager.Download.{Download, Host}
use open_download_manager.Manager.Queue.{Queue}
use open_download_manager.Manager.Queue

-- `Arc<Notify>` and `JoinHandle`, by number.
abbrev pub Notify : Type 0
Notify = ℕ

abbrev pub JoinHandle : Type 0
JoinHandle = ℕ

pub record ManagedDownload (L : Libs) : Type 0 where
  pub info : Download L
  pub cancel : Option Notify
  pub handle : Option JoinHandle

unfoldable pub managed : {L : Libs} → Download L → ManagedDownload L
managed info = record { info = info; cancel = none; handle = none }

abbrev pub Downloads : Libs → Type 0
Downloads L = List (DownloadId × ManagedDownload L)

pub record ManagerInner (H : Host) : Type 0 where
  pub config : ManagerConfig
  pub backends : List BackendKind
  pub queue : Queue
  pub downloads : Downloads H.libs
  pub persistence : H.store.Conn
  pub events : List Event  -- as published, oldest first
  pub pause_intents : List DownloadId
  pub ticks : ℕ  -- readings of the clock so far
  pub next_notify : Notify
  pub notified : List Notify  -- signals that hold a permit
  pub next_handle : JoinHandle
  pub running : List DownloadId  -- the downloads whose spawned task has not ended

abbrev pub is_active : DownloadState → Bool
is_active DownloadState.starting = true
is_active DownloadState.downloading = true
is_active _ = false

abbrev pub active_md : {L : Libs} → ManagedDownload L → Bool
active_md md = is_active md.info.state

-- `count_active`.
unfoldable pub count_active : {L : Libs} → Downloads L → ℕ
count_active m = HashMap.count active_md m

cancel_of : {L : Libs} → Option (ManagedDownload L) → Option Notify
cancel_of none = none
cancel_of (some md) = md.cancel

-- The result of a call with the state that it leaves.
abbrev pub Outcome : Host → Type 0 → Type 0
Outcome H A = Result A × ManagerInner H

module _ {H : Host} where
  unfoldable pub publish : Event → ManagerInner H → ManagerInner H
  publish e s = record s { events = s.events ++ e ∷ [] }

  unfoldable pub tick : ManagerInner H → ManagerInner H
  tick s = record s { ticks = suc s.ticks }

  unfoldable pub set_downloads : Downloads H.libs → ManagerInner H → ManagerInner H
  set_downloads m s = record s { downloads = m }

  unfoldable pub unqueue : DownloadId → ManagerInner H → ManagerInner H
  unqueue id s = record s { queue = (Queue.remove s.queue id).0 }

  unfoldable pub requeue : DownloadId → ManagerInner H → ManagerInner H
  requeue id s = record s { queue = Queue.enqueue s.queue id }

  -- `get`.
  unfoldable pub get_info : DownloadId → ManagerInner H → Option (Download H.libs)
  get_info id s = elim (HashMap.get id s.downloads) [ none ↦ none | some md ↦ some md.info ]

  unfoldable pub notify : Option Notify → ManagerInner H → ManagerInner H
  notify none s = s
  notify (some c) s = record s { notified = c ∷ s.notified }

  -- `get(&id).and_then(|md| md.cancel.clone())`, and `notify_one` on what it finds.
  unfoldable pub signal : DownloadId → ManagerInner H → ManagerInner H
  unfolding cancel_of notify
  signal id s = notify (cancel_of (HashMap.get id s.downloads)) s
