-- ===== src/Manager/Calls/Known.antt =====
-- The calls that add and remove a download keep the manager's invariant.
use open_download_manager.Prelude.{
  ◌≡◌, refl, ap, inl, inr, true, false, none, some, arith, ◌==◌, Bool-cases, any,
}
use open_download_manager.Prelude.HashMap
use open_download_manager.Core.Error.{Result-cases}
use open_download_manager.Core.State.{queued}
use open_download_manager.Core.Backend.{DownloadId}
use open_download_manager.Manager.Download.{Download, Host}
use open_download_manager.Manager.Queue.{retain_ne}
use open_download_manager.Manager.Queue
use open_download_manager.Manager.Queue.Laws.{has}
use open_download_manager.Manager.Inner.{
  ManagerInner, publish, unqueue, requeue, tick, set_downloads, managed,
}
use open_download_manager.Manager.Invariant.{IsSound}
use open_download_manager.Manager.Invariant.Steps.{requeue-Inv, insert-Inv, remove-Inv}
use open_download_manager.Manager.Schedule.Invariant.{schedule_lem}
use open_download_manager.Manager.Calls.{
  DownloadSpec, kind_eq, new_download, admit, enqueue, remove, forget,
}
use open_download_manager.Manager.Calls.Sound.{not_waiting, signal-IsSound}

module _ {H : Host} (id : DownloadId) where
  pub remove-IsSound : (s : ManagerInner H) → IsSound s → IsSound (remove id s).1
  unfolding remove
  remove-IsSound s v = elim (Result-cases (H.store.remove (forget id s).persistence id)) [
    | inl (c, done) ↦
        rw (done, remove) ((schedule_lem (record (forget id s) { persistence = c })).2 forgotten)
    | inr (e, refused) ↦ rw (refused, remove) forgotten
  ]
    where
      forgotten : IsSound (forget id s)
      forgotten =
          unfold forget unqueue Queue.remove set_downloads in remove-Inv id (signal-IsSound id s v)

  admit-IsSound :
      (dl : Download H.libs) (s : ManagerInner H)
      → IsSound s
      → HashMap.get id s.downloads ≡ none
      → has id s.running ≡ false
      → dl.state ≡ queued
      → IsSound (admit id dl s)
  unfolding admit publish requeue set_downloads Queue.enqueue managed
  admit-IsSound dl s v fresh idle waits =
      let absent = not_waiting s v id none (rw fresh) (cc) in
      let here : (id == id) ≡ true = ground arith in
      requeue-Inv id (insert-Inv id v (managed dl) fresh (rw waits) idle absent) absent
        (rw (HashMap.get-insert id id (managed dl) s.downloads, here) (ap some waits))

  pub enqueue-IsSound :
      (spec : DownloadSpec H.libs) (s : ManagerInner H)
      → IsSound s
      → HashMap.get id s.downloads ≡ none
      → has id s.running ≡ false
      → IsSound (enqueue id spec s).1
  unfolding enqueue tick
  enqueue-IsSound spec s v fresh idle = elim (Bool-cases (any (kind_eq spec.backend) s.backends)) [
    | inr unknown_kind ↦ rw (unknown_kind, enqueue) v
    | inl known ↦ elim (Result-cases (H.store.save s.persistence (new_download id spec s))) [
      | inr (e, refused) ↦ rw (known, refused, enqueue) v
      | inl (c, saved) ↦
          rw (known, saved, enqueue)
            ((schedule_lem _).2 (
              admit-IsSound (new_download id spec s) (record (tick s) { persistence = c }) v fresh
                idle (unfold new_download in refl)))
    ]
  ]
