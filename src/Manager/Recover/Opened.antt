-- ===== src/Manager/Recover/Opened.antt =====
-- What a manager is after it has been opened over a store.
use open_download_manager.Prelude.{ℕ, ◌≡◌, refl, true, List, [], none, arith}
use open_download_manager.Prelude.HashMap
use open_download_manager.Core.Error.{ok, err}
use open_download_manager.Core.Libs.{Libs}
use open_download_manager.Core.Backend.{DownloadId, BackendKind}
use open_download_manager.Manager.Config.{ManagerConfig}
use open_download_manager.Manager.Download.{Download, Host}
use open_download_manager.Manager.Queue.{Queue}
use open_download_manager.Manager.Queue
use open_download_manager.Manager.Queue.Laws.{nodup}
use open_download_manager.Manager.Inner.{ManagerInner, Downloads, Outcome, count_active}
use open_download_manager.Manager.Invariant.{Inv, IsSound, state_of}
use open_download_manager.Manager.Recover.{recover_all, recover, fresh, open_manager, opened}
use open_download_manager.Manager.Recover.Rows.{queue_of, ids, IsIdle}
use open_download_manager.Manager.Recover.Sound.{state_in, recover_all-rows}

Inv-mono :
    {L : Libs} {order : List DownloadId} {m : Downloads L} (limit : ℕ)
    → Inv 0 order [] m
    → Inv limit order [] m
Inv-mono limit v = record {
  capped = omega (arith, v.capped);
  distinct = v.distinct;
  waiting = v.waiting;
  one_task = v.one_task;
  tasked = v.tasked;
}

module _ (H : Host) (config : ManagerConfig) (backends : List BackendKind)
    (conn : H.store.Conn) where
  opened_lem :
      (r : Outcome H (Unit {0})) (s : ManagerInner H) → opened r ≡ ok s → (r.0 ≡ ok tt) × (r.1 ≡ s)
  unfolding opened
  opened_lem (err e, t) s h = cc
  opened_lem (ok tt, t) s h = (refl, ground arith)

  fresh-IsIdle : IsIdle config.recover_interrupted [] (fresh {H = H} config backends conn)
  unfolding fresh Queue.new count_active HashMap.count
  fresh-IsIdle = (
    record {
      capped = omega arith;
      distinct = refl;
      waiting = λ j h. cc;
      one_task = refl;
      tasked = λ j h. cc;
    },
    refl,
    refl,
    refl,
  )

  recover-fresh :
      (rows : List (Download H.libs))
      → H.store.list conn ≡ ok rows
      → recover (fresh {H = H} config backends conn) ≡ recover_all rows (fresh config backends conn)
  unfolding fresh recover
  recover-fresh rows listed = rw (listed, recover)

  idle_manager :
      (order : List DownloadId) (s : ManagerInner H)
      → IsIdle config.recover_interrupted order s
      → IsSound s × (count_active s.downloads ≡ 0) × (s.queue.order ≡ order)
  idle_manager order s (v, same, quiet, p) = (
    rw (same, quiet) (Inv-mono s.config.max_concurrent_downloads v),
    omega (arith, v.capped),
    same,
  )

  -- A manager that has been opened over rows with distinct ids is sound and has nothing active;
  -- every stored download is back in its recovered state and no other is known, and the queue
  -- holds those that are queued, in the order of the rows.
  pub open_manager-IsSound :
      (rows : List (Download H.libs)) (s : ManagerInner H)
      → H.store.list conn ≡ ok rows
      → nodup (ids rows) ≡ true
      → open_manager config backends (ok conn) ≡ ok s
      → let policy = config.recover_interrupted in
        IsSound s
        × (count_active s.downloads ≡ 0)
        × (s.queue.order ≡ queue_of policy rows)
        × ((j : DownloadId) → state_of j s.downloads ≡ state_in policy j rows none)
  unfolding open_manager fresh
  open_manager-IsSound rows s listed distinct done =
      let start = fresh {H = H} config backends conn in
      let (fine, same) = opened_lem (recover start) s done in
      let go = recover-fresh rows listed in
      let (v, states) =
        recover_all-rows config.recover_interrupted rows start [] fresh-IsIdle distinct
          (λ j h. refl) (rw go at fine) in
      let t-s : (recover_all rows start).1 ≡ s = rw go at same in
      let (sound, none_active, order) =
        idle_manager (queue_of config.recover_interrupted rows) s (rw t-s at v) in
      (sound, none_active, order, λ j. rw t-s at (states j))
