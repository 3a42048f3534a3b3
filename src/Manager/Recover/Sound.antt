-- ===== src/Manager/Recover/Sound.antt =====
-- What recovery leaves in the manager, row by row (crates/download-manager/src/manager.rs).
use open_download_manager.Prelude.{
  ◌≡◌, refl, ap, subst, ◌∙◌, inl, inr, true, false, List, [], ◌∷◌, ◌++◌, Option, none, some, arith,
  ◌==◌, if◌then◌else◌, Bool-cases,
}
use mathlib.Core.List.{append-nil, append_assoc}
use open_download_manager.Prelude.HashMap
use open_download_manager.Core.Error.{ok, err, Result-cases}
use open_download_manager.Core.Libs.{Libs}
use open_download_manager.Core.State.{DownloadState, queued, failed, state_eq}
use open_download_manager.Core.Backend.{DownloadId}
use open_download_manager.Manager.Config.{RecoveryPolicy}
use open_download_manager.Manager.Download.{Download, Host}
use open_download_manager.Manager.Queue.Laws.{has, nodup}
use open_download_manager.Manager.Inner.{
  ManagerInner, Outcome, is_active, managed, publish, tick, set_downloads, requeue,
}
use open_download_manager.Manager.Invariant.{state_of}
use open_download_manager.Manager.Recover.{
  recovered, load, load_and_queue, publish_recovery, recover_active, recover_one, after_one,
  recover_all,
}
use open_download_manager.Manager.Recover.Rows.{
  recovered_state, queue_of, ids, IsIdle, load_and_queue-IsIdle, recovered-state,
  recovered_state_idle, get-none,
}

-- The state that the stored rows give a download, or `old` where no row has its id.
unfoldable pub state_in :
    {L : Libs}
    → RecoveryPolicy
    → DownloadId
    → List (Download L)
    → Option DownloadState
    → Option DownloadState
state_in policy j [] old = old
state_in policy j (d ∷ rows) old =
    state_in policy j rows (if d.id == j then some (recovered_state policy d.state) else old)

module _ {H : Host} (policy : RecoveryPolicy) where
  -- What one row does: it comes back in its recovered state, and nothing else changes.
  abbrev pub OneRow :
      DownloadId → DownloadState → List DownloadId → ManagerInner H → ManagerInner H → Type 0
  OneRow id st order s t =
      IsIdle policy (if state_eq st queued then order ++ id ∷ [] else order) t
      × ((j : DownloadId)
          → state_of j t.downloads ≡ (if id == j then some st else state_of j s.downloads))

  pub load_and_queue-state_of :
      (d : Download H.libs) (s : ManagerInner H) (j : DownloadId)
      → state_of j (load_and_queue d s).downloads
        ≡ (if d.id == j then some d.state else state_of j s.downloads)
  unfolding load_and_queue load set_downloads requeue managed
  load_and_queue-state_of d s j = elim (Bool-cases (state_eq d.state queued)) [
    | inl waits ↦ rw (waits, HashMap.get-insert d.id j (managed d) s.downloads) (ground arith)
    | inr other ↦ rw (other, HashMap.get-insert d.id j (managed d) s.downloads) (ground arith)
  ]

  pub load_and_queue-OneRow :
      (d : Download H.libs) (s : ManagerInner H) (order : List DownloadId)
      → IsIdle policy order s
      → is_active d.state ≡ false
      → HashMap.get d.id s.downloads ≡ none
      → has d.id order ≡ false
      → OneRow d.id d.state order s (load_and_queue d s)
  load_and_queue-OneRow d s order v idle new absent =
      (load_and_queue-IsIdle policy d s order v idle new absent, load_and_queue-state_of d s)

  pub publish_recovery-IsIdle :
      (from : DownloadState) (d : Download H.libs) (s : ManagerInner H) (order : List DownloadId)
      → IsIdle policy order s
      → let t = publish_recovery from d s in IsIdle policy order t × (t.downloads ≡ s.downloads)
  unfolding publish_recovery publish
  publish_recovery-IsIdle from d s order v = elim (Bool-cases (state_eq d.state failed)) [
    | inl is_failed ↦ rw is_failed (v, refl)
    | inr other ↦ elim (Bool-cases (state_eq d.state queued)) [
      | inl waits ↦ rw (other, waits) (v, refl)
      | inr neither ↦ rw (other, neither) (v, refl)
    ]
  ]

  recover_active-OneRow :
      (d : Download H.libs) (from : DownloadState) (s : ManagerInner H) (order : List DownloadId)
      → IsIdle policy order s
      → is_active d.state ≡ false
      → HashMap.get d.id s.downloads ≡ none
      → has d.id order ≡ false
      → (recover_active d from s).0 ≡ ok tt
      → OneRow d.id d.state order s (recover_active d from s).1
  unfolding recover_active
  recover_active-OneRow d from s order v idle new absent done =
      elim (Result-cases (H.store.save s.persistence d)) [
        | inr (e, refused) ↦ absurd (ground arith)
        | inl (c, saved) ↦
            let t = record s { persistence = c } in
            let (w, same) = publish_recovery-IsIdle from d t order v in
            rw (saved, recover_active)
              (let (a, b) =
                  load_and_queue-OneRow d (publish_recovery from d t) order w idle (rw same new)
                    absent in
                (a, λ j. b j ∙ rw same))
      ]

  pub not_queued_of_unknown :
      (id : DownloadId) (order : List DownloadId) (s : ManagerInner H)
      → IsIdle policy order s
      → state_of id s.downloads ≡ none
      → has id order ≡ false
  not_queued_of_unknown id order s v new = elim (Bool-cases (has id order)) [
    | inl waits ↦ absurd (ground (arith, v.0.waiting id waits))
    | inr absent ↦ absent
  ]

  pub recover_one-OneRow :
      (d : Download H.libs) (s : ManagerInner H) (order : List DownloadId)
      → IsIdle policy order s
      → state_of d.id s.downloads ≡ none
      → (recover_one d s).0 ≡ ok tt
      → OneRow d.id (recovered_state policy d.state) order s (recover_one d s).1
  unfolding recover_one tick
  recover_one-OneRow d s order v new done =
      let absent = not_queued_of_unknown d.id order s v new in
      let unknown = get-none (HashMap.get d.id s.downloads) new in
      elim (Bool-cases (is_active d.state)) [
        | inr idle ↦
            rw (idle, recovered_state_idle policy d.state idle)
              (load_and_queue-OneRow d s order v idle unknown absent)
        | inl active ↦
            let p = s.config.recover_interrupted in
            let r = recovered p (H.clock s.ticks) d in
            let (st, id, idle) = recovered-state p (H.clock s.ticks) d active in
            let st' : r.state ≡ recovered_state policy d.state =
              st ∙ ap (λ q. recovered_state q d.state) v.3 in
            let t = (recover_active r d.state (tick s)).1 in
            let base : OneRow r.id r.state order s t =
              recover_active-OneRow r d.state (tick s) order v idle (rw id unknown) (rw id absent)
                (rw active at done) in
            rw active (
              subst (λ st. OneRow d.id st order s t) st'
                (subst (λ i. OneRow i r.state order s t) id base))
      ]

  after_one-OneRow :
      (r : Outcome H (Unit {0})) (f : ManagerInner H → Outcome H (Unit {0}))
      → (after_one r f).0 ≡ ok tt
      → (r.0 ≡ ok tt) × ((after_one r f) ≡ f r.1)
  unfolding after_one
  after_one-OneRow (err e, s) f h = cc
  after_one-OneRow (ok tt, s) f h = (refl, refl)

  pub recover_all-rows :
      (rows : List (Download H.libs)) (s : ManagerInner H) (order : List DownloadId)
      → IsIdle policy order s
      → nodup (ids rows) ≡ true
      → ((j : DownloadId) → has j (ids rows) ≡ true → state_of j s.downloads ≡ none)
      → (recover_all rows s).0 ≡ ok tt
      → let t = (recover_all rows s).1 in
        IsIdle policy (order ++ queue_of policy rows) t
        × ((j : DownloadId)
            → state_of j t.downloads ≡ state_in policy j rows (state_of j s.downloads))
  unfolding recover_all queue_of state_in
  recover_all-rows [] s order v distinct new done = (rw (append-nil order) v, λ j. refl)
  recover_all-rows (d ∷ rows) s order v distinct new done =
      let (first_done, go) = after_one-OneRow (recover_one d s) (recover_all rows) done in
      let here : (d.id == d.id) ≡ true = ground arith in
      let t = (recover_one d s).1 in
      let (w, states) = recover_one-OneRow d s order v (new d.id (ground arith)) first_done in
      let (x, rest_states) =
        recover_all-rows rows t _ w (ground arith) (λ j h. rw (states j) (still_new j h))
          (rw go at done) in
      rw go (
        rw (regroup (recovered_state policy d.state)) at x,
        λ j. rest_states j ∙ ap (state_in policy j rows) (states j),
      )
    where
      still_new :
          (j : DownloadId)
          → has j (ids rows) ≡ true
          → (if d.id == j then some (recovered_state policy d.state) else state_of j s.downloads)
            ≡ none
      still_new j h = ground (arith, new j)

      regroup :
          (st : DownloadState)
          → (if state_eq st queued then order ++ d.id ∷ [] else order) ++ queue_of policy rows
            ≡ order
              ++ (if state_eq st queued then d.id ∷ queue_of policy rows else queue_of policy rows)
      regroup st = elim (Bool-cases (state_eq st queued)) [
        | inl waits ↦ rw waits (append_assoc order (d.id ∷ []) (queue_of policy rows))
        | inr other ↦ rw other
      ]
