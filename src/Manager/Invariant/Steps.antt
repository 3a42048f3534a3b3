-- ===== src/Manager/Invariant/Steps.antt =====
-- How the parts of a call keep the invariant: one lemma for each kind of write.
use open_download_manager.Prelude.{
  ℕ, ◌+◌, ◌≤◌, ◌≡◌, refl, ap, ◌∙◌, ◌⊎◌, inl, inr, true, false, String, List, [], ◌∷◌, ◌++◌, Option,
  none, some, arith, ◌==◌, Bool-cases, ==→eq,
}
use open_download_manager.Prelude.HashMap
use open_download_manager.Core.Libs.{Libs}
use open_download_manager.Core.State.{DownloadState, queued}
use open_download_manager.Core.Backend.{DownloadId}
use open_download_manager.Manager.Queue.{retain_ne}
use open_download_manager.Manager.Queue.Laws.{
  has, has-append, has-retain_ne, nodup-retain_ne, nodup-append_one,
}
use open_download_manager.Manager.Inner.{ManagedDownload, Downloads, count_active, is_active}
use open_download_manager.Manager.Transition.Effect.{Moved}
use open_download_manager.Manager.Invariant.{
  Inv, state_of, may_run, Moved-count, Moved-state_of, weight_active, md_state, count_active-update,
  count_active-insert, count_active-remove, state_of-update,
}

module _ {L : Libs} {limit : ℕ} {order running : List DownloadId} {m : Downloads L}
    (id : DownloadId) (v : Inv limit order running m) where
  pub unqueue-Inv : Inv limit (retain_ne id order) running m
  unqueue-Inv = record {
    capped = v.capped;
    distinct = nodup-retain_ne id order v.distinct;
    waiting = λ j h. v.waiting j (ground (arith, has-retain_ne id j order));
    one_task = v.one_task;
    tasked = v.tasked;
  }

  pub end-Inv : Inv limit order (retain_ne id running) m
  end-Inv = record {
    capped = v.capped;
    distinct = v.distinct;
    waiting = v.waiting;
    one_task = nodup-retain_ne id running v.one_task;
    tasked = λ j h. v.tasked j (ground (arith, has-retain_ne id j running));
  }

  pub requeue-Inv :
      has id order ≡ false → state_of id m ≡ some queued → Inv limit (order ++ id ∷ []) running m
  requeue-Inv absent waits = record {
    capped = v.capped;
    distinct = nodup-append_one id order v.distinct absent;
    waiting = λ j h. elim (Bool-cases (id == j)) [
      | inl hit ↦ rw (← ==→eq hit) waits
      | inr miss ↦ v.waiting j (ground (arith, has-append j order (id ∷ [])))
    ];
    one_task = v.one_task;
    tasked = v.tasked;
  }

  pub spawn-Inv :
      has id running ≡ false
      → may_run (state_of id m) ≡ true
      → Inv limit order (running ++ id ∷ []) m
  spawn-Inv absent active = record {
    capped = v.capped;
    distinct = v.distinct;
    waiting = v.waiting;
    one_task = nodup-append_one id running v.one_task absent;
    tasked = λ j h. elim (Bool-cases (id == j)) [
      | inl hit ↦ rw (← ==→eq hit) active
      | inr miss ↦ v.tasked j (ground (arith, has-append j running (id ∷ [])))
    ];
  }

  pub move-Inv :
      (next : DownloadState) (e : Option String) (m' : Downloads L)
      → Moved id next e m m'
      → count_active m + weight_active (some next) ≤ limit
      → has id order ≡ false
      → ((has id running ≡ false) ⊎ (is_active next ≡ true))
      → Inv limit order running m'
  move-Inv next e m' moved room absent task = record {
    capped = omega (arith, Moved-count id next e m m' moved);
    distinct = v.distinct;
    waiting = λ j h. elim (Moved-state_of id next e m m' j moved) [
      | inl same ↦ same ∙ v.waiting j h
      | inr (hit, _, _) ↦ absurd (ground arith)
    ];
    one_task = v.one_task;
    tasked = λ j h. elim (Moved-state_of id next e m m' j moved) [
      | inl same ↦ rw same (v.tasked j h)
      | inr (hit, now, _) ↦ rw now (ground arith)
    ];
  }

  -- A write that changes no lifecycle state, or one from `starting` to `downloading`.
  pub update-Inv :
      (f : ManagedDownload L → ManagedDownload L)
      → ((md : ManagedDownload L)
          → (is_active (f md).info.state ≡ is_active md.info.state)
            × (md.info.state ≡ queued → (f md).info.state ≡ queued))
      → Inv limit order running (HashMap.update id f m)
  update-Inv f keeps = record {
    capped = omega (arith, count_active-update id f m, same_weight (HashMap.get id m), v.capped);
    distinct = v.distinct;
    waiting = λ j h. elim (Bool-cases (id == j)) [
      | inl hit ↦ rw (state_of-update, hit) (still_queued (HashMap.get j m) (v.waiting j h))
      | inr miss ↦ rw (state_of-update, miss) (v.waiting j h)
    ];
    one_task = v.one_task;
    tasked = λ j h. elim (Bool-cases (id == j)) [
      | inl hit ↦ rw (state_of-update, hit, same_run (HashMap.get j m)) (v.tasked j h)
      | inr miss ↦ rw (state_of-update, miss) (v.tasked j h)
    ];
  }
    where
      same_weight :
          (o : Option (ManagedDownload L))
          → weight_active (md_state (HashMap.map_opt f o)) ≡ weight_active (md_state o)
      same_weight none = refl
      same_weight (some md) = ground (arith, keeps md)

      same_run :
          (o : Option (ManagedDownload L))
          → may_run (md_state (HashMap.map_opt f o)) ≡ may_run (md_state o)
      same_run none = refl
      same_run (some md) = (keeps md).0

      still_queued :
          (o : Option (ManagedDownload L))
          → md_state o ≡ some queued
          → md_state (HashMap.map_opt f o) ≡ some queued
      still_queued none h = h
      still_queued (some md) h = ap some ((keeps md).1 (cc))

  -- A new entry in a state that is not active.
  pub insert-Inv :
      (md : ManagedDownload L)
      → HashMap.get id m ≡ none
      → is_active md.info.state ≡ false
      → has id running ≡ false
      → has id order ≡ false
      → Inv limit order running (HashMap.insert id md m)
  insert-Inv md fresh idle no_task absent = record {
    capped = omega (arith, v.capped, count_active-insert id md m fresh idle);
    distinct = v.distinct;
    waiting = λ j h. elim (Bool-cases (id == j)) [
      | inl hit ↦ absurd (ground (arith, ==→eq hit))
      | inr miss ↦ rw (HashMap.get-insert id j md m, miss) (v.waiting j h)
    ];
    one_task = v.one_task;
    tasked = λ j h. elim (Bool-cases (id == j)) [
      | inl hit ↦ absurd (ground (arith, ==→eq hit))
      | inr miss ↦ rw (HashMap.get-insert id j md m, miss) (v.tasked j h)
    ];
  }

  pub remove-Inv : Inv limit (retain_ne id order) running (HashMap.remove id m)
  remove-Inv = record {
    capped = omega (arith, v.capped, count_active-remove id m);
    distinct = nodup-retain_ne id order v.distinct;
    waiting = λ j h.
        rw (HashMap.get-remove id j m) (ground (arith, has-retain_ne id j order, v.waiting j));
    one_task = v.one_task;
    tasked = λ j h. elim (Bool-cases (id == j)) [
      | inl hit ↦ rw (HashMap.get-remove id j m, hit)
      | inr miss ↦ rw (HashMap.get-remove id j m, miss) (v.tasked j h)
    ];
  }
