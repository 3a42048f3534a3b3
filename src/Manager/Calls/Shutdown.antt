-- ===== src/Manager/Calls/Shutdown.antt =====
-- A shutdown keeps the manager's invariant.
use open_download_manager.Prelude.{
  ℕ, ◌≡◌, refl, ◌∙◌, inl, inr, true, List, [], ◌∷◌, Option, none, some, arith, ◌==◌, Bool-cases,
}
use open_download_manager.Prelude.HashMap
use open_download_manager.Core.Libs.{Libs}
use open_download_manager.Core.Backend.{DownloadId}
use open_download_manager.Manager.Download.{Host}
use open_download_manager.Manager.Queue.{retain_ne}
use open_download_manager.Manager.Queue.Laws.{has, nodup, has-retain_ne, nodup-retain_ne}
use open_download_manager.Manager.Inner.{ManagerInner, Downloads, count_active}
use open_download_manager.Manager.Invariant.{IsSound, state_of}
use open_download_manager.Manager.Calls.{shutdown, stopped, take_handles}

module _ {L : Libs} where
  has-stopped :
      (j : DownloadId) (m : Downloads L) (r : List DownloadId)
      → has j (stopped m r) ≡ true
      → has j r ≡ true
  unfolding stopped
  has-stopped j [] r h = h
  has-stopped j ((id, md) ∷ m) r h = shrink md.handle (has-stopped j m _ h)
    where
      shrink :
          (o : Option ℕ)
          → has j (elim o [ none ↦ r | some k ↦ retain_ne id r ]) ≡ true
          → has j r ≡ true
      shrink none h = h
      shrink (some k) h = ground (arith, has-retain_ne id j r)

  nodup-stopped :
      (m : Downloads L) (r : List DownloadId) → nodup r ≡ true → nodup (stopped m r) ≡ true
  unfolding stopped
  nodup-stopped [] r h = h
  nodup-stopped ((id, md) ∷ m) r h = nodup-stopped m _ (shrink md.handle)
    where
      shrink : (o : Option ℕ) → nodup (elim o [ none ↦ r | some k ↦ retain_ne id r ]) ≡ true
      shrink none = h
      shrink (some k) = nodup-retain_ne id r h

  state_of-take_handles :
      (j : DownloadId) (m : Downloads L) → state_of j (take_handles m) ≡ state_of j m
  unfolding take_handles
  state_of-take_handles j [] = refl
  state_of-take_handles j ((id, md) ∷ m) = elim (Bool-cases (id == j)) [
    | inl hit ↦ rw hit
    | inr miss ↦ rw miss (state_of-take_handles j m)
  ]

  count_active-take_handles : (m : Downloads L) → count_active (take_handles m) ≡ count_active m
  unfolding take_handles count_active HashMap.count
  count_active-take_handles [] = refl
  count_active-take_handles ((id, md) ∷ m) = omega (arith, count_active-take_handles m)

pub shutdown-IsSound : {H : Host} (s : ManagerInner H) → IsSound s → IsSound (shutdown s)
unfolding shutdown
shutdown-IsSound s v = record {
  capped = rw (count_active-take_handles s.downloads) (v.capped);
  distinct = v.distinct;
  waiting = λ j h. state_of-take_handles j s.downloads ∙ v.waiting j h;
  one_task = nodup-stopped s.downloads s.running v.one_task;
  tasked = λ j h.
      rw (state_of-take_handles j s.downloads) (v.tasked j (has-stopped j s.downloads s.running h));
}
