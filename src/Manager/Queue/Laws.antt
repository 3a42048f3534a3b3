-- ===== src/Manager/Queue/Laws.antt =====
-- What the queue of crates/download-manager/src/queue.rs guarantees.
use open_download_manager.Prelude.{
  ℕ, ◌≤◌, ◌≡◌, refl, Bool, true, false, List, [], ◌∷◌, ◌++◌, Option, none, some, arith, length, sym,
  ap, ◌∙◌, zero, suc, ltb, ◌==◌, any, if◌then◌else◌,
}
use mathlib.Core.List.{append-nil, append_assoc}
use open_download_manager.Core.Backend.{DownloadId}
use open_download_manager.Manager.Queue.{Queue, new, enqueue, dequeue, retain_ne, remove, contains}

abbrev pub has : DownloadId → List DownloadId → Bool
has id = any (λ x. x == id)

pub has-append :
    (j : DownloadId) (xs ys : List DownloadId)
    → has j (xs ++ ys) ≡ (if has j xs then true else has j ys)
has-append j [] ys = refl
has-append j (x ∷ xs) ys = ground (arith, has-append j xs ys)

pub has-retain_ne :
    (k j : DownloadId) (xs : List DownloadId)
    → has j (retain_ne k xs) ≡ (if k == j then false else has j xs)
unfolding retain_ne
has-retain_ne k j [] = ground arith
has-retain_ne k j (x ∷ xs) = ground (arith, has-retain_ne k j xs)

pub length-retain_ne : (k : DownloadId) (xs : List DownloadId) → length (retain_ne k xs) ≤ length xs
unfolding retain_ne
length-retain_ne k [] = omega arith
length-retain_ne k (x ∷ xs) = ground (arith, length-retain_ne k xs)

pub length-retain_ne-has :
    (k : DownloadId) (xs : List DownloadId) → ltb (length (retain_ne k xs)) (length xs) ≡ has k xs
unfolding retain_ne
length-retain_ne-has k [] = ground arith
length-retain_ne-has k (x ∷ xs) = ground (arith, length-retain_ne k xs, length-retain_ne-has k xs)

-- Every id that is in the list occurs in it once.
abbrev pub nodup : List DownloadId → Bool
nodup [] = true
nodup (x ∷ xs) = if has x xs then false else nodup xs

pub nodup-retain_ne :
    (k : DownloadId) (xs : List DownloadId) → nodup xs ≡ true → nodup (retain_ne k xs) ≡ true
unfolding retain_ne
nodup-retain_ne k [] h = refl
nodup-retain_ne k (x ∷ xs) h = ground (arith, nodup-retain_ne k xs, has-retain_ne k x xs)

pub nodup-append_one :
    (k : DownloadId) (xs : List DownloadId)
    → nodup xs ≡ true
    → has k xs ≡ false
    → nodup (xs ++ k ∷ []) ≡ true
nodup-append_one k [] h f = refl
nodup-append_one k (x ∷ xs) h f = ground (arith, nodup-append_one k xs, has-append x xs (k ∷ []))

-- Removing an id takes out that id and no other, keeps the rest in its order, and says whether the
-- id was there; removing it before or after another id is enqueued makes no difference.
pub remove_lem :
    (q : Queue) (k j : DownloadId)
    → ((remove q k).1 ≡ contains k q)
      × (contains j (remove q k).0 ≡ (if k == j then false else contains j q))
      × ((remove (enqueue q j) k).0 ≡ (if j == k then (remove q k).0 else enqueue (remove q k).0 j))
unfolding remove enqueue
remove_lem q k j = (
  length-retain_ne-has k q.order,
  has-retain_ne k j q.order,
  ground (arith, retain_ne-append k j q.order),
)
  where
    retain_ne-append :
        (k j : DownloadId) (xs : List DownloadId)
        → retain_ne k (xs ++ j ∷ []) ≡ (if j == k then retain_ne k xs else retain_ne k xs ++ j ∷ [])
    retain_ne-append k j [] = ground arith
    retain_ne-append k j (x ∷ xs) = ground (arith, retain_ne-append k j xs)

pub enqueue_all : List DownloadId → Queue → Queue
enqueue_all [] q = q
enqueue_all (x ∷ xs) q = enqueue_all xs (enqueue q x)

found : List DownloadId → Option DownloadId → List DownloadId
found rest none = rest
found rest (some id) = id ∷ rest

-- What `rounds` calls of `dequeue` return.
pub drain : ℕ → Queue → List DownloadId
unfolding found
drain zero q = []
drain (suc rounds) q = let (first, q') = dequeue q in found (drain rounds q') first

order-enqueue_all :
    (xs : List DownloadId) (q : Queue) → enqueue_all xs q ≡ record { order = q.order ++ xs }
unfolding enqueue_all enqueue
order-enqueue_all [] q = ap (λ o. record { order = o }) (sym (append-nil q.order))
order-enqueue_all (x ∷ xs) q =
    order-enqueue_all xs (enqueue q x)
    ∙ ap (λ o. record { order = o }) (append_assoc q.order (x ∷ []) xs)

drain_order : (xs : List DownloadId) → drain (length xs) (record { order = xs }) ≡ xs
unfolding drain dequeue
drain_order [] = refl
drain_order (x ∷ xs) = ap (◌∷◌ x) (drain_order xs)

-- Ids leave the queue in the order in which they were enqueued.
pub drain-enqueue_all : (xs : List DownloadId) → drain (length xs) (enqueue_all xs new) ≡ xs
unfolding new
drain-enqueue_all xs = rw (order-enqueue_all xs (record { order = [] })) (drain_order xs)
