-- ===== src/Manager/Queue.antt =====
-- The FIFO queue of download ids (crates/download-manager/src/queue.rs).
pub mod Laws
use open_download_manager.Prelude.{
  ℕ, ◌<◌, ◌≡◌, Bool, true, false, List, [], ◌∷◌, ◌++◌, Option, none, some, length, ltb, ◌==◌, any,
  if◌then◌else◌,
}
use open_download_manager.Core.Backend.{DownloadId}

pub record Queue : Type 0 where
  pub order : List DownloadId

unfoldable pub new : Queue
new = record { order = [] }

unfoldable pub enqueue : Queue → DownloadId → Queue
enqueue q id = record q { order = q.order ++ id ∷ [] }

pop_front : List DownloadId → Option DownloadId × Queue
pop_front [] = (none, record { order = [] })
pop_front (id ∷ rest) = (some id, record { order = rest })

unfoldable pub dequeue : Queue → Option DownloadId × Queue
unfolding pop_front
dequeue q = pop_front q.order

-- `VecDeque::retain(|x| x != id)`.
unfoldable pub retain_ne : DownloadId → List DownloadId → List DownloadId
retain_ne id [] = []
retain_ne id (x ∷ xs) = let rest = retain_ne id xs in if x == id then rest else x ∷ rest

unfoldable pub remove : Queue → DownloadId → Queue × Bool
unfolding retain_ne
remove q id =
    let kept = retain_ne id q.order in
    (record q { order = kept }, ltb (length kept) (length q.order))

unfoldable pub len : Queue → ℕ
len q = length q.order

unfoldable pub is_empty : Queue → Bool
is_empty q = length q.order == 0

-- Whether `iter()` yields the id.
abbrev pub contains : DownloadId → Queue → Bool
contains id q = any (λ x. x == id) q.order
