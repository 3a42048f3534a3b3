-- ===== src/Tests/Parts.antt =====
-- The state machine, the queue, the scheduler and the bandwidth share on concrete inputs.
use open_download_manager.Prelude.{
  ℕ, ◌+◌, ◌*◌, ◌-◌, ◌≤◌, ◌<◌, ◌≡◌, ◌↔◌, ◌⊎◌, refl, false, List, [], ◌∷◌, ◌++◌, Option, none, some,
  arith, length, min, max, ◌==◌, if◌then◌else◌,
}
use open_download_manager.Core.Error.{ok}
use open_download_manager.Core.State.{
  queued, downloading, paused, completed, transition, display, from_str,
}
use open_download_manager.Core.State.Lifecycle.{
  ◌⟶◌, ◌⟶*◌, IsFinal, transition_iff, lifecycle_ends, from_str_iff,
}
use open_download_manager.Manager.Queue.{Queue, new, remove, enqueue, contains}
use open_download_manager.Manager.Queue.Laws.{remove_lem, drain, enqueue_all, drain-enqueue_all}
use open_download_manager.Manager.Scheduler.{select_for_start, select_for_start_lem}
use open_download_manager.Manager.Bandwidth.{
  limiter_for, TokenBucket, Acquire, acquire, sleeping, bucket,
}
use open_download_manager.Manager.Bandwidth
use open_download_manager.Manager.Bandwidth.Policy.{limiter_for_iff, limiter_for-none}
use open_download_manager.Manager.Bandwidth.Bucket.{
  IsWithin, held, acquire_never_returns, acquire-IsWithin,
}
use open_download_manager.Tests.World.{whole, whole-Ordered}

transition_iff_example :
    (transition downloading paused ≡ ok paused) ↔ ((downloading ⟶ paused) × (paused ≡ paused))
transition_iff_example = transition_iff downloading paused paused

lifecycle_ends_example :
    (IsFinal completed → completed ⟶* queued → queued ≡ completed)
    × (¬ IsFinal completed → completed ⟶* completed)
lifecycle_ends_example = lifecycle_ends completed queued

from_str_iff_example : (from_str "paused" ≡ ok paused) ↔ ("paused" ≡ display paused)
from_str_iff_example = from_str_iff "paused" paused

abbrev three : Queue
three = record { order = 4 ∷ 5 ∷ 6 ∷ [] }

remove_lem_example :
    ((remove three 5).1 ≡ contains 5 three)
    × (contains 6 (remove three 5).0 ≡ (if 5 == 6 then false else contains 6 three))
    × ((remove (enqueue three 6) 5).0
        ≡ (if 6 == 5 then (remove three 5).0 else enqueue (remove three 5).0 6))
remove_lem_example = remove_lem three 5 6

drain-enqueue_all_example : drain 2 (enqueue_all (8 ∷ 9 ∷ []) new) ≡ 8 ∷ 9 ∷ []
drain-enqueue_all_example = drain-enqueue_all (8 ∷ 9 ∷ [])

select_for_start_lem_example :
    ((later : List ℕ) × (select_for_start three 1 3 ++ later ≡ 4 ∷ 5 ∷ 6 ∷ []))
    × (length (select_for_start three 1 3) ≡ min (3 - 1) 3)
    × (1 + length (select_for_start three 1 3) ≤ max 1 3)
select_for_start_lem_example = select_for_start_lem three 1 3

limiter_for_iff_example :
    (limiter_for (Bandwidth.new (some 10)) 3 ≡ some 3)
    ↔ ((0 < 3) × (max 3 1 * 3 ≤ 10) × (10 < max 3 1 * (3 + 1)))
limiter_for_iff_example = limiter_for_iff 10 3 3

abbrev two : Option ℕ
two = some 2

limiter_for-none_example :
    (limiter_for (Bandwidth.new two) 5 ≡ none)
    ↔ ((two ≡ none) ⊎ ((total : ℕ) × (two ≡ some total) × (total < max 5 1)))
limiter_for-none_example = limiter_for-none two 5

abbrev slow : TokenBucket whole
slow = record { rate = 4; tokens = 1 }

four_not_zero : ¬ (slow.rate ≡ 0)
four_not_zero h = omega (arith, h)

acquire_never_returns_example :
    (w : ℕ) × (c : TokenBucket whole) × (acquire whole slow 9 (1 ∷ 2 ∷ 3 ∷ []) ≡ sleeping w c)
acquire_never_returns_example =
    acquire_never_returns whole whole-Ordered slow 9 (1 ∷ 2 ∷ 3 ∷ []) four_not_zero refl

-- It sleeps over two rounds and then takes its three bytes.
acquire-IsWithin_example :
    IsWithin whole (bucket whole 7)
    × IsWithin whole (held whole (acquire whole slow 3 (0 ∷ 0 ∷ 2 ∷ [])))
    × ((held whole (acquire whole slow 3 (0 ∷ 0 ∷ 2 ∷ []))).rate ≡ 4)
acquire-IsWithin_example = acquire-IsWithin whole whole-Ordered slow 3 7 (0 ∷ 0 ∷ 2 ∷ []) refl
