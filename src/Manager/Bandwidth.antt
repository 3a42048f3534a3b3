-- ===== src/Manager/Bandwidth.antt =====
-- The bandwidth policy and the token bucket (crates/download-manager/src/bandwidth.rs).

pub mod Policy
pub mod Bucket
use open_download_manager.Prelude.{
  ℕ, ◌/◌, ◌≡◌, Bool, true, false, List, [], ◌∷◌, Option, none, some, max, ltb, ◌==◌, if◌then◌else◌,
}
use open_download_manager.Core.Float.{Float}

pub record BandwidthPolicy : Type 0 where
  pub max_bytes_per_sec : Option ℕ

unfoldable pub unlimited : BandwidthPolicy
unlimited = record { max_bytes_per_sec = none }

unfoldable pub new : Option ℕ → BandwidthPolicy
new cap = record { max_bytes_per_sec = cap }

budget_of : Option ℕ → ℕ → Option ℕ
budget_of none active = none
budget_of (some total) active = some (total / max active 1)

unfoldable pub per_download_budget : BandwidthPolicy → ℕ → Option ℕ
unfolding budget_of
per_download_budget p active = budget_of p.max_bytes_per_sec active

-- `filter(|&b| b > 0)`.
positive : Option ℕ → Option ℕ
positive none = none
positive (some b) = if ltb 0 b then some b else none

-- The rate of the `TokenBucket` that a download gets.
unfoldable pub limiter_for : BandwidthPolicy → ℕ → Option ℕ
unfolding per_download_budget positive
limiter_for p active = positive (per_download_budget p active)

module _ (F : Float) where
  -- The token count; `last` is in the elapsed times that `acquire` is given.
  pub record TokenBucket : Type 0 where
    pub rate : ℕ
    pub tokens : F.Carrier

  unfoldable pub bucket : ℕ → TokenBucket
  bucket bytes_per_sec = record { rate = bytes_per_sec; tokens = F.of_u64 bytes_per_sec }

  -- How a call of `acquire` stands after the given rounds: it has returned, or it sleeps.
  pub data Acquire : Type 0 where
    done : TokenBucket → Acquire
    sleeping : (wait : F.Carrier) → TokenBucket → Acquire

  -- The refill, clamped to the rate.
  unfoldable pub refill : TokenBucket → F.Carrier → F.Carrier
  refill b elapsed =
      let tokens = F.add b.tokens (F.mul elapsed (F.of_u64 b.rate)) in
      if F.gt tokens (F.of_u64 b.rate) then F.of_u64 b.rate else tokens

  -- One item for each round of the loop: the seconds since the last one, as the clock gives them.
  rounds : F.Carrier → F.Carrier → TokenBucket → List F.Carrier → Acquire
  unfolding refill
  rounds need wait b [] = sleeping wait b
  rounds need wait b (elapsed ∷ later) =
      let tokens = refill b elapsed in
      let wait' = F.div (F.sub need tokens) (F.of_u64 b.rate) in
      let rest = rounds need wait' (record b { tokens = tokens }) later in
      if F.ge tokens need then done (record b { tokens = F.sub tokens need }) else rest

  unfoldable pub acquire : TokenBucket → ℕ → List F.Carrier → Acquire
  unfolding rounds
  acquire b bytes elapsed =
      if b.rate == 0 then done b else rounds (F.of_u64 bytes) (F.of_u64 0) b elapsed
