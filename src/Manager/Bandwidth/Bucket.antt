-- ===== src/Manager/Bandwidth/Bucket.antt =====
-- When a call of `TokenBucket::acquire` returns (crates/download-manager/src/bandwidth.rs).
use open_download_manager.Prelude.{
  ℕ, ◌≡◌, refl, ◌≢◌, true, false, List, [], ◌∷◌, arith, ◌==◌, Bool-cases, inl, inr,
}
use open_download_manager.Core.Float.{Float, Ordered}
use open_download_manager.Manager.Bandwidth.{
  TokenBucket, bucket, Acquire, done, sleeping, refill, rounds, acquire,
}

module _ (F : Float) where
  abbrev pub IsWithin : TokenBucket F → Type 0
  IsWithin b = F.gt b.tokens (F.of_u64 b.rate) ≡ false

  -- The bucket as the call leaves it, or as it stands while the call sleeps.
  abbrev pub held : Acquire F → TokenBucket F
  held (done b) = b
  held (sleeping wait b) = b

module _ (F : Float) (laws : Ordered F) where
  refill-not-ge :
      (b : TokenBucket F) (need elapsed : F.Carrier)
      → F.gt need (F.of_u64 b.rate) ≡ true
      → F.ge (refill F b elapsed) need ≡ false
  unfolding refill
  refill-not-ge b need elapsed h = ground (
    arith,
    laws.ge-false_of_gt need (F.of_u64 b.rate),
    laws.gt-of_ge_gt (F.add b.tokens (F.mul elapsed (F.of_u64 b.rate))) need (F.of_u64 b.rate),
  )

  rounds_sleep :
      (b : TokenBucket F) (need wait : F.Carrier) (elapsed : List F.Carrier)
      → F.gt need (F.of_u64 b.rate) ≡ true
      → (w : F.Carrier) × (c : TokenBucket F) × (rounds F need wait b elapsed ≡ sleeping w c)
  unfolding rounds
  rounds_sleep b need wait [] h = (wait, b, refl)
  rounds_sleep b need wait (e ∷ later) h =
      rw (refill-not-ge b need e h)
        (rounds_sleep (record b { tokens = refill F b e }) need _ later h)

  -- Where the rate is not zero, a request for more bytes than one second's worth never returns,
  -- however long it waits: after any number of rounds, with any times in between, the call sleeps.
  pub acquire_never_returns :
      (b : TokenBucket F) (bytes : ℕ) (elapsed : List F.Carrier)
      → b.rate ≢ 0
      → F.gt (F.of_u64 bytes) (F.of_u64 b.rate) ≡ true
      → (w : F.Carrier) × (c : TokenBucket F) × (acquire F b bytes elapsed ≡ sleeping w c)
  unfolding acquire
  acquire_never_returns b bytes elapsed nz h = elim (Bool-cases (b.rate == 0)) [
    | inl z ↦ absurd (nz (ground arith))
    | inr n ↦ rw n (rounds_sleep b (F.of_u64 bytes) (F.of_u64 0) elapsed h)
  ]

  refill_within :
      (b : TokenBucket F) (elapsed : F.Carrier)
      → F.gt (refill F b elapsed) (F.of_u64 b.rate) ≡ false
  unfolding refill
  refill_within b elapsed =
      let tokens = F.add b.tokens (F.mul elapsed (F.of_u64 b.rate)) in
      elim (Bool-cases (F.gt tokens (F.of_u64 b.rate))) [
        | inl over ↦ rw over (laws.gt-irrefl (F.of_u64 b.rate))
        | inr fits ↦ rw fits fits
      ]

  rounds-IsWithin :
      (b : TokenBucket F) (bytes : ℕ) (wait : F.Carrier) (elapsed : List F.Carrier)
      → IsWithin F b
      → IsWithin F (held F (rounds F (F.of_u64 bytes) wait b elapsed))
        × ((held F (rounds F (F.of_u64 bytes) wait b elapsed)).rate ≡ b.rate)
  unfolding rounds
  rounds-IsWithin b bytes wait [] h = (h, refl)
  rounds-IsWithin b bytes wait (e ∷ later) h =
      elim (Bool-cases (F.ge (refill F b e) (F.of_u64 bytes))) [
        | inl enough ↦
            rw enough
              (laws.sub-gt-false (refill F b e) (F.of_u64 b.rate) bytes (refill_within b e), refl)
        | inr short ↦
            rw short (
              rounds-IsWithin (record b { tokens = refill F b e }) bytes _ later
                (refill_within b e))
      ]

  served-IsWithin :
      (b : TokenBucket F) (bytes : ℕ) (elapsed : List F.Carrier)
      → IsWithin F b
      → IsWithin F (held F (acquire F b bytes elapsed))
        × ((held F (acquire F b bytes elapsed)).rate ≡ b.rate)
  unfolding acquire
  served-IsWithin b bytes elapsed h = elim (Bool-cases (b.rate == 0)) [
    | inl z ↦ rw z (h, refl)
    | inr n ↦ rw n (rounds-IsWithin b bytes (F.of_u64 0) elapsed h)
  ]

  -- The bucket never holds more than one second's worth: it does not when it is made, and where it
  -- does not before a call of `acquire`, it does not after the call, nor while the call sleeps,
  -- whatever the times in between. A call does not change the rate.
  pub acquire-IsWithin :
      (b : TokenBucket F) (bytes rate : ℕ) (elapsed : List F.Carrier)
      → IsWithin F b
      → IsWithin F (bucket F rate)
        × IsWithin F (held F (acquire F b bytes elapsed))
        × ((held F (acquire F b bytes elapsed)).rate ≡ b.rate)
  unfolding bucket
  acquire-IsWithin b bytes rate elapsed h =
      let (kept, same) = served-IsWithin b bytes elapsed h in
      (laws.gt-irrefl (F.of_u64 rate), kept, same)
