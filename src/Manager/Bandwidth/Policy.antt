-- ===== src/Manager/Bandwidth/Policy.antt =====
-- The shares that the policy of crates/download-manager/src/bandwidth.rs hands out.

use open_download_manager.Prelude.{
  ℕ, ◌+◌, ◌*◌, ◌/◌, ◌≤◌, ◌<◌, ◌≡◌, refl, ◌↔◌, ◌⊎◌, inl, inr, Option, none, some, arith, max,
}
use open_download_manager.Manager.Bandwidth.{limiter_for, new}

share-mul-le : (total n : ℕ) → 0 < n → n * (total / n) ≤ total
share-mul-le total n h = grind arith

share-zero_iff : (total n : ℕ) → 0 < n → (total / n ≡ 0) ↔ (total < n)
share-zero_iff total n h = grind arith

share-exact : (total n b : ℕ) → 0 < n → (total / n ≡ b) ↔ ((n * b ≤ total) × (total < n * (b + 1)))
share-exact total n b h = grind arith

-- Under a cap, a download is limited to an even share of it, the largest that fits: to `b` bytes per
-- second exactly where `b` is not zero, as many shares of `b` as there are active downloads stay
-- within the cap, and as many of one byte more do not. Where none is active, the share is that of
-- one.
pub limiter_for_iff :
    (total active b : ℕ)
    → (limiter_for (new (some total)) active ≡ some b)
      ↔ ((0 < b) × (max active 1 * b ≤ total) × (total < max active 1 * (b + 1)))
unfolding limiter_for new
limiter_for_iff total active b = (
  (λ h. ground (arith, share-exact total (max active 1) b)),
  (λ h. ground (arith, share-exact total (max active 1) b)),
)

-- A download is left unlimited exactly where the policy has no cap, or a cap of fewer bytes per
-- second than there are active downloads.
pub limiter_for-none :
    (cap : Option ℕ) (active : ℕ)
    → (limiter_for (new cap) active ≡ none)
      ↔ ((cap ≡ none) ⊎ ((total : ℕ) × (cap ≡ some total) × (total < max active 1)))
unfolding limiter_for new
limiter_for-none none active = ((λ _. inl refl), (λ _. refl))
limiter_for-none (some total) active = (
  (λ h. inr (total, refl, ground (arith, share-zero_iff total (max active 1)))),
  (λ h. ground (arith, share-zero_iff total (max active 1))),
)
