-- ===== src/Core/Float.antt =====
-- The `f64` arithmetic that the token bucket uses, as an interface.
use open_download_manager.Prelude.{ℕ, Bool, true, false, ◌≡◌}

pub record Float : Type 1 where
  pub Carrier : Type 0
  pub of_u64 : ℕ → Carrier
  pub add : Carrier → Carrier → Carrier
  pub sub : Carrier → Carrier → Carrier
  pub mul : Carrier → Carrier → Carrier
  pub div : Carrier → Carrier → Carrier
  pub gt : Carrier → Carrier → Bool
  pub ge : Carrier → Carrier → Bool

-- The laws of the IEEE comparisons that are used; a NaN compares to nothing, so they hold of it too.
-- Taking off a number that is not negative makes nothing larger, rounding included.
pub record Ordered (F : Float) : Type 0 where
  pub gt-of_ge_gt : (a b c : F.Carrier) → F.ge a b ≡ true → F.gt b c ≡ true → F.gt a c ≡ true
  pub ge-false_of_gt : (a b : F.Carrier) → F.gt a b ≡ true → F.ge b a ≡ false
  pub gt-irrefl : (a : F.Carrier) → F.gt a a ≡ false
  pub sub-gt-false :
      (a c : F.Carrier) (n : ℕ) → F.gt a c ≡ false → F.gt (F.sub a (F.of_u64 n)) c ≡ false
