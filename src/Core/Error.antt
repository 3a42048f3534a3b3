-- ===== src/Core/Error.antt =====
-- The error type of the workspace and its `Result` (crates/core/src/error.rs).
use open_download_manager.Prelude.{◌&&◌, ℕ, ◌≡◌, refl, Bool, true, false, String, ◌⊎◌, inl, inr}

pub data Error : Type 0 where
  invalid_url : String → Error
  invalid_path : String → Error
  invalid_file_name : String → Error
  network : String → Error
  http : (status : ℕ) (url : String) → Error
  too_many_redirects : (limit : ℕ) → Error
  invalid_response : String → Error
  range_requests_unsupported : Error
  filesystem : String → Error
  already_exists : String → Error
  insufficient_disk_space : (needed available : ℕ) → Error
  cancelled : Error
  interrupted : Error
  internal : String → Error

unfoldable pub is_fatal : Error → Bool
is_fatal (invalid_url _) = true
is_fatal (invalid_path _) = true
is_fatal (invalid_file_name _) = true
is_fatal (http _ _) = true
is_fatal (too_many_redirects _) = true
is_fatal (invalid_response _) = true
is_fatal (already_exists _) = true
is_fatal (insufficient_disk_space _ _) = true
is_fatal cancelled = true
is_fatal (internal _) = true
is_fatal _ = false

pub data Result {ℓ} (T : Type ℓ) : Type ℓ where
  ok : T → Result T
  err : Error → Result T

abbrev pub is_ok {ℓ} : {T : Type ℓ} → Result T → Bool
is_ok (err _) = false
is_ok (ok _) = true

-- Rust's `?`: the first error ends the function.
infixl 5 ◌>>=◌
abbrev pub ◌>>=◌ {κ ℓ} : {T : Type κ} {U : Type ℓ} → Result T → (T → Result U) → Result U
err e >>= rest = err e
ok t >>= rest = rest t

-- The same where the value is the unit.
infixl 5 ◌>>◌
abbrev pub ◌>>◌ {κ} : {U : Type κ} → Result (Unit {0}) → Result U → Result U
check >> rest = check >>= λ _. rest

pub is_ok->> {ℓ} :
    {B : Type ℓ} (m : Result (Unit {0})) (k : Result B) → is_ok (m >> k) ≡ (is_ok m && is_ok k)
is_ok->> (ok _) k = refl
is_ok->> (err _) k = refl

-- A chain that succeeds has succeeded in each of its parts.
pub >>=-eq-ok {κ ℓ} :
    {T : Type κ} {U : Type ℓ} (r : Result T) (rest : T → Result U) {u : U}
    → (r >>= rest) ≡ ok u
    → (t : T) × (r ≡ ok t) × (rest t ≡ ok u)
>>=-eq-ok (err e) rest h = cc
>>=-eq-ok (ok t) rest h = (t, refl, h)

pub Result-cases {ℓ} :
    {A : Type ℓ} (r : Result A) → ((a : A) × (r ≡ ok a)) ⊎ ((e : Error) × (r ≡ err e))
Result-cases (ok a) = inl (a, refl)
Result-cases (err e) = inr (e, refl)
