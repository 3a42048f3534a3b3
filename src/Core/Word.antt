-- ===== src/Core/Word.antt =====
-- The bounds of the machine integers that the crates use, and `u64::saturating_add`.
use open_download_manager.Prelude.{ℕ, ◌+◌, min}

abbrev pub u64_max : ℕ
u64_max = 18446744073709551615

abbrev pub i64_max : ℕ
i64_max = 9223372036854775807

abbrev pub saturating_add : ℕ → ℕ → ℕ
saturating_add a b = min (a + b) u64_max
