-- ===== src/Engine/Download/Success.antt =====
-- When a download succeeds (crates/download-engine/src/engine.rs).
use open_download_manager.Prelude.{
  ℕ, ◌≡◌, Bool, true, List, [], ◌∷◌, Option, none, some, ◌==◌, ◌&&◌, not,
}
use open_download_manager.Core.Error.{is_ok}
use open_download_manager.Core.Libs.{Libs, PathBuf}
use open_download_manager.Engine.Storage.{FileStorage}
use open_download_manager.Engine.Download.{Arrival, signalled, item}

-- A storage on which no operation for the destination fails.
pub record Works (S : FileStorage) (dest : PathBuf) (overwrite : Bool) : Type 0 where
  pub ensures : (w : S.World) → is_ok (S.ensure_parent_dir dest w).0 ≡ true
  pub creates : (w : S.World) → is_ok (S.create_part_file dest w).0 ≡ true
  pub writes :
      (chunk : List ℕ) (part : S.PartFile) (w : S.World)
      → is_ok (S.write_chunk chunk part w).0 ≡ true
  pub flushes : (part : S.PartFile) (w : S.World) → is_ok (S.flush part w).0 ≡ true
  pub finalizes :
      (part : S.PartFile) (w : S.World) → is_ok (S.finalize part dest overwrite w).0 ≡ true

-- A body that brings no error and, where a signal is watched, no cancellation.
abbrev pub is_smooth : Bool → List Arrival → Bool
is_smooth watched [] = true
is_smooth watched (signalled ∷ rest) = not watched && is_smooth watched rest
is_smooth watched (item due at r ∷ rest) = is_ok r && is_smooth watched rest

-- The length that was announced, if any, is the one that is counted.
abbrev pub is_complete : Option ℕ → ℕ → Bool
is_complete none n = true
is_complete (some m) n = m == n
