-- ===== src/Engine/Storage.antt =====
-- What the engine uses of the storage (`FileStorage` and `PartFileHandle` of
-- crates/storage/src/storage.rs), with what it relies on.
use open_download_manager.Prelude.{ℕ, ◌≡◌, Bool, String, List, [], ◌++◌, Option, some}
use open_download_manager.Core.Error.{Error, Result, ok, err}
use open_download_manager.Core.Libs.{PathBuf}

pub record FileStorage : Type 1 where
  pub World : Type 0
  pub PartFile : Type 0
  pub display : PathBuf → String  -- the text of a path, for messages
  pub exists : World → PathBuf → Bool
  pub ensure_parent_dir : PathBuf → World → Result (Unit {0}) × World
  pub create_part_file : PathBuf → World → Result PartFile × World
  pub write_chunk : List ℕ → PartFile → World → Result PartFile × World
  pub flush : PartFile → World → Result PartFile × World
  pub finalize : PartFile → PathBuf → Bool → World → Result (Unit {0}) × World

-- Seen from one destination: only a finalization that succeeds changes what is there, and it puts
-- there what was written to a partial file that has been flushed.
pub record Promises (S : FileStorage) (dest : PathBuf) : Type 1 where
  pub content : S.World → Option (List ℕ)
  pub written : S.PartFile → S.World → List ℕ
  pub IsPart : S.PartFile → S.World → Type 0
  pub IsFlushed : S.PartFile → S.World → Type 0
  pub ensure-kept : (w : S.World) → content (S.ensure_parent_dir dest w).1 ≡ content w
  pub create-kept : (w : S.World) → content (S.create_part_file dest w).1 ≡ content w
  pub create-part :
      (w : S.World) (part : S.PartFile)
      → let r = S.create_part_file dest w in
        r.0 ≡ ok part → IsPart part r.1 × (written part r.1 ≡ [])
  pub write-kept :
      (chunk : List ℕ) (part : S.PartFile) (w : S.World)
      → IsPart part w
      → content (S.write_chunk chunk part w).1 ≡ content w
  pub write-part :
      (chunk : List ℕ) (part later : S.PartFile) (w : S.World)
      → IsPart part w
      → let r = S.write_chunk chunk part w in
        r.0 ≡ ok later → IsPart later r.1 × (written later r.1 ≡ written part w ++ chunk)
  pub flush-kept :
      (part : S.PartFile) (w : S.World) → IsPart part w → content (S.flush part w).1 ≡ content w
  pub flush-part :
      (part later : S.PartFile) (w : S.World)
      → IsPart part w
      → let r = S.flush part w in
        r.0 ≡ ok later
        → IsPart later r.1 × IsFlushed later r.1 × (written later r.1 ≡ written part w)
  pub finalize-kept :
      (part : S.PartFile) (overwrite : Bool) (w : S.World) (e : Error)
      → IsPart part w
      → (S.finalize part dest overwrite w).0 ≡ err e
      → content (S.finalize part dest overwrite w).1 ≡ content w
  pub finalize-moves :
      (part : S.PartFile) (overwrite : Bool) (w : S.World)
      → IsPart part w
      → IsFlushed part w
      → (S.finalize part dest overwrite w).0 ≡ ok tt
      → content (S.finalize part dest overwrite w).1 ≡ some (written part w)
