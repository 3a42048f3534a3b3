-- ===== src/Storage/PartFile.antt =====
-- Partial files: `FileStorage` and `PartFileHandle` of crates/storage/src/storage.rs, and
-- `ensure_parent_dir` of crates/storage/src/path.rs.
pub mod Place
pub mod Kept
pub mod Moved
use Prim.Native.String.{◌++◌ as ◌<>◌}
use open_download_manager.Prelude.{
  ℕ, Bool, true, false, String, List, [], ◌∷◌, ◌++◌, Option, none, some, length, not, ◌&&◌,
  if◌then◌else◌,
}
use open_download_manager.Core.Error.{Error, Result, ok, err}
use open_download_manager.Core.Libs.{PathBuf}
use open_download_manager.Core.Word.{saturating_add}
use open_download_manager.Storage.Chars.{codes, is_empty}
use open_download_manager.Storage.Utf8.{to_str}
use open_download_manager.Storage.Path.{file_name, and_then_str}
use open_download_manager.Storage.Path.Parent.{parent, join}
use open_download_manager.Storage.Fs.{Fs, Io, done, failed, IoError}
use open_download_manager.Engine.Storage.{FileStorage}

-- The name of a partial file: hidden, beside the name of the final one where that is UTF-8.
abbrev pub part_name : Option (List ℕ) → List ℕ → Option (List ℕ) → List ℕ
part_name (some name) id (some text) = codes "." ++ (name ++ (codes "." ++ (id ++ codes ".part")))
part_name name id text = codes "download." ++ (id ++ codes ".part")

-- `map_err` with `Error::Filesystem` and a text that goes before the error's.
unfoldable pub or_filesystem {ℓ} : {W : Type ℓ} {A : Type 0} → String → Io A × W → Result A × W
or_filesystem what (done a, w) = (ok a, w)
or_filesystem what (failed e, w) = (err (Error.filesystem (what <> e.text)), w)

unfoldable pub in_dir : Option PathBuf → List ℕ → PathBuf
in_dir none name = name
in_dir (some dir) name = if is_empty dir then name else join dir name

unfoldable pub part_path : PathBuf → List ℕ → PathBuf
unfolding in_dir
part_path final_path id =
    let name = file_name final_path in
    in_dir (parent final_path) (part_name name id (and_then_str name))

module _ (F : Fs) where
  pub record PartFileHandle : Type 0 where
    pub writer : F.Writer
    pub path : PathBuf
    pub bytes_written : ℕ

  wrote : PartFileHandle → ℕ → Result (Unit {0}) × F.World → Result PartFileHandle × F.World
  wrote part size (err e, w) = (err e, w)
  wrote part size (ok _, w) =
      (ok (record part { bytes_written = saturating_add part.bytes_written size }), w)

  unfoldable pub write_chunk : List ℕ → PartFileHandle → F.World → Result PartFileHandle × F.World
  unfolding wrote
  write_chunk chunk part w =
      wrote part (length chunk) (or_filesystem "write: " (F.write_all chunk part.writer w))

  synced : PartFileHandle → Result (Unit {0}) × F.World → Result PartFileHandle × F.World
  synced part (err e, w) = (err e, w)
  synced part (ok _, w) = (ok part, w)

  flushed : PartFileHandle → Result (Unit {0}) × F.World → Result PartFileHandle × F.World
  unfolding synced
  flushed part (err e, w) = (err e, w)
  flushed part (ok _, w) = synced part (or_filesystem "sync_all: " (F.sync_all part.writer w))

  unfoldable pub flush : PartFileHandle → F.World → Result PartFileHandle × F.World
  unfolding flushed
  flush part w = flushed part (or_filesystem "flush: " (F.flush part.writer w))

  closed : PathBuf → Result (Unit {0}) × F.World → Result PathBuf × F.World
  closed path (err e, w) = (err e, w)
  closed path (ok _, w) = (ok path, w)

  unfoldable pub close : PartFileHandle → F.World → Result PathBuf × F.World
  unfolding closed
  close part w = closed part.path (or_filesystem "close: " (F.shutdown part.writer w))

  ensure_dir : Option PathBuf → F.World → Result (Unit {0}) × F.World
  ensure_dir none w = (ok tt, w)
  ensure_dir (some dir) w =
      if not (is_empty dir) && not (F.try_exists w dir)
      then or_filesystem ("create_dir_all(" <> F.display dir <> "): ") (F.create_dir_all dir w)
      else (ok tt, w)

  unfoldable pub ensure_parent_dir : PathBuf → F.World → Result (Unit {0}) × F.World
  unfolding ensure_dir
  ensure_parent_dir path w = ensure_dir (parent path) w

  opened : PathBuf → Result F.Writer × F.World → Result PartFileHandle × F.World
  opened path (err e, w) = (err e, w)
  opened path (ok writer, w) = (ok (record { writer = writer; path = path; bytes_written = 0 }), w)

  -- From the drawn id.
  create : PathBuf → List ℕ × F.World → Result PartFileHandle × F.World
  unfolding opened part_path
  create final_path (id, w) =
      let path = part_path final_path id in
      opened path
        (or_filesystem ("create part file " <> F.display path <> ": ") (F.open_new path w))

  ensured : PathBuf → Result (Unit {0}) × F.World → Result PartFileHandle × F.World
  unfolding create
  ensured final_path (err e, w) = (err e, w)
  ensured final_path (ok _, w) = create final_path (F.new_v4_simple w)

  unfoldable pub create_part_file : PathBuf → F.World → Result PartFileHandle × F.World
  unfolding ensured
  create_part_file final_path w = ensured final_path (ensure_parent_dir final_path w)

  move_in : PathBuf → Bool → Result PathBuf × F.World → Result (Unit {0}) × F.World
  move_in final_path overwrite (err e, w) = (err e, w)
  move_in final_path overwrite (ok part_path, w) =
      if not overwrite && F.try_exists w final_path
      then (err (Error.already_exists (F.display final_path)), w)
      else or_filesystem
          ("rename " <> F.display part_path <> " -> " <> F.display final_path <> ": ")
          (F.rename part_path final_path w)

  unfoldable pub finalize : PartFileHandle → PathBuf → Bool → F.World → Result (Unit {0}) × F.World
  unfolding move_in
  finalize part final_path overwrite w = move_in final_path overwrite (close part w)

  removed : PathBuf → Io (Unit {0}) × F.World → Result (Unit {0}) × F.World
  removed path (done _, w) = (ok tt, w)
  removed path (failed e, w) =
      if e.not_found
      then (ok tt, w)
      else (err (Error.filesystem ("remove part file " <> F.display path <> ": " <> e.text)), w)

  unfoldable pub remove_part : PathBuf → F.World → Result (Unit {0}) × F.World
  unfolding removed
  remove_part path w = removed path (F.remove_file path w)

  -- The storage that the engine is given.
  abbrev pub file_storage : FileStorage
  file_storage = record {
    World = F.World;
    PartFile = PartFileHandle;
    display = F.display;
    exists = F.try_exists;
    ensure_parent_dir = ensure_parent_dir;
    create_part_file = create_part_file;
    write_chunk = write_chunk;
    flush = flush;
    finalize = finalize;
  }
