-- ===== src/Storage/Fs.antt =====
-- The file system as `tokio::fs` gives it, with the random names of `uuid`: a parameter of the
-- storage, and what the storage relies on. A path is taken to name one entry: symbolic links and
-- other writers are left out.
use open_download_manager.Prelude.{ℕ, ◌≡◌, ◌≢◌, Bool, false, String, List, [], ◌++◌, Option, some}
use open_download_manager.Core.Libs.{PathBuf}
use open_download_manager.Storage.Chars.{contains}
use open_download_manager.Storage.Path.{file_name}

-- `std::io::Error`: whether its kind is `NotFound`, and its text.
pub record IoError : Type 0 where
  pub not_found : Bool
  pub text : String

pub data Io (A : Type 0) : Type 0 where
  done : A → Io A
  failed : IoError → Io A

pub record Fs : Type 1 where
  pub World : Type 0
  pub Writer : Type 0  -- a `BufWriter` over an open file
  pub display : PathBuf → String
  pub try_exists : World → PathBuf → Bool  -- `unwrap_or(false)`
  pub new_v4_simple : World → List ℕ × World
  pub create_dir_all : PathBuf → World → Io (Unit {0}) × World
  pub open_new : PathBuf → World → Io Writer × World  -- `create_new(true)`
  pub write_all : List ℕ → Writer → World → Io (Unit {0}) × World
  pub flush : Writer → World → Io (Unit {0}) × World
  pub sync_all : Writer → World → Io (Unit {0}) × World
  pub shutdown : Writer → World → Io (Unit {0}) × World  -- after `into_inner`, which drops the buffer
  pub rename : PathBuf → PathBuf → World → Io (Unit {0}) × World
  pub remove_file : PathBuf → World → Io (Unit {0}) × World

-- What is on disk at a path, what was given to a writer, and whether all of that has left its
-- buffer. A writer changes its own file only, which paths with another final component do not name.
pub record IsFileSystem (F : Fs) : Type 1 where
  pub content : F.World → PathBuf → Option (List ℕ)
  pub written : F.Writer → F.World → List ℕ
  pub IsOpen : F.Writer → PathBuf → F.World → Type 0
  pub IsFlushed : F.Writer → F.World → Type 0
  pub id-plain : (w : F.World) → contains b'/' (F.new_v4_simple w).0 ≡ false
  pub id-kept : (w : F.World) (q : PathBuf) → content (F.new_v4_simple w).1 q ≡ content w q
  pub mkdir-kept : (p q : PathBuf) (w : F.World) → content (F.create_dir_all p w).1 q ≡ content w q
  pub open-kept :
      (p q : PathBuf) (w : F.World)
      → file_name p ≢ file_name q
      → content (F.open_new p w).1 q ≡ content w q
  pub open-opens :
      (p : PathBuf) (x : F.Writer) (w : F.World)
      → let r = F.open_new p w in r.0 ≡ done x → IsOpen x p r.1 × (written x r.1 ≡ [])
  pub write-kept :
      (chunk : List ℕ) (x : F.Writer) (p q : PathBuf) (w : F.World)
      → IsOpen x p w
      → file_name p ≢ file_name q
      → content (F.write_all chunk x w).1 q ≡ content w q
  pub write-adds :
      (chunk : List ℕ) (x : F.Writer) (p : PathBuf) (w : F.World)
      → IsOpen x p w
      → let r = F.write_all chunk x w in
        r.0 ≡ done tt → IsOpen x p r.1 × (written x r.1 ≡ written x w ++ chunk)
  pub flush-kept :
      (x : F.Writer) (p q : PathBuf) (w : F.World)
      → IsOpen x p w
      → file_name p ≢ file_name q
      → content (F.flush x w).1 q ≡ content w q
  pub flush-empties :
      (x : F.Writer) (p : PathBuf) (w : F.World)
      → IsOpen x p w
      → let r = F.flush x w in
        r.0 ≡ done tt → IsOpen x p r.1 × IsFlushed x r.1 × (written x r.1 ≡ written x w)
  pub sync-kept :
      (x : F.Writer) (p q : PathBuf) (w : F.World)
      → IsOpen x p w
      → file_name p ≢ file_name q
      → content (F.sync_all x w).1 q ≡ content w q
  pub sync-keeps :
      (x : F.Writer) (p : PathBuf) (w : F.World)
      → IsOpen x p w
      → IsFlushed x w
      → let r = F.sync_all x w in
        r.0 ≡ done tt → IsOpen x p r.1 × IsFlushed x r.1 × (written x r.1 ≡ written x w)
  pub shutdown-kept :
      (x : F.Writer) (p q : PathBuf) (w : F.World)
      → IsOpen x p w
      → file_name p ≢ file_name q
      → content (F.shutdown x w).1 q ≡ content w q
  pub shutdown-leaves :
      (x : F.Writer) (p : PathBuf) (w : F.World)
      → IsOpen x p w
      → IsFlushed x w
      → let r = F.shutdown x w in r.0 ≡ done tt → content r.1 p ≡ some (written x w)
  pub rename-kept :
      (p q : PathBuf) (w : F.World) (e : IoError)
      → let r = F.rename p q w in r.0 ≡ failed e → content r.1 q ≡ content w q
  pub rename-moves :
      (p q : PathBuf) (w : F.World) (bytes : List ℕ)
      → let r = F.rename p q w in
        r.0 ≡ done tt → content w p ≡ some bytes → content r.1 q ≡ some bytes
