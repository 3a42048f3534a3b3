-- ===== src/Manager/Persistence.antt =====
-- `Persistence` (crates/download-manager/src/persistence.rs), over SQLite as `rusqlite` gives it.
pub mod Columns
pub mod Rest
pub mod Listing
pub mod Migrations
use Prim.Native.String.{◌++◌ as ◌<>◌}
use open_download_manager.Prelude.{
  ℕ, ◌≡◌, refl, Bool, true, false, String, List, [], ◌∷◌, ◌++◌, Option, none, some, ◌==◌, any,
  if◌then◌else◌,
}
use open_download_manager.Core.Error.{Error, Result, ok, err}
use open_download_manager.Core.Display.{decimal}
use open_download_manager.Core.Libs.{Libs, SystemTime}
use open_download_manager.Core.Backend.{DownloadId}
use open_download_manager.Manager.Download.{Download, Store}
use open_download_manager.Manager.Persistence.Columns.{
  Row, Sql, SqlError, fine, broken, ◌>>=◌, sys_to_ms, as_u64, row_of, row_to_download,
}

-- The statements of the source, each by what it is for. One that fails leaves the database as it
-- was, and so does a transaction that is not committed.
pub record Sqlite : Type 1 where
  pub Conn : Type 0
  pub Tx : Type 0
  pub error_to_string : SqlError → String
  pub insert_or_replace : Row → Conn → Sql Conn
  pub select_rows : Conn → Sql (List (Sql Row))  -- ORDER BY created_at ASC, id ASC
  pub delete_row : String → Conn → Sql Conn
  pub execute_batch : String → Conn → Sql Conn
  pub select_versions : Conn → Sql (List (Sql ℕ))  -- ORDER BY version ASC
  pub transaction : Conn → Sql Tx
  pub tx_execute_batch : String → Tx → Sql Tx
  pub insert_version : ℕ → String → Tx → Sql Tx
  pub commit : Tx → Sql Conn

abbrev pub create_schema_migrations : String
create_schema_migrations =
    "CREATE TABLE IF NOT EXISTS schema_migrations (version INTEGER PRIMARY KEY, applied_at TEXT NOT NULL);"

-- `MIGRATIONS`, with the white space of the SQL left out.
abbrev pub migrations : List (ℕ × String)
migrations =
    (
      1,
      "CREATE TABLE IF NOT EXISTS downloads (id TEXT PRIMARY KEY, url TEXT NOT NULL, destination TEXT NOT NULL, backend TEXT NOT NULL, state TEXT NOT NULL, overwrite INTEGER NOT NULL DEFAULT 0, total_bytes INTEGER, downloaded_bytes INTEGER NOT NULL DEFAULT 0, error TEXT, created_at INTEGER NOT NULL, updated_at INTEGER NOT NULL, started_at INTEGER, completed_at INTEGER, backend_meta TEXT);",
    )
    ∷ (2, "CREATE INDEX IF NOT EXISTS idx_downloads_state ON downloads(state);")
    ∷ []

-- The items of a query up to the first that fails.
unfoldable pub collect {κ ℓ} : {A : Type κ} {B : Type ℓ} → (A → Sql B) → List (Sql A) → Sql (List B)
collect f [] = fine []
collect f (item ∷ rest) =
    let more = collect f rest in item >>= f >>= λ b. more >>= λ bs. fine (b ∷ bs)

module _ (S : Sqlite) where
  unfoldable pub db_err : SqlError → Error
  db_err e = Error.internal ("database error: " <> S.error_to_string e)

  unfoldable pub map_db_err {ℓ} : {A : Type ℓ} → Sql A → Result A
  map_db_err (fine a) = ok a
  map_db_err (broken e) = err (db_err e)

  -- The version that a failed or a finished step leaves.
  abbrev pub kept : S.Conn → Sql S.Conn → Result (Unit {0}) × S.Conn
  kept conn (fine next_conn) = (ok tt, next_conn)
  kept conn (broken e) = (err (db_err e), conn)

  unfoldable pub save : {L : Libs} → S.Conn → Download L → Result S.Conn
  unfolding map_db_err
  save {L} conn dl = map_db_err (S.insert_or_replace (row_of L dl) conn)

  unfoldable pub list : {L : Libs} → S.Conn → Result (List (Download L))
  unfolding map_db_err collect
  list {L} conn = map_db_err (S.select_rows conn >>= collect (row_to_download L))

  unfoldable pub remove : (L : Libs) → S.Conn → DownloadId → Result S.Conn
  unfolding map_db_err
  remove L conn id = map_db_err (S.delete_row (L.uuid_to_string id) conn)

  -- The store that the manager is given.
  abbrev pub sqlite_store : (L : Libs) → Store L
  sqlite_store L = record {
    Conn = S.Conn;
    save = save {L = L};
    list = list {L = L};
    remove = remove L;
  }

  unfoldable pub applied_migrations : S.Conn → Sql (List ℕ)
  unfolding collect
  applied_migrations conn = S.select_versions conn >>= collect (λ version. fine version)

  -- One migration in its transaction.
  unfoldable pub apply : SystemTime → ℕ → String → S.Conn → Sql S.Conn
  apply now version sql conn =
      S.transaction conn
      >>= S.tx_execute_batch sql
      >>= S.insert_version version (decimal (as_u64 (sys_to_ms now)))
      >>= S.commit

  abbrev pub and_then :
      Result (Unit {0}) × S.Conn
      → (S.Conn → Result (Unit {0}) × S.Conn)
      → Result (Unit {0}) × S.Conn
  and_then (err e, conn) rest = (err e, conn)
  and_then (ok _, conn) rest = rest conn

  -- The loop of `migrate`; `now` is read at each version that is applied.
  unfoldable pub migrate_loop :
      (ℕ → SystemTime) → List ℕ → List (ℕ × String) → S.Conn → Result (Unit {0}) × S.Conn
  migrate_loop now applied [] conn = (ok tt, conn)
  migrate_loop now applied ((version, sql) ∷ rest) conn =
      if any (λ v. v == version) applied
      then migrate_loop now applied rest conn
      else and_then (kept conn (apply (now version) version sql conn))
          (migrate_loop now applied rest)

  migrate_from : (ℕ → SystemTime) → Sql (List ℕ) → S.Conn → Result (Unit {0}) × S.Conn
  unfolding migrate_loop
  migrate_from now (broken e) conn = (err (db_err e), conn)
  migrate_from now (fine applied) conn = migrate_loop now applied migrations conn

  unfoldable pub migrate : (ℕ → SystemTime) → S.Conn → Result (Unit {0}) × S.Conn
  unfolding migrate_from
  migrate now conn =
      and_then (kept conn (S.execute_batch create_schema_migrations conn))
        (λ created. migrate_from now (applied_migrations created) created)

  abbrev pub migrated : Result (Unit {0}) × S.Conn → Result S.Conn
  migrated (err e, conn) = err e
  migrated (ok _, conn) = ok conn

  -- `open`, from what `Connection::open` gives for the path.
  unfoldable pub open_with : (ℕ → SystemTime) → Sql S.Conn → Result S.Conn
  unfolding migrate
  open_with now (broken e) = err (db_err e)
  open_with now (fine conn) = migrated (migrate now conn)
