-- ===== src/Tests/Database.antt =====
-- A database in memory: a list of rows, the recorded versions, and the migrations that have run.
use mathlib.Core.List.{Memᴰ}
use mathlib.Core.List.Memᴰ
use text.Mathlib.Text.{◌==◌ as str_eq}
use text.Mathlib.TextEquality.{eq_iff}
use open_download_manager.Prelude.{
  ℕ, ◌≡◌, ◌≢◌, zero, suc, refl, sym, ap, subst, ◌∙◌, ◌⊎◌, inl, inr, true, false, String, List, [],
  ◌∷◌, ◌++◌, none, some, if◌then◌else◌, Bool-cases,
}
use open_download_manager.Core.Error.{ok, is_ok}
use open_download_manager.Core.Libs.{Libs, since}
use open_download_manager.Core.State.{queued}
use open_download_manager.Core.Backend.{http}
use open_download_manager.Manager.Download.{Download}
use open_download_manager.Manager.Persistence.Columns.{Row, fine, row_of}
use open_download_manager.Manager.Persistence.{
  Sqlite, open_with, migrate, migrate_loop, migrations, apply, applied_migrations, collect,
}
use open_download_manager.Manager.Persistence.Listing.{all_fine, IsTable}
use open_download_manager.Manager.Persistence.Migrations.{
  IsSchema, has, pending, sqls, migrate-resumes,
}
use open_download_manager.Manager.Download.{Host}
use open_download_manager.Manager.Inner.{ManagerInner}
use open_download_manager.Manager.Recover.{recover_all, fresh}
use open_download_manager.Manager.Recover.Restart.{stored_host}
use open_download_manager.Tests.World.{libs, one_slot}

record Data : Type 0 where
  rows : List Row
  versions : List ℕ
  ran : List String

abbrev drop_id : String → List Row → List Row
drop_id id [] = []
drop_id id (x ∷ l) = let rest = drop_id id l in if str_eq x.id id then rest else x ∷ rest

abbrev database : Sqlite
database = record {
  Conn = Data;
  Tx = Data;
  error_to_string = λ e. "error";
  insert_or_replace = λ r c. fine (record c { rows = r ∷ drop_id r.id c.rows });
  select_rows = λ c. fine (all_fine c.rows);
  delete_row = λ id c. fine (record c { rows = drop_id id c.rows });
  execute_batch = λ sql c. fine c;
  select_versions = λ c. fine (all_fine c.versions);
  transaction = λ c. fine c;
  tx_execute_batch = λ sql t. fine (record t { ran = t.ran ++ sql ∷ [] });
  insert_version = λ version at t. fine (record t { versions = version ∷ t.versions });
  commit = λ t. fine t;
}

drop_id-same :
    (id : String) (y : Row) (l : List Row)
    → str_eq y.id id ≡ true
    → drop_id id (y ∷ l) ≡ drop_id id l
drop_id-same id y l h = rw h refl

drop_id-other :
    (id : String) (y : Row) (l : List Row)
    → str_eq y.id id ≡ false
    → drop_id id (y ∷ l) ≡ y ∷ drop_id id l
drop_id-other id y l h = rw h refl

str_ne : (s t : String) → str_eq s t ≡ false → s ≢ t
str_ne s t h e = let both : true ≡ false = sym ((eq_iff s t).1 e) ∙ h in absurd cc

drop_id-from :
    (id : String) (x : Row) (l : List Row) → Memᴰ x (drop_id id l) → Memᴰ x l × (x.id ≢ id)
drop_id-from id x [] m = absurd (Memᴰ.not-nil m)
drop_id-from id x (y ∷ l) m = elim (Bool-cases (str_eq y.id id)) [
  | inl same ↦
      let (m', other) = drop_id-from id x l (subst (Memᴰ x) (drop_id-same id y l same) m) in
      (Memᴰ.tail m', other)
  | inr apart ↦
      go (Memᴰ.cases_cons (subst (Memᴰ x) (drop_id-other id y l apart) m)) (str_ne y.id id apart)
        (λ m'. drop_id-from id x l m')
]
  where
    go :
        (x ≡ y) ⊎ Memᴰ x (drop_id id l)
        → y.id ≢ id
        → (Memᴰ x (drop_id id l) → Memᴰ x l × (x.id ≢ id))
        → Memᴰ x (y ∷ l) × (x.id ≢ id)
    go (inl same) other later = (Memᴰ.head same, λ e. other (ap (λ (q : Row). q.id) (sym same) ∙ e))
    go (inr m') other later = let (m'', o) = later m' in (Memᴰ.tail m'', o)

drop_id-keeps :
    (id : String) (x : Row) (l : List Row) → Memᴰ x l → x.id ≢ id → Memᴰ x (drop_id id l)
drop_id-keeps id x [] m other = absurd (Memᴰ.not-nil m)
drop_id-keeps id x (y ∷ l) m other = elim (Bool-cases (str_eq y.id id)) [
  | inl same ↦
      subst (Memᴰ x) (sym (drop_id-same id y l same))
        (there (Memᴰ.cases_cons m) ((eq_iff y.id id).0 same) (λ m'. drop_id-keeps id x l m' other))
  | inr apart ↦
      subst (Memᴰ x) (sym (drop_id-other id y l apart))
        (here_or (Memᴰ.cases_cons m) (λ m'. drop_id-keeps id x l m' other))
]
  where
    there :
        (x ≡ y) ⊎ Memᴰ x l → y.id ≡ id → (Memᴰ x l → Memᴰ x (drop_id id l)) → Memᴰ x (drop_id id l)
    there (inl e) same later = absurd (other (ap (λ (q : Row). q.id) e ∙ same))
    there (inr m') same later = later m'

    here_or : (x ≡ y) ⊎ Memᴰ x l → (Memᴰ x l → Memᴰ x (drop_id id l)) → Memᴰ x (y ∷ drop_id id l)
    here_or (inl e) later = Memᴰ.head e
    here_or (inr m') later = Memᴰ.tail (later m')

Sql-fine : {A : Type 0} {a b : A} → fine a ≡ fine b → a ≡ b
Sql-fine h = cc

inserted-from :
    (r x : Row) (l : List Row) → Memᴰ x (r ∷ drop_id r.id l) → (x ≡ r) ⊎ (Memᴰ x l × (x.id ≢ r.id))
inserted-from r x l m = go (Memᴰ.cases_cons m)
  where
    go : (x ≡ r) ⊎ Memᴰ x (drop_id r.id l) → (x ≡ r) ⊎ (Memᴰ x l × (x.id ≢ r.id))
    go (inl e) = inl e
    go (inr m') = inr (drop_id-from r.id x l m')

database-IsTable : IsTable database
database-IsTable = record {
  table = λ c. c.rows;
  select = λ c l h. sym (Sql-fine h);
  insert-has = λ r c later h. subst (λ (d : Data). Memᴰ r d.rows) (Sql-fine h) (Memᴰ.head refl);
  insert-from = λ r x c later h m.
      inserted-from r x c.rows (subst (λ (d : Data). Memᴰ x d.rows) (sym (Sql-fine h)) m);
  insert-keeps = λ r x c later h m other.
      subst (λ (d : Data). Memᴰ x d.rows) (Sql-fine h)
        (Memᴰ.tail (drop_id-keeps r.id x c.rows m other));
}

database-IsSchema : IsSchema database
database-IsSchema = record {
  versions = λ c. c.versions;
  ran = λ c. c.ran;
  tx_versions = λ t. t.versions;
  tx_ran = λ t. t.ran;
  select = λ c l h. sym (Sql-fine h);
  create-kept = λ c later h. (
    ap (λ (d : Data). d.versions) (sym (Sql-fine h)),
    ap (λ (d : Data). d.ran) (sym (Sql-fine h)),
  );
  begin-kept = λ c t h. (
    ap (λ (d : Data). d.versions) (sym (Sql-fine h)),
    ap (λ (d : Data). d.ran) (sym (Sql-fine h)),
  );
  batch-runs = λ sql t later h. (
    ap (λ (d : Data). d.versions) (sym (Sql-fine h)),
    ap (λ (d : Data). d.ran) (sym (Sql-fine h)),
  );
  insert-records = λ version u at t later h. (
    ap (λ (d : Data). has u d.versions) (sym (Sql-fine h)),
    ap (λ (d : Data). d.ran) (sym (Sql-fine h)),
  );
  commit-kept = λ t later h. (
    ap (λ (d : Data). d.versions) (sym (Sql-fine h)),
    ap (λ (d : Data). d.ran) (sym (Sql-fine h)),
  );
}

-- One migration has run, the other has not.
abbrev half : Data
half = record { rows = []; versions = 1 ∷ []; ran = [] }

migrates : is_ok (migrate database (λ n. since 0) (migrate database (λ n. since 0) half).1).0 ≡ true
unfolding migrate migrate_loop applied_migrations apply collect
migrates = refl

migrate-resumes_example :
    let again = migrate database (λ n. since 0) (migrate database (λ n. since 0) half).1 in
    (again.1.ran ≡ "CREATE INDEX IF NOT EXISTS idx_downloads_state ON downloads(state);" ∷ [])
    × (pending again.1.versions migrations ≡ [])
unfolding database-IsSchema
migrate-resumes_example = migrate-resumes database database-IsSchema (λ n. since 0) half migrates

-- Ids in unary, so that each is read back.
abbrev unary : ℕ → String
unary zero = ""
unary (suc n) = String.◌∷◌ "x" (unary n)

abbrev count_of : String → ℕ
count_of String.[] = 0
count_of (String.◌∷◌ c s) = suc (count_of s)

abbrev unary_libs : Libs
unary_libs = record libs { uuid_to_string = unary; uuid_parse = λ s. some (count_of s) }

abbrev record_of : ℕ → Download unary_libs
record_of n = record {
  id = n;
  url = "https://example.com/a";
  destination = b'a' ∷ [];
  backend = http;
  state = queued;
  overwrite = true;
  total_bytes = some 10;
  downloaded_bytes = 4;
  created_at = since 5000000;
  updated_at = since 7000000;
  started_at = some (since 7000000);
  completed_at = none;
  error = none;
  backend_meta = "";
}

abbrev holding_two : Data
holding_two = record { rows = row_of unary_libs (record_of 2) ∷ []; versions = []; ran = [] }

abbrev holding_both : Data
holding_both = record {
  rows = row_of unary_libs (record_of 1) ∷ row_of unary_libs (record_of 2) ∷ [];
  versions = [];
  ran = [];
}

abbrev sqlite_host : Host
sqlite_host = stored_host database unary_libs (λ n. since n)

abbrev both : List (Download unary_libs)
both = record_of 1 ∷ record_of 2 ∷ []

abbrev restarted : ManagerInner sqlite_host
restarted = (recover_all both (fresh {H = sqlite_host} one_slot (http ∷ []) holding_both)).1

opens_empty :
    open_with database (λ n. since 0) (fine (record { rows = []; versions = []; ran = [] }))
    ≡ ok (record { rows = []; versions = 2 ∷ 1 ∷ []; ran = sqls migrations })
unfolding open_with migrate migrate_loop applied_migrations apply collect
opens_empty = refl
