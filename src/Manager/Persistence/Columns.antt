-- ===== src/Manager/Persistence/Columns.antt =====
-- The rows of the table `downloads` (crates/download-manager/src/persistence.rs): how a record is
-- bound to the parameters of a statement, and read back.
use open_download_manager.Prelude.{
  ℕ, ◌*◌, ◌/◌, Bool, true, false, String, List, Option, none, some, leb, ◌==◌, not, if◌then◌else◌,
  min,
}
use open_download_manager.Core.Error.{Result, ok, err}
use open_download_manager.Core.Libs.{Libs, SystemTime, since, before}
use open_download_manager.Core.Word.{i64_max}
use open_download_manager.Core.State.{DownloadState, display, from_str}
use open_download_manager.Core.Backend.{BackendKind, DownloadId, kind_display, kind_from_str}
use open_download_manager.Storage.Utf8.{from_utf8_lossy, encode}
use open_download_manager.Manager.Download.{Download}

-- The integers of a column, of 64 bits.
pub data ℤ : Type 0 where
  pos negsuc : ℕ → ℤ

-- The columns with their declared types; the text of the destination by its code points.
pub record Row : Type 0 where
  pub id : String
  pub url : String
  pub destination : List ℕ
  pub backend : String
  pub state : String
  pub overwrite : ℤ
  pub total_bytes : Option ℤ
  pub downloaded_bytes : ℤ
  pub error : Option String
  pub created_at : ℤ
  pub updated_at : ℤ
  pub started_at : Option ℤ
  pub completed_at : Option ℤ
  pub backend_meta : Option String

-- `rusqlite::Error`: a conversion that failed, by its column, or what the database reports.
pub data SqlError : Type 0 where
  from_sql_conversion_failure : ℕ → SqlError
  reported : String → SqlError

pub data Sql {ℓ} (A : Type ℓ) : Type ℓ where
  fine : A → Sql A
  broken : SqlError → Sql A

infixl 5 ◌>>=◌
abbrev pub ◌>>=◌ {κ ℓ} : {A : Type κ} {B : Type ℓ} → Sql A → (A → Sql B) → Sql B
broken e >>= rest = broken e
fine a >>= rest = rest a

abbrev pub map_opt {κ ℓ} : {A : Type κ} {B : Type ℓ} → (A → B) → Option A → Option B
map_opt f none = none
map_opt f (some a) = some (f a)

abbrev pub try_from : ℕ → Option ℤ
try_from n = if leb n i64_max then some (pos n) else none

abbrev pub and_try_from : Option ℕ → Option ℤ
and_try_from none = none
and_try_from (some n) = try_from n

-- `i64::try_from(n).unwrap_or(i64::MAX)`.
abbrev pub clamped : ℕ → ℤ
clamped n = pos (min n i64_max)

-- Milliseconds from the epoch.
unfoldable pub sys_to_ms : SystemTime → ℤ
sys_to_ms (since n) = clamped (n / 1000000)
sys_to_ms (before n) = pos 0

unfoldable pub ms_to_sys : ℤ → SystemTime
ms_to_sys (pos n) = since (n * 1000000)
ms_to_sys (negsuc n) = since 0

abbrev pub or_null_text : Option String → String
or_null_text none = "null"
or_null_text (some s) = s

abbrev pub as_i64 : Bool → ℤ
as_i64 true = pos 1
as_i64 false = pos 0

-- `v != 0`, and `u64::try_from(v).unwrap_or(0)`.
abbrev pub is_set : ℤ → Bool
is_set (pos n) = not (n == 0)
is_set (negsuc n) = true

abbrev pub as_u64 : ℤ → ℕ
as_u64 (pos n) = n
as_u64 (negsuc n) = 0

-- The parameters of `save`.
unfoldable pub row_of : (L : Libs) → Download L → Row
row_of L d = record {
  id = L.uuid_to_string d.id;
  url = L.url_to_string d.url;
  destination = from_utf8_lossy d.destination;
  backend = kind_display d.backend;
  state = display d.state;
  overwrite = as_i64 d.overwrite;
  total_bytes = and_try_from d.total_bytes;
  downloaded_bytes = clamped d.downloaded_bytes;
  error = d.error;
  created_at = sys_to_ms d.created_at;
  updated_at = sys_to_ms d.updated_at;
  started_at = map_opt sys_to_ms d.started_at;
  completed_at = map_opt sys_to_ms d.completed_at;
  backend_meta = some (or_null_text (L.value_to_string d.backend_meta));
}

abbrev pub converted : {A : Type 0} → ℕ → Option A → Sql A
converted column none = broken (from_sql_conversion_failure column)
converted column (some a) = fine a

abbrev pub parsed : {A : Type 0} → ℕ → Result A → Sql A
parsed column (err e) = broken (from_sql_conversion_failure column)
parsed column (ok a) = fine a

abbrev pub read_value : (L : Libs) → Option String → L.Value
read_value L none = L.null
read_value L (some s) = or_null (L.value_from_str s)
  where
    or_null : Option L.Value → L.Value
    or_null none = L.null
    or_null (some v) = v

abbrev pub built : (L : Libs) → Row → DownloadId → L.Url → BackendKind → DownloadState → Download L
built L row id url backend state = record {
  id = id;
  url = url;
  destination = encode row.destination;
  backend = backend;
  state = state;
  overwrite = is_set row.overwrite;
  total_bytes = map_opt as_u64 row.total_bytes;
  downloaded_bytes = as_u64 row.downloaded_bytes;
  created_at = ms_to_sys row.created_at;
  updated_at = ms_to_sys row.updated_at;
  started_at = map_opt ms_to_sys row.started_at;
  completed_at = map_opt ms_to_sys row.completed_at;
  error = row.error;
  backend_meta = read_value L row.backend_meta;
}

unfoldable pub row_to_download : (L : Libs) → Row → Sql (Download L)
row_to_download L row = converted 0 (L.uuid_parse row.id) >>= λ id.
    converted 1 (L.url_parse row.url) >>= λ url. parsed 3 (kind_from_str row.backend) >>= λ backend.
    parsed 4 (from_str row.state) >>= λ state. fine (built L row id url backend state)
