-- ===== src/Manager/Persistence/Rest.antt =====
-- What is left of a record in a row (crates/download-manager/src/persistence.rs).
use open_download_manager.Prelude.{
  ℕ, ◌*◌, ◌/◌, ◌%◌, ◌≤◌, ◌≡◌, refl, ap, Bool, true, false, String, List, Option, none, some, arith,
  leb, min, if◌then◌else◌,
}
use open_download_manager.Core.Error.{ok}
use open_download_manager.Core.Libs.{Libs, RoundTrips, SystemTime, since, before}
use open_download_manager.Core.Word.{i64_max}
use open_download_manager.Core.State.{
  DownloadState, display, from_str, queued, starting, downloading, paused, completed, failed,
  cancelled,
}
use open_download_manager.Core.Backend.{BackendKind, kind_display, kind_from_str, http}
use open_download_manager.Storage.Utf8.{to_str, from_utf8_lossy, encode}
use open_download_manager.Manager.Download.{Download}
use open_download_manager.Manager.Persistence.Columns.{
  fine, map_opt, and_try_from, sys_to_ms, ms_to_sys, or_null_text, as_i64, is_set, as_u64, row_of,
  read_value, built, row_to_download,
}

-- Whole milliseconds, not before the epoch.
abbrev pub in_ms : SystemTime → SystemTime
in_ms (since n) = since (min (n / 1000000) i64_max * 1000000)
in_ms (before n) = since 0

-- A length that does not fit is forgotten; a count that does not fit is cut.
abbrev pub kept_total : Option ℕ → Option ℕ
kept_total none = none
kept_total (some n) = if leb n i64_max then some n else none

-- A record after its trip through a row.
abbrev pub at_rest : (L : Libs) → Download L → Download L
at_rest L d = record d {
  destination = encode (from_utf8_lossy d.destination);
  total_bytes = kept_total d.total_bytes;
  downloaded_bytes = min d.downloaded_bytes i64_max;
  created_at = in_ms d.created_at;
  updated_at = in_ms d.updated_at;
  started_at = map_opt in_ms d.started_at;
  completed_at = map_opt in_ms d.completed_at;
  backend_meta = read_value L (some (or_null_text (L.value_to_string d.backend_meta)));
}

from_str-display : (s : DownloadState) → from_str (display s) ≡ ok s
unfolding from_str display
from_str-display queued = refl
from_str-display starting = refl
from_str-display downloading = refl
from_str-display paused = refl
from_str-display completed = refl
from_str-display failed = refl
from_str-display cancelled = refl

kind_from_str-kind_display : (k : BackendKind) → kind_from_str (kind_display k) ≡ ok k
unfolding kind_from_str kind_display
kind_from_str-kind_display http = refl

ms_to_sys-sys_to_ms : (t : SystemTime) → ms_to_sys (sys_to_ms t) ≡ in_ms t
unfolding ms_to_sys sys_to_ms
ms_to_sys-sys_to_ms (since n) = refl
ms_to_sys-sys_to_ms (before n) = refl

ms_to_sys-sys_to_ms_opt :
    (t : Option SystemTime) → map_opt ms_to_sys (map_opt sys_to_ms t) ≡ map_opt in_ms t
ms_to_sys-sys_to_ms_opt none = refl
ms_to_sys-sys_to_ms_opt (some t) = ap some (ms_to_sys-sys_to_ms t)

as_u64-and_try_from : (n : Option ℕ) → map_opt as_u64 (and_try_from n) ≡ kept_total n
as_u64-and_try_from none = refl
as_u64-and_try_from (some n) = ground arith

is_set-as_i64 : (b : Bool) → is_set (as_i64 b) ≡ b
is_set-as_i64 true = refl
is_set-as_i64 false = refl

built-at_rest :
    (L : Libs) (d : Download L) → built L (row_of L d) d.id d.url d.backend d.state ≡ at_rest L d
unfolding row_of
built-at_rest L d =
    rw
      (
        is_set-as_i64 d.overwrite,
        as_u64-and_try_from d.total_bytes,
        ms_to_sys-sys_to_ms d.created_at,
        ms_to_sys-sys_to_ms d.updated_at,
        ms_to_sys-sys_to_ms_opt d.started_at,
        ms_to_sys-sys_to_ms_opt d.completed_at,
      )
      refl

-- Reading a row that was written gives the record with what a row keeps of it, and never fails.
pub row_to_download-row_of :
    (L : Libs) (d : Download L) → RoundTrips L → row_to_download L (row_of L d) ≡ fine (at_rest L d)
unfolding row_to_download row_of
row_to_download-row_of L d trips =
    rw
      (
        trips.uuid d.id,
        trips.url d.url,
        kind_from_str-kind_display d.backend,
        from_str-display d.state,
      )
      (ap fine (built-at_rest L d))

-- Whole milliseconds from the epoch on, that fit.
abbrev pub IsInMs : SystemTime → Type 0
IsInMs (since n) = (n % 1000000 ≡ 0) × (n / 1000000 ≤ i64_max)
IsInMs (before n) = ⊥

abbrev pub IsInMsIfAny : Option SystemTime → Type 0
IsInMsIfAny none = Unit {0}
IsInMsIfAny (some t) = IsInMs t

abbrev pub FitsIfAny : Option ℕ → Type 0
FitsIfAny none = Unit {0}
FitsIfAny (some n) = n ≤ i64_max

-- A record that a row can hold: a path of UTF-8, numbers that fit, times of whole milliseconds, and
-- a value that prints.
pub record IsStorable (L : Libs) (d : Download L) : Type 0 where
  pub destination : (text : List ℕ) × (to_str d.destination ≡ some text)
  pub total_bytes : FitsIfAny d.total_bytes
  pub downloaded_bytes : d.downloaded_bytes ≤ i64_max
  pub created_at : IsInMs d.created_at
  pub updated_at : IsInMs d.updated_at
  pub started_at : IsInMsIfAny d.started_at
  pub completed_at : IsInMsIfAny d.completed_at
  pub backend_meta : (text : String) × (L.value_to_string d.backend_meta ≡ some text)
