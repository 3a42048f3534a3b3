-- ===== src/Core/Backend.antt =====
-- The boundary between the manager and the protocols (crates/core/src/backend.rs).
use Prim.Native.String.{◌++◌}
use text.Mathlib.Text.{◌==◌ as str_eq}
use text.Mathlib.TextEquality.{eq_iff}
use open_download_manager.Prelude.{
  ℕ, String, Bool, ◌≡◌, ◌↔◌, Option, none, some, arith, if◌then◌else◌,
}
use open_download_manager.Core.Error.{Error, Result, ok, err}
use open_download_manager.Core.Libs.{Libs, PathBuf}

pub data BackendKind : Type 0 where
  http : BackendKind

unfoldable pub kind_display : BackendKind → String
kind_display http = "http"

unfoldable pub kind_from_str : String → Result BackendKind
kind_from_str s =
    if str_eq s "http" then ok http else err (Error.internal ("unknown backend kind: " ++ s))

-- Only the stored form of the HTTP backend is read as a backend kind.
kind_from_str_iff : (t : String) (k : BackendKind) → (kind_from_str t ≡ ok k) ↔ (t ≡ kind_display k)
unfolding kind_from_str kind_display
kind_from_str_iff t http = ground (arith, eq_iff t "http")

-- The 128 bits of a UUID.
abbrev pub DownloadId : Type 0
DownloadId = ℕ

-- The text of the library's parse error is left out of the message.
unfoldable pub id_from_str : Libs → String → Result DownloadId
id_from_str L s = elim (L.uuid_parse s) [
  | none ↦ err (Error.internal "invalid download id: ")
  | some n ↦ ok n
]

-- What the manager hands to a backend. The sink is known by the download's id, and the signal and
-- the rate limiter by a number and a byte rate.
pub record BackendTask (L : Libs) : Type 0 where
  pub id : DownloadId
  pub url : L.Url
  pub destination : PathBuf
  pub overwrite : Bool
  pub backend_meta : L.Value
  pub progress : Option DownloadId
  pub cancel : Option ℕ
  pub rate_limiter : Option ℕ

pub record BackendOutcome (L : Libs) : Type 0 where
  pub downloaded_bytes : ℕ
  pub total_bytes : Option ℕ
  pub backend_meta : L.Value
