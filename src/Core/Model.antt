-- ===== src/Core/Model.antt =====
-- The shared records of crates/core/src/model.rs.
use open_download_manager.Prelude.{ℕ, Bool, List, Option, String}
use open_download_manager.Core.Libs.{Libs, PathBuf, SystemTime}

pub data HttpMethod : Type 0 where
  get head : HttpMethod

unfoldable pub as_str : HttpMethod → String
as_str HttpMethod.get = "GET"
as_str HttpMethod.head = "HEAD"

pub record DownloadRequest (L : Libs) : Type 0 where
  pub url : L.Url
  pub output : PathBuf
  pub overwrite : Bool
  pub max_redirects : ℕ

-- The texts of the headers by their code points.
pub record ResourceInfo (L : Libs) : Type 0 where
  pub final_url : L.Url
  pub content_length : Option ℕ
  pub content_type : Option (List ℕ)
  pub etag : Option (List ℕ)
  pub last_modified : Option (List ℕ)
  pub accepts_ranges : Bool
  pub suggested_filename : Option (List ℕ)

pub record InspectInfo (L : Libs) : Type 0 where
  pub status : ℕ
  pub resource : ResourceInfo L

pub record DownloadProgress : Type 0 where
  pub downloaded_bytes : ℕ
  pub total_bytes : Option ℕ
  pub at : SystemTime
