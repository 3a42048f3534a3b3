-- ===== src/Tests/Transfers.antt =====
-- A download over a storage in memory, of which one path is looked at.
use open_download_manager.Prelude.{
  arith, ℕ, ◌≡◌, refl, Bool, true, false, List, [], ◌∷◌, ◌++◌, Option, none, some, not, ◌&&◌,
  if◌then◌else◌,
}
use open_download_manager.Core.Error.{Error, ok, err}
use open_download_manager.Core.Libs.{since}
use open_download_manager.Core.Model.{DownloadRequest}
use open_download_manager.Engine.Storage.{FileStorage, Promises}
use open_download_manager.Engine.Download.{
  item, Response, download, validate_request, pump, put, verify_length,
}
use open_download_manager.Storage.Path.{
  validate_output_path, check_path, check_components, components, reject_control_bytes, check_name,
  file_name,
}
use open_download_manager.Storage.Filename.{validate_filename, is_windows_reserved_name}
use open_download_manager.Storage.Utf8.{to_str}
use open_download_manager.Engine.Download.Delivery.{Delivered, download-Delivered}
use open_download_manager.Tests.World.{libs}

abbrev is_there : Option (List ℕ) → Bool
is_there none = false
is_there (some bytes) = true

abbrev pub memory : FileStorage
memory = record {
  World = Option (List ℕ);
  PartFile = List ℕ;
  display = λ p. "a";
  exists = λ w p. is_there w;
  ensure_parent_dir = λ p w. (ok tt, w);
  create_part_file = λ p w. (ok [], w);
  write_chunk = λ chunk part w. (ok (part ++ chunk), w);
  flush = λ part w. (ok part, w);
  finalize = λ part p overwrite w. (
    if is_there w && not overwrite then err (Error.already_exists "a") else ok tt,
    if is_there w && not overwrite then w else some part,
  );
}

abbrev pub request : DownloadRequest libs
request = record {
  url = "https://example.com/a";
  output = b'a' ∷ [];
  overwrite = false;
  max_redirects = 10;
}

abbrev pub in_memory : Promises memory request.output
in_memory = record {
  content = λ w. w;
  written = λ part w. part;
  IsPart = λ part w. Unit {0};
  IsFlushed = λ part w. Unit {0};
  ensure-kept = λ w. refl;
  create-kept = λ w. refl;
  create-part = λ w part h. (tt, cc);
  write-kept = λ chunk part w i. refl;
  write-part = λ chunk part later w i h. (tt, cc);
  flush-kept = λ part w i. refl;
  flush-part = λ part later w i h. (tt, tt, cc);
  finalize-kept = λ part overwrite w e i h. ground arith;
  finalize-moves = λ part overwrite w i j h. ground arith;
}

abbrev pub response : Response libs
response = record {
  content_length = some 3;
  final_url = "https://example.com/a";
  body =
      item false (since 1) (ok (1 ∷ 2 ∷ []))
      ∷ item true (since 2) (ok [])
      ∷ item true (since 3) (ok (3 ∷ []))
      ∷ [];
}

download-Delivered_example :
    Delivered memory in_memory.content
      (ok response)
      none
      (download memory false false true true (since 4) request (ok response) none)
download-Delivered_example =
    download-Delivered memory request in_memory false false true true (since 4) (ok response) none

-- The bytes are at the destination in the end.
arrives :
    (download memory false false true true (since 4) request (ok response) none).1.0
    ≡ some (1 ∷ 2 ∷ 3 ∷ [])
unfolding download validate_request validate_output_path check_path check_components components
    reject_control_bytes check_name file_name to_str validate_filename is_windows_reserved_name pump
    put verify_length
arrives = refl
