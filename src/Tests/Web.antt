-- ===== src/Tests/Web.antt =====
-- A server that answers, and the program that asks it.
use open_download_manager.Prelude.{
  ℕ, ◌≡◌, refl, true, false, List, [], ◌∷◌, ◌++◌, Option, none, some, ◌&&◌, ◌==◌,
}
use open_download_manager.Core.Error.{ok, is_ok}
use open_download_manager.Core.Libs.{since}
use open_download_manager.Storage.Chars.{codes}
use open_download_manager.Storage.Utf8.{from_utf8_lossy}
use open_download_manager.Storage.Path.{file_name}
use open_download_manager.Storage.Path.Accepted.{is_absolute}
use open_download_manager.Storage.PartFile.{file_storage}
use open_download_manager.Http.Disposition.{parse_content_disposition_filename}
use open_download_manager.Http.Disposition.Encoded.{percent_encode, parse-percent_encode}
use open_download_manager.Http.Client.{
  Reqwest, Header, replied, content_length, is_web, inspect, download_stream, validate_scheme, sent,
  build_streaming, body_of,
}
use open_download_manager.Http.Client.Outcome.{is_accepted, requests-ok}
use open_download_manager.Engine.Naming.{default_output_for, default_output_for-name}
use open_download_manager.Cli.Download.{DownloadCmd, Outside, main, Reports, main-Reports}
use open_download_manager.Tests.World.{libs}
use open_download_manager.Tests.Disk.{disk, disk-IsFileSystem, empty_disk}
use open_download_manager.Engine.Download.{Arrival, item, download}
use open_download_manager.Engine.Download.Fetched.{
  Rounds, over, item_taken, body_in, seen, Fetched, download-Fetched,
}
use open_download_manager.Tests.Transfers.{request, response}

-- A euro sign and a space.
parse-percent_encode_example :
    parse_content_disposition_filename
      (codes "attachment; filename*=UTF-8''" ++ percent_encode (0xe2 ∷ 0x82 ∷ 0xac ∷ 0x20 ∷ []))
    ≡ some (from_utf8_lossy (0xe2 ∷ 0x82 ∷ 0xac ∷ 0x20 ∷ []))
parse-percent_encode_example = parse-percent_encode (0xe2 ∷ 0x82 ∷ 0xac ∷ 0x20 ∷ []) refl

abbrev length_of : Header → ℕ → Option (List ℕ)
length_of content_length resp = some (codes "3")
length_of _ resp = none

-- Each response is its status.
abbrev server : Reqwest libs
server = record {
  Response = ℕ;
  send = λ method url. replied 200;
  status = λ resp. resp;
  is_success = λ status. status == 200;
  url = λ resp. "https://example.com/a";
  header = length_of;
  bytes_stream = λ resp. replied (1 ∷ 2 ∷ 3 ∷ []) ∷ [];
}

requests-ok_example :
    (is_ok (inspect server "https://example.com/a")
      ≡ (is_web "https" && is_accepted server (replied 200)))
    × (is_ok (download_stream server "https://example.com/a")
        ≡ (is_web "https" && is_accepted server (replied 200)))
requests-ok_example = requests-ok server "https://example.com/a"

default_output_for-name_example :
    let path = default_output_for false (some (codes "etc" ∷ codes "pass:wd" ∷ [])) in
    (file_name path ≡ some path) × (is_absolute path ≡ false)
default_output_for-name_example =
    default_output_for-name false (some (codes "etc" ∷ codes "pass:wd" ∷ []))

abbrev outside : Outside libs
outside = record { path_segments = λ url. none; response = λ url. ok response; engine = ok tt }

abbrev cmd : DownloadCmd
cmd = record { url = "https://example.com/a"; output = some (b'a' ∷ []); overwrite = false }

main-Reports_example :
    Reports disk disk-IsFileSystem false outside cmd
      (since 4)
      empty_disk
      (b'a' ∷ [])
      (main (file_storage disk) false outside cmd (since 4) empty_disk)
main-Reports_example =
    main-Reports disk disk-IsFileSystem false outside cmd (since 4) empty_disk (b'a' ∷ []) refl

-- The one chunk of the server, in one round.
abbrev rounds : List Arrival
rounds = item true (since 1) (ok (1 ∷ 2 ∷ 3 ∷ [])) ∷ []

one_round : Rounds (body_in {R = server} (download_stream server request.url)) rounds
unfolding download_stream validate_scheme sent build_streaming body_of
one_round = item_taken true (since 1) (ok (1 ∷ 2 ∷ 3 ∷ [])) over

download-Fetched_example : Fetched server disk disk-IsFileSystem request empty_disk (
    download
      (file_storage disk)
      false
      false
      true
      true
      (since 4)
      request
      (seen {R = server} rounds (download_stream server request.url))
      empty_disk)
download-Fetched_example =
    download-Fetched server disk disk-IsFileSystem request empty_disk false false true true
      (since 4) rounds one_round
