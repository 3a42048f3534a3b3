-- ===== src/Cli/Download.antt =====
-- The `download` subcommand and the exit code of the program (binaries/cli/src/cli/download.rs and
-- main.rs).
use open_download_manager.Prelude.{
  ℕ, ◌≡◌, ◌≢◌, refl, sym, subst, ◌⊎◌, inl, inr, Bool, true, false, String, List, [], Option, none,
  some, arith,
}
use open_download_manager.Core.Error.{Error, Result, ok, err, ◌>>◌, >>=-eq-ok}
use open_download_manager.Core.Libs.{Libs, PathBuf, SystemTime}
use open_download_manager.Core.Model.{DownloadRequest}
use open_download_manager.Storage.Fs.{Fs, IsFileSystem}
use open_download_manager.Storage.Path.{validate_output_path}
use open_download_manager.Storage.PartFile.{file_storage}
use open_download_manager.Engine.Storage.{FileStorage}
use open_download_manager.Engine.Download.{Response, Ending, download}
use open_download_manager.Engine.Download.Delivery.{delivered, Delivered}
use open_download_manager.Engine.Download.OnDisk.{download-Delivered_on_disk}
use open_download_manager.Engine.Naming.{default_output_for}
use open_download_manager.Cli.Exit.{Exit, success, from_error, exit_code}

pub record DownloadCmd : Type 0 where
  pub url : String
  pub output : Option PathBuf
  pub overwrite : Bool

-- What the subcommand takes from elsewhere: the segments of a URL's path, what the server comes to
-- for a URL, and whether the engine could be built.
pub record Outside (L : Libs) : Type 0 where
  pub path_segments : L.Url → Option (List (List ℕ))
  pub response : L.Url → Result (Response L)
  pub engine : Result (Unit {0})

abbrev pub parsed : {A : Type 0} → Option A → Result A
parsed none = err (Error.invalid_url "could not parse URL: ")
parsed (some url) = ok url

module _ (S : FileStorage) {L : Libs} (windows : Bool) (O : Outside L) where
  unfoldable pub output_of : Option PathBuf → L.Url → Result PathBuf
  output_of none url = ok (default_output_for windows (O.path_segments url))
  output_of (some p) url = validate_output_path windows p >> ok p

  abbrev pub request_for : DownloadCmd → L.Url → PathBuf → DownloadRequest L
  request_for cmd url output = record {
    url = url;
    output = output;
    overwrite = cmd.overwrite;
    max_redirects = 10;
  }

  -- There is no signal to watch, and a reporter that listens.
  started : DownloadCmd → SystemTime → L.Url → PathBuf → S.World → Result (Unit {0}) → Ending S L
  started cmd at url output w (err e) = (err e, (w, []))
  started cmd at url output w (ok _) =
      download S windows cmd.overwrite false true at (request_for cmd url output) (O.response url) w

  located : DownloadCmd → SystemTime → L.Url → S.World → Result PathBuf → Ending S L
  unfolding started
  located cmd at url w (err e) = (err e, (w, []))
  located cmd at url w (ok output) = started cmd at url output w O.engine

  addressed : DownloadCmd → SystemTime → S.World → Result L.Url → Ending S L
  unfolding located output_of
  addressed cmd at w (err e) = (err e, (w, []))
  addressed cmd at w (ok url) = located cmd at url w (output_of cmd.output url)

  unfoldable pub run : DownloadCmd → SystemTime → S.World → Ending S L
  unfolding addressed
  run cmd at w = addressed cmd at w (parsed (L.url_parse cmd.url))

-- The error of the engine is the root cause of what `run` returns.
abbrev pub exit_of {ℓ} : {A : Type ℓ} → Result A → Exit
exit_of (err e) = from_error e
exit_of (ok _) = success

unfoldable pub main :
    (S : FileStorage) {L : Libs}
    → Bool
    → Outside L
    → DownloadCmd
    → SystemTime
    → S.World
    → ℕ × S.World
unfolding exit_code from_error
main S windows O cmd at w =
    let ending = run S windows O cmd at w in (exit_code (exit_of ending.0), ending.1.0)

fails : (e : Error) → exit_code (from_error e) ≢ 0
unfolding exit_code from_error
fails (Error.invalid_url m) h = omega (arith, h)
fails (Error.invalid_path m) h = omega (arith, h)
fails (Error.invalid_file_name m) h = omega (arith, h)
fails (Error.network m) h = omega (arith, h)
fails (Error.http n m) h = omega (arith, h)
fails (Error.too_many_redirects n) h = omega (arith, h)
fails (Error.invalid_response m) h = omega (arith, h)
fails Error.range_requests_unsupported h = omega (arith, h)
fails (Error.filesystem m) h = omega (arith, h)
fails (Error.already_exists m) h = omega (arith, h)
fails (Error.insufficient_disk_space n k) h = omega (arith, h)
fails Error.cancelled h = omega (arith, h)
fails Error.interrupted h = omega (arith, h)
fails (Error.internal m) h = omega (arith, h)

-- The path that the command line names, or else the URL.
abbrev pub destination :
    {L : Libs} → Bool → Outside L → Option PathBuf → Option L.Url → Option PathBuf
destination windows O (some p) url = some p
destination windows O none none = none
destination windows O none (some url) = some (default_output_for windows (O.path_segments url))

module _ (F : Fs) (laws : IsFileSystem F) {L : Libs} (windows : Bool) (O : Outside L)
    (cmd : DownloadCmd) (at : SystemTime) (w : F.World) (dest : PathBuf) where
  -- How the program may end.
  abbrev pub Told : Ending (file_storage F) L → Type 0
  Told (err e, (v, reports)) = laws.content v dest ≡ laws.content w dest
  Told (ok summary, (v, reports)) =
      (url : L.Url) × (L.url_parse cmd.url ≡ some url)
      × (r : Response L) × (O.response url ≡ ok r)
      × (laws.content v dest ≡ some (delivered r.body))

  started-Told :
      (url : L.Url) (x : Result (Unit {0}))
      → L.url_parse cmd.url ≡ some url
      → Told (started (file_storage F) windows O cmd at url dest w x)
  unfolding started
  started-Told url (err e) named = refl
  started-Told url (ok _) named =
      go
        (download (file_storage F) windows cmd.overwrite false true at
          (request_for (file_storage F) windows O cmd url dest) (O.response url) w)
        (download-Delivered_on_disk F laws (request_for (file_storage F) windows O cmd url dest)
          windows cmd.overwrite false true at (O.response url) w)
    where
      go :
          (x : Ending (file_storage F) L)
          → Delivered
              (file_storage F)
              (λ v. laws.content v dest)
              (O.response url)
              (laws.content w dest)
              x
          → Told x
      go (err e, (v, reports)) same = same
      go (ok summary, (v, reports)) (r, came, there, counted, announced) =
          (url, named, r, came, there)

  located-Told :
      (url : L.Url) (out : Result PathBuf)
      → L.url_parse cmd.url ≡ some url
      → ((p : PathBuf) → out ≡ ok p → p ≡ dest)
      → Told (located (file_storage F) windows O cmd at url w out)
  unfolding located
  located-Told url (err e) named h = refl
  located-Told url (ok p) named h =
      subst (λ q. Told (started (file_storage F) windows O cmd at url q w O.engine))
        (sym (h p refl)) (started-Told url O.engine named)

  output_of-destination :
      (output : Option PathBuf) (url : L.Url) (p : PathBuf)
      → destination windows O output (some url) ≡ some dest
      → output_of (file_storage F) windows O output url ≡ ok p
      → p ≡ dest
  unfolding output_of
  output_of-destination none url p h k = cc
  output_of-destination (some q) url p h k =
      let (_, _, same) = >>=-eq-ok (validate_output_path windows q) (λ _. ok q) k in cc

  addressed-Told :
      (url : Option L.Url)
      → L.url_parse cmd.url ≡ url
      → destination windows O cmd.output url ≡ some dest
      → Told (addressed (file_storage F) windows O cmd at w (parsed url))
  unfolding addressed
  addressed-Told none parse h = refl
  addressed-Told (some url) parse h =
      located-Told url (output_of (file_storage F) windows O cmd.output url) parse
        (λ p. output_of-destination cmd.output url p h)

  -- What the exit code says of the file.
  pub Reports : ℕ × F.World → Type 0
  Reports (code, v) =
      ((code ≡ 0)
        × ((url : L.Url) × (L.url_parse cmd.url ≡ some url)
            × (r : Response L) × (O.response url ≡ ok r)
            × (laws.content v dest ≡ some (delivered r.body))))
      ⊎ ((code ≢ 0) × (laws.content v dest ≡ laws.content w dest))

  Reports-Told : (x : Ending (file_storage F) L) → Told x → Reports (exit_code (exit_of x.0), x.1.0)
  unfolding Reports exit_code
  Reports-Told (err e, (v, reports)) h = inr (fails e, h)
  Reports-Told (ok summary, (v, reports)) h = inl (refl, h)

  -- One of two is the case: the program exits with 0, the URL of the command line parses, the server
  -- has answered for it, and the file holds all that the server sent; or the program exits with
  -- another code, and the file is as it was before. The file is the one named on the command line, or
  -- else the one named after the URL. This takes the documented behaviour of the file system as given.
  pub main-Reports :
      destination windows O cmd.output (L.url_parse cmd.url) ≡ some dest
      → Reports (main (file_storage F) windows O cmd at w)
  unfolding main run
  main-Reports h =
      Reports-Told (run (file_storage F) windows O cmd at w)
        (addressed-Told (L.url_parse cmd.url) refl h)
