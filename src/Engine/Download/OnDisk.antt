-- ===== src/Engine/Download/OnDisk.antt =====
-- A download over the storage of crates/storage/src/storage.rs (crates/download-engine/src/engine.rs).
use open_download_manager.Prelude.{ℕ, ◌≡◌, refl, Bool, true, List, Option, none, some, inl, inr}
use open_download_manager.Core.Error.{Result, ok, ◌>>◌, >>=-eq-ok, Result-cases}
use open_download_manager.Core.Libs.{Libs, PathBuf, SystemTime}
use open_download_manager.Core.Model.{DownloadRequest}
use open_download_manager.Storage.Utf8.{to_str}
use open_download_manager.Storage.Path.{
  file_name, and_then_str, check_name, check_path, validate_output_path,
}
use open_download_manager.Storage.Fs.{Fs, IsFileSystem}
use open_download_manager.Storage.PartFile.{file_storage}
use open_download_manager.Storage.PartFile.Place.{IsUsable}
use open_download_manager.Storage.PartFile.Moved.{file_storage-Promises}
use open_download_manager.Engine.Download.{
  validate_request, check_scheme, check_redirects, Response, download, validated,
}
use open_download_manager.Engine.Download.Delivery.{Delivered, download-Delivered}

checked_text :
    (windows : Bool) (text : Option (List ℕ))
    → check_name windows text ≡ ok tt
    → (t : List ℕ) × (text ≡ some t)
unfolding check_name
checked_text windows none h = cc
checked_text windows (some t) h = (t, refl)

decoded_from :
    (name : Option (List ℕ)) (text : List ℕ)
    → and_then_str name ≡ some text
    → (s : List ℕ) × (name ≡ some s) × (to_str s ≡ some text)
decoded_from none text h = cc
decoded_from (some s) text h = (s, refl, h)

-- What passes the check of a path can be a destination.
validate_output_path-IsUsable :
    (windows : Bool) (path : PathBuf) → validate_output_path windows path ≡ ok tt → IsUsable path
unfolding validate_output_path
validate_output_path-IsUsable windows path h =
    let (u, checked, named) =
      >>=-eq-ok (check_path true path) (λ _. check_name windows (and_then_str (file_name path)))
        h in
    let (text, e) = checked_text windows (and_then_str (file_name path)) named in
    let (name, found, decoded) = decoded_from (file_name path) text e in
    (name, text, found, decoded)

validate_request-IsUsable :
    {L : Libs} (windows : Bool) (req : DownloadRequest L)
    → validate_request windows req ≡ ok tt
    → IsUsable req.output
unfolding validate_request
validate_request-IsUsable {L} windows req h =
    let rest = λ (_ : Unit {0}).
      validate_output_path windows req.output >> check_redirects req.max_redirects in
    let (u, scheme, h') = >>=-eq-ok (check_scheme (L.url_scheme req.url)) rest h in
    let (v, path, redirects) =
      >>=-eq-ok (validate_output_path windows req.output) (λ _. check_redirects req.max_redirects)
        h' in
    validate_output_path-IsUsable windows req.output path

module _ (F : Fs) (laws : IsFileSystem F) {L : Libs} (req : DownloadRequest L) where
  -- A download over the partial files of the storage that ends in an error, a cancellation, a failure
  -- of any call of the file system and an incomplete transfer included, leaves what was at its
  -- destination; one that succeeds has put exactly the bytes of the body there, in their order. This
  -- takes the documented behaviour of the file system as given, and nothing about the request.
  pub download-Delivered_on_disk :
      (windows overwrite watched listened : Bool) (at : SystemTime) (response : Result (Response L))
      (w : F.World)
      → Delivered
          (file_storage F)
          (λ v. laws.content v req.output)
          response
          (laws.content w req.output)
          (download (file_storage F) windows overwrite watched listened at req response w)
  download-Delivered_on_disk windows overwrite watched listened at response w =
      elim (Result-cases (validate_request windows req)) [
        | inl (_, valid) ↦
            download-Delivered (file_storage F) req
              (file_storage-Promises F laws req.output
                (validate_request-IsUsable windows req valid))
              windows overwrite watched listened at response w
        | inr (e, refused) ↦ unfold download validated in rw refused refl
      ]
