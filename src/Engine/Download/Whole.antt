-- ===== src/Engine/Download/Whole.antt =====
-- Errors of the body of a download (crates/download-engine/src/engine.rs).
use open_download_manager.Prelude.{
  ℕ, ◌≡◌, refl, Bool, true, false, List, [], ◌∷◌, Option, ◌&&◌, not, Bool-cases, inl, inr,
}
use open_download_manager.Core.Error.{Result, ok, err, is_ok}
use open_download_manager.Core.Libs.{Libs, SystemTime}
use open_download_manager.Core.Model.{DownloadRequest}
use open_download_manager.Engine.Storage.{FileStorage}
use open_download_manager.Engine.Download.{
  validate_request, Arrival, signalled, item, Response, Transfer, put, continue, pump, created,
  pumped, responded, prepared, validated, download,
}

-- No item is an error.
abbrev pub is_whole : List Arrival → Bool
is_whole [] = true
is_whole (signalled ∷ rest) = is_whole rest
is_whole (item due at r ∷ rest) = is_ok r && is_whole rest

module _ (S : FileStorage) where
  continue-ok :
      (r : Result (Unit {0}) × Transfer S) (next_step : Transfer S → Result (Unit {0}) × Transfer S)
      → is_ok (continue S r next_step).0 ≡ true
      → (t : Transfer S) × (is_ok (next_step t).0 ≡ true)
  continue-ok (err e, t) next_step h = cc
  continue-ok (ok _, t) next_step h = (t, h)

  pump-is_whole :
      (watched listened : Bool) (total : Option ℕ) (body : List Arrival) (t : Transfer S)
      → is_ok (pump S watched listened total body t).0 ≡ true
      → is_whole body ≡ true
  unfolding pump
  pump-is_whole watched listened total [] t h = refl
  pump-is_whole true listened total (signalled ∷ rest) t h = cc
  pump-is_whole false listened total (signalled ∷ rest) t h =
      pump-is_whole false listened total rest t h
  pump-is_whole watched listened total (item due at (err e) ∷ rest) t h = cc
  pump-is_whole watched listened total (item due at (ok []) ∷ rest) t h =
      pump-is_whole watched listened total rest t h
  pump-is_whole watched listened total (item due at (ok (b ∷ bs)) ∷ rest) t h =
      let (u, h') =
        continue-ok (put S (listened && due) at total (b ∷ bs) t)
          (pump S watched listened total rest) h in
      pump-is_whole watched listened total rest u h'

  module _ {L : Libs} (windows overwrite watched listened : Bool) (at : SystemTime)
      (req : DownloadRequest L) (r : Response L) where
    pumped-is_ok :
        (x : Result (Unit {0}) × Transfer S)
        → is_ok (pumped S windows overwrite watched listened at req r x).0 ≡ true
        → is_ok x.0 ≡ true
    unfolding pumped
    pumped-is_ok (err e, t) h = h
    pumped-is_ok (ok _, t) h = refl

    created-is_whole :
        (x : Result S.PartFile × S.World)
        → is_ok (created S windows overwrite watched listened at req r x).0 ≡ true
        → is_whole r.body ≡ true
    unfolding created
    created-is_whole (err e, w) h = cc
    created-is_whole (ok part, w) h =
        let start : Transfer S = record { part = part; world = w; downloaded = 0; reports = [] } in
        pump-is_whole watched listened r.content_length r.body start
          (pumped-is_ok (pump S watched listened r.content_length r.body start) h)

    prepared-is_whole :
        (x : Result (Unit {0}) × S.World)
        → is_ok (prepared S windows overwrite watched listened at req (ok r) x).0 ≡ true
        → is_whole r.body ≡ true
    unfolding prepared responded
    prepared-is_whole (err e, w) h = cc
    prepared-is_whole (ok _, w) h = created-is_whole (S.create_part_file req.output w) h

    validated-is_whole :
        (x : Result (Unit {0})) (w : S.World)
        → is_ok (validated S windows overwrite watched listened at req (ok r) w x).0 ≡ true
        → is_whole r.body ≡ true
    unfolding validated
    validated-is_whole (err e) w h = cc
    validated-is_whole (ok _) w h = elim (Bool-cases (S.exists w req.output && not overwrite)) [
      | inl taken ↦ (let denied = rw taken at h in cc)
      | inr free ↦ prepared-is_whole (S.ensure_parent_dir req.output w) (rw free at h)
    ]

    pub download-is_whole :
        (w : S.World)
        → is_ok (download S windows overwrite watched listened at req (ok r) w).0 ≡ true
        → is_whole r.body ≡ true
    unfolding download
    download-is_whole w h = validated-is_whole (validate_request windows req) w h
