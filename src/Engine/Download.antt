-- ===== src/Engine/Download.antt =====
-- `DownloadEngine::download` with its checks (crates/download-engine/src/engine.rs). The rate
-- limiter, which only waits, and the timings of the summary are left out.
pub mod Delivery
pub mod Success
pub mod OnDisk
pub mod Whole
pub mod Fetched
use text.Mathlib.Text.{◌==◌ as str_eq}
use Prim.Native.String
use open_download_manager.Prelude.{
  ℕ, ◌+◌, ◌-◌, ◌^◌, ◌≡◌, Bool, true, false, String, List, [], ◌∷◌, ◌++◌, Option, none, some, length,
  min, ◌==◌, ◌&&◌, ◌||◌, not, if◌then◌else◌,
}
use open_download_manager.Core.Error.{Error, Result, ok, err, ◌>>◌}
use open_download_manager.Core.Display.{decimal}
use open_download_manager.Core.Libs.{Libs, PathBuf, SystemTime}
use open_download_manager.Core.Word.{saturating_add}
use open_download_manager.Core.Model.{DownloadRequest, DownloadProgress}
use open_download_manager.Manager.Transition.{or_else}
use open_download_manager.Storage.Path.{validate_output_path}
use open_download_manager.Engine.Storage.{FileStorage}

unfoldable pub verify_length : Option ℕ → ℕ → Result (Unit {0})
verify_length none received = ok tt
verify_length (some expected) received =
    if expected == received
    then ok tt
    else err (
        Error.invalid_response (
          String.◌++◌ "incomplete transfer: server announced "
            (String.◌++◌ (decimal expected) (String.◌++◌ " bytes, received " (decimal received)))))

check_scheme : String → Result (Unit {0})
check_scheme scheme =
    if str_eq scheme "http" || str_eq scheme "https"
    then ok tt
    else err (Error.invalid_url (String.◌++◌ "unsupported scheme: " scheme))

check_redirects : ℕ → Result (Unit {0})
check_redirects n = if n == 0 then err (Error.invalid_url "max_redirects must be > 0") else ok tt

-- `windows` says whether the code is built for Windows.
unfoldable pub validate_request : {L : Libs} → Bool → DownloadRequest L → Result (Unit {0})
unfolding check_scheme check_redirects
validate_request {L} windows req =
    check_scheme (L.url_scheme req.url)
    >> (validate_output_path windows req.output >> check_redirects req.max_redirects)

-- What `select!` yields in a round: the cancellation signal, which is looked at first, or the next
-- item of the body, at a time and with whether a report is due then.
pub data Arrival : Type 0 where
  signalled : Arrival
  item : (due : Bool) (at : SystemTime) → Result (List ℕ) → Arrival

-- What `download_stream` returns, with all that arrives until the body ends.
pub record Response (L : Libs) : Type 0 where
  pub content_length : Option ℕ
  pub final_url : L.Url
  pub body : List Arrival

pub record DownloadSummary (L : Libs) : Type 0 where
  pub output : PathBuf
  pub total_bytes : ℕ
  pub final_url : L.Url

module _ (S : FileStorage) where
  pub record Transfer : Type 0 where
    pub part : S.PartFile
    pub world : S.World
    pub downloaded : ℕ
    pub reports : List DownloadProgress

  report : Bool → SystemTime → Option ℕ → Transfer → Transfer
  report due at total t =
      let p : DownloadProgress = record {
        downloaded_bytes = t.downloaded;
        total_bytes = total;
        at = at;
      } in
      if due then record t { reports = t.reports ++ p ∷ [] } else t

  stored :
      Bool
      → SystemTime
      → Option ℕ
      → ℕ
      → Transfer
      → Result S.PartFile × S.World
      → Result (Unit {0}) × Transfer
  unfolding report
  stored due at total size t (err e, w) = (err e, record t { world = w })
  stored due at total size t (ok part, w) = (
    ok tt,
    report due at total
        (record t { part = part; world = w; downloaded = saturating_add t.downloaded size }),
  )

  -- One chunk that is not empty.
  unfoldable pub put :
      Bool → SystemTime → Option ℕ → List ℕ → Transfer → Result (Unit {0}) × Transfer
  unfolding stored
  put due at total chunk t =
      stored due at total (length chunk) t (S.write_chunk chunk t.part t.world)

  abbrev pub continue :
      Result (Unit {0}) × Transfer
      → (Transfer → Result (Unit {0}) × Transfer)
      → Result (Unit {0}) × Transfer
  continue (err e, t) next = (err e, t)
  continue (ok _, t) next = next t

  -- The loop. `watched` says whether there is a cancellation signal to watch, and `listened`
  -- whether there is a sink for reports.
  unfoldable pub pump :
      Bool → Bool → Option ℕ → List Arrival → Transfer → Result (Unit {0}) × Transfer
  pump watched listened total [] t = (ok tt, t)
  pump true listened total (signalled ∷ rest) t = (err Error.cancelled, t)
  pump false listened total (signalled ∷ rest) t = pump false listened total rest t
  pump watched listened total (item due at (err e) ∷ rest) t = (err e, t)
  pump watched listened total (item due at (ok []) ∷ rest) t = pump watched listened total rest t
  pump watched listened total (item due at (ok (b ∷ bs)) ∷ rest) t =
      continue (put (listened && due) at total (b ∷ bs) t) (pump watched listened total rest)

  -- The result, what the storage has become, and the reports that were made.
  abbrev pub Ending : Libs → Type 0
  Ending L = Result (DownloadSummary L) × (S.World × List DownloadProgress)

  module _ {L : Libs} (windows overwrite watched listened : Bool) (at : SystemTime)
      (req : DownloadRequest L) where
    -- From the finalization: the last report and the summary.
    finalized : Response L → Transfer → Result (Unit {0}) × S.World → Ending L
    finalized response t (err e, w) = (err e, (w, t.reports))
    finalized response t (ok _, w) =
        let total = or_else response.content_length (some t.downloaded) in
        let p : DownloadProgress = record {
          downloaded_bytes = t.downloaded;
          total_bytes = total;
          at = at;
        } in
        let summary : DownloadSummary L = record {
          output = req.output;
          total_bytes = t.downloaded;
          final_url = response.final_url;
        } in
        (ok summary, (w, if listened then t.reports ++ p ∷ [] else t.reports))

    flushed : Response L → Transfer → Result S.PartFile × S.World → Ending L
    unfolding finalized
    flushed response t (err e, w) = (err e, (w, t.reports))
    flushed response t (ok part, w) = finalized response t (S.finalize part req.output overwrite w)

    -- The check of the length, after the loop.
    checked : Response L → Transfer → Result (Unit {0}) → Ending L
    unfolding flushed
    checked response t (err e) = (err e, (t.world, t.reports))
    checked response t (ok _) = flushed response t (S.flush t.part t.world)

    pumped : Response L → Result (Unit {0}) × Transfer → Ending L
    unfolding checked
    pumped response (err e, t) = (err e, (t.world, t.reports))
    pumped response (ok _, t) =
        checked response t (verify_length response.content_length t.downloaded)

    created : Response L → Result S.PartFile × S.World → Ending L
    unfolding pumped
    created response (err e, w) = (err e, (w, []))
    created response (ok part, w) = pumped response (
        pump watched listened response.content_length response.body
          (record { part = part; world = w; downloaded = 0; reports = [] }))

    responded : Result (Response L) → S.World → Ending L
    unfolding created
    responded (err e) w = (err e, (w, []))
    responded (ok response) w = created response (S.create_part_file req.output w)

    prepared : Result (Response L) → Result (Unit {0}) × S.World → Ending L
    unfolding responded
    prepared response (err e, w) = (err e, (w, []))
    prepared response (ok _, w) = responded response w

    validated : Result (Response L) → S.World → Result (Unit {0}) → Ending L
    unfolding prepared
    validated response w (err e) = (err e, (w, []))
    validated response w (ok _) =
        if S.exists w req.output && not overwrite
        then (err (Error.already_exists (S.display req.output)), (w, []))
        else prepared response (S.ensure_parent_dir req.output w)

    -- `response` is what `download_stream` returns for the request's URL.
    unfoldable pub download : Result (Response L) → S.World → Ending L
    unfolding validated
    download response w = validated response w (validate_request windows req)
