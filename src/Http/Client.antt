-- ===== src/Http/Client.antt =====
-- Requests over `reqwest` (crates/http-client/src/inspect.rs and stream.rs).
pub mod Outcome
use Prim.Native.String.{◌++◌ as ◌<>◌}
use text.Mathlib.Text.{◌==◌ as str_eq}
use open_download_manager.Prelude.{
  ℕ, Bool, true, false, String, List, [], ◌∷◌, Option, none, some, ◌||◌, if◌then◌else◌,
}
use open_download_manager.Core.Error.{Error, Result, ok, err, ◌>>=◌, ◌>>◌}
use open_download_manager.Core.Libs.{Libs}
use open_download_manager.Core.Model.{HttpMethod, get, head, ResourceInfo, InspectInfo}
use open_download_manager.Storage.Chars.{codes}
use open_download_manager.Http.Text.{is_whitespace, trim_by, parse_u64, eq_ignore_ascii_case}
use open_download_manager.Http.Disposition.{parse_content_disposition_filename}

pub data Header : Type 0 where
  content_length content_type etag last_modified accept_ranges content_disposition : Header

-- What the source asks of a `reqwest::Error`.
pub record RequestError (L : Libs) : Type 0 where
  pub is_timeout : Bool
  pub is_connect : Bool
  pub status : Option ℕ
  pub url : Option L.Url
  pub text : String

-- What a request, or the next chunk of a body, comes to.
pub data Sent {ℓ} (L : Libs) (A : Type ℓ) : Type ℓ where
  replied : A → Sent L A
  broke : RequestError L → Sent L A

-- `reqwest`, with the network as it answers during a call. A header is read as text where it is
-- there and `HeaderValue::to_str` takes it.
pub record Reqwest (L : Libs) : Type 1 where
  pub Response : Type 0
  pub send : HttpMethod → String → Sent L Response
  pub status : Response → ℕ
  pub is_success : ℕ → Bool
  pub url : Response → L.Url
  pub header : Header → Response → Option (List ℕ)
  pub bytes_stream : Response → List (Sent L (List ℕ))

abbrev pub and_then {κ ℓ} : {A : Type κ} {B : Type ℓ} → Option A → (A → Option B) → Option B
and_then none f = none
and_then (some a) f = f a

abbrev pub or_false : Option Bool → Bool
or_false none = false
or_false (some b) = b

abbrev pub is_web : String → Bool
is_web scheme = str_eq scheme "http" || str_eq scheme "https"

unfoldable pub validate_scheme : String → Result (Unit {0})
validate_scheme scheme =
    if is_web scheme then ok tt else err (Error.invalid_url ("unsupported scheme: " <> scheme))

abbrev pub url_or_unknown : (L : Libs) → Option L.Url → String
url_or_unknown L none = "<unknown>"
url_or_unknown L (some url) = L.url_to_string url

module _ {L : Libs} where
  abbrev pub by_status : RequestError L → Option ℕ → Error
  by_status e none = Error.network e.text
  by_status e (some status) = Error.http status (url_or_unknown L e.url)

  unfoldable pub map_request_error : RequestError L → Error
  map_request_error e =
      if e.is_timeout || e.is_connect then Error.network e.text else by_status e e.status

  -- The chunks, up to the first error.
  unfoldable pub body_of : List (Sent L (List ℕ)) → List (Result (List ℕ))
  unfolding map_request_error
  body_of [] = []
  body_of (replied chunk ∷ rest) = ok chunk ∷ body_of rest
  body_of (broke e ∷ rest) = err (map_request_error e) ∷ []

  module _ (R : Reqwest L) where
    unfoldable pub extract_resource_info : R.Response → L.Url → ResourceInfo L
    extract_resource_info resp final_url = record {
      final_url = final_url;
      content_length =
          and_then (R.header content_length resp) (λ s. parse_u64 (trim_by is_whitespace s));
      content_type = R.header content_type resp;
      etag = R.header etag resp;
      last_modified = R.header last_modified resp;
      accepts_ranges = or_false (
          and_then (R.header accept_ranges resp)
            (λ s. some (eq_ignore_ascii_case s (codes "bytes"))));
      suggested_filename =
          and_then (R.header content_disposition resp) parse_content_disposition_filename;
    }

    pub record StreamingResponse : Type 0 where
      pub final_url : L.Url
      pub status : ℕ
      pub resource : ResourceInfo L
      pub body : List (Result (List ℕ))

    abbrev pub refused : R.Response → L.Url → Error
    refused resp url = Error.http (R.status resp) (L.url_to_string url)

    abbrev pub received : Sent L R.Response → Result R.Response
    received (broke e) = err (map_request_error e)
    received (replied resp) = ok resp

    unfoldable pub sent : HttpMethod → L.Url → Result R.Response
    sent method url = received (R.send method (L.url_to_string url))

    -- Of the URL that was asked for.
    unfoldable pub inspected : L.Url → R.Response → Result (InspectInfo L)
    unfolding extract_resource_info
    inspected url resp =
        if R.is_success (R.status resp)
        then ok
            (record { status = R.status resp; resource = extract_resource_info resp (R.url resp) })
        else err (refused resp url)

    unfoldable pub inspect : L.Url → Result (InspectInfo L)
    unfolding validate_scheme sent inspected
    inspect url = validate_scheme (L.url_scheme url) >> (sent head url >>= inspected url)

    unfoldable pub build_streaming : R.Response → Result StreamingResponse
    unfolding extract_resource_info body_of
    build_streaming resp =
        if R.is_success (R.status resp)
        then ok (record {
          final_url = R.url resp;
          status = R.status resp;
          resource = extract_resource_info resp (R.url resp);
          body = body_of (R.bytes_stream resp);
        })
        else err (refused resp (R.url resp))

    unfoldable pub download_stream : L.Url → Result StreamingResponse
    unfolding validate_scheme sent build_streaming
    download_stream url = validate_scheme (L.url_scheme url) >> (sent get url >>= build_streaming)
