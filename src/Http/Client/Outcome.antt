-- ===== src/Http/Client/Outcome.antt =====
-- When a request succeeds (crates/http-client/src/inspect.rs and stream.rs).
use open_download_manager.Prelude.{◌≡◌, refl, ◌∙◌, Bool, false, String, ◌&&◌, Bool-cases, inl, inr}
use open_download_manager.Core.Error.{Result, is_ok, ◌>>=◌, is_ok->>}
use open_download_manager.Core.Libs.{Libs}
use open_download_manager.Core.Model.{HttpMethod, get, head}
use open_download_manager.Http.Client.{
  received, Reqwest, Sent, replied, broke, is_web, validate_scheme, sent, inspected, inspect,
  build_streaming, download_stream,
}

module _ {L : Libs} (R : Reqwest L) where
  -- The server has answered with success.
  abbrev pub is_accepted : Sent L R.Response → Bool
  is_accepted (broke e) = false
  is_accepted (replied resp) = R.is_success (R.status resp)

  validate_scheme-ok : (scheme : String) → is_ok (validate_scheme scheme) ≡ is_web scheme
  unfolding validate_scheme
  validate_scheme-ok scheme = elim (Bool-cases (is_web scheme)) [
    | inl web ↦ rw web refl
    | inr other ↦ rw other refl
  ]

  sent-ok :
      {A : Type 0} (method : HttpMethod) (url : L.Url) (use_response : R.Response → Result A)
      → ((resp : R.Response) → is_ok (use_response resp) ≡ R.is_success (R.status resp))
      → is_ok (sent R method url >>= use_response)
        ≡ is_accepted (R.send method (L.url_to_string url))
  unfolding sent
  sent-ok method url use_response each = go (R.send method (L.url_to_string url))
    where
      go : (x : Sent L R.Response) → is_ok (received R x >>= use_response) ≡ is_accepted x
      go (broke e) = refl
      go (replied resp) = each resp

  inspected-ok :
      (url : L.Url) (resp : R.Response)
      → is_ok (inspected R url resp) ≡ R.is_success (R.status resp)
  unfolding inspected
  inspected-ok url resp = elim (Bool-cases (R.is_success (R.status resp))) [
    | inl fine ↦ rw fine refl
    | inr wrong ↦ rw wrong refl
  ]

  build_streaming-ok :
      (resp : R.Response) → is_ok (build_streaming R resp) ≡ R.is_success (R.status resp)
  unfolding build_streaming
  build_streaming-ok resp = elim (Bool-cases (R.is_success (R.status resp))) [
    | inl fine ↦ rw fine refl
    | inr wrong ↦ rw wrong refl
  ]

  -- An inspection succeeds exactly where the scheme is HTTP or HTTPS and the server answers the HEAD
  -- request for the URL with a status of success; the stream of a download is opened exactly where
  -- the scheme is one of these and the server answers the GET request so.
  pub requests-ok :
      (url : L.Url)
      → (is_ok (inspect R url)
          ≡ (is_web (L.url_scheme url) && is_accepted (R.send head (L.url_to_string url))))
        × (is_ok (download_stream R url)
            ≡ (is_web (L.url_scheme url) && is_accepted (R.send get (L.url_to_string url))))
  unfolding inspect download_stream
  requests-ok url =
      let scheme = L.url_scheme url in
      (
        is_ok->> (validate_scheme scheme) (sent R head url >>= inspected R url)
            ∙ rw (validate_scheme-ok scheme, sent-ok head url (inspected R url) (inspected-ok url))
                refl,
        is_ok->> (validate_scheme scheme) (sent R get url >>= build_streaming R)
            ∙ rw (validate_scheme-ok scheme, sent-ok get url (build_streaming R) build_streaming-ok)
                refl,
      )
