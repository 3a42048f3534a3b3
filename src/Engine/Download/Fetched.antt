-- ===== src/Engine/Download/Fetched.antt =====
-- A download from a server to the disk: crates/http-client, crates/download-engine and crates/storage
-- together.
use open_download_manager.Prelude.{
  ℕ, ◌≡◌, refl, sym, ap, ◌∙◌, Bool, true, false, List, [], ◌∷◌, ◌++◌, some, Bool-cases, inl, inr,
}
use open_download_manager.Core.Error.{Error, Result, ok, err, is_ok, ◌>>=◌, >>=-eq-ok}
use open_download_manager.Core.Libs.{Libs, SystemTime}
use open_download_manager.Core.Model.{DownloadRequest, get}
use open_download_manager.Storage.Fs.{Fs, IsFileSystem}
use open_download_manager.Storage.PartFile.{file_storage}
use open_download_manager.Http.Client.{
  Reqwest, Sent, replied, broke, StreamingResponse, body_of, validate_scheme, sent, received,
  build_streaming, download_stream,
}
use open_download_manager.Engine.Download.{Arrival, signalled, item, Response, Ending, download}
use open_download_manager.Engine.Download.Delivery.{delivered, Delivered}
use open_download_manager.Engine.Download.OnDisk.{download-Delivered_on_disk}
use open_download_manager.Engine.Download.Whole.{is_whole, download-is_whole}

-- The rounds of the loop over a body: each takes its next item, or sees a signal.
pub data Rounds : List (Result (List ℕ)) → List Arrival → Type 0 where
  over : Rounds [] []
  signal_seen :
      {body : List (Result (List ℕ))} {rounds : List Arrival}
      → Rounds body rounds
      → Rounds body (signalled ∷ rounds)
  item_taken :
      {body : List (Result (List ℕ))} {rounds : List Arrival} (due : Bool) (at : SystemTime)
      (r : Result (List ℕ))
      → Rounds body rounds
      → Rounds (r ∷ body) (item due at r ∷ rounds)

-- All that a server sends, and whether it was cut short by an error.
abbrev pub joined : {L : Libs} → List (Sent L (List ℕ)) → List ℕ
joined [] = []
joined (replied chunk ∷ rest) = chunk ++ joined rest
joined (broke e ∷ rest) = joined rest

abbrev pub is_unbroken : {L : Libs} → List (Sent L (List ℕ)) → Bool
is_unbroken [] = true
is_unbroken (replied chunk ∷ rest) = is_unbroken rest
is_unbroken (broke e ∷ rest) = false

module _ {L : Libs} where
  Rounds-joined :
      (pieces : List (Sent L (List ℕ))) (body : List (Result (List ℕ))) (rounds : List Arrival)
      → Rounds body rounds
      → body ≡ body_of pieces
      → is_whole rounds ≡ true
      → (is_unbroken pieces ≡ true) × (delivered rounds ≡ joined pieces)
  unfolding body_of
  Rounds-joined [] [] [] over e h = (refl, refl)
  Rounds-joined (replied chunk ∷ pieces) [] [] over e h = cc
  Rounds-joined (broke x ∷ pieces) [] [] over e h = cc
  Rounds-joined pieces (r ∷ body) [] x e h = elim x [ ]
  Rounds-joined pieces [] (item due at r' ∷ rounds) x e h = elim x [ ]
  Rounds-joined pieces body (signalled ∷ rounds) (signal_seen more) e h =
      Rounds-joined pieces body rounds more e h
  Rounds-joined [] (r ∷ body) (item due at r' ∷ rounds) (item_taken _ _ _ more) e h = cc
  Rounds-joined (broke x ∷ pieces) (r ∷ body) (item due at (ok c) ∷ rounds) (item_taken _ _ _ more)
        e h =
      cc
  Rounds-joined pieces (r ∷ body) (item due at (err x) ∷ rounds) (item_taken _ _ _ more) e h = cc
  Rounds-joined (replied chunk ∷ pieces) (r ∷ body) (item due at (ok c) ∷ rounds)
        (item_taken _ _ _ more) e h =
      let same : c ≡ chunk = cc in
      let later : body ≡ body_of pieces = cc in
      let (unbroken, all) = Rounds-joined pieces body rounds more later h in
      (unbroken, rw (same, all) refl)

  -- What the engine sees of a stream, with the rounds of its loop.
  abbrev pub seen :
      {R : Reqwest L} → List Arrival → Result (StreamingResponse R) → Result (Response L)
  seen rounds (err e) = err e
  seen rounds (ok stream) = ok (record {
    content_length = stream.resource.content_length;
    final_url = stream.final_url;
    body = rounds;
  })

  abbrev pub body_in : {R : Reqwest L} → Result (StreamingResponse R) → List (Result (List ℕ))
  body_in (err e) = []
  body_in (ok stream) = stream.body

module _ {L : Libs} (R : Reqwest L) where
  received-ok :
      (x : Sent L R.Response) (resp : R.Response) → received R x ≡ ok resp → x ≡ replied resp
  received-ok (broke e) resp h = cc
  received-ok (replied resp') resp h = ap replied cc

  build_streaming-body :
      (resp : R.Response) (stream : StreamingResponse R)
      → build_streaming R resp ≡ ok stream
      → (R.is_success (R.status resp) ≡ true) × (stream.body ≡ body_of (R.bytes_stream resp))
  unfolding build_streaming
  build_streaming-body resp stream h = elim (Bool-cases (R.is_success (R.status resp))) [
    | inl fine ↦ (fine, sym (ap (λ x. body_in {R = R} x) (rw fine at h)))
    | inr wrong ↦ absurd (let denied = rw wrong at h in cc)
  ]

  -- A stream is the body of a response of success.
  download_stream-body :
      (url : L.Url) (stream : StreamingResponse R)
      → download_stream R url ≡ ok stream
      → (resp : R.Response) × (R.send get (L.url_to_string url) ≡ replied resp)
        × (R.is_success (R.status resp) ≡ true)
        × (stream.body ≡ body_of (R.bytes_stream resp))
  unfolding download_stream sent
  download_stream-body url stream h =
      let (u, valid, h1) =
        >>=-eq-ok (validate_scheme (L.url_scheme url)) (λ _. sent R get url >>= build_streaming R)
          h in
      let (resp, came, built) = >>=-eq-ok (sent R get url) (build_streaming R) h1 in
      let (fine, body) = build_streaming-body resp stream built in
      (resp, received-ok (R.send get (L.url_to_string url)) resp came, fine, body)

  module _ (F : Fs) (laws : IsFileSystem F) (req : DownloadRequest L) (w : F.World) where
    -- How a download may end, by what the server has sent.
    abbrev pub Fetched : Ending (file_storage F) L → Type 0
    Fetched (err e, (v, reports)) = laws.content v req.output ≡ laws.content w req.output
    Fetched (ok summary, (v, reports)) =
        (resp : R.Response) × (R.send get (L.url_to_string req.url) ≡ replied resp)
        × (R.is_success (R.status resp) ≡ true)
        × (is_unbroken (R.bytes_stream resp) ≡ true)
        × (laws.content v req.output ≡ some (joined (R.bytes_stream resp)))

    no_response : {e : Error} {r : Response L} → err e ≡ ok r → ⊥
    no_response h = cc

    response_same : {q r : Response L} → ok q ≡ ok r → q ≡ r
    response_same h = cc

    Delivered-Fetched :
        (stream : Result (StreamingResponse R)) (rounds : List Arrival)
        (x : Ending (file_storage F) L)
        → download_stream R req.url ≡ stream
        → Rounds (body_in stream) rounds
        → ((s : StreamingResponse R) → stream ≡ ok s → is_ok x.0 ≡ true → is_whole rounds ≡ true)
        → Delivered
            (file_storage F)
            (λ v. laws.content v req.output)
            (seen rounds stream)
            (laws.content w req.output)
            x
        → Fetched x
    Delivered-Fetched stream rounds (err e, (v, reports)) came more whole same = same
    Delivered-Fetched (err e) rounds (ok summary, (v, reports)) came more whole
          (r, never, there, counted, announced) =
        absurd (no_response never)
    Delivered-Fetched (ok stream) rounds (ok summary, (v, reports)) came more whole
          (r, e, there, counted, announced) =
        let (resp, answered, fine, body) = download_stream-body req.url stream came in
        let (unbroken, all) =
          Rounds-joined (R.bytes_stream resp) stream.body rounds more body
            (whole stream refl refl) in
        let same : rounds ≡ r.body = ap (λ (q : Response L). q.body) (response_same e) in
        (resp, answered, fine, unbroken, there ∙ ap some (ap delivered (sym same) ∙ all))

    -- A download from a server to the disk that succeeds has had a response of success, whose stream no
    -- error has cut short, and has put all that the server sent at its destination, in the order of the
    -- chunks; one that ends in an error leaves what was there. This holds of any rounds of the loop over
    -- the stream, and takes the documented behaviour of the file system as given.
    pub download-Fetched :
        (windows overwrite watched listened : Bool) (at : SystemTime) (rounds : List Arrival)
        → Rounds (body_in (download_stream R req.url)) rounds
        → Fetched (
            download
              (file_storage F)
              windows
              overwrite
              watched
              listened
              at
              req
              (seen rounds (download_stream R req.url))
              w)
    download-Fetched windows overwrite watched listened at rounds more =
        let stream = download_stream R req.url in
        Delivered-Fetched stream rounds
          (download (file_storage F) windows overwrite watched listened at req (seen rounds stream)
            w)
          refl more (whole stream)
          (download-Delivered_on_disk F laws req windows overwrite watched listened at
            (seen rounds stream) w)
      where
        whole :
            (stream : Result (StreamingResponse R)) (s : StreamingResponse R)
            → stream ≡ ok s
            → is_ok
                (download
                  (file_storage F)
                  windows
                  overwrite
                  watched
                  listened
                  at
                  req
                  (seen rounds stream)
                  w).0
              ≡ true
            → is_whole rounds ≡ true
        whole (err e) s h k = cc
        whole (ok stream) s h k =
            let response : Response L = record {
              content_length = stream.resource.content_length;
              final_url = stream.final_url;
              body = rounds;
            } in
            download-is_whole (file_storage F) windows overwrite watched listened at req response w
              k
