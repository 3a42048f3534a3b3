-- ===== src/Engine/Download/Delivery.antt =====
-- What a download leaves at its destination (crates/download-engine/src/engine.rs).
use mathlib.Core.List.{append-nil, append_assoc}
use open_download_manager.Prelude.{
  ℕ, ◌+◌, ◌≡◌, refl, sym, ap, ◌∙◌, ◌⊎◌, inl, inr, Bool, true, false, List, [], ◌∷◌, ◌++◌, Option,
  none, some, arith, length, length-append, min, ◌&&◌, not, Bool-cases,
}
use open_download_manager.Core.Error.{Result, ok, err}
use open_download_manager.Core.Libs.{Libs, PathBuf, SystemTime}
use open_download_manager.Core.Word.{u64_max, saturating_add}
use open_download_manager.Core.Model.{DownloadRequest}
use open_download_manager.Engine.Storage.{FileStorage, Promises}
use open_download_manager.Engine.Download.{
  verify_length, validate_request, Arrival, signalled, item, Response, Transfer, report, stored,
  put, continue, pump, Ending, finalized, flushed, checked, pumped, created, responded, prepared,
  validated, download,
}

-- The bytes of the body, in their order.
abbrev pub delivered : List Arrival → List ℕ
delivered [] = []
delivered (item due at (ok chunk) ∷ rest) = chunk ++ delivered rest
delivered (_ ∷ rest) = delivered rest

verify_length-ok :
    (announced : Option ℕ) (n : ℕ)
    → verify_length announced n ≡ ok tt
    → (announced ≡ none) ⊎ (announced ≡ some n)
unfolding verify_length
verify_length-ok none n h = inl refl
verify_length-ok (some m) n h = inr (ground arith)

module _ (S : FileStorage) (dest : PathBuf) (P : Promises S dest) where
  -- A transfer that has touched nothing but its part, and has counted what it wrote.
  pub record Clean (before : Option (List ℕ)) (t : Transfer S) : Type 0 where
    pub part : P.IsPart t.part t.world
    pub kept : P.content t.world ≡ before
    pub counted : t.downloaded ≡ min (length (P.written t.part t.world)) u64_max

  -- After a step: nothing is touched; if it went well, the part has grown by the given bytes.
  abbrev pub Grown : Option (List ℕ) → List ℕ → List ℕ → Result (Unit {0}) × Transfer S → Type 0
  Grown before had more (err e, t) = P.content t.world ≡ before
  Grown before had more (ok _, t) = Clean before t × (P.written t.part t.world ≡ had ++ more)

  report-Clean :
      (due : Bool) (at : SystemTime) (total : Option ℕ) (before : Option (List ℕ)) (t : Transfer S)
      → Clean before t
      → Clean before (report S due at total t)
        × (P.written (report S due at total t).part (report S due at total t).world
            ≡ P.written t.part t.world)
  unfolding report
  report-Clean true at total before t v =
      (record { part = v.part; kept = v.kept; counted = v.counted }, refl)
  report-Clean false at total before t v = (v, refl)

  put-Grown :
      (due : Bool) (at : SystemTime) (total : Option ℕ) (chunk : List ℕ) (before : Option (List ℕ))
      (t : Transfer S)
      → Clean before t
      → Grown before (P.written t.part t.world) chunk (put S due at total chunk t)
  unfolding put stored
  put-Grown due at total chunk before t v =
      go (S.write_chunk chunk t.part t.world).0 refl (P.write-kept chunk t.part t.world v.part)
    where
      go :
          (r : Result S.PartFile)
          → (S.write_chunk chunk t.part t.world).0 ≡ r
          → P.content (S.write_chunk chunk t.part t.world).1 ≡ P.content t.world
          → Grown before
              (P.written t.part t.world)
              chunk
              (stored S due at total (length chunk) t (r, (S.write_chunk chunk t.part t.world).1))
      go (err e) h same = same ∙ v.kept
      go (ok later) h same =
          let (part, grown) = P.write-part chunk t.part later t.world v.part h in
          let next : Transfer S = record t {
            part = later;
            world = (S.write_chunk chunk t.part t.world).1;
            downloaded = saturating_add t.downloaded (length chunk);
          } in
          let more : length (P.written later (S.write_chunk chunk t.part t.world).1)
              ≡ length (P.written t.part t.world) + length chunk =
            ap length grown ∙ length-append (P.written t.part t.world) chunk in
          let clean : Clean before next = record {
            part = part;
            kept = same ∙ v.kept;
            counted = omega (arith, v.counted, more);
          } in
          let (fine, written) = report-Clean due at total before next clean in
          (fine, written ∙ grown)

  regrown :
      (before : Option (List ℕ)) (start had chunk more : List ℕ)
      (r : Result (Unit {0}) × Transfer S)
      → had ≡ start ++ chunk
      → Grown before had more r
      → Grown before start (chunk ++ more) r
  regrown before start had chunk more (err e, t) grown same = same
  regrown before start had chunk more (ok _, t) grown (v, e) =
      (v, e ∙ ap (λ l. l ++ more) grown ∙ append_assoc start chunk more)

  pub pump-Grown :
      (watched listened : Bool) (total : Option ℕ) (body : List Arrival) (before : Option (List ℕ))
      (t : Transfer S)
      → Clean before t
      → Grown before
          (P.written t.part t.world)
          (delivered body)
          (pump S watched listened total body t)
  unfolding pump
  pump-Grown watched listened total [] before t v = (v, sym (append-nil (P.written t.part t.world)))
  pump-Grown true listened total (signalled ∷ rest) before t v = v.kept
  pump-Grown false listened total (signalled ∷ rest) before t v =
      pump-Grown false listened total rest before t v
  pump-Grown watched listened total (item due at (err e) ∷ rest) before t v = v.kept
  pump-Grown watched listened total (item due at (ok []) ∷ rest) before t v =
      pump-Grown watched listened total rest before t v
  pump-Grown watched listened total (item due at (ok (b ∷ bs)) ∷ rest) before t v =
      go (put S (listened && due) at total (b ∷ bs) t)
        (put-Grown (listened && due) at total (b ∷ bs) before t v)
        (λ u. pump-Grown watched listened total rest before u)
    where
      go :
          (r : Result (Unit {0}) × Transfer S)
          → Grown before (P.written t.part t.world) (b ∷ bs) r
          → ((u : Transfer S)
              → Clean before u
              → Grown before
                  (P.written u.part u.world)
                  (delivered rest)
                  (pump S watched listened total rest u))
          → Grown before
              (P.written t.part t.world)
              (b ∷ bs ++ delivered rest)
              (continue S r (pump S watched listened total rest))
      go (err e, t') same later = same
      go (ok _, t') (v', grown) later =
          regrown before (P.written t.part t.world) (P.written t'.part t'.world) (b ∷ bs)
            (delivered rest) (pump S watched listened total rest t') grown (later t' v')

-- How a download may end, by what is at its destination: with an error and what was there before, or
-- with all that the response brought there, counted, and as much as was announced.
abbrev pub Delivered :
    (S : FileStorage) {L : Libs}
    → (S.World → Option (List ℕ))
    → Result (Response L)
    → Option (List ℕ)
    → Ending S L
    → Type 0
Delivered S content response before (err e, (w, reports)) = content w ≡ before
Delivered S {L} content response before (ok summary, (w, reports)) =
    (r : Response L) × (response ≡ ok r)
    × (content w ≡ some (delivered r.body))
    × (summary.total_bytes ≡ min (length (delivered r.body)) u64_max)
    × ((r.content_length ≡ none) ⊎ (r.content_length ≡ some summary.total_bytes))

module _ (S : FileStorage) {L : Libs} (req : DownloadRequest L) (P : Promises S req.output) where
  module _ (windows overwrite watched listened : Bool) (at : SystemTime)
      (before : Option (List ℕ)) where
    pumped-Delivered :
        (r : Response L) (x : Result (Unit {0}) × Transfer S)
        → Grown S req.output P before [] (delivered r.body) x
        → Delivered S P.content
            (ok r)
            before
            (pumped S windows overwrite watched listened at req r x)
    unfolding pumped checked flushed finalized
    pumped-Delivered r (err e, t) same = same
    pumped-Delivered r (ok _, t) (v, all) = go (verify_length r.content_length t.downloaded) refl
      where
        go_finalize :
            (f : Result (Unit {0})) (part : S.PartFile) (w : S.World)
            → P.IsPart part w
            → P.IsFlushed part w
            → P.written part w ≡ delivered r.body
            → P.content w ≡ before
            → verify_length r.content_length t.downloaded ≡ ok tt
            → (S.finalize part req.output overwrite w).0 ≡ f
            → Delivered S P.content (ok r) before (
                finalized S windows overwrite watched listened at req r t
                  (f, (S.finalize part req.output overwrite w).1))
        go_finalize (err e) part w is_part is_flushed same kept fits h =
            P.finalize-kept part overwrite w e is_part h ∙ kept
        go_finalize (ok _) part w is_part is_flushed same kept fits h = (
          r,
          refl,
          P.finalize-moves part overwrite w is_part is_flushed h ∙ ap some same,
          v.counted ∙ ap (λ l. min (length l) u64_max) all,
          verify_length-ok r.content_length t.downloaded fits,
        )

        go_flush :
            (f : Result S.PartFile)
            → verify_length r.content_length t.downloaded ≡ ok tt
            → (S.flush t.part t.world).0 ≡ f
            → Delivered S P.content (ok r) before (
                flushed S windows overwrite watched listened at req r t
                  (f, (S.flush t.part t.world).1))
        go_flush (err e) fits h = P.flush-kept t.part t.world v.part ∙ v.kept
        go_flush (ok part) fits h =
            let (is_part, is_flushed, same) = P.flush-part t.part part t.world v.part h in
            go_finalize (S.finalize part req.output overwrite (S.flush t.part t.world).1).0 part
              (S.flush t.part t.world).1 is_part is_flushed (same ∙ all)
              (P.flush-kept t.part t.world v.part ∙ v.kept) fits refl

        go :
            (x : Result (Unit {0}))
            → verify_length r.content_length t.downloaded ≡ x
            → Delivered S P.content
                (ok r)
                before
                (checked S windows overwrite watched listened at req r t x)
        go (err e) h = v.kept
        go (ok _) h = go_flush (S.flush t.part t.world).0 h refl

    created-Delivered :
        (r : Response L) (w : S.World)
        → P.content w ≡ before
        → Delivered S P.content (ok r) before (
            created S windows overwrite watched listened at req r (S.create_part_file req.output w))
    unfolding created
    created-Delivered r w same =
        go (S.create_part_file req.output w).0 refl (P.create-kept w ∙ same)
      where
        go :
            (x : Result S.PartFile)
            → (S.create_part_file req.output w).0 ≡ x
            → P.content (S.create_part_file req.output w).1 ≡ before
            → Delivered S P.content (ok r) before (
                created S windows overwrite watched listened at req r
                  (x, (S.create_part_file req.output w).1))
        go (err e) h kept = kept
        go (ok part) h kept =
            let (is_part, blank) = P.create-part w part h in
            let start : Transfer S = record {
              part = part;
              world = (S.create_part_file req.output w).1;
              downloaded = 0;
              reports = [];
            } in
            let clean : Clean S req.output P before start = record {
              part = is_part;
              kept = kept;
              counted = rw blank refl;
            } in
            pumped-Delivered r (pump S watched listened r.content_length r.body start) (
              rw blank at (
                pump-Grown S req.output P watched listened r.content_length r.body before start
                  clean))

    prepared-Delivered :
        (response : Result (Response L)) (x : Result (Unit {0})) (w : S.World)
        → P.content w ≡ before
        → Delivered S P.content response before
            (prepared S windows overwrite watched listened at req response (x, w))
    unfolding prepared responded
    prepared-Delivered response (err e) w same = same
    prepared-Delivered (err e) (ok _) w same = same
    prepared-Delivered (ok r) (ok _) w same = created-Delivered r w same

  -- A download that ends in an error, a cancellation and an incomplete transfer included, leaves
  -- what was at its destination; one that succeeds has put exactly the bytes of the body there, in
  -- their order, has counted them, and they are as many as were announced, if any were. This takes
  -- the promises of the storage as given.
  pub download-Delivered :
      (windows overwrite watched listened : Bool) (at : SystemTime) (response : Result (Response L))
      (w : S.World)
      → Delivered S P.content response
          (P.content w)
          (download S windows overwrite watched listened at req response w)
  unfolding download validated
  download-Delivered windows overwrite watched listened at response w =
      go (validate_request windows req)
    where
      go :
          (x : Result (Unit {0}))
          → Delivered S P.content response
              (P.content w)
              (validated S windows overwrite watched listened at req response w x)
      go (err e) = refl
      go (ok _) = elim (Bool-cases (S.exists w req.output && not overwrite)) [
        | inl there ↦ rw there refl
        | inr free ↦ rw free (
            prepared-Delivered windows overwrite watched listened at (P.content w) response
              (S.ensure_parent_dir req.output w).0 (S.ensure_parent_dir req.output w).1
              (P.ensure-kept w))
      ]
