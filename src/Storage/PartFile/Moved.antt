-- ===== src/Storage/PartFile/Moved.antt =====
-- Flushing and finalizing a partial file (crates/storage/src/storage.rs).
use Prim.Native.String.{◌++◌ as ◌<>◌}
use open_download_manager.Prelude.{
  ℕ, ◌≡◌, refl, sym, ap, subst, ◌∙◌, Bool, List, Option, some, arith, not, ◌&&◌, Bool-cases, inl,
  inr,
}
use open_download_manager.Core.Error.{Error, Result, ok, err}
use open_download_manager.Core.Libs.{PathBuf}
use open_download_manager.Storage.Fs.{Fs, IsFileSystem}
use open_download_manager.Storage.PartFile.{
  PartFileHandle, or_filesystem, synced, flushed, flush, closed, close, move_in, finalize,
  file_storage,
}
use open_download_manager.Storage.PartFile.Place.{IsUsable}
use open_download_manager.Storage.PartFile.Kept.{
  or_filesystem-world, or_filesystem-ok, or_filesystem-err, at_dest, IsPart, ensure-kept,
  create_part_file-kept, create_part_file-IsPart, write-kept, write-part,
}
use open_download_manager.Engine.Storage.{Promises}

module _ (F : Fs) (laws : IsFileSystem F) (dest : PathBuf) (usable : IsUsable dest) where
  abbrev pub content : F.World → Option (List ℕ)
  content = at_dest F laws dest usable

  abbrev pub IsOpenPart : PartFileHandle F → F.World → Type 0
  IsOpenPart = IsPart F laws dest usable

  synced-world :
      (part : PartFileHandle F) (r : Result (Unit {0}) × F.World) → (synced F part r).1 ≡ r.1
  unfolding synced
  synced-world part (ok _, w) = refl
  synced-world part (err e, w) = refl

  synced-ok :
      (part later : PartFileHandle F) (r : Result (Unit {0}) × F.World)
      → (synced F part r).0 ≡ ok later
      → (r.0 ≡ ok tt) × (part ≡ later)
  unfolding synced
  synced-ok part later (ok _, w) h = (refl, cc)
  synced-ok part later (err e, w) h = cc

  -- Flushed as the engine needs it: open, nothing in the buffer, and all that was written there.
  abbrev Settled : PartFileHandle F → List ℕ → F.World → Type 0
  Settled part bytes w =
      IsOpenPart part w × laws.IsFlushed part.writer w × (laws.written part.writer w ≡ bytes)

  move_in-kept :
      (overwrite : Bool) (e : Error) (r : Result PathBuf × F.World)
      → (move_in F dest overwrite r).0 ≡ err e
      → content (move_in F dest overwrite r).1 ≡ content r.1
  unfolding move_in
  move_in-kept overwrite e (err e', u) h = refl
  move_in-kept overwrite e (ok path, u) h =
      let what = "rename " <> F.display path <> " -> " <> F.display dest <> ": " in
      let r = F.rename path dest u in
      elim (Bool-cases (not overwrite && F.try_exists u dest)) [
        | inl taken ↦ rw taken refl
        | inr free ↦
            let moved : (or_filesystem what r).0 ≡ err e = rw free at h in
            let (x, broken) = or_filesystem-err what r e moved in
            rw free
              (ap content (or_filesystem-world what r) ∙ laws.rename-kept path dest u x broken)
      ]

  move_in-moves :
      (overwrite : Bool) (bytes : List ℕ) (r : Result PathBuf × F.World)
      → ((path : PathBuf) → r.0 ≡ ok path → laws.content r.1 path ≡ some bytes)
      → (move_in F dest overwrite r).0 ≡ ok tt
      → content (move_in F dest overwrite r).1 ≡ some bytes
  unfolding move_in
  move_in-moves overwrite bytes (err e, u) left h = cc
  move_in-moves overwrite bytes (ok path, u) left h =
      let what = "rename " <> F.display path <> " -> " <> F.display dest <> ": " in
      let r = F.rename path dest u in
      elim (Bool-cases (not overwrite && F.try_exists u dest)) [
        | inl taken ↦
            let no : Result (Unit {0}) = err (Error.already_exists (F.display dest)) in
            let refused : no ≡ ok tt = rw taken at h in cc
        | inr free ↦
            let moved : (or_filesystem what r).0 ≡ ok tt = rw free at h in
            rw free (
              ap content (or_filesystem-world what r)
              ∙ laws.rename-moves path dest u bytes (or_filesystem-ok what r tt moved)
                  (left path refl))
      ]

  module _ (part : PartFileHandle F) (w : F.World) (v : IsOpenPart part w) where
    pub flush-kept : content (flush F part w).1 ≡ content w
    unfolding flush
    flush-kept =
        let r = F.flush part.writer w in
        go (or_filesystem "flush: " r) refl
        ∙ ap content (or_filesystem-world "flush: " r)
        ∙ laws.flush-kept part.writer part.path dest w v.0 v.1
      where
        go :
            (x : Result (Unit {0}) × F.World)
            → or_filesystem "flush: " (F.flush part.writer w) ≡ x
            → content (flushed F part x).1 ≡ content x.1
        go (err e, u) h = unfold flushed in refl
        go (ok _, u) h =
            let r = F.flush part.writer w in
            let world : r.1 ≡ u = sym (or_filesystem-world "flush: " r) ∙ ap (λ y. y.1) h in
            let opens =
              (laws.flush-empties part.writer part.path w v.0
                (or_filesystem-ok "flush: " r tt (ap (λ y. y.0) h))).0 in
            unfold flushed in
            ap content (synced-world part _ ∙ or_filesystem-world _ (F.sync_all part.writer u))
            ∙ laws.sync-kept part.writer part.path dest u
                (subst (laws.IsOpen part.writer part.path) world opens) v.1

    pub flush-part :
        (later : PartFileHandle F)
        → (flush F part w).0 ≡ ok later
        → Settled later (laws.written part.writer w) (flush F part w).1
    unfolding flush
    flush-part later h = go (or_filesystem "flush: " (F.flush part.writer w)) refl h
      where
        go :
            (x : Result (Unit {0}) × F.World)
            → or_filesystem "flush: " (F.flush part.writer w) ≡ x
            → (flushed F part x).0 ≡ ok later
            → Settled later (laws.written part.writer w) (flushed F part x).1
        go (err e, u) e' h = absurd (unfold flushed in ground (arith, h))
        go (ok _, u) e' h =
            let r = F.flush part.writer w in
            let x = part.writer in
            let world : r.1 ≡ u = sym (or_filesystem-world "flush: " r) ∙ ap (λ y. y.1) e' in
            let (opens, empty, same) =
              laws.flush-empties x part.path w v.0
                (or_filesystem-ok "flush: " r tt (ap (λ y. y.0) e')) in
            let s = F.sync_all x u in
            let (fine, part_same) =
              synced-ok part later (or_filesystem "sync_all: " s) (unfold flushed in h) in
            let (opens', empty', same') =
              laws.sync-keeps x part.path u (subst (laws.IsOpen x part.path) world opens)
                (subst (laws.IsFlushed x) world empty) (or_filesystem-ok "sync_all: " s tt fine) in
            let world' : (flushed F part (ok tt, u)).1 ≡ s.1 =
              unfold flushed in
              synced-world part (or_filesystem "sync_all: " s)
              ∙ or_filesystem-world "sync_all: " s in
            rw (world', ← part_same)
              ((opens', v.1), empty', same' ∙ ap (laws.written x) (sym world) ∙ same)

    closed-world : (r : Result (Unit {0}) × F.World) → (closed F part.path r).1 ≡ r.1
    unfolding closed
    closed-world (ok _, u) = refl
    closed-world (err e, u) = refl

    closed-ok :
        (path : PathBuf) (r : Result (Unit {0}) × F.World)
        → (closed F part.path r).0 ≡ ok path
        → (r.0 ≡ ok tt) × (path ≡ part.path)
    unfolding closed
    closed-ok path (ok _, u) h = (refl, cc)
    closed-ok path (err e, u) h = cc

    close-kept : content (close F part w).1 ≡ content w
    unfolding close
    close-kept =
        let r = F.shutdown part.writer w in
        ap content (closed-world (or_filesystem "close: " r) ∙ or_filesystem-world "close: " r)
        ∙ laws.shutdown-kept part.writer part.path dest w v.0 v.1

    close-leaves :
        (path : PathBuf)
        → laws.IsFlushed part.writer w
        → (close F part w).0 ≡ ok path
        → laws.content (close F part w).1 path ≡ some (laws.written part.writer w)
    unfolding close
    close-leaves path empty h =
        let r = F.shutdown part.writer w in
        let (fine, same) = closed-ok path (or_filesystem "close: " r) h in
        rw (closed-world (or_filesystem "close: " r), or_filesystem-world "close: " r, same)
          (laws.shutdown-leaves part.writer part.path w v.0 empty
            (or_filesystem-ok "close: " r tt fine))

    pub finalize-kept :
        (overwrite : Bool) (e : Error)
        → (finalize F part dest overwrite w).0 ≡ err e
        → content (finalize F part dest overwrite w).1 ≡ content w
    unfolding finalize
    finalize-kept overwrite e h = move_in-kept overwrite e (close F part w) h ∙ close-kept

    pub finalize-moves :
        (overwrite : Bool)
        → laws.IsFlushed part.writer w
        → (finalize F part dest overwrite w).0 ≡ ok tt
        → content (finalize F part dest overwrite w).1 ≡ some (laws.written part.writer w)
    unfolding finalize
    finalize-moves overwrite empty h =
        move_in-moves overwrite (laws.written part.writer w) (close F part w)
          (λ path. close-leaves path empty) h

  -- The storage keeps what the engine relies on.
  abbrev pub file_storage-Promises : Promises (file_storage F) dest
  file_storage-Promises = record {
    content = content;
    written = λ part w. laws.written part.writer w;
    IsPart = IsOpenPart;
    IsFlushed = λ part w. laws.IsFlushed part.writer w;
    ensure-kept = ensure-kept F laws dest usable;
    create-kept = create_part_file-kept F laws dest usable;
    create-part = create_part_file-IsPart F laws dest usable;
    write-kept = λ chunk part w v. write-kept F laws dest usable chunk part w v;
    write-part = λ chunk part later w v. write-part F laws dest usable chunk part w v later;
    flush-kept = λ part w v. flush-kept part w v;
    flush-part = λ part later w v. flush-part part w v later;
    finalize-kept = λ part overwrite w e v. finalize-kept part w v overwrite e;
    finalize-moves = λ part overwrite w v. finalize-moves part w v overwrite;
  }
