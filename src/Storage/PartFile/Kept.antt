-- ===== src/Storage/PartFile/Kept.antt =====
-- Creating and writing a partial file (crates/storage/src/storage.rs).
use open_download_manager.Prelude.{
  ℕ, ◌≡◌, ◌≢◌, refl, sym, ap, ◌∙◌, false, String, List, [], ◌++◌, Option, none, some, length, not,
  ◌&&◌, Bool-cases, inl, inr,
}
use open_download_manager.Core.Error.{Error, Result, ok, err}
use open_download_manager.Core.Libs.{PathBuf}
use open_download_manager.Core.Word.{saturating_add}
use open_download_manager.Storage.Chars.{is_empty, contains}
use open_download_manager.Storage.Path.{file_name}
use open_download_manager.Storage.Path.Parent.{parent}
use open_download_manager.Storage.Fs.{Fs, IsFileSystem, Io, done, failed, IoError}
use open_download_manager.Storage.PartFile.{
  PartFileHandle, or_filesystem, wrote, write_chunk, ensure_dir, ensure_parent_dir, opened, create,
  ensured, create_part_file, part_path,
}
use open_download_manager.Storage.PartFile.Place.{IsUsable, part_path-ne}

pub or_filesystem-world :
    {W A : Type 0} (what : String) (r : Io A × W) → (or_filesystem what r).1 ≡ r.1
unfolding or_filesystem
or_filesystem-world what (done a, w) = refl
or_filesystem-world what (failed e, w) = refl

pub or_filesystem-ok :
    {W A : Type 0} (what : String) (r : Io A × W) (a : A)
    → (or_filesystem what r).0 ≡ ok a
    → r.0 ≡ done a
unfolding or_filesystem
or_filesystem-ok what (done b, w) a h = cc
or_filesystem-ok what (failed e, w) a h = cc

pub or_filesystem-err :
    {W A : Type 0} (what : String) (r : Io A × W) (e : Error)
    → (or_filesystem what r).0 ≡ err e
    → (x : IoError) × (r.0 ≡ failed x)
unfolding or_filesystem
or_filesystem-err what (done b, w) e h = cc
or_filesystem-err what (failed x, w) e h = (x, refl)

module _ (F : Fs) (laws : IsFileSystem F) (dest : PathBuf) (usable : IsUsable dest) where
  abbrev pub at_dest : F.World → Option (List ℕ)
  at_dest w = laws.content w dest

  -- Open, and elsewhere than at the destination.
  abbrev pub IsPart : PartFileHandle F → F.World → Type 0
  IsPart part w = laws.IsOpen part.writer part.path w × (file_name part.path ≢ file_name dest)

  pub ensure-kept : (w : F.World) → at_dest (ensure_parent_dir F dest w).1 ≡ at_dest w
  unfolding ensure_parent_dir
  ensure-kept w = go (parent dest)
    where
      go : (dir : Option PathBuf) → at_dest (ensure_dir F dir w).1 ≡ at_dest w
      go none = unfold ensure_dir in refl
      go (some dir) =
          unfold ensure_dir in
          elim (Bool-cases (not (is_empty dir) && not (F.try_exists w dir))) [
            | inl missing ↦ rw missing (
                ap at_dest (or_filesystem-world _ (F.create_dir_all dir w))
                ∙ laws.mkdir-kept dir dest w)
            | inr there ↦ rw there refl
          ]

  opened-world : (path : PathBuf) (r : Result F.Writer × F.World) → (opened F path r).1 ≡ r.1
  unfolding opened
  opened-world path (ok x, w) = refl
  opened-world path (err e, w) = refl

  opened-ok :
      (path : PathBuf) (r : Result F.Writer × F.World) (part : PartFileHandle F)
      → (opened F path r).0 ≡ ok part
      → (r.0 ≡ ok part.writer) × (part.path ≡ path)
  unfolding opened
  opened-ok path (ok x, w) part h =
      let new : PartFileHandle F = record { writer = x; path = path; bytes_written = 0 } in
      let e : new ≡ part = cc in
      (ap (λ (q : PartFileHandle F). ok q.writer) e, sym (ap (λ (q : PartFileHandle F). q.path) e))
  opened-ok path (err e, w) part h = cc

  -- With the id that was drawn, and the world after it.
  module _ (id : List ℕ) (w : F.World) (plain : contains b'/' id ≡ false) where
    abbrev path : PathBuf
    path = part_path dest id

    create-kept_from : at_dest (create F dest (id, w)).1 ≡ at_dest w
    unfolding create
    create-kept_from =
        ap at_dest (opened-world path _ ∙ or_filesystem-world _ (F.open_new path w))
        ∙ laws.open-kept path dest w (part_path-ne dest id usable plain)

    create-IsPart_from :
        (part : PartFileHandle F)
        → (create F dest (id, w)).0 ≡ ok part
        → IsPart part (create F dest (id, w)).1
          × (laws.written part.writer (create F dest (id, w)).1 ≡ [])
    unfolding create
    create-IsPart_from part h =
        let r = F.open_new path w in
        let (e, here) = opened-ok path _ part h in
        let (opens, blank) =
          laws.open-opens path part.writer w (or_filesystem-ok _ r part.writer e) in
        let world : (create F dest (id, w)).1 ≡ r.1 =
          opened-world path _ ∙ or_filesystem-world _ r in
        rw (world, here) ((opens, part_path-ne dest id usable plain), blank)

  ensured-kept : (r : Result (Unit {0}) × F.World) → at_dest (ensured F dest r).1 ≡ at_dest r.1
  unfolding ensured
  ensured-kept (err e, w) = refl
  ensured-kept (ok _, w) =
      let drawn = F.new_v4_simple w in
      create-kept_from drawn.0 drawn.1 (laws.id-plain w) ∙ laws.id-kept w dest

  ensured-IsPart :
      (r : Result (Unit {0}) × F.World) (part : PartFileHandle F)
      → (ensured F dest r).0 ≡ ok part
      → IsPart part (ensured F dest r).1 × (laws.written part.writer (ensured F dest r).1 ≡ [])
  unfolding ensured
  ensured-IsPart (err e, w) part h = cc
  ensured-IsPart (ok _, w) part h =
      let drawn = F.new_v4_simple w in create-IsPart_from drawn.0 drawn.1 (laws.id-plain w) part h

  pub create_part_file-kept : (w : F.World) → at_dest (create_part_file F dest w).1 ≡ at_dest w
  unfolding create_part_file
  create_part_file-kept w = ensured-kept (ensure_parent_dir F dest w) ∙ ensure-kept w

  pub create_part_file-IsPart :
      (w : F.World) (part : PartFileHandle F)
      → (create_part_file F dest w).0 ≡ ok part
      → IsPart part (create_part_file F dest w).1
        × (laws.written part.writer (create_part_file F dest w).1 ≡ [])
  unfolding create_part_file
  create_part_file-IsPart w part h = ensured-IsPart (ensure_parent_dir F dest w) part h

  wrote-world :
      (part : PartFileHandle F) (size : ℕ) (r : Result (Unit {0}) × F.World)
      → (wrote F part size r).1 ≡ r.1
  unfolding wrote
  wrote-world part size (ok _, w) = refl
  wrote-world part size (err e, w) = refl

  wrote-ok :
      (part later : PartFileHandle F) (size : ℕ) (r : Result (Unit {0}) × F.World)
      → (wrote F part size r).0 ≡ ok later
      → (r.0 ≡ ok tt) × (part.writer ≡ later.writer) × (part.path ≡ later.path)
  unfolding wrote
  wrote-ok part later size (err e, w) h = cc
  wrote-ok part later size (ok _, w) h =
      let counted : PartFileHandle F = record part {
        bytes_written = saturating_add part.bytes_written size;
      } in
      let e : counted ≡ later = cc in
      (refl, ap (λ (q : PartFileHandle F). q.writer) e, ap (λ (q : PartFileHandle F). q.path) e)

  module _ (chunk : List ℕ) (part : PartFileHandle F) (w : F.World) (v : IsPart part w) where
    pub write-kept : at_dest (write_chunk F chunk part w).1 ≡ at_dest w
    unfolding write_chunk
    write-kept =
        ap at_dest (
          wrote-world part (length chunk) _
          ∙ or_filesystem-world _ (F.write_all chunk part.writer w))
        ∙ laws.write-kept chunk part.writer part.path dest w v.0 v.1

    pub write-part :
        (later : PartFileHandle F)
        → (write_chunk F chunk part w).0 ≡ ok later
        → IsPart later (write_chunk F chunk part w).1
          × (laws.written later.writer (write_chunk F chunk part w).1
              ≡ laws.written part.writer w ++ chunk)
    unfolding write_chunk
    write-part later h =
        let r = F.write_all chunk part.writer w in
        let (fine, same_writer, same_path) = wrote-ok part later (length chunk) _ h in
        let (opens, grown) =
          laws.write-adds chunk part.writer part.path w v.0 (or_filesystem-ok _ r tt fine) in
        let world : (write_chunk F chunk part w).1 ≡ r.1 =
          wrote-world part (length chunk) _ ∙ or_filesystem-world _ r in
        rw (world, ← same_writer, ← same_path) ((opens, v.1), grown)
