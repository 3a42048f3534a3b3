-- ===== src/Tests/Disk.antt =====
-- A file system in memory: each path has its bytes, and a writer has no buffer.
use open_download_manager.Prelude.{
  arith, ℕ, ◌≡◌, ◌≢◌, refl, sym, ap, ◌∙◌, Bool, true, false, List, [], ◌∷◌, ◌++◌, Option, none,
  some, if◌then◌else◌, Bool-cases, inl, inr,
}
use open_download_manager.Core.Error.{ok}
use open_download_manager.Core.Libs.{PathBuf, since}
use open_download_manager.Storage.Chars.{list_eq, list_eq→eq}
use open_download_manager.Storage.Utf8.{to_str}
use open_download_manager.Storage.PartFile.Place.{IsUsable, part_path-ne}
use open_download_manager.Storage.Path.{file_name, components}
use open_download_manager.Storage.Fs.{Fs, IsFileSystem, Io, done, failed, IoError}
use open_download_manager.Storage.PartFile.{file_storage, part_path}
use open_download_manager.Engine.Download.{download}
use open_download_manager.Engine.Download.Delivery.{Delivered}
use open_download_manager.Engine.Download.OnDisk.{download-Delivered_on_disk}
use open_download_manager.Tests.Transfers.{request, response}

abbrev pub Files : Type 0
Files = PathBuf → Option (List ℕ)

abbrev set : PathBuf → Option (List ℕ) → Files → Files
set p bytes w q = if list_eq p q then bytes else w q

abbrev pub bytes_of : Option (List ℕ) → List ℕ
bytes_of none = []
bytes_of (some bytes) = bytes

abbrev gone : IoError
gone = record { not_found = true; text = "not found" }

abbrev taken : IoError
taken = record { not_found = false; text = "exists" }

abbrev opened_at : PathBuf → Files → Option (List ℕ) → Io PathBuf × Files
opened_at p w none = (done p, set p (some []) w)
opened_at p w (some bytes) = (failed taken, w)

abbrev moved_to : PathBuf → PathBuf → Files → Option (List ℕ) → Io (Unit {0}) × Files
moved_to p q w none = (failed gone, w)
moved_to p q w (some bytes) = (done tt, set q (some bytes) (set p none w))

abbrev is_there : Option (List ℕ) → Bool
is_there none = false
is_there (some bytes) = true

abbrev pub disk : Fs
disk = record {
  World = Files;
  Writer = PathBuf;
  display = λ p. "a";
  try_exists = λ w p. is_there (w p);
  new_v4_simple = λ w. (b'b' ∷ [], w);
  create_dir_all = λ p w. (done tt, w);
  open_new = λ p w. opened_at p w (w p);
  write_all = λ chunk x w. (done tt, set x (some (bytes_of (w x) ++ chunk)) w);
  flush = λ x w. (done tt, w);
  sync_all = λ x w. (done tt, w);
  shutdown = λ x w. (done tt, w);
  rename = λ p q w. moved_to p q w (w p);
  remove_file = λ p w. (done tt, set p none w);
}

list_eq_refl : (s : List ℕ) → list_eq s s ≡ true
list_eq_refl [] = refl
list_eq_refl (x ∷ s) = rw (list_eq_refl s) (ground arith)

set-here : (p : PathBuf) (bytes : Option (List ℕ)) (w : Files) → set p bytes w p ≡ bytes
set-here p bytes w = rw (list_eq_refl p) refl

set-away :
    (p q : PathBuf) (bytes : Option (List ℕ)) (w : Files)
    → file_name p ≢ file_name q
    → set p bytes w q ≡ w q
set-away p q bytes w other = elim (Bool-cases (list_eq p q)) [
  | inl same ↦ absurd (other (ap file_name (list_eq→eq p q same)))
  | inr apart ↦ rw apart refl
]

abbrev pub IsOpenAt : PathBuf → PathBuf → Files → Type 0
IsOpenAt x p w = (x ≡ p) × (bytes : List ℕ) × (w p ≡ some bytes)

opened_at-kept :
    (p q : PathBuf) (w : Files) (there : Option (List ℕ))
    → file_name p ≢ file_name q
    → (opened_at p w there).1 q ≡ w q
opened_at-kept p q w none other = set-away p q (some []) w other
opened_at-kept p q w (some bytes) other = refl

opened_at-opens :
    (p x : PathBuf) (w : Files) (there : Option (List ℕ))
    → (opened_at p w there).0 ≡ done x
    → IsOpenAt x p (opened_at p w there).1 × (bytes_of ((opened_at p w there).1 x) ≡ [])
opened_at-opens p x w none h =
    let same : p ≡ x = cc in
    let blank : set p (some []) w p ≡ some [] = set-here p (some []) w in
    ((sym same, [], blank), ap bytes_of (ap (set p (some []) w) (sym same) ∙ blank))
opened_at-opens p x w (some bytes) h = cc

moved_to-kept :
    (p q : PathBuf) (w : Files) (there : Option (List ℕ)) (e : IoError)
    → (moved_to p q w there).0 ≡ failed e
    → (moved_to p q w there).1 q ≡ w q
moved_to-kept p q w none e h = refl
moved_to-kept p q w (some bytes) e h = cc

moved_to-moves :
    (p q : PathBuf) (w : Files) (there : Option (List ℕ)) (bytes : List ℕ)
    → there ≡ some bytes
    → (moved_to p q w there).1 q ≡ some bytes
moved_to-moves p q w none bytes h = cc
moved_to-moves p q w (some bytes') bytes h = set-here q (some bytes') (set p none w) ∙ h

write_all-kept :
    (chunk : List ℕ) (x p q : PathBuf) (w : Files)
    → IsOpenAt x p w
    → file_name p ≢ file_name q
    → set x (some (bytes_of (w x) ++ chunk)) w q ≡ w q
write_all-kept chunk x p q w (same, bytes, there) other =
    set-away x q (some (bytes_of (w x) ++ chunk)) w (λ e. other (ap file_name (sym same) ∙ e))

write_all-adds :
    (chunk : List ℕ) (x p : PathBuf) (w : Files)
    → IsOpenAt x p w
    → let v = set x (some (bytes_of (w x) ++ chunk)) w in
      IsOpenAt x p v × (bytes_of (v x) ≡ bytes_of (w x) ++ chunk)
write_all-adds chunk x p w (same, bytes, there) =
    let now : List ℕ = bytes_of (w x) ++ chunk in
    let here : set x (some now) w x ≡ some now = set-here x (some now) w in
    ((same, now, ap (set x (some now) w) (sym same) ∙ here), ap bytes_of here)

leaves : (x p : PathBuf) (w : Files) → IsOpenAt x p w → w p ≡ some (bytes_of (w x))
leaves x p w (same, bytes, there) = there ∙ ap some (sym (ap bytes_of (ap w same ∙ there)))

pub disk-IsFileSystem : IsFileSystem disk
disk-IsFileSystem = record {
  content = λ w q. w q;
  written = λ x w. bytes_of (w x);
  IsOpen = IsOpenAt;
  IsFlushed = λ x w. Unit {0};
  id-plain = λ w. refl;
  id-kept = λ w q. refl;
  mkdir-kept = λ p q w. refl;
  open-kept = λ p q w other. opened_at-kept p q w (w p) other;
  open-opens = λ p x w h. opened_at-opens p x w (w p) h;
  write-kept = λ chunk x p q w opens other. write_all-kept chunk x p q w opens other;
  write-adds = λ chunk x p w opens h. write_all-adds chunk x p w opens;
  flush-kept = λ x p q w opens other. refl;
  flush-empties = λ x p w opens h. (opens, tt, refl);
  sync-kept = λ x p q w opens other. refl;
  sync-keeps = λ x p w opens empty h. (opens, empty, refl);
  shutdown-kept = λ x p q w opens other. refl;
  shutdown-leaves = λ x p w opens empty h. leaves x p w opens;
  rename-kept = λ p q w e h. moved_to-kept p q w (w p) e h;
  rename-moves = λ p q w bytes h there. moved_to-moves p q w (w p) bytes there;
}

a-IsUsable : IsUsable (b'a' ∷ [])
a-IsUsable = (b'a' ∷ [], b'a' ∷ [], unfold file_name components in refl, unfold to_str in refl)

abbrev pub empty_disk : Files
empty_disk q = none

download-Delivered_on_disk_example :
    Delivered
      (file_storage disk)
      (λ v. v request.output)
      (ok response)
      none
      (download
        (file_storage disk)
        false
        false
        true
        true
        (since 4)
        request
        (ok response)
        empty_disk)
unfolding disk-IsFileSystem
download-Delivered_on_disk_example =
    download-Delivered_on_disk disk disk-IsFileSystem request false false true true (since 4)
      (ok response) empty_disk

part_path-ne_example : file_name (part_path (b'a' ∷ []) (b'b' ∷ [])) ≢ file_name (b'a' ∷ [])
part_path-ne_example = part_path-ne (b'a' ∷ []) (b'b' ∷ []) a-IsUsable refl
