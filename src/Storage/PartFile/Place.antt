-- ===== src/Storage/PartFile/Place.antt =====
-- Where a partial file stands (crates/storage/src/storage.rs).
use open_download_manager.Prelude.{
  ℕ, suc, ◌+◌, ◌<◌, ◌≡◌, ◌≢◌, refl, ap, true, false, List, [], ◌∷◌, ◌++◌, Option, none, some, arith,
  length, length-append, ◌==◌,
}
use open_download_manager.Core.Libs.{PathBuf}
use open_download_manager.Storage.Chars.{codes, contains, any-append}
use open_download_manager.Storage.Utf8.{to_str}
use open_download_manager.Storage.Path.{file_name}
use open_download_manager.Storage.Path.Parent.{parent}
use open_download_manager.Storage.Path.Accepted.{is_named}
use open_download_manager.Storage.Path.FileName.{
  IsName, file_name-join, file_name-name, file_name-plain,
}
use open_download_manager.Storage.PartFile.{part_name, in_dir, part_path}

-- A destination whose final component is UTF-8.
abbrev pub IsUsable : PathBuf → Type 0
IsUsable dest =
    (name : List ℕ) × (text : List ℕ) × (file_name dest ≡ some name) × (to_str name ≡ some text)

is_named-long : (s : List ℕ) → 2 < length s → is_named s ≡ true
is_named-long [] h = absurd (omega arith)
is_named-long (a ∷ []) h = absurd (omega arith)
is_named-long (a ∷ b ∷ []) h = absurd (omega arith)
is_named-long (a ∷ b ∷ c ∷ s) h = ground arith

part_name-length :
    (name id text : List ℕ)
    → length (part_name (some name) id (some text)) ≡ length name + length id + 7
part_name-length name id text =
    let inner : length (id ++ codes ".part") ≡ length id + 5 = length-append id (codes ".part") in
    let outer : length (name ++ 46 ∷ (id ++ codes ".part"))
        ≡ length name + suc (length (id ++ codes ".part")) =
      length-append name (46 ∷ (id ++ codes ".part")) in
    let whole : length (part_name (some name) id (some text))
        ≡ suc (length (name ++ 46 ∷ (id ++ codes ".part"))) =
      refl in
    omega (arith, inner, outer, whole)

part_name-IsName :
    (name id text : List ℕ)
    → contains b'/' name ≡ false
    → contains b'/' id ≡ false
    → IsName (part_name (some name) id (some text))
part_name-IsName name id text h k = (
  is_named-long (part_name (some name) id (some text))
      (omega (arith, part_name-length name id text)),
  rw
      (
        any-append (λ x. x == b'/') name (46 ∷ (id ++ codes ".part")),
        h,
        any-append (λ x. x == b'/') id (codes ".part"),
        k,
      )
      refl,
)

file_name-in_dir :
    (dir : Option PathBuf) (n : List ℕ) → IsName n → file_name (in_dir dir n) ≡ some n
unfolding in_dir
file_name-in_dir none n v = file_name-name n v
file_name-in_dir (some []) n v = file_name-name n v
file_name-in_dir (some (c ∷ dir)) n v = file_name-join (c ∷ dir) n v

-- The partial file of a destination is not the destination: its name is longer. This holds where the
-- final component of the destination is UTF-8 and the drawn id has no slash.
pub part_path-ne :
    (dest : PathBuf) (id : List ℕ)
    → IsUsable dest
    → contains b'/' id ≡ false
    → file_name (part_path dest id) ≢ file_name dest
unfolding part_path
part_path-ne dest id (name, text, named, decoded) plain same =
    let part = part_name (some name) id (some text) in
    let v : IsName part = part_name-IsName name id text (file_name-plain dest name named) plain in
    let e : file_name (in_dir (parent dest) part) ≡ some part =
      file_name-in_dir (parent dest) part v in
    let same' : file_name (in_dir (parent dest) part) ≡ some name = rw (named, decoded) at same in
    let longer : length part ≡ length name + length id + 7 = part_name-length name id text in
    let equal : part ≡ name = cc in
    let lengths : length part ≡ length name = ap length equal in omega (arith, longer, lengths)
