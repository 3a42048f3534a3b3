-- ===== src/Storage/Path.antt =====
-- Paths: the validators of crates/storage/src/path.rs, on a Unix host.
pub mod Accepted
pub mod Parent
pub mod FileName
use open_download_manager.Prelude.{
  ℕ, ◌≡◌, refl, Bool, true, false, List, [], ◌∷◌, ◌++◌, Option, none, some, String, ltb, leb, ◌==◌,
  any, ◌&&◌, ◌||◌, if◌then◌else◌,
}
use open_download_manager.Core.Error.{Error, Result, ok, err, ◌>>=◌, ◌>>◌}
use open_download_manager.Core.Libs.{PathBuf}
use open_download_manager.Storage.Chars.{codes, list_eq, contains, is_empty}
use open_download_manager.Storage.Utf8.{to_str}
use open_download_manager.Storage.Filename.{
  InvalidFileNameReason, rejected, validate_filename, is_windows_reserved_name,
}

pub data InvalidPathReason : Type 0 where
  empty absolute parent_traversal nul_byte control_character : InvalidPathReason

reason_str_path : InvalidPathReason → String
reason_str_path empty = "empty path"
reason_str_path absolute = "absolute path not allowed"
reason_str_path parent_traversal = "parent traversal not allowed"
reason_str_path nul_byte = "NUL byte in path"
reason_str_path control_character = "control character in path"

unfoldable pub invalid {ℓ} : {A : Type ℓ} → InvalidPathReason → Result A
unfolding reason_str_path
invalid r = err (Error.invalid_path (reason_str_path r))

-- `std::path::Component`. A Unix path has no prefix.
pub data Component : Type 0 where
  root_dir cur_dir parent_dir : Component
  normal : List ℕ → Component

abbrev pub push_head : ℕ → List (List ℕ) → List (List ℕ)
push_head c [] = (c ∷ []) ∷ []
push_head c (s ∷ rest) = (c ∷ s) ∷ rest

-- The pieces between slashes.
unfoldable pub split : List ℕ → List (List ℕ)
split [] = [] ∷ []
split (c ∷ s) = let rest = split s in if c == b'/' then [] ∷ rest else push_head c rest

-- Empty pieces and `.` are dropped.
unfoldable pub normals : List (List ℕ) → List Component
normals [] = []
normals (s ∷ rest) =
    let more = normals rest in
    if is_empty s || list_eq s (codes ".")
    then more
    else if list_eq s (codes "..")
    then parent_dir ∷ more
    else normal s ∷ more

-- A leading `.` of a relative path is kept.
relative : List (List ℕ) → List Component
unfolding normals
relative [] = []
relative (s ∷ rest) = if list_eq s (codes ".") then cur_dir ∷ normals rest else normals (s ∷ rest)

-- `Path::components`.
unfoldable pub components : PathBuf → List Component
unfolding split relative
components [] = []
components (c ∷ path) =
    if c == b'/' then root_dir ∷ normals (split path) else relative (split (c ∷ path))

-- `Path::file_name`: the last component, if it is a normal one.
last_normal : Option (List ℕ) → List Component → Option (List ℕ)
last_normal found [] = found
last_normal found (normal s ∷ rest) = last_normal (some s) rest
last_normal found (_ ∷ rest) = last_normal none rest

unfoldable pub file_name : PathBuf → Option (List ℕ)
unfolding last_normal
file_name path = last_normal none (components path)

unfoldable pub reject_control_bytes : List ℕ → Result (Unit {0})
unfolding invalid
reject_control_bytes bytes =
    if any (λ b. ltb b 0x20 || b == 0x7f) bytes then invalid control_character else ok tt

-- The loop over the components; it returns whether a normal one was seen. `absolute_allowed` tells
-- the two validators apart.
unfoldable pub check_components : Bool → Bool → List Component → Result Bool
check_components absolute_allowed seen [] = ok seen
check_components true seen (root_dir ∷ rest) = check_components true seen rest
check_components false seen (root_dir ∷ rest) = invalid absolute
check_components absolute_allowed seen (parent_dir ∷ rest) = invalid parent_traversal
check_components absolute_allowed seen (cur_dir ∷ rest) =
    check_components absolute_allowed seen rest
check_components absolute_allowed seen (normal s ∷ rest) =
    reject_control_bytes s >> check_components absolute_allowed true rest

abbrev pub need : Bool → Result (Unit {0})
need true = ok tt
need false = invalid empty

unfoldable pub check_path : Bool → PathBuf → Result (Unit {0})
check_path absolute_allowed path =
    if is_empty path
    then invalid empty
    else if contains 0 path
    then invalid nul_byte
    else check_components absolute_allowed false (components path) >>= need

unfoldable pub validate_path : PathBuf → Result (Unit {0})
unfolding check_path
validate_path path = check_path false path

abbrev pub and_then_str : Option (List ℕ) → Option (List ℕ)
and_then_str none = none
and_then_str (some bytes) = to_str bytes

unfoldable pub check_name : Bool → Option (List ℕ) → Result (Unit {0})
check_name windows none = err (Error.invalid_file_name "output path has no usable final component")
check_name windows (some name) =
    validate_filename windows name
    >> (if is_windows_reserved_name name
        then rejected InvalidFileNameReason.reserved_name "reserved Windows name"
        else ok tt)

unfoldable pub validate_output_path : Bool → PathBuf → Result (Unit {0})
validate_output_path windows path =
    check_path true path >> check_name windows (and_then_str (file_name path))
