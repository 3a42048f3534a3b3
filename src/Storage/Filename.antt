-- ===== src/Storage/Filename.antt =====
-- File names: `validate_filename` and `sanitize_filename` of crates/storage/src/path.rs. `windows` says
-- whether the code is built for Windows, where the check of reserved names is compiled in.
pub mod Sanitize
use Prim.Native.String
use open_download_manager.Prelude.{
  ℕ, ◌≡◌, refl, Bool, true, false, List, [], ◌∷◌, ◌++◌, String, ltb, leb, ◌==◌, any, ◌&&◌, ◌||◌,
  if◌then◌else◌,
}
use open_download_manager.Core.Error.{Error, Result, ok, err}
use open_download_manager.Storage.Chars.{
  codes, list_eq, contains, is_empty, utf8_len, is_control, to_ascii_upper,
}

pub data InvalidFileNameReason : Type 0 where
  empty reserved_name control_character nul_byte path_separator too_long : InvalidFileNameReason

reason_str_file : InvalidFileNameReason → String
reason_str_file empty = "empty"
reason_str_file reserved_name = "reserved"
reason_str_file control_character = "control"
reason_str_file nul_byte = "nul"
reason_str_file path_separator = "separator"
reason_str_file too_long = "toolong"

unfoldable pub rejected : InvalidFileNameReason → String → Result (Unit {0})
unfolding reason_str_file
rejected r what =
    err (Error.invalid_file_name (String.◌++◌ (reason_str_file r) (String.◌++◌ ": " what)))

-- What stands before the first dot.
unfoldable pub stem : List ℕ → List ℕ
stem [] = []
stem (c ∷ s) = let rest = stem s in if c == b'.' then [] else c ∷ rest

upper : List ℕ → List ℕ
upper [] = []
upper (c ∷ s) = to_ascii_upper c ∷ upper s

devices : List (List ℕ)
devices =
    codes "CON"
    ∷ codes "PRN"
    ∷ codes "AUX"
    ∷ codes "NUL"
    ∷ codes "COM1"
    ∷ codes "COM2"
    ∷ codes "COM3"
    ∷ codes "COM4"
    ∷ codes "COM5"
    ∷ codes "COM6"
    ∷ codes "COM7"
    ∷ codes "COM8"
    ∷ codes "COM9"
    ∷ codes "LPT1"
    ∷ codes "LPT2"
    ∷ codes "LPT3"
    ∷ codes "LPT4"
    ∷ codes "LPT5"
    ∷ codes "LPT6"
    ∷ codes "LPT7"
    ∷ codes "LPT8"
    ∷ codes "LPT9"
    ∷ []

is_device : List ℕ → Bool
unfolding devices
is_device name = any (list_eq name) devices

unfoldable pub is_windows_reserved_name : List ℕ → Bool
unfolding upper is_device stem
is_windows_reserved_name name = is_device (stem (upper name))

unfoldable pub validate_filename : Bool → List ℕ → Result (Unit {0})
unfolding rejected
validate_filename windows name =
    if is_empty name
    then rejected empty "name is empty"
    else if ltb 255 (utf8_len name)
    then rejected too_long "name is too long"
    else if contains 0 name
    then rejected nul_byte "NUL byte in name"
    else if contains b'/' name || contains 0x5c name
    then rejected path_separator "path separator in name"
    else if any is_control name
    then rejected control_character "control character in name"
    else if windows && is_windows_reserved_name name
    then rejected reserved_name "reserved Windows name"
    else ok tt

-- The characters that are replaced.
unfoldable pub is_unsafe : ℕ → Bool
is_unsafe c =
    is_control c
    || c == b'/'
    || c == 0x5c
    || c == 0
    || c == b':'
    || c == b'*'
    || c == b'?'
    || c == 0x22
    || c == b'<'
    || c == b'>'
    || c == b'|'

replace_unsafe : List ℕ → List ℕ
unfolding is_unsafe
replace_unsafe [] = []
replace_unsafe (c ∷ s) = (if is_unsafe c then b'_' else c) ∷ replace_unsafe s

abbrev pub is_trimmed : ℕ → Bool
is_trimmed c = c == b' ' || c == b'.'

-- `trim_end_matches([' ', '.'])`.
unfoldable pub trim_end : List ℕ → List ℕ
trim_end [] = []
trim_end (c ∷ s) = let rest = trim_end s in if is_empty rest && is_trimmed c then [] else c ∷ rest

unfoldable pub trimmed : List ℕ → List ℕ
unfolding replace_unsafe trim_end
trimmed name = trim_end (replace_unsafe name)

abbrev pub is_valid : Result (Unit {0}) → Bool
is_valid (ok _) = true
is_valid (err _) = false

unfoldable pub sanitize_filename : Bool → List ℕ → List ℕ
sanitize_filename windows name =
    let t = trimmed name in
    if is_empty t
    then codes "download.bin"
    else if is_valid (validate_filename windows t)
    then t
    else t ++ codes ".bin"
