-- ===== src/Http/Disposition.antt =====
-- The file name of a `Content-Disposition` header (crates/http-client/src/inspect.rs).
pub mod Encoded
use open_download_manager.Prelude.{
  ℕ, zero, suc, ◌+◌, ◌-◌, ◌*◌, ◌≡◌, refl, Bool, true, false, List, [], ◌∷◌, Option, none, some, leb,
  ◌==◌, ◌&&◌, if◌then◌else◌,
}
use open_download_manager.Storage.Chars.{codes, is_empty}
use open_download_manager.Storage.Utf8.{from_utf8_lossy, encode, encode_char}
use open_download_manager.Http.Text.{is_whitespace, trim_by, split_at, strip_prefix, after_first}

unfoldable pub hex : ℕ → Option ℕ
hex b =
    if leb b'0' b && leb b b'9'
    then some (b - b'0')
    else if leb b'a' b && leb b b'f'
    then some (b - b'a' + 10)
    else if leb b'A' b && leb b b'F'
    then some (b - b'A' + 10)
    else none

abbrev pub both_hex : Option ℕ → Option ℕ → Option ℕ
both_hex (some h) (some l) = some (h * 16 + l)
both_hex _ _ = none

-- The byte that an escape at the start of the rest stands for, if there is one.
abbrev pub escape : ℕ → List ℕ → Option ℕ
escape b (h ∷ l ∷ rest) = if b == b'%' then both_hex (hex h) (hex l) else none
escape b _ = none

abbrev pub put : Option ℕ → ℕ → (ℕ → List ℕ) → List ℕ
put none b rest = b ∷ rest 0
put (some v) b rest = v ∷ rest 2

-- The loop over the bytes; `skip` of them belong to the last escape.
unfoldable pub decode_from : ℕ → List ℕ → List ℕ
unfolding hex
decode_from skip [] = []
decode_from (suc skip) (b ∷ rest) = decode_from skip rest
decode_from zero (b ∷ rest) = put (escape b rest) b (λ skip. decode_from skip rest)

unfoldable pub percent_decode : List ℕ → List ℕ
unfolding decode_from
percent_decode input = from_utf8_lossy (decode_from 0 (encode input))

abbrev pub decoded_name : Option (List ℕ) → Option (List ℕ)
decoded_name none = none
decoded_name (some encoded) = some (percent_decode encoded)

abbrev pub is_quote : ℕ → Bool
is_quote c = c == b'"'

abbrev pub unquoted : List ℕ → Option (List ℕ)
unquoted s = if is_empty s then none else some s

abbrev pub plain_name : Option (List ℕ) → Option (List ℕ)
plain_name none = none
plain_name (some rest) = unquoted (trim_by is_quote rest)

-- What one part gives: a part of the extended form is not looked at as a plain one.
abbrev pub name_in : List ℕ → Option (List ℕ) → Option (List ℕ)
name_in part none = plain_name (strip_prefix (codes "filename=") part)
name_in part (some rest) = decoded_name (after_first (codes "''") rest)

abbrev pub or_next : Option (List ℕ) → Option (List ℕ) → Option (List ℕ)
or_next none later = later
or_next (some name) later = some name

unfoldable pub first_name : List (List ℕ) → Option (List ℕ)
first_name [] = none
first_name (part ∷ rest) =
    let trimmed = trim_by is_whitespace part in
    or_next (name_in trimmed (strip_prefix (codes "filename*=") trimmed)) (first_name rest)

unfoldable pub parse_content_disposition_filename : List ℕ → Option (List ℕ)
unfolding first_name
parse_content_disposition_filename value = first_name (split_at b';' value)

parse_test :
    (parse_content_disposition_filename (codes "attachment; filename=\"a b.zip\"")
      ≡ some (codes "a b.zip"))
    × (parse_content_disposition_filename (codes "attachment; filename*=UTF-8''a%20%e2%82%ac")
        ≡ some (0x61 ∷ 0x20 ∷ 0x20ac ∷ []))
    × (parse_content_disposition_filename (codes "attachment; filename=\"a;b.zip\"")
        ≡ some (codes "a"))
    × (parse_content_disposition_filename (codes "attachment; filename*=UTF-8'en'a") ≡ none)
unfolding parse_content_disposition_filename percent_decode from_utf8_lossy encode encode_char
parse_test = (refl, refl, refl, refl)
