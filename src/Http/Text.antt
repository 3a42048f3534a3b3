-- ===== src/Http/Text.antt =====
-- What the parsers of crates/http-client use of `str`: text as code points.
use open_download_manager.Prelude.{
  ℕ, ◌+◌, ◌-◌, ◌*◌, Bool, true, false, List, [], ◌∷◌, Option, none, some, leb, ◌==◌, ◌&&◌, ◌||◌,
  if◌then◌else◌,
}
use open_download_manager.Core.Word.{u64_max}
use open_download_manager.Storage.Chars.{is_empty, to_ascii_upper}

-- `char::is_whitespace`: the property White_Space.
abbrev pub is_whitespace : ℕ → Bool
is_whitespace c =
    (leb 9 c && leb c 13)
    || (c == 0x20
        || (c == 0x85
            || (c == 0xa0
                || (c == 0x1680
                    || ((leb 0x2000 c && leb c 0x200a)
                        || (c == 0x2028
                            || (c == 0x2029 || (c == 0x202f || (c == 0x205f || c == 0x3000)))))))))

abbrev pub trim_start_by : (ℕ → Bool) → List ℕ → List ℕ
trim_start_by drops [] = []
trim_start_by drops (c ∷ s) = let rest = trim_start_by drops s in if drops c then rest else c ∷ s

abbrev pub trim_end_by : (ℕ → Bool) → List ℕ → List ℕ
trim_end_by drops [] = []
trim_end_by drops (c ∷ s) =
    let rest = trim_end_by drops s in if is_empty rest && drops c then [] else c ∷ rest

abbrev pub trim_by : (ℕ → Bool) → List ℕ → List ℕ
trim_by drops s = trim_end_by drops (trim_start_by drops s)

abbrev pub push_head : ℕ → List (List ℕ) → List (List ℕ)
push_head c [] = (c ∷ []) ∷ []
push_head c (s ∷ rest) = (c ∷ s) ∷ rest

-- `str::split` at one character.
abbrev pub split_at : ℕ → List ℕ → List (List ℕ)
split_at d [] = [] ∷ []
split_at d (c ∷ s) = let rest = split_at d s in if c == d then [] ∷ rest else push_head c rest

abbrev pub strip_prefix : List ℕ → List ℕ → Option (List ℕ)
strip_prefix [] s = some s
strip_prefix (p ∷ prefix) [] = none
strip_prefix (p ∷ prefix) (c ∷ s) =
    let rest = strip_prefix prefix s in if p == c then rest else none

-- What follows the first occurrence of the separator, as `str::split_once` gives it.
abbrev pub or_after : Option (List ℕ) → Option (List ℕ) → Option (List ℕ)
or_after none later = later
or_after (some s) later = some s

abbrev pub after_first : List ℕ → List ℕ → Option (List ℕ)
after_first separator [] = strip_prefix separator []
after_first separator (c ∷ s) = or_after (strip_prefix separator (c ∷ s)) (after_first separator s)

-- `str::parse::<u64>`: an optional sign, then digits, whose number fits.
abbrev pub is_digit : ℕ → Bool
is_digit c = leb b'0' c && leb c b'9'

abbrev pub checked : ℕ → Option ℕ
checked n = if leb n u64_max then some n else none

abbrev pub read_digit : ℕ → ℕ → Option ℕ
read_digit c n = if is_digit c then checked (n * 10 + (c - b'0')) else none

abbrev pub then_read : Option ℕ → (ℕ → Option ℕ) → Option ℕ
then_read none rest = none
then_read (some n) rest = rest n

abbrev pub parse_digits : List ℕ → ℕ → Option ℕ
parse_digits [] n = some n
parse_digits (c ∷ s) n = then_read (read_digit c n) (parse_digits s)

abbrev pub unsigned : List ℕ → List ℕ
unsigned [] = []
unsigned (c ∷ s) = if c == b'+' then s else c ∷ s

unfoldable pub parse_u64 : List ℕ → Option ℕ
parse_u64 s = if is_empty (unsigned s) then none else parse_digits (unsigned s) 0

abbrev pub eq_ignore_ascii_case : List ℕ → List ℕ → Bool
eq_ignore_ascii_case [] [] = true
eq_ignore_ascii_case [] (d ∷ t) = false
eq_ignore_ascii_case (c ∷ s) [] = false
eq_ignore_ascii_case (c ∷ s) (d ∷ t) =
    to_ascii_upper c == to_ascii_upper d && eq_ignore_ascii_case s t
