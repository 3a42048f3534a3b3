-- ===== src/Storage/Utf8.antt =====
-- `OsStr::to_str` on Unix: the bytes are decoded as UTF-8, by the table of well-formed sequences of
-- the Unicode standard that Rust's `from_utf8` checks, and the two ways back and around it:
-- `String::from_utf8_lossy` and the bytes of a `String`.
pub mod Encode
use open_download_manager.Prelude.{
  ℕ, zero, suc, ◌+◌, ◌-◌, ◌*◌, ◌/◌, ◌%◌, ◌++◌, ◌≡◌, refl, List, [], ◌∷◌, Option, none, some, leb,
  ltb, ◌==◌, ◌&&◌, if◌then◌else◌,
}

-- Between characters, or inside one: how many bytes follow the next, its range, and the bits so far.
pub data Decoder : Type 0 where
  ready : Decoder
  inside : (more low high bits : ℕ) → Decoder

-- What the next byte does: it is refused, it ends a character, or the character goes on.
pub data Step : Type 0 where
  refused : Step
  emits : ℕ → Step
  goes_on : Decoder → Step

lead : ℕ → Step
lead b =
    if ltb b 0x80
    then emits b
    else if ltb b 0xc2
    then refused
    else if ltb b 0xe0
    then goes_on (inside 0 0x80 0xbf (b - 0xc0))
    else if b == 0xe0
    then goes_on (inside 1 0xa0 0xbf 0)
    else if b == 0xed
    then goes_on (inside 1 0x80 0x9f 13)
    else if ltb b 0xf0
    then goes_on (inside 1 0x80 0xbf (b - 0xe0))
    else if b == 0xf0
    then goes_on (inside 2 0x90 0xbf 0)
    else if ltb b 0xf4
    then goes_on (inside 2 0x80 0xbf (b - 0xf0))
    else if b == 0xf4
    then goes_on (inside 2 0x80 0x8f 4)
    else refused

push_bits : ℕ → ℕ → Step
push_bits zero bits = emits bits
push_bits (suc more) bits = goes_on (inside more 0x80 0xbf bits)

next_byte : Decoder → ℕ → Step
unfolding lead push_bits
next_byte ready b = lead b
next_byte (inside more low high bits) b =
    if leb low b && leb b high then push_bits more (bits * 64 + (b - 0x80)) else refused

push_char : ℕ → Option (List ℕ) → Option (List ℕ)
push_char c none = none
push_char c (some s) = some (c ∷ s)

after_step : Step → (Decoder → Option (List ℕ)) → Option (List ℕ)
unfolding push_char
after_step refused rest = none
after_step (emits c) rest = push_char c (rest ready)
after_step (goes_on d) rest = rest d

decode_from : List ℕ → Decoder → Option (List ℕ)
unfolding next_byte after_step
decode_from [] ready = some []
decode_from [] (inside more low high bits) = none
decode_from (b ∷ bytes) d = after_step (next_byte d b) (decode_from bytes)

unfoldable pub to_str : List ℕ → Option (List ℕ)
unfolding decode_from
to_str bytes = decode_from bytes ready

-- `String::from_utf8_lossy`: each longest part of a character that does not go on is replaced.
replacement : ℕ
replacement = 0xfffd

lossy_step : Step → (Decoder → List ℕ) → List ℕ
unfolding replacement
lossy_step refused rest = replacement ∷ rest ready
lossy_step (emits c) rest = c ∷ rest ready
lossy_step (goes_on d) rest = rest d

-- A byte that does not go on with a character is looked at again as the first of another.
lossy_byte : Decoder → ℕ → Step → (Decoder → List ℕ) → List ℕ
unfolding lossy_step
lossy_byte (inside more low high bits) b refused rest = replacement ∷ lossy_step (lead b) rest
lossy_byte d b step rest = lossy_step step rest

lossy_from : List ℕ → Decoder → List ℕ
unfolding lossy_byte
lossy_from [] ready = []
lossy_from [] (inside more low high bits) = replacement ∷ []
lossy_from (b ∷ bytes) d = lossy_byte d b (next_byte d b) (lossy_from bytes)

unfoldable pub from_utf8_lossy : List ℕ → List ℕ
unfolding lossy_from lead next_byte
from_utf8_lossy bytes = lossy_from bytes ready

-- The bytes of a character, and of a text.
unfoldable pub encode_char : ℕ → List ℕ
encode_char c =
    if ltb c 0x80
    then c ∷ []
    else if ltb c 0x800
    then (0xc0 + c / 64) ∷ (0x80 + c % 64) ∷ []
    else if ltb c 0x10000
    then (0xe0 + c / 4096) ∷ (0x80 + c / 64 % 64) ∷ (0x80 + c % 64) ∷ []
    else (0xf0 + c / 262144) ∷ (0x80 + c / 4096 % 64) ∷ (0x80 + c / 64 % 64) ∷ (0x80 + c % 64) ∷ []

unfoldable pub encode : List ℕ → List ℕ
encode [] = []
encode (c ∷ s) = encode_char c ++ encode s

from_utf8_lossy_test :
    (from_utf8_lossy (0x61 ∷ 0xe2 ∷ 0x82 ∷ 0x62 ∷ 0xff ∷ []) ≡ 0x61 ∷ 0xfffd ∷ 0x62 ∷ 0xfffd ∷ [])
    × (encode (0xe9 ∷ 0x20ac ∷ 0x1f600 ∷ [])
        ≡ 0xc3 ∷ 0xa9 ∷ 0xe2 ∷ 0x82 ∷ 0xac ∷ 0xf0 ∷ 0x9f ∷ 0x98 ∷ 0x80 ∷ [])
unfolding from_utf8_lossy encode encode_char
from_utf8_lossy_test = (refl, refl)

to_str_test :
    (to_str (0x61 ∷ 0xc3 ∷ 0xa9 ∷ 0xe2 ∷ 0x82 ∷ 0xac ∷ 0xf0 ∷ 0x9f ∷ 0x98 ∷ 0x80 ∷ [])
      ≡ some (0x61 ∷ 0xe9 ∷ 0x20ac ∷ 0x1f600 ∷ []))
    × (to_str (0xc0 ∷ 0x80 ∷ []) ≡ none)
    × (to_str (0xed ∷ 0xa0 ∷ 0x80 ∷ []) ≡ none)
unfolding to_str
to_str_test = (refl, refl, refl)
