-- ===== src/Http/Disposition/Encoded.antt =====
-- The extended form of a name, after RFC 5987 (crates/http-client/src/inspect.rs).

use open_download_manager.Prelude.{
  ℕ, ◌+◌, ◌-◌, ◌*◌, ◌/◌, ◌%◌, ◌<◌, ◌≡◌, refl, Bool, true, false, List, [], ◌∷◌, ◌++◌, none, some,
  arith, ltb, leb, ◌==◌, any, all, ◌&&◌, ◌||◌, if◌then◌else◌, Bool-cases, inl, inr,
}
use open_download_manager.Storage.Chars.{codes}
use open_download_manager.Storage.Utf8.{from_utf8_lossy, encode, encode_char}
use open_download_manager.Http.Text.{is_whitespace, trim_end_by, split_at}
use open_download_manager.Http.Disposition.{
  hex, escape, decode_from, percent_decode, first_name, parse_content_disposition_filename,
}

-- The encoder that the header's form describes: a letter or a digit stands for itself, any other byte
-- is escaped.
abbrev pub hex_digit : ℕ → ℕ
hex_digit d = if ltb d 10 then b'0' + d else b'A' + (d - 10)

abbrev pub is_plain : ℕ → Bool
is_plain b =
    (leb b'0' b && leb b b'9') || ((leb b'a' b && leb b b'z') || (leb b'A' b && leb b b'Z'))

unfoldable pub percent_encode : List ℕ → List ℕ
percent_encode [] = []
percent_encode (b ∷ rest) =
    let more = percent_encode rest in
    if is_plain b then b ∷ more else b'%' ∷ hex_digit (b / 16) ∷ hex_digit (b % 16) ∷ more

hex-hex_digit : (d : ℕ) → d < 16 → hex (hex_digit d) ≡ some d
unfolding hex
hex-hex_digit d h = elim (Bool-cases (ltb d 10)) [
  | inl low ↦ rw low (ground arith)
  | inr high ↦ rw high (ground arith)
]

escape-is_plain : (b : ℕ) (rest : List ℕ) → is_plain b ≡ true → escape b rest ≡ none
escape-is_plain b [] h = refl
escape-is_plain b (c ∷ []) h = refl
escape-is_plain b (c ∷ d ∷ rest) h = ground arith

abbrev pub is_byte : ℕ → Bool
is_byte b = ltb b 256

decode_from-percent_encode :
    (bytes : List ℕ) → all is_byte bytes ≡ true → decode_from 0 (percent_encode bytes) ≡ bytes
unfolding decode_from percent_encode
decode_from-percent_encode [] h = refl
decode_from-percent_encode (b ∷ rest) h =
    let later : decode_from 0 (percent_encode rest) ≡ rest =
      decode_from-percent_encode rest (ground arith) in
    let small : b < 256 = ground arith in
    elim (Bool-cases (is_plain b)) [
      | inl plain ↦ rw (plain, escape-is_plain b (percent_encode rest) plain, later) refl
      | inr other ↦
          let high = hex-hex_digit (b / 16) (omega (arith, small)) in
          let low = hex-hex_digit (b % 16) (omega arith) in
          let whole : b / 16 * 16 + b % 16 ≡ b = omega arith in
          rw (other, high, low, later, whole) refl
    ]

-- What an encoded text is made of passes the parser untouched: it has no separator, no white space,
-- no quote, and only characters of one byte.
abbrev is_safe : ℕ → Bool
is_safe c = is_plain c || c == b'%'

hex_digit-is_safe : (d : ℕ) → d < 16 → is_safe (hex_digit d) ≡ true
hex_digit-is_safe d h = elim (Bool-cases (ltb d 10)) [
  | inl low ↦ rw low (ground arith)
  | inr high ↦ rw high (ground arith)
]

percent_encode-is_safe :
    (bytes : List ℕ) → all is_byte bytes ≡ true → all is_safe (percent_encode bytes) ≡ true
unfolding percent_encode
percent_encode-is_safe [] h = refl
percent_encode-is_safe (b ∷ rest) h =
    let later : all is_safe (percent_encode rest) ≡ true =
      percent_encode-is_safe rest (ground arith) in
    let small : b < 256 = ground arith in
    elim (Bool-cases (is_plain b)) [
      | inl plain ↦ rw (plain, plain, later) refl
      | inr other ↦
          rw
            (
              other,
              hex_digit-is_safe (b / 16) (omega (arith, small)),
              hex_digit-is_safe (b % 16) (omega arith),
              later,
            )
            refl
    ]

encode-is_safe : (s : List ℕ) → all is_safe s ≡ true → encode s ≡ s
unfolding encode encode_char
encode-is_safe [] h = refl
encode-is_safe (c ∷ s) h =
    let later : encode s ≡ s = encode-is_safe s (ground arith) in
    let small : ltb c 0x80 ≡ true = ground arith in rw (small, later) refl

split_at-is_safe : (s : List ℕ) → all is_safe s ≡ true → split_at b';' s ≡ s ∷ []
split_at-is_safe [] h = refl
split_at-is_safe (c ∷ s) h =
    let later : split_at b';' s ≡ s ∷ [] = split_at-is_safe s (ground arith) in
    let other : (c == b';') ≡ false = ground arith in rw (other, later) refl

any_whitespace-is_safe : (s : List ℕ) → all is_safe s ≡ true → any is_whitespace s ≡ false
any_whitespace-is_safe [] h = refl
any_whitespace-is_safe (c ∷ s) h =
    let later : any is_whitespace s ≡ false = any_whitespace-is_safe s (ground arith) in
    let other : is_whitespace c ≡ false = ground arith in rw (other, later) refl

trim_end_by-any : (drops : ℕ → Bool) (s : List ℕ) → any drops s ≡ false → trim_end_by drops s ≡ s
trim_end_by-any drops [] h = refl
trim_end_by-any drops (c ∷ s) h =
    let later : trim_end_by drops s ≡ s = trim_end_by-any drops s (ground arith) in
    let other : drops c ≡ false = ground arith in rw (later, other) (ground arith)

-- A name in the extended form, in a header as servers send it, is read back: from the bytes that were
-- encoded, as they decode.
pub parse-percent_encode :
    (bytes : List ℕ)
    → all is_byte bytes ≡ true
    → parse_content_disposition_filename
        (codes "attachment; filename*=UTF-8''" ++ percent_encode bytes)
      ≡ some (from_utf8_lossy bytes)
unfolding parse_content_disposition_filename first_name percent_decode
parse-percent_encode bytes h =
    let e = percent_encode bytes in
    let safe : all is_safe e ≡ true = percent_encode-is_safe bytes h in
    let form = codes "filename*=UTF-8''" ++ e in
    let kept : trim_end_by is_whitespace form ≡ form =
      trim_end_by-any is_whitespace form (any_whitespace-is_safe e safe) in
    rw (split_at-is_safe e safe, kept, encode-is_safe e safe, decode_from-percent_encode bytes h)
      refl
