-- ===== src/Engine/Naming.antt =====
-- The default name of a download (crates/download-engine/src/naming.rs).
use open_download_manager.Prelude.{
  ℕ, ◌≡◌, refl, sym, ap, ◌∙◌, Bool, true, false, List, [], ◌∷◌, ◌++◌, Option, none, some, arith,
  ltb, ◌==◌, ◌+◌, ◌/◌, ◌%◌, ◌≤◌, ◌<◌, any, all, Bool-cases, inl, inr,
}
use open_download_manager.Core.Libs.{PathBuf}
use open_download_manager.Storage.Chars.{codes, contains, is_empty, any-append, list_eq, list_eq→eq}
use open_download_manager.Storage.Utf8.{encode, encode_char}
use open_download_manager.Storage.Filename.{sanitize_filename, is_unsafe, trim_end}
use open_download_manager.Storage.Filename.Sanitize.{sanitize_filename-trimmed}
use open_download_manager.Storage.Path.{file_name}
use open_download_manager.Storage.Path.Accepted.{is_absolute}
use open_download_manager.Storage.Path.FileName.{IsName, file_name-name}

-- `segments` are what `Url::path_segments` gives, each by its code points.
abbrev pub last_segment : List (List ℕ) → Option (List ℕ)
last_segment [] = none
last_segment (s ∷ []) = some s
last_segment (s ∷ t ∷ rest) = last_segment (t ∷ rest)

abbrev pub segment_of : Option (List (List ℕ)) → Option (List ℕ)
segment_of none = none
segment_of (some segments) = last_segment segments

abbrev pub or_download : Option (List ℕ) → List ℕ
or_download none = codes "download.bin"
or_download (some s) = s

unfoldable pub default_output_for : Bool → Option (List (List ℕ)) → PathBuf
default_output_for windows segments =
    encode (sanitize_filename windows (or_download (segment_of segments)))

-- The first byte of a character that is not ASCII is not ASCII either, and nor is any other.
encode_char-contains : (c b : ℕ) → ltb b 0x80 ≡ true → contains b (encode_char c) ≡ (c == b)
unfolding encode_char
encode_char-contains c b h = elim (Bool-cases (ltb c 0x80)) [
  | inl one ↦ rw one (ground arith)
  | inr n1 ↦ elim (Bool-cases (ltb c 0x800)) [
    | inl two ↦ rw (n1, two) (ground arith)
    | inr n2 ↦ elim (Bool-cases (ltb c 0x10000)) [
      | inl three ↦ rw (n1, n2, three) (ground arith)
      | inr n3 ↦ rw (n1, n2, n3) (ground arith)
    ]
  ]
]

encode-contains : (b : ℕ) (s : List ℕ) → ltb b 0x80 ≡ true → contains b (encode s) ≡ contains b s
unfolding encode
encode-contains b [] h = refl
encode-contains b (c ∷ s) h =
    any-append (λ x. x == b) (encode_char c) (encode s)
    ∙ rw (encode_char-contains c b h, encode-contains b s h) refl

encode_char-cons :
    (c : ℕ)
    → (b : ℕ) × (rest : List ℕ) × (encode_char c ≡ b ∷ rest)
      × ((0x80 ≤ c) → 0x80 ≤ b)
      × (c < 0x80 → (b ≡ c) × (rest ≡ []))
unfolding encode_char
encode_char-cons c = elim (Bool-cases (ltb c 0x80)) [
  | inl one ↦ (c, [], rw one refl, λ h. h, λ h. (refl, refl))
  | inr n1 ↦ elim (Bool-cases (ltb c 0x800)) [
    | inl two ↦ (
      0xc0 + c / 64,
      (0x80 + c % 64) ∷ [],
      rw (n1, two) refl,
      λ h. omega arith,
      λ h. absurd (ground (arith, n1, h)),
    )
    | inr n2 ↦ elim (Bool-cases (ltb c 0x10000)) [
      | inl three ↦ (
        0xe0 + c / 4096,
        (0x80 + c / 64 % 64) ∷ (0x80 + c % 64) ∷ [],
        rw (n1, n2, three) refl,
        λ h. omega arith,
        λ h. absurd (ground (arith, n1, h)),
      )
      | inr n3 ↦ (
        0xf0 + c / 262144,
        (0x80 + c / 4096 % 64) ∷ (0x80 + c / 64 % 64) ∷ (0x80 + c % 64) ∷ [],
        rw (n1, n2, n3) refl,
        λ h. omega arith,
        λ h. absurd (ground (arith, n1, h)),
      )
    ]
  ]
]

-- Equality with an ASCII text is that of the characters.
encode-list_eq :
    (s t : List ℕ) → all (λ b. ltb b 0x80) t ≡ true → list_eq (encode s) t ≡ list_eq s t
unfolding encode
encode-list_eq [] t h = refl
encode-list_eq (c ∷ s) t h = go (encode_char-cons c) t h (λ t. encode-list_eq s t)
  where
    go :
        (b : ℕ) × (rest : List ℕ) × (encode_char c ≡ b ∷ rest)
          × ((0x80 ≤ c) → 0x80 ≤ b)
          × (c < 0x80 → (b ≡ c) × (rest ≡ []))
        → (t : List ℕ) → all (λ b. ltb b 0x80) t ≡ true
        → ((t : List ℕ) → all (λ b. ltb b 0x80) t ≡ true → list_eq (encode s) t ≡ list_eq s t)
        → list_eq (encode_char c ++ encode s) t ≡ list_eq (c ∷ s) t
    go (b, rest, e, large, small) [] h later = rw e refl
    go (b, rest, e, large, small) (x ∷ t) h later = elim (Bool-cases (ltb c 0x80)) [
      | inl one ↦
          let (same, none_left) = small (ground (arith, one)) in
          rw (e, same, none_left, later t (ground (arith, h))) refl
      | inr more ↦
          let big : 0x80 ≤ b = large (ground (arith, more)) in
          let n : (b == x) ≡ false = ground (arith, big, h) in
          let m : (c == x) ≡ false = ground (arith, more, h) in rw (e, n, m) refl
    ]

not_dots :
    (s t : List ℕ) → trim_end s ≡ s → trim_end t ≡ [] → is_empty t ≡ false → list_eq s t ≡ false
not_dots s t h k l = elim (Bool-cases (list_eq s t)) [
  | inl same ↦
      let e : s ≡ t = list_eq→eq s t same in
      let blank : t ≡ [] = sym e ∙ sym h ∙ ap trim_end e ∙ k in
      let both : true ≡ false = ap is_empty (sym blank) ∙ l in absurd cc
  | inr apart ↦ apart
]

slash_unsafe : (s : List ℕ) → any is_unsafe s ≡ false → contains b'/' s ≡ false
unfolding is_unsafe
slash_unsafe [] h = refl
slash_unsafe (c ∷ s) h = ground (arith, h, slash_unsafe s)

list_eq-is_empty : (s : List ℕ) → is_empty s ≡ list_eq s []
list_eq-is_empty [] = refl
list_eq-is_empty (c ∷ s) = refl

is_absolute-contains : (p : PathBuf) → contains b'/' p ≡ false → is_absolute p ≡ false
is_absolute-contains [] h = refl
is_absolute-contains (c ∷ p) h = ground (arith, h)

safe-IsName :
    (s : List ℕ) → is_empty s ≡ false → any is_unsafe s ≡ false → trim_end s ≡ s → IsName (encode s)
unfolding trim_end
safe-IsName s there plain trim =
    let e0 : is_empty (encode s) ≡ false =
      list_eq-is_empty (encode s) ∙ encode-list_eq s [] refl ∙ sym (list_eq-is_empty s) ∙ there in
    let e1 = encode-list_eq s (codes ".") refl in
    let e2 = encode-list_eq s (codes "..") refl in
    let n1 = not_dots s (codes ".") trim refl refl in
    let n2 = not_dots s (codes "..") trim refl refl in
    (rw (e0, e1, e2, n1, n2) refl, encode-contains b'/' s refl ∙ slash_unsafe s plain)

-- Whatever the URL, the default output is a single relative name: its final component is all of it.
pub default_output_for-name :
    (windows : Bool) (segments : Option (List (List ℕ)))
    → let path = default_output_for windows segments in
      (file_name path ≡ some path) × (is_absolute path ≡ false)
unfolding default_output_for
default_output_for-name windows segments =
    let name = or_download (segment_of segments) in
    let (there, plain, trim) = sanitize_filename-trimmed windows name in
    let v = safe-IsName (sanitize_filename windows name) there plain trim in
    (
      file_name-name (encode (sanitize_filename windows name)) v,
      is_absolute-contains (encode (sanitize_filename windows name)) v.1,
    )
