-- ===== src/Storage/Filename/Sanitize.antt =====
-- What `sanitize_filename` of crates/storage/src/path.rs guarantees of its result.
use open_download_manager.Prelude.{
  ℕ, ◌≡◌, ◌≢◌, refl, ap, ◌∙◌, Option, none, some, inl, inr, Bool, true, false, List, [], ◌∷◌, ◌++◌,
  arith, ltb, leb, any, ◌&&◌, ◌||◌, not, if◌then◌else◌, Bool-cases,
}
use open_download_manager.Storage.Chars.{
  codes, contains, is_empty, utf8_len, utf8_len-append, any-append, is_control,
}
use open_download_manager.Storage.Filename.{
  stem, upper, is_device, is_windows_reserved_name, validate_filename, is_unsafe, replace_unsafe,
  is_trimmed, trim_end, trimmed, is_valid, sanitize_filename,
}

replace_unsafe-safe : (s : List ℕ) → any is_unsafe (replace_unsafe s) ≡ false
unfolding replace_unsafe is_unsafe
replace_unsafe-safe [] = refl
replace_unsafe-safe (c ∷ s) = ground (arith, replace_unsafe-safe s)

any-trim_end : (p : ℕ → Bool) (s : List ℕ) → any p s ≡ false → any p (trim_end s) ≡ false
unfolding trim_end
any-trim_end p [] h = refl
any-trim_end p (c ∷ s) h = ground (arith, any-trim_end p s)

trim_end_idempotent : (s : List ℕ) → trim_end (trim_end s) ≡ trim_end s
unfolding trim_end
trim_end_idempotent [] = refl
trim_end_idempotent (c ∷ s) = elim (Bool-cases (is_empty (trim_end s) && is_trimmed c)) [
  | inl gone ↦ rw gone
  | inr kept ↦ rw kept (rw (trim_end_idempotent s, kept))
]

trim_end-append_bin : (s : List ℕ) → trim_end (s ++ codes ".bin") ≡ s ++ codes ".bin"
unfolding trim_end
trim_end-append_bin [] = refl
trim_end-append_bin (c ∷ s) = rw (trim_end-append_bin s) (ground (arith, not_empty s))
  where
    not_empty : (s : List ℕ) → is_empty (s ++ codes ".bin") ≡ false
    not_empty [] = refl
    not_empty (d ∷ s) = refl

trimmed-safe : (name : List ℕ) → any is_unsafe (trimmed name) ≡ false
unfolding trimmed
trimmed-safe name = any-trim_end is_unsafe (replace_unsafe name) (replace_unsafe-safe name)

-- The characters that no file name should have: the controls, and those that a shell or Windows reads
-- as something else.
abbrev pub forbidden : ℕ → Bool
forbidden c = ltb c 32 || ((leb 127 c && ltb c 160) || contains c (codes "/\\:*?\"<>|"))

abbrev pub last : List ℕ → Option ℕ
last [] = none
last (c ∷ []) = some c
last (_ ∷ d ∷ s) = last (d ∷ s)

forbidden-unsafe : (c : ℕ) → forbidden c ≡ true → is_unsafe c ≡ true
unfolding is_unsafe
forbidden-unsafe c h = ground (arith, h)

no_forbidden : (s : List ℕ) → any is_unsafe s ≡ false → any forbidden s ≡ false
no_forbidden [] h = refl
no_forbidden (c ∷ s) h = elim (Bool-cases (forbidden c)) [
  | inl bad ↦ absurd (ground (arith, forbidden-unsafe c bad))
  | inr good ↦ rw good (no_forbidden s (ground (arith, h)))
]

-- What does not end in a dot or a space is left as it is, and nothing else is.
last-trim_end : (s : List ℕ) (c : ℕ) → last (trim_end s) ≡ some c → is_trimmed c ≡ false
unfolding trim_end
last-trim_end [] c h = cc
last-trim_end (d ∷ s) c h = go (trim_end s) (last-trim_end s c) h
  where
    go :
        (rest : List ℕ)
        → (last rest ≡ some c → is_trimmed c ≡ false)
        → last (if is_empty rest && is_trimmed d then [] else d ∷ rest) ≡ some c
        → is_trimmed c ≡ false
    go [] ih h = ground (arith, h)
    go (e ∷ rest) ih h = ih h

last_of_trimmed : (s : List ℕ) → trim_end s ≡ s → (c : ℕ) → is_trimmed c ≡ true → last s ≢ some c
last_of_trimmed s e c bad h =
    let fine : is_trimmed c ≡ false = last-trim_end s c (ap last e ∙ h) in ground (arith, fine)

pub sanitize_filename-trimmed :
    (windows : Bool) (name : List ℕ)
    → let safe = sanitize_filename windows name in
      (is_empty safe ≡ false) × (any is_unsafe safe ≡ false) × (trim_end safe ≡ safe)
unfolding sanitize_filename
sanitize_filename-trimmed windows name =
    cases (trimmed name) (trimmed-safe name)
      (unfold trimmed in trim_end_idempotent (replace_unsafe name))
  where
    cases :
        (t : List ℕ)
        → any is_unsafe t ≡ false
        → trim_end t ≡ t
        → let safe =
            if is_empty t
            then codes "download.bin"
            else if is_valid (validate_filename windows t)
            then t
            else t ++ codes ".bin" in
          (is_empty safe ≡ false) × (any is_unsafe safe ≡ false) × (trim_end safe ≡ safe)
    cases [] u e = (refl, unfold is_unsafe in refl, unfold trim_end in refl)
    cases (c ∷ t) u e = elim (Bool-cases (is_valid (validate_filename windows (c ∷ t)))) [
      | inl fine ↦ rw fine (refl, u, e)
      | inr bad ↦ rw bad (
        refl,
        rw (any-append is_unsafe (c ∷ t) (codes ".bin"), u) (unfold is_unsafe in refl),
        trim_end-append_bin (c ∷ t),
      )
    ]

-- The sanitized form of any name has a first character, none that is a control (below 32, or from 127
-- to 159) or one of / \ : * ? " < > |, and a last one that is neither a space nor a dot, so that it is
-- neither `.` nor `..`.
pub sanitize_filename-safe :
    (windows : Bool) (name : List ℕ)
    → let safe = sanitize_filename windows name in
      (safe ≢ []) × (any forbidden safe ≡ false) × (last safe ≢ some b' ') × (last safe ≢ some b'.')
sanitize_filename-safe windows name =
    let (filled, clean, ended) = sanitize_filename-trimmed windows name in
    (
      (λ h. ground (arith, filled, h)),
      no_forbidden (sanitize_filename windows name) clean,
      last_of_trimmed (sanitize_filename windows name) ended b' ' refl,
      last_of_trimmed (sanitize_filename windows name) ended b'.' refl,
    )

upper-append : (s t : List ℕ) → upper (s ++ t) ≡ upper s ++ upper t
unfolding upper
upper-append [] t = refl
upper-append (c ∷ s) t = rw (upper-append s t)

stem-append_dot : (s t : List ℕ) → stem (s ++ b'.' ∷ t) ≡ stem s
unfolding stem
stem-append_dot [] t = refl
stem-append_dot (c ∷ s) t = rw (stem-append_dot s t)

stem-upper-append_bin : (s : List ℕ) → stem (upper (s ++ codes ".bin")) ≡ stem (upper s)
unfolding upper
stem-upper-append_bin s =
    rw (upper-append s (codes ".bin")) (stem-append_dot (upper s) (codes "BIN"))

-- A suffix after a dot does not change whether the name is reserved.
reserved-append_bin :
    (s : List ℕ) → is_windows_reserved_name (s ++ codes ".bin") ≡ is_windows_reserved_name s
unfolding is_windows_reserved_name
reserved-append_bin s = ap is_device (stem-upper-append_bin s)

safe_parts :
    (s : List ℕ)
    → any is_unsafe s ≡ false
    → (contains 0 s ≡ false)
      × (contains b'/' s ≡ false)
      × (contains 0x5c s ≡ false)
      × (any is_control s ≡ false)
unfolding is_unsafe
safe_parts [] h = (refl, refl, refl, refl)
safe_parts (c ∷ s) h = ground (arith, safe_parts s)

-- Of a name of safe characters only the length, and on Windows the reserved names, are in doubt.
validate_filename_of_safe :
    (windows : Bool) (c : ℕ) (s : List ℕ)
    → any is_unsafe (c ∷ s) ≡ false
    → is_valid (validate_filename windows (c ∷ s))
      ≡ not (ltb 255 (utf8_len (c ∷ s)) || (windows && is_windows_reserved_name (c ∷ s)))
unfolding validate_filename
validate_filename_of_safe windows c s safe =
    let (nul, slash, back, control) = safe_parts (c ∷ s) safe in
    ground (arith, nul, slash, back, control)

append_bin-invalid :
    (windows : Bool) (c : ℕ) (s : List ℕ)
    → any is_unsafe (c ∷ s) ≡ false
    → is_valid (validate_filename windows (c ∷ s)) ≡ false
    → is_valid (validate_filename windows ((c ∷ s) ++ codes ".bin")) ≡ false
append_bin-invalid windows c s safe bad = ground (
  arith,
  validate_filename_of_safe windows c s safe,
  validate_filename_of_safe windows c (s ++ codes ".bin")
      (unfold is_unsafe in rw (any-append is_unsafe (c ∷ s) (codes ".bin")) (rw safe)),
  reserved-append_bin (c ∷ s),
  utf8_len-append s (codes ".bin"),
)

download_bin-valid :
    (windows : Bool) → is_valid (validate_filename windows (codes "download.bin")) ≡ true
unfolding validate_filename is_windows_reserved_name
download_bin-valid true = refl
download_bin-valid false = refl

-- The result is a valid file name exactly where the trimmed name is empty or already valid: the
-- suffix `.bin`, put on where it is neither, never makes an invalid name valid.
pub sanitize_filename-valid :
    (windows : Bool) (name : List ℕ)
    → is_valid (validate_filename windows (sanitize_filename windows name))
      ≡ (is_empty (trimmed name) || is_valid (validate_filename windows (trimmed name)))
unfolding sanitize_filename
sanitize_filename-valid windows name = cases (trimmed name) (trimmed-safe name)
  where
    cases :
        (t : List ℕ)
        → any is_unsafe t ≡ false
        → let safe =
            if is_empty t
            then codes "download.bin"
            else if is_valid (validate_filename windows t)
            then t
            else t ++ codes ".bin" in
          is_valid (validate_filename windows safe)
          ≡ (is_empty t || is_valid (validate_filename windows t))
    cases [] u = download_bin-valid windows
    cases (c ∷ t) u = elim (Bool-cases (is_valid (validate_filename windows (c ∷ t)))) [
      | inl fine ↦ rw fine fine
      | inr bad ↦ rw bad (append_bin-invalid windows c t u bad)
    ]
