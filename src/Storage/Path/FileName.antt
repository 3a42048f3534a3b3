-- ===== src/Storage/Path/FileName.antt =====
-- The final component of a path that is put together from a directory and a name.
use mathlib.Core.List.{append_assoc}
use open_download_manager.Prelude.{
  ℕ, ◌≡◌, refl, sym, ap, subst, ◌∙◌, inl, inr, ==→eq, Bool, true, false, List, [], ◌∷◌, ◌++◌, arith,
  ◌==◌, all, ◌||◌, not, if◌then◌else◌, Bool-cases, Option, none, some,
}
use open_download_manager.Core.Libs.{PathBuf}
use open_download_manager.Storage.Chars.{codes, list_eq, contains, is_empty}
use open_download_manager.Storage.Path.{
  Component, root_dir, cur_dir, parent_dir, normal, split, push_head, normals, relative, components,
  last_normal, file_name,
}
use open_download_manager.Storage.Path.Parent.{join, ends_in_slash}
use open_download_manager.Storage.Path.Accepted.{is_named}

abbrev pub IsName : List ℕ → Type 0
IsName n = (is_named n ≡ true) × (contains b'/' n ≡ false)

-- The pieces of a text without slashes, and of one with a slash before such a text.
split-name : (n : List ℕ) → contains b'/' n ≡ false → split n ≡ n ∷ []
unfolding split
split-name [] h = refl
split-name (c ∷ n) h = let (first, rest) = parts in rw (first, split-name n rest) refl
  where
    parts : ((c == b'/') ≡ false) × (contains b'/' n ≡ false)
    parts = ground arith

-- There is always a first piece.
split-cons : (a : List ℕ) → (s : List ℕ) × (rest : List (List ℕ)) × (split a ≡ s ∷ rest)
unfolding split
split-cons [] = ([], [], refl)
split-cons (c ∷ a) =
    let (s, rest, e) = split-cons a in
    elim (Bool-cases (c == b'/')) [
      | inl slash ↦ ([], split a, rw slash refl)
      | inr other ↦ (c ∷ s, rest, rw (other, e) refl)
    ]

split-slash : (a n : List ℕ) → contains b'/' n ≡ false → split (a ++ b'/' ∷ n) ≡ split a ++ n ∷ []
unfolding split
split-slash [] n h = ap (◌∷◌ []) (split-name n h)
split-slash (c ∷ a) n h =
    let (s, rest, e) = split-cons a in
    elim (Bool-cases (c == b'/')) [
      | inl slash ↦ rw (slash, split-slash a n h) refl
      | inr other ↦ rw (other, split-slash a n h, e) refl
    ]

-- Components that end in a name.
abbrev EndsIn : List ℕ → List Component → Type 0
EndsIn n cs = (front : List Component) × (cs ≡ front ++ normal n ∷ [])

EndsIn-cons : {n : List ℕ} (c : Component) {cs : List Component} → EndsIn n cs → EndsIn n (c ∷ cs)
EndsIn-cons c (front, e) = (c ∷ front, ap (◌∷◌ c) e)

named_flags :
    (n : List ℕ)
    → is_named n ≡ true
    → ((is_empty n || list_eq n (codes ".")) ≡ false)
      × (list_eq n (codes "..") ≡ false)
      × (list_eq n (codes ".") ≡ false)
named_flags n h = ground (arith, h)

normals-EndsIn :
    (ps : List (List ℕ)) (n : List ℕ) → is_named n ≡ true → EndsIn n (normals (ps ++ n ∷ []))
unfolding normals
normals-EndsIn [] n h = let (skip, dots, _) = named_flags n h in ([], rw (skip, dots) refl)
normals-EndsIn (s ∷ ps) n h =
    let ih = normals-EndsIn ps n h in
    elim (Bool-cases (is_empty s || list_eq s (codes "."))) [
      | inl skipped ↦ subst (EndsIn n) (rw skipped refl) ih
      | inr piece ↦ elim (Bool-cases (list_eq s (codes ".."))) [
        | inl dots ↦ subst (EndsIn n) (rw (piece, dots) refl) (EndsIn-cons parent_dir ih)
        | inr other ↦ subst (EndsIn n) (rw (piece, other) refl) (EndsIn-cons (normal s) ih)
      ]
    ]

if-EndsIn :
    (n : List ℕ) (b : Bool) (xs ys : List Component)
    → EndsIn n xs
    → EndsIn n ys
    → EndsIn n (if b then xs else ys)
if-EndsIn n true xs ys x y = x
if-EndsIn n false xs ys x y = y

relative-EndsIn :
    (ps : List (List ℕ)) (n : List ℕ) → is_named n ≡ true → EndsIn n (relative (ps ++ n ∷ []))
unfolding relative
relative-EndsIn [] n h =
    let (skip, dots, dot) = named_flags n h in
    let full : (is_empty n || false) ≡ false = ground (arith, skip) in
    ([], rw (dot, full, dots) refl)
relative-EndsIn (s ∷ ps) n h =
    if-EndsIn n (list_eq s (codes ".")) (cur_dir ∷ normals (ps ++ n ∷ []))
      (normals (s ∷ ps ++ n ∷ [])) (EndsIn-cons cur_dir (normals-EndsIn ps n h))
      (normals-EndsIn (s ∷ ps) n h)

components-EndsIn : (a n : List ℕ) → IsName n → EndsIn n (components (a ++ b'/' ∷ n))
unfolding components
components-EndsIn [] n (named, plain) =
    EndsIn-cons root_dir
      (subst (λ ps. EndsIn n (normals ps)) (sym (split-name n plain)) (normals-EndsIn [] n named))
components-EndsIn (c ∷ a) n (named, plain) =
    if-EndsIn n (c == b'/') (root_dir ∷ normals (split (a ++ b'/' ∷ n)))
      (relative (split (c ∷ a ++ b'/' ∷ n)))
      (EndsIn-cons root_dir (
        subst (λ ps. EndsIn n (normals ps)) (sym (split-slash a n plain))
          (normals-EndsIn (split a) n named)))
      (subst (λ ps. EndsIn n (relative ps)) (sym (split-slash (c ∷ a) n plain))
        (relative-EndsIn (split (c ∷ a)) n named))

components-name : (n : List ℕ) → IsName n → EndsIn n (components n)
unfolding components
components-name [] (named, plain) = absurd (ground (arith, named))
components-name (c ∷ n) (named, plain) =
    let relative_ends : EndsIn (c ∷ n) (relative (split (c ∷ n))) =
      subst (λ ps. EndsIn (c ∷ n) (relative ps)) (sym (split-name (c ∷ n) plain))
        (relative-EndsIn [] (c ∷ n) named) in
    let first : (c == b'/') ≡ false = ground (arith, plain) in
    subst (EndsIn (c ∷ n)) (rw first refl) relative_ends

last_normal-EndsIn :
    (found : Option (List ℕ)) (front : List Component) (n : List ℕ)
    → last_normal found (front ++ normal n ∷ []) ≡ some n
unfolding last_normal
last_normal-EndsIn found [] n = refl
last_normal-EndsIn found (normal s ∷ front) n = last_normal-EndsIn (some s) front n
last_normal-EndsIn found (root_dir ∷ front) n = last_normal-EndsIn none front n
last_normal-EndsIn found (cur_dir ∷ front) n = last_normal-EndsIn none front n
last_normal-EndsIn found (parent_dir ∷ front) n = last_normal-EndsIn none front n

file_name-EndsIn : (p n : List ℕ) → EndsIn n (components p) → file_name p ≡ some n
unfolding file_name
file_name-EndsIn p n (front, e) = ap (last_normal none) e ∙ last_normal-EndsIn none front n

ends_in_slash-front :
    (dir : PathBuf) → ends_in_slash dir ≡ true → (front : PathBuf) × (dir ≡ front ++ b'/' ∷ [])
ends_in_slash-front [] h = cc
ends_in_slash-front (c ∷ []) h = ([], rw (==→eq h) refl)
ends_in_slash-front (c ∷ d ∷ rest) h =
    let (front, e) = ends_in_slash-front (d ∷ rest) h in (c ∷ front, ap (◌∷◌ c) e)

pub file_name-name : (n : PathBuf) → IsName n → file_name n ≡ some n
file_name-name n v = file_name-EndsIn n n (components-name n v)

-- The final component of a directory joined with a name is the name.
pub file_name-join : (dir n : PathBuf) → IsName n → file_name (join dir n) ≡ some n
unfolding join
file_name-join dir [] (named, plain) = absurd (ground (arith, named))
file_name-join dir (c ∷ n) v = rw (first v.1) (go dir)
  where
    first : contains b'/' (c ∷ n) ≡ false → (c == b'/') ≡ false
    first h = ground (arith, h)

    go :
        (dir : PathBuf)
        → file_name
            (if is_empty dir || ends_in_slash dir then dir ++ c ∷ n else dir ++ b'/' ∷ c ∷ n)
          ≡ some (c ∷ n)
    go [] = file_name-EndsIn (c ∷ n) (c ∷ n) (components-name (c ∷ n) v)
    go (d ∷ dir) = elim (Bool-cases (ends_in_slash (d ∷ dir))) [
      | inr open_end ↦ rw open_end (
          file_name-EndsIn (d ∷ dir ++ b'/' ∷ c ∷ n) (c ∷ n)
            (components-EndsIn (d ∷ dir) (c ∷ n) v))
      | inl slash ↦
          let (front, e) = ends_in_slash-front (d ∷ dir) slash in
          let same : front ++ b'/' ∷ c ∷ n ≡ d ∷ dir ++ c ∷ n =
            sym (ap (λ l. l ++ c ∷ n) e ∙ append_assoc front (b'/' ∷ []) (c ∷ n)) in
          rw slash (
            subst (λ l. file_name l ≡ some (c ∷ n)) same
              (file_name-EndsIn (front ++ b'/' ∷ c ∷ n) (c ∷ n)
                (components-EndsIn front (c ∷ n) v)))
    ]

-- No slash stands in a final component.
abbrev is_plain_piece : List ℕ → Bool
is_plain_piece s = not (contains b'/' s)

abbrev is_slash_free : Component → Bool
is_slash_free (normal s) = not (contains b'/' s)
is_slash_free _ = true

push_head-plain :
    (c : ℕ) (ps : List (List ℕ))
    → (c == b'/') ≡ false
    → all is_plain_piece ps ≡ true
    → all is_plain_piece (push_head c ps) ≡ true
push_head-plain c [] h k = rw h refl
push_head-plain c (s ∷ ps) h k = ground (arith, h, k)

split-plain : (p : List ℕ) → all is_plain_piece (split p) ≡ true
unfolding split
split-plain [] = refl
split-plain (c ∷ p) = elim (Bool-cases (c == b'/')) [
  | inl slash ↦ rw slash (split-plain p)
  | inr other ↦ rw other (push_head-plain c (split p) other (split-plain p))
]

normals-plain :
    (ps : List (List ℕ)) → all is_plain_piece ps ≡ true → all is_slash_free (normals ps) ≡ true
unfolding normals
normals-plain [] h = refl
normals-plain (s ∷ ps) h = ground (arith, normals-plain ps, h)

relative-plain :
    (ps : List (List ℕ)) → all is_plain_piece ps ≡ true → all is_slash_free (relative ps) ≡ true
unfolding relative
relative-plain [] h = refl
relative-plain (s ∷ ps) h = go (list_eq s (codes "."))
  where
    rest_plain : all is_plain_piece ps ≡ true
    rest_plain = ground (arith, h)

    go :
        (b : Bool) → all is_slash_free (if b then cur_dir ∷ normals ps else normals (s ∷ ps)) ≡ true
    go true = normals-plain ps rest_plain
    go false = normals-plain (s ∷ ps) h

components-plain : (p : PathBuf) → all is_slash_free (components p) ≡ true
unfolding components
components-plain [] = refl
components-plain (c ∷ p) = go (c == b'/')
  where
    go :
        (b : Bool)
        → all is_slash_free (if b then root_dir ∷ normals (split p) else relative (split (c ∷ p)))
          ≡ true
    go true = normals-plain (split p) (split-plain p)
    go false = relative-plain (split (c ∷ p)) (split-plain (c ∷ p))

last_normal-plain :
    (found : Option (List ℕ)) (cs : List Component) (n : List ℕ)
    → ((m : List ℕ) → found ≡ some m → contains b'/' m ≡ false)
    → all is_slash_free cs ≡ true
    → last_normal found cs ≡ some n
    → contains b'/' n ≡ false
unfolding last_normal
last_normal-plain found [] n h k e = h n e
last_normal-plain found (normal s ∷ cs) n h k e =
    last_normal-plain (some s) cs n (λ m q. ground (arith, k, q)) (ground (arith, k)) e
last_normal-plain found (root_dir ∷ cs) n h k e = last_normal-plain none cs n (λ m q. cc) k e
last_normal-plain found (cur_dir ∷ cs) n h k e = last_normal-plain none cs n (λ m q. cc) k e
last_normal-plain found (parent_dir ∷ cs) n h k e = last_normal-plain none cs n (λ m q. cc) k e

pub file_name-plain : (p n : PathBuf) → file_name p ≡ some n → contains b'/' n ≡ false
unfolding file_name
file_name-plain p n e = last_normal-plain none (components p) n (λ m q. cc) (components-plain p) e
