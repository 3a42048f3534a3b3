-- ===== src/Storage/Path/Accepted.antt =====
-- Which paths the validators of crates/storage/src/path.rs accept, said of the pieces between the
-- slashes and without the components.
use open_download_manager.Prelude.{
  ℕ, ◌≡◌, refl, sym, ap, subst, ◌∙◌, inl, inr, Bool, true, false, List, [], ◌∷◌, arith, ltb, ◌==◌,
  any, all, ◌&&◌, ◌||◌, not, if◌then◌else◌, Bool-cases, Option, none, some,
}
use open_download_manager.Core.Error.{is_ok, ◌>>=◌}
use open_download_manager.Core.Libs.{PathBuf}
use open_download_manager.Storage.Chars.{codes, list_eq, list_eq→eq, contains, is_empty}
use open_download_manager.Storage.Filename.{validate_filename, is_windows_reserved_name}
use open_download_manager.Storage.Path.{
  Component, root_dir, cur_dir, parent_dir, normal, split, push_head, normals, relative, components,
  reject_control_bytes, check_components, need, check_path, validate_path, invalid,
}

abbrev pub has_control : List ℕ → Bool
has_control s = any (λ b. ltb b 0x20 || b == 0x7f) s

-- A piece that is allowed, and one that names something.
abbrev pub is_plain : List ℕ → Bool
is_plain s = not (list_eq s (codes "..")) && not (has_control s)

abbrev pub is_named : List ℕ → Bool
is_named s = not (is_empty s || list_eq s (codes ".") || list_eq s (codes ".."))

abbrev pub is_absolute : PathBuf → Bool
is_absolute [] = false
is_absolute (c ∷ path) = c == b'/'

abbrev is_plain_component : Component → Bool
is_plain_component parent_dir = false
is_plain_component (normal s) = not (has_control s)
is_plain_component _ = true

abbrev is_normal : Component → Bool
is_normal (normal s) = true
is_normal _ = false

abbrev is_root : Component → Bool
is_root root_dir = true
is_root _ = false

check_components-ok :
    (absolute_allowed seen : Bool) (cs : List Component)
    → is_ok (check_components absolute_allowed seen cs >>= need) ≡ (
        all is_plain_component cs
        && (seen || any is_normal cs)
        && (absolute_allowed || not (any is_root cs)))
unfolding check_components reject_control_bytes
check_components-ok true seen [] = ground arith
check_components-ok false seen [] = ground arith
check_components-ok true seen (root_dir ∷ cs) = check_components-ok true seen cs
check_components-ok false seen (root_dir ∷ cs) = ground arith
check_components-ok true seen (cur_dir ∷ cs) = check_components-ok true seen cs
check_components-ok false seen (cur_dir ∷ cs) = check_components-ok false seen cs
check_components-ok true seen (parent_dir ∷ cs) = refl
check_components-ok false seen (parent_dir ∷ cs) = refl
check_components-ok true seen (normal s ∷ cs) = ground (arith, check_components-ok true true cs)
check_components-ok false seen (normal s ∷ cs) = ground (arith, check_components-ok false true cs)

plain_of_skipped : (s : List ℕ) → (is_empty s || list_eq s (codes ".")) ≡ true → is_plain s ≡ true
plain_of_skipped [] h = refl
plain_of_skipped (c ∷ s) h =
    subst (λ t. is_plain t ≡ true) (sym (list_eq→eq (c ∷ s) (codes ".") h)) refl

normals-pieces :
    (pieces : List (List ℕ))
    → (all is_plain_component (normals pieces) ≡ all is_plain pieces)
      × (any is_normal (normals pieces) ≡ any is_named pieces)
      × (any is_root (normals pieces) ≡ false)
unfolding normals
normals-pieces [] = (refl, refl, refl)
normals-pieces (s ∷ rest) =
    let (plain, named, rootless) = normals-pieces rest in
    elim (Bool-cases (is_empty s || list_eq s (codes "."))) [
      | inl skipped ↦ rw skipped (rw (plain_of_skipped s skipped) (plain, named, rootless))
      | inr piece ↦ elim (Bool-cases (list_eq s (codes ".."))) [
        | inl dots ↦ rw (piece, dots) (refl, named, rootless)
        | inr name ↦ rw (piece, name) (ap (λ b. not (has_control s) && b) plain, refl, rootless)
      ]
    ]

-- What the components show of the pieces they come from.
Shows : Bool → List Component → List (List ℕ) → Type 0
Shows rooted cs pieces =
    (all is_plain_component cs ≡ all is_plain pieces)
    × (any is_normal cs ≡ any is_named pieces)
    × (any is_root cs ≡ rooted)

if_elim :
    (P : List Component → Type 0) (b : Bool) (x y : List Component)
    → (b ≡ true → P x)
    → (b ≡ false → P y)
    → P (if b then x else y)
if_elim P true x y then_case else_case = then_case refl
if_elim P false x y then_case else_case = else_case refl

Shows-intro : (pieces : List (List ℕ)) → Shows false (normals pieces) pieces
unfolding Shows
Shows-intro pieces = normals-pieces pieces

dot-Shows :
    (s : List ℕ) (rest : List (List ℕ))
    → s ≡ codes "."
    → Shows false (cur_dir ∷ normals rest) (s ∷ rest)
unfolding Shows
dot-Shows s rest e =
    let (plain, named, rootless) = normals-pieces rest in rw e (plain, named, rootless)

root-Shows : (pieces : List (List ℕ)) → Shows true (root_dir ∷ normals pieces) ([] ∷ pieces)
unfolding Shows
root-Shows pieces = let (plain, named, rootless) = normals-pieces pieces in (plain, named, refl)

relative-pieces : (pieces : List (List ℕ)) → Shows false (relative pieces) pieces
unfolding relative
relative-pieces [] = Shows-intro []
relative-pieces (s ∷ rest) =
    if_elim (λ cs. Shows false cs (s ∷ rest)) (list_eq s (codes ".")) (cur_dir ∷ normals rest)
      (normals (s ∷ rest)) (λ dot. dot-Shows s rest (list_eq→eq s (codes ".") dot))
      (λ _. Shows-intro (s ∷ rest))

empty-Shows : Shows false [] ([] ∷ [])
unfolding Shows
empty-Shows = (refl, refl, refl)

split-empty : split [] ≡ [] ∷ []
unfolding split
split-empty = refl

split-head :
    (c : ℕ) (path : PathBuf) → (c == b'/') ≡ false → split (c ∷ path) ≡ push_head c (split path)
unfolding split
split-head c path other = rw other refl

components-pieces : (p : PathBuf) → Shows (is_absolute p) (components p) (split p)
unfolding components
components-pieces [] = subst (Shows false []) (sym split-empty) empty-Shows
components-pieces (c ∷ path) = elim (Bool-cases (c == b'/')) [
  | inl slash ↦ rw slash (root-Shows (split path))
  | inr other ↦
      let Both : List (List ℕ) → Type 0 = λ t. Shows false (relative t) t in
      rw other (subst Both (split-head c path other) (relative-pieces (split (c ∷ path))))
]

-- A path that both validators of paths allow: no NUL byte, no piece `..` between its slashes, no
-- control byte in a piece, and a piece that names something.
abbrev pub is_safe : PathBuf → Bool
is_safe path = not (contains 0 path) && (all is_plain (split path) && any is_named (split path))

checked-ok :
    (absolute_allowed : Bool) (path : PathBuf)
    → is_ok (check_components absolute_allowed false (components path) >>= need) ≡ (
        all is_plain (split path)
        && any is_named (split path)
        && (absolute_allowed || not (is_absolute path)))
unfolding Shows
checked-ok absolute_allowed path =
    let (plain, named, rooted) = components-pieces path in
    check_components-ok absolute_allowed false (components path) ∙ rw (plain, named, rooted) refl

and_assoc3 : (a b c : Bool) → (a && b && c) ≡ ((a && b) && c)
and_assoc3 a b c = ground arith

empty-refused :
    (absolute_allowed : Bool)
    → is_ok (check_path absolute_allowed [])
      ≡ (is_safe [] && (absolute_allowed || not (is_absolute [])))
unfolding check_path split invalid
empty-refused absolute_allowed = refl

pub check_path-ok :
    (absolute_allowed : Bool) (path : PathBuf)
    → is_ok (check_path absolute_allowed path)
      ≡ (is_safe path && (absolute_allowed || not (is_absolute path)))
unfolding check_path invalid
check_path-ok absolute_allowed [] = empty-refused absolute_allowed
check_path-ok absolute_allowed (c ∷ path) = elim (Bool-cases (contains 0 (c ∷ path))) [
  | inl nul ↦ rw nul refl
  | inr clean ↦ rw clean (
      checked-ok absolute_allowed (c ∷ path)
      ∙ and_assoc3 (all is_plain (split (c ∷ path))) (any is_named (split (c ∷ path)))
          (absolute_allowed || not (is_absolute (c ∷ path))))
]

-- `validate_path` accepts a path exactly when it has no NUL byte, does not begin with a slash, and
-- its pieces between slashes are such that none is `..`, none has a control byte and at least one
-- is a name, that is neither empty nor `.` nor `..`.
pub validate_path-ok :
    (path : PathBuf) → is_ok (validate_path path) ≡ (is_safe path && not (is_absolute path))
unfolding validate_path
validate_path-ok path = check_path-ok false path

-- The final component, decoded, that `validate_output_path` wants: a valid file name that Windows
-- does not reserve.
abbrev pub names_file : Bool → Option (List ℕ) → Bool
names_file windows none = false
names_file windows (some name) =
    is_ok (validate_filename windows name) && not (is_windows_reserved_name name)
