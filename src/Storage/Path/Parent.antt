-- ===== src/Storage/Path/Parent.antt =====
-- `Path::parent` and `Path::join` of the standard library, on a Unix host.
use open_download_manager.Prelude.{
  ℕ, Bool, true, false, List, [], ◌∷◌, ◌++◌, Option, none, some, ◌==◌, ◌||◌, if◌then◌else◌, ◌≡◌,
  refl,
}
use open_download_manager.Core.Libs.{PathBuf}
use open_download_manager.Storage.Chars.{codes, list_eq, is_empty}
use open_download_manager.Storage.Path.{split}

abbrev cons_unless : Bool → List ℕ → List (List ℕ) → List (List ℕ)
cons_unless true s [] = []
cons_unless skip s rest = s ∷ rest

-- Trailing pieces that are no components are dropped.
trim_right : List (List ℕ) → List (List ℕ)
trim_right [] = []
trim_right (s ∷ rest) = cons_unless (is_empty s || list_eq s (codes ".")) s (trim_right rest)

-- All but the last.
but_last : List (List ℕ) → List (List ℕ)
but_last [] = []
but_last (s ∷ []) = []
but_last (s ∷ t ∷ rest) = s ∷ but_last (t ∷ rest)

join_pieces : List (List ℕ) → List ℕ
join_pieces [] = []
join_pieces (s ∷ []) = s
join_pieces (s ∷ t ∷ rest) = s ++ b'/' ∷ join_pieces (t ∷ rest)

-- The pieces before the last component, if there is one.
above : List (List ℕ) → Option (List (List ℕ))
above [] = none
above (s ∷ rest) = some (trim_right (but_last (s ∷ rest)))

rooted : Option (List (List ℕ)) → Option PathBuf
unfolding join_pieces
rooted none = none
rooted (some pieces) = some (b'/' ∷ join_pieces pieces)

unrooted : Option (List (List ℕ)) → Option PathBuf
unfolding join_pieces
unrooted none = none
unrooted (some pieces) = some (join_pieces pieces)

-- A leading `.` is a component, and stays.
dotted : Option (List (List ℕ)) → Option PathBuf
unfolding join_pieces
dotted none = some []
dotted (some pieces) = some (join_pieces (codes "." ∷ pieces))

relative_parent : List (List ℕ) → Option PathBuf
unfolding above trim_right but_last unrooted dotted
relative_parent [] = none
relative_parent (s ∷ rest) =
    if list_eq s (codes ".")
    then dotted (above (trim_right rest))
    else unrooted (above (trim_right (s ∷ rest)))

unfoldable pub parent : PathBuf → Option PathBuf
unfolding relative_parent rooted above trim_right but_last split
parent [] = none
parent (c ∷ path) =
    if c == b'/'
    then rooted (above (trim_right (split path)))
    else relative_parent (split (c ∷ path))

abbrev pub ends_in_slash : PathBuf → Bool
ends_in_slash [] = false
ends_in_slash (c ∷ []) = c == b'/'
ends_in_slash (c ∷ d ∷ rest) = ends_in_slash (d ∷ rest)

-- With a relative second part, not empty.
unfoldable pub join : PathBuf → PathBuf → PathBuf
join dir [] = if is_empty dir || ends_in_slash dir then dir else dir ++ b'/' ∷ []
join dir (c ∷ name) =
    if c == b'/'
    then c ∷ name
    else if is_empty dir || ends_in_slash dir
    then dir ++ c ∷ name
    else dir ++ b'/' ∷ c ∷ name

parent_test :
    (parent (codes "a//b/c/") ≡ some (codes "a//b"))
    × (parent (codes "/a") ≡ some (codes "/"))
    × (parent (codes "/") ≡ none)
    × (parent (codes "a") ≡ some [])
    × (parent (codes "././a") ≡ some (codes "."))
    × (parent (codes ".") ≡ some [])
    × (parent (codes "a/./b") ≡ some (codes "a"))
    × (parent (codes "a/..") ≡ some (codes "a"))
unfolding parent
parent_test = (refl, refl, refl, refl, refl, refl, refl, refl)
