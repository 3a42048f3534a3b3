-- ===== src/Storage/Chars.antt =====
-- Text as Rust's `str` walks it: a list of code points, with the length of its UTF-8.
use Prim.Native.Char.{code}
use open_download_manager.Prelude.{
  ℕ, ◌+◌, ◌-◌, ◌≡◌, refl, Bool, true, false, List, [], ◌∷◌, ◌++◌, String, arith, ltb, leb, ◌==◌,
  any, ◌&&◌, ◌||◌, if◌then◌else◌,
}

-- The code points of a literal.
abbrev pub codes : String → List ℕ
codes String.[] = []
codes (String.◌∷◌ c s) = code c ∷ codes s

abbrev pub list_eq : List ℕ → List ℕ → Bool
list_eq [] [] = true
list_eq [] (y ∷ ys) = false
list_eq (x ∷ xs) [] = false
list_eq (x ∷ xs) (y ∷ ys) = x == y && list_eq xs ys

abbrev pub contains : ℕ → List ℕ → Bool
contains c s = any (λ x. x == c) s

abbrev pub is_empty : List ℕ → Bool
is_empty [] = true
is_empty (c ∷ s) = false

-- `char::len_utf8` and `str::len`.
abbrev pub len_utf8 : ℕ → ℕ
len_utf8 c = if ltb c 0x80 then 1 else if ltb c 0x800 then 2 else if ltb c 0x10000 then 3 else 4

abbrev pub utf8_len : List ℕ → ℕ
utf8_len [] = 0
utf8_len (c ∷ s) = len_utf8 c + utf8_len s

-- `char::is_control`: the category Cc.
abbrev pub is_control : ℕ → Bool
is_control c = ltb c 0x20 || (leb 0x7f c && leb c 0x9f)

abbrev pub to_ascii_upper : ℕ → ℕ
to_ascii_upper c = if leb b'a' c && leb c b'z' then c - 32 else c

pub utf8_len-append : (s t : List ℕ) → utf8_len (s ++ t) ≡ utf8_len s + utf8_len t
utf8_len-append [] t = omega arith
utf8_len-append (c ∷ s) t = omega (arith, utf8_len-append s t)

pub any-append : (p : ℕ → Bool) (s t : List ℕ) → any p (s ++ t) ≡ (any p s || any p t)
any-append p [] t = refl
any-append p (c ∷ s) t = ground (arith, any-append p s t)

pub list_eq→eq : (s t : List ℕ) → list_eq s t ≡ true → s ≡ t
list_eq→eq [] [] h = refl
list_eq→eq [] (y ∷ ys) h = cc
list_eq→eq (x ∷ xs) [] h = cc
list_eq→eq (x ∷ xs) (y ∷ ys) h = ground (arith, list_eq→eq xs ys)
