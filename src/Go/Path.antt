-- ===== src/Go/Path.antt =====
-- Packages `path` and `path/filepath` for the separator `/`, over the parts of a path.
pub mod Clean
pub mod Last
pub mod Below
use mathlib.Core.Bool.{xor}
use mathlib.Core.List.{reverse, map}
use go_tahu_okf_semantic_mcp.Prelude.{
  ℕ, ◌≡◌, refl, Bool, true, false, ◌&&◌, ◌||◌, Option, none, some, List, [], ◌∷◌, ◌++◌, ◌==◌,
  if◌then◌else◌, Bytes, codes, str_eq,
}
use go_tahu_okf_semantic_mcp.Go.Strings.{has_prefix, trim_right, split, join, is_empty}

abbrev pub slash : ℕ
slash = b'/'

abbrev pub dot : Bytes
dot = b'.' ∷ []

abbrev pub dot_dot : Bytes
dot_dot = b'.' ∷ b'.' ∷ []

-- filepath.IsAbs
unfoldable pub is_abs : Bytes → Bool
is_abs p = has_prefix p (slash ∷ [])

-- The effect of `..` on the parts so far, the last one first.
unfoldable pub ascend : Bool → List Bytes → List Bytes
ascend true [] = []
ascend false [] = dot_dot ∷ []
ascend rooted (t ∷ ts) = if str_eq t dot_dot then dot_dot ∷ t ∷ ts else ts

-- One part of the path.
unfoldable pub enter : Bool → Bytes → List Bytes → List Bytes
unfolding ascend
enter rooted p ts =
    if is_empty p || str_eq p dot then ts else if str_eq p dot_dot then ascend rooted ts else p ∷ ts

-- The parts that a path leaves, the last one first.
unfoldable pub walk : Bool → List Bytes → List Bytes → List Bytes
walk rooted [] ts = ts
walk rooted (p ∷ ps) ts = walk rooted ps (enter rooted p ts)

-- A path of the given parts, the last one first.
unfoldable pub print : Bool → List Bytes → Bytes
print true ts = slash ∷ join (reverse ts) slash
print false [] = dot
print false (t ∷ ts) = join (reverse (t ∷ ts)) slash

-- filepath.Clean, path.Clean
unfoldable pub clean : Bytes → Bytes
unfolding walk print enter
clean p = print (is_abs p) (walk (is_abs p) (split p slash) [])

-- filepath.Join of two elements: empty elements in front are ignored.
unfoldable pub join_path : Bytes → Bytes → Bytes
join_path a b = if is_empty a then (if is_empty b then [] else clean b) else clean (a ++ slash ∷ b)

abbrev last_or : Bytes → List Bytes → Bytes
last_or d [] = d
last_or d (p ∷ ps) = last_or p ps

-- filepath.Base, path.Base: the last part, trailing slashes ignored.
unfoldable pub base : Bytes → Bytes
base [] = dot
base (c ∷ p) =
    let q = trim_right (c ∷ p) slash in
    if is_empty q then slash ∷ [] else last_or [] (split q slash)

-- All parts but the last.
unfoldable pub but_last : List Bytes → List Bytes
but_last [] = []
but_last (p ∷ []) = []
but_last (p ∷ q ∷ ps) = p ∷ but_last (q ∷ ps)

-- filepath.Dir, path.Dir: the cleaned text up to the last slash, which stays in it.
unfoldable pub dir : Bytes → Bytes
unfolding but_last
dir p = clean (up_to (but_last (split p slash)))
  where
    up_to : List Bytes → Bytes
    up_to [] = []
    up_to (q ∷ qs) = join (q ∷ qs) slash ++ slash ∷ []

base_tests :
    (base (codes "a/b/index.md") ≡ codes "index.md")
    × (base [] ≡ dot)
    × (base (codes "//") ≡ slash ∷ [])
    × (base (codes "a/b/") ≡ codes "b")
unfolding base trim_right split str_eq
base_tests = (refl, refl, refl, refl)

dir_tests :
    (dir (codes "a/b/c.md") ≡ codes "a/b")
    × (dir (codes "c.md") ≡ dot)
    × (dir (codes "/c.md") ≡ codes "/")
    × (dir (codes "a/../b//c") ≡ codes "b")
unfolding dir clean is_abs split join str_eq ascend has_prefix
dir_tests = (refl, refl, refl, refl)

clean_tests :
    (clean [] ≡ dot)
    × (clean (codes "/../a/./b//") ≡ codes "/a/b")
    × (clean (codes "../../a/..") ≡ codes "../..")
    × (join_path (codes "/r") (codes "../x") ≡ codes "/x")
unfolding join_path clean is_abs split join str_eq ascend has_prefix
clean_tests = (refl, refl, refl, refl)

-- filepath.Ext: from the last dot of the last part.
ext_from : Bytes → Bytes → Bytes
ext_from [] out = []
ext_from (c ∷ p) out =
    let more = ext_from p (c ∷ out) in
    if c == slash then [] else if c == b'.' then c ∷ out else more

unfoldable pub ext : Bytes → Bytes
unfolding ext_from
ext p = ext_from (reverse p) []

ext_tests : (ext (codes "a.b/c.md") ≡ codes ".md") × (ext (codes "a.md/c") ≡ [])
unfolding ext
ext_tests = (refl, refl)

-- The parts of a cleaned path.
unfoldable pub parts : Bytes → List Bytes
parts p = reverse (walk (is_abs p) (split p slash) [])

-- What is left of two lists of parts behind the parts that they begin with together.
unfoldable pub strip_common : List Bytes → List Bytes → List Bytes × List Bytes
strip_common [] ts = ([], ts)
strip_common (b ∷ bs) [] = (b ∷ bs, [])
strip_common (b ∷ bs) (t ∷ ts) =
    let rest = strip_common bs ts in if str_eq b t then rest else (b ∷ bs, t ∷ ts)

unfoldable pub climb : List Bytes × List Bytes → Option Bytes
climb ([], []) = some dot
climb ([], t ∷ ts) = some (join (t ∷ ts) slash)
climb (b ∷ bs, ts) =
    if str_eq b dot_dot
    then none
    else some (join (map (λ (_ : Bytes). dot_dot) (b ∷ bs) ++ ts) slash)

-- filepath.Rel: `none` is the error.
unfoldable pub rel : Bytes → Bytes → Option Bytes
unfolding parts strip_common climb
rel base targ =
    if xor (is_abs base) (is_abs targ) then none else climb (strip_common (parts base) (parts targ))

rel_tests :
    (rel (codes "/r/a") (codes "/r/a/b/c.md") ≡ some (codes "b/c.md"))
    × (rel (codes "/r/a") (codes "/r/b") ≡ some (codes "../b"))
    × (rel (codes "a") (codes "./a/") ≡ some dot)
unfolding rel is_abs split join str_eq ascend has_prefix walk enter xor
rel_tests = (refl, refl, refl)
