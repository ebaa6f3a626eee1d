-- ===== src/Cache/Paths.antt =====
-- What cache/file.go uses of path/filepath, for paths with the separator /, and `validateKeyPath`.
pub mod Inside
use dewy.Common.{
  ℕ, Bool, true, false, ◌&&◌, ◌||◌, not, Option, none, some, List, [], ◌∷◌, ◌++◌, ◌==◌,
  if◌then◌else◌, Text, codes, text_eq, has_prefix, split,
}

abbrev pub dot_dot : Text
dot_dot = codes ".."

unfoldable pub is_rooted : Text → Bool
is_rooted [] = false
is_rooted (c ∷ p) = c == b'/'

-- An element .. takes the element before it away, where there is one that is not .. itself. It stays
-- in a path that does not begin at the root.
unfoldable pub up : Bool → List Text → List Text
unfolding text_eq
up rooted [] = if rooted then [] else (dot_dot ∷ [])
up rooted (e ∷ stack) = if text_eq e dot_dot then dot_dot ∷ e ∷ stack else stack

unfoldable pub push : Bool → Text → List Text → List Text
unfolding text_eq up
push rooted e stack =
    if text_eq e [] || text_eq e (codes ".")
    then stack
    else (if text_eq e dot_dot then up rooted stack else e ∷ stack)

-- The elements of a path that is read from left to right, the last one first.
unfoldable pub walk : Bool → List Text → List Text → List Text
unfolding push
walk rooted [] stack = stack
walk rooted (e ∷ es) stack = walk rooted es (push rooted e stack)

unfoldable pub reverse_onto : List Text → List Text → List Text
reverse_onto [] es = es
reverse_onto (e ∷ stack) es = reverse_onto stack (e ∷ es)

-- The elements that are left of a path when it is cleaned.
unfoldable pub elements : Text → List Text
unfolding is_rooted split walk reverse_onto
elements p = reverse_onto (walk (is_rooted p) (split p b'/') []) []

unfoldable pub spell : List Text → Text
spell [] = []
spell (e ∷ es) = b'/' ∷ e ++ spell es

unfoldable pub render : Bool → List Text → Text
unfolding spell
render true [] = codes "/"
render true (e ∷ es) = spell (e ∷ es)
render false [] = codes "."
render false (e ∷ es) = e ++ spell es

-- filepath.Clean(p)
unfoldable pub clean : Text → Text
unfolding is_rooted elements render
clean p = render (is_rooted p) (elements p)

-- filepath.Join(base, key)
unfoldable pub join : Text → Text → Text
unfolding clean
join [] [] = []
join [] (c ∷ key) = clean (c ∷ key)
join (c ∷ base) [] = clean (c ∷ base)
join (c ∷ base) (d ∷ key) = clean ((c ∷ base) ++ b'/' ∷ d ∷ key)

unfoldable pub with_separator : Text → Text
with_separator p = p ++ b'/' ∷ []

-- Whether the path is that of the directory or begins with it.
unfoldable pub is_within : Text → Text → Bool
unfolding clean has_prefix text_eq with_separator
is_within base p =
    has_prefix (with_separator (clean p)) (with_separator (clean base))
    || text_eq (clean p) (clean base)

unfoldable pub validate_key_path : Text → Text → Option Text
unfolding join is_within
validate_key_path base key = let p = join base key in if is_within base p then some p else none
