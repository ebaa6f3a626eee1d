-- ===== src/Lifecycle/Keys.antt =====
-- The keys of the cache: `cachekeyName` of dewy.go, and what lifecycle.go looks up.
use dewy.Common.{
  Bool, true, false, ◌&&◌, Option, none, some, List, [], ◌∷◌, ◌++◌, ◌==◌, if◌then◌else◌, any_of,
  Text, codes, text_eq, split,
}
use dewy.Lifecycle.Outside.{CurrentResponse}

-- currentkeyName
abbrev pub current_key_name : Text
current_key_name = codes "current"

unfoldable pub is_empty : Text → Bool
is_empty [] = true
is_empty (c ∷ s) = false

unfoldable pub trim_slashes : Text → Text
trim_slashes [] = []
trim_slashes (c ∷ s) =
    let rest = trim_slashes s in if is_empty rest && c == b'/' then [] else c ∷ rest

unfoldable pub last_of : List Text → Text
last_of [] = []
last_of (x ∷ []) = x
last_of (x ∷ y ∷ ys) = last_of (y ∷ ys)

-- `filepath.Base`
unfoldable pub base : Text → Text
base s =
    let trimmed = trim_slashes s in
    if is_empty s
    then codes "."
    else if is_empty trimmed
    then codes "/"
    else last_of (split trimmed b'/')

unfoldable pub before_query : List Text → Text
before_query [] = []
before_query (u ∷ us) = u

-- The key of a release: its tag, and the name of its artifact without the query of the URL.
unfoldable pub cache_key_name : CurrentResponse → Text
cache_key_name res = res.tag ++ (codes "--" ++ base (before_query (split res.artifact_url b'?')))

-- The bytes of a read; an error leaves none.
unfoldable pub content_of : Option Text → Text
content_of none = []
content_of (some v) = v

unfoldable pub is_listed : Text → List Text → Bool
is_listed key list = any_of (λ k. text_eq k key) list
