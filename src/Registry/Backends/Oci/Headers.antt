-- ===== src/Registry/Backends/Oci/Headers.antt =====
-- What `getBearerToken` and `parseNextLink` of registry/oci.go read in a header.
use dewy.Common.Trim.{trim, trim_space}
use dewy.Common.{
  ◌-◌, ◌&&◌, Option, none, some, List, [], ◌∷◌, ◌==◌, if◌then◌else◌, length, take, drop, Text,
  codes, text_eq, has_prefix, has_suffix, trim_prefix, split_once, contains, split,
}

-- The key and the value of one part of the header, without the quotes.
unfoldable pub parameter_of : Text → Option (Text × Text)
parameter_of part = elim (split_once (codes "=") (trim_space part)) [
  | none ↦ none
  | some (key, value) ↦ some (key, trim (λ c. c == b'"') value)
]

-- `params[key]`: the last of the parts with the key.
unfoldable pub value_of : Text → List Text → Option Text
value_of key [] = none
value_of key (part ∷ parts) = elim (value_of key parts) [
  | some later ↦ some later
  | none ↦ elim (parameter_of part) [
    | none ↦ none
    | some (k, value) ↦ if text_eq k key then some value else none
  ]
]

abbrev pub bearer : Text
bearer = codes "Bearer "

-- The parts of the WWW-Authenticate header; `none` for another scheme.
unfoldable pub auth_parts : Text → Option (List Text)
auth_parts auth_header =
    if has_prefix auth_header bearer
    then some (split (trim_prefix auth_header bearer) b',')
    else none

-- The text between the angle brackets of a link, if it is the next one.
unfoldable pub next_url_of : List Text → Option Text
next_url_of [] = none
next_url_of (url ∷ []) = none
next_url_of (url ∷ rel ∷ rest) =
    let url_part = trim_space url in
    if contains (trim_space rel) (codes "rel=\"next\"")
      && has_prefix url_part (codes "<")
      && has_suffix url_part (codes ">")
    then some (drop 1 (take (length url_part - 1) url_part))
    else none

unfoldable pub first_next : List Text → Option Text
first_next [] = none
first_next (link ∷ links) = elim (next_url_of (split (trim_space link) b';')) [
  | none ↦ first_next links
  | some url ↦ some url
]
