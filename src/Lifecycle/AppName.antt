-- ===== src/Lifecycle/AppName.antt =====
-- app_name.go: the name under which the containers of this instance are labelled.
use dewy.Common.{none, some, [], if◌then◌else◌, Text, codes, split_once, split}
use dewy.Lifecycle.Keys.{is_empty, last_of, before_query}

abbrev scheme_separator : Text
scheme_separator = codes "://"

-- The last component of a path, up to a query and up to a tag.
unfoldable pub name_of_path : Text → Text
name_of_path path =
    before_query (split (before_query (split (last_of (split path b'/')) b'?')) b':')

unfoldable pub derive_app_name_from_registry : Text → Text
derive_app_name_from_registry registry_url = elim (split_once scheme_separator registry_url) [
  | none ↦ []
  | some (scheme, path) ↦ name_of_path path
]

unfoldable pub app_name : Text → Text → Text
app_name name registry_url =
    if is_empty name then derive_app_name_from_registry registry_url else name
