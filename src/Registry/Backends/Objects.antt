-- ===== src/Registry/Backends/Objects.antt =====
-- registry/s3.go and registry/gs.go: a bucket in which each directory under a prefix is a version. The
-- clients of the two services are parameters: what they list, page by page.
pub mod Answers
use dewy.Common.{
  ℕ, zero, suc, ◌+◌, ◌-◌, ◌*◌, ◌/◌, ◌%◌, ◌^◌, ◌≤◌, ◌<◌, Ordering, lt, eq, gt, ◌≡◌, refl, sym, ap,
  ◌∙◌, ◌≢◌, ◌↔◌, ◌⊎◌, inl, inr, Bool, true, false, not, ◌&&◌, ◌||◌, Option, none, some, List, [],
  ◌∷◌, ◌++◌, append_assoc, append-nil, map, arith, ltb, leb, ◌==◌, if◌then◌else◌, Bool-cases,
  Option-cases, &&-true, ltb→lt, lt→ltb, eq_of_==, ==-refl, length, get_elem?, take, drop,
  length-append, take-append-drop, length-drop, any_of, all_of, All, All-append, All-map,
  All-weaken, All-flat_map, In, In-append_left, In-append_right, In-append-cases, All-at, Text,
  codes, text_eq, has_prefix, has_suffix, trim_prefix, split_once, contains, to_lower, split,
  eq_of_text_eq, text_eq_refl, text_eq_iff, has_prefix-drop, has_prefix-append, ℤ, pos, negsuc,
  max_int, pos_part, neg_part, int_sub, sign, int_cmp, ◌>>=◌, ◌>>◌, Returns, Returns-some,
  Returns-bind, bind_of_some,
}
use dewy.Lifecycle.Outside.{
  CurrentResponse, CurrentAnswer, found, artifact_not_found, current_failed,
}
use dewy.Registry.Backends.Choice.{choose_artifact}
use dewy.Registry.Backends.{
  Version, find_latest_version, version_string, get_build_metadata, remove_trailing_slash,
}

-- `S3` and `GS`: the fields that both have.
pub record Bucket : Type 0 where
  pub prefix : Text
  pub artifact : Text
  pub pre_release : Bool
  pub calver : Text
  pub arch : Text
  pub os : Text

-- An object with its key.
pub record Object : Type 0 where
  pub key : Text

-- The pages of a listing, up to one that cannot be read.
unfoldable pub list_pages : {A : Type 0} → List (Option (List A)) → List A → Option (List A)
list_pages [] objects = some objects
list_pages (none ∷ pages) objects = none
list_pages (some page ∷ pages) objects = list_pages pages (objects ++ page)

-- `extractFilenameFromObjectKey`, `extractFilenameFromObjectName`
unfoldable pub extract_filename : Text → Text → Text
extract_filename key prefix = trim_prefix (remove_trailing_slash key) prefix

unfoldable pub filenames : Text → List Text → List Text
filenames prefix [] = []
filenames prefix (key ∷ keys) = extract_filename key prefix ∷ filenames prefix keys

-- `objectMap[name]`: the last of the directories with the name.
unfoldable pub directory_of : Text → Text → List Text → Option Text
directory_of prefix name [] = none
directory_of prefix name (dir ∷ dirs) = elim (directory_of prefix name dirs) [
  | none ↦ if text_eq (extract_filename dir prefix) name then some dir else none
  | some later ↦ some later
]

-- What `LatestVersion` returns; a directory that is not in the map would be nil.
pub data LatestVersion : Type 0 where
  version_failed nil_directory : LatestVersion
  latest_version : Text → Version → LatestVersion

unfoldable pub directory_named : Text → List Text → Option (Version × Text) → LatestVersion
directory_named prefix dirs none = version_failed
directory_named prefix dirs (some (v, name)) = elim (directory_of prefix name dirs) [
  | none ↦ nil_directory
  | some dir ↦ latest_version dir v
]

unfoldable pub latest_version_of : Bucket → Option (List Text) → LatestVersion
latest_version_of b none = version_failed
latest_version_of b (some dirs) =
    directory_named b.prefix dirs
      (find_latest_version b.calver b.pre_release (filenames b.prefix dirs))

unfoldable pub keys_of : List Object → List Text
keys_of [] = []
keys_of (o ∷ os) = o.key ∷ keys_of os

module _ (b : Bucket) (now : Text) (build_artifact_url : Text → Text) (age : Text → Option ℕ) where
  -- `age` is `getVersionDirectoryCreatedAt`, of which an error is passed over.
  unfoldable pub answer_with : Text → Version → Option Text → CurrentAnswer
  answer_with dir v none = artifact_not_found (age dir)
  answer_with dir v (some name) = found (record {
    id = now;
    tag = version_string v;
    artifact_url = build_artifact_url (dir ++ name);
    slot = get_build_metadata v;
  })

  unfoldable pub answer_in : Text → Version → Option (List Object) → CurrentAnswer
  answer_in dir v none = current_failed
  answer_in dir v (some objects) =
      answer_with dir v (choose_artifact b.artifact b.arch b.os (filenames dir (keys_of objects)))

  -- `Current`; `none` where it would use a directory that is nil.
  unfoldable pub current_in : LatestVersion → (Text → Option (List Object)) → Option CurrentAnswer
  current_in version_failed list_objects = some current_failed
  current_in nil_directory list_objects = none
  current_in (latest_version dir v) list_objects = some (answer_in dir v (list_objects dir))
