-- ===== src/Registry/Backends/GoogleStorage.antt =====
-- registry/gs.go: the listings of Google Cloud Storage.
use dewy.Common.{
  ℕ, refl, Option, none, some, List, [], ◌∷◌, ◌++◌, if◌then◌else◌, Text, codes, text_eq,
}
use dewy.Lifecycle.Outside.{CurrentAnswer}
use dewy.Registry.Backends.Objects.Answers.{BucketAnswers, current_in-BucketAnswers}
use dewy.Registry.Backends.Objects.{Bucket, Object, latest_version_of, LatestVersion, current_in}

pub record Gs : Type 0 where
  pub bucket : Text
  pub settings : Bucket

-- `storage.ObjectAttrs`: a directory has a prefix, an object has a name.
pub record ObjectAttrs : Type 0 where
  pub name : Text
  pub prefix : Text

unfoldable pub build_artifact_url : Gs → Text → Text
build_artifact_url g name = codes "gs" ++ codes "://" ++ g.bucket ++ codes "/" ++ name

-- `listObjects`: what the iterator gives until it is done, or `none` at an error.
unfoldable pub list_objects : List (Option ObjectAttrs) → List Object → Option (List Object)
list_objects [] objects = some objects
list_objects (none ∷ answers) objects = none
list_objects (some attrs ∷ answers) objects =
    list_objects answers (objects ++ (record { key = attrs.name }) ∷ [])

-- The directories among the answers of the iterator.
unfoldable pub list_directories : List (Option ObjectAttrs) → List Text → Option (List Text)
list_directories [] dirs = some dirs
list_directories (none ∷ answers) dirs = none
list_directories (some attrs ∷ answers) dirs =
    let skipped = list_directories answers dirs in
    let taken = list_directories answers (dirs ++ attrs.prefix ∷ []) in
    if text_eq attrs.prefix [] then skipped else taken

-- `LatestVersion`
unfoldable pub latest_version : Gs → List (Option ObjectAttrs) → LatestVersion
latest_version g answers = latest_version_of g.settings (list_directories answers [])

unfoldable pub current :
    Gs
    → Text
    → (Text → Option ℕ)
    → List (Option ObjectAttrs)
    → (Text → List (Option ObjectAttrs))
    → Option CurrentAnswer
current g now age directory_answers object_answers =
    current_in g.settings now (build_artifact_url g) age (latest_version g directory_answers)
      (λ dir. list_objects (object_answers dir) [])

-- The same of Google Cloud Storage, where the directories are those of the answers of the iterator
-- that have a prefix.
pub current-BucketAnswers :
    (g : Gs) (now : Text) (age : Text → Option ℕ) (directories : List (Option ObjectAttrs))
    (objects : Text → List (Option ObjectAttrs))
    → BucketAnswers g.settings
        (build_artifact_url g)
        age
        (list_directories directories [])
        (λ dir. list_objects (objects dir) [])
        (current g now age directories objects)
unfolding current latest_version
current-BucketAnswers g now age directories objects =
    current_in-BucketAnswers g.settings now (build_artifact_url g) age
      (list_directories directories []) (λ dir. list_objects (objects dir) [])
      (list_directories directories []) refl
