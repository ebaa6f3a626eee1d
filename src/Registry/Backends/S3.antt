-- ===== src/Registry/Backends/S3.antt =====
-- registry/s3.go: the listings of Amazon S3.
use dewy.Common.{ℕ, refl, Option, List, [], ◌∷◌, ◌++◌, Text, codes}
use dewy.Lifecycle.Outside.{CurrentAnswer}
use dewy.Registry.Backends.Objects.Answers.{BucketAnswers, current_in-BucketAnswers}
use dewy.Registry.Backends.Objects.{
  Bucket, Object, list_pages, latest_version_of, LatestVersion, current_in,
}

pub record S3 : Type 0 where
  pub region : Text
  pub bucket : Text
  pub endpoint : Text
  pub settings : Bucket

-- The query of the URL.
unfoldable pub endpoint_query : Text → Text
endpoint_query [] = []
endpoint_query (c ∷ cs) = codes "?" ++ codes "endpoint=" ++ c ∷ cs

unfoldable pub build_artifact_url : S3 → Text → Text
build_artifact_url s key =
    codes "s3"
    ++ codes "://"
    ++ s.region
    ++ codes "/"
    ++ s.bucket
    ++ codes "/"
    ++ key
    ++ endpoint_query s.endpoint

-- `ListObjects`, over the pages of a paginator.
unfoldable pub list_objects : List (Option (List Object)) → Option (List Object)
list_objects pages = list_pages pages []

-- `LatestVersion`, over the common prefixes of each page.
unfoldable pub latest_version : S3 → List (Option (List Text)) → LatestVersion
latest_version s prefix_pages = latest_version_of s.settings (list_pages prefix_pages [])

unfoldable pub current :
    S3
    → Text
    → (Text → Option ℕ)
    → List (Option (List Text))
    → (Text → List (Option (List Object)))
    → Option CurrentAnswer
current s now age prefix_pages object_pages =
    current_in s.settings now (build_artifact_url s) age (latest_version s prefix_pages)
      (λ dir. list_objects (object_pages dir))

-- The key under which `Report` puts its text.
unfoldable pub report_key : S3 → Text → Text → Text
report_key s tag filename = s.settings.prefix ++ tag ++ codes "/" ++ filename

-- `Current` of S3 returns an error of a listing or of the search for a version; or it selects a
-- directory under the prefix that is listed and whose name is found to be the latest version, and
-- answers with the tag of this version and the URL of an object of the directory, the one that is
-- asked for or else one for the platform, or with an error that there is none. It uses no directory
-- that is nil.
pub current-BucketAnswers :
    (s : S3) (now : Text) (age : Text → Option ℕ) (prefix_pages : List (Option (List Text)))
    (object_pages : Text → List (Option (List Object)))
    → BucketAnswers s.settings
        (build_artifact_url s)
        age
        (list_pages prefix_pages [])
        (λ dir. list_objects (object_pages dir))
        (current s now age prefix_pages object_pages)
unfolding current latest_version
current-BucketAnswers s now age prefix_pages object_pages =
    current_in-BucketAnswers s.settings now (build_artifact_url s) age (list_pages prefix_pages [])
      (λ dir. list_objects (object_pages dir)) (list_pages prefix_pages []) refl
