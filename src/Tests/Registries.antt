-- ===== src/Tests/Registries.antt =====
-- The registry back ends on small listings.
use dewy.Common.{
  ℕ, ◌≤◌, ◌≡◌, refl, ◌↔◌, true, false, Option, none, some, List, [], ◌∷◌, ◌++◌, ◌==◌, if◌then◌else◌,
  Text, codes, text_eq, has_prefix, has_suffix, contains, to_lower,
}
use dewy.Registry.Platform.{fits, is_archive_file, matches_platform, os_matches, arch_matches}
use dewy.Registry.Backends.Github.{Release, Page, Ghr}
use dewy.Registry.Backends.Github as Github
use dewy.Registry.Backends.Github.Answers as Ghr
use dewy.Registry.Backends.Objects.{Object, list_pages}
use dewy.Registry.Backends.Objects.Answers as Objects
use dewy.Registry.Backends.S3.{S3, build_artifact_url, list_objects}
use dewy.Registry.Backends.S3 as Simple
use dewy.Registry.Backends.Oci.{Oci, Web, Response}
use dewy.Registry.Backends.Oci as Images
use dewy.Registry.Backends.Oci.Pages as Pages

-- A name for arm64 is taken on arm.
app_linux_arm64-fits : fits (codes "arm") (codes "linux") (codes "app_linux_arm64.tar.gz") ≡ true
unfolding fits is_archive_file matches_platform os_matches arch_matches has_suffix to_lower contains
    has_prefix text_eq
app_linux_arm64-fits = refl

abbrev release_of_tag : Text → Release
release_of_tag tag = record {
  tag_name = tag;
  is_draft = false;
  assets = codes "app_linux_amd64.tar.gz" ∷ codes "app_darwin_arm64.zip" ∷ [];
  age = some 60;
}

abbrev pages : ℕ → Option Page
pages n =
    if n == 1
    then some (record { releases = release_of_tag (codes "v1.2.0") ∷ []; next_page = 2 })
    else if n == 2
    then some (record { releases = release_of_tag (codes "v1.10.0") ∷ []; next_page = 0 })
    else none

abbrev github : Ghr
github = record {
  owner = codes "linyows";
  repo = codes "app";
  artifact = [];
  pre_release = false;
  calver = [];
  arch = codes "amd64";
  os = codes "linux";
}

abbrev bucket : S3
bucket = record {
  region = codes "eu-west-1";
  bucket = codes "releases";
  endpoint = [];
  settings = record {
    prefix = codes "app/";
    artifact = codes "app.tar.gz";
    pre_release = false;
    calver = [];
    arch = codes "amd64";
    os = codes "linux";
  };
}

abbrev prefix_pages : List (Option (List Text))
prefix_pages =
    some (codes "app/v1.0.0/" ∷ codes "app/v1.2.0/" ∷ []) ∷ some (codes "app/v1.1.0/" ∷ []) ∷ []

abbrev object_pages : Text → List (Option (List Object))
object_pages dir = some ((record { key = dir ++ codes "app.tar.gz" }) ∷ []) ∷ []

current-BucketAnswers_example :
    Objects.BucketAnswers bucket.settings
      (build_artifact_url bucket)
      (λ dir. none)
      (list_pages prefix_pages [])
      (λ dir. list_objects (object_pages dir))
      (Simple.current bucket (codes "20260101T000000Z") (λ dir. none) prefix_pages object_pages)
current-BucketAnswers_example =
    Simple.current-BucketAnswers bucket (codes "20260101T000000Z") (λ dir. none) prefix_pages
      object_pages

-- A registry that asks for a token first.
abbrev answer_of : Text → Text → Response
answer_of url auth = record {
  status = if text_eq auth [] then 401 else 200;
  www_authenticate = codes "Bearer realm=\"https://ghcr.io/token\",service=\"ghcr.io\"";
  link = [];
  digest = codes "sha256:7";
  tags = some (codes "v1.0.0" ∷ codes "v1.1.0" ∷ []);
}

abbrev web : Web
web = record {
  send = λ n url auth. some (answer_of url auth);
  encode = λ user password. user ++ password;
  host_of = λ url. some (codes "ghcr.io");
  registry_hostname = λ registry. registry;
  is_public = λ host. false;
  ask_token = λ n realm service scope. some (codes "t", []);
}

abbrev repository : Oci
repository = record {
  registry = codes "ghcr.io";
  repository = codes "linyows/app";
  pre_release = false;
  calver = [];
  username = [];
  password = [];
  token = [];
  requests = 0;
}

list_tags_iff_example :
    (Images.list_tags web repository
      ≡ some (
        record repository { token = codes "t"; requests = 3 },
        codes "v1.0.0" ∷ codes "v1.1.0" ∷ [],
      ))
    ↔ ((n : ℕ) × (n ≤ 100)
        × Pages.Walk web n repository
            (Images.base_url web repository)
            (codes "v1.0.0" ∷ codes "v1.1.0" ∷ [])
            (record repository { token = codes "t"; requests = 3 }))
list_tags_iff_example =
    Pages.list_tags_iff web repository (record repository { token = codes "t"; requests = 3 })
      (codes "v1.0.0" ∷ codes "v1.1.0" ∷ [])

current-IsAnswered_example : Pages.IsAnswered web repository (Images.current web repository)
current-IsAnswered_example = Pages.current-IsAnswered web repository
