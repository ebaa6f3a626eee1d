-- ===== src/Registry/Backends/Objects/Answers.antt =====
-- What `Current` of registry/s3.go and of registry/gs.go answers with.
use mathlib.Core.Option.{some-injective}
use dewy.Common.{
  ℕ, ◌≡◌, refl, sym, ◌∙◌, ◌≢◌, inl, inr, true, false, Option, none, some, List, [], ◌∷◌, ◌++◌,
  Bool-cases, Option-cases, All, In, Text, text_eq, eq_of_text_eq, text_eq_refl,
}
use dewy.Lifecycle.Outside.{CurrentAnswer, found, artifact_not_found, current_failed}
use dewy.Registry.Backends.Choice.{is_wanted, IsWanted, choose_artifact-IsWanted}
use dewy.Registry.Backends.{
  Version, find_latest_version, Among, find_latest_version-Among, version_string,
  get_build_metadata,
}
use dewy.Registry.Backends.Objects.{
  Bucket, Object, extract_filename, filenames, directory_of, directory_named, latest_version_of,
  keys_of, answer_with, answer_in, current_in,
}

directory_of-In :
    (prefix name : Text) (dirs : List Text) (dir : Text)
    → directory_of prefix name dirs ≡ some dir
    → In dir dirs × (extract_filename dir prefix ≡ name)
unfolding directory_of
directory_of-In prefix name [] dir h = absurd (cc)
directory_of-In prefix name (d ∷ dirs) dir h = elim (Option-cases (directory_of prefix name dirs)) [
  | inr (later, e) ↦
      let same = rw (e, directory_of) at h in
      let (m, t) = directory_of-In prefix name dirs dir (e ∙ same) in (inr m, t)
  | inl missing ↦ elim (Bool-cases (text_eq (extract_filename d prefix) name)) [
    | inl y ↦
        let same : some d ≡ some dir = rw (missing, y, directory_of) at h in
        let here : d ≡ dir = some-injective d dir same in
        (inl (sym here), rw (← here) (eq_of_text_eq (extract_filename d prefix) name y))
    | inr n ↦ let no : none ≡ some dir = rw (missing, n, directory_of) at h in absurd (cc)
  ]
]

-- A directory of each name is in the map.
directory_of_total :
    (prefix name : Text) (dirs : List Text)
    → In name (filenames prefix dirs)
    → directory_of prefix name dirs ≢ none
unfolding directory_of filenames
directory_of_total prefix name [] h = absurd h
directory_of_total prefix name (d ∷ dirs) h = elim (Option-cases (directory_of prefix name dirs)) [
  | inr (later, e) ↦ rw (e, directory_of) (λ k. cc)
  | inl missing ↦ elim h [
    | inr late ↦ absurd (directory_of_total prefix name dirs late missing)
    | inl here ↦
        let same : text_eq (extract_filename d prefix) name ≡ true =
          rw (sym here) (text_eq_refl name) in
        rw (missing, same, directory_of) (λ k. cc)
  ]
]

-- The directory that `LatestVersion` has chosen: it is listed, and its name is that of the latest
-- version.
pub record IsLatestDirectory (b : Bucket) (dirs : Option (List Text)) (dir : Text) (v : Version)
    : Type 0 where
  pub directories : List Text
  pub are_listed : dirs ≡ some directories
  pub is_one : In dir directories
  pub is_latest :
      find_latest_version b.calver b.pre_release (filenames b.prefix directories)
      ≡ some (v, extract_filename dir b.prefix)

-- The answer: a wanted object of the directory of the latest version, or none there is wanted.
abbrev pub BucketAnswers :
    Bucket
    → (Text → Text)
    → (Text → Option ℕ)
    → Option (List Text)
    → (Text → Option (List Object))
    → Option CurrentAnswer
    → Type 0
BucketAnswers b url age dirs list_objects none = ⊥
BucketAnswers b url age dirs list_objects (some current_failed) = Unit {0}
BucketAnswers b url age dirs list_objects (some (artifact_not_found a)) =
    (dir : Text) × (v : Version) × IsLatestDirectory b dirs dir v
    × (objects : List Object) × (list_objects dir ≡ some objects)
    × (age dir ≡ a)
    × All (λ n. is_wanted b.artifact b.arch b.os n ≡ false) (filenames dir (keys_of objects))
BucketAnswers b url age dirs list_objects (some (found res)) =
    (dir : Text) × (v : Version) × IsLatestDirectory b dirs dir v
    × (objects : List Object) × (list_objects dir ≡ some objects)
    × (name : Text) × In name (filenames dir (keys_of objects))
    × (is_wanted b.artifact b.arch b.os name ≡ true)
    × (res.tag ≡ version_string v)
    × (res.artifact_url ≡ url (dir ++ name))
    × (res.slot ≡ get_build_metadata v)

module _ (b : Bucket) (now : Text) (url : Text → Text) (age : Text → Option ℕ)
    (dirs : Option (List Text)) (list_objects : Text → Option (List Object)) where
  answer_with-BucketAnswers :
      (dir : Text) (v : Version) (objects : List Object) (choice : Option Text)
      → IsLatestDirectory b dirs dir v
      → list_objects dir ≡ some objects
      → IsWanted (is_wanted b.artifact b.arch b.os) (filenames dir (keys_of objects)) choice
      → BucketAnswers b url age dirs list_objects (some (answer_with b now url age dir v choice))
  unfolding answer_with
  answer_with-BucketAnswers dir v objects none h l k = (dir, v, h, objects, l, refl, k)
  answer_with-BucketAnswers dir v objects (some name) h l (m, y) =
      (dir, v, h, objects, l, name, m, y, refl, refl, refl)

  answer_in-BucketAnswers :
      (dir : Text) (v : Version) (listed : Option (List Object))
      → IsLatestDirectory b dirs dir v
      → list_objects dir ≡ listed
      → BucketAnswers b url age dirs list_objects (some (answer_in b now url age dir v listed))
  unfolding answer_in
  answer_in-BucketAnswers dir v none h l = tt
  answer_in-BucketAnswers dir v (some objects) h l =
      answer_with-BucketAnswers dir v objects _ h l
        (choose_artifact-IsWanted b.artifact b.arch b.os (filenames dir (keys_of objects)))

  directory_named-BucketAnswers :
      (directories : List Text) (choice : Option (Version × Text))
      → dirs ≡ some directories
      → find_latest_version b.calver b.pre_release (filenames b.prefix directories) ≡ choice
      → Among (filenames b.prefix directories) choice
      → BucketAnswers b url age dirs list_objects
          (current_in b now url age (directory_named b.prefix directories choice) list_objects)
  unfolding directory_named current_in
  directory_named-BucketAnswers directories none l e m = tt
  directory_named-BucketAnswers directories (some (v, name)) l e m =
      elim (Option-cases (directory_of b.prefix name directories)) [
        | inl missing ↦ absurd (directory_of_total b.prefix name directories m missing)
        | inr (dir, k) ↦
            let (is_one, same) = directory_of-In b.prefix name directories dir k in
            rw (k, directory_named)
              (answer_in-BucketAnswers dir v (list_objects dir)
                (record {
                  directories = directories;
                  are_listed = l;
                  is_one = is_one;
                  is_latest = rw same e;
                })
                refl)
      ]

  -- `Current` of either bucket returns, and no directory is nil: with an error of a listing or of
  -- the search for a version; or it selects a directory that is listed and whose name is found to be
  -- the latest version, and answers with the tag of this version and an object of the directory, the
  -- one that is asked for or else one for the platform, or with an error that there is none.
  pub current_in-BucketAnswers :
      (listed : Option (List Text))
      → dirs ≡ listed
      → BucketAnswers b url age dirs list_objects
          (current_in b now url age (latest_version_of b listed) list_objects)
  unfolding latest_version_of current_in
  current_in-BucketAnswers none l = tt
  current_in-BucketAnswers (some directories) l =
      directory_named-BucketAnswers directories _ l refl
        (find_latest_version-Among b.calver b.pre_release (filenames b.prefix directories))
