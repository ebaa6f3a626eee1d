-- ===== src/Registry/Platform.antt =====
-- registry/platform.go: the choice of an artifact by operating system and architecture.
use dewy.Common.{
  ◌≡◌, refl, ap, inl, inr, Bool, true, false, ◌&&◌, ◌||◌, Option, none, some, List, [], ◌∷◌, ◌++◌,
  arith, if◌then◌else◌, Bool-cases, Option-cases, any_of, All, Text, codes, text_eq, has_prefix,
  has_suffix, contains, to_lower,
}

-- The names of an architecture, and of an operating system, that a file name may use.
unfoldable pub arch_matches : Text → List Text
arch_matches arch = arch ∷ (if text_eq arch (codes "amd64") then codes "x86_64" ∷ [] else [])

unfoldable pub os_matches : Text → List Text
os_matches os = os ∷ (if text_eq os (codes "darwin") then codes "macos" ∷ [] else [])

unfoldable pub matches_platform : Text → List Text → List Text → Bool
matches_platform artifact_name archs oses =
    let n = to_lower artifact_name in any_of (contains n) archs && any_of (contains n) oses

abbrev pub supported_extensions : List Text
supported_extensions =
    codes ".tar.gz"
    ∷ codes ".tgz"
    ∷ codes ".tar.bz2"
    ∷ codes ".tbz2"
    ∷ codes ".tar.xz"
    ∷ codes ".txz"
    ∷ codes ".tar"
    ∷ codes ".zip"
    ∷ []

unfoldable pub is_archive_file : Text → Bool
is_archive_file filename = any_of (has_suffix (to_lower filename)) supported_extensions

-- The test of the loop.
unfoldable pub fits : Text → Text → Text → Bool
fits arch os name =
    is_archive_file name && matches_platform name (arch_matches arch) (os_matches os)

unfoldable pub match_artifact_by_platform : Text → Text → List Text → Option Text
match_artifact_by_platform arch os [] = none
match_artifact_by_platform arch os (name ∷ names) =
    let rest = match_artifact_by_platform arch os names in
    if fits arch os name then some name else rest

-- The first of the names that fit, or none of them fits.
abbrev pub IsChosen : (Text → Bool) → List Text → Option Text → Type 0
IsChosen p names none = All (λ n. p n ≡ false) names
IsChosen p names (some name) =
    (before : List Text) × (after : List Text) × (names ≡ before ++ name ∷ after)
    × All (λ n. p n ≡ false) before
    × (p name ≡ true)

pub match_artifact_by_platform-IsChosen :
    (arch os : Text) (names : List Text)
    → IsChosen (fits arch os) names (match_artifact_by_platform arch os names)
unfolding match_artifact_by_platform
match_artifact_by_platform-IsChosen arch os [] = tt
match_artifact_by_platform-IsChosen arch os (name ∷ names) = elim (Bool-cases (fits arch os name)) [
  | inl y ↦ rw (y, match_artifact_by_platform) ([], names, refl, tt, y)
  | inr n ↦
      let rest = match_artifact_by_platform-IsChosen arch os names in
      elim (Option-cases (match_artifact_by_platform arch os names)) [
        | inl missing ↦
            let all = rw missing at rest in rw (n, missing, match_artifact_by_platform) (n, all)
        | inr (chosen, found) ↦
            let (before, after, position, others, fit) = rw found at rest in
            rw (n, found, match_artifact_by_platform)
              (name ∷ before, after, ap (λ ns. name ∷ ns) position, (n, others), fit)
      ]
]

-- What a text contains, a text that contains it contains as well.
has_prefix_trans :
    (s t u : Text) → has_prefix s t ≡ true → has_prefix t u ≡ true → has_prefix s u ≡ true
unfolding has_prefix
has_prefix_trans s t [] h k = refl
has_prefix_trans s [] (e ∷ u) h k = absurd (cc)
has_prefix_trans [] (d ∷ t) (e ∷ u) h k = absurd (cc)
has_prefix_trans (c ∷ s) (d ∷ t) (e ∷ u) h k = ground (arith, has_prefix_trans s t u)

contains-nil : (s : Text) → contains s [] ≡ true
unfolding contains has_prefix
contains-nil [] = refl
contains-nil (c ∷ s) = refl

contains-has_prefix :
    (s t u : Text) → has_prefix s t ≡ true → contains t u ≡ true → contains s u ≡ true
unfolding contains has_prefix
contains-has_prefix s [] [] h k = contains-nil s
contains-has_prefix s [] (e ∷ u) h k = absurd (cc)
contains-has_prefix [] (d ∷ t) u h k = absurd (cc)
contains-has_prefix (c ∷ s) (d ∷ t) u h k =
    ground (arith, has_prefix_trans (c ∷ s) (d ∷ t) u h, contains-has_prefix s t u)

contains_trans : (s t u : Text) → contains s t ≡ true → contains t u ≡ true → contains s u ≡ true
unfolding contains has_prefix
contains_trans [] t u h k = contains-has_prefix [] t u h k
contains_trans (c ∷ s) t u h k =
    ground (arith, contains-has_prefix (c ∷ s) t u, contains_trans s t u)

arm_of_arm64 :
    (archive system a64 a : Bool)
    → (a64 ≡ true → a ≡ true)
    → (archive && ((a64 || false) && system)) ≡ true
    → (archive && ((a || false) && system)) ≡ true
arm_of_arm64 true true true a k h = rw (k refl) refl
arm_of_arm64 true true false a k h = absurd (cc)
arm_of_arm64 true false true a k h = absurd (cc)
arm_of_arm64 true false false a k h = absurd (cc)
arm_of_arm64 false system a64 a k h = absurd (cc)

-- A file that is named for arm64 is taken on a machine of architecture arm, on the same system: the
-- name of the one contains the name of the other.
fits-arm :
    (os name : Text) → fits (codes "arm64") os name ≡ true → fits (codes "arm") os name ≡ true
unfolding fits matches_platform arch_matches contains has_prefix text_eq
fits-arm os name h =
    let wider : contains (to_lower name) (codes "arm64") ≡ true
        → contains (to_lower name) (codes "arm") ≡ true =
      λ k. contains_trans (to_lower name) (codes "arm64") (codes "arm") k refl in
    let both = any_of (contains (to_lower name)) (os_matches os) in
    arm_of_arm64 (is_archive_file name) both _ _ wider h
