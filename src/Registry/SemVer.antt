-- ===== src/Registry/SemVer.antt =====
-- registry/semver.go: the pattern of a semantic version, its parsing and printing, the comparison
-- of two versions, and the search for the latest one.
pub mod Grammar
pub mod RoundTrip
pub mod Precedence
pub mod Release
pub mod Search
use dewy.Common.{
  zero, suc, ◌>>=◌, ◌>>◌, ℕ, Bool, true, false, not, ◌&&◌, Option, none, some, List, [], ◌∷◌, ◌++◌,
  Text, ℤ, pos, negsuc, pos_part, ◌==◌, if◌then◌else◌, int_sub, text_eq,
}
use dewy.Registry.Atoi.{atoi, is_digit}
use dewy.Registry.Print.{format_int}
use dewy.Registry.Pattern.{is_identifier_byte, span}
use dewy.Registry.Latest.{find_latest}
use dewy.Registry.PreRelease.{compare_pre_release}

pub record SemVer : Type 0 where
  pub v : Text
  pub major : ℕ
  pub minor : ℕ
  pub patch : ℕ
  pub pre_release : Text
  pub build_metadata : Text

-- The groups of `SemVerRegex`; a group that takes no part in the match is empty.
pub record Groups : Type 0 where
  pub v : Text
  pub major : Text
  pub minor : Text
  pub patch : Text
  pub pre_release : Text
  pub build_metadata : Text

-- A byte that the pattern asks for.
unfoldable pub literal : ℕ → Text → Option Text
literal c [] = none
literal c (d ∷ s) = if c == d then some s else none

-- A run with a byte in it.
abbrev pub some_byte : Text × Text → Option (Text × Text)
some_byte ([], rest) = none
some_byte (c ∷ run, rest) = some (c ∷ run, rest)

-- [...]+
unfoldable pub run_of : (ℕ → Bool) → Text → Option (Text × Text)
unfolding span
run_of p s = some_byte (span p s)

-- (?:c([0-9A-Za-z.-]+))?
unfoldable pub optional_group : ℕ → Text → Option (Text × Text)
unfolding run_of
optional_group c [] = some ([], [])
optional_group c (d ∷ s) = if c == d then run_of is_identifier_byte s else some ([], d ∷ s)

-- (v)?
unfoldable pub optional_v : Text → Text × Text
optional_v [] = ([], [])
optional_v (c ∷ s) = if c == b'v' then (b'v' ∷ [], s) else ([], c ∷ s)

-- $
unfoldable pub end_of_text : Text → Option (Unit {0})
end_of_text [] = some tt
end_of_text (c ∷ s) = none

-- `FindStringSubmatch` of `SemVerRegex`. No byte that ends a group can belong to it, so the longest
-- runs are the only candidates and the search never goes back.
unfoldable pub find_groups : Text → Option Groups
find_groups version = do
  let (v, s) = optional_v version
  (major, s₁) ← run_of is_digit s
  s₂ ← literal b'.' s₁
  (minor, s₃) ← run_of is_digit s₂
  s₄ ← literal b'.' s₃
  (patch, s₅) ← run_of is_digit s₄
  (pre_release, s₆) ← optional_group b'-' s₅
  (build_metadata, s₇) ← optional_group b'+' s₆
  end_of_text s₇
  some (record {
    v = v;
    major = major;
    minor = minor;
    patch = patch;
    pre_release = pre_release;
    build_metadata = build_metadata;
  })

-- The result of `strconv.Atoi` on digits is never negative, and its error is not read.
unfoldable pub number_of : Text → ℕ
number_of digits = pos_part (atoi digits).0

unfoldable pub sem_ver_of : Groups → SemVer
unfolding number_of
sem_ver_of m = record {
  v = m.v;
  major = number_of m.major;
  minor = number_of m.minor;
  patch = number_of m.patch;
  pre_release = m.pre_release;
  build_metadata = m.build_metadata;
}

unfoldable pub parse_sem_ver : Text → Option SemVer
parse_sem_ver version = do m ← find_groups version; some (sem_ver_of m)

-- a == ""
abbrev pub is_empty : Text → Bool
is_empty [] = true
is_empty (c ∷ s) = false

unfoldable pub compare : SemVer → SemVer → ℤ
compare v other =
    if not (v.major == other.major)
    then int_sub (pos v.major) (pos other.major)
    else if not (v.minor == other.minor)
    then int_sub (pos v.minor) (pos other.minor)
    else if not (v.patch == other.patch)
    then int_sub (pos v.patch) (pos other.patch)
    else if is_empty v.pre_release && not (is_empty other.pre_release)
    then pos 1
    else if not (is_empty v.pre_release) && is_empty other.pre_release
    then negsuc 0
    else compare_pre_release v.pre_release other.pre_release

unfoldable pub prefixed : ℕ → Text → Text
prefixed c [] = []
prefixed c (d ∷ s) = c ∷ d ∷ s

-- (*SemVer).String
unfoldable pub string : SemVer → Text
unfolding prefixed
string v =
    v.v
    ++ (format_int v.major
        ++ (b'.'
            ∷ (format_int v.minor
                ++ (b'.'
                    ∷ (format_int v.patch
                        ++ (prefixed b'-' v.pre_release ++ prefixed b'+' v.build_metadata))))))

-- `SemVerRegexWithoutPreRelease`: the pattern less the group of the pre-release.
unfoldable pub find_release_groups : Text → Option Groups
find_release_groups version = do
  let (v, s) = optional_v version
  (major, s₁) ← run_of is_digit s
  s₂ ← literal b'.' s₁
  (minor, s₃) ← run_of is_digit s₂
  s₄ ← literal b'.' s₃
  (patch, s₅) ← run_of is_digit s₄
  (build_metadata, s₆) ← optional_group b'+' s₅
  end_of_text s₆
  some (record {
    v = v;
    major = major;
    minor = minor;
    patch = patch;
    pre_release = [];
    build_metadata = build_metadata;
  })

abbrev pub is_some {ℓ} : {A : Type ℓ} → Option A → Bool
is_some none = false
is_some (some a) = true

unfoldable pub match_sem_ver_pattern : Text → Bool → Bool
match_sem_ver_pattern str true = is_some (find_groups str)
match_sem_ver_pattern str false = is_some (find_release_groups str)

-- The version of a name that the search may choose: the tests on the name before the comparison.
unfoldable pub candidate : Text → Bool → Text → Option SemVer
candidate slot allow_pre_release name =
    if match_sem_ver_pattern name allow_pre_release
    then (do
      ver ← parse_sem_ver name
      if not (is_empty slot) && not (text_eq ver.build_metadata slot) then none else some ver)
    else none

abbrev pub is_positive : ℤ → Bool
is_positive (pos zero) = false
is_positive (pos (suc n)) = true
is_positive (negsuc n) = false

-- ver.Compare(latestVersion) > 0
unfoldable pub is_later : SemVer → SemVer → Bool
is_later ver latest = is_positive (compare ver latest)

-- `none` is the error "no valid versioned object found".
unfoldable pub find_latest_sem_ver_with_slot : List Text → Text → Bool → Option (SemVer × Text)
find_latest_sem_ver_with_slot version_names slot allow_pre_release =
    find_latest (candidate slot allow_pre_release) is_later version_names

unfoldable pub find_latest_sem_ver : List Text → Bool → Option (SemVer × Text)
find_latest_sem_ver version_names allow_pre_release =
    find_latest_sem_ver_with_slot version_names [] allow_pre_release
