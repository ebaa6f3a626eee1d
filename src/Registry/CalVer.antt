-- ===== src/Registry/CalVer.antt =====
-- registry/calver.go: calendar versions.
pub mod Format
pub mod Precedence
pub mod Search
pub mod Patterns
pub mod Parsing
pub mod Rounds
use mathlib.Core.Option
use mathlib.Core.List.{flat_map}
use mathlib.Core.List.{head?}
use dewy.Common.{
  ℕ, zero, suc, Bool, true, false, not, ◌&&◌, Option, none, some, List, [], ◌∷◌, ◌++◌, map, Text, ℤ,
  pos, negsuc, pos_part, ◌==◌, if◌then◌else◌, int_sub, text_eq, has_prefix, length, drop, ◌>>=◌,
}
use dewy.Registry.Atoi.{atoi}
use dewy.Registry.Latest.{find_latest}
use dewy.Registry.PreRelease.{compare_pre_release}
use dewy.Registry.SemVer.{optional_group, end_of_text, is_empty, is_positive}
use Format.{
  Part, specifier, literal, Specifier, specifier_pattern, literal_text, CalVerFormat,
  new_cal_ver_format,
}

pub record CalVer : Type 0 where
  pub v : Text
  pub segments : List ℕ
  pub pre_release : Text
  pub build_metadata : Text
  pub original : Text

-- The ways to match the parts, each with the texts of the specifiers and the rest.
unfoldable pub match_parts : List Part → Text → List (List Text × Text)
unfolding flat_map
match_parts [] s = ([], s) ∷ []
match_parts (specifier spec ∷ parts) s =
    flat_map (λ a. map (λ b. (a.0 ∷ b.0, b.1)) (match_parts parts a.1)) (specifier_pattern spec s)
match_parts (literal c ∷ parts) s =
    let rest = match_parts parts (drop (length (literal_text c)) s) in
    if has_prefix s (literal_text c) then rest else []

-- (?:-([0-9A-Za-z.-]+))?(?:\+([0-9A-Za-z.-]+))?$
unfoldable pub suffixes : Text → Option (Text × Text)
suffixes s = do
  (pre_release, s₁) ← optional_group b'-' s
  (build_metadata, s₂) ← optional_group b'+' s₁
  end_of_text s₂ >>= λ _. some (pre_release, build_metadata)

-- The groups of the pattern of a format.
pub record Submatch : Type 0 where
  pub v : Text
  pub segments : List Text
  pub pre_release : Text
  pub build_metadata : Text

-- The first way to match the parts that leaves suffixes.
unfoldable pub first_submatch : Text → List (List Text × Text) → Option Submatch
first_submatch v [] = none
first_submatch v ((segments, rest) ∷ ways) = elim (suffixes rest) [
  | none ↦ first_submatch v ways
  | some (pre_release, build_metadata) ↦ some (record {
    v = v;
    segments = segments;
    pre_release = pre_release;
    build_metadata = build_metadata;
  })
]

abbrev or_else : Option Submatch → Option Submatch → Option Submatch
or_else none m = m
or_else (some a) m = some a

-- `FindStringSubmatch` of `Regex`: `(v)?` is tried with the byte first, and then without it.
unfoldable pub find_submatch : List Part → Text → Option Submatch
find_submatch parts [] = first_submatch [] (match_parts parts [])
find_submatch parts (c ∷ s) =
    or_else (if c == b'v' then first_submatch (b'v' ∷ []) (match_parts parts s) else none)
      (first_submatch [] (match_parts parts (c ∷ s)))

-- The loop over the segment groups; `none` where `strconv.Atoi` has an error.
unfoldable pub parse_segments : List Text → Option (List ℕ)
parse_segments [] = some []
parse_segments (text ∷ texts) =
    let (val, valid) = atoi text in
    if valid then Option.map (λ vals. pos_part val ∷ vals) (parse_segments texts) else none

-- (*CalVerFormat).Parse
unfoldable pub parse : CalVerFormat → Text → Option CalVer
parse f version = do
  m ← find_submatch f.parts version
  segs ← parse_segments m.segments
  some (record {
    v = m.v;
    segments = segs;
    pre_release = m.pre_release;
    build_metadata = m.build_metadata;
    original = version;
  })

-- The loop of `Compare`: a segment that is not there counts as 0. `rest` is what follows the loop.
unfoldable pub compare_segments : List ℕ → List ℕ → ℤ → ℤ
compare_segments [] [] rest = rest
compare_segments [] (b ∷ bs) rest =
    let next = compare_segments [] bs rest in if not (0 == b) then int_sub (pos 0) (pos b) else next
compare_segments (a ∷ as') [] rest =
    let next = compare_segments as' [] rest in
    if not (a == 0) then int_sub (pos a) (pos 0) else next
compare_segments (a ∷ as') (b ∷ bs) rest =
    let next = compare_segments as' bs rest in
    if not (a == b) then int_sub (pos a) (pos b) else next

-- (*CalVer).Compare
unfoldable pub compare : CalVer → CalVer → ℤ
compare v other = compare_segments v.segments other.segments (
    if is_empty v.pre_release && not (is_empty other.pre_release)
    then pos 1
    else if not (is_empty v.pre_release) && is_empty other.pre_release
    then negsuc 0
    else compare_pre_release v.pre_release other.pre_release)

-- The version of a name that the search may choose: the tests that go on to the next name.
unfoldable pub candidate : CalVerFormat → Text → Bool → Text → Option CalVer
candidate f slot allow_pre_release name = do
  ver ← parse f name
  if not allow_pre_release && not (is_empty ver.pre_release)
      then none
      else if not (is_empty slot) && not (text_eq ver.build_metadata slot)
      then none
      else some ver

-- ver.Compare(latestVersion) > 0
unfoldable pub is_later : CalVer → CalVer → Bool
is_later ver latest = is_positive (compare ver latest)

-- `none` is an error, of the format or "no valid versioned object found".
unfoldable pub find_latest_cal_ver_with_slot :
    List Text → Text → Text → Bool → Option (CalVer × Text)
find_latest_cal_ver_with_slot version_names format slot allow_pre_release = do
  f ← new_cal_ver_format format
  find_latest (candidate f slot allow_pre_release) is_later version_names

unfoldable pub find_latest_cal_ver : List Text → Text → Bool → Option (CalVer × Text)
find_latest_cal_ver version_names format allow_pre_release =
    find_latest_cal_ver_with_slot version_names format [] allow_pre_release
