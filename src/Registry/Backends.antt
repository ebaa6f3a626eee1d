-- ===== src/Registry/Backends.antt =====
-- What the registry back ends share: registry/registry.go and the choice of the version that
-- registry/ghr.go, s3.go, gs.go and oci.go make with the same branches.
pub mod Choice
pub mod Github
pub mod Objects
pub mod S3
pub mod Oci
pub mod GoogleStorage
use dewy.Common.{
  ℕ, zero, suc, ◌+◌, ◌-◌, ◌*◌, ◌/◌, ◌%◌, ◌^◌, ◌≤◌, ◌<◌, Ordering, lt, eq, gt, ◌≡◌, refl, sym, ap,
  ◌∙◌, ◌≢◌, ◌↔◌, ◌⊎◌, inl, inr, Bool, true, false, not, ◌&&◌, ◌||◌, Option, none, some, List, [],
  ◌∷◌, ◌++◌, append_assoc, append-nil, map, arith, ltb, leb, ◌==◌, if◌then◌else◌, Bool-cases,
  Option-cases, &&-true, ltb→lt, lt→ltb, eq_of_==, ==-refl, length, get_elem?, take, drop,
  length-append, take-append-drop, length-drop, any_of, all_of, All, All-append, All-map,
  All-weaken, All-flat_map, In, In-append_left, In-append_right, In-append-cases, All-at, Text,
  codes, text_eq, has_prefix, has_suffix, trim_prefix, split_once, contains, to_lower, split,
  eq_of_text_eq, text_eq_refl, text_eq_iff, has_prefix-drop, has_prefix-append, ℤ, pos, negsuc,
  max_int, pos_part, neg_part, int_sub, sign, int_cmp, ◌>>=◌, ◌>>◌, Returns, Returns-some,
  Returns-bind, bind_of_some,
}
use dewy.Registry.SemVer.{SemVer, parse_sem_ver}
use dewy.Registry.SemVer as Sem
use dewy.Registry.CalVer.{CalVer}
use dewy.Registry.CalVer as Cal
use dewy.Registry.CalVer.Format.{CalVerFormat, new_cal_ver_format}
use dewy.Registry.Latest.{step, find_latest_from, find_latest}

-- The interface `Version`.
pub data Version : Type 0 where
  sem_ver : SemVer → Version
  cal_ver : CalVer → Version

unfoldable pub get_build_metadata : Version → Text
get_build_metadata (sem_ver v) = v.build_metadata
get_build_metadata (cal_ver v) = v.build_metadata

-- `String` of the two.
unfoldable pub version_string : Version → Text
version_string (sem_ver v) = Sem.string v
version_string (cal_ver v) = v.original

unfoldable pub named_version :
    {A : Type 0} → (A → Version) → Option (A × Text) → Option (Version × Text)
named_version f none = none
named_version f (some (v, name)) = some (f v, name)

-- The latest of the names, by the calendar format if there is one.
unfoldable pub find_latest_version : Text → Bool → List Text → Option (Version × Text)
find_latest_version calver pre_release names =
    if text_eq calver []
    then named_version sem_ver (Sem.find_latest_sem_ver names pre_release)
    else named_version cal_ver (Cal.find_latest_cal_ver names calver pre_release)

unfoldable pub sem_ver_slot : Option SemVer → Text
sem_ver_slot none = []
sem_ver_slot (some v) = v.build_metadata

-- The slot of a tag by a calendar format, `none` if it is no version of that format.
unfoldable pub cal_ver_slot : Text → Text → Option Text
cal_ver_slot tag calver = elim (new_cal_ver_format calver) [
  | none ↦ none
  | some f ↦ elim (Cal.parse f tag) [ none ↦ none | some v ↦ some v.build_metadata ]
]

-- `extractSlot`
unfoldable pub extract_slot : Text → Text → Text
extract_slot tag calver =
    if text_eq calver [] then sem_ver_slot (parse_sem_ver tag) else elim (cal_ver_slot tag calver) [
      | none ↦ sem_ver_slot (parse_sem_ver tag)
      | some slot ↦ slot
    ]

unfoldable pub add_trailing_slash : Text → Text
add_trailing_slash path = if has_suffix path (codes "/") then path else path ++ codes "/"

-- `strings.TrimSuffix(path, "/")`
unfoldable pub remove_trailing_slash : Text → Text
remove_trailing_slash path =
    if has_suffix path (codes "/") then take (length path - 1) path else path

-- What is found is one of the names.
abbrev pub Among : {A : Type 0} → List Text → Option (A × Text) → Type 0
Among names none = Unit {0}
Among names (some (v, name)) = In name names

module _ {A : Type 0} (candidate : Text → Option A) (is_later : A → A → Bool) where
  step-Among :
      (seen : List Text) (name : Text) (c : Option A) (latest : Option (A × Text))
      → Among seen latest
      → Among (seen ++ name ∷ []) (step candidate is_later name c latest)
  unfolding step
  step-Among seen name none none h = tt
  step-Among seen name none (some (w, latest_name)) h =
      In-append_left latest_name seen (name ∷ []) h
  step-Among seen name (some v) none h = In-append_right name seen (name ∷ []) (inl refl)
  step-Among seen name (some v) (some (w, latest_name)) h = elim (Bool-cases (is_later v w)) [
    | inl y ↦ rw y (In-append_right name seen (name ∷ []) (inl refl))
    | inr n ↦ rw n (In-append_left latest_name seen (name ∷ []) h)
  ]

  find_latest_from-Among :
      (seen names : List Text) (latest : Option (A × Text))
      → Among seen latest
      → Among (seen ++ names) (find_latest_from candidate is_later names latest)
  unfolding find_latest_from
  find_latest_from-Among seen [] latest h = rw append-nil h
  find_latest_from-Among seen (name ∷ names) latest h =
      rw (append_assoc seen (name ∷ []) names) at (
        find_latest_from-Among (seen ++ name ∷ []) names
          (step candidate is_later name (candidate name) latest)
          (step-Among seen name (candidate name) latest h))

  find_latest-Among : (names : List Text) → Among names (find_latest candidate is_later names)
  unfolding find_latest
  find_latest-Among names = find_latest_from-Among [] names none tt

named-Among :
    {A : Type 0} (f : A → Version) (names : List Text) (r : Option (A × Text))
    → Among names r
    → Among names (named_version f r)
unfolding named_version
named-Among f names none h = tt
named-Among f names (some (v, name)) h = h

find_latest_cal_ver-Among :
    (names : List Text) (calver : Text) (pre_release : Bool)
    → Among names (Cal.find_latest_cal_ver names calver pre_release)
unfolding Cal.find_latest_cal_ver Cal.find_latest_cal_ver_with_slot ◌>>=◌
find_latest_cal_ver-Among names calver pre_release =
    elim (Option-cases (new_cal_ver_format calver)) [
      | inl failed ↦ rw failed tt
      | inr (f, e) ↦ rw e (find_latest-Among (Cal.candidate f [] pre_release) Cal.is_later names)
    ]

-- The latest version has one of the names.
pub find_latest_version-Among :
    (calver : Text) (pre_release : Bool) (names : List Text)
    → Among names (find_latest_version calver pre_release names)
unfolding find_latest_version Sem.find_latest_sem_ver Sem.find_latest_sem_ver_with_slot
find_latest_version-Among calver pre_release names = elim (Bool-cases (text_eq calver [])) [
  | inl y ↦
      rw (y, find_latest_version)
        (named-Among sem_ver names _
          (find_latest-Among (Sem.candidate [] pre_release) Sem.is_later names))
  | inr n ↦
      rw (n, find_latest_version)
        (named-Among cal_ver names _ (find_latest_cal_ver-Among names calver pre_release))
]
