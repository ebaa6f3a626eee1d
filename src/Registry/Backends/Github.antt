-- ===== src/Registry/Backends/Github.antt =====
-- registry/ghr.go: the releases of a GitHub repository as a registry. The API and the clock are
-- parameters.
pub mod Pages
pub mod Answers
use dewy.Common.{
  ℕ, zero, suc, ◌+◌, ◌-◌, ◌*◌, ◌/◌, ◌%◌, ◌^◌, ◌≤◌, ◌<◌, Ordering, lt, eq, gt, ◌≡◌, refl, sym, ap,
  ◌∙◌, ◌≢◌, ◌↔◌, ◌⊎◌, inl, inr, Bool, true, false, not, ◌&&◌, ◌||◌, Option, none, some, List, [],
  ◌∷◌, ◌++◌, append_assoc, append-nil, map, arith, ltb, leb, ◌==◌, if◌then◌else◌, Bool-cases,
  Option-cases, &&-true, ltb→lt, lt→ltb, eq_of_==, ==-refl, length, get_elem?, take, drop,
  length-append, take-append-drop, length-drop, any_of, all_of, All, All-append, All-map,
  All-weaken, All-flat_map, In, In-append_left, In-append_right, In-append-cases, All-at, Text,
  codes, text_eq, has_prefix, has_suffix, trim_prefix, split_once, contains, to_lower, split,
  eq_of_text_eq, text_eq_refl, text_eq_iff, has_prefix-drop, has_prefix-append, ℤ, pos, negsuc,
  max_int, pos_part, neg_part, int_sub, sign, int_cmp, ◌>>=◌, ◌>>◌, Returns, Returns-some,
  Returns-bind, bind_of_some,
}
use dewy.Lifecycle.Outside.{
  CurrentResponse, CurrentAnswer, found, artifact_not_found, current_failed,
}
use dewy.Registry.Backends.Choice.{choose_artifact}
use dewy.Registry.Backends.{Version, find_latest_version, extract_slot}

-- `github.RepositoryRelease`, with the time since its publication where that is known.
pub record Release : Type 0 where
  pub tag_name : Text
  pub is_draft : Bool
  pub assets : List Text
  pub age : Option ℕ

-- The releases of a page, and the number of the next one; 0 is that of none.
pub record Page : Type 0 where
  pub releases : List Release
  pub next_page : ℕ

pub record Ghr : Type 0 where
  pub owner : Text
  pub repo : Text
  pub artifact : Text
  pub pre_release : Bool
  pub calver : Text
  pub arch : Text
  pub os : Text

-- The loop over the pages: an error, no end within the rounds, or what is listed.
pub data Listing : Type 0 where
  list_failed unfinished : Listing
  listed : List Release → Listing

unfoldable pub non_drafts : List Release → List Release
non_drafts [] = []
non_drafts (r ∷ rs) = let rest = non_drafts rs in if r.is_draft then rest else r ∷ rest

module _ (list_releases : ℕ → Option Page) where
  unfoldable pub list_from : ℕ → ℕ → List Release → Listing
  list_from zero page all_releases = unfinished
  list_from (suc rounds) page all_releases = elim (list_releases page) [
    | none ↦ list_failed
    | some p ↦
        let all = all_releases ++ non_drafts p.releases in
        let rest = list_from rounds p.next_page all in if p.next_page == 0 then listed all else rest
  ]

unfoldable pub tag_names : List Release → List Text
tag_names [] = []
tag_names (r ∷ rs) = r.tag_name ∷ tag_names rs

-- `releaseMap[tag]`: the last of the releases with the tag.
unfoldable pub release_of : Text → List Release → Option Release
release_of tag [] = none
release_of tag (r ∷ rs) = elim (release_of tag rs) [
  | none ↦ if text_eq r.tag_name tag then some r else none
  | some later ↦ some later
]

-- What `latest` returns; a release that is not in the map would be nil.
pub data Latest : Type 0 where
  latest_failed latest_unfinished nil_release : Latest
  latest : Release → Latest

unfoldable pub release_named : List Release → Option (Version × Text) → Latest
release_named rs none = latest_failed
release_named rs (some (v, tag)) = elim (release_of tag rs) [
  | none ↦ nil_release
  | some r ↦ latest r
]

unfoldable pub latest_of : Ghr → Listing → Latest
latest_of g list_failed = latest_failed
latest_of g unfinished = latest_unfinished
latest_of g (listed []) = latest_failed
latest_of g (listed (r ∷ rs)) =
    release_named (r ∷ rs) (find_latest_version g.calver g.pre_release (tag_names (r ∷ rs)))

unfoldable pub artifact_url : Ghr → Text → Text → Text
artifact_url g tag name =
    codes "ghr"
    ++ codes "://"
    ++ g.owner
    ++ codes "/"
    ++ g.repo
    ++ codes "/tag/"
    ++ tag
    ++ codes "/"
    ++ name

unfoldable pub answer_with : Ghr → Text → Release → Option Text → CurrentAnswer
answer_with g now r none = artifact_not_found r.age
answer_with g now r (some name) = found (record {
  id = now;
  tag = r.tag_name;
  artifact_url = artifact_url g r.tag_name name;
  slot = extract_slot r.tag_name g.calver;
})

-- `Current`, or `none` where the pages do not end within the rounds or there is no release.
unfoldable pub current_of : Ghr → Text → Latest → Option CurrentAnswer
current_of g now latest_failed = some current_failed
current_of g now latest_unfinished = none
current_of g now nil_release = none
current_of g now (latest r) =
    some (answer_with g now r (choose_artifact g.artifact g.arch g.os r.assets))

unfoldable pub current : Ghr → Text → (ℕ → Option Page) → ℕ → Option CurrentAnswer
current g now list_releases rounds =
    current_of g now (latest_of g (list_from list_releases rounds 1 []))
