-- ===== src/Registry/Backends/Github/Answers.antt =====
-- What `Current` of registry/ghr.go answers with.
use dewy.Common.{ℕ, ◌≡◌, true, false, Option, none, some, List, All, In, Text}
use dewy.Lifecycle.Outside.{CurrentAnswer, found, artifact_not_found, current_failed}
use dewy.Registry.Backends.Choice.{choose_artifact, is_wanted}
use dewy.Registry.Backends.Github.Pages.{Pages}
use dewy.Registry.Backends.{Version, find_latest_version, extract_slot}
use dewy.Registry.Backends.Github.{Release, Page, Ghr, tag_names, choose_artifact, artifact_url}

-- The release that `Current` has chosen.
pub record IsSelected (g : Ghr) (list_releases : ℕ → Option Page) (r : Release) : Type 0 where
  pub releases : List Release
  pub version : Version
  pub are_all : Pages list_releases 1 releases
  pub is_one : In r releases
  pub is_latest :
      find_latest_version g.calver g.pre_release (tag_names releases) ≡ some (version, r.tag_name)

-- The answer: a wanted asset of the selected release, or no asset of it is wanted.
abbrev pub Answers : Ghr → (ℕ → Option Page) → Option CurrentAnswer → Type 0
Answers g list_releases none = ⊥
Answers g list_releases (some current_failed) = Unit {0}
Answers g list_releases (some (artifact_not_found age)) =
    (r : Release) × IsSelected g list_releases r
    × (r.age ≡ age)
    × All (λ n. is_wanted g.artifact g.arch g.os n ≡ false) r.assets
Answers g list_releases (some (found res)) =
    (r : Release) × IsSelected g list_releases r
    × (name : Text) × In name r.assets
    × (is_wanted g.artifact g.arch g.os name ≡ true)
    × (res.tag ≡ r.tag_name)
    × (res.artifact_url ≡ artifact_url g r.tag_name name)
    × (res.slot ≡ extract_slot r.tag_name g.calver)
