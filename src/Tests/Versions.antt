-- ===== src/Tests/Versions.antt =====
-- registry/version.go and registry/semver.go on concrete versions.
use mathlib.Core.Option.{some-injective}
use mathlib.Core.Path.{subst}
use dewy.Common.{
  text_eq, int_sub, lt, gt, ◌≡◌, refl, sym, ◌∙◌, ◌↔◌, inl, inr, true, false, some, List, [], ◌∷◌,
  arith, In, Text, codes, split, negsuc, sign,
}
use dewy.Registry.Atoi.{atoi, is_numeric, is_signed, decimal}
use dewy.Registry.PreRelease.{compare_pre_release, compare_identifiers, compare_identifier}
use dewy.Registry.PreRelease.Precedence.{
  IsModest, IsModest-nil, precedence, compare_pre_release-precedence, compare_pre_release-signed,
}
use dewy.Registry.SemVer.{
  SemVer, Groups, find_groups, find_release_groups, parse_sem_ver, string, compare, candidate,
  find_latest_sem_ver_with_slot,
}
use dewy.Registry.SemVer.Grammar.{spell, IsWellFormed, find_groups_sound, find_groups-spell}
use dewy.Registry.SemVer.RoundTrip.{IsValid, parse_sem_ver-string}
use dewy.Registry.SemVer.Precedence.{sem_ver_cmp, compare-sem_ver_cmp}
use dewy.Registry.SemVer.Release.{find_release_groups_iff}
use dewy.Registry.SemVer.Search.{
  candidate_iff, find_latest_sem_ver_with_slot-Finds, find_latest_releases-Finds,
}
use dewy.Registry.Latest.{Finds}

abbrev rc_1 : Text
rc_1 = codes "rc.1"

abbrev rc_10 : Text
rc_10 = codes "rc.10"

rc_1-IsModest : IsModest rc_1
unfolding split is_numeric is_signed decimal
rc_1-IsModest = ((λ h. omega arith, refl), ((λ h. omega arith, refl), tt))

rc_10-IsModest : IsModest rc_10
unfolding split is_numeric is_signed decimal
rc_10-IsModest = ((λ h. omega arith, refl), ((λ h. omega arith, refl), tt))

compare_pre_release-precedence_example :
    sign (compare_pre_release rc_1 rc_10) ≡ precedence rc_1 rc_10
compare_pre_release-precedence_example =
    compare_pre_release-precedence rc_1 rc_10 rc_1-IsModest rc_10-IsModest

compare_pre_release-signed_example :
    (sign (compare_pre_release (codes "1") (codes "-1")) ≡ gt)
    × (precedence (codes "1") (codes "-1") ≡ lt)
unfolding split is_numeric decimal
compare_pre_release-signed_example =
    compare_pre_release-signed (codes "1") (codes "-1") (codes "1") (codes "1") [] [] refl refl refl
      refl (omega arith) (omega arith)

-- The difference of 9223372036854775807 and -1 wraps around.
wraps : compare_pre_release (codes "9223372036854775807") (codes "-1") ≡ negsuc 9223372036854775807
unfolding compare_pre_release split atoi text_eq compare_identifiers compare_identifier int_sub
wraps = refl

abbrev version_1_2_3_rc : SemVer
version_1_2_3_rc = record {
  v = codes "v";
  major = 1;
  minor = 2;
  patch = 3;
  pre_release = rc_1;
  build_metadata = codes "blue";
}

abbrev version_1_10_0 : SemVer
version_1_10_0 = record {
  v = [];
  major = 1;
  minor = 10;
  patch = 0;
  pre_release = [];
  build_metadata = [];
}

compare-sem_ver_cmp_example :
    sign (compare version_1_2_3_rc version_1_10_0) ≡ sem_ver_cmp version_1_2_3_rc version_1_10_0
compare-sem_ver_cmp_example =
    compare-sem_ver_cmp version_1_2_3_rc version_1_10_0
      (record { major_fits = omega arith; minor_fits = omega arith; patch_fits = omega arith })
      (record { major_fits = omega arith; minor_fits = omega arith; patch_fits = omega arith })
      rc_1-IsModest IsModest-nil

version_1_2_3_rc-IsValid : IsValid version_1_2_3_rc
version_1_2_3_rc-IsValid = record {
  v_form = inr refl;
  major_fits = omega arith;
  minor_fits = omega arith;
  patch_fits = omega arith;
  pre_release_bytes = (refl, (refl, (refl, (refl, tt))));
  build_metadata_bytes = (refl, (refl, (refl, (refl, tt))));
}

parse_sem_ver-string_example : parse_sem_ver (string version_1_2_3_rc) ≡ some version_1_2_3_rc
parse_sem_ver-string_example = parse_sem_ver-string version_1_2_3_rc version_1_2_3_rc-IsValid

abbrev groups_1_2_3_rc : Groups
groups_1_2_3_rc = record {
  v = codes "v";
  major = codes "1";
  minor = codes "2";
  patch = codes "3";
  pre_release = rc_1;
  build_metadata = [];
}

groups_1_2_3_rc-IsWellFormed : IsWellFormed groups_1_2_3_rc
groups_1_2_3_rc-IsWellFormed = record {
  v = inr refl;
  major_digits = (refl, tt);
  major_some = λ e. cc;
  minor_digits = (refl, tt);
  minor_some = λ e. cc;
  patch_digits = (refl, tt);
  patch_some = λ e. cc;
  pre_release_bytes = (refl, (refl, (refl, (refl, tt))));
  build_metadata_bytes = tt;
}

find_groups-spell_example : find_groups (spell groups_1_2_3_rc) ≡ some groups_1_2_3_rc
find_groups-spell_example = find_groups-spell groups_1_2_3_rc groups_1_2_3_rc-IsWellFormed

find_groups_sound_example :
    IsWellFormed groups_1_2_3_rc × (spell groups_1_2_3_rc ≡ spell groups_1_2_3_rc)
find_groups_sound_example =
    find_groups_sound (spell groups_1_2_3_rc) groups_1_2_3_rc
      (find_groups-spell groups_1_2_3_rc groups_1_2_3_rc-IsWellFormed)

find_release_groups_iff_example :
    (find_release_groups (codes "v1.2.3-rc.1") ≡ some groups_1_2_3_rc)
    ↔ ((find_groups (codes "v1.2.3-rc.1") ≡ some groups_1_2_3_rc) × (rc_1 ≡ []))
find_release_groups_iff_example = find_release_groups_iff (codes "v1.2.3-rc.1") groups_1_2_3_rc

abbrev names : List Text
names = codes "v1.2.3" ∷ codes "latest" ∷ codes "v1.10.0-rc.1" ∷ codes "v1.9.0" ∷ []

find_latest_releases-Finds_example :
    Finds (candidate [] false) sem_ver_cmp names (find_latest_sem_ver_with_slot names [] false)
find_latest_releases-Finds_example = find_latest_releases-Finds names []

-- What a name is read as is the version that is spelled so.
read_as :
    (n : Text) (v : SemVer)
    → In n (string version_1_2_3_rc ∷ [])
    → candidate [] true n ≡ some v
    → IsModest v.pre_release
read_as n v (inl here) e =
    let parsed : parse_sem_ver (string version_1_2_3_rc) ≡ some v =
      rw here at ((candidate_iff [] true n v).0 e).parsed in
    subst (λ (w : SemVer). IsModest w.pre_release)
      (some-injective version_1_2_3_rc v
        (sym (parse_sem_ver-string version_1_2_3_rc version_1_2_3_rc-IsValid) ∙ parsed))
      rc_1-IsModest
read_as n v (inr none_left) e = absurd none_left

find_latest_sem_ver_with_slot-Finds_example :
    Finds
      (candidate [] true)
      sem_ver_cmp
      (string version_1_2_3_rc ∷ [])
      (find_latest_sem_ver_with_slot (string version_1_2_3_rc ∷ []) [] true)
find_latest_sem_ver_with_slot-Finds_example =
    find_latest_sem_ver_with_slot-Finds (string version_1_2_3_rc ∷ []) [] true read_as
