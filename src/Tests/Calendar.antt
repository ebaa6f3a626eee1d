-- ===== src/Tests/Calendar.antt =====
-- registry/calver.go on concrete versions.
use mathlib.Core.Path.{subst}
use dewy.Common.{
  ◌≡◌, refl, sym, inl, inr, false, some, List, [], ◌∷◌, arith, In, Text, codes, has_prefix, sign,
}
use dewy.Registry.PreRelease.Precedence.{IsModest, IsModest-nil}
use dewy.Registry.CalVer.Format.{
  Part, CalVerFormat, specifier, literal, yyyy, mm, format_parts, find_specifier,
  new_cal_ver_format, specifiers_of,
}
use dewy.Registry.CalVer.{CalVer, compare, candidate, find_latest_cal_ver_with_slot}
use dewy.Registry.CalVer.Precedence.{cal_ver_cmp, compare-cal_ver_cmp}
use dewy.Registry.CalVer.Rounds.{format_parts_total}
use dewy.Registry.CalVer.Search.{candidate_iff, find_latest_cal_ver_with_slot-Finds}
use dewy.Registry.Latest.{Finds}

abbrev spring : CalVer
spring = record {
  v = [];
  segments = 2024 ∷ 3 ∷ 1 ∷ [];
  pre_release = [];
  build_metadata = [];
  original = codes "2024.03.1";
}

abbrev summer : CalVer
summer = record {
  v = codes "v";
  segments = 2024 ∷ 6 ∷ [];
  pre_release = [];
  build_metadata = [];
  original = codes "v2024.06";
}

compare-cal_ver_cmp_example : sign (compare spring summer) ≡ cal_ver_cmp spring summer
compare-cal_ver_cmp_example =
    compare-cal_ver_cmp spring summer (omega arith, (omega arith, (omega arith, tt)))
      (omega arith, (omega arith, tt)) IsModest-nil IsModest-nil

abbrev format : Text
format = codes "YYYY.MM"

abbrev year_month : CalVerFormat
year_month = record {
  format = format;
  parts = specifier yyyy ∷ literal b'.' ∷ specifier mm ∷ [];
  segments = yyyy ∷ mm ∷ [];
}

new_cal_ver_format_example : new_cal_ver_format format ≡ some year_month
unfolding new_cal_ver_format format_parts find_specifier has_prefix specifiers_of
new_cal_ver_format_example = refl

abbrev march : CalVer
march = record {
  v = [];
  segments = 2024 ∷ 3 ∷ [];
  pre_release = [];
  build_metadata = [];
  original = codes "2024.3";
}

abbrev names : List Text
names = codes "2024.3" ∷ []

read_as :
    (n : Text) (v : CalVer)
    → In n names
    → candidate year_month [] false n ≡ some v
    → IsModest v.pre_release
read_as n v here e = elim ((candidate_iff year_month [] false n v).0 e).stage [
  | inl allowed ↦ cc
  | inr release ↦ subst (λ (s : Text). IsModest s) (sym release) IsModest-nil
]

find_latest_cal_ver_with_slot-Finds_example :
    Finds
      (candidate year_month [] false)
      cal_ver_cmp
      names
      (find_latest_cal_ver_with_slot names format [] false)
find_latest_cal_ver_with_slot-Finds_example =
    find_latest_cal_ver_with_slot-Finds names format [] false year_month new_cal_ver_format_example
      read_as

format_parts_total_example : (parts : List Part) × (format_parts 7 format ≡ some parts)
format_parts_total_example = format_parts_total 7 format (omega arith)
