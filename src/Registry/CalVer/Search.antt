-- ===== src/Registry/CalVer/Search.antt =====
-- What `FindLatestCalVerWithSlot` of registry/calver.go chooses.
use dewy.Common.{
  ◌≡◌, refl, ap, ◌∙◌, ◌↔◌, ◌⊎◌, inl, inr, Bool, true, some, List, [], ◌∷◌, arith, Option-cases, In,
  Text, text_eq_iff, ◌>>=◌,
}
use dewy.Registry.Latest.{Finds, find_latest-Finds}
use dewy.Registry.PreRelease.Precedence.{IsModest}
use dewy.Registry.SemVer.{is_empty}
use dewy.Registry.CalVer.{CalVer, parse, candidate, is_later, find_latest_cal_ver_with_slot}
use dewy.Registry.CalVer.Format.{CalVerFormat, new_cal_ver_format}
use dewy.Registry.CalVer.Parsing.{parse-spelled}
use dewy.Registry.CalVer.Precedence.{
  cal_ver_cmp, cal_ver_cmp-IsOrder, is_later-cal_ver_cmp, InRange,
}

-- What the search may choose: a version of the slot, if one is asked for, and a release unless
-- pre-releases are allowed.
pub record IsEligible (f : CalVerFormat) (slot : Text) (allow_pre_release : Bool) (name : Text)
    (ver : CalVer) : Type 0 where
  pub parsed : parse f name ≡ some ver
  pub in_slot : (slot ≡ []) ⊎ (ver.build_metadata ≡ slot)
  pub stage : (allow_pre_release ≡ true) ⊎ (ver.pre_release ≡ [])

is_empty-true : (s : Text) → is_empty s ≡ true → s ≡ []
is_empty-true [] h = refl
is_empty-true (c ∷ s) h = cc

candidate_sound :
    (f : CalVerFormat) (slot : Text) (allow_pre_release : Bool) (name : Text) (ver : CalVer)
    → candidate f slot allow_pre_release name ≡ some ver
    → IsEligible f slot allow_pre_release name ver
unfolding candidate ◌>>=◌
candidate_sound f slot allow name ver h = elim (Option-cases (parse f name)) [
  | inl e ↦ absurd (cc (rw e at h))
  | inr (v, e) ↦
      let same : v ≡ ver = ground arith in
      record {
        parsed = e ∙ ap some same;
        in_slot = ground (arith, is_empty-true slot, text_eq_iff ver.build_metadata slot);
        stage = ground (arith, is_empty-true ver.pre_release);
      }
]

candidate_complete :
    (f : CalVerFormat) (slot : Text) (allow_pre_release : Bool) (name : Text) (ver : CalVer)
    → IsEligible f slot allow_pre_release name ver
    → candidate f slot allow_pre_release name ≡ some ver
unfolding candidate ◌>>=◌
candidate_complete f slot allow name ver h =
    ground
      (arith, h.parsed, h.in_slot, h.stage, is_empty-true slot, text_eq_iff ver.build_metadata slot)

-- A name stands for a version that the search may choose exactly where it is eligible.
pub candidate_iff :
    (f : CalVerFormat) (slot : Text) (allow_pre_release : Bool) (name : Text) (ver : CalVer)
    → (candidate f slot allow_pre_release name ≡ some ver)
      ↔ IsEligible f slot allow_pre_release name ver
candidate_iff f slot allow name ver =
    (candidate_sound f slot allow name ver, candidate_complete f slot allow name ver)

parse-InRange :
    (f : CalVerFormat) (s : Text) (ver : CalVer) → parse f s ≡ some ver → InRange ver.segments
parse-InRange f s ver h = (parse-spelled f s ver h).3

-- For a format without an error the search finds the latest of the eligible versions, the first
-- of them in the list, where no identifier of digits in a pre-release is too large for `int`, and
-- none is a sign and digits; it finds nothing exactly where no name is eligible.
pub find_latest_cal_ver_with_slot-Finds :
    (names : List Text) (format slot : Text) (allow_pre_release : Bool) (f : CalVerFormat)
    → new_cal_ver_format format ≡ some f
    → ((n : Text) (v : CalVer)
        → In n names
        → candidate f slot allow_pre_release n ≡ some v
        → IsModest v.pre_release)
    → Finds
        (candidate f slot allow_pre_release)
        cal_ver_cmp
        names
        (find_latest_cal_ver_with_slot names format slot allow_pre_release)
unfolding find_latest_cal_ver_with_slot ◌>>=◌
find_latest_cal_ver_with_slot-Finds names format slot allow f e modest = rw e (
    find_latest-Finds (candidate f slot allow) is_later cal_ver_cmp cal_ver_cmp-IsOrder
      (λ v. InRange v.segments × IsModest v.pre_release)
      (λ v w (hv, mv) (hw, mw). is_later-cal_ver_cmp v w hv hw mv mw) names
      (λ n v m c.
        (parse-InRange f n v ((candidate_iff f slot allow n v).0 c).parsed, modest n v m c)))
