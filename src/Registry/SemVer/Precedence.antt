-- ===== src/Registry/SemVer/Precedence.antt =====
-- The order of the semantic versions, which `(*SemVer).Compare` computes.
use dewy.Common.{
  if◌then◌else◌, ◌&&◌, not, text_eq, compare as nat_compare, Ordering, lt, eq, gt, Text, [], ◌∷◌,
  ◌≡◌, refl, arith, sign, sign-int_sub_pos, pos, negsuc,
}
use dewy.Order.Base.{flip, then_by, IsOrder, compare-IsOrder, on-IsOrder, then_by-IsOrder}
use dewy.Registry.Latest.{is_gt}
use dewy.Registry.PreRelease.{compare_pre_release}
use dewy.Registry.PreRelease.Precedence.{
  precedence, precedence-IsOrder, IsModest, compare_pre_release-precedence,
}
use dewy.Registry.SemVer.{SemVer, compare, is_later, is_empty}
use dewy.Registry.SemVer.RoundTrip.{InRange}

-- A release comes after its pre-releases.
pub stage_cmp : Text → Text → Ordering
stage_cmp [] [] = eq
stage_cmp [] (d ∷ t) = gt
stage_cmp (c ∷ s) [] = lt
stage_cmp (c ∷ s) (d ∷ t) = precedence (c ∷ s) (d ∷ t)

stage_cmp-flips : (a b : Text) → stage_cmp b a ≡ flip (stage_cmp a b)
unfolding stage_cmp
stage_cmp-flips [] [] = refl
stage_cmp-flips [] (d ∷ t) = refl
stage_cmp-flips (c ∷ s) [] = refl
stage_cmp-flips (c ∷ s) (d ∷ t) = precedence-IsOrder.flips (c ∷ s) (d ∷ t)

stage_cmp-eq_left : (a b c : Text) → stage_cmp a b ≡ eq → stage_cmp a c ≡ stage_cmp b c
unfolding stage_cmp
stage_cmp-eq_left [] [] c h = refl
stage_cmp-eq_left [] (d ∷ t) c h = cc
stage_cmp-eq_left (x ∷ s) [] c h = cc
stage_cmp-eq_left (x ∷ s) (d ∷ t) [] h = refl
stage_cmp-eq_left (x ∷ s) (d ∷ t) (y ∷ c) h = precedence-IsOrder.eq_left (x ∷ s) (d ∷ t) (y ∷ c) h

stage_cmp-lt_trans : (a b c : Text) → stage_cmp a b ≡ lt → stage_cmp b c ≡ lt → stage_cmp a c ≡ lt
unfolding stage_cmp
stage_cmp-lt_trans (x ∷ s) (d ∷ t) (y ∷ c) h k =
    precedence-IsOrder.lt_trans (x ∷ s) (d ∷ t) (y ∷ c) h k
stage_cmp-lt_trans (x ∷ s) b [] h k = refl
stage_cmp-lt_trans (x ∷ s) [] (y ∷ c) h k = cc
stage_cmp-lt_trans [] [] c h k = cc
stage_cmp-lt_trans [] (d ∷ t) c h k = cc

pub stage_cmp-IsOrder : IsOrder stage_cmp
stage_cmp-IsOrder = record {
  flips = stage_cmp-flips;
  eq_left = stage_cmp-eq_left;
  lt_trans = stage_cmp-lt_trans;
}

-- By major, minor and patch number, and then by stage.
pub sem_ver_cmp : SemVer → SemVer → Ordering
sem_ver_cmp a b = then_by (nat_compare a.major b.major) (
    then_by (nat_compare a.minor b.minor)
      (then_by (nat_compare a.patch b.patch) (stage_cmp a.pre_release b.pre_release)))

pub sem_ver_cmp-IsOrder : IsOrder sem_ver_cmp
unfolding sem_ver_cmp
sem_ver_cmp-IsOrder = then_by-IsOrder (on-IsOrder (λ (v : SemVer). v.major) compare-IsOrder) (
    then_by-IsOrder (on-IsOrder (λ (v : SemVer). v.minor) compare-IsOrder) (
      then_by-IsOrder (on-IsOrder (λ (v : SemVer). v.patch) compare-IsOrder)
        (on-IsOrder (λ (v : SemVer). v.pre_release) stage_cmp-IsOrder)))

-- The tests of `Compare` on the pre-releases, once the numbers are equal.
pub stage-stage_cmp :
    (a b : Text)
    → IsModest a
    → IsModest b
    → sign (
        if is_empty a && not (is_empty b)
        then pos 1
        else if not (is_empty a) && is_empty b
        then negsuc 0
        else compare_pre_release a b)
      ≡ stage_cmp a b
unfolding stage_cmp compare_pre_release text_eq
stage-stage_cmp [] [] p q = refl
stage-stage_cmp [] (d ∷ t) p q = refl
stage-stage_cmp (c ∷ s) [] p q = refl
stage-stage_cmp (c ∷ s) (d ∷ t) p q = compare_pre_release-precedence (c ∷ s) (d ∷ t) p q

-- `Compare` has the sign of the order of semantic versions, where the numbers are in the range of
-- `int`, no identifier of digits in a pre-release is too large for it, and none is a sign and digits.
pub compare-sem_ver_cmp :
    (v other : SemVer)
    → InRange v
    → InRange other
    → IsModest v.pre_release
    → IsModest other.pre_release
    → sign (compare v other) ≡ sem_ver_cmp v other
unfolding compare sem_ver_cmp
compare-sem_ver_cmp v other h k p q = ground (
  arith,
  sign-int_sub_pos v.major other.major h.major_fits k.major_fits,
  sign-int_sub_pos v.minor other.minor h.minor_fits k.minor_fits,
  sign-int_sub_pos v.patch other.patch h.patch_fits k.patch_fits,
  stage-stage_cmp v.pre_release other.pre_release p q,
)

pub is_later-sem_ver_cmp :
    (v other : SemVer)
    → InRange v
    → InRange other
    → IsModest v.pre_release
    → IsModest other.pre_release
    → is_later v other ≡ is_gt (sem_ver_cmp v other)
unfolding is_later
is_later-sem_ver_cmp v other h k p q = ground (arith, compare-sem_ver_cmp v other h k p q)
