-- ===== src/Registry/CalVer/Precedence.antt =====
-- The order of the calendar versions, which `(*CalVer).Compare` computes.
use dewy.Common.{
  ℕ, compare as nat_compare, Ordering, lt, eq, List, [], ◌∷◌, ℤ, sign, sign-int_sub_pos, max_int,
  ◌≤◌, ◌≡◌, refl, arith, All,
}
use dewy.Order.Base.{flip, then_by, IsOrder, on-IsOrder, then_by-IsOrder}
use dewy.Registry.Latest.{is_gt}
use dewy.Registry.PreRelease.Precedence.{IsModest}
use dewy.Registry.SemVer.Precedence.{stage_cmp, stage_cmp-IsOrder, stage-stage_cmp}
use dewy.Registry.CalVer.{CalVer, compare_segments, compare, is_later}

-- Segment by segment, the shorter list continued by zeros.
pub padded_cmp : List ℕ → List ℕ → Ordering
padded_cmp [] [] = eq
padded_cmp [] (b ∷ bs) = then_by (nat_compare 0 b) (padded_cmp [] bs)
padded_cmp (a ∷ as') [] = then_by (nat_compare a 0) (padded_cmp as' [])
padded_cmp (a ∷ as') (b ∷ bs) = then_by (nat_compare a b) (padded_cmp as' bs)

padded_cmp-flips : (xs ys : List ℕ) → padded_cmp ys xs ≡ flip (padded_cmp xs ys)
unfolding padded_cmp
padded_cmp-flips [] [] = refl
padded_cmp-flips [] (b ∷ bs) = ground (arith, padded_cmp-flips [] bs)
padded_cmp-flips (a ∷ as') [] = ground (arith, padded_cmp-flips as' [])
padded_cmp-flips (a ∷ as') (b ∷ bs) = ground (arith, padded_cmp-flips as' bs)

padded_cmp-eq_left :
    (xs ys zs : List ℕ) → padded_cmp xs ys ≡ eq → padded_cmp xs zs ≡ padded_cmp ys zs
unfolding padded_cmp
padded_cmp-eq_left [] [] zs h = refl
padded_cmp-eq_left [] (b ∷ ys) [] h = ground (arith, padded_cmp-eq_left [] ys [])
padded_cmp-eq_left (a ∷ xs) [] [] h = ground (arith, padded_cmp-eq_left xs [] [])
padded_cmp-eq_left (a ∷ xs) (b ∷ ys) [] h = ground (arith, padded_cmp-eq_left xs ys [])
padded_cmp-eq_left [] (b ∷ ys) (c ∷ zs) h = ground (arith, padded_cmp-eq_left [] ys zs)
padded_cmp-eq_left (a ∷ xs) [] (c ∷ zs) h = ground (arith, padded_cmp-eq_left xs [] zs)
padded_cmp-eq_left (a ∷ xs) (b ∷ ys) (c ∷ zs) h = ground (arith, padded_cmp-eq_left xs ys zs)

padded_cmp-lt_trans :
    (xs ys zs : List ℕ) → padded_cmp xs ys ≡ lt → padded_cmp ys zs ≡ lt → padded_cmp xs zs ≡ lt
unfolding padded_cmp
padded_cmp-lt_trans [] [] zs h k = k
padded_cmp-lt_trans [] (b ∷ ys) [] h k = ground (arith, padded_cmp-lt_trans [] ys [])
padded_cmp-lt_trans (a ∷ xs) [] [] h k = h
padded_cmp-lt_trans (a ∷ xs) (b ∷ ys) [] h k = ground (arith, padded_cmp-lt_trans xs ys [])
padded_cmp-lt_trans [] (b ∷ ys) (c ∷ zs) h k = ground (arith, padded_cmp-lt_trans [] ys zs)
padded_cmp-lt_trans (a ∷ xs) [] (c ∷ zs) h k = ground (arith, padded_cmp-lt_trans xs [] zs)
padded_cmp-lt_trans (a ∷ xs) (b ∷ ys) (c ∷ zs) h k = ground (arith, padded_cmp-lt_trans xs ys zs)

pub padded_cmp-IsOrder : IsOrder padded_cmp
padded_cmp-IsOrder = record {
  flips = padded_cmp-flips;
  eq_left = padded_cmp-eq_left;
  lt_trans = padded_cmp-lt_trans;
}

-- By segments, and then by stage.
pub cal_ver_cmp : CalVer → CalVer → Ordering
cal_ver_cmp a b = then_by (padded_cmp a.segments b.segments) (stage_cmp a.pre_release b.pre_release)

pub cal_ver_cmp-IsOrder : IsOrder cal_ver_cmp
unfolding cal_ver_cmp
cal_ver_cmp-IsOrder =
    then_by-IsOrder (on-IsOrder (λ (v : CalVer). v.segments) padded_cmp-IsOrder)
      (on-IsOrder (λ (v : CalVer). v.pre_release) stage_cmp-IsOrder)

abbrev pub InRange : List ℕ → Type 0
InRange = All (λ n. n ≤ max_int)

sign-compare_segments :
    (xs ys : List ℕ) (rest : ℤ)
    → InRange xs
    → InRange ys
    → sign (compare_segments xs ys rest) ≡ then_by (padded_cmp xs ys) (sign rest)
unfolding compare_segments padded_cmp
sign-compare_segments [] [] rest h k = refl
sign-compare_segments [] (b ∷ bs) rest h k =
    ground (arith, sign-int_sub_pos 0 b (omega arith) k.0, sign-compare_segments [] bs rest tt k.1)
sign-compare_segments (a ∷ as') [] rest h k =
    ground (arith, sign-int_sub_pos a 0 h.0 (omega arith), sign-compare_segments as' [] rest h.1 tt)
sign-compare_segments (a ∷ as') (b ∷ bs) rest h k =
    ground (arith, sign-int_sub_pos a b h.0 k.0, sign-compare_segments as' bs rest h.1 k.1)

-- `Compare` has the sign of the order of calendar versions, where the segments are in the range of
-- `int`, no identifier of digits in a pre-release is too large for it, and none is a sign and digits.
pub compare-cal_ver_cmp :
    (v other : CalVer)
    → InRange v.segments
    → InRange other.segments
    → IsModest v.pre_release
    → IsModest other.pre_release
    → sign (compare v other) ≡ cal_ver_cmp v other
unfolding compare cal_ver_cmp
compare-cal_ver_cmp v other h k p q = rw (
  sign-compare_segments v.segments other.segments _ h k,
  stage-stage_cmp v.pre_release other.pre_release p q,
)

pub is_later-cal_ver_cmp :
    (v other : CalVer)
    → InRange v.segments
    → InRange other.segments
    → IsModest v.pre_release
    → IsModest other.pre_release
    → is_later v other ≡ is_gt (cal_ver_cmp v other)
unfolding is_later
is_later-cal_ver_cmp v other h k p q = ground (arith, compare-cal_ver_cmp v other h k p q)
