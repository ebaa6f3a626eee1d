-- ===== src/Order/Lexicographic.antt =====
-- Lists in dictionary order, the shorter first.
use dewy.Common.{Ordering, lt, eq, gt, ◌≡◌, refl, arith, List, [], ◌∷◌}
use dewy.Order.Base.{flip, then_by, IsOrder, eq_right}

module _ {ℓ} {A : Type ℓ} (cmp : A → A → Ordering) where
  unfoldable pub lexicographic : List A → List A → Ordering
  lexicographic [] [] = eq
  lexicographic [] (b ∷ bs) = lt
  lexicographic (a ∷ as') [] = gt
  lexicographic (a ∷ as') (b ∷ bs) = then_by (cmp a b) (lexicographic as' bs)

  module _ (o : IsOrder cmp) where
    lexicographic-flips : (as' bs : List A) → lexicographic bs as' ≡ flip (lexicographic as' bs)
    unfolding lexicographic
    lexicographic-flips [] [] = refl
    lexicographic-flips [] (b ∷ bs) = refl
    lexicographic-flips (a ∷ as') [] = refl
    lexicographic-flips (a ∷ as') (b ∷ bs) = ground (arith, o.flips a b, lexicographic-flips as' bs)

    lexicographic-eq_left :
        (as' bs cs : List A)
        → lexicographic as' bs ≡ eq
        → lexicographic as' cs ≡ lexicographic bs cs
    unfolding lexicographic
    lexicographic-eq_left [] [] cs h = refl
    lexicographic-eq_left [] (b ∷ bs) cs h = cc
    lexicographic-eq_left (a ∷ as') [] cs h = cc
    lexicographic-eq_left (a ∷ as') (b ∷ bs) [] h = refl
    lexicographic-eq_left (a ∷ as') (b ∷ bs) (c ∷ cs) h =
        ground (arith, o.eq_left a b c, lexicographic-eq_left as' bs cs)

    lexicographic-lt_trans :
        (as' bs cs : List A)
        → lexicographic as' bs ≡ lt
        → lexicographic bs cs ≡ lt
        → lexicographic as' cs ≡ lt
    unfolding lexicographic
    lexicographic-lt_trans as' [] [] h k = cc
    lexicographic-lt_trans as' (b ∷ bs) [] h k = cc
    lexicographic-lt_trans [] bs (c ∷ cs) h k = refl
    lexicographic-lt_trans (a ∷ as') [] (c ∷ cs) h k = cc
    lexicographic-lt_trans (a ∷ as') (b ∷ bs) (c ∷ cs) h k = ground (
      arith,
      o.eq_left a b c,
      o.lt_trans a b c,
      eq_right o a b c,
      lexicographic-lt_trans as' bs cs,
    )

    pub lexicographic-IsOrder : IsOrder lexicographic
    lexicographic-IsOrder = record {
      flips = lexicographic-flips;
      eq_left = lexicographic-eq_left;
      lt_trans = lexicographic-lt_trans;
    }
