-- ===== src/Order/Base.antt =====
-- What it takes for a comparison to be a total preorder.
use dewy.Common.{Ordering, lt, eq, gt, compare, ◌≡◌, ◌≢◌, refl, ap, arith}

abbrev pub flip : Ordering → Ordering
flip lt = gt
flip eq = eq
flip gt = lt

-- The second comparison decides where the first finds no difference.
abbrev pub then_by : Ordering → Ordering → Ordering
then_by lt o = lt
then_by eq o = o
then_by gt o = gt

pub record IsOrder {ℓ} {A : Type ℓ} (cmp : A → A → Ordering) : Type ℓ where
  pub flips : (a b : A) → cmp b a ≡ flip (cmp a b)
  pub eq_left : (a b c : A) → cmp a b ≡ eq → cmp a c ≡ cmp b c
  pub lt_trans : (a b c : A) → cmp a b ≡ lt → cmp b c ≡ lt → cmp a c ≡ lt

module _ {ℓ} {A : Type ℓ} {cmp : A → A → Ordering} (o : IsOrder cmp) where
  pub self-eq : (a : A) → cmp a a ≡ eq
  self-eq a = go (cmp a a) (o.flips a a)
    where
      go : (r : Ordering) → r ≡ flip r → r ≡ eq
      go lt h = cc
      go eq h = refl
      go gt h = cc

  pub eq_right : (a b c : A) → cmp b c ≡ eq → cmp a b ≡ cmp a c
  eq_right a b c h = rw (o.flips b a, o.flips c a) (ap flip (o.eq_left b c a h))

  -- `≤` is transitive.
  pub le_trans : (a b c : A) → cmp a b ≢ gt → cmp b c ≢ gt → cmp a c ≢ gt
  le_trans a b c h k = ground (arith, o.eq_left a b c, eq_right a b c, o.lt_trans a b c)

  pub lt_of_lt_of_le : (a b c : A) → cmp a b ≡ lt → cmp b c ≢ gt → cmp a c ≡ lt
  lt_of_lt_of_le a b c h k = ground (arith, eq_right a b c, o.lt_trans a b c)

  pub lt_of_le_of_lt : (a b c : A) → cmp a b ≢ gt → cmp b c ≡ lt → cmp a c ≡ lt
  lt_of_le_of_lt a b c h k = ground (arith, o.eq_left a b c, o.lt_trans a b c)

pub compare-IsOrder : IsOrder compare
compare-IsOrder = record {
  flips = λ a b. ground arith;
  eq_left = λ a b c h. ground arith;
  lt_trans = λ a b c h k. ground arith;
}

-- The order of a key.
pub on-IsOrder {ℓ κ} :
    {A : Type ℓ} {B : Type κ} (key : A → B) {cmp : B → B → Ordering}
    → IsOrder cmp
    → IsOrder (λ a b. cmp (key a) (key b))
on-IsOrder key o = record {
  flips = λ a b. o.flips (key a) (key b);
  eq_left = λ a b c. o.eq_left (key a) (key b) (key c);
  lt_trans = λ a b c. o.lt_trans (key a) (key b) (key c);
}

module _ {ℓ} {A : Type ℓ} {f g : A → A → Ordering} (p : IsOrder f) (q : IsOrder g) where
  pub then_by-IsOrder : IsOrder (λ a b. then_by (f a b) (g a b))
  then_by-IsOrder = record {
    flips = λ a b. ground (arith, p.flips a b, q.flips a b);
    eq_left = λ a b c h. ground (arith, p.eq_left a b c, q.eq_left a b c);
    lt_trans = λ a b c h k.
        ground (arith, p.eq_left a b c, q.lt_trans a b c, p.lt_trans a b c, eq_right p a b c);
  }
