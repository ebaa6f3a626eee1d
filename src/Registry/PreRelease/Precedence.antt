-- ===== src/Registry/PreRelease/Precedence.antt =====
-- The precedence of pre-releases of the semantic versioning rules: identifiers from left to right,
-- numbers by value and below words, words by bytes, and the shorter list first.
use dewy.Common.{
  ℕ, zero, ◌<◌, sign-int_sub_pos, sym, ap, ◌∙◌, max_int, suc, Bool, true, false, List, [], ◌∷◌,
  Text, ℤ, pos, ◌≤◌, ◌≡◌, refl, inl, inr, int_sub, sign, split, text_eq, Ordering, lt, eq, gt,
  compare, map, All, arith, Bool-cases, eq_of_text_eq, ◌+◌,
}
use dewy.Order.Base.{flip, then_by, IsOrder, compare-IsOrder, on-IsOrder, self-eq}
use dewy.Order.Lexicographic.{lexicographic, lexicographic-IsOrder}
use dewy.Registry.Atoi.{
  atoi, negate, decimal, all_digits, is_numeric, is_signed, atoi-numeric, atoi-minus, atoi-word,
}
use dewy.Registry.PreRelease.{
  strings_compare, int_eq, compare_identifier, compare_identifiers, compare_pre_release,
}

abbrev is_eq : Ordering → Bool
is_eq lt = false
is_eq eq = true
is_eq gt = false

pub data Identifier : Type 0 where
  number : ℕ → Identifier
  word : Text → Identifier

identifier_of : Bool → Text → Identifier
identifier_of true s = number (decimal 0 s)
identifier_of false s = word s

-- An identifier of digits only is a number, and any other is a word.
pub identifier : Text → Identifier
identifier s = identifier_of (is_numeric s) s

pub identifier_cmp : Identifier → Identifier → Ordering
identifier_cmp (number m) (number n) = compare m n
identifier_cmp (number m) (word t) = lt
identifier_cmp (word s) (number n) = gt
identifier_cmp (word s) (word t) = lexicographic compare s t

identifier_cmp-flips : (a b : Identifier) → identifier_cmp b a ≡ flip (identifier_cmp a b)
unfolding identifier_cmp
identifier_cmp-flips (number m) (number n) = compare-IsOrder.flips m n
identifier_cmp-flips (number m) (word t) = refl
identifier_cmp-flips (word s) (number n) = refl
identifier_cmp-flips (word s) (word t) = (lexicographic-IsOrder compare compare-IsOrder).flips s t

identifier_cmp-eq_left :
    (a b c : Identifier) → identifier_cmp a b ≡ eq → identifier_cmp a c ≡ identifier_cmp b c
unfolding identifier_cmp
identifier_cmp-eq_left (number m) (number n) (number k) h = compare-IsOrder.eq_left m n k h
identifier_cmp-eq_left (word s) (word t) (word u) h =
    (lexicographic-IsOrder compare compare-IsOrder).eq_left s t u h
identifier_cmp-eq_left (number m) (number n) (word u) h = refl
identifier_cmp-eq_left (word s) (word t) (number k) h = refl
identifier_cmp-eq_left (number m) (word t) c h = cc
identifier_cmp-eq_left (word s) (number n) c h = cc

identifier_cmp-lt_trans :
    (a b c : Identifier)
    → identifier_cmp a b ≡ lt
    → identifier_cmp b c ≡ lt
    → identifier_cmp a c ≡ lt
unfolding identifier_cmp
identifier_cmp-lt_trans (number m) (number n) (number k) h l = compare-IsOrder.lt_trans m n k h l
identifier_cmp-lt_trans (word s) (word t) (word u) h l =
    (lexicographic-IsOrder compare compare-IsOrder).lt_trans s t u h l
identifier_cmp-lt_trans (number m) b (word u) h l = refl
identifier_cmp-lt_trans (word s) (number n) c h l = cc
identifier_cmp-lt_trans a (word t) (number k) h l = cc

identifier_cmp-IsOrder : IsOrder identifier_cmp
identifier_cmp-IsOrder = record {
  flips = identifier_cmp-flips;
  eq_left = identifier_cmp-eq_left;
  lt_trans = identifier_cmp-lt_trans;
}

pub identifiers : Text → List Identifier
identifiers s = map identifier (split s b'.')

pub precedence : Text → Text → Ordering
unfolding identifiers
precedence a b = lexicographic identifier_cmp (identifiers a) (identifiers b)

pub precedence-IsOrder : IsOrder precedence
unfolding precedence
precedence-IsOrder =
    on-IsOrder identifiers (lexicographic-IsOrder identifier_cmp identifier_cmp-IsOrder)

-- An identifier of digits fits `int`, and no identifier is a sign and digits, which Atoi reads as a
-- number as well.
abbrev pub IsPlainIdentifier : Text → Type 0
IsPlainIdentifier s = (is_numeric s ≡ true → decimal 0 s ≤ max_int) × (is_signed s ≡ false)

abbrev pub IsModest : Text → Type 0
IsModest s = All IsPlainIdentifier (split s b'.')

pub IsModest-nil : IsModest []
unfolding split is_numeric is_signed
IsModest-nil = ((λ h. absurd (cc), refl), tt)

-- What Atoi makes of an identifier.
Reads : Text → Identifier → ℤ × Bool → Type 0
Reads s i (z, true) = (n : ℕ) × (z ≡ pos n) × (i ≡ number n) × (n ≤ max_int)
Reads s i (z, false) = i ≡ word s

Reads-word : (s : Text) (i : Identifier) (p : ℤ × Bool) → p.1 ≡ false → i ≡ word s → Reads s i p
unfolding Reads
Reads-word s i (z, true) h e = absurd (cc)
Reads-word s i (z, false) h e = e

atoi-Reads : (s : Text) → IsPlainIdentifier s → Reads s (identifier s) (atoi s)
unfolding identifier identifier_of Reads
atoi-Reads s (fits, unsigned) = elim (Bool-cases (is_numeric s)) [
  | inl y ↦ rw (atoi-numeric s y (fits y), y) (decimal 0 s, refl, refl, fits y)
  | inr n ↦ Reads-word s (identifier s) (atoi s) (atoi-word s n unsigned) (rw (n, identifier) refl)
]

-- One round of the loop compares the identifiers, and leaves the rest to the later rounds.
sign-compare_identifier :
    (p q : ℤ × Bool) (a b : Text) (i j : Identifier) (rest : ℤ)
    → Reads a i p
    → Reads b j q
    → sign (compare_identifier p q a b rest) ≡ then_by (identifier_cmp i j) (sign rest)
unfolding compare_identifier identifier_cmp strings_compare Reads int_eq
sign-compare_identifier (x, true) (y, true) a b i j rest (m, e, f, l) (n, e', f', l') =
    rw (e, f, e', f') (ground (arith, sign-int_sub_pos m n l l'))
sign-compare_identifier (x, true) (y, false) a b i j rest (m, e, f, l) k = rw (f, k) refl
sign-compare_identifier (x, false) (y, true) a b i j rest h (n, e', f', l') = rw (h, f') refl
sign-compare_identifier (x, false) (y, false) a b i j rest h k = rw (h, k) (ground arith)

sign-compare_identifiers :
    (as' bs : List Text)
    → All IsPlainIdentifier as'
    → All IsPlainIdentifier bs
    → sign (compare_identifiers as' bs)
      ≡ lexicographic identifier_cmp (map identifier as') (map identifier bs)
unfolding compare_identifiers lexicographic
sign-compare_identifiers [] [] h k = refl
sign-compare_identifiers [] (b ∷ bs) h k = refl
sign-compare_identifiers (a ∷ as') [] h k = refl
sign-compare_identifiers (a ∷ as') (b ∷ bs) (ha, h) (hb, k) =
    sign-compare_identifier (atoi a) (atoi b) a b (identifier a) (identifier b)
      (compare_identifiers as' bs) (atoi-Reads a ha) (atoi-Reads b hb)
    ∙ ap (then_by (identifier_cmp (identifier a) (identifier b)))
        (sign-compare_identifiers as' bs h k)

-- `comparePreRelease` has the sign of the precedence of the two pre-releases, where no identifier of
-- digits is too large for `int`, and none is a sign and digits.
pub compare_pre_release-precedence :
    (a b : Text) → IsModest a → IsModest b → sign (compare_pre_release a b) ≡ precedence a b
unfolding compare_pre_release precedence identifiers
compare_pre_release-precedence a b h k = elim (Bool-cases (text_eq a b)) [
  | inl same ↦
      rw (same, eq_of_text_eq a b same)
        (sym (self-eq (lexicographic-IsOrder identifier_cmp identifier_cmp-IsOrder) _))
  | inr differ ↦ rw differ (sign-compare_identifiers (split a b'.') (split b b'.') h k)
]

first_is_numeric : List Text → Bool
first_is_numeric [] = false
first_is_numeric (x ∷ xs) = is_numeric x

-- A number is found to be higher than a negative one, or than 0 if it is not 0 itself.
higher :
    (m n : ℕ) (a b : Text) (rest : ℤ)
    → 0 < m + n
    → m + n ≤ max_int
    → sign (compare_identifier (pos m, true) (negate n, true) a b rest) ≡ gt
unfolding compare_identifier negate int_eq int_sub
higher m zero a b rest h k = ground arith
higher m (suc n) a b rest h k = ground arith

-- Where one pre-release begins with digits and the other with a minus and digits, and the two numbers
-- together fit `int` and are not both 0, the first has the lower precedence, since the identifier of
-- the other is no number, and is found to be the higher one.
pub compare_pre_release-signed :
    (a b x y : Text) (xs ys : List Text)
    → split a b'.' ≡ x ∷ xs
    → split b b'.' ≡ (b'-' ∷ y) ∷ ys
    → is_numeric x ≡ true
    → is_numeric y ≡ true
    → 0 < decimal 0 x + decimal 0 y
    → decimal 0 x + decimal 0 y ≤ max_int
    → (sign (compare_pre_release a b) ≡ gt) × (precedence a b ≡ lt)
unfolding is_numeric first_is_numeric
compare_pre_release-signed a b x y xs ys sa sb hx hy some_number small = (
  elim (Bool-cases (text_eq a b)) [
    | inl same ↦ absurd (differ (sym sa ∙ (ap (λ t. split t b'.') (eq_of_text_eq a b same) ∙ sb)))
    | inr other ↦
        unfold compare_pre_release in
        rw (other, sa, sb)
          (unfold compare_identifiers in
            rw (read_x, read_y)
              (higher (decimal 0 x) (decimal 0 y) x (b'-' ∷ y) (compare_identifiers xs ys)
                some_number small))
  ],
  unfold precedence identifiers lexicographic identifier in
      rw (sa, sb, lexicographic, hx, minus) (unfold identifier_of identifier_cmp in refl),
)
  where
    read_x : atoi x ≡ (pos (decimal 0 x), true)
    read_x = atoi-numeric x hx (omega arith)

    read_y : atoi (b'-' ∷ y) ≡ (negate (decimal 0 y), true)
    read_y = atoi-minus y hy (omega arith)

    minus : is_numeric (b'-' ∷ y) ≡ false
    minus = unfold is_numeric all_digits in refl

    differ : x ∷ xs ≡ (b'-' ∷ y) ∷ ys → ⊥
    differ e =
        let same : is_numeric x ≡ is_numeric (b'-' ∷ y) = ap first_is_numeric e in
        let no_number : true ≡ false = rw (hx, minus) at same in cc
