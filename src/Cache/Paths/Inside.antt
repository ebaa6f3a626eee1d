-- ===== src/Cache/Paths/Inside.antt =====
-- Where the keys that `validateKeyPath` of cache/file.go accepts lead to.
use dewy.Common.{
  ◌≡◌, refl, ap, sym, ◌∙◌, inl, inr, Bool, true, false, ◌||◌, none, some, List, [], ◌∷◌, ◌++◌,
  append_assoc, arith, if◌then◌else◌, Bool-cases, eq_of_==, All, Text, codes, text_eq, has_prefix,
  split, split-NoByte, NoByte, eq_of_text_eq,
}
use mathlib.Core.Option.{some-injective}
use dewy.Cache.Paths.{
  dot_dot, is_rooted, up, push, walk, reverse_onto, elements, spell, render, clean, join,
  with_separator, is_within, validate_key_path,
}

-- An element that leads downwards: it is not empty, it is not .. and it has no separator in it.
abbrev pub IsDown : Text → Type 0
IsDown e = (text_eq e [] ≡ false) × (text_eq e dot_dot ≡ false) × NoByte b'/' e

up-IsDown : (stack : List Text) → All IsDown stack → All IsDown (up true stack)
unfolding up
up-IsDown [] h = tt
up-IsDown (e ∷ stack) ((p, n, q), h) = rw n h

push-IsDown :
    (e : Text) (stack : List Text)
    → NoByte b'/' e
    → All IsDown stack
    → All IsDown (push true e stack)
unfolding push
push-IsDown e stack plain h = elim (Bool-cases (text_eq e [] || text_eq e (codes "."))) [
  | inl y ↦ rw y h
  | inr n ↦ rw n (elim (Bool-cases (text_eq e dot_dot)) [
    | inl y ↦ rw y (up-IsDown stack h)
    | inr m ↦ rw m ((ground (arith, n), m, plain), h)
  ])
]

walk-IsDown :
    (es stack : List Text)
    → All (NoByte b'/') es
    → All IsDown stack
    → All IsDown (walk true es stack)
unfolding walk
walk-IsDown [] stack plain h = h
walk-IsDown (e ∷ es) stack (p, plain) h =
    walk-IsDown es (push true e stack) plain (push-IsDown e stack p h)

reverse_onto-All :
    (P : Text → Type 0) (stack es : List Text)
    → All P stack
    → All P es
    → All P (reverse_onto stack es)
unfolding reverse_onto
reverse_onto-All P [] es h k = k
reverse_onto-All P (e ∷ stack) es (p, h) k = reverse_onto-All P stack (e ∷ es) h (p, k)

-- Below the root, no element of a cleaned path leads upwards.
elements-IsDown : (p : Text) → is_rooted p ≡ true → All IsDown (elements p)
unfolding elements
elements-IsDown p h = rw h (
    reverse_onto-All IsDown (walk true (split p b'/') []) []
      (walk-IsDown (split p b'/') [] (split-NoByte p b'/') tt) tt)

-- What is spelled by the elements behind the first separator, with the one at the end.
behind : List Text → Text
behind [] = []
behind (e ∷ es) = e ++ b'/' ∷ behind es

spell-behind : (es : List Text) → with_separator (spell es) ≡ b'/' ∷ behind es
unfolding spell behind with_separator
spell-behind [] = refl
spell-behind (e ∷ es) =
    ap (λ t. b'/' ∷ t) (append_assoc e (spell es) (b'/' ∷ []) ∙ ap (λ t. e ++ t) (spell-behind es))

-- The texts before the first separator are equal where one text is a prefix of the other.
has_prefix-cut :
    (a b s t : Text)
    → NoByte b'/' a
    → NoByte b'/' b
    → has_prefix (a ++ b'/' ∷ s) (b ++ b'/' ∷ t) ≡ true
    → (a ≡ b) × (has_prefix s t ≡ true)
unfolding has_prefix
has_prefix-cut [] [] s t p q h = (refl, h)
has_prefix-cut [] (d ∷ b) s t p (n, q) h = absurd (ground (arith, h, n))
has_prefix-cut (c ∷ a) [] s t (n, p) q h = absurd (ground (arith, h, n))
has_prefix-cut (c ∷ a) (d ∷ b) s t (m, p) (n, q) h =
    let (e, k) = has_prefix-cut a b s t p q (ground (arith, h)) in
    let first : c ≡ d = eq_of_== c d (ground (arith, h)) in (rw (first, e) refl, k)

has_prefix-nothing : (b t : Text) → has_prefix [] (b ++ b'/' ∷ t) ≡ false
unfolding has_prefix
has_prefix-nothing [] t = refl
has_prefix-nothing (d ∷ b) t = refl

-- The elements of a path go on from those of another one.
abbrev pub Extends : List Text → List Text → Type 0
Extends es bs = (rest : List Text) × (es ≡ bs ++ rest) × All IsDown rest

behind-Extends :
    (es bs : List Text)
    → All IsDown es
    → All IsDown bs
    → has_prefix (behind es) (behind bs) ≡ true
    → Extends es bs
unfolding behind
behind-Extends es [] p q h = (es, refl, p)
behind-Extends [] (b ∷ bs) p q h = absurd (ground (arith, h, has_prefix-nothing b (behind bs)))
behind-Extends (e ∷ es) (b ∷ bs) ((p0, p1, p2), p) ((q0, q1, q2), q) h =
    let (same, k) = has_prefix-cut e b (behind es) (behind bs) p2 q2 h in
    let (rest, goes_on, down) = behind-Extends es bs p q k in
    (rest, ap (λ t. t ∷ es) same ∙ ap (λ l. b ∷ l) goes_on, down)

has_prefix-behind :
    (es bs : List Text)
    → has_prefix (with_separator (spell es)) (with_separator (spell bs)) ≡ true
    → has_prefix (behind es) (behind bs) ≡ true
unfolding has_prefix
has_prefix-behind es bs h = rw (spell-behind es, spell-behind bs) at h

render-Extends :
    (es bs : List Text)
    → All IsDown es
    → All IsDown bs
    → has_prefix (with_separator (render true es)) (with_separator (render true bs)) ≡ true
    → Extends es bs
unfolding render has_prefix with_separator text_eq
render-Extends es [] p q h = (es, refl, p)
render-Extends [] ([] ∷ bs) p ((n, q1, q2), q) h = absurd (cc)
render-Extends [] ((d ∷ b) ∷ bs) p ((q0, q1, (n, q2)), q) h = absurd (ground (arith, h, n))
render-Extends (e ∷ es) (b ∷ bs) p q h =
    behind-Extends (e ∷ es) (b ∷ bs) p q (has_prefix-behind (e ∷ es) (b ∷ bs) h)

render-rooted : (es : List Text) → is_rooted (render true es) ≡ true
unfolding is_rooted render spell
render-rooted [] = refl
render-rooted (e ∷ es) = refl

clean-render : (p : Text) → is_rooted p ≡ true → clean p ≡ render true (elements p)
unfolding clean
clean-render p h = ap (λ r. render r (elements p)) h

is_within-has_prefix :
    (base p : Text)
    → is_within base p ≡ true
    → has_prefix (with_separator (clean p)) (with_separator (clean base)) ≡ true
unfolding is_within has_prefix
is_within-has_prefix base p h =
    elim (Bool-cases (has_prefix (with_separator (clean p)) (with_separator (clean base)))) [
      | inl y ↦ y
      | inr n ↦
          let same : clean p ≡ clean base =
            eq_of_text_eq (clean p) (clean base) (ground (arith, h, n)) in
          rw same (has_prefix-same (with_separator (clean base)))
    ]
  where
    has_prefix-same : (t : Text) → has_prefix t t ≡ true
    has_prefix-same [] = refl
    has_prefix-same (c ∷ t) = ground (arith, has_prefix-same t)

-- A path that is in the directory, or is the directory, goes on from its elements.
is_within-Extends :
    (base p : Text)
    → is_rooted base ≡ true
    → is_rooted p ≡ true
    → is_within base p ≡ true
    → Extends (elements p) (elements base)
is_within-Extends base p rooted h inside =
    let found = is_within-has_prefix base p inside in
    render-Extends (elements p) (elements base) (elements-IsDown p h) (elements-IsDown base rooted)
      (rw (clean-render p h, clean-render base rooted) at found)

clean-rooted : (p : Text) → is_rooted p ≡ true → is_rooted (clean p) ≡ true
clean-rooted p h = ap is_rooted (clean-render p h) ∙ render-rooted (elements p)

join-rooted : (base key : Text) → is_rooted base ≡ true → is_rooted (join base key) ≡ true
unfolding join is_rooted
join-rooted [] key h = absurd (cc)
join-rooted (c ∷ base) [] h = clean-rooted (c ∷ base) h
join-rooted (c ∷ base) (d ∷ key) h = clean-rooted ((c ∷ base) ++ b'/' ∷ d ∷ key) h

-- The path begins at the root and its elements go on from those of the directory, by elements that
-- are not empty and not .. and have no separator in them.
abbrev pub IsInside : Text → Text → Type 0
IsInside base p = (is_rooted p ≡ true) × Extends (elements p) (elements base)

-- A key that is accepted, for a directory whose path begins at the root, leads to a path whose
-- elements, when it is cleaned, are those of the directory and then elements that lead downwards.
pub validate_key_path-IsInside :
    (base key p : Text)
    → is_rooted base ≡ true
    → validate_key_path base key ≡ some p
    → IsInside base p
unfolding validate_key_path
validate_key_path-IsInside base key p rooted h =
    let (inside, same) = some_if (is_within base (join base key)) (join base key) p h in
    rw (sym same) (
      join-rooted base key rooted,
      is_within-Extends base (join base key) rooted (join-rooted base key rooted) inside,
    )
  where
    some_if : (b : Bool) (q r : Text) → (if b then some q else none) ≡ some r → (b ≡ true) × (q ≡ r)
    some_if true q r h = (refl, some-injective q r h)
    some_if false q r h = absurd (cc)
