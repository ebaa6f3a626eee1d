-- ===== src/Registry/CalVer/Parsing.antt =====
-- What `(*CalVerFormat).Parse` of registry/calver.go accepts.
use mathlib.Core.Option.{some-injective}
use mathlib.Core.Path.{subst, ap₂}
use dewy.Common.{
  ℕ, ◌≤◌, ◌≡◌, refl, ap, ◌∙◌, ◌⊎◌, inl, inr, true, Option, none, some, List, [], ◌∷◌, ◌++◌,
  append_assoc, append-nil, map, arith, ◌==◌, if◌then◌else◌, Bool-cases, Option-cases, eq_of_==,
  length, drop, All, All-map, All-weaken, All-flat_map, Text, has_prefix, has_prefix-drop, max_int,
  pos_part, Returns, Returns-some, Returns-bind,
}
use dewy.Registry.Atoi.{atoi, decimal, atoi-digits, atoi-le-max_int, is_digit}
use dewy.Registry.Pattern.{IdentifierBytes}
use dewy.Registry.SemVer.{prefixed}
use dewy.Registry.SemVer.Grammar.{optional_group-Returns, end_of_text-Returns}
use dewy.Registry.CalVer.{
  CalVer, Submatch, match_parts, suffixes, first_submatch, find_submatch, or_else, parse_segments,
  parse,
}
use dewy.Registry.CalVer.Format.{
  Specifier, yyyy, Part, specifier, literal, literal_text, specifiers_of, specifier_pattern,
  CalVerFormat,
}
use dewy.Registry.CalVer.Patterns.{Fits, specifier_pattern-Fits}

-- One text for each specifier, which fits it.
abbrev pub FitAll : List Specifier → List Text → Type 0
FitAll [] [] = Unit
FitAll [] (t ∷ texts) = ⊥
FitAll (spec ∷ specs) [] = ⊥
FitAll (spec ∷ specs) (t ∷ texts) = Fits spec t × FitAll specs texts

-- The parts with the texts in place of the specifiers.
pub spell_parts : List Part → List Text → Text
spell_parts [] texts = []
spell_parts (specifier spec ∷ parts) [] = []
spell_parts (specifier spec ∷ parts) (t ∷ texts) = t ++ spell_parts parts texts
spell_parts (literal c ∷ parts) texts = literal_text c ++ spell_parts parts texts

-- A way to match the parts at the start of the text.
abbrev Way : List Part → Text → List Text × Text → Type 0
Way parts s (texts, rest) =
    FitAll (specifiers_of parts) texts × (spell_parts parts texts ++ rest ≡ s)

match_parts-Way : (parts : List Part) (s : Text) → All (Way parts s) (match_parts parts s)
unfolding match_parts spell_parts specifiers_of
match_parts-Way [] s = ((tt, refl), tt)
match_parts-Way (specifier spec ∷ parts) s =
    All-flat_map _ _ _ (specifier_pattern spec s)
      (λ a (whole, fits).
        All-map _ _ _ (match_parts parts a.1)
          (λ b (fit_all, rest). (
            (fits, fit_all),
            append_assoc a.0 (spell_parts parts b.0) b.1
                ∙ (ap (λ (t : Text). a.0 ++ t) rest ∙ whole),
          ))
          (match_parts-Way parts a.1))
      ((specifier_pattern-Fits spec).at s)
match_parts-Way (literal c ∷ parts) s = elim (Bool-cases (has_prefix s (literal_text c))) [
  | inl y ↦ rw y (
      All-weaken _ _ (match_parts parts (drop (length (literal_text c)) s))
        (λ (texts, rest) (fit_all, e). (
          fit_all,
          append_assoc (literal_text c) (spell_parts parts texts) rest
              ∙ (ap (λ (t : Text). literal_text c ++ t) e ∙ has_prefix-drop s (literal_text c) y),
        ))
        (match_parts-Way parts (drop (length (literal_text c)) s)))
  | inr n ↦ rw n tt
]

suffixes-Returns :
    (s : Text)
    → Returns
        (λ r.
          (prefixed b'-' r.0 ++ prefixed b'+' r.1 ≡ s) × IdentifierBytes r.0 × IdentifierBytes r.1)
        (suffixes s)
unfolding suffixes
suffixes-Returns s = Returns-bind _ _ _ _ (optional_group-Returns b'-' s) λ (pre, s₁) (e₁, b₁).
    Returns-bind _ _ _ _ (optional_group-Returns b'+' s₁) λ (build, s₂) (e₂, b₂).
      Returns-bind _ _ _ _ (end_of_text-Returns s₂)
        λ _ e₃. Returns-some _ _ (cc (append-nil (prefixed b'+' build), e₁, e₂, e₃), b₁, b₂)

-- The text is what the groups of a match spell, and they are what the pattern asks for.
pub record IsMatch (parts : List Part) (s : Text) (m : Submatch) : Type 0 where
  pub fit_all : FitAll (specifiers_of parts) m.segments
  pub pre_release_bytes : IdentifierBytes m.pre_release
  pub build_metadata_bytes : IdentifierBytes m.build_metadata
  pub v_form : (m.v ≡ []) ⊎ (m.v ≡ b'v' ∷ [])
  pub whole :
      m.v
        ++ (spell_parts parts m.segments
            ++ (prefixed b'-' m.pre_release ++ prefixed b'+' m.build_metadata))
      ≡ s

first_submatch-IsMatch :
    (parts : List Part) (v s : Text) (ways : List (List Text × Text)) (m : Submatch)
    → (v ≡ []) ⊎ (v ≡ b'v' ∷ [])
    → All (Way parts s) ways
    → first_submatch v ways ≡ some m
    → IsMatch parts (v ++ s) m
unfolding first_submatch
first_submatch-IsMatch parts v s [] m form h e = cc
first_submatch-IsMatch parts v s ((texts, rest) ∷ ways) m form ((fits, w), h) e =
    elim (Option-cases (suffixes rest)) [
      | inl fails ↦ first_submatch-IsMatch parts v s ways m form h (rw (fails, first_submatch) at e)
      | inr ((pre, build), found) ↦
          let (tail, pre_bytes, build_bytes) = (suffixes-Returns rest).at (pre, build) found in
          subst (IsMatch parts (v ++ s)) (some-injective _ _ (rw (found, first_submatch) at e))
            (record {
              fit_all = fits;
              pre_release_bytes = pre_bytes;
              build_metadata_bytes = build_bytes;
              v_form = form;
              whole = cc;
            })
    ]

or_else-cases :
    (a b : Option Submatch) (m : Submatch) → or_else a b ≡ some m → (a ≡ some m) ⊎ (b ≡ some m)
or_else-cases none b m h = inr h
or_else-cases (some a) b m h = inl h

find_submatch-IsMatch :
    (parts : List Part) (s : Text) (m : Submatch)
    → find_submatch parts s ≡ some m
    → IsMatch parts s m
unfolding find_submatch
find_submatch-IsMatch parts [] m h =
    first_submatch-IsMatch parts [] [] (match_parts parts []) m (inl refl)
      (match_parts-Way parts []) h
find_submatch-IsMatch parts (c ∷ s) m h =
    elim (or_else-cases
      (if c == b'v' then first_submatch (b'v' ∷ []) (match_parts parts s) else none)
      (first_submatch [] (match_parts parts (c ∷ s))) m h) [
        | inl first ↦ elim (Bool-cases (c == b'v')) [
          | inl y ↦ rw (eq_of_== c b'v' y) (
              first_submatch-IsMatch parts (b'v' ∷ []) s (match_parts parts s) m (inr refl)
                (match_parts-Way parts s) (rw y at first))
          | inr n ↦ absurd (cc (rw n at first))
        ]
        | inr second ↦
            first_submatch-IsMatch parts [] (c ∷ s) (match_parts parts (c ∷ s)) m (inl refl)
              (match_parts-Way parts (c ∷ s)) second
      ]

-- The segments are the numbers that the texts spell, and `int`s.
pub record AreNumbers (texts : List Text) (segments : List ℕ) : Type 0 where
  pub spelled : segments ≡ map (decimal 0) texts
  pub in_range : All (λ n. n ≤ max_int) segments

Fits-cons :
    (spec : Specifier) (t : Text)
    → Fits spec t
    → (c : ℕ) × (s : Text) × (t ≡ c ∷ s) × All (λ c. is_digit c ≡ true) (c ∷ s)
unfolding decimal
Fits-cons yyyy [] h = absurd (omega arith)
Fits-cons _ [] h = absurd (omega arith)
Fits-cons yyyy (c ∷ s) h = (c, s, refl, h.0)
Fits-cons _ (c ∷ s) h = (c, s, refl, h.0)

-- A text of digits that is read without an error.
atoi-Fits :
    (spec : Specifier) (t : Text)
    → Fits spec t
    → (atoi t).1 ≡ true
    → (pos_part (atoi t).0 ≡ decimal 0 t)
atoi-Fits spec t h valid =
    let (c, s, e, digits) = Fits-cons spec t h in
    rw e (ap pos_part (atoi-digits c s (atoi (c ∷ s)).0 digits (cc (rw e at valid))))

parse_segments-AreNumbers :
    (specs : List Specifier) (texts : List Text) (segs : List ℕ)
    → FitAll specs texts
    → parse_segments texts ≡ some segs
    → AreNumbers texts segs
unfolding parse_segments
parse_segments-AreNumbers [] [] segs h e =
    subst (AreNumbers []) (some-injective _ _ e) (record { spelled = refl; in_range = tt })
parse_segments-AreNumbers (spec ∷ specs) [] segs h e = absurd h
parse_segments-AreNumbers [] (t ∷ texts) segs h e = absurd h
parse_segments-AreNumbers (spec ∷ specs) (t ∷ texts) segs (fits, h) e =
    elim (Bool-cases (atoi t).1) [
      | inl valid ↦ elim (Option-cases (parse_segments texts)) [
        | inl fails ↦ absurd (ground arith)
        | inr (rest, found) ↦
            let numbers = parse_segments-AreNumbers specs texts rest h found in
            subst (AreNumbers (t ∷ texts)) (ground arith) (record {
              spelled = ap₂ ◌∷◌ (atoi-Fits spec t fits valid) numbers.spelled;
              in_range = (atoi-le-max_int t, numbers.in_range);
            })
      ]
      | inr invalid ↦ absurd (ground arith)
    ]

-- What a parsed version is of its text.
abbrev Spelled : CalVerFormat → Text → CalVer → Type 0
Spelled f s ver =
    (texts : List Text) × FitAll (specifiers_of f.parts) texts
    × (ver.segments ≡ map (decimal 0) texts)
    × All (λ n. n ≤ max_int) ver.segments
    × ((ver.v ≡ []) ⊎ (ver.v ≡ b'v' ∷ []))
    × IdentifierBytes ver.pre_release
    × IdentifierBytes ver.build_metadata
    × (ver.v
          ++ (spell_parts f.parts texts
              ++ (prefixed b'-' ver.pre_release ++ prefixed b'+' ver.build_metadata))
        ≡ s)

parse-Returns : (f : CalVerFormat) (s : Text) → Returns (Spelled f s) (parse f s)
unfolding parse
parse-Returns f s =
    Returns-bind (IsMatch f.parts s) _ (find_submatch f.parts s) _
      (record { at = find_submatch-IsMatch f.parts s })
      λ m h.
        Returns-bind (AreNumbers m.segments) _ (parse_segments m.segments) _
          (record { at = λ segs. parse_segments-AreNumbers _ m.segments segs h.fit_all })
          λ segs n. Returns-some _ _ (
            m.segments, h.fit_all, n.spelled, n.in_range, h.v_form, h.pre_release_bytes,
            h.build_metadata_bytes, h.whole,
          )

pub parse-spelled :
    (f : CalVerFormat) (s : Text) (ver : CalVer)
    → parse f s ≡ some ver
    → (texts : List Text) × FitAll (specifiers_of f.parts) texts
      × (ver.segments ≡ map (decimal 0) texts)
      × All (λ n. n ≤ max_int) ver.segments
      × ((ver.v ≡ []) ⊎ (ver.v ≡ b'v' ∷ []))
      × IdentifierBytes ver.pre_release
      × IdentifierBytes ver.build_metadata
      × (ver.v
            ++ (spell_parts f.parts texts
                ++ (prefixed b'-' ver.pre_release ++ prefixed b'+' ver.build_metadata))
          ≡ s)
parse-spelled f s ver h = (parse-Returns f s).at ver h
