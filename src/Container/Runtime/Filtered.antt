-- ===== src/Container/Runtime/Filtered.antt =====
-- Which extra arguments of container/runtime.go reach the container CLI.
use dewy.Common.{
  ℕ, ◌≢◌, ◌++◌, sym, append_assoc, text_eq_refl, has_prefix-append, ◌≡◌, refl, ap, ◌∙◌, inl, inr,
  Bool, true, false, List, [], ◌∷◌, arith, if◌then◌else◌, Bool-cases, drop, any_of, All, Text,
  codes, text_eq, has_prefix,
}
use dewy.Container.Runtime.{
  forbidden_long_options, match_forbidden_short_flag, is_option, is_reserved, is_some_byte,
  extract_label_value, is_refused, validate_extra_args, reserved_label_prefix, extract_name_from,
  extract_name_option,
}

-- The argument is none of the long options, nor one of them with = and a value behind it.
abbrev pub IsNone : Text → List Text → Type 0
IsNone arg = All (λ o. (arg ≢ o) × ((v : Text) → arg ≢ o ++ b'=' ∷ v))

-- The argument does not begin with - and one of the letters.
abbrev pub BeginsWithNone : Text → List ℕ → Type 0
BeginsWithNone arg = All (λ c. (s : Text) → arg ≢ b'-' ∷ c ∷ s)

-- The argument is no forbidden long option, alone or with a value, and begins with no forbidden short
-- flag.
abbrev pub IsAllowed : Text → Type 0
IsAllowed arg =
    IsNone arg forbidden_long_options × BeginsWithNone arg (b'd' ∷ b'i' ∷ b't' ∷ b'p' ∷ [])

is_option-differs :
    (arg o : Text) → is_option arg o ≡ false → (arg ≢ o) × ((v : Text) → arg ≢ o ++ b'=' ∷ v)
unfolding is_option
is_option-differs arg o h = (
  λ e. let same : text_eq arg o ≡ true = rw e (text_eq_refl o) in absurd (ground (arith, h, same)),
  λ v e.
      let begins : has_prefix arg (o ++ b'=' ∷ []) ≡ true =
        rw (e, sym (append_assoc o (b'=' ∷ []) v)) (has_prefix-append (o ++ b'=' ∷ []) v) in
      absurd (ground (arith, h, begins)),
)

is_option-IsNone : (arg : Text) (os : List Text) → any_of (is_option arg) os ≡ false → IsNone arg os
is_option-IsNone arg [] h = tt
is_option-IsNone arg (o ∷ os) h =
    (is_option-differs arg o (ground (arith, h)), is_option-IsNone arg os (ground (arith, h)))

short_flag-BeginsWithNone :
    (arg : Text)
    → is_some_byte (match_forbidden_short_flag arg) ≡ false
    → BeginsWithNone arg (b'd' ∷ b'i' ∷ b't' ∷ b'p' ∷ [])
unfolding is_some_byte match_forbidden_short_flag
short_flag-BeginsWithNone arg h = (
  λ s e. let no : true ≡ false = rw e at h in cc,
  (
    λ s e. let no : true ≡ false = rw e at h in cc,
    (
      λ s e. let no : true ≡ false = rw e at h in cc,
      (λ s e. let no : true ≡ false = rw e at h in cc, tt),
    ),
  ),
)

is_refused-IsAllowed : (arg : Text) (rest : List Text) → is_refused arg rest ≡ false → IsAllowed arg
unfolding is_refused
is_refused-IsAllowed arg rest h = (
  is_option-IsNone arg forbidden_long_options (ground (arith, h)),
  short_flag-BeginsWithNone arg (ground (arith, h)),
)

validate_extra_args-IsAllowed :
    (args : List Text) → validate_extra_args args ≡ true → All IsAllowed args
unfolding validate_extra_args
validate_extra_args-IsAllowed [] h = record {}
validate_extra_args-IsAllowed (arg ∷ rest) h = elim (Bool-cases (is_refused arg rest)) [
  | inl y ↦ absurd (ground arith)
  | inr n ↦ (is_refused-IsAllowed arg rest n, validate_extra_args-IsAllowed rest (ground arith))
]

All-if :
    (P : Text → Type 0) (b : Bool) (x y : Text × List Text)
    → All P x.1
    → All P y.1
    → All P (if b then x else y).1
All-if P true x y h k = h
All-if P false x y h k = k

-- What is left of the arguments has every property that all of them have.
extract_name_from-All :
    (P : Text → Type 0) (args : List Text) (name : Text)
    → All P args
    → All P (extract_name_from args name).1
unfolding extract_name_from
extract_name_from-All P [] name h = h
extract_name_from-All P (arg ∷ []) name h = All-if P (has_prefix arg (codes "--name=")) _ _ h.1 h
extract_name_from-All P (arg ∷ next ∷ rest) name h =
    All-if P (text_eq arg (codes "--name")) _ _ (extract_name_from-All P rest next h.1.1) (
      All-if P (has_prefix arg (codes "--name=")) _ _
        (extract_name_from-All P (next ∷ rest) (drop 7 arg) h.1)
        (h.0, extract_name_from-All P (next ∷ rest) name h.1))

-- Where the extra arguments are accepted, none that is left of them without the name is a forbidden
-- long option, alone or with a value, or begins with a forbidden short flag.
pub filtered-IsAllowed :
    (args : List Text)
    → validate_extra_args args ≡ true
    → All IsAllowed (extract_name_option args).1
unfolding extract_name_option
filtered-IsAllowed args h =
    extract_name_from-All IsAllowed args [] (validate_extra_args-IsAllowed args h)

label-not_refused :
    (rest : List Text) → is_refused (codes "--label") (codes "--name" ∷ rest) ≡ false
unfolding is_refused is_reserved is_some_byte match_forbidden_short_flag extract_label_value
    is_option has_prefix text_eq
label-not_refused rest = refl

name-not_refused : (rest : List Text) → is_refused (codes "--name") rest ≡ false
unfolding is_refused is_reserved is_some_byte match_forbidden_short_flag extract_label_value
    is_option has_prefix text_eq
name-not_refused rest = refl

label-refused :
    (value : Text)
    → has_prefix value reserved_label_prefix ≡ true
    → is_refused (codes "--label") (value ∷ []) ≡ true
unfolding is_refused is_reserved is_some_byte match_forbidden_short_flag extract_label_value
    is_option text_eq has_prefix
label-refused value k = rw k refl

last-kept :
    (value name : Text)
    → has_prefix value reserved_label_prefix ≡ true
    → (extract_name_from (value ∷ []) name).1 ≡ value ∷ []
unfolding extract_name_from has_prefix
last-kept [] name k = absurd cc
last-kept (c ∷ s) name k = ground arith

name-taken_out :
    (name value : Text)
    → (extract_name_option (codes "--label" ∷ codes "--name" ∷ name ∷ value ∷ [])).1
      ≡ codes "--label" ∷ (extract_name_from (value ∷ []) name).1
unfolding extract_name_option extract_name_from text_eq has_prefix
name-taken_out name value = refl

-- The check of the labels comes before the name is taken out: with `--name` and its value between
-- `--label` and its value, a label with the reserved prefix is accepted, and what is left for the
-- CLI is the label that the check would have refused.
pub reserved_label-passes :
    (name value : Text)
    → validate_extra_args (name ∷ value ∷ []) ≡ true
    → has_prefix value reserved_label_prefix ≡ true
    → (validate_extra_args (codes "--label" ∷ codes "--name" ∷ name ∷ value ∷ []) ≡ true)
      × ((extract_name_option (codes "--label" ∷ codes "--name" ∷ name ∷ value ∷ [])).1
          ≡ codes "--label" ∷ value ∷ [])
      × (validate_extra_args (codes "--label" ∷ value ∷ []) ≡ false)
reserved_label-passes name value h k = (
  unfold validate_extra_args in
      rw (label-not_refused (name ∷ value ∷ []), name-not_refused (name ∷ value ∷ [])) h,
  name-taken_out name value ∙ ap (λ (t : List Text). codes "--label" ∷ t) (last-kept value name k),
  unfold validate_extra_args in rw (label-refused value k) refl,
)
