-- ===== src/Registry/Backends/Choice.antt =====
-- The choice of an artifact in registry/ghr.go, s3.go and gs.go: the one that is asked for, or the first
-- one for the platform.
use dewy.Common.{
  ◌≡◌, refl, ◌⊎◌, inl, inr, Bool, true, false, Option, none, some, List, [], ◌∷◌, if◌then◌else◌,
  Bool-cases, any_of, All, In, In-append_right, Text, text_eq, eq_of_text_eq, text_eq_refl,
}
use dewy.Registry.Platform.{
  match_artifact_by_platform, fits, IsChosen, match_artifact_by_platform-IsChosen,
}

-- The asset that is asked for, or the first one for the platform.
unfoldable pub choose_artifact : Text → Text → Text → List Text → Option Text
choose_artifact artifact arch os names =
    if text_eq artifact []
    then match_artifact_by_platform arch os names
    else if any_of (λ n. text_eq n artifact) names
    then some artifact
    else none

-- The test that an asset must pass: it is the one that is asked for, or it is for the platform.
abbrev pub is_wanted : Text → Text → Text → Text → Bool
is_wanted artifact arch os name =
    if text_eq artifact [] then fits arch os name else text_eq name artifact

-- A name that passes the test, or none does.
abbrev pub IsWanted : (Text → Bool) → List Text → Option Text → Type 0
IsWanted p names none = All (λ n. p n ≡ false) names
IsWanted p names (some name) = In name names × (p name ≡ true)

any_of-cases :
    (p : Text → Bool) (names : List Text)
    → ((name : Text) × In name names × (p name ≡ true) × (any_of p names ≡ true))
      ⊎ (All (λ n. p n ≡ false) names × (any_of p names ≡ false))
any_of-cases p [] = inr (tt, refl)
any_of-cases p (n ∷ ns) = elim (Bool-cases (p n)) [
  | inl y ↦ inl (n, inl refl, y, rw y refl)
  | inr z ↦ elim (any_of-cases p ns) [
    | inl (name, m, y, e) ↦ inl (name, inr m, y, rw (z, e) refl)
    | inr (all, e) ↦ inr ((z, all), rw (z, e) refl)
  ]
]

IsChosen-IsWanted :
    (p : Text → Bool) (names : List Text) (r : Option Text)
    → IsChosen p names r
    → IsWanted p names r
IsChosen-IsWanted p names none h = h
IsChosen-IsWanted p names (some name) (before, after, position, others, fit) =
    (rw position (In-append_right name before (name ∷ after) (inl refl)), fit)

asked-IsWanted :
    (asked : Text) (names : List Text)
    → IsWanted
        (λ n. text_eq n asked)
        names
        (if any_of (λ n. text_eq n asked) names then some asked else none)
asked-IsWanted asked names = elim (any_of-cases (λ n. text_eq n asked) names) [
  | inl (name, m, same, e) ↦
      let here : name ≡ asked = eq_of_text_eq name asked same in
      rw (e, IsWanted) (rw (← here) m, text_eq_refl asked)
  | inr (all, e) ↦ rw (e, IsWanted) all
]

IsWanted-if :
    (b : Bool) (p q : Text → Bool) (names : List Text) (x y : Option Text)
    → IsWanted p names x
    → IsWanted q names y
    → IsWanted (λ n. if b then p n else q n) names (if b then x else y)
IsWanted-if true p q names x y h k = h
IsWanted-if false p q names x y h k = k

pub choose_artifact-IsWanted :
    (artifact arch os : Text) (names : List Text)
    → IsWanted (is_wanted artifact arch os) names (choose_artifact artifact arch os names)
unfolding choose_artifact
choose_artifact-IsWanted artifact arch os names =
    IsWanted-if (text_eq artifact []) (fits arch os) (λ n. text_eq n artifact) names _ _
      (IsChosen-IsWanted (fits arch os) names _ (match_artifact_by_platform-IsChosen arch os names))
      (asked-IsWanted artifact names)
