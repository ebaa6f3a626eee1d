-- ===== src/Common/Strings.antt =====
-- Go's `string`, a list of bytes, with what the program uses of package `strings`.
use Prim.Native.Char.{code}
use Prim.Native.Nat.{ℕ, ◌+◌, ◌-◌}
use Prim.Native.String.{String}
use mathlib.Core.Option.{Option, none, some}
use mathlib.Core.Bool.{Bool, true, false, ◌&&◌, ◌||◌}
use mathlib.Core.List.{List, [], ◌∷◌, ◌++◌, map}
use mathlib.Core.Logic.{◌↔◌, inl, inr}
use mathlib.Core.Path.{◌≡◌, refl}
use native.Mathlib.Omega.{arith}
use dewy.Common.Tests.{leb, ◌==◌, if◌then◌else◌, Bool-cases}
use dewy.Common.Lists.{length, drop, All, All-append}

abbrev pub Text : Type 0
Text = List ℕ

-- The bytes of a literal of ASCII characters.
abbrev pub codes : String → Text
codes String.[] = []
codes (String.◌∷◌ c s) = code c ∷ codes s

-- a == b
unfoldable pub text_eq : Text → Text → Bool
text_eq [] [] = true
text_eq [] (d ∷ t) = false
text_eq (c ∷ s) [] = false
text_eq (c ∷ s) (d ∷ t) = (c == d) && text_eq s t

-- strings.HasPrefix(s, prefix)
unfoldable pub has_prefix : Text → Text → Bool
has_prefix s [] = true
has_prefix [] (d ∷ t) = false
has_prefix (c ∷ s) (d ∷ t) = (c == d) && has_prefix s t

-- strings.HasSuffix(s, suffix)
unfoldable pub has_suffix : Text → Text → Bool
unfolding text_eq
has_suffix s t = leb (length t) (length s) && text_eq (drop (length s - length t) s) t

-- strings.TrimPrefix(s, prefix)
unfoldable pub trim_prefix : Text → Text → Text
trim_prefix s t = if has_prefix s t then drop (length t) s else s

-- strings.SplitN(s, sep, 2): the parts before and after the first separator, if there is one.
unfoldable pub split_once : Text → Text → Option (Text × Text)
split_once sep [] = none
split_once sep (c ∷ s) =
    let rest = split_once sep s in
    if has_prefix (c ∷ s) sep
    then some ([], drop (length sep) (c ∷ s))
    else elim rest [ none ↦ none | some (before, after) ↦ some (c ∷ before, after) ]

-- strings.Contains(s, substr)
unfoldable pub contains : Text → Text → Bool
unfolding has_prefix
contains [] t = has_prefix [] t
contains (c ∷ s) t = has_prefix (c ∷ s) t || contains s t

-- strings.ToLower, on ASCII letters.
unfoldable pub to_lower : Text → Text
to_lower = map (λ c. if leb b'A' c && leb c b'Z' then c + 32 else c)

-- The parts of a text between the separators; `current` is the part being read.
split_from : ℕ → Text → Text → List Text
split_from sep current [] = current ∷ []
split_from sep current (c ∷ s) = elim (c == sep) [
  | true ↦ current ∷ split_from sep [] s
  | false ↦ split_from sep (current ++ c ∷ []) s
]

-- strings.Split(s, sep), for a separator of one byte.
unfoldable pub split : Text → ℕ → List Text
unfolding split_from
split s sep = split_from sep [] s

pub eq_of_text_eq : (a b : Text) → text_eq a b ≡ true → a ≡ b
unfolding text_eq
eq_of_text_eq [] [] h = refl
eq_of_text_eq [] (d ∷ t) h = ground arith
eq_of_text_eq (c ∷ s) [] h = ground arith
eq_of_text_eq (c ∷ s) (d ∷ t) h = ground (arith, eq_of_text_eq s t)

pub text_eq_refl : (a : Text) → text_eq a a ≡ true
unfolding text_eq
text_eq_refl [] = refl
text_eq_refl (c ∷ s) = ground (arith, text_eq_refl s)

pub text_eq_iff : (a b : Text) → (text_eq a b ≡ true) ↔ (a ≡ b)
text_eq_iff a b = (eq_of_text_eq a b, λ e. rw e (text_eq_refl b))

-- A text with a prefix is the prefix and what follows it.
pub has_prefix-drop : (s t : Text) → has_prefix s t ≡ true → t ++ drop (length t) s ≡ s
unfolding has_prefix
has_prefix-drop s [] h = refl
has_prefix-drop [] (d ∷ t) h = cc
has_prefix-drop (c ∷ s) (d ∷ t) h = ground (arith, has_prefix-drop s t)

pub has_prefix-append : (t s : Text) → has_prefix (t ++ s) t ≡ true
unfolding has_prefix
has_prefix-append [] [] = refl
has_prefix-append [] (c ∷ s) = refl
has_prefix-append (d ∷ t) s = ground (arith, has_prefix-append t s)

abbrev pub NoByte : ℕ → Text → Type 0
NoByte sep = All (λ c. (c == sep) ≡ false)

split_from-NoByte :
    (sep : ℕ) (current s : Text) → NoByte sep current → All (NoByte sep) (split_from sep current s)
unfolding split_from
split_from-NoByte sep current [] h = (h, tt)
split_from-NoByte sep current (c ∷ s) h = elim (Bool-cases (c == sep)) [
  | inl y ↦ rw (y, split_from) (h, split_from-NoByte sep [] s tt)
  | inr n ↦
      rw (n, split_from)
        (split_from-NoByte sep (current ++ c ∷ []) s
          (All-append (λ d. (d == sep) ≡ false) current (c ∷ []) h (n, tt)))
]

-- No part of a text that is split has the separator in it.
pub split-NoByte : (s : Text) (sep : ℕ) → All (NoByte sep) (split s sep)
unfolding split
split-NoByte s sep = split_from-NoByte sep [] s tt
