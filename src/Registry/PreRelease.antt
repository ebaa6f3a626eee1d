-- ===== src/Registry/PreRelease.antt =====
-- `comparePreRelease` of registry/version.go, and the precedence of pre-releases that it stands for.
pub mod Precedence
use dewy.Common.{
  ℕ, zero, suc, Bool, true, false, List, [], ◌∷◌, Text, ℤ, pos, negsuc, ◌==◌, if◌then◌else◌,
  int_sub, split, text_eq, Ordering, lt, eq, gt, compare,
}
use dewy.Order.Lexicographic.{lexicographic}
use dewy.Registry.Atoi.{atoi}

-- strings.Compare
unfoldable pub strings_compare : Text → Text → ℤ
strings_compare a b = elim (lexicographic compare a b) [ lt ↦ negsuc 0 | eq ↦ pos 0 | gt ↦ pos 1 ]

unfoldable pub int_eq : ℤ → ℤ → Bool
int_eq (pos m) (pos n) = m == n
int_eq (pos m) (negsuc n) = false
int_eq (negsuc m) (pos n) = false
int_eq (negsuc m) (negsuc n) = m == n

-- The body of the loop over the identifiers, where both versions have one; `rest` is what the
-- rounds that follow return.
unfoldable pub compare_identifier : ℤ × Bool → ℤ × Bool → Text → Text → ℤ → ℤ
unfolding int_eq
compare_identifier (num_a, true) (num_b, true) a b rest =
    if int_eq num_a num_b then rest else int_sub num_a num_b
compare_identifier (num_a, true) (num_b, false) a b rest = negsuc 0
compare_identifier (num_a, false) (num_b, true) a b rest = pos 1
compare_identifier (num_a, false) (num_b, false) a b rest =
    if int_eq (strings_compare a b) (pos 0) then rest else strings_compare a b

-- The loop over the identifiers from left to right.
unfoldable pub compare_identifiers : List Text → List Text → ℤ
compare_identifiers [] [] = pos 0
compare_identifiers [] (b ∷ parts_b) = negsuc 0
compare_identifiers (a ∷ parts_a) [] = pos 1
compare_identifiers (a ∷ parts_a) (b ∷ parts_b) =
    compare_identifier (atoi a) (atoi b) a b (compare_identifiers parts_a parts_b)

unfoldable pub compare_pre_release : Text → Text → ℤ
compare_pre_release a b =
    if text_eq a b then pos 0 else compare_identifiers (split a b'.') (split b b'.')
