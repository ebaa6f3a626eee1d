-- ===== src/Common/Trim.antt =====
-- What the program uses of the trimming functions of Go's package strings, on ASCII.
use dewy.Common.Tests.{leb, ◌==◌, if◌then◌else◌}
use dewy.Common.Strings.{Text, text_eq}
use Prim.Native.Nat.{ℕ}
use mathlib.Core.Bool.{Bool, ◌&&◌, ◌||◌}
use mathlib.Core.List.{[], ◌∷◌}

-- `unicode.IsSpace`, of ASCII.
unfoldable pub is_space : ℕ → Bool
is_space c = c == b' ' || (leb 9 c && leb c 13)

unfoldable pub trim_left : (ℕ → Bool) → Text → Text
trim_left p [] = []
trim_left p (c ∷ s) = let rest = trim_left p s in if p c then rest else c ∷ s

unfoldable pub trim_right : (ℕ → Bool) → Text → Text
trim_right p [] = []
trim_right p (c ∷ s) = let rest = trim_right p s in if p c && text_eq rest [] then [] else c ∷ rest

unfoldable pub trim : (ℕ → Bool) → Text → Text
trim p s = trim_right p (trim_left p s)

-- `strings.TrimSpace`
unfoldable pub trim_space : Text → Text
trim_space s = trim is_space s
