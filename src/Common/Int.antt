-- ===== src/Common/Int.antt =====
-- Go's `int`, 64 bits wide: an integer whose subtraction wraps around.
use Prim.Native.Nat.{ℕ, zero, suc, ◌+◌, ◌-◌, ◌≤◌, Ordering, compare}
use Prim.Native.Nat.Ordering.{lt, eq, gt}
use mathlib.Core.Path.{◌≡◌}
use native.Mathlib.Omega.{arith}
use dewy.Common.Tests.{leb, if◌then◌else◌}

-- `negsuc n` is -(n + 1).
pub data ℤ : Type 0 where
  pos : ℕ → ℤ
  negsuc : ℕ → ℤ

-- math.MaxInt, 2^63 - 1.
abbrev pub max_int : ℕ
max_int = 9223372036854775807

abbrev pub pos_part : ℤ → ℕ
pos_part (pos n) = n
pos_part (negsuc n) = 0

abbrev pub neg_part : ℤ → ℕ
neg_part (pos n) = 0
neg_part (negsuc n) = suc n

-- a - b, as an integer.
unfoldable pub sub_ℕ : ℕ → ℕ → ℤ
sub_ℕ a b = if leb b a then pos (a - b) else negsuc (b - a - 1)

-- A difference of two `int`s, brought back into the range of `int`.
unfoldable pub wrap : ℤ → ℤ
unfolding sub_ℕ
wrap (pos n) = if leb n max_int then pos n else sub_ℕ n 18446744073709551616
wrap (negsuc n) = if leb n max_int then negsuc n else sub_ℕ 18446744073709551615 n

-- `a - b` on `int`.
unfoldable pub int_sub : ℤ → ℤ → ℤ
unfolding wrap sub_ℕ
int_sub a b = wrap (sub_ℕ (pos_part a + neg_part b) (pos_part b + neg_part a))

-- What the sign of the result of a comparison says.
abbrev pub sign : ℤ → Ordering
sign (pos zero) = eq
sign (pos (suc n)) = gt
sign (negsuc n) = lt

-- The order of the integers.
abbrev pub int_cmp : ℤ → ℤ → Ordering
int_cmp a b = compare (pos_part a + neg_part b) (pos_part b + neg_part a)

-- The difference of two naturals in the range of `int` has the sign of their order.
pub sign-int_sub_pos :
    (a b : ℕ) → a ≤ max_int → b ≤ max_int → sign (int_sub (pos a) (pos b)) ≡ compare a b
unfolding int_sub
sign-int_sub_pos a b ha hb = ground arith
