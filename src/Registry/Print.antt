-- ===== src/Registry/Print.antt =====
-- `%d` of a number that is not negative, and `strconv.Atoi` of what it prints.
use Prim.Native.Nat.{ℕ, zero, suc, ◌+◌, ◌/◌, ◌%◌, ◌≤◌, ◌<◌}
use mathlib.Core.Logic.{dite, dif_pos, dif_neg}
use mathlib.Core.WellFounded.{Acc, WellFounded}
use native.Mathlib.Bridge.{le_prop}
use native.Mathlib.Decide.{dec_lt}
use dewy.Common.{true, [], ◌∷◌, Text, ◌≡◌, ap, arith, max_int, pos, ◌∙◌}
use dewy.Registry.Atoi.{atoi, decimal, is_digit, atoi-decimal}
use dewy.Registry.Pattern.{Digits}

Acc-below : (k n : ℕ) → n < k → Acc ◌<◌ n
Acc-below zero n h = absurd (omega arith)
Acc-below (suc k) n h = Acc.intro n λ m below. Acc-below k m (omega arith)

lt_wf : WellFounded ◌<◌
unfolding Acc-below
lt_wf = record { apply = λ n. Acc-below (suc n) n (omega arith) }

pub tenth-lt : (n : ℕ) → 9 < n → n / 10 < n
tenth-lt n h = omega arith

-- The digits of `n`, before those that are there already.
digits_before : (n : ℕ) → Acc ◌<◌ n → Text → Text
digits_before n (Acc.intro _ smaller) tail =
    dite (dec_lt 9 n)
      (λ p. digits_before (n / 10) (smaller (n / 10) (tenth-lt n p)) ((b'0' + n % 10) ∷ tail))
      (λ _. (b'0' + n) ∷ tail)

unfoldable pub format_int : ℕ → Text
unfolding digits_before lt_wf dec_lt
format_int n = digits_before n (lt_wf.apply n) []

decimal-digits_before :
    (n : ℕ) (w : Acc ◌<◌ n) (tail : Text) → decimal 0 (digits_before n w tail) ≡ decimal n tail
unfolding digits_before decimal
decimal-digits_before n (Acc.intro _ smaller) tail = elim (dec_lt 9 n) [
  | yes p ↦ rw (dif_pos (dec_lt 9 n) le_prop p) (
      decimal-digits_before (n / 10) (smaller (n / 10) (tenth-lt n p)) ((b'0' + n % 10) ∷ tail)
      ∙ ap (λ (k : ℕ). decimal k tail) (omega arith))
  | no p ↦ rw (dif_neg (dec_lt 9 n) p) (ap (λ (k : ℕ). decimal k tail) (omega arith))
]

is_digit-add : (d : ℕ) → d < 10 → is_digit (b'0' + d) ≡ true
is_digit-add d h = ground arith

Digits-digits_before :
    (n : ℕ) (w : Acc ◌<◌ n) (tail : Text) → Digits tail → Digits (digits_before n w tail)
unfolding digits_before
Digits-digits_before n (Acc.intro _ smaller) tail h = elim (dec_lt 9 n) [
  | yes p ↦ rw (dif_pos (dec_lt 9 n) le_prop p) (
      Digits-digits_before (n / 10) (smaller (n / 10) (tenth-lt n p)) ((b'0' + n % 10) ∷ tail)
        (is_digit-add (n % 10) (omega arith), h))
  | no p ↦ rw (dif_neg (dec_lt 9 n) p) (is_digit-add n (omega arith), h)
]

digits_before-cons :
    (n : ℕ) (w : Acc ◌<◌ n) (tail : Text) → (c : ℕ) × (s : Text) × (digits_before n w tail ≡ c ∷ s)
unfolding digits_before
digits_before-cons n (Acc.intro _ smaller) tail = elim (dec_lt 9 n) [
  | yes p ↦
      let (c, s, e) =
        digits_before-cons (n / 10) (smaller (n / 10) (tenth-lt n p)) ((b'0' + n % 10) ∷ tail) in
      (c, s, rw (dif_pos (dec_lt 9 n) le_prop p) e)
  | no p ↦ (b'0' + n, tail, dif_neg (dec_lt 9 n) p _ _)
]

-- What is printed is digits.
pub Digits-format_int : (n : ℕ) → Digits (format_int n)
unfolding format_int
Digits-format_int n = Digits-digits_before n (lt_wf.apply n) [] tt

-- What is printed is not empty.
pub format_int-cons : (n : ℕ) → (c : ℕ) × (s : Text) × (format_int n ≡ c ∷ s)
unfolding format_int
format_int-cons n = digits_before-cons n (lt_wf.apply n) []

decimal-format_int : (n : ℕ) → decimal 0 (format_int n) ≡ n
unfolding format_int decimal
decimal-format_int n = decimal-digits_before n (lt_wf.apply n) []

-- A number of 63 bits is read back as it was printed.
pub atoi-format_int : (n : ℕ) → n ≤ max_int → atoi (format_int n) ≡ (pos n, true)
atoi-format_int n h =
    let (c, s, e) = format_int-cons n in
    let digits : Digits (c ∷ s) = rw e at (Digits-format_int n) in
    let same : decimal 0 (c ∷ s) ≡ n = rw (← e) (decimal-format_int n) in
    rw (e, atoi-decimal c s digits (rw same h), same)
