-- ===== src/Registry/Atoi.antt =====
-- `strconv.Atoi`, as registry/version.go, registry/semver.go and registry/calver.go use it.
use dewy.Common.{
  ◌⊎◌, inl, inr, Bool-cases, ◌||◌, pos_part, ℕ, zero, suc, ◌+◌, ◌*◌, ◌-◌, ◌≤◌, Bool, true, false,
  ◌&&◌, [], ◌∷◌, Text, ℤ, pos, negsuc, leb, ltb, ◌==◌, if◌then◌else◌, max_int, arith, ◌≡◌, refl,
  All,
}

abbrev pub is_digit : ℕ → Bool
is_digit c = leb b'0' c && leb c b'9'

-- What `strconv.ParseUint` finds: a value, a byte that is no digit, or a value past 64 bits.
pub data Scan : Type 0 where
  value : ℕ → Scan
  bad_syntax out_of_range : Scan

unfoldable pub scan_uint : Text → ℕ → Scan
scan_uint [] n = value n
scan_uint (c ∷ s) n =
    let rest = scan_uint s (n * 10 + (c - b'0')) in
    if is_digit c
    then if ltb 18446744073709551615 (n * 10 + (c - b'0')) then out_of_range else rest
    else bad_syntax

unfoldable pub parse_uint : Text → Scan
unfolding scan_uint
parse_uint [] = bad_syntax
parse_uint (c ∷ s) = scan_uint (c ∷ s) 0

unfoldable pub negate : ℕ → ℤ
negate zero = pos 0
negate (suc n) = negsuc n

positive : Scan → ℤ × Bool
positive (value n) = if leb n max_int then (pos n, true) else (pos max_int, false)
positive bad_syntax = (pos 0, false)
positive out_of_range = (pos max_int, false)

negative : Scan → ℤ × Bool
unfolding negate
negative (value n) = if leb n (suc max_int) then (negate n, true) else (negsuc max_int, false)
negative bad_syntax = (pos 0, false)
negative out_of_range = (negsuc max_int, false)

-- The value, and whether there is no error.
unfoldable pub atoi : Text → ℤ × Bool
unfolding parse_uint positive negative
atoi [] = (pos 0, false)
atoi (c ∷ s) =
    if c == b'+'
    then positive (parse_uint s)
    else if c == b'-'
    then negative (parse_uint s)
    else positive (parse_uint (c ∷ s))

-- The number that a text of digits spells, with `n` before it.
unfoldable pub decimal : ℕ → Text → ℕ
decimal n [] = n
decimal n (c ∷ s) = decimal (n * 10 + (c - b'0')) s

pub le-decimal : (n : ℕ) (s : Text) → n ≤ decimal n s
unfolding decimal
le-decimal n [] = omega arith
le-decimal n (c ∷ s) = omega (arith, le-decimal (n * 10 + (c - b'0')) s)

-- Digits are read to their end where they spell a number of 63 bits.
pub scan_uint-decimal :
    (n : ℕ) (s : Text)
    → All (λ c. is_digit c ≡ true) s
    → decimal n s ≤ max_int
    → scan_uint s n ≡ value (decimal n s)
unfolding scan_uint decimal
scan_uint-decimal n [] h small = refl
scan_uint-decimal n (c ∷ s) (d, h) small =
    ground
      (arith, le-decimal (n * 10 + (c - b'0')) s, scan_uint-decimal (n * 10 + (c - b'0')) s h small)

pub atoi-decimal :
    (c : ℕ) (s : Text)
    → All (λ c. is_digit c ≡ true) (c ∷ s)
    → decimal 0 (c ∷ s) ≤ max_int
    → atoi (c ∷ s) ≡ (pos (decimal 0 (c ∷ s)), true)
unfolding atoi
atoi-decimal c s h small = ground (arith, h.0, scan_uint-decimal 0 (c ∷ s) h small)

positive-le : (r : Scan) → pos_part (positive r).0 ≤ max_int
unfolding positive
positive-le (value n) = ground arith
positive-le bad_syntax = omega arith
positive-le out_of_range = omega arith

pos_part-negate : (n : ℕ) → pos_part (negate n) ≡ 0
unfolding negate
pos_part-negate zero = refl
pos_part-negate (suc n) = refl

negative-le : (r : Scan) → pos_part (negative r).0 ≤ max_int
unfolding negative
negative-le (value n) = ground (arith, pos_part-negate n)
negative-le bad_syntax = omega arith
negative-le out_of_range = omega arith

-- A result is never above the largest `int`, whether or not there is an error.
pub atoi-le-max_int : (s : Text) → pos_part (atoi s).0 ≤ max_int
unfolding atoi
atoi-le-max_int [] = omega arith
atoi-le-max_int (c ∷ s) = ground (
  arith,
  positive-le (parse_uint s),
  negative-le (parse_uint s),
  positive-le (parse_uint (c ∷ s)),
)

scan_uint-digits :
    (n : ℕ) (s : Text)
    → All (λ c. is_digit c ≡ true) s
    → (scan_uint s n ≡ value (decimal n s)) ⊎ (scan_uint s n ≡ out_of_range)
unfolding scan_uint decimal
scan_uint-digits n [] h = inl refl
scan_uint-digits n (c ∷ s) (d, h) = ground (arith, scan_uint-digits (n * 10 + (c - b'0')) s h)

-- Digits that are read without an error are read as the number that they spell.
pub atoi-digits :
    (c : ℕ) (s : Text) (n : ℤ)
    → All (λ c. is_digit c ≡ true) (c ∷ s)
    → atoi (c ∷ s) ≡ (n, true)
    → n ≡ pos (decimal 0 (c ∷ s))
unfolding atoi
atoi-digits c s n h e = ground (arith, h.0, scan_uint-digits 0 (c ∷ s) h)

unfoldable pub all_digits : Text → Bool
all_digits [] = true
all_digits (c ∷ s) = is_digit c && all_digits s

-- One digit or more, and nothing else.
unfoldable pub is_numeric : Text → Bool
unfolding all_digits
is_numeric [] = false
is_numeric (c ∷ s) = all_digits (c ∷ s)

-- A sign, and then digits.
unfoldable pub is_signed : Text → Bool
unfolding is_numeric
is_signed [] = false
is_signed (c ∷ s) = (c == b'+' || c == b'-') && is_numeric s

all_digits-All : (s : Text) → all_digits s ≡ true → All (λ c. is_digit c ≡ true) s
unfolding all_digits
all_digits-All [] h = tt
all_digits-All (c ∷ s) h = (ground (arith, h), all_digits-All s (ground (arith, h)))

scan_uint-not_digits :
    (n : ℕ) (s : Text)
    → all_digits s ≡ false
    → (scan_uint s n ≡ bad_syntax) ⊎ (scan_uint s n ≡ out_of_range)
unfolding scan_uint all_digits
scan_uint-not_digits n [] h = absurd (cc)
scan_uint-not_digits n (c ∷ s) h = ground (arith, h, scan_uint-not_digits (n * 10 + (c - b'0')) s)

parse_uint-not_numeric :
    (s : Text) → is_numeric s ≡ false → (parse_uint s ≡ bad_syntax) ⊎ (parse_uint s ≡ out_of_range)
unfolding parse_uint is_numeric
parse_uint-not_numeric [] h = inl refl
parse_uint-not_numeric (c ∷ s) h = scan_uint-not_digits 0 (c ∷ s) h

positive-failed : (r : Scan) → (r ≡ bad_syntax) ⊎ (r ≡ out_of_range) → (positive r).1 ≡ false
unfolding positive
positive-failed r (inl e) = rw e refl
positive-failed r (inr e) = rw e refl

negative-failed : (r : Scan) → (r ≡ bad_syntax) ⊎ (r ≡ out_of_range) → (negative r).1 ≡ false
unfolding negative
negative-failed r (inl e) = rw e refl
negative-failed r (inr e) = rw e refl

-- A text of digits is read as the number that they spell.
pub atoi-numeric :
    (s : Text) → is_numeric s ≡ true → decimal 0 s ≤ max_int → atoi s ≡ (pos (decimal 0 s), true)
unfolding is_numeric
atoi-numeric [] h small = absurd (cc)
atoi-numeric (c ∷ s) h small = atoi-decimal c s (all_digits-All (c ∷ s) h) small

-- With a minus before it, it is read as the negative number.
pub atoi-minus :
    (s : Text)
    → is_numeric s ≡ true
    → decimal 0 s ≤ max_int
    → atoi (b'-' ∷ s) ≡ (negate (decimal 0 s), true)
unfolding is_numeric atoi
atoi-minus [] h small = absurd (cc)
atoi-minus (c ∷ s) h small =
    let read = scan_uint-decimal 0 (c ∷ s) (all_digits-All (c ∷ s) h) small in
    let fits : leb (decimal 0 (c ∷ s)) (suc max_int) ≡ true = ground arith in
    unfold parse_uint in unfold negative in rw (read, fits) refl

-- A text that is neither digits nor a sign and digits is no number.
pub atoi-word : (s : Text) → is_numeric s ≡ false → is_signed s ≡ false → (atoi s).1 ≡ false
unfolding atoi is_signed
atoi-word [] h k = refl
atoi-word (c ∷ s) h k = elim (Bool-cases (c == b'+')) [
  | inl y ↦
      rw (y, atoi)
        (positive-failed (parse_uint s) (parse_uint-not_numeric s (ground (arith, k, y))))
  | inr n ↦ elim (Bool-cases (c == b'-')) [
    | inl y ↦
        rw (n, y, atoi)
          (negative-failed (parse_uint s) (parse_uint-not_numeric s (ground (arith, k, y))))
    | inr m ↦
        rw (n, m, atoi) (positive-failed (parse_uint (c ∷ s)) (parse_uint-not_numeric (c ∷ s) h))
  ]
]
