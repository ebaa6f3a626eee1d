-- ===== src/Registry/Pattern.antt =====
-- What the version patterns are made of: the longest run of bytes of a class, and the classes.
use dewy.Common.{
  ℕ, Bool, true, false, ◌&&◌, ◌||◌, [], ◌∷◌, ◌++◌, Text, ◌==◌, leb, if◌then◌else◌, ◌≡◌, refl, arith,
  All,
}
use dewy.Registry.Atoi.{is_digit}

-- [0-9A-Za-z.-]
abbrev pub is_identifier_byte : ℕ → Bool
is_identifier_byte c =
    is_digit c || (leb b'A' c && leb c b'Z') || (leb b'a' c && leb c b'z') || c == b'.' || c == b'-'

abbrev pub Digits : Text → Type 0
Digits = All (λ c. is_digit c ≡ true)

abbrev pub IdentifierBytes : Text → Type 0
IdentifierBytes = All (λ c. is_identifier_byte c ≡ true)

module _ (p : ℕ → Bool) where
  -- The longest run of bytes of the class at the start, and what follows it.
  unfoldable pub span : Text → Text × Text
  span [] = ([], [])
  span (c ∷ s) = let (run, rest) = span s in if p c then (c ∷ run, rest) else ([], c ∷ s)

  -- No byte of the class comes first.
  abbrev pub Stops : Text → Type 0
  Stops [] = Unit
  Stops (c ∷ s) = p c ≡ false

  pub span-append :
      (s rest : Text) → All (λ c. p c ≡ true) s → Stops rest → span (s ++ rest) ≡ (s, rest)
  unfolding span
  span-append [] [] h stops = refl
  span-append [] (c ∷ rest) h stops = rw stops
  span-append (c ∷ s) rest (hc, h) stops = rw (hc, span-append s rest h stops)

  pub append-span : (s : Text) → (span s).0 ++ (span s).1 ≡ s
  unfolding span
  append-span [] = refl
  append-span (c ∷ s) = ground (arith, append-span s)

  pub span-All : (s : Text) → All (λ c. p c ≡ true) (span s).0
  unfolding span
  span-All [] = tt
  span-All (c ∷ s) = ground (arith, span-All s)

  pub span-Stops : (s : Text) → Stops (span s).1
  unfolding span
  span-Stops [] = tt
  span-Stops (c ∷ s) = ground (arith, span-Stops s)
