-- ===== src/Registry/CalVer/Patterns.antt =====
-- What the patterns of registry/calver.go match: texts of digits in the bounds of the specifier.
use dewy.Common.{
  All-map, All-weaken, All-flat_map, ℕ, ◌+◌, ◌-◌, ◌*◌, ◌≤◌, ◌≡◌, refl, ap, ◌∙◌, ◌⊎◌, inl, inr, Bool,
  true, [], ◌∷◌, ◌++◌, append_assoc, map, arith, Bool-cases, length, length-append, All, All-append,
  Text,
}
use dewy.Registry.Atoi.{is_digit, decimal}
use dewy.Registry.Pattern.{Digits}
use dewy.Registry.CalVer.Format.{
  Pattern, byte, seq, alt, optional, digit, between, digit_runs, Specifier, yyyy, y0, yy, m0, mm,
  w0, ww, d0, dd, micro, specifier_pattern,
}

-- Each start that the pattern finds, with its rest, is the text, and has the property.
pub record Sound (x : Pattern) (P : Text → Type 0) : Type 0 where
  pub at : (s : Text) → All (λ a. (a.0 ++ a.1 ≡ s) × P a.0) (x s)

Sound-alt : {P : Text → Type 0} {x y : Pattern} → Sound x P → Sound y P → Sound (alt x y) P
unfolding alt
Sound-alt {x} {y} p q = record { at = λ s. All-append _ (x s) (y s) (p.at s) (q.at s) }

module _ {P Q : Text → Type 0} where
  Sound-weaken : {x : Pattern} → ((t : Text) → P t → Q t) → Sound x P → Sound x Q
  Sound-weaken {x} h p = record {
    at = λ s. All-weaken _ _ (x s) (λ a (whole, pa). (whole, h a.0 pa)) (p.at s);
  }

  Sound-seq :
      {x y : Pattern}
      → Sound x P
      → Sound y Q
      → Sound (seq x y) (λ t. (a : Text) × (b : Text) × (t ≡ a ++ b) × P a × Q b)
  unfolding seq
  Sound-seq {x} {y} p q = record {
    at = λ s.
        All-flat_map _ _ _ (x s)
          (λ a (whole, pa).
            All-map _ _ _ (y a.1)
              (λ b (rest, qb). (
                append_assoc a.0 b.0 b.1 ∙ (ap (λ (t : Text). a.0 ++ t) rest ∙ whole),
                (a.0, b.0, refl, pa, qb),
              ))
              (q.at a.1))
          (p.at s);
  }

Sound-optional :
    {P : Text → Type 0} {x : Pattern} → Sound x P → Sound (optional x) (λ t. (t ≡ []) ⊎ P t)
unfolding optional
Sound-optional p =
    Sound-alt (Sound-weaken (λ t h. inr h) p) (record { at = λ s. ((refl, inl refl), tt) })

Sound-byte : (p : ℕ → Bool) → Sound (byte p) (λ t. (c : ℕ) × (t ≡ c ∷ []) × (p c ≡ true))
Sound-byte p = record { at = go }
  where
    go :
        (s : Text)
        → All (λ a. (a.0 ++ a.1 ≡ s) × ((c : ℕ) × (a.0 ≡ c ∷ []) × (p c ≡ true))) (byte p s)
    go [] = unfold byte in tt
    go (c ∷ s) = elim (Bool-cases (p c)) [
      | inl y ↦ unfold byte in rw y ((refl, (c, refl, y)), tt)
      | inr n ↦ unfold byte in rw n tt
    ]

-- Digits, of a number between the two.
abbrev pub Bounded : ℕ → ℕ → Text → Type 0
Bounded lo hi t = Digits t × (lo ≤ decimal 0 t) × (decimal 0 t ≤ hi)

-- The first byte is no less.
abbrev pub StartsFrom : ℕ → Text → Type 0
StartsFrom lo [] = ⊥
StartsFrom lo (c ∷ s) = lo ≤ c

-- Two digits, with a zero in front where the number is less than 10.
abbrev pub Padded : ℕ → ℕ → Text → Type 0
Padded lo hi t = Digits t × (lo ≤ decimal 0 t) × (decimal 0 t ≤ hi) × (length t ≡ 2)

-- Digits with no zero in front.
abbrev pub Unpadded : ℕ → ℕ → Text → Type 0
Unpadded lo hi t = Digits t × (lo ≤ decimal 0 t) × (decimal 0 t ≤ hi) × StartsFrom b'1' t

-- Digits, of a number of them between the two.
abbrev pub Sized : ℕ → ℕ → Text → Type 0
Sized lo hi t = Digits t × (lo ≤ length t) × (length t ≤ hi)

Sound-between :
    (lo hi : ℕ) → b'1' ≤ lo → hi ≤ b'9' → Sound (between lo hi) (Unpadded (lo - b'0') (hi - b'0'))
Sound-between lo hi h k =
    Sound-weaken (λ t (c, e, inside). rw e (unfold decimal in ground arith)) (Sound-byte _)

abbrev TwoDigits : ℕ → ℕ → ℕ → Text → Type 0
TwoDigits a lo hi t = Padded lo hi t × StartsFrom a t

Sound-two :
    (a b c d : ℕ)
    → b'0' ≤ a
    → b ≤ b'9'
    → b'0' ≤ c
    → d ≤ b'9'
    → Sound
        (seq (between a b) (between c d))
        (TwoDigits a ((a - b'0') * 10 + (c - b'0')) ((b - b'0') * 10 + (d - b'0')))
Sound-two a b c d ha hb hc hd =
    Sound-weaken
      (λ t (x, y, e, (m, em, im), (n, en, inn)). rw (e, em, en) (unfold decimal in ground arith))
      (Sound-seq (Sound-byte _) (Sound-byte _))

Sound-digit : Sound digit (Sized 1 1)
Sound-digit = Sound-weaken (λ t (c, e, h). rw e (ground arith)) (Sound-byte is_digit)

Sized-append :
    (a b c d : ℕ) (s t : Text) → Sized a b s → Sized c d t → Sized (a + c) (b + d) (s ++ t)
Sized-append a b c d s t (ds, ls, us) (dt, lt', ut) = (
  All-append _ s t ds dt,
  omega (arith, length-append {0} s t),
  omega (arith, length-append {0} s t),
)

Sound-Sized-seq :
    (a b c d : ℕ) {x y : Pattern}
    → Sound x (Sized a b)
    → Sound y (Sized c d)
    → Sound (seq x y) (Sized (a + c) (b + d))
Sound-Sized-seq a b c d p q =
    Sound-weaken (λ t (s, u, e, ps, qu). rw e (Sized-append a b c d s u ps qu)) (Sound-seq p q)

Sound-Sized-optional :
    (a b : ℕ) {x : Pattern} → Sound x (Sized a b) → Sound (optional x) (Sized 0 b)
Sound-Sized-optional a b p =
    Sound-weaken
      (λ t h. elim h [
        | inl e ↦ rw e (tt, omega arith, omega arith)
        | inr k ↦ (k.0, omega arith, k.2)
      ])
      (Sound-optional p)

digit_runs-All :
    (s : Text) → All (λ a. (a.0 ++ a.1 ≡ s) × (Digits a.0 × (1 ≤ length a.0))) (digit_runs s)
unfolding digit_runs
digit_runs-All [] = tt
digit_runs-All (c ∷ s) = elim (Bool-cases (is_digit c)) [
  | inl y ↦ rw y (
      All-append _ (map (λ (a : Text × Text). (c ∷ a.0, a.1)) (digit_runs s)) ((c ∷ [], s) ∷ [])
        (All-map _ _ _ (digit_runs s)
          (λ a (e, (ds, l)). (ap (λ (t : Text). c ∷ t) e, ((y, ds), omega arith)))
          (digit_runs-All s))
        ((refl, ((y, tt), omega arith)), tt))
  | inr n ↦ rw n tt
]

Sound-digit_runs : Sound digit_runs (λ t. Digits t × (1 ≤ length t))
Sound-digit_runs = record { at = digit_runs-All }

-- What a specifier asks of the text that stands for it.
abbrev pub Fits : Specifier → Text → Type 0
Fits yyyy t = Sized 4 4 t
Fits yy t = Sized 1 3 t
Fits y0 t = Sized 2 3 t
Fits mm t = Unpadded 1 12 t
Fits m0 t = Padded 1 12 t
Fits ww t = Unpadded 1 53 t
Fits w0 t = Padded 1 53 t
Fits dd t = Unpadded 1 31 t
Fits d0 t = Padded 1 31 t
Fits micro t = Digits t × (1 ≤ length t)

one_digit : {hi : ℕ} → 9 ≤ hi → Sound (between b'1' b'9') (Unpadded 1 hi)
one_digit {hi} h =
    Sound-weaken (λ t (digits, low, high, first). (digits, omega arith, omega arith, first))
      (Sound-between b'1' b'9' (omega arith) (omega arith))

starts_later : (t : Text) (a b : ℕ) → b ≤ a → StartsFrom a t → StartsFrom b t
starts_later [] a b h k = k
starts_later (c ∷ s) a b h k = omega arith

module _ (hi a b c d : ℕ) where
  abbrev AreBytes : Type 0
  AreBytes =
      (b'0' ≤ a)
      × (b ≤ b'9')
      × (b'0' ≤ c)
      × (d ≤ b'9')
      × (1 ≤ (a - b'0') * 10 + (c - b'0'))
      × ((b - b'0') * 10 + (d - b'0') ≤ hi)

  padded : AreBytes → Sound (seq (between a b) (between c d)) (Padded 1 hi)
  padded (ha, hb, hc, hd, low, high) =
      Sound-weaken (λ t ((digits, l, h, two), first). (digits, omega arith, omega arith, two))
        (Sound-two a b c d ha hb hc hd)

  unpadded : AreBytes → b'1' ≤ a → Sound (seq (between a b) (between c d)) (Unpadded 1 hi)
  unpadded (ha, hb, hc, hd, low, high) one =
      Sound-weaken
        (λ t ((digits, l, h, two), first).
          (digits, omega arith, omega arith, starts_later t a b'1' one first))
        (Sound-two a b c d ha hb hc hd)

-- What the pattern of a specifier matches fits the specifier.
pub specifier_pattern-Fits : (spec : Specifier) → Sound (specifier_pattern spec) (Fits spec)
unfolding specifier_pattern
specifier_pattern-Fits yyyy =
    Sound-Sized-seq 1 1 3 3 Sound-digit
      (Sound-Sized-seq 1 1 2 2 Sound-digit (Sound-Sized-seq 1 1 1 1 Sound-digit Sound-digit))
specifier_pattern-Fits yy = Sound-Sized-seq 1 1 0 2 Sound-digit (
    Sound-Sized-optional 1 2
      (Sound-Sized-seq 1 1 0 1 Sound-digit (Sound-Sized-optional 1 1 Sound-digit)))
specifier_pattern-Fits y0 =
    Sound-Sized-seq 1 1 1 2 Sound-digit
      (Sound-Sized-seq 1 1 0 1 Sound-digit (Sound-Sized-optional 1 1 Sound-digit))
specifier_pattern-Fits mm =
    Sound-alt (one_digit (omega arith))
      (unpadded 12 b'1' b'1' b'0' b'2' (omega arith) (omega arith))
specifier_pattern-Fits m0 =
    Sound-alt (padded 12 b'0' b'0' b'1' b'9' (omega arith))
      (padded 12 b'1' b'1' b'0' b'2' (omega arith))
specifier_pattern-Fits ww = Sound-alt (one_digit (omega arith)) (
    Sound-alt (unpadded 53 b'1' b'4' b'0' b'9' (omega arith) (omega arith))
      (unpadded 53 b'5' b'5' b'0' b'3' (omega arith) (omega arith)))
specifier_pattern-Fits w0 = Sound-alt (padded 53 b'0' b'0' b'1' b'9' (omega arith)) (
    Sound-alt (padded 53 b'1' b'4' b'0' b'9' (omega arith))
      (padded 53 b'5' b'5' b'0' b'3' (omega arith)))
specifier_pattern-Fits dd = Sound-alt (one_digit (omega arith)) (
    Sound-alt (unpadded 31 b'1' b'2' b'0' b'9' (omega arith) (omega arith))
      (unpadded 31 b'3' b'3' b'0' b'1' (omega arith) (omega arith)))
specifier_pattern-Fits d0 = Sound-alt (padded 31 b'0' b'0' b'1' b'9' (omega arith)) (
    Sound-alt (padded 31 b'1' b'2' b'0' b'9' (omega arith))
      (padded 31 b'3' b'3' b'0' b'1' (omega arith)))
specifier_pattern-Fits micro = Sound-digit_runs
