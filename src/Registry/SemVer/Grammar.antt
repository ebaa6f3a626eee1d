-- ===== src/Registry/SemVer/Grammar.antt =====
-- The texts that `SemVerRegex` of registry/semver.go matches, as the pattern spells them.
use dewy.Common.{
  ◌>>=◌, Returns, Returns-bind, Returns-some, ℕ, Bool, true, false, some, [], ◌∷◌, ◌++◌, Text, ◌≡◌,
  ◌≢◌, ◌⊎◌, inl, inr, refl, sym, ap, arith, All, append-nil, Bool-cases, eq_of_==, ==-refl, ◌==◌,
}
use dewy.Registry.Atoi.{is_digit}
use dewy.Registry.Pattern.{
  is_identifier_byte, Digits, IdentifierBytes, span, Stops, span-append, append-span, span-All,
  span-Stops,
}
use dewy.Registry.SemVer.{
  Groups, literal, run_of, optional_group, optional_v, some_byte, end_of_text, find_groups,
  prefixed,
}

-- The text that the groups spell.
unfoldable pub spell : Groups → Text
unfolding prefixed
spell m =
    m.v
    ++ (m.major
        ++ (b'.'
            ∷ (m.minor
                ++ (b'.'
                    ∷ (m.patch
                        ++ (prefixed b'-' m.pre_release ++ prefixed b'+' m.build_metadata))))))

-- What the pattern says of the groups.
pub record IsWellFormed (m : Groups) : Type 0 where
  pub v : (m.v ≡ []) ⊎ (m.v ≡ b'v' ∷ [])
  pub major_digits : Digits m.major
  pub major_some : m.major ≢ []
  pub minor_digits : Digits m.minor
  pub minor_some : m.minor ≢ []
  pub patch_digits : Digits m.patch
  pub patch_some : m.patch ≢ []
  pub pre_release_bytes : IdentifierBytes m.pre_release
  pub build_metadata_bytes : IdentifierBytes m.build_metadata

module _ (p : ℕ → Bool) where
  run_of-append :
      (c : ℕ) (s rest : Text)
      → All (λ c. p c ≡ true) (c ∷ s)
      → Stops p rest
      → run_of p ((c ∷ s) ++ rest) ≡ some (c ∷ s, rest)
  run_of-append c s rest h stops =
      unfold run_of in ap some_byte (span-append p (c ∷ s) rest h stops)

  some_byte_sound :
      (t : Text × Text) (run rest : Text)
      → some_byte t ≡ some (run, rest)
      → (t ≡ (run, rest)) × (run ≢ [])
  some_byte_sound ([], r) run rest h = cc
  some_byte_sound (d ∷ s, r) run rest h = (ground arith, λ e. cc)

  -- What a run and its rest are of the text.
  abbrev pub Run : Text → Text × Text → Type 0
  Run s (run, rest) = (run ++ rest ≡ s) × All (λ c. p c ≡ true) run × (run ≢ []) × Stops p rest

  run_of_sound : (s run rest : Text) → run_of p s ≡ some (run, rest) → Run s (run, rest)
  unfolding run_of
  run_of_sound s run rest h =
      let (e, some_run) = some_byte_sound (span p s) run rest h in
      (rw e at (append-span p s), rw e at (span-All p s), some_run, rw e at (span-Stops p s))

literal_sound : (c : ℕ) (s rest : Text) → literal c s ≡ some rest → s ≡ c ∷ rest
unfolding literal
literal_sound c [] rest h = cc
literal_sound c (d ∷ s) rest h = ground arith

literal_self : (c : ℕ) (s : Text) → literal c (c ∷ s) ≡ some s
unfolding literal
literal_self c s = ground arith

behind :
    (c d : ℕ) (s group rest : Text)
    → c ≡ d
    → group ++ rest ≡ s
    → group ≢ []
    → prefixed c group ++ rest ≡ d ∷ s
unfolding prefixed
behind c d s [] rest same e some_run = absurd (some_run refl)
behind c d s (b ∷ group) rest same e some_run = cc

optional_group_sound :
    (c : ℕ) (s group rest : Text)
    → optional_group c s ≡ some (group, rest)
    → (prefixed c group ++ rest ≡ s) × IdentifierBytes group
unfolding optional_group prefixed
optional_group_sound c [] group rest h = ground arith
optional_group_sound c (d ∷ s) group rest h = elim (Bool-cases (c == d)) [
  | inl same ↦
      let (e, bytes, some_run, stops) =
        run_of_sound is_identifier_byte s group rest (rw same at h) in
      (behind c d s group rest (eq_of_== c d same) e some_run, bytes)
  | inr differ ↦ ground arith
]

-- A group that is not there, or one behind its byte, is found before a text that cannot go on.
pub optional_group-append :
    (c : ℕ) (group rest : Text)
    → IdentifierBytes group
    → Stops is_identifier_byte rest
    → Stops (λ d. c == d) rest
    → optional_group c (prefixed c group ++ rest) ≡ some (group, rest)
unfolding prefixed
optional_group-append c [] [] h stops other = unfold optional_group in refl
optional_group-append c [] (d ∷ rest) h stops other = unfold optional_group in rw other
optional_group-append c (d ∷ group) rest h stops other =
    unfold optional_group in rw ==-refl (run_of-append is_identifier_byte d group rest h stops)

pub optional_v_sound :
    (s : Text)
    → (((optional_v s).0 ≡ []) ⊎ ((optional_v s).0 ≡ b'v' ∷ []))
      × ((optional_v s).0 ++ (optional_v s).1 ≡ s)
unfolding optional_v
optional_v_sound [] = (inl refl, refl)
optional_v_sound (c ∷ s) = elim (Bool-cases (c == b'v')) [
  | inl same ↦ (rw same (inr refl), rw same (ap (λ (d : ℕ). d ∷ s) (sym (eq_of_== c b'v' same))))
  | inr differ ↦ (rw differ (inl refl), rw differ)
]

end_of_text_sound : (s : Text) (t : Unit {0}) → end_of_text s ≡ some t → s ≡ []
unfolding end_of_text
end_of_text_sound [] t h = refl
end_of_text_sound (c ∷ s) t h = cc

pub run_of-Returns : (p : ℕ → Bool) (s : Text) → Returns (Run p s) (run_of p s)
run_of-Returns p s = record { at = λ (run, rest) h. run_of_sound p s run rest h }

pub literal-Returns : (c : ℕ) (s : Text) → Returns (λ rest. s ≡ c ∷ rest) (literal c s)
literal-Returns c s = record { at = λ rest h. literal_sound c s rest h }

pub optional_group-Returns :
    (c : ℕ) (s : Text)
    → Returns (λ r. (prefixed c r.0 ++ r.1 ≡ s) × IdentifierBytes r.0) (optional_group c s)
optional_group-Returns c s = record {
  at = λ (group, rest) h. optional_group_sound c s group rest h;
}

pub end_of_text-Returns : (s : Text) → Returns (λ _. s ≡ []) (end_of_text s)
end_of_text-Returns s = record { at = λ t h. end_of_text_sound s t h }

find_groups-Returns : (s : Text) → Returns (λ m. IsWellFormed m × (spell m ≡ s)) (find_groups s)
unfolding find_groups
find_groups-Returns s =
    let (v_form, v_text) = optional_v_sound s in
    Returns-bind _ _ _ _ (run_of-Returns is_digit _) λ (major, s₁) (e₁, d₁, n₁, _).
      Returns-bind _ _ _ _ (literal-Returns b'.' s₁) λ s₂ e₂.
        Returns-bind _ _ _ _ (run_of-Returns is_digit s₂) λ (minor, s₃) (e₃, d₃, n₃, _).
          Returns-bind _ _ _ _ (literal-Returns b'.' s₃) λ s₄ e₄.
            Returns-bind _ _ _ _ (run_of-Returns is_digit s₄) λ (patch, s₅) (e₅, d₅, n₅, _).
              Returns-bind _ _ _ _ (optional_group-Returns b'-' s₅) λ (pre, s₆) (e₆, b₆).
                Returns-bind _ _ _ _ (optional_group-Returns b'+' s₆) λ (build, s₇) (e₇, b₇).
                  Returns-bind _ _ _ _ (end_of_text-Returns s₇) λ _ e₈. Returns-some _ _ (
                    record {
                      v = v_form;
                      major_digits = d₁;
                      major_some = n₁;
                      minor_digits = d₃;
                      minor_some = n₃;
                      patch_digits = d₅;
                      patch_some = n₅;
                      pre_release_bytes = b₆;
                      build_metadata_bytes = b₇;
                    },
                    unfold spell in
                        cc (
                          append-nil (prefixed b'+' build),
                          v_text,
                          e₁,
                          e₂,
                          e₃,
                          e₄,
                          e₅,
                          e₆,
                          e₇,
                          e₈,
                        ),
                  )

-- What is found is well formed, and the text is what it spells.
pub find_groups_sound :
    (s : Text) (m : Groups) → find_groups s ≡ some m → IsWellFormed m × (spell m ≡ s)
find_groups_sound s m h = (find_groups-Returns s).at m h

pub Stops-prefixed :
    (p : ℕ → Bool) (c : ℕ) (group : Text) → p c ≡ false → Stops p (prefixed c group)
unfolding prefixed
Stops-prefixed p c [] h = tt
Stops-prefixed p c (d ∷ group) h = h

Stops-prefixed_twice :
    (p : ℕ → Bool) (c d : ℕ) (group next : Text)
    → p c ≡ false
    → p d ≡ false
    → Stops p (prefixed c group ++ prefixed d next)
unfolding prefixed
Stops-prefixed_twice p c d [] next h k = Stops-prefixed p d next k
Stops-prefixed_twice p c d (b ∷ group) next h k = h

pub Digits-append :
    (s rest : Text)
    → Digits s
    → s ≢ []
    → Stops is_digit rest
    → run_of is_digit (s ++ rest) ≡ some (s, rest)
Digits-append [] rest h some_digit stops = absurd (some_digit refl)
Digits-append (c ∷ s) rest h some_digit stops = run_of-append is_digit c s rest h stops

pub optional_v-spell :
    (v s rest : Text)
    → (v ≡ []) ⊎ (v ≡ b'v' ∷ [])
    → Digits s
    → s ≢ []
    → optional_v (v ++ (s ++ rest)) ≡ (v, s ++ rest)
unfolding optional_v
optional_v-spell v [] rest h k some_digit = absurd (some_digit refl)
optional_v-spell v (c ∷ s) rest (inl h) k some_digit = rw h (ground (arith, k.0))
optional_v-spell v (c ∷ s) rest (inr h) k some_digit = rw h

-- What is well formed is found in the text that it spells.
pub find_groups-spell : (m : Groups) → IsWellFormed m → find_groups (spell m) ≡ some m
unfolding find_groups spell ◌>>=◌ literal end_of_text
find_groups-spell m w =
    let tail = prefixed b'-' m.pre_release ++ prefixed b'+' m.build_metadata in
    let after_minor = b'.' ∷ (m.patch ++ tail) in
    let after_major = b'.' ∷ (m.minor ++ after_minor) in
    rw (
      optional_v-spell m.v m.major after_major w.v w.major_digits w.major_some,
      Digits-append m.major after_major w.major_digits w.major_some refl,
      Digits-append m.minor after_minor w.minor_digits w.minor_some refl,
      Digits-append m.patch tail w.patch_digits w.patch_some
          (Stops-prefixed_twice is_digit b'-' b'+' m.pre_release m.build_metadata refl refl),
      optional_group-append b'-' m.pre_release (prefixed b'+' m.build_metadata) w.pre_release_bytes
          (Stops-prefixed is_identifier_byte b'+' m.build_metadata refl)
          (Stops-prefixed (λ d. b'-' == d) b'+' m.build_metadata refl),
      rw append-nil at
          (optional_group-append b'+' m.build_metadata [] w.build_metadata_bytes tt tt),
    )
