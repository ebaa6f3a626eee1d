-- ===== src/Registry/CalVer/Rounds.antt =====
-- The loop of `NewCalVerFormat` of registry/calver.go ends.
use dewy.Common.{
  ℕ, zero, suc, ◌≤◌, ◌<◌, ◌≡◌, refl, inl, inr, some, List, [], ◌∷◌, arith, Option-cases, length,
  drop, length-drop, Text,
}
use dewy.Registry.CalVer.Format.{
  Specifier, yyyy, y0, yy, m0, mm, w0, ww, d0, dd, micro, specifier_text, specifier_order, Part,
  specifier, literal, find_specifier, format_parts,
}

specifier_text-positive : (spec : Specifier) → 0 < length (specifier_text spec)
specifier_text-positive yyyy = omega arith
specifier_text-positive y0 = omega arith
specifier_text-positive yy = omega arith
specifier_text-positive m0 = omega arith
specifier_text-positive mm = omega arith
specifier_text-positive w0 = omega arith
specifier_text-positive ww = omega arith
specifier_text-positive d0 = omega arith
specifier_text-positive dd = omega arith
specifier_text-positive micro = omega arith

shorter :
    (spec : Specifier) (c : ℕ) (s : Text) (fuel : ℕ)
    → length (c ∷ s) ≤ suc fuel
    → length (drop (length (specifier_text spec)) (c ∷ s)) ≤ fuel
shorter spec c s fuel h =
    omega (arith, length-drop (length (specifier_text spec)) (c ∷ s), specifier_text-positive spec)

-- With as many rounds as the format has bytes, the loop over the format comes to its end.
pub format_parts_total :
    (fuel : ℕ) (s : Text)
    → length s ≤ fuel
    → (parts : List Part) × (format_parts fuel s ≡ some parts)
unfolding format_parts
format_parts_total zero [] h = ([], refl)
format_parts_total (suc fuel) [] h = ([], refl)
format_parts_total zero (c ∷ s) h = absurd (omega arith)
format_parts_total (suc fuel) (c ∷ s) h =
    elim (Option-cases (find_specifier specifier_order (c ∷ s))) [
      | inl missing ↦
          let (parts, e) = format_parts_total fuel s (omega arith) in
          (literal c ∷ parts, rw (missing, e, format_parts) refl)
      | inr (spec, present) ↦
          let rest = drop (length (specifier_text spec)) (c ∷ s) in
          let (parts, e) = format_parts_total fuel rest (shorter spec c s fuel h) in
          (specifier spec ∷ parts, rw (present, e, format_parts) refl)
    ]
