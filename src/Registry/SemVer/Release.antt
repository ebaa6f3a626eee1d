-- ===== src/Registry/SemVer/Release.antt =====
-- `SemVerRegexWithoutPreRelease` of registry/semver.go matches what `SemVerRegex` matches with an
-- empty pre-release.
use dewy.Common.{
  Returns, Returns-bind, Returns-some, ◌>>=◌, Text, some, ◌≡◌, ◌↔◌, refl, [], ◌∷◌, ◌++◌, append-nil,
}
use dewy.Registry.Atoi.{is_digit}
use dewy.Registry.SemVer.{Groups, literal, end_of_text, find_groups, find_release_groups, prefixed}
use dewy.Registry.SemVer.Grammar.{
  spell, IsWellFormed, run_of-Returns, literal-Returns, optional_v_sound, optional_group-Returns,
  end_of_text-Returns, Stops-prefixed, Digits-append, optional_v-spell, optional_group-append,
  find_groups-spell, find_groups_sound,
}

find_release_groups-Returns :
    (s : Text)
    → Returns (λ m. IsWellFormed m × (spell m ≡ s) × (m.pre_release ≡ [])) (find_release_groups s)
unfolding find_release_groups
find_release_groups-Returns s =
    let (v_form, v_text) = optional_v_sound s in
    Returns-bind _ _ _ _ (run_of-Returns is_digit _) λ (major, s₁) (e₁, d₁, n₁, _).
      Returns-bind _ _ _ _ (literal-Returns b'.' s₁) λ s₂ e₂.
        Returns-bind _ _ _ _ (run_of-Returns is_digit s₂) λ (minor, s₃) (e₃, d₃, n₃, _).
          Returns-bind _ _ _ _ (literal-Returns b'.' s₃) λ s₄ e₄.
            Returns-bind _ _ _ _ (run_of-Returns is_digit s₄) λ (patch, s₅) (e₅, d₅, n₅, _).
              Returns-bind _ _ _ _ (optional_group-Returns b'+' s₅) λ (build, s₆) (e₆, b₆).
                Returns-bind _ _ _ _ (end_of_text-Returns s₆) λ _ e₇. Returns-some _ _ (
                  record {
                    v = v_form;
                    major_digits = d₁;
                    major_some = n₁;
                    minor_digits = d₃;
                    minor_some = n₃;
                    patch_digits = d₅;
                    patch_some = n₅;
                    pre_release_bytes = tt;
                    build_metadata_bytes = b₆;
                  },
                  unfold spell prefixed in
                      cc (append-nil (prefixed b'+' build), v_text, e₁, e₂, e₃, e₄, e₅, e₆, e₇),
                  refl,
                )

find_release_groups-spell :
    (m : Groups) → IsWellFormed m → m.pre_release ≡ [] → find_release_groups (spell m) ≡ some m
unfolding find_release_groups spell ◌>>=◌ literal end_of_text prefixed
find_release_groups-spell m w stable =
    let tail = prefixed b'+' m.build_metadata in
    let after_minor = b'.' ∷ (m.patch ++ tail) in
    let after_major = b'.' ∷ (m.minor ++ after_minor) in
    rw (
      stable,
      optional_v-spell m.v m.major after_major w.v w.major_digits w.major_some,
      Digits-append m.major after_major w.major_digits w.major_some refl,
      Digits-append m.minor after_minor w.minor_digits w.minor_some refl,
      Digits-append m.patch tail w.patch_digits w.patch_some
          (Stops-prefixed is_digit b'+' m.build_metadata refl),
      rw append-nil at
          (optional_group-append b'+' m.build_metadata [] w.build_metadata_bytes tt tt),
    )

-- A text matches the pattern without a pre-release, with some groups, exactly where it matches the
-- whole pattern with those groups and the pre-release is empty.
pub find_release_groups_iff :
    (s : Text) (m : Groups)
    → (find_release_groups s ≡ some m) ↔ ((find_groups s ≡ some m) × (m.pre_release ≡ []))
find_release_groups_iff s m = (
  λ h.
      let (w, e, stable) = (find_release_groups-Returns s).at m h in
      (rw e at (find_groups-spell m w), stable),
  λ (h, stable).
      let (w, e) = find_groups_sound s m h in rw e at (find_release_groups-spell m w stable),
)
