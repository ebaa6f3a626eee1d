-- ===== src/Registry/SemVer/Search.antt =====
-- What `FindLatestSemVerWithSlot` of registry/semver.go chooses.
use mathlib.Core.Option.{some-injective}
use dewy.Common.{
  ◌∙◌, Bool, true, false, not, ◌&&◌, some, List, [], ◌∷◌, Text, ◌≡◌, ◌↔◌, ◌⊎◌, inl, inr, refl, sym,
  ap, arith, In, Option-cases, text_eq, text_eq_iff, ◌>>=◌,
}
use dewy.Registry.Latest.{Finds, find_latest-Finds}
use dewy.Registry.PreRelease.Precedence.{IsModest, IsModest-nil}
use dewy.Registry.SemVer.{
  SemVer, Groups, find_groups, find_release_groups, sem_ver_of, parse_sem_ver,
  match_sem_ver_pattern, candidate, is_later, find_latest_sem_ver_with_slot, is_empty,
}
use dewy.Registry.SemVer.Precedence.{sem_ver_cmp, sem_ver_cmp-IsOrder, is_later-sem_ver_cmp}
use dewy.Registry.SemVer.Release.{find_release_groups_iff}
use dewy.Registry.SemVer.RoundTrip.{InRange, parse_sem_ver-InRange}

-- What the search may choose: a version of the slot, if one is asked for, and a release unless
-- pre-releases are allowed.
pub record IsEligible (slot : Text) (allow_pre_release : Bool) (name : Text) (ver : SemVer)
    : Type 0 where
  pub parsed : parse_sem_ver name ≡ some ver
  pub in_slot : (slot ≡ []) ⊎ (ver.build_metadata ≡ slot)
  pub stage : (allow_pre_release ≡ true) ⊎ (ver.pre_release ≡ [])

slot_test-false_iff :
    (slot build : Text)
    → ((not (is_empty slot) && not (text_eq build slot)) ≡ false) ↔ ((slot ≡ []) ⊎ (build ≡ slot))
slot_test-false_iff [] build = (λ h. inl refl, λ h. refl)
slot_test-false_iff (c ∷ s) build = (
  λ h. inr ((text_eq_iff build (c ∷ s)).0 (ground arith)),
  λ h. elim h [ inl none_asked ↦ cc | inr same ↦ rw ((text_eq_iff build (c ∷ s)).1 same) ],
)

-- The groups behind a parsed version.
parse_sem_ver-groups :
    (name : Text) (ver : SemVer)
    → parse_sem_ver name ≡ some ver
    → (m : Groups) × (find_groups name ≡ some m) × (sem_ver_of m ≡ ver)
unfolding parse_sem_ver ◌>>=◌
parse_sem_ver-groups name ver h = elim (Option-cases (find_groups name)) [
  | inl e ↦ absurd (cc (rw e at h))
  | inr (m, e) ↦ (m, e, some-injective _ _ (rw e at h))
]

match-false_iff :
    (name : Text) (m : Groups)
    → find_groups name ≡ some m
    → (match_sem_ver_pattern name false ≡ true) ↔ (m.pre_release ≡ [])
unfolding match_sem_ver_pattern
match-false_iff name m e = (
  λ h. elim (Option-cases (find_release_groups name)) [
    | inl missing ↦ absurd (cc (rw missing at h))
    | inr (m', found) ↦
        let (e', stable) = (find_release_groups_iff name m').0 found in
        rw (some-injective m m' (sym e ∙ e')) stable
  ],
  λ stable. rw ((find_release_groups_iff name m).1 (e, stable)),
)

match-true_iff :
    (allow_pre_release : Bool) (name : Text) (ver : SemVer)
    → parse_sem_ver name ≡ some ver
    → (match_sem_ver_pattern name allow_pre_release ≡ true)
      ↔ ((allow_pre_release ≡ true) ⊎ (ver.pre_release ≡ []))
match-true_iff true name ver h =
    let (m, e, _) = parse_sem_ver-groups name ver h in
    (λ _. inl refl, λ _. unfold match_sem_ver_pattern in rw e)
match-true_iff false name ver h =
    let (m, e, same) = parse_sem_ver-groups name ver h in
    let stage : m.pre_release ≡ ver.pre_release =
      unfold sem_ver_of in ap (λ (v : SemVer). v.pre_release) same in
    (
      λ matches. inr (sym stage ∙ (match-false_iff name m e).0 matches),
      λ k. elim k [ inl allowed ↦ cc | inr stable ↦ (match-false_iff name m e).1 (stage ∙ stable) ],
    )

candidate_sound :
    (slot : Text) (allow_pre_release : Bool) (name : Text) (ver : SemVer)
    → candidate slot allow_pre_release name ≡ some ver
    → IsEligible slot allow_pre_release name ver
unfolding candidate ◌>>=◌
candidate_sound slot allow name ver h = elim (Option-cases (parse_sem_ver name)) [
  | inl e ↦ absurd (ground arith)
  | inr (v, e) ↦
      let same : v ≡ ver = ground arith in
      let parsed : parse_sem_ver name ≡ some ver = e ∙ ap some same in
      record {
        parsed = parsed;
        in_slot = (slot_test-false_iff slot ver.build_metadata).0 (ground arith);
        stage = (match-true_iff allow name ver parsed).0 (ground arith);
      }
]

-- A name stands for a version that the search may choose exactly where it is eligible.
pub candidate_iff :
    (slot : Text) (allow_pre_release : Bool) (name : Text) (ver : SemVer)
    → (candidate slot allow_pre_release name ≡ some ver)
      ↔ IsEligible slot allow_pre_release name ver
candidate_iff slot allow name ver = (
  candidate_sound slot allow name ver,
  λ h.
      unfold candidate ◌>>=◌ in
      rw (
        (match-true_iff allow name ver h.parsed).1 h.stage,
        h.parsed,
        (slot_test-false_iff slot ver.build_metadata).1 h.in_slot,
      ),
)

module _ (names : List Text) (slot : Text) where
  -- The search finds the latest of the eligible versions, the first of them in the list, where
  -- no identifier of digits in a pre-release is too large for `int`, and none is a sign and digits;
  -- it finds nothing exactly where no name is eligible.
  pub find_latest_sem_ver_with_slot-Finds :
      (allow_pre_release : Bool)
      → ((n : Text) (v : SemVer)
          → In n names
          → candidate slot allow_pre_release n ≡ some v
          → IsModest v.pre_release)
      → Finds
          (candidate slot allow_pre_release)
          sem_ver_cmp
          names
          (find_latest_sem_ver_with_slot names slot allow_pre_release)
  unfolding find_latest_sem_ver_with_slot
  find_latest_sem_ver_with_slot-Finds allow modest =
      find_latest-Finds (candidate slot allow) is_later sem_ver_cmp sem_ver_cmp-IsOrder
        (λ v. InRange v × IsModest v.pre_release)
        (λ v w (hv, mv) (hw, mw). is_later-sem_ver_cmp v w hv hw mv mw) names
        (λ n v m c.
          (parse_sem_ver-InRange n v ((candidate_iff slot allow n v).0 c).parsed, modest n v m c))

  -- Without pre-releases the search finds the latest eligible version, the first of them in the
  -- list, whatever the names are.
  pub find_latest_releases-Finds :
      Finds
        (candidate slot false)
        sem_ver_cmp
        names
        (find_latest_sem_ver_with_slot names slot false)
  find_latest_releases-Finds = find_latest_sem_ver_with_slot-Finds false λ n v m c.
      elim ((candidate_iff slot false n v).0 c).stage [
        | inl allowed ↦ absurd (cc)
        | inr stable ↦ rw stable IsModest-nil
      ]
